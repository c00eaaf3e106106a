-- ===== src/CoapServer/Format.antt =====
-- The CoAP message format (RFC 7252, section 3), written down independently of the code: a message as
-- data, its bytes, and what makes it well formed within the limits of this server.
use gateway_project.Base.{
  ℕ, ◌+◌, ◌-◌, ◌*◌, ◌/◌, ◌%◌, ◌≤◌, ◌<◌, ◌≡◌, List, [], ◌∷◌, ◌++◌, map, length, ltb, if◌then◌else◌,
}
use gateway_project.CoapServer.Packet.{CoapHeader, CoapOption, CoapPacket, content, maxopt}

pub record Message : Type 0 where
  pub hdr : CoapHeader
  pub token : List ℕ
  pub options : List (ℕ × List ℕ)
  pub payload : List ℕ

abbrev pub view_option : CoapOption → ℕ × List ℕ
view_option o = (o.num, content o.buf)

-- The message that a packet of the code stands for: its pointers are forgotten.
abbrev pub view : CoapPacket → Message
view k = record {
  hdr = k.hdr;
  token = content k.tok;
  options = map view_option k.opts;
  payload = content k.payload;
}

unfoldable pub nibble : ℕ → ℕ
nibble v = if ltb v 13 then v else if ltb v 269 then 13 else 14

unfoldable pub extension : ℕ → List ℕ
extension v =
    if ltb v 13
    then []
    else if ltb v 269
    then (v - 13) ∷ []
    else ((v - 269) / 256) ∷ ((v - 269) % 256) ∷ []

unfoldable pub encode_option : ℕ → ℕ → List ℕ
encode_option delta len = (nibble delta * 16 + nibble len) ∷ (extension delta ++ extension len)

unfoldable pub encode_options : ℕ → List (ℕ × List ℕ) → List ℕ
encode_options prev [] = []
encode_options prev ((num, value) ∷ os) =
    encode_option (num - prev) (length value) ++ (value ++ encode_options num os)

unfoldable pub encode_payload : List ℕ → List ℕ
encode_payload [] = []
encode_payload (b ∷ bs) = 0xFF ∷ b ∷ bs

unfoldable pub encode_header : CoapHeader → List ℕ
encode_header h = (h.ver * 64 + h.t * 16 + h.tkl) ∷ h.code ∷ h.id_hi ∷ h.id_lo ∷ []

unfoldable pub encode : Message → List ℕ
encode m =
    encode_header m.hdr ++ (m.token ++ (encode_options 0 m.options ++ encode_payload m.payload))

-- Options in ascending order of their numbers, which are bytes, with values of at most 268 bytes.
abbrev pub AreOptions : ℕ → List (ℕ × List ℕ) → Type 0
AreOptions prev [] = Unit
AreOptions prev ((num, value) ∷ os) =
    (prev ≤ num) × (num < 256) × (length value < 269) × AreOptions num os

pub record IsHeader (h : CoapHeader) : Type 0 where
  pub version : h.ver ≡ 1
  pub type : h.t < 4
  pub token_length : h.tkl ≤ 8
  pub code : h.code < 256
  pub id_hi : h.id_hi < 256
  pub id_lo : h.id_lo < 256

pub record IsMessage (m : Message) : Type 0 where
  pub header : IsHeader m.hdr
  pub token : length m.token ≡ m.hdr.tkl
  pub options : AreOptions 0 m.options
  pub room : length m.options ≤ maxopt
