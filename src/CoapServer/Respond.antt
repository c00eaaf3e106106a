-- ===== src/CoapServer/Respond.antt =====
-- Responses: `coap_findOptions` and `coap_make_response` of coapServer/microcoap.c.
use gateway_project.Base.{
  ℕ, ◌+◌, ◌/◌, ◌%◌, List, [], ◌∷◌, Option, none, some, drop, ltb, ◌==◌, if◌then◌else◌,
}
use gateway_project.CoapServer.Packet.{
  CoapError, buffer_too_small, CoapHeader, CoapBuffer, CoapOption, CoapPacket,
}

-- The loop of `coap_findOptions`. `first` points into the array of options, so it is what follows
-- there; `count` is a uint8_t.
unfoldable pub find_loop :
    ℕ → Option (List CoapOption) → ℕ → List CoapOption → Option (List CoapOption) × ℕ
find_loop num first count [] = (first, count)
find_loop num none count (o ∷ os) =
    let hit = find_loop num (some (o ∷ os)) ((count + 1) % 256) os in
    let miss = find_loop num none count os in if o.num == num then hit else miss
find_loop num (some f) count (o ∷ os) =
    let hit = find_loop num (some f) ((count + 1) % 256) os in
    if o.num == num then hit else (some f, count)

unfoldable pub find_options : CoapPacket → ℕ → Option (List CoapOption) × ℕ
find_options pkt num = find_loop num none 0 pkt.opts

-- `coap_responsecode_t` and `coap_content_type_t`, the latter cast to uint16_t.
pub data ResponseCode : Type 0 where
  content_205 : ResponseCode
  not_found : ResponseCode
  bad_request : ResponseCode
  changed : ResponseCode

abbrev pub response_code : ResponseCode → ℕ
response_code content_205 = 69
response_code not_found = 132
response_code bad_request = 128
response_code changed = 68

pub data ContentType : Type 0 where
  none_given : ContentType
  text_plain : ContentType
  linkformat : ContentType

abbrev pub content_type_u16 : ContentType → ℕ
content_type_u16 none_given = 65535
content_type_u16 text_plain = 0
content_type_u16 linkformat = 40

abbrev pub option_uri_path : ℕ
option_uri_path = 11

abbrev pub option_content_format : ℕ
option_content_format = 12

abbrev pub type_ack : ℕ
type_ack = 2

-- The return code, the response packet, and the scratch buffer.
pub record Response : Type 0 where
  pub rc : Option CoapError
  pub pkt : CoapPacket
  pub scratch : List ℕ

-- `stale` is the value of `pkt->opts[0].buf.len` before the call, which the early return leaves. All
-- callers pass a token. The scratch buffer is written at its first two bytes.
unfoldable pub make_response :
    (stale : ℕ) (scratch : CoapBuffer) (body : CoapBuffer) (id_hi id_lo : ℕ) (tok : CoapBuffer)
    → ResponseCode
    → ContentType
    → Response
make_response stale scratch body id_hi id_lo tok code type =
    let hdr : CoapHeader = record {
      ver = 1;
      t = type_ack;
      tkl = tok.len % 256;
      code = response_code code;
      id_hi = id_hi;
      id_lo = id_lo;
    } in
    let u = content_type_u16 type in
    let bytes = (u / 256) ∷ (u % 256) ∷ drop 2 scratch.p in
    if ltb scratch.len 2
    then record {
      rc = some buffer_too_small;
      pkt = record {
        hdr = hdr;
        tok = tok;
        opts =
            record { num = option_content_format; buf = record { p = scratch.p; len = stale } }
            ∷ [];
        payload = record { p = []; len = 0 };
      };
      scratch = scratch.p;
    }
    else record {
      rc = none;
      pkt = record {
        hdr = hdr;
        tok = tok;
        opts = record { num = option_content_format; buf = record { p = bytes; len = 2 } } ∷ [];
        payload = body;
      };
      scratch = bytes;
    }
