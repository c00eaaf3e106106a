-- ===== src/CoapClient/Token.antt =====
-- `coap_set_token` and `coap_get_token` on the messages of the format.
use gateway_project.Base.{
  ℕ, ◌+◌, ◌^◌, ◌≤◌, ◌<◌, ◌≡◌, refl, sym, ap, ◌∙◌, subst, List, ◌++◌, append_assoc, length,
  length-append, take-length-append, drop-length-append, fetch-ok, deref, ok, ltb-false, arith,
}
use gateway_project.CoapServer.Packet.{CoapHeader}
use gateway_project.CoapServer.Format.{
  Message, encode, encode_header, encode_options, encode_payload, IsHeader, IsMessage,
}
use gateway_project.CoapClient.Pdu.{ClientError, Pdu, sub_word}
use gateway_project.CoapClient.Getters.{get_token}
use gateway_project.CoapClient.Setters.{token_bytes, make_room, set_token}
use gateway_project.CoapClient.Payload.{get_tkl_lem, length-encode_header}
use gateway_project.CoapClient.TokenRoom.{
  length-token_bytes, little_endian-token_bytes, copy_in-over, with_token, make_room-moved,
  first_byte,
}

set_token-tail :
    (h : CoapHeader) (tok tail rest : List ℕ) (token n max : ℕ)
    → IsHeader h
    → length tok ≡ h.tkl
    → n ≤ 8
    → 4 + n + length tail ≤ max
    → max ≡ 4 + (length tok + (length tail + length rest))
    → max < 2 ^ 63
    → (left : List ℕ) × (set_token
          (record {
            buf = encode_header h ++ (tok ++ (tail ++ rest));
            len = 4 + (length tok + length tail);
            max = max;
          })
          token
          n
        ≡ ok (record {
          buf = encode_header (record h { tkl = n }) ++ (token_bytes n token ++ (tail ++ left));
          len = 4 + (n + length tail);
          max = max;
        }))
unfolding set_token encode_header deref
set_token-tail h tok tail rest token n max w e hn room hmax small =
    let (t, left, et, moved) =
      make_room-moved max n hn small (encode_header h) tok tail rest (length-encode_header h) room
        hmax in
    let size : sub_word (4 + (length tok + length tail) + n) h.tkl ≡ 4 + (n + length tail) =
      omega (arith, e, hmax, small, room) in
    let buf = encode_header h ++ (tok ++ (tail ++ rest)) in
    let made =
      subst
        (λ x.
          make_room (record { buf = buf; len = 4 + (length tok + length tail); max = max }) n x
          ≡ ok (encode_header h ++ (t ++ (tail ++ left))))
        e moved in
    let over =
      copy_in-over (encode_header h) t (token_bytes n token) (tail ++ left)
        (omega (arith, et, length-token_bytes n token)) in
    (
      left,
      rw (
        ltb-false max (4 + n) (omega (arith, room)),
        ltb-false 8 n hn,
        get_tkl_lem h (tok ++ (tail ++ rest)) (4 + (length tok + length tail)) max w,
        made,
        over,
        size,
        first_byte h n w hn,
      ),
    )

-- The message that a number was set in reads back as that number.
get_token-tail :
    (h : CoapHeader) (rest : List ℕ) (token n len max : ℕ)
    → IsHeader (record h { tkl = n })
    → token < 256 ^ n
    → 4 + n ≤ len
    → get_token (record {
      buf = encode_header (record h { tkl = n }) ++ (token_bytes n token ++ rest);
      len = len;
      max = max;
    })
      ≡ ok token
unfolding get_token
get_token-tail h rest token n len max w small room =
    let q = token_bytes n token in
    rw (
      get_tkl_lem (record h { tkl = n }) (q ++ rest) len max w,
      ltb-false len (4 + n) room,
      ltb-false 8 n w.token_length,
      drop-length-append 4 (encode_header (record h { tkl = n })) (q ++ rest)
          (sym (length-encode_header (record h { tkl = n }))),
      fetch-ok {E = ClientError} (q ++ rest) n
          (omega (arith, length-append q rest, length-token_bytes n token)),
      take-length-append n q rest (sym (length-token_bytes n token)),
      little_endian-token_bytes n token small,
    )

abbrev pub packet_of : Message → (rest : List ℕ) → (max : ℕ) → Pdu
packet_of m rest max = record { buf = encode m ++ rest; len = length (encode m); max = max }

abbrev tail_of : Message → List ℕ
tail_of m = encode_options 0 m.options ++ encode_payload m.payload

length-encode : (m : Message) → length (encode m) ≡ 4 + (length m.token + length (tail_of m))
unfolding encode
length-encode m = omega (
  arith,
  length-append (encode_header m.hdr) (m.token ++ tail_of m),
  length-append m.token (tail_of m),
  length-encode_header m.hdr,
)

packet_of_lem :
    (m : Message) (rest : List ℕ) (max len : ℕ)
    → len ≡ length m.token + length (tail_of m)
    → packet_of m rest max ≡ record {
      buf = encode_header m.hdr ++ (m.token ++ (tail_of m ++ rest));
      len = 4 + len;
      max = max;
    }
unfolding encode
packet_of_lem m rest max len e = rw (
  length-encode m,
  e,
  append_assoc (encode_header m.hdr) (m.token ++ tail_of m) rest,
  append_assoc m.token (tail_of m) rest,
)

-- `coap_set_token` for a number of `tkl` bytes, at most 8, on a buffer of `max` bytes that begins with
-- the bytes of a well-formed message, whose length is the length of the message, and whatever follows
-- it: if the message with the new token fits into the buffer, the buffer afterwards begins with exactly
-- that message, in which the header's other fields, the options and the payload are as before, with its
-- length; and `coap_get_token` gives the number.
pub get_token-set_token :
    (m : Message) (token tkl max : ℕ) (rest : List ℕ)
    → IsMessage m
    → tkl ≤ 8
    → token < 256 ^ tkl
    → max ≡ length (encode m) + length rest
    → length (encode (with_token m token tkl)) ≤ max
    → max < 2 ^ 63
    → (left : List ℕ) × (set_token (packet_of m rest max) token tkl
        ≡ ok (packet_of (with_token m token tkl) left max))
      × (get_token (packet_of (with_token m token tkl) left max) ≡ ok token)
get_token-set_token m token tkl max rest w htkl small hmax room hm =
    let new = with_token m token tkl in
    let tail = tail_of m in
    let size = length-token_bytes tkl token in
    let fits : 4 + (tkl + length tail) ≤ max = omega (arith, room, length-encode new, size) in
    let (left, done) =
      set_token-tail m.hdr m.token tail rest token tkl max w.header w.token htkl
        (omega (arith, fits)) (omega (arith, hmax, length-encode m)) hm in
    let before = packet_of_lem m rest max (length m.token + length tail) refl in
    let after = packet_of_lem new left max (tkl + length tail) (omega (arith, size)) in
    let read =
      get_token-tail m.hdr (tail ++ left) token tkl (4 + (tkl + length tail)) max
        (record {
          version = w.header.version;
          type = w.header.type;
          token_length = htkl;
          code = w.header.code;
          id_hi = w.header.id_hi;
          id_lo = w.header.id_lo;
        })
        small (omega arith) in
    (
      left,
      ap (λ pdu. set_token pdu token tkl) before ∙ done ∙ ap ok (sym after),
      ap get_token after ∙ read,
    )
