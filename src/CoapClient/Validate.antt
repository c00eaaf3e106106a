-- ===== src/CoapClient/Validate.antt =====
-- `coap_validate_pkt` on the messages of the format.
use gateway_project.Base.{
  ℕ, ◌+◌, ◌-◌, ◌*◌, ◌/◌, ◌^◌, ◌≤◌, ◌<◌, ◌≡◌, sym, List, [], ◌∷◌, ◌++◌, append_assoc, length,
  length-append, ok, deref, arith, ==_false, ltb-false,
}
use gateway_project.CoapServer.Packet.{CoapHeader}
use gateway_project.CoapServer.Format.{
  Message, encode, encode_header, encode_options, encode_option, encode_payload, AreOptions,
  IsMessage, IsHeader,
}
use gateway_project.CoapClient.Pdu.{sub_word}
use gateway_project.CoapClient.Getters.{get_version, validate_pkt, validate_first}
use gateway_project.CoapClient.Header.{length-encode_option}
use gateway_project.CoapClient.HeaderDecode.{decode_option-encode_option}
use gateway_project.CoapClient.Message.{decode_option-end, header_bounds}
use gateway_project.CoapClient.Payload.{decode_option-marker, get_tkl_lem, length-encode_header}

get_version_lem :
    (h : CoapHeader) (rest : List ℕ) (len max : ℕ)
    → IsHeader h
    → get_version (record { buf = encode_header h ++ rest; len = len; max = max }) ≡ ok 1
unfolding get_version encode_header deref
get_version_lem h rest len max w =
    let e : (h.ver * 64 + h.t * 16 + h.tkl) / 64 ≡ 1 =
      omega (arith, w.version, w.type, w.token_length) in
    rw e

-- The check of the options and the payload.
validate_first-encode :
    (len max : ℕ) (p : List ℕ) (os : List (ℕ × List ℕ)) (msg junk : List ℕ)
    → AreOptions 0 os
    → len ≡ length p + length (encode_options 0 os ++ encode_payload msg)
    → len < 2 ^ 63
    → validate_first
        (record {
          buf = p ++ ((encode_options 0 os ++ encode_payload msg) ++ junk);
          len = len;
          max = max;
        })
        (length p)
      ≡ ok tt
unfolding validate_first encode_options encode_payload
validate_first-encode len max p [] [] junk w e small = rw (
  validate_first,
  decode_option-end (p ++ junk) (length p) (sub_word len (length p)) (omega (arith, e, small)),
)
validate_first-encode len max p [] (b ∷ bs) junk w e small = rw (
  validate_first,
  decode_option-marker p ((b ∷ bs) ++ junk) (sub_word len (length p)) (omega (arith, e, small)),
  ==_false len (length p) (omega (arith, e)),
)
validate_first-encode len max p ((num, value) ∷ os) msg junk (o, n, v, w) e small =
    let enc = encode_option (num - 0) (length value) in
    let more = value ++ encode_options num os in
    let ep = encode_payload msg in
    let len-all : length ((enc ++ more) ++ ep) ≡ length enc + length (more ++ ep) =
      omega
        (arith, length-append (enc ++ more) ep, length-append enc more, length-append more ep) in
    rw (
      append_assoc (enc ++ more) ep junk,
      append_assoc enc more (ep ++ junk),
      validate_first,
      decode_option-encode_option p (more ++ (ep ++ junk)) (num - 0) (length value)
          (sub_word len (length p)) (omega (arith, n)) (omega (arith, v))
          (omega (
            arith,
            e,
            small,
            len-all,
            length-encode_option (num - 0) (length value),
            header_bounds (num - 0) (length value),
          )),
    )

-- `coap_validate_pkt` accepts every well-formed message of the format of fewer than 2 ^ 63 bytes, in a
-- buffer that begins with its bytes and whose size is given as at least the length of the message.
pub validate_pkt-encode :
    (m : Message) (max : ℕ) (junk : List ℕ)
    → IsMessage m
    → length (encode m) ≤ max
    → length (encode m) < 2 ^ 63
    → validate_pkt (record { buf = encode m ++ junk; len = length (encode m); max = max }) ≡ ok tt
unfolding validate_pkt encode
validate_pkt-encode m max junk w fits small =
    let head = encode_header m.hdr in
    let body = encode_options 0 m.options ++ encode_payload m.payload in
    let len = length (head ++ (m.token ++ body)) in
    let start : length (head ++ m.token) ≡ 4 + m.hdr.tkl =
      omega (arith, length-append head m.token, w.token, length-encode_header m.hdr) in
    let total : len ≡ length (head ++ m.token) + length body = omega (
      arith,
      length-append head (m.token ++ body),
      length-append m.token body,
      length-append head m.token,
    ) in
    rw
      (
        ltb-false max len (omega (arith, fits)),
        ltb-false len 4 (omega (arith, total, start)),
        append_assoc head (m.token ++ body) junk,
        get_version_lem m.hdr ((m.token ++ body) ++ junk) len max w.header,
        get_tkl_lem m.hdr ((m.token ++ body) ++ junk) len max w.header,
        ltb-false 8 m.hdr.tkl (omega (arith, w.header.token_length)),
        sym start,
        append_assoc m.token body junk,
        sym (append_assoc head m.token (body ++ junk)),
      )
      (validate_first-encode len max (head ++ m.token) m.options m.payload junk w.options total
        small)
