-- ===== src/CoapClient/Lookup.antt =====
-- `coap_get_option_by_num` on the messages of the format.
use gateway_project.Base.{
  ℕ, ◌+◌, ◌-◌, ◌^◌, ◌<◌, ◌≡◌, ◌≢◌, refl, List, ◌++◌, append_assoc, length, length-append, get_elem?,
  ok, arith,
}
use gateway_project.CoapServer.Format.{
  Message, encode, encode_header, encode_options, encode_payload, IsMessage,
}
use gateway_project.CoapClient.Pdu.{Pdu, ClientOption}
use gateway_project.CoapClient.Getters.{get_tkl, next_option, no_option, get_option_by_num}
use gateway_project.CoapClient.Payload.{get_tkl_lem, length-encode_header}
use gateway_project.CoapClient.NextOption.{values_with, Finds, ArePositive}
use gateway_project.CoapClient.LookupRounds.{option_loop-encode}

-- On a buffer that begins with the bytes of a well-formed message of the format of fewer than 2 ^ 63
-- bytes, whose length is the length of the message, and whatever follows it: if no option has the
-- number 0, `coap_get_option_by_num` for a number that is not 0 and an occurrence below 255 finds, among
-- the options with this number in their order, the one with this occurrence, counted from 0: the result
-- has the number, and the length and the offset of the value in the buffer. If there is no such option
-- the result has the number 0. Fuel for one round more than the number of options is enough.
pub get_option_by_num-values_with :
    (m : Message) (fuel gap num occ max : ℕ) (junk : List ℕ)
    → IsMessage m
    → ArePositive m.options
    → num ≢ 0
    → occ < 255
    → length m.options < fuel
    → length (encode m) < 2 ^ 63
    → (r : ClientOption) × (get_option_by_num fuel gap
          (record { buf = encode m ++ junk; len = length (encode m); max = max })
          num
          occ
        ≡ ok r)
      × Finds (encode m ++ junk) num (get_elem? (values_with num m.options) occ) r
unfolding get_option_by_num encode next_option
get_option_by_num-values_with m fuel gap num occ max junk w pos nz ob f small =
    let head = encode_header m.hdr in
    let body = encode_options 0 m.options ++ encode_payload m.payload in
    let pdu : Pdu = record { buf = encode m ++ junk; len = length (encode m); max = max } in
    let start : 4 + m.hdr.tkl ≡ length (head ++ m.token) =
      omega (arith, length-append head m.token, w.token, length-encode_header m.hdr) in
    let bytes : pdu.buf ≡ (head ++ m.token) ++ (body ++ junk) = rw (
      append_assoc head (m.token ++ body) junk,
      append_assoc m.token body junk,
      append_assoc head m.token (body ++ junk),
    ) in
    let tkl : get_tkl pdu ≡ ok m.hdr.tkl =
      rw (append_assoc head (m.token ++ body) junk)
        (get_tkl_lem m.hdr ((m.token ++ body) ++ junk) pdu.len max w.header) in
    let total : pdu.len ≡ length (head ++ m.token) + length body = omega (
      arith,
      length-append head (m.token ++ body),
      length-append m.token body,
      length-append head m.token,
    ) in
    let (r, run, fin) =
      option_loop-encode fuel gap m.hdr.tkl num occ 0 0 (head ++ m.token) m.options m.payload junk
        pdu no_option bytes tkl start refl w.options pos total small f nz (omega arith) ob in
    let all : occ - 0 ≡ occ = omega arith in (r, run, rw all at fin)
