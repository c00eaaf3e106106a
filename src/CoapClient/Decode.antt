-- ===== src/CoapClient/Decode.antt =====
-- `coap_decode_option` of coapClient/picocoap.c.
use gateway_project.Base.{
  ℕ, ◌+◌, ◌*◌, ◌/◌, ◌%◌, ◌^◌, List, ltb, ◌==◌, if◌then◌else◌, Run, ok, err, ◌>>=◌, deref,
}
use gateway_project.CoapClient.Pdu.{
  ClientError, invalid_packet, end_of_packet, found_payload_marker,
}

-- A delta or a length with its extension, and the pointer behind it.
pub record Extended : Type 0 where
  pub value : ℕ
  pub next : ℕ

unfoldable pub decode_extended : List ℕ → (nibble ptr : ℕ) → Run ClientError Extended
decode_extended buf nibble ptr =
    if ltb nibble 13
    then ok (record { value = nibble; next = ptr })
    else if nibble == 13
    then (do b ← deref buf ptr; ok (record { value = b + 13; next = ptr + 1 }))
    else if nibble == 14
    then (do
      b ← deref buf ptr
      c ← deref buf (ptr + 1)
      ok (record { value = (b * 256 + c + 269) % 2 ^ 16; next = ptr + 2 }))
    else err invalid_packet

-- What the function adds to `*option_number`, and what it stores in the other two arguments.
pub record Decoded : Type 0 where
  pub delta : ℕ
  pub length : ℕ
  pub value : ℕ

unfoldable pub decode_option : List ℕ → (ptr pkt_len : ℕ) → Run ClientError Decoded
decode_option buf ptr pkt_len = if pkt_len == 0 then err end_of_packet else do
  b ← deref buf ptr
  if b == 0xFF then err found_payload_marker else do
    d ← decode_extended buf (b / 16) (ptr + 1)
    l ← decode_extended buf (b % 16) d.next
    ok (record { delta = d.value; length = l.value; value = l.next })
