-- ===== src/CoapClient/HeaderDecode.antt =====
-- `coap_decode_option` reads back an option header.
use gateway_project.Base.{
  ℕ, ◌+◌, ◌-◌, ◌*◌, ◌/◌, ◌%◌, ◌≤◌, ◌<◌, ◌≡◌, ◌≢◌, refl, sym, List, [], ◌∷◌, ◌++◌, append_assoc,
  length, drop, length-append, ltb-false, ==_false, lt→ltb, ok, arith, dec_lt,
}
use gateway_project.CoapServer.Format.{nibble, extension, encode_option}
use gateway_project.CoapClient.Pdu.{ClientError}
use gateway_project.Base.Writes.{deref-append}
use gateway_project.CoapClient.Decode.{decode_extended, decode_option}
use gateway_project.CoapClient.Options.{
  extension_len, compute_option_header_len, Built, build_option_header,
}
use gateway_project.CoapClient.Header.{
  build_option_header-encode_option, nibble_bound, length-extension,
}

decode_extended-none :
    (buf : List ℕ) (v ptr : ℕ)
    → v < 13
    → decode_extended buf (nibble v) ptr ≡ ok (record { value = v; next = ptr + extension_len v })
unfolding decode_extended nibble extension_len
decode_extended-none buf v ptr h =
    let e : ptr + 0 ≡ ptr = omega arith in rw (lt→ltb v 13 h, lt→ltb v 13 h, e)

decode_extended-byte :
    (pre rest : List ℕ) (v ptr : ℕ)
    → ptr ≡ length pre
    → 13 ≤ v
    → v < 269
    → decode_extended (pre ++ (extension v ++ rest)) (nibble v) ptr
      ≡ ok (record { value = v; next = ptr + extension_len v })
unfolding decode_extended nibble extension_len extension
decode_extended-byte pre rest v ptr e low high =
    let back : v - 13 + 13 ≡ v = omega arith in
    rw (
      ltb-false v 13 low,
      lt→ltb v 269 high,
      deref-append ClientError pre (v - 13) rest ptr e,
      back,
    )

decode_extended-word :
    (pre rest : List ℕ) (v ptr : ℕ)
    → ptr ≡ length pre
    → 269 ≤ v
    → v < 65536
    → decode_extended (pre ++ (extension v ++ rest)) (nibble v) ptr
      ≡ ok (record { value = v; next = ptr + extension_len v })
unfolding decode_extended nibble extension_len extension
decode_extended-word pre rest v ptr e low high =
    let hi = (v - 269) / 256 in
    let lo = (v - 269) % 256 in
    let back : (hi * 256 + lo + 269) % 65536 ≡ v = omega arith in
    rw (
      ltb-false v 13 (omega arith),
      ltb-false v 269 low,
      deref-append ClientError pre hi (lo ∷ rest) ptr e,
      sym (append_assoc pre (hi ∷ []) (lo ∷ rest)),
      deref-append ClientError (pre ++ (hi ∷ [])) lo rest (ptr + 1)
          (omega (arith, length-append pre (hi ∷ []))),
      back,
    )

decode_extended_lem :
    (pre rest : List ℕ) (v ptr : ℕ)
    → ptr ≡ length pre
    → v < 65536
    → decode_extended (pre ++ (extension v ++ rest)) (nibble v) ptr
      ≡ ok (record { value = v; next = ptr + extension_len v })
decode_extended_lem pre rest v ptr e high = elim (dec_lt v 13) [
  | yes tiny ↦ decode_extended-none (pre ++ (extension v ++ rest)) v ptr tiny
  | no big ↦ elim (dec_lt v 269) [
    | yes small ↦ decode_extended-byte pre rest v ptr e (omega (arith, big)) small
    | no large ↦ decode_extended-word pre rest v ptr e (omega (arith, large)) high
  ]
]

-- `coap_decode_option` reads a header of the message format.
pub decode_option-encode_option :
    (p rest : List ℕ) (d l pkt_len : ℕ)
    → d < 65536
    → l < 65536
    → pkt_len ≢ 0
    → decode_option (p ++ (encode_option d l ++ rest)) (length p) pkt_len
      ≡ ok (record { delta = d; length = l; value = length p + compute_option_header_len d l })
unfolding decode_option encode_option compute_option_header_len
decode_option-encode_option p rest d l pkt_len hd hl ne =
    let b = nibble d * 16 + nibble l in
    let xd = extension d in
    let xl = extension l in
    let high : b / 16 ≡ nibble d = omega (arith, nibble_bound l) in
    let low : b % 16 ≡ nibble l = omega (arith, nibble_bound l) in
    let small : b ≢ 255 = omega (arith, nibble_bound d, nibble_bound l) in
    let sum : length p + 1 + extension_len d + extension_len l
        ≡ length p + (1 + extension_len d + extension_len l) =
      omega arith in
    let front : decode_extended (p ++ (b ∷ ((xd ++ xl) ++ rest))) (nibble d) (length p + 1)
        ≡ ok (record { value = d; next = length p + 1 + extension_len d }) =
      rw (sym (append_assoc p (b ∷ []) ((xd ++ xl) ++ rest)), append_assoc xd xl rest)
        (decode_extended_lem (p ++ (b ∷ [])) (xl ++ rest) d (length p + 1)
          (omega (arith, length-append p (b ∷ []))) hd) in
    let back : decode_extended (p ++ (b ∷ ((xd ++ xl) ++ rest))) (nibble l)
          (length p + 1 + extension_len d)
        ≡ ok (record { value = l; next = length p + 1 + extension_len d + extension_len l }) =
      rw (append_assoc xd xl rest, sym (append_assoc p (b ∷ xd) (xl ++ rest)))
        (decode_extended_lem (p ++ (b ∷ xd)) rest l (length p + 1 + extension_len d)
          (omega (arith, length-append p (b ∷ xd), length-extension d)) hl) in
    rw (
      ==_false pkt_len 0 ne,
      deref-append ClientError p b ((xd ++ xl) ++ rest) (length p) refl,
      ==_false b 255 small,
      high,
      front,
      low,
      back,
      sum,
    )

-- Behind any bytes `p` and with room for the header, `coap_decode_option` reads back from what
-- `coap_build_option_header` writes, for a delta and a length below 65536 and a packet length that is
-- not 0: the delta, the length, and the pointer behind the header, whose distance is the number that
-- `coap_build_option_header` returns when it is given the length that `coap_compute_option_header_len`
-- computes.
pub decode_option-build_option_header :
    (p rest : List ℕ) (d l pkt_len : ℕ)
    → d < 65536
    → l < 65536
    → pkt_len ≢ 0
    → compute_option_header_len d l ≤ length rest
    → (built : Built) × (build_option_header
          (p ++ rest)
          (length p)
          (compute_option_header_len d l)
          d
          l
        ≡ ok built)
      × (decode_option built.buf (length p) pkt_len
          ≡ ok (record { delta = d; length = l; value = length p + built.result }))
decode_option-build_option_header p rest d l pkt_len hd hl ne room =
    let tail = drop (compute_option_header_len d l) rest in
    (
      record { buf = (p ++ encode_option d l) ++ tail; result = compute_option_header_len d l },
      build_option_header-encode_option p rest d l hd hl room,
      rw (append_assoc p (encode_option d l) tail)
          (decode_option-encode_option p tail d l pkt_len hd hl ne),
    )
