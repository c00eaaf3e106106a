-- ===== src/CoapClient/Options.antt =====
-- The functions of coapClient/picocoap.c that add options and the payload.
use gateway_project.Base.{
  ℕ, zero, suc, ◌+◌, ◌-◌, ◌*◌, ◌/◌, ◌%◌, ◌^◌, List, [], ◌∷◌, Bool, true, false, ltb, leb, ◌==◌,
  ◌&&◌, if◌then◌else◌, Run, ok, err, fault, out_of_fuel, ◌>>=◌, fetch, bit_or,
}
use gateway_project.Base.Writes.{poke, copy_in, move}
use gateway_project.CoapClient.Pdu.{
  ClientError, insufficient_buffer, end_of_packet, found_payload_marker, Pdu, word, sub_word,
  with_buf, with_len,
}
use gateway_project.CoapClient.Decode.{Decoded, decode_option}
use gateway_project.CoapClient.Getters.{get_tkl}

unfoldable pub extension_len : ℕ → ℕ
extension_len v = if ltb v 13 then 0 else if ltb v 269 then 1 else 2

unfoldable pub compute_option_header_len : (opt_delta opt_len : ℕ) → ℕ
compute_option_header_len opt_delta opt_len = 1 + extension_len opt_delta + extension_len opt_len

abbrev pub nibble_of : ℕ → ℕ
nibble_of v = if ltb v 13 then v else if ltb v 269 then 13 else 14

-- The extension of a delta or a length, as it is written.
abbrev pub extension_bytes : ℕ → List ℕ
extension_bytes v =
    if ltb v 13
    then []
    else if ltb v 269
    then ((v - 13) % 256) ∷ []
    else ((v - 269) / 256 % 256) ∷ ((v - 269) % 256) ∷ []

-- What the function leaves in memory, and its result: the value of CE_INSUFFICIENT_BUFFER is 7.
pub record Built : Type 0 where
  pub buf : List ℕ
  pub result : ℕ

unfoldable pub build_length :
    List ℕ → (ptr max_len opt_delta opt_len used : ℕ) → Run ClientError Built
build_length buf ptr max_len opt_delta opt_len used =
    if ltb max_len (used + extension_len opt_len)
    then ok (record { buf = buf; result = 7 })
    else (do
      extended ← copy_in buf (ptr + used) (extension_bytes opt_len)
      whole ← poke extended ptr (bit_or (nibble_of opt_delta * 16 % 256) (nibble_of opt_len))
      ok (record { buf = whole; result = used + extension_len opt_len }))

unfoldable pub build_option_header :
    List ℕ → (ptr max_len opt_delta opt_len : ℕ) → Run ClientError Built
build_option_header buf ptr max_len opt_delta opt_len =
    if ltb max_len (1 + extension_len opt_delta) then ok (record { buf = buf; result = 7 }) else (do
      extended ← copy_in buf (ptr + 1) (extension_bytes opt_delta)
      build_length extended ptr max_len opt_delta opt_len (1 + extension_len opt_delta))

-- The memory and `*opts_len` when the function returns; its result is not used.
pub record Adjusted : Type 0 where
  pub buf : List ℕ
  pub opts_len : ℕ

-- One round of `coap_adjust_option_deltas` on a decoded option: a new header, for which the value is
-- moved. `back` is the negated `offset`; `none` stands for a return.
unfoldable pub adjust_option :
    List ℕ → (ptr opts_len max_len nopt_num : ℕ) → Decoded → Run ClientError Adjusted
adjust_option buf ptr opts_len max_len nopt_num d =
    let found = d.value - ptr in
    let new = compute_option_header_len nopt_num d.length in
    if found == new
    then (do
      built ← build_option_header buf ptr new nopt_num d.length
      ok (record { buf = built.buf; opts_len = opts_len }))
    else if ltb max_len (sub_word (opts_len + new) found)
    then err insufficient_buffer
    else (do
      moved ← move buf (d.value + new - found) d.value d.length
      built ← build_option_header moved ptr new nopt_num d.length
      ok (record { buf = built.buf; opts_len = sub_word (opts_len + new) found }))

unfoldable pub adjust_option_deltas :
    (fuel : ℕ)
    → List ℕ
    → (opts_start ptr fopt_num opts_len max_len back : ℕ) → Run ClientError Adjusted
adjust_option_deltas zero buf opts_start ptr fopt_num opts_len max_len back = out_of_fuel
adjust_option_deltas (suc fuel) buf opts_start ptr fopt_num opts_len max_len back =
    elim (ltb opts_len (ptr - opts_start)) [
      | true ↦ ok (record { buf = buf; opts_len = opts_len })
      | false ↦ elim (decode_option buf ptr (sub_word opts_len (ptr - opts_start))) [
        | ok d ↦
            let num = (fopt_num + d.delta) % 2 ^ 16 in
            elim (adjust_option buf ptr opts_len max_len ((num + 2 ^ 32 - back) % 2 ^ 16) d) [
              | ok a ↦
                  adjust_option_deltas fuel a.buf opts_start (d.value + d.length) num a.opts_len
                    max_len back
              | err e ↦ ok (record { buf = buf; opts_len = opts_len })
              | fault ↦ fault
              | out_of_fuel ↦ out_of_fuel
            ]
        | err e ↦ ok (record { buf = buf; opts_len = opts_len })
        | fault ↦ fault
        | out_of_fuel ↦ out_of_fuel
      ]
    ]

-- The insertion point: the pointer, the option number before it, and whether the end of the packet
-- was found there.
pub record Place : Type 0 where
  pub ptr : ℕ
  pub number : ℕ
  pub at_end : Bool
  pub at_marker : Bool

-- The loop that finds the insertion point, for options up to a number.
unfoldable pub find_place : (fuel : ℕ) → Pdu → (up_to ptr number : ℕ) → Run ClientError Place
find_place zero pdu up_to ptr number = out_of_fuel
find_place (suc fuel) pdu up_to ptr number =
    elim (decode_option pdu.buf ptr (sub_word pdu.len ptr)) [
      | ok d ↦ elim (leb ((number + d.delta) % 2 ^ 16) up_to && ltb (ptr + d.length) pdu.len) [
        | true ↦ find_place fuel pdu up_to (d.value + d.length) ((number + d.delta) % 2 ^ 16)
        | false ↦ ok (record { ptr = ptr; number = number; at_end = false; at_marker = false })
      ]
      | err end_of_packet ↦
          ok (record { ptr = ptr; number = number; at_end = true; at_marker = false })
      | err found_payload_marker ↦
          ok (record { ptr = ptr; number = number; at_end = false; at_marker = true })
      | err e ↦ err e
      | fault ↦ fault
      | out_of_fuel ↦ out_of_fuel
    ]

-- The tail of the packet is moved behind the place of the new option, and its deltas are adjusted.
unfoldable pub open_gap : (fuel : ℕ) → Pdu → (opt_num gap : ℕ) → Place → Run ClientError Pdu
open_gap fuel pdu opt_num gap place =
    if pdu.len == place.ptr then ok (with_len pdu (pdu.len + gap)) else (do
      moved ← move pdu.buf (place.ptr + gap) place.ptr (sub_word pdu.len place.ptr)
      let opts_len = sub_word (pdu.len + gap) place.ptr in
          (do
            adjusted ←
                adjust_option_deltas fuel moved (place.ptr + gap) (place.ptr + gap) 0 opts_len
                  (sub_word pdu.max place.ptr) (opt_num - place.number)
            ok (record {
              buf = adjusted.buf;
              len = sub_word (pdu.len + gap + adjusted.opts_len) opts_len;
              max = pdu.max;
            })))

unfoldable pub add_option :
    (fuel : ℕ) → Pdu → (opt_num : ℕ) → (value : List ℕ) → (opt_len : ℕ) → Run ClientError Pdu
add_option fuel pdu opt_num value opt_len = do
  tkl ← get_tkl pdu
  place ← find_place fuel pdu opt_num (4 + tkl) 0
  let hdr_len = compute_option_header_len (opt_num - place.number) opt_len in
      if ltb pdu.max (pdu.len + hdr_len + opt_len) then err insufficient_buffer else (do
        opened ← open_gap fuel pdu opt_num (hdr_len + opt_len) place
        built ← build_option_header opened.buf place.ptr hdr_len (opt_num - place.number) opt_len
        bytes ← fetch value opt_len
        buf ← copy_in built.buf (place.ptr + hdr_len) bytes
        ok (with_buf opened buf))

-- The last step of `coap_set_payload`, with the pointer behind the marker that it wrote, if any.
unfoldable pub put_payload : Pdu → (ptr : ℕ) → (payload : List ℕ) → ℕ → Run ClientError Pdu
put_payload pdu ptr payload payload_len = do
  bytes ← fetch payload payload_len
  buf ← copy_in pdu.buf ptr bytes
  ok (record { buf = buf; len = (ptr + payload_len) % word; max = pdu.max })

unfoldable pub set_payload :
    (fuel : ℕ) → Pdu → (payload : List ℕ) → (payload_len : ℕ) → Run ClientError Pdu
set_payload fuel pdu payload payload_len = do
  tkl ← get_tkl pdu
  place ← find_place fuel pdu (2 ^ 16) (4 + tkl) 0
  if place.at_end
      then (if ltb pdu.max ((pdu.len + payload_len + 1) % word)
          then err insufficient_buffer
          else (do
            buf ← poke pdu.buf place.ptr 0xFF
            put_payload (with_buf pdu buf) (place.ptr + 1) payload payload_len))
      else if place.at_marker && ltb pdu.max ((pdu.len + payload_len) % word)
      then err insufficient_buffer
      else put_payload pdu place.ptr payload payload_len
