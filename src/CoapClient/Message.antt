-- ===== src/CoapClient/Message.antt =====
-- What the setters of an option and of the payload append to a message.
use gateway_project.Base.{
  ℕ, suc, ◌+◌, ◌-◌, ◌%◌, ◌^◌, ◌≤◌, ◌<◌, ◌≡◌, refl, sym, List, [], ◌∷◌, ◌++◌, append_assoc, length,
  drop, length-append, length-drop, ltb-false, lt→ltb, ==_true, take-length, fetch-ok, ok, err,
  arith, true, false,
}
use gateway_project.CoapServer.Format.{encode_option}
use gateway_project.CoapClient.Pdu.{ClientError, Pdu, sub_word, end_of_packet}
use gateway_project.Base.Writes.{leb-true, copy_in-append, poke-append}
use gateway_project.CoapClient.Decode.{decode_option}
use gateway_project.CoapClient.Getters.{get_tkl}
use gateway_project.CoapClient.Header.{length-encode_option, build_option_header-encode_option}
use gateway_project.CoapClient.Options.{
  find_place, open_gap, put_payload, add_option, set_payload, compute_option_header_len,
  extension_len,
}
use gateway_project.CoapClient.HeaderDecode.{decode_option-encode_option}

pub decode_option-end :
    (buf : List ℕ) (ptr pkt_len : ℕ)
    → pkt_len ≡ 0
    → decode_option buf ptr pkt_len ≡ err end_of_packet
unfolding decode_option
decode_option-end buf ptr pkt_len e = rw e

-- At the end of the packet, the search for the place of an option or of the payload ends at once.
pub find_place-end :
    (fuel : ℕ) (pdu : Pdu) (up_to number : ℕ)
    → pdu.len < 2 ^ 64
    → find_place (suc fuel) pdu up_to pdu.len number
      ≡ ok (record { ptr = pdu.len; number = number; at_end = true; at_marker = false })
unfolding find_place
find_place-end fuel pdu up_to number small = rw (
  find_place,
  decode_option-end pdu.buf pdu.len (sub_word pdu.len pdu.len) (omega (arith, small)),
)

-- One option at the end of a message, whose last option has the number `prev`.
pub add_option-last :
    (fuel : ℕ) (p rest : List ℕ) (tkl max prev opt_num : ℕ) (value : List ℕ)
    → get_tkl (record { buf = p ++ rest; len = length p; max = max }) ≡ ok tkl
    → find_place fuel (record { buf = p ++ rest; len = length p; max = max }) opt_num (4 + tkl) 0
      ≡ ok (record { ptr = length p; number = prev; at_end = true; at_marker = false })
    → opt_num < 65536
    → length value < 65536
    → max ≡ length p + length rest
    → compute_option_header_len (opt_num - prev) (length value) + length value ≤ length rest
    → add_option fuel
        (record { buf = p ++ rest; len = length p; max = max })
        opt_num
        value
        (length value)
      ≡ ok (record {
        buf =
            ((p ++ encode_option (opt_num - prev) (length value)) ++ value)
            ++ drop
                (length value)
                (drop (compute_option_header_len (opt_num - prev) (length value)) rest);
        len = length p + (compute_option_header_len (opt_num - prev) (length value) + length value);
        max = max;
      })
unfolding add_option open_gap
add_option-last fuel p rest tkl max prev opt_num value got place hn hv hmax room =
    let delta = opt_num - prev in
    let hdr = compute_option_header_len delta (length value) in
    let bytes = encode_option delta (length value) in
    rw (
      got,
      place,
      ltb-false max (length p + hdr + length value) (omega (arith, hmax, room)),
      ==_true (length p) (length p) refl,
      build_option_header-encode_option p rest delta (length value) (omega (arith, hn)) hv
          (omega (arith, room)),
      fetch-ok {E = ClientError} value (length value) (omega arith),
      take-length value,
      copy_in-append ClientError (p ++ bytes) (drop hdr rest) value (length p + hdr)
          (omega (arith, length-append p bytes, length-encode_option delta (length value)))
          (omega (arith, room, length-drop hdr rest)),
    )

-- One option behind a message that ends with the token.
pub add_option-append :
    (fuel : ℕ) (p rest : List ℕ) (max opt_num : ℕ) (value : List ℕ)
    → get_tkl (record { buf = p ++ rest; len = length p; max = max }) ≡ ok (length p - 4)
    → 4 ≤ length p
    → opt_num < 65536
    → length value < 65536
    → max ≡ length p + length rest
    → max < 2 ^ 64
    → compute_option_header_len opt_num (length value) + length value ≤ length rest
    → add_option
        (suc fuel)
        (record { buf = p ++ rest; len = length p; max = max })
        opt_num
        value
        (length value)
      ≡ ok (record {
        buf =
            ((p ++ encode_option opt_num (length value)) ++ value)
            ++ drop (length value) (drop (compute_option_header_len opt_num (length value)) rest);
        len = length p + (compute_option_header_len opt_num (length value) + length value);
        max = max;
      })
add_option-append fuel p rest max opt_num value tkl low hn hv hmax small room =
    let pdu : Pdu = record { buf = p ++ rest; len = length p; max = max } in
    let start : 4 + (length p - 4) ≡ length p = omega (arith, low) in
    let place : find_place (suc fuel) pdu opt_num (4 + (length p - 4)) 0
        ≡ ok (record { ptr = length p; number = 0; at_end = true; at_marker = false }) =
      rw start (find_place-end fuel pdu opt_num 0 (omega (arith, small, hmax))) in
    let minus : opt_num - 0 ≡ opt_num = omega arith in
    rw minus at (
      add_option-last (suc fuel) p rest (length p - 4) max 0 opt_num value tkl place hn hv hmax
        (rw minus room))

-- The payload behind a message that ends with an option or with the token.
pub set_payload-append :
    (fuel : ℕ) (q rest : List ℕ) (z max tkl number : ℕ) (msg : List ℕ)
    → get_tkl (record { buf = q ++ (z ∷ rest); len = length q; max = max }) ≡ ok tkl
    → find_place fuel
        (record { buf = q ++ (z ∷ rest); len = length q; max = max })
        (2 ^ 16)
        (4 + tkl)
        0
      ≡ ok (record { ptr = length q; number = number; at_end = true; at_marker = false })
    → max ≡ length q + (1 + length rest)
    → max < 2 ^ 64
    → length msg ≤ length rest
    → set_payload fuel
        (record { buf = q ++ (z ∷ rest); len = length q; max = max })
        msg
        (length msg)
      ≡ ok (record {
        buf = ((q ++ (0xFF ∷ [])) ++ msg) ++ drop (length msg) rest;
        len = length q + 1 + length msg;
        max = max;
      })
unfolding set_payload put_payload
set_payload-append fuel q rest z max tkl number msg e place hmax small room =
    let total : (length q + length msg + 1) % 2 ^ 64 ≡ length q + length msg + 1 =
      omega (arith, hmax, small, room) in
    let end : (length q + 1 + length msg) % 2 ^ 64 ≡ length q + 1 + length msg =
      omega (arith, hmax, small, room) in
    rw (
      e,
      place,
      total,
      ltb-false max (length q + length msg + 1) (omega (arith, hmax, room)),
      poke-append ClientError q z 0xFF rest (length q) refl,
      fetch-ok {E = ClientError} msg (length msg) (omega arith),
      take-length msg,
      sym (append_assoc q (0xFF ∷ []) rest),
      copy_in-append ClientError (q ++ (0xFF ∷ [])) rest msg (length q + 1)
          (omega (arith, length-append q (0xFF ∷ []))) room,
      end,
    )

pub header_bounds :
    (d l : ℕ) → (1 ≤ compute_option_header_len d l) × (compute_option_header_len d l ≤ 5)
unfolding compute_option_header_len extension_len
header_bounds d l = ground arith

-- The search steps over one option.
pub find_place-step :
    (fuel : ℕ) (p rest : List ℕ) (d l max : ℕ)
    → d < 65536
    → l < 65536
    → length p < 2 ^ 63
    → find_place
        (suc fuel)
        (record {
          buf = p ++ (encode_option d l ++ rest);
          len = length p + compute_option_header_len d l + l;
          max = max;
        })
        (2 ^ 16)
        (length p)
        0
      ≡ find_place fuel
          (record {
            buf = p ++ (encode_option d l ++ rest);
            len = length p + compute_option_header_len d l + l;
            max = max;
          })
          (2 ^ 16)
          (length p + compute_option_header_len d l + l)
          d
unfolding find_place
find_place-step fuel p rest d l max hd hl small =
    let hdr = compute_option_header_len d l in
    let num : (0 + d) % 2 ^ 16 ≡ d = omega arith in
    rw (
      find_place,
      decode_option-encode_option p rest d l (sub_word (length p + hdr + l) (length p)) hd hl
          (omega (arith, header_bounds d l, small)),
      num,
      leb-true d (2 ^ 16) (omega arith),
      lt→ltb (length p + l) (length p + hdr + l) (omega (arith, header_bounds d l)),
      num,
    )
