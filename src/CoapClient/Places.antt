-- ===== src/CoapClient/Places.antt =====
-- The search for the place of an option steps over the options of the message format.
use gateway_project.Base.{
  ℕ, zero, suc, ◌+◌, ◌-◌, ◌%◌, ◌^◌, ◌≤◌, ◌<◌, ◌≡◌, List, [], ◌∷◌, ◌++◌, append_assoc, length,
  length-append, true, false, lt→ltb, ok, arith,
}
use gateway_project.Base.Writes.{leb-true}
use gateway_project.CoapServer.Format.{encode_options, encode_option, AreOptions}
use gateway_project.CoapClient.Pdu.{sub_word}
use gateway_project.CoapClient.Header.{length-encode_option}
use gateway_project.CoapClient.HeaderDecode.{decode_option-encode_option}
use gateway_project.CoapClient.Options.{find_place, compute_option_header_len}
use gateway_project.CoapClient.Message.{find_place-end, header_bounds}

abbrev pub Options : Type 0
Options = List (ℕ × List ℕ)

-- The number of the last option.
abbrev pub last_num : ℕ → Options → ℕ
last_num prev [] = prev
last_num prev ((num, value) ∷ os) = last_num num os

pub last_num-le : (prev : ℕ) (os : Options) → AreOptions prev os → prev ≤ last_num prev os
last_num-le prev [] w = omega arith
last_num-le prev ((num, value) ∷ os) (o, n, v, w) = omega (arith, o, last_num-le num os w)

-- The search for a place steps over one option.
find_place-option :
    (fuel len max up_to prev num : ℕ) (p value rest : List ℕ)
    → prev ≤ num
    → num ≤ up_to
    → num < 256
    → length value < 269
    → length p + length value < len
    → len < 2 ^ 63
    → find_place
        (suc fuel)
        (record {
          buf = p ++ (encode_option (num - prev) (length value) ++ (value ++ rest));
          len = len;
          max = max;
        })
        up_to
        (length p)
        prev
      ≡ find_place fuel
          (record {
            buf = ((p ++ encode_option (num - prev) (length value)) ++ value) ++ rest;
            len = len;
            max = max;
          })
          up_to
          (length ((p ++ encode_option (num - prev) (length value)) ++ value))
          num
unfolding find_place
find_place-option fuel len max up_to prev num p value rest o up n v low small =
    let l = length value in
    let d = num - prev in
    let enc = encode_option d l in
    let number : (prev + d) % 2 ^ 16 ≡ num = omega (arith, o, n) in
    let next : length p + compute_option_header_len d l + l ≡ length ((p ++ enc) ++ value) =
      omega
        (arith, length-append (p ++ enc) value, length-append p enc, length-encode_option d l) in
    rw (
      find_place,
      decode_option-encode_option p (value ++ rest) d l (sub_word len (length p)) (omega (arith, n))
          (omega (arith, v)) (omega (arith, low, small)),
      number,
      leb-true num up_to up,
      lt→ltb (length p + l) len low,
      number,
      next,
      append_assoc (p ++ enc) value rest,
      append_assoc p enc (value ++ rest),
    )

-- And over all options up to the end of the packet.
pub find_place-encode_options :
    (fuel len max up_to prev : ℕ) (p : List ℕ) (os : Options) (rest : List ℕ)
    → AreOptions prev os
    → last_num prev os ≤ up_to
    → length os < fuel
    → len ≡ length p + length (encode_options prev os)
    → len < 2 ^ 63
    → find_place fuel
        (record { buf = p ++ (encode_options prev os ++ rest); len = len; max = max })
        up_to
        (length p)
        prev
      ≡ ok (record { ptr = len; number = last_num prev os; at_end = true; at_marker = false })
unfolding encode_options
find_place-encode_options zero len max up_to prev p os rest w up f e small =
    absurd (omega (arith, f))
find_place-encode_options (suc fuel) len max up_to prev p [] rest w up f e small =
    let here : length p ≡ len = omega (arith, e) in
    rw here (
      find_place-end fuel (record { buf = p ++ rest; len = len; max = max }) up_to prev
        (omega (arith, small)))
find_place-encode_options (suc fuel) len max up_to prev p ((num, value) ∷ os) rest (o, n, v, w) up f
      e small =
    let l = length value in
    let enc = encode_option (num - prev) l in
    let more = encode_options num os in
    let q = (p ++ enc) ++ value in
    let hdr = compute_option_header_len (num - prev) l in
    let len-all : length (enc ++ (value ++ more)) ≡ hdr + l + length more = omega (
      arith,
      length-append enc (value ++ more),
      length-append value more,
      length-encode_option (num - prev) l,
    ) in
    let len-q : length q ≡ length p + (hdr + l) = omega (
      arith,
      length-append (p ++ enc) value,
      length-append p enc,
      length-encode_option (num - prev) l,
    ) in
    rw
      (
        append_assoc enc (value ++ more) rest,
        append_assoc value more rest,
        find_place-option fuel len max up_to prev num p value (more ++ rest) o
            (omega (arith, up, last_num-le num os w)) n v
            (omega (arith, e, len-all, header_bounds (num - prev) l)) small,
      )
      (find_place-encode_options fuel len max up_to num q os rest w up (omega (arith, f))
        (omega (arith, e, len-all, len-q)) small)
