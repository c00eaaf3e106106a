-- ===== src/CoapClient/LookupRounds.antt =====
-- The rounds of `coap_get_option_by_num`.
use gateway_project.Base.{
  ℕ, zero, suc, ◌+◌, ◌-◌, ◌%◌, ◌^◌, ◌≤◌, ◌<◌, ◌≡◌, ◌≢◌, refl, sym, ◌∙◌, List, [], ◌∷◌, ◌++◌,
  append_assoc, length, length-append, get_elem?, some, ==_true, ==_false, lt→ltb, ltb-false, ok,
  arith, ℕ_discrete, dec_lt,
}
use gateway_project.Base.Writes.{leb-true, leb-false}
use gateway_project.CoapServer.Format.{encode_options, encode_option, encode_payload, AreOptions}
use gateway_project.CoapClient.Pdu.{Pdu, ClientOption}
use gateway_project.CoapClient.Getters.{get_tkl, next_option, get_option, no_option, option_loop}
use gateway_project.CoapClient.Header.{length-encode_option}
use gateway_project.CoapClient.Options.{compute_option_header_len}
use gateway_project.CoapClient.Message.{header_bounds}
use gateway_project.CoapClient.Places.{Options}
use gateway_project.CoapClient.NextOption.{
  values_with, Finds, values_with-above, ArePositive, get_option-option, get_option-end,
  next_option-after, value_at, length-one,
}

option_loop-zero :
    (fuel gap : ℕ) (pdu : Pdu) (num occ i : ℕ) (last r : ClientOption)
    → get_option gap pdu (some last) ≡ ok r
    → r.num ≡ 0
    → num ≢ 0
    → option_loop (suc fuel) gap pdu num occ i last ≡ ok r
unfolding option_loop
option_loop-zero fuel gap pdu num occ i last r got z nz =
    let other : r.num ≢ num = λ k. nz (sym k ∙ z) in
    rw (
      option_loop,
      got,
      ==_false r.num num other,
      ltb-false num r.num (omega (arith, z)),
      ==_true r.num 0 z,
    )

-- The rounds that find an option, by its number.
module _ (fuel gap : ℕ) (pdu : Pdu) (num occ i : ℕ) (last r : ClientOption)
    (got : get_option gap pdu (some last) ≡ ok r) (io : i ≤ occ) (ob : occ < 255) where
  option_loop-more :
      r.num ≡ num
      → i < occ
      → option_loop (suc fuel) gap pdu num occ i last ≡ option_loop fuel gap pdu num occ (i + 1) r
  unfolding option_loop
  option_loop-more same lt =
      let count : (i + 1) % 256 ≡ i + 1 = omega (arith, lt, ob) in
      rw (
        option_loop,
        got,
        ==_true r.num num same,
        count,
        leb-true (i + 1) occ (omega (arith, lt)),
        count,
      )

  option_loop-found : r.num ≡ num → i ≡ occ → option_loop (suc fuel) gap pdu num occ i last ≡ ok r
  unfolding option_loop
  option_loop-found same eq =
      let count : (i + 1) % 256 ≡ i + 1 = omega (arith, eq, ob) in
      rw
        (option_loop, got, ==_true r.num num same, count, leb-false (i + 1) occ (omega (arith, eq)))

  option_loop-past : num < r.num → option_loop (suc fuel) gap pdu num occ i last ≡ ok no_option
  unfolding option_loop
  option_loop-past past =
      let other : r.num ≢ num = λ k. absurd (omega (arith, past, k)) in
      rw (option_loop, got, ==_false r.num num other, lt→ltb num r.num past)

  option_loop-before :
      r.num < num
      → r.num ≢ 0
      → option_loop (suc fuel) gap pdu num occ i last ≡ option_loop fuel gap pdu num occ i r
  unfolding option_loop
  option_loop-before before nz =
      let other : r.num ≢ num = λ k. absurd (omega (arith, before, k)) in
      rw (
        option_loop,
        got,
        ==_false r.num num other,
        ltb-false num r.num (omega (arith, before)),
        ==_false r.num 0 nz,
        leb-true i occ io,
      )

pub option_loop-encode :
    (fuel gap tkl num occ i prev : ℕ) (p : List ℕ) (os : Options) (msg junk : List ℕ) (pdu : Pdu)
    (last : ClientOption)
    → pdu.buf ≡ p ++ ((encode_options prev os ++ encode_payload msg) ++ junk)
    → get_tkl pdu ≡ ok tkl
    → next_option pdu tkl (some last) ≡ length p
    → last.num ≡ prev
    → AreOptions prev os
    → ArePositive os
    → pdu.len ≡ length p + length (encode_options prev os ++ encode_payload msg)
    → pdu.len < 2 ^ 63
    → length os < fuel
    → num ≢ 0
    → i ≤ occ
    → occ < 255
    → (r : ClientOption) × (option_loop fuel gap pdu num occ i last ≡ ok r)
      × Finds pdu.buf num (get_elem? (values_with num os) (occ - i)) r
unfolding option_loop encode_options values_with
option_loop-encode zero gap tkl num occ i prev p os msg junk pdu last e t place l w pos size small f
      nz io ob =
    absurd (omega (arith, f))
option_loop-encode (suc fuel) gap tkl num occ i prev p [] msg junk pdu last e t place l w pos size
      small f nz io ob =
    let (r, got, z) = get_option-end gap tkl p msg junk pdu last e t place size small in
    (r, option_loop-zero fuel gap pdu num occ i last r got z nz, z)
option_loop-encode (suc fuel) gap tkl num occ i prev p ((n, value) ∷ os) msg junk pdu last e t place
      l (o, nb, v, w) (np, pos) size small f nz io ob =
    let len = length value in
    let d = n - prev in
    let enc = encode_option d len in
    let more = encode_options n os in
    let ep = encode_payload msg in
    let q = (p ++ enc) ++ value in
    let tail = more ++ (ep ++ junk) in
    let off = length p + compute_option_header_len d len in
    let size' : pdu.len ≡ off + len + length (more ++ ep) =
      omega (arith, size, length-one prev n value os ep) in
    let len-q : length q ≡ off + len =
      omega
        (arith, length-append (p ++ enc) value, length-append p enc, length-encode_option d len) in
    let bytes : pdu.buf ≡ p ++ (enc ++ (value ++ tail)) =
      e
      ∙ rw (
        append_assoc (enc ++ (value ++ more)) ep junk,
        append_assoc enc (value ++ more) (ep ++ junk),
        append_assoc value more (ep ++ junk),
      ) in
    let bytes-q : pdu.buf ≡ q ++ ((more ++ ep) ++ junk) =
      bytes
      ∙ rw (
        append_assoc (p ++ enc) value ((more ++ ep) ++ junk),
        append_assoc p enc (value ++ ((more ++ ep) ++ junk)),
        append_assoc more ep junk,
      ) in
    let found : ClientOption = record { num = n; len = len; val = some off } in
    let got : get_option gap pdu (some last) ≡ ok found =
      get_option-option gap tkl prev n p value tail pdu last bytes t place l o nb v
        (omega (arith, size', header_bounds d len)) small in
    let after : next_option pdu tkl (some found) ≡ length q =
      next_option-after pdu tkl n len off np (omega (arith, size'))
        (omega (arith, header_bounds d len))
      ∙ sym len-q in
    let go = λ (j : ℕ) (jo : j ≤ occ).
      option_loop-encode fuel gap tkl num occ j n q os msg junk pdu found bytes-q t after refl w pos
        (omega (arith, size', len-q)) small (omega (arith, f)) nz jo ob in
    elim (ℕ_discrete n num) [
      | yes same ↦ elim (dec_lt i occ) [
        | yes lt ↦
            let (r, run, fin) = go (i + 1) (omega (arith, lt)) in
            let count : occ - i ≡ suc (occ - (i + 1)) = omega (arith, lt) in
            (
              r,
              option_loop-more fuel gap pdu num occ i last found got io ob same lt ∙ run,
              rw (==_true n num same, count) fin,
            )
        | no ge ↦
            let count : occ - i ≡ 0 = omega (arith, ge) in
            (
              found,
              option_loop-found fuel gap pdu num occ i last found got io ob same
                  (omega (arith, ge, io)),
              rw (==_true n num same, count)
                  (same, refl, (off, refl, rw bytes (value_at p value tail d))),
            )
      ]
      | no other ↦ elim (dec_lt num n) [
        | yes past ↦ (
          no_option,
          option_loop-past fuel gap pdu num occ i last found got io ob past,
          rw (==_false n num other, values_with-above num n os w past) refl,
        )
        | no before ↦
            let (r, run, fin) = go i io in
            (
              r,
              option_loop-before fuel gap pdu num occ i last found got io ob
                    (omega (arith, before, other)) np
                  ∙ run,
              rw (==_false n num other) fin,
            )
      ]
    ]
