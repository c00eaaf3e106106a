-- ===== src/CoapClient/NextOption.antt =====
-- What `coap_get_option` gives on the messages of the format, option by option.
use gateway_project.Base.{
  ℕ, ◌+◌, ◌-◌, ◌%◌, ◌^◌, ◌≤◌, ◌<◌, ◌≡◌, ◌≢◌, refl, sym, List, [], ◌∷◌, ◌++◌, append_assoc, All,
  length, length-append, take, drop, take-length-append, drop-length-append, Option, none, some,
  ◌==◌, ==_true, ==_false, ltb-false, ok, ◌>>=◌, arith, ℕ_discrete, if◌then◌else◌,
}
use gateway_project.CoapServer.Format.{encode_options, encode_option, encode_payload, AreOptions}
use gateway_project.CoapClient.Pdu.{Pdu, ClientOption, sub_word}
use gateway_project.CoapClient.Getters.{get_tkl, next_option, get_option, no_option}
use gateway_project.CoapClient.Header.{length-encode_option}
use gateway_project.CoapClient.HeaderDecode.{decode_option-encode_option}
use gateway_project.CoapClient.Options.{compute_option_header_len}
use gateway_project.CoapClient.Message.{decode_option-end}
use gateway_project.CoapClient.Payload.{decode_option-marker}
use gateway_project.CoapClient.Places.{Options}

-- The values of all options with a number, in order.
unfoldable pub values_with : (num : ℕ) → Options → List (List ℕ)
values_with num [] = []
values_with num ((n, value) ∷ os) =
    let rest = values_with num os in if n == num then value ∷ rest else rest

-- An option of the buffer with this number and this value, or no option.
abbrev pub Finds : (buf : List ℕ) → (num : ℕ) → Option (List ℕ) → ClientOption → Type 0
Finds buf num none r = r.num ≡ 0
Finds buf num (some value) r =
    (r.num ≡ num)
    × (r.len ≡ length value)
    × ((off : ℕ) × (r.val ≡ some off) × (take (length value) (drop off buf) ≡ value))

pub values_with-above :
    (num low : ℕ) (os : Options) → AreOptions low os → num < low → values_with num os ≡ []
unfolding values_with
values_with-above num low [] w h = refl
values_with-above num low ((n, value) ∷ os) (o, nb, v, w) h =
    rw (==_false n num (omega (arith, o, h)), values_with-above num n os w (omega (arith, o, h)))

-- No option has the number 0, for which the search would begin again.
abbrev pub ArePositive : Options → Type 0
ArePositive = All (λ (o : ℕ × List ℕ). o.0 ≢ 0)

-- An option, when the search has come to its header.
pub get_option-option :
    (gap tkl prev num : ℕ) (p value rest : List ℕ) (pdu : Pdu) (last : ClientOption)
    → pdu.buf ≡ p ++ (encode_option (num - prev) (length value) ++ (value ++ rest))
    → get_tkl pdu ≡ ok tkl
    → next_option pdu tkl (some last) ≡ length p
    → last.num ≡ prev
    → prev ≤ num
    → num < 256
    → length value < 269
    → length p < pdu.len
    → pdu.len < 2 ^ 63
    → get_option gap pdu (some last)
      ≡ ok (record {
        num = num;
        len = length value;
        val = some (length p + compute_option_header_len (num - prev) (length value));
      })
unfolding get_option
get_option-option gap tkl prev num p value rest pdu last e t place l o n v low small =
    let number : (prev + (num - prev)) % 2 ^ 16 ≡ num = omega (arith, o, n) in
    rw (
      t,
      ◌>>=◌,
      place,
      e,
      decode_option-encode_option p (value ++ rest) (num - prev) (length value)
          (sub_word pdu.len (length p)) (omega (arith, n)) (omega (arith, v))
          (omega (arith, low, small)),
      l,
      number,
    )

-- The end of the options.
pub get_option-end :
    (gap tkl : ℕ) (p msg junk : List ℕ) (pdu : Pdu) (last : ClientOption)
    → pdu.buf ≡ p ++ (encode_payload msg ++ junk)
    → get_tkl pdu ≡ ok tkl
    → next_option pdu tkl (some last) ≡ length p
    → pdu.len ≡ length p + length (encode_payload msg)
    → pdu.len < 2 ^ 63
    → (r : ClientOption) × (get_option gap pdu (some last) ≡ ok r) × (r.num ≡ 0)
unfolding get_option encode_payload
get_option-end gap tkl p [] junk pdu last e t place size small = (
  no_option,
  rw (
    t,
    ◌>>=◌,
    place,
    decode_option-end pdu.buf (length p) (sub_word pdu.len (length p)) (omega (arith, size, small)),
  ),
  refl,
)
get_option-end gap tkl p (b ∷ bs) junk pdu last e t place size small =
    let marker =
      decode_option-marker p ((b ∷ bs) ++ junk) (sub_word pdu.len (length p))
        (omega (arith, size, small)) in
    elim (ℕ_discrete last.num 0) [
      | yes z ↦ (
        record {
          num = 0;
          len = sub_word (sub_word pdu.len (length p)) 1;
          val = some (length p + 1);
        },
        rw (t, ◌>>=◌, place, e, marker, ==_true last.num 0 z, place),
        refl,
      )
      | no nz ↦ (
        record { num = 0; len = sub_word pdu.len gap; val = none },
        rw (t, ◌>>=◌, place, e, marker, ==_false last.num 0 nz),
        refl,
      )
    ]

pub next_option-after :
    (pdu : Pdu) (tkl num len off : ℕ)
    → num ≢ 0
    → off + len ≤ pdu.len
    → 0 < off
    → next_option pdu tkl (some (record { num = num; len = len; val = some off })) ≡ off + len
unfolding next_option
next_option-after pdu tkl num len off ne inside pos = rw (
  ==_false num 0 ne,
  ltb-false pdu.len (off + len) inside,
  ==_false (off + len) 0 (omega (arith, pos)),
)

-- The offset of a value behind its header.
pub value_at :
    (p value rest : List ℕ) (d : ℕ)
    → take (length value) (
        drop
          (length p + compute_option_header_len d (length value))
          (p ++ (encode_option d (length value) ++ (value ++ rest))))
      ≡ value
value_at p value rest d =
    let enc = encode_option d (length value) in
    let off : length p + compute_option_header_len d (length value) ≡ length (p ++ enc) =
      omega (arith, length-append p enc, length-encode_option d (length value)) in
    rw (
      sym (append_assoc p enc (value ++ rest)),
      drop-length-append (length p + compute_option_header_len d (length value)) (p ++ enc)
          (value ++ rest) off,
      take-length-append (length value) value rest refl,
    )

pub length-one :
    (prev num : ℕ) (value : List ℕ) (os : Options) (tail : List ℕ)
    → length (encode_options prev ((num, value) ∷ os) ++ tail)
      ≡ compute_option_header_len (num - prev) (length value)
        + length value
        + length (encode_options num os ++ tail)
unfolding encode_options
length-one prev num value os tail =
    let enc = encode_option (num - prev) (length value) in
    omega (
      arith,
      length-append (enc ++ (value ++ encode_options num os)) tail,
      length-append enc (value ++ encode_options num os),
      length-append value (encode_options num os),
      length-append (encode_options num os) tail,
      length-encode_option (num - prev) (length value),
    )
