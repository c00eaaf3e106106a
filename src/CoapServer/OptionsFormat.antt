-- ===== src/CoapServer/OptionsFormat.antt =====
-- The options of the message format, as `coap_parse` reads them.
use gateway_project.Base.{
  ℕ, zero, suc, ◌+◌, ◌-◌, ◌*◌, ◌/◌, ◌≤◌, ◌<◌, ◌≡◌, refl, List, [], ◌∷◌, ◌++◌, map, length,
  length-append, drop-length-append, take-length-append, append_assoc, arith, ok, deref, ==_false,
  bit_and, ltb-false,
}
use mathlib.Core.Logic.{◌≢◌}
use gateway_project.Base.Bits.{and_0f, and_f0}
use gateway_project.CoapServer.Packet.{
  CoapError, CoapOption, option_delta_invalid, option_len_invalid,
}
use gateway_project.CoapServer.Parse.{parse_extended, parse_option, Parsed, parse_options, Options}
use gateway_project.CoapServer.Format.{
  view_option, nibble, extension, encode_option, encode_options, AreOptions,
}

-- The last byte of a header that starts with `b`.
last_of : ℕ → List ℕ → ℕ
last_of b [] = b
last_of b (x ∷ xs) = last_of x xs

parse_extended-extension :
    (invalid : CoapError) (buflen v headlen b : ℕ) (rest : List ℕ)
    → v < 269
    → headlen + length (extension v) ≤ buflen
    → parse_extended invalid buflen (nibble v) headlen (b ∷ (extension v ++ rest))
      ≡ ok (record {
        value = v;
        headlen = headlen + length (extension v);
        p = last_of b (extension v) ∷ rest;
      })
unfolding parse_extended nibble extension last_of deref
parse_extended-extension invalid buflen v headlen b rest small fits = ground arith

nibble-lt : (v : ℕ) → nibble v < 15
unfolding nibble
nibble-lt v = ground arith

-- The two nibbles of the first byte of an option.
nibbles :
    (h l : ℕ)
    → h < 16
    → l < 16
    → (bit_and (h * 16 + l) 0xF0 / 16 ≡ h) × (bit_and (h * 16 + l) 0x0F ≡ l)
nibbles h l p q = omega (arith, and_f0 (h * 16 + l), and_0f (h * 16 + l))

parse_option-encode_option :
    (prev delta buflen : ℕ) (value rest : List ℕ)
    → prev + delta < 256
    → length value < 269
    → buflen ≡ length (encode_option delta (length value) ++ (value ++ rest))
    → parse_option prev (encode_option delta (length value) ++ (value ++ rest)) buflen
      ≡ ok (record {
        option = record {
          num = prev + delta;
          buf = record { p = value ++ rest; len = length value };
        };
        running_delta = prev + delta;
        buf = rest;
        left = length rest;
      })
unfolding parse_option encode_option deref
parse_option-encode_option prev delta buflen value rest small short e =
    let len = length value in
    let d = extension delta in
    let l = extension len in
    let b0 = nibble delta * 16 + nibble len in
    let (hi, lo) =
      nibbles (nibble delta) (nibble len) (omega (arith, nibble-lt delta))
        (omega (arith, nibble-lt len)) in
    let total : buflen ≡ 1 + length d + length l + len + length rest = omega (
      arith,
      length-append (d ++ l) (value ++ rest),
      length-append d l,
      length-append value rest,
    ) in
    rw
      (
        ltb-false buflen 1 (omega arith),
        append_assoc d l (value ++ rest),
        hi,
        lo,
        parse_extended-extension option_delta_invalid buflen delta 1 b0 (l ++ (value ++ rest))
            (omega arith) (omega arith),
        parse_extended-extension option_len_invalid buflen len (1 + length d) (last_of b0 d)
            (value ++ rest) short (omega arith),
        ltb-false buflen (1 + length d + length l + len) (omega arith),
      )
      (ground (arith, drop-length-append len value rest refl))

-- The options that the parser makes of an encoded sequence: their pointers into the packet.
pub options_of : ℕ → List (ℕ × List ℕ) → List ℕ → List CoapOption
options_of prev [] tail = []
options_of prev ((num, value) ∷ os) tail =
    record {
      num = num;
      buf = record { p = value ++ (encode_options num os ++ tail); len = length value };
    }
    ∷ options_of num os tail

pub view-options_of :
    (prev : ℕ) (os : List (ℕ × List ℕ)) (tail : List ℕ)
    → map view_option (options_of prev os tail) ≡ os
unfolding options_of
view-options_of prev [] tail = refl
view-options_of prev ((num, value) ∷ os) tail = rw (
  take-length-append (length value) value (encode_options num os ++ tail) refl,
  view-options_of num os tail,
)

length-encode_option : (delta len : ℕ) → 0 < length (encode_option delta len)
unfolding encode_option
length-encode_option delta len = omega arith

-- What may follow the options: nothing, or the payload marker.
abbrev pub IsTail : List ℕ → Type 0
IsTail [] = Unit {0}
IsTail (b ∷ bs) = b ≡ 0xFF

parse_options-tail :
    (slots prev : ℕ) (tail : List ℕ)
    → IsTail tail
    → parse_options slots prev tail (length tail)
      ≡ ok (record { opts = []; p = tail; left = length tail })
unfolding parse_options deref
parse_options-tail zero prev tail h = refl
parse_options-tail (suc slots) prev [] h = refl
parse_options-tail (suc slots) prev (b ∷ bs) h = ground arith

-- One round of the loop, on an option that parses.
parse_options_step :
    (slots prev : ℕ) (b : ℕ) (bs : List ℕ) (o : Parsed) (r : Options)
    → b ≢ 0xFF
    → parse_option prev (b ∷ bs) (length (b ∷ bs)) ≡ ok o
    → parse_options slots o.running_delta o.buf o.left ≡ ok r
    → parse_options (suc slots) prev (b ∷ bs) (length (b ∷ bs))
      ≡ ok (record r { opts = o.option ∷ r.opts })
unfolding parse_options deref
parse_options_step slots prev b bs o r ne e e' =
    rw (==_false (length (b ∷ bs)) 0 (omega arith), ==_false b 0xFF ne, e, e')

first_byte :
    (delta len : ℕ) (more : List ℕ)
    → (b : ℕ) × (bs : List ℕ) × (encode_option delta len ++ more ≡ b ∷ bs) × (b ≢ 0xFF)
unfolding encode_option
first_byte delta len more = (
  nibble delta * 16 + nibble len,
  (extension delta ++ extension len) ++ more,
  refl,
  omega (arith, nibble-lt delta, nibble-lt len),
)

pub parse_options-encode_options :
    (slots prev : ℕ) (os : List (ℕ × List ℕ)) (tail : List ℕ)
    → IsTail tail
    → AreOptions prev os
    → length os ≤ slots
    → parse_options slots prev
        (encode_options prev os ++ tail)
        (length (encode_options prev os ++ tail))
      ≡ ok (record { opts = options_of prev os tail; p = tail; left = length tail })
unfolding encode_options options_of
parse_options-encode_options slots prev [] tail t w room = parse_options-tail slots prev tail t
parse_options-encode_options zero prev ((num, value) ∷ os) tail t w room = absurd (omega arith)
parse_options-encode_options (suc slots) prev ((num, value) ∷ os) tail t (sorted, small, short, w)
      room =
    let rest = encode_options num os ++ tail in
    let head = encode_option (num - prev) (length value) in
    let (b, bs, e, ne) = first_byte (num - prev) (length value) (value ++ rest) in
    let n : prev + (num - prev) ≡ num = omega arith in
    rw
      (
        append_assoc head (value ++ encode_options num os) tail,
        append_assoc value (encode_options num os) tail,
        e,
      )
      (parse_options_step slots prev b bs _ _ ne
        (rw n at (
          rw e at (
            parse_option-encode_option prev (num - prev) (length (head ++ (value ++ rest))) value
              rest (omega arith) short refl)))
        (parse_options-encode_options slots num os tail t w (omega arith)))
