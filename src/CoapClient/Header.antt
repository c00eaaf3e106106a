-- ===== src/CoapClient/Header.antt =====
-- The option header that `coap_build_option_header` writes is the one of the message format.
use gateway_project.Base.{
  ℕ, zero, suc, ◌+◌, ◌*◌, ◌%◌, ◌≤◌, ◌<◌, ◌≡◌, refl, sym, ap, ◌∙◌, List, [], ◌∷◌, ◌++◌, append_assoc,
  length, drop, length-append, length-drop, ltb-false, ok, arith, bit_or,
}
use gateway_project.Base.Bits.{or_nibbles}
use gateway_project.CoapServer.Format.{nibble, extension, encode_option}
use gateway_project.CoapClient.Pdu.{ClientError}
use gateway_project.Base.Writes.{copy_in-append, poke-append}
use gateway_project.CoapClient.Options.{
  extension_len, compute_option_header_len, nibble_of, extension_bytes, build_length,
  build_option_header,
}

pub nibble_bound : (v : ℕ) → nibble v < 15
unfolding nibble
nibble_bound v = ground arith

nibble_of-nibble : (v : ℕ) → nibble_of v ≡ nibble v
unfolding nibble
nibble_of-nibble v = refl

extension_bytes-extension : (v : ℕ) → v < 65536 → extension_bytes v ≡ extension v
unfolding extension
extension_bytes-extension v h = ground arith

length-extension_bytes : (v : ℕ) → length (extension_bytes v) ≡ extension_len v
unfolding extension_len
length-extension_bytes v = ground arith

pub length-extension : (v : ℕ) → length (extension v) ≡ extension_len v
unfolding extension_len extension
length-extension v = ground arith

drop-nil : (n : ℕ) → drop {A = ℕ} n [] ≡ []
drop-nil zero = refl
drop-nil (suc n) = refl

drop-drop : (a b o : ℕ) (rs : List ℕ) → drop (1 + a + b) (o ∷ rs) ≡ drop b (drop a rs)
drop-drop zero b o rs = let e : 1 + 0 + b ≡ suc b = omega arith in rw e
drop-drop (suc a) b o [] =
    let e : 1 + suc a + b ≡ suc (suc (a + b)) = omega arith in rw e (sym (drop-nil b))
drop-drop (suc a) b o (x ∷ rs) =
    let e : 1 + suc a + b ≡ suc (1 + a + b) = omega arith in rw e (drop-drop a b x rs)

pub length-encode_option : (d l : ℕ) → length (encode_option d l) ≡ compute_option_header_len d l
unfolding encode_option compute_option_header_len
length-encode_option d l =
    omega (arith, length-append (extension d) (extension l), length-extension d, length-extension l)

first_byte : (d l : ℕ) → bit_or (nibble_of d * 16 % 256) (nibble_of l) ≡ nibble d * 16 + nibble l
unfolding nibble
first_byte d l =
    let e : nibble d * 16 % 256 ≡ nibble d * 16 = omega (arith, nibble_bound d) in
    ap (λ x. bit_or x (nibble l)) e
    ∙ or_nibbles (nibble d) (nibble l) (omega (arith, nibble_bound d))
        (omega (arith, nibble_bound l))

-- The second part of the header, and its first byte.
build_length_lem :
    (p x1 rest : List ℕ) (o ptr d l used : ℕ)
    → ptr ≡ length p
    → used ≡ 1 + length x1
    → extension_len l ≤ length rest
    → build_length ((p ++ (o ∷ x1)) ++ rest) ptr (used + extension_len l) d l used
      ≡ ok (record {
        buf =
            (p ++ ((nibble d * 16 + nibble l) ∷ (x1 ++ extension_bytes l)))
            ++ drop (extension_len l) rest;
        result = used + extension_len l;
      })
unfolding build_length
build_length_lem p x1 rest o ptr d l used e u room =
    let xb = extension_bytes l in
    let tl = drop (extension_len l) rest in
    let len-xb : length xb ≡ extension_len l = length-extension_bytes l in
    rw (
      ltb-false (used + extension_len l) (used + extension_len l) (omega arith),
      copy_in-append ClientError (p ++ (o ∷ x1)) rest xb (ptr + used)
          (omega (arith, length-append p (o ∷ x1))) (omega (arith, len-xb)),
      len-xb,
      append_assoc p (o ∷ x1) xb,
      append_assoc p (o ∷ (x1 ++ xb)) tl,
      poke-append ClientError p o (bit_or (nibble_of d * 16 % 256) (nibble_of l)) ((x1 ++ xb) ++ tl)
          ptr e,
      first_byte d l,
      append_assoc p ((nibble d * 16 + nibble l) ∷ (x1 ++ xb)) tl,
    )

-- With the length that `coap_compute_option_header_len` gives, on a buffer with room for the header
-- behind the bytes `p`, `coap_build_option_header` writes the header of the message format there,
-- leaves the bytes before and behind it, and returns that length, for a delta and a length below 65536.
pub build_option_header-encode_option :
    (p rest : List ℕ) (d l : ℕ)
    → d < 65536
    → l < 65536
    → compute_option_header_len d l ≤ length rest
    → build_option_header (p ++ rest) (length p) (compute_option_header_len d l) d l
      ≡ ok (record {
        buf = (p ++ encode_option d l) ++ drop (compute_option_header_len d l) rest;
        result = compute_option_header_len d l;
      })
unfolding build_option_header compute_option_header_len encode_option
build_option_header-encode_option p [] d l hd hl room = absurd (omega (arith, room))
build_option_header-encode_option p (o ∷ rs) d l hd hl room =
    let x1 = extension_bytes d in
    let len-x1 : length x1 ≡ extension_len d = length-extension_bytes d in
    rw (
      ltb-false (1 + extension_len d + extension_len l) (1 + extension_len d) (omega arith),
      sym (append_assoc p (o ∷ []) rs),
      copy_in-append ClientError (p ++ (o ∷ [])) rs x1 (length p + 1)
          (omega (arith, length-append p (o ∷ []))) (omega (arith, room)),
      len-x1,
      append_assoc p (o ∷ []) x1,
      build_length_lem p x1 (drop (extension_len d) rs) o (length p) d l (1 + extension_len d) refl
          (omega (arith, len-x1)) (omega (arith, room, length-drop (extension_len d) rs)),
      extension_bytes-extension d hd,
      extension_bytes-extension l hl,
      drop-drop (extension_len d) (extension_len l) o rs,
    )
