-- ===== src/Base/Bits.antt =====
-- Masks and nibbles of one byte as arithmetic. Each fact is a table, checked by evaluation.
use Prim.Native.Nat.{ℕ, zero, suc, ◌+◌, ◌*◌, ◌/◌, ◌%◌, ◌<◌, bit_and, bit_or}
use mathlib.Core.Path.{◌≡◌, refl}
use mathlib.Core.Bool.{Bool, true, ◌&&◌}
use native.Mathlib.Omega.{arith}
use gateway_project.Base.Tests.{◌==◌, ==_iff}

below : ℕ → (ℕ → Bool) → Bool
below zero p = true
below (suc n) p = p n && below n p

below_sound : (n : ℕ) (p : ℕ → Bool) (x : ℕ) → below n p ≡ true → x < n → p x ≡ true
unfolding below
below_sound zero p x e h = absurd (omega arith)
below_sound (suc n) p x e h = ground (arith, below_sound n p x)

byte_law : (f g : ℕ → ℕ) → below 256 (λ x. f x == g x) ≡ true → (x : ℕ) → x < 256 → f x ≡ g x
byte_law f g e x h = (==_iff (f x) (g x)).0 (below_sound 256 (λ y. f y == g y) x e h)

pub and_f0 : (b : ℕ) → b < 256 → bit_and b 0xF0 ≡ b / 16 * 16
unfolding below
and_f0 = byte_law (λ b. bit_and b 0xF0) (λ b. b / 16 * 16) refl

pub and_c0 : (b : ℕ) → b < 256 → bit_and b 0xC0 ≡ b / 64 * 64
unfolding below
and_c0 = byte_law (λ b. bit_and b 0xC0) (λ b. b / 64 * 64) refl

pub and_30 : (b : ℕ) → b < 256 → bit_and b 0x30 ≡ b / 16 % 4 * 16
unfolding below
and_30 = byte_law (λ b. bit_and b 0x30) (λ b. b / 16 % 4 * 16) refl

pub and_0f : (b : ℕ) → b < 256 → bit_and b 0x0F ≡ b % 16
unfolding below
and_0f = byte_law (λ b. bit_and b 0x0F) (λ b. b % 16) refl

pub and_03 : (b : ℕ) → b < 256 → bit_and b 0x03 ≡ b % 4
unfolding below
and_03 = byte_law (λ b. bit_and b 0x03) (λ b. b % 4) refl

pub and_3f : (b : ℕ) → b < 256 → bit_and b 0x3F ≡ b % 64
unfolding below
and_3f = byte_law (λ b. bit_and b 0x3F) (λ b. b % 64) refl

pub and_cf : (b : ℕ) → b < 256 → bit_and b 0xCF ≡ b / 64 * 64 + b % 16
unfolding below
and_cf = byte_law (λ b. bit_and b 0xCF) (λ b. b / 64 * 64 + b % 16) refl

-- A nibble pair, given by the byte that it makes.
or_nibbles_table : (b : ℕ) → b < 256 → bit_or (b / 16 * 16) (b % 16) ≡ b
unfolding below
or_nibbles_table = byte_law (λ b. bit_or (b / 16 * 16) (b % 16)) (λ b. b) refl

pub or_nibbles : (h l : ℕ) → h < 16 → l < 16 → bit_or (h * 16) l ≡ h * 16 + l
or_nibbles h l p q =
    let e : (h * 16 + l) / 16 ≡ h = omega arith in
    let e' : (h * 16 + l) % 16 ≡ l = omega arith in
    rw (e, e') at (or_nibbles_table (h * 16 + l) (omega arith))

or_pairs_table : (b : ℕ) → b < 256 → bit_or (b / 4 % 4 * 64) (b % 4 * 16) ≡ (b % 16) * 16
unfolding below
or_pairs_table = byte_law (λ b. bit_or (b / 4 % 4 * 64) (b % 4 * 16)) (λ b. (b % 16) * 16) refl

pub or_pairs : (v t : ℕ) → v < 4 → t < 4 → bit_or (v * 64) (t * 16) ≡ (v * 4 + t) * 16
or_pairs v t p q =
    let e : (v * 4 + t) / 4 % 4 ≡ v = omega arith in
    let e' : (v * 4 + t) % 4 ≡ t = omega arith in
    let e'' : (v * 4 + t) % 16 ≡ v * 4 + t = omega arith in
    rw (e, e', e'') at (or_pairs_table (v * 4 + t) (omega arith))

or_nibbles_swapped_table : (b : ℕ) → b < 256 → bit_or (b % 16) (b / 16 * 16) ≡ b
unfolding below
or_nibbles_swapped_table = byte_law (λ b. bit_or (b % 16) (b / 16 * 16)) (λ b. b) refl

pub or_nibbles_swapped : (h l : ℕ) → h < 16 → l < 16 → bit_or l (h * 16) ≡ h * 16 + l
or_nibbles_swapped h l p q =
    let e : (h * 16 + l) / 16 ≡ h = omega arith in
    let e' : (h * 16 + l) % 16 ≡ l = omega arith in
    rw (e, e') at (or_nibbles_swapped_table (h * 16 + l) (omega arith))

or_type_table : (b : ℕ) → b < 256 → bit_or (b / 16 % 4 * 16) (b / 64 * 64 + b % 16) ≡ b
unfolding below
or_type_table = byte_law (λ b. bit_or (b / 16 % 4 * 16) (b / 64 * 64 + b % 16)) (λ b. b) refl

-- The two bits above the low nibble are replaced.
pub or_type :
    (b t : ℕ) → b < 256 → t < 4 → bit_or (t * 16) (bit_and b 0xCF) ≡ b / 64 * 64 + t * 16 + b % 16
or_type b t p q =
    let n = b / 64 * 64 + t * 16 + b % 16 in
    let e : n / 16 % 4 ≡ t = omega arith in
    let e' : n / 64 ≡ b / 64 = omega arith in
    let e'' : n % 16 ≡ b % 16 = omega arith in
    rw (and_cf b p) (rw (e, e', e'') at (or_type_table n (omega arith)))

or_version_table : (b : ℕ) → b < 256 → bit_or (b / 64 * 64) (b % 64) ≡ b
unfolding below
or_version_table = byte_law (λ b. bit_or (b / 64 * 64) (b % 64)) (λ b. b) refl

-- The two highest bits are replaced.
pub or_version : (b v : ℕ) → b < 256 → v < 4 → bit_or (v * 64) (bit_and b 0x3F) ≡ v * 64 + b % 64
or_version b v p q =
    let n = v * 64 + b % 64 in
    let e : n / 64 ≡ v = omega arith in
    let e' : n % 64 ≡ b % 64 = omega arith in
    rw (and_3f b p) (rw (e, e') at (or_version_table n (omega arith)))
