-- ===== src/Base/Text.antt =====
-- C strings as the lists of their bytes, without the terminating NUL.
use Prim.Native.Nat.{ℕ, zero, suc, ◌≤◌, ◌<◌}
use Prim.Native.Char.{code}
use Prim.Native.String.{String}
use mathlib.Core.Path.{◌≡◌, refl, ap, ◌∙◌, sym}
use mathlib.Core.Bool.{Bool, true, false, ◌&&◌}
use mathlib.Core.List.{List, [], ◌∷◌, ◌++◌}
use mathlib.Core.Logic.{◌≢◌}
use mathlib.Core.Option.{Option, none, some}
use native.Mathlib.Omega.{arith}
use native.Mathlib.Decide.{ℕ_discrete}
use gateway_project.Base.Tests.{◌==◌, if◌then◌else◌, ==_false, ==_true}
use gateway_project.Base.Runs.{Run, ok, fault, ◌>>=◌}
use gateway_project.Base.Lists.{length, replicate, All}

-- A string literal of the source.
abbrev pub codes : String → List ℕ
codes String.[] = []
codes (String.◌∷◌ c s) = code c ∷ codes s

-- `memcmp` of two byte sequences of one length, and equality of two strings.
unfoldable pub same : List ℕ → List ℕ → Bool
same [] [] = true
same [] (y ∷ ys) = false
same (x ∷ xs) [] = false
same (x ∷ xs) (y ∷ ys) = (x == y) && same xs ys

pub same→eq : (xs ys : List ℕ) → same xs ys ≡ true → xs ≡ ys
unfolding same
same→eq [] [] h = refl
same→eq [] (y ∷ ys) h = cc
same→eq (x ∷ xs) [] h = cc
same→eq (x ∷ xs) (y ∷ ys) h = ground (arith, same→eq xs ys)

pub same_refl : (xs : List ℕ) → same xs xs ≡ true
unfolding same
same_refl [] = refl
same_refl (x ∷ xs) = ground (arith, same_refl xs)

-- The string that begins at a buffer: the bytes before the first NUL.
unfoldable pub c_string : List ℕ → List ℕ
c_string [] = []
c_string (b ∷ bs) = let rest = b ∷ c_string bs in if b == 0 then [] else rest

pub length-c_string : (bytes : List ℕ) → length (c_string bytes) ≤ length bytes
unfolding c_string
length-c_string [] = omega arith
length-c_string (b ∷ bs) = ground (arith, length-c_string bs)

-- A string without a NUL, in an array with zeros behind it.
pub c_string-append :
    (text : List ℕ) (n : ℕ) → All (λ b. b ≢ 0) text → c_string (text ++ replicate n 0) ≡ text
unfolding c_string
c_string-append [] zero p = refl
c_string-append [] (suc n) p = refl
c_string-append (b ∷ bs) n (ne, p) = rw (==_false b 0 ne, c_string-append bs n p)

pub c_string-nul :
    (text rest : List ℕ) → All (λ b. b ≢ 0) text → c_string (text ++ (0 ∷ rest)) ≡ text
unfolding c_string
c_string-nul [] rest p = refl
c_string-nul (b ∷ bs) rest (ne, p) = rw (==_false b 0 ne, c_string-nul bs rest p)

-- An array in which the string ends splits at its NUL.
pub c_string-split :
    (xs : List ℕ)
    → length (c_string xs) < length xs
    → (rest : List ℕ) × (xs ≡ c_string xs ++ (0 ∷ rest))
unfolding c_string
c_string-split [] h = absurd (omega (arith, h))
c_string-split (b ∷ bs) h = elim (ℕ_discrete b 0) [
  | yes z ↦
      let none_left : c_string (b ∷ bs) ≡ [] = rw (==_true b 0 z) refl in
      (bs, rw none_left (ap (λ x. x ∷ bs) z))
  | no nz ↦
      let whole : c_string (b ∷ bs) ≡ b ∷ c_string bs = rw (==_false b 0 nz) refl in
      let (rest, e) = c_string-split bs (omega (arith, h, ap length whole)) in
      (rest, ap (λ x. b ∷ x) e ∙ ap (λ x. x ++ (0 ∷ rest)) (sym whole))
]

pub c_string-no_nul : (xs : List ℕ) → All (λ b. b ≢ 0) (c_string xs)
unfolding c_string
c_string-no_nul [] = tt
c_string-no_nul (b ∷ bs) = elim (ℕ_discrete b 0) [
  | yes z ↦ rw (==_true b 0 z) tt
  | no nz ↦ rw (==_false b 0 nz) (nz, c_string-no_nul bs)
]

-- `strchr`: the offset of a byte before the NUL, if there is one.
unfoldable pub strchr : List ℕ → ℕ → Option ℕ
strchr [] c = none
strchr (b ∷ bs) c =
    let rest = strchr bs c in
    if b == c
    then some 0
    else if b == 0
    then none
    else (elim rest [ none ↦ none | some i ↦ some (suc i) ])

pub strchr-append :
    (text rest : List ℕ) (c : ℕ)
    → All (λ b. (b ≢ c) × (b ≢ 0)) text
    → strchr (text ++ (c ∷ rest)) c ≡ some (length text)
unfolding strchr
strchr-append [] rest c p = rw (==_true c c refl)
strchr-append (b ∷ bs) rest c ((nc, nz), p) =
    rw (==_false b c nc, ==_false b 0 nz, strchr-append bs rest c p)

-- A string that is read up to its NUL; an array without one is read beyond its end.
unfoldable pub string_at : {E : Type 0} → List ℕ → Run E (List ℕ)
string_at [] = fault
string_at (b ∷ bs) = let rest = string_at bs in if b == 0 then ok [] else (do s ← rest; ok (b ∷ s))

pub string_at-nul :
    (E : Type 0) (text rest : List ℕ)
    → All (λ b. b ≢ 0) text
    → string_at {E = E} (text ++ (0 ∷ rest)) ≡ ok text
unfolding string_at
string_at-nul E [] rest p = refl
string_at-nul E (b ∷ bs) rest (ne, p) = rw (==_false b 0 ne, string_at-nul E bs rest p)
