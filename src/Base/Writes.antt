-- ===== src/Base/Writes.antt =====
-- Writes into a buffer that is a list of all its bytes; a write outside it is a fault. With the lemmas
-- on writes behind what is written already.
use Prim.Native.Nat.{ℕ, zero, suc, ◌+◌, ◌≤◌, ◌<◌}
use mathlib.Core.Path.{◌≡◌, refl}
use mathlib.Core.Bool.{true, false}
use mathlib.Core.List.{List, [], ◌∷◌, ◌++◌, append_assoc}
use native.Mathlib.Omega.{arith}
use gateway_project.Base.Tests.{leb, if◌then◌else◌}
use gateway_project.Base.Lists.{length, take, drop, length-append, take-length-append}
use gateway_project.Base.Runs.{Run, ok, fault, ◌>>=◌, deref, fetch}

-- A write of one byte.
abbrev pub poke : {E : Type 0} → List ℕ → ℕ → ℕ → Run E (List ℕ)
poke [] i b = fault
poke (x ∷ xs) zero b = ok (b ∷ xs)
poke (x ∷ xs) (suc i) b = do rest ← poke xs i b; ok (x ∷ rest)

-- `memcpy` of some bytes to an offset, and `memmove` from one offset to another.
unfoldable pub copy_in : {E : Type 0} → List ℕ → ℕ → List ℕ → Run E (List ℕ)
copy_in buf to bytes =
    if leb (to + length bytes) (length buf)
    then ok (take to buf ++ (bytes ++ drop (to + length bytes) buf))
    else fault

unfoldable pub move : {E : Type 0} → List ℕ → (to from n : ℕ) → Run E (List ℕ)
move buf to from n = do bytes ← fetch (drop from buf) n; copy_in buf to bytes

pub leb-true : (a b : ℕ) → a ≤ b → leb a b ≡ true
leb-true a b h = ground arith

pub leb-false : (a b : ℕ) → b < a → leb a b ≡ false
leb-false a b h = ground arith

drop-append : (n : ℕ) (p rest : List ℕ) → drop (length p + n) (p ++ rest) ≡ drop n rest
drop-append n [] rest = let e : 0 + n ≡ n = omega arith in rw e
drop-append n (x ∷ p) rest =
    let e : suc (length p) + n ≡ suc (length p + n) = omega arith in rw e (drop-append n p rest)

-- Bytes that fit are written behind the prefix.
pub copy_in-append :
    (E : Type 0) (p rest q : List ℕ) (to : ℕ)
    → to ≡ length p
    → length q ≤ length rest
    → copy_in {E = E} (p ++ rest) to q ≡ ok ((p ++ q) ++ drop (length q) rest)
unfolding copy_in
copy_in-append E p rest q to e room =
    let fits : length p + length q ≤ length (p ++ rest) = omega (arith, length-append p rest) in
    rw (
      e,
      take-length-append (length p) p rest refl,
      drop-append (length q) p rest,
      append_assoc p q (drop (length q) rest),
      leb-true (length p + length q) (length (p ++ rest)) fits,
    )

pub poke-append :
    (E : Type 0) (p : List ℕ) (o b : ℕ) (rest : List ℕ) (i : ℕ)
    → i ≡ length p
    → poke {E = E} (p ++ (o ∷ rest)) i b ≡ ok (p ++ (b ∷ rest))
poke-append E [] o b rest i e = rw e
poke-append E (x ∷ p) o b rest i e = rw (e, poke-append E p o b rest (length p) refl)

pub deref-append :
    (E : Type 0) (p : List ℕ) (b : ℕ) (rest : List ℕ) (i : ℕ)
    → i ≡ length p
    → deref {E = E} (p ++ (b ∷ rest)) i ≡ ok b
unfolding deref
deref-append E [] b rest i e = rw e
deref-append E (x ∷ p) b rest i e = rw e (deref-append E p b rest (length p) refl)
