-- ===== src/Base/Runs.antt =====
-- Runs of C code: a value, an error code of the component, a memory fault (a read or a write outside
-- the object that a pointer points into), or a loop that used up its fuel.
use Prim.Native.Nat.{ℕ, zero, suc, ◌+◌, ◌≤◌, ◌<◌}
use mathlib.Core.Path.{◌≡◌, refl}
use mathlib.Core.Bool.{Bool, true, false}
use native.Mathlib.Omega.{arith}
use mathlib.Core.List.{List, [], ◌∷◌, ◌++◌}
use mathlib.Core.Option.{none, some}
use gateway_project.Base.Lists.{length, get_elem?, take, get_elem?-lt}
use gateway_project.Base.Tests.{leb, if◌then◌else◌}

pub data Run (E A : Type 0) : Type 0 where
  ok : A → Run E A
  err : E → Run E A
  fault : Run E A
  out_of_fuel : Run E A

infixl 5 ◌>>=◌ ◌>>◌
abbrev pub ◌>>=◌ : {E A B : Type 0} → Run E A → (A → Run E B) → Run E B
ok a >>= f = f a
err e >>= f = err e
fault >>= f = fault
out_of_fuel >>= f = out_of_fuel

abbrev pub ◌>>◌ : {E B : Type 0} → Run E (Unit {0}) → Run E B → Run E B
m >> k = m >>= λ _. k

-- `p[i]`
unfoldable pub deref : {E : Type 0} → List ℕ → ℕ → Run E ℕ
deref p i = elim (get_elem? p i) [ none ↦ fault | some b ↦ ok b ]

-- The `n` bytes that `memcpy` reads at `p`.
unfoldable pub fetch : {E : Type 0} → List ℕ → ℕ → Run E (List ℕ)
fetch p n = if leb n (length p) then ok (take n p) else fault

-- Sequential writes into an object of `cap` bytes, of which `out` are written.
unfoldable pub emit : {E : Type 0} → ℕ → List ℕ → List ℕ → Run E (List ℕ)
emit cap out bytes = if leb (length out + length bytes) cap then ok (out ++ bytes) else fault

pub deref-ok :
    {E : Type 0} (p : List ℕ) (i : ℕ) → i < length p → (b : ℕ) × (deref {E = E} p i ≡ ok b)
unfolding deref
deref-ok p i h = let (b, e) = get_elem?-lt p i h in (b, rw (e, deref))

-- A run that neither leaves its objects nor runs out of fuel.
abbrev pub Returns : {E A : Type 0} → (A → Type 0) → Run E A → Type 0
Returns P (ok a) = P a
Returns P (err e) = Unit
Returns P fault = ⊥
Returns P out_of_fuel = ⊥

-- A run that gives a result, without an error.
abbrev pub Gives : {E A : Type 0} → (A → Type 0) → Run E A → Type 0
Gives P (ok a) = P a
Gives P (err e) = ⊥
Gives P fault = ⊥
Gives P out_of_fuel = ⊥

pub Gives-ok :
    {E A : Type 0} (P : A → Type 0) (m : Run E A) → Gives P m → (a : A) × (m ≡ ok a) × P a
Gives-ok P (ok a) p = (a, refl, p)
Gives-ok P (err e) p = elim p [ ]
Gives-ok P fault p = elim p [ ]
Gives-ok P out_of_fuel p = elim p [ ]

pub bind-Gives :
    {E A B : Type 0} {P : A → Type 0} (Q : B → Type 0) (m : Run E A) (f : A → Run E B)
    → Gives P m
    → ((a : A) → P a → Gives Q (f a))
    → Gives Q (m >>= f)
bind-Gives Q (ok a) f p k = k a p
bind-Gives Q (err e) f p k = elim p [ ]
bind-Gives Q fault f p k = elim p [ ]
bind-Gives Q out_of_fuel f p k = elim p [ ]

pub branch-Gives :
    {E A : Type 0} (P : A → Type 0) (b : Bool) (x y : Run E A)
    → (b ≡ true → Gives P x)
    → (b ≡ false → Gives P y)
    → Gives P (if b then x else y)
branch-Gives P true x y h k = h refl
branch-Gives P false x y h k = k refl

pub deref-Gives :
    (E : Type 0) (p : List ℕ) (i : ℕ)
    → i < length p
    → Gives {E = E} (λ (b : ℕ). get_elem? p i ≡ some b) (deref p i)
unfolding deref
deref-Gives E [] i h = elim h [ ]
deref-Gives E (x ∷ xs) zero h = refl
deref-Gives E (x ∷ xs) (suc i) h = deref-Gives E xs i (omega arith)

-- The rule for a sequence of two runs.
pub bind :
    {E A B : Type 0} {P : A → Type 0} (Q : B → Type 0) (m : Run E A) (f : A → Run E B)
    → Returns P m
    → ((a : A) → P a → Returns Q (f a))
    → Returns Q (m >>= f)
bind Q (ok a) f p k = k a p
bind Q (err e) f p k = p
bind Q fault f p k = p
bind Q out_of_fuel f p k = p

-- The rules for a branch on a computed test.
pub branch :
    {E A : Type 0} (P : A → Type 0) (b : Bool) (x y : Run E A)
    → (b ≡ true → Returns P x)
    → (b ≡ false → Returns P y)
    → Returns P (if b then x else y)
branch P true x y h k = h refl
branch P false x y h k = k refl

pub deref-Returns :
    (E : Type 0) (p : List ℕ) (i : ℕ)
    → i < length p
    → Returns {E = E} (λ (b : ℕ). get_elem? p i ≡ some b) (deref p i)
unfolding deref
deref-Returns E [] i h = elim h [ ]
deref-Returns E (x ∷ xs) zero h = refl
deref-Returns E (x ∷ xs) (suc i) h = deref-Returns E xs i (omega arith)

pub fetch-ok : {E : Type 0} (p : List ℕ) (n : ℕ) → n ≤ length p → fetch {E = E} p n ≡ ok (take n p)
unfolding fetch
fetch-ok p n h = ground arith

pub emit-ok :
    {E : Type 0} (cap : ℕ) (out bytes : List ℕ)
    → length out + length bytes ≤ cap
    → emit {E = E} cap out bytes ≡ ok (out ++ bytes)
unfolding emit
emit-ok cap out bytes h = ground arith

pub emit_fault :
    {E : Type 0} (cap : ℕ) (out bytes : List ℕ)
    → cap < length out + length bytes
    → emit {E = E} cap out bytes ≡ fault
unfolding emit
emit_fault cap out bytes h = ground arith

pub bind_cong :
    {E A B : Type 0} (m : Run E A) {f g : A → Run E B}
    → ((a : A) → f a ≡ g a)
    → (m >>= f) ≡ (m >>= g)
bind_cong (ok a) h = h a
bind_cong (err e) h = refl
bind_cong fault h = refl
bind_cong out_of_fuel h = refl
