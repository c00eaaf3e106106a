-- ===== src/Gateway/Fifo.antt =====
-- `GetfifoName` of user/main.c: the name of the pipe between the main program and a client process.
use gateway_project.Base.{
  ℕ, zero, suc, ◌+◌, ◌-◌, ◌*◌, ◌/◌, ◌%◌, ◌^◌, ◌≤◌, ◌<◌, ◌≡◌, ◌≢◌, refl, sym, ap, ◌∙◌, List, [], ◌∷◌,
  ◌++◌, length, length-append, drop, replicate, take, ltb, ltb-false, lt→ltb, if◌then◌else◌, Run,
  ok, ◌>>=◌, arith, dec_lt, All, All-append, append_assoc, take-length-append, ◌↔◌,
}
use gateway_project.Base.Text.{codes, c_string, c_string-nul}
use gateway_project.Base.Writes.{copy_in, copy_in-append}

-- `%d` of a number that is not negative, with at most `fuel` digits.
unfoldable pub decimal : (fuel : ℕ) → ℕ → List ℕ
decimal zero n = []
decimal (suc fuel) n =
    let front = decimal fuel (n / 10) in
    if ltb n 10 then (48 + n) ∷ [] else front ++ ((48 + n % 10) ∷ [])

-- An `int` has at most 10 digits.
unfoldable pub fifo_text : (key : ℕ) → List ℕ
fifo_text key = codes "/tmp/" ++ (decimal 10 key ++ codes "_fifo")

-- The array after the call, with `buf_len` bytes cleared first.
unfoldable pub getfifo_name :
    {E : Type 0} → (name_buf : List ℕ) → (buf_len key : ℕ) → Run E (List ℕ)
getfifo_name name_buf buf_len key = do
  cleared ← copy_in name_buf 0 (replicate buf_len 0)
  copy_in cleared 0 (fifo_text key ++ (0 ∷ []))

-- The number that decimal digits stand for.
abbrev value_of : ℕ → List ℕ → ℕ
value_of n [] = n
value_of n (d ∷ ds) = value_of (n * 10 + (d - 48)) ds

value_of-append :
    (n d : ℕ) (ds : List ℕ) → value_of n (ds ++ (d ∷ [])) ≡ value_of n ds * 10 + (d - 48)
value_of-append n d [] = refl
value_of-append n d (x ∷ ds) = value_of-append (n * 10 + (x - 48)) d ds

-- The numbers of at most `fuel` digits are below this.
abbrev tens : ℕ → ℕ
tens zero = 1
tens (suc n) = 10 * tens n

value_of-decimal : (fuel n : ℕ) → n < tens fuel → value_of 0 (decimal fuel n) ≡ n
unfolding decimal
value_of-decimal zero n h = omega (arith, h)
value_of-decimal (suc fuel) n h = elim (dec_lt n 10) [
  | yes small ↦ rw (lt→ltb n 10 small) (omega arith)
  | no big ↦
      rw
        (
          ltb-false n 10 (omega (arith, big)),
          value_of-append 0 (48 + n % 10) (decimal fuel (n / 10)),
          value_of-decimal fuel (n / 10) (omega (arith, h)),
        )
        (omega arith)
]

length-decimal : (fuel n : ℕ) → length (decimal fuel n) ≤ fuel
unfolding decimal
length-decimal zero n = omega arith
length-decimal (suc fuel) n = ground (
  arith,
  length-decimal fuel (n / 10),
  length-append (decimal fuel (n / 10)) ((48 + n % 10) ∷ []),
)

decimal-no_nul : (fuel n : ℕ) → All (λ b. b ≢ 0) (decimal fuel n)
unfolding decimal
decimal-no_nul zero n = tt
decimal-no_nul (suc fuel) n = elim (dec_lt n 10) [
  | yes small ↦ rw (lt→ltb n 10 small) (omega arith, tt)
  | no big ↦ rw (ltb-false n 10 (omega (arith, big))) (
      All-append (λ b. b ≢ 0) (decimal fuel (n / 10)) ((48 + n % 10) ∷ [])
        (decimal-no_nul fuel (n / 10)) (omega arith, tt))
]

fifo_text-no_nul : (key : ℕ) → All (λ b. b ≢ 0) (fifo_text key)
unfolding fifo_text
fifo_text-no_nul key =
    All-append (λ b. b ≢ 0) (codes "/tmp/") (decimal 10 key ++ codes "_fifo") (omega arith)
      (All-append (λ b. b ≢ 0) (decimal 10 key) (codes "_fifo") (decimal-no_nul 10 key)
        (omega arith))

length-fifo_text : (key : ℕ) → length (fifo_text key) ≤ 20
unfolding fifo_text
length-fifo_text key =
    omega (arith, length-append (decimal 10 key) (codes "_fifo"), length-decimal 10 key)

append-cancel : (xs ys s : List ℕ) → xs ++ s ≡ ys ++ s → xs ≡ ys
append-cancel xs ys s e =
    let same : length xs ≡ length ys =
      omega (arith, ap length e, length-append xs s, length-append ys s) in
    sym (take-length-append (length xs) xs s refl)
    ∙ (ap (take (length xs)) e ∙ take-length-append (length xs) ys s same)

fifo_text-injective : (k k' : ℕ) → k < 2 ^ 31 → k' < 2 ^ 31 → fifo_text k ≡ fifo_text k' → k ≡ k'
unfolding fifo_text
fifo_text-injective k k' h h' e =
    let digits : decimal 10 k ≡ decimal 10 k' =
      append-cancel (decimal 10 k) (decimal 10 k') (codes "_fifo") (ap (drop 5) e) in
    sym (value_of-decimal 10 k (omega (arith, h)))
    ∙ (ap (value_of 0) digits ∙ value_of-decimal 10 k' (omega (arith, h')))

-- In an array of 64 bytes, which is cleared whole, the call leaves the name as a string.
pub getfifo_name-fifo_text :
    {E : Type 0} (name_buf : List ℕ) (key : ℕ)
    → length name_buf ≡ 64
    → (a : List ℕ) × (getfifo_name {E = E} name_buf 64 key ≡ ok a) × (c_string a ≡ fifo_text key)
unfolding getfifo_name
getfifo_name-fifo_text {E} name_buf key n =
    let zeros : List ℕ = replicate 64 0 in
    let text = fifo_text key ++ (0 ∷ []) in
    let size : length text ≤ 21 =
      omega (arith, length-append (fifo_text key) (0 ∷ []), length-fifo_text key) in
    let cleared = zeros ++ drop 64 name_buf in
    (
      text ++ drop (length text) cleared,
      rw (
        copy_in-append E [] name_buf zeros 0 refl (omega (arith, n)),
        copy_in-append E [] cleared text 0 refl
            (omega (arith, size, length-append zeros (drop 64 name_buf))),
      ),
      rw (append_assoc (fifo_text key) (0 ∷ []) (drop (length text) cleared))
          (c_string-nul (fifo_text key) (drop (length text) cleared) (fifo_text-no_nul key)),
    )

-- In arrays of 64 bytes, the names of the pipes for two process ids below 2 ^ 31 fit with their NUL, and
-- they are the same string exactly if the process ids are the same: the main program and the client
-- that it forked agree on a name, and two clients never share one.
pub getfifo_name_iff :
    (buf buf' : List ℕ) (k k' : ℕ)
    → length buf ≡ 64
    → length buf' ≡ 64
    → k < 2 ^ 31
    → k' < 2 ^ 31
    → (a : List ℕ) × (a' : List ℕ) × (getfifo_name {E = Unit {0}} buf 64 k ≡ ok a)
      × (getfifo_name {E = Unit {0}} buf' 64 k' ≡ ok a')
      × ((c_string a ≡ c_string a') ↔ (k ≡ k'))
getfifo_name_iff buf buf' k k' n n' h h' =
    let (a, e, c) = getfifo_name-fifo_text {E = Unit {0}} buf k n in
    let (a', e', c') = getfifo_name-fifo_text {E = Unit {0}} buf' k' n' in
    (
      a,
      a',
      e,
      e',
      (
        λ same. fifo_text-injective k k' h h' (sym c ∙ (same ∙ c')),
        λ same. c ∙ (ap fifo_text same ∙ sym c'),
      ),
    )
