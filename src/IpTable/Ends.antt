-- ===== src/IpTable/Ends.antt =====
-- The loop of `ParsTxt` ends on every file, and when a line overflows the array of its address.
use gateway_project.Base.{
  ℕ, zero, suc, ◌+◌, ◌≤◌, ◌<◌, ◌≡◌, ◌≢◌, ◌↔◌, refl, sym, ◌∙◌, List, [], ◌∷◌, ◌++◌, All, Bool, true,
  false, Option, none, some, Option-cases, inl, inr, ◌⊎◌, length, length-take, take, drop,
  replicate, leb, ◌==◌, if◌then◌else◌, Run, ok, err, fault, out_of_fuel, ◌>>=◌, arith, dec_lt,
}
use gateway_project.Base.Text.{strchr}
use gateway_project.Base.Writes.{copy_in, copy_in-append}
use gateway_project.Comm.Heap.{Ptr, Heap, null, load}
use gateway_project.Comm.LinkedList.{Store, ListError, list_ins_next, list_append}
use gateway_project.Comm.Cells.{Cells, IsList}
use gateway_project.IpTable.Lines.{
  CoapIp, Exit, fgets, Parsed, blank, slash, hash, pars_path, pars_line,
}
use gateway_project.IpTable.Print.{pars_line-slash}
use gateway_project.IpTable.RoundTrip.{clear_table-nil}
use gateway_project.IpTable.Table.{
  Table, Alloc, append_block, read_round, fgets_result, read_rounds, pars_txt,
}

-- A run that does not use up its fuel.
abbrev pub Ends : {E A : Type 0} → Run E A → Type 0
Ends out_of_fuel = ⊥
Ends (ok a) = Unit {0}
Ends (err e) = Unit {0}
Ends fault = Unit {0}

Ends-bind :
    {E A B : Type 0} (m : Run E A) (f : A → Run E B)
    → Ends m
    → ((a : A) → Ends (f a))
    → Ends (m >>= f)
Ends-bind (ok a) f p k = k a
Ends-bind (err e) f p k = tt
Ends-bind fault f p k = tt
Ends-bind out_of_fuel f p k = p

Ends-if : {E A : Type 0} (b : Bool) (x y : Run E A) → Ends x → Ends y → Ends (if b then x else y)
Ends-if true x y p q = p
Ends-if false x y p q = q

Ends-copy_in :
    (E : Type 0) (buf : List ℕ) (to : ℕ) (bytes : List ℕ) → Ends (copy_in {E = E} buf to bytes)
unfolding copy_in
Ends-copy_in E buf to bytes =
    Ends-if (leb (to + length bytes) (length buf))
      (ok (take to buf ++ (bytes ++ drop (to + length bytes) buf))) fault tt tt

Ends-pars_path : (c : CoapIp) (p : List ℕ) → Ends (pars_path c p)
unfolding pars_path
Ends-pars_path c p = elim (Option-cases (strchr p hash)) [
  | inl e ↦ rw (pars_path, e) tt
  | inr (i, e) ↦
      rw (pars_path, e)
        (Ends-bind (copy_in {E = Exit} c.path 0 (take i p)) _
          (Ends-copy_in Exit c.path 0 (take i p)) (λ path. tt))
]

Ends-pars_line : (c : CoapIp) (s : List ℕ) → Ends (pars_line c s)
unfolding pars_line
Ends-pars_line c s = elim (Option-cases (strchr s slash)) [
  | inl e ↦ rw (pars_line, e) tt
  | inr (i, e) ↦
      rw (pars_line, e)
        (Ends-bind (copy_in {E = Exit} c.ip 0 (take i s)) _ (Ends-copy_in Exit c.ip 0 (take i s))
          (λ ip. Ends-pars_path (record c { ip = ip }) (drop (i + 1) s)))
]

Ends-load : (E : Type 0) (h : Heap) (p : Ptr) → Ends (load {E = E} h p)
unfolding load
Ends-load E h p = elim (Option-cases (h p)) [
  | inl e ↦ rw (load, e) (Ends-if (p == null) fault fault tt tt)
  | inr (x, e) ↦ rw (load, e) (Ends-if (p == null) fault (ok x) tt tt)
]

Ends-list_append : (element : Ptr) (s : Store) (d : ℕ) → Ends (list_append element s d)
unfolding list_append list_ins_next
Ends-list_append element s d = Ends-if (element == null) _ _ tt (
    Ends-if (s.list.tail == null) _ _ tt
      (Ends-bind (load s.heap s.list.tail) _ (Ends-load ListError s.heap s.list.tail) (λ e. tt)))

Ends-append_block : (t : Table) (block element : Ptr) → Ends (append_block t block element)
unfolding append_block
Ends-append_block t block element =
    go (list_append element t.store block) (Ends-list_append element t.store block)
  where
    go :
        (r : Run ListError Store)
        → Ends r
        → Ends {E = Exit} {A = Table} (elim r [
          | ok s ↦ ok (record t { store = s })
          | err e ↦ ok t
          | fault ↦ fault
          | out_of_fuel ↦ out_of_fuel
        ])
    go (ok s) p = tt
    go (err e) p = tt
    go fault p = tt
    go out_of_fuel p = p

Ends-read_round : (t : Table) (a : Alloc) (line : Option (List ℕ)) → Ends (read_round t a line)
unfolding read_round
Ends-read_round t a none = Ends-if (a.block == null) _ _ tt tt
Ends-read_round t a (some s) = Ends-if (a.block == null) _ _ tt (
    Ends-bind (pars_line (blank a.pid a.fifo_fd) s) _ (Ends-pars_line (blank a.pid a.fifo_fd) s)
      (λ parsed. Ends-if parsed.complete _ _ (Ends-append_block _ a.block a.element) tt))

fgets-le : (room : ℕ) (file : List ℕ) → length (fgets room file).rest ≤ length file
unfolding fgets
fgets-le zero file = omega arith
fgets-le (suc n) [] = omega arith
fgets-le (suc n) (b ∷ bs) = ground (arith, fgets-le n bs)

-- A read of at least one byte of room ends the file or takes a byte.
fgets-shorter :
    (room : ℕ) (file : List ℕ)
    → ((fgets (suc room) file).eof ≡ true) ⊎ (length (fgets (suc room) file).rest < length file)
unfolding fgets
fgets-shorter room [] = inl refl
fgets-shorter room (b ∷ bs) = inr (ground (arith, fgets-le room bs))

read_rounds-Ends :
    (fuel : ℕ) (t : Table) (allocs : List Alloc) (file : List ℕ) (eof : Bool)
    → length file < fuel
    → Ends (read_rounds fuel t allocs file eof)
unfolding read_rounds
read_rounds-Ends zero t allocs file true h = tt
read_rounds-Ends (suc fuel) t [] file true h = tt
read_rounds-Ends (suc fuel) t (a ∷ rest) file true h = tt
read_rounds-Ends zero t allocs file false h = absurd (omega (arith, h))
read_rounds-Ends (suc fuel) t [] file false h = tt
read_rounds-Ends (suc fuel) t (a ∷ rest) file false h =
    Ends-bind (read_round t a (fgets_result (fgets 127 file).line)) _
      (Ends-read_round t a (fgets_result (fgets 127 file).line))
      (λ t'. elim (fgets-shorter 126 file) [
        | inl e ↦ rw e tt
        | inr less ↦
            read_rounds-Ends fuel t' rest (fgets 127 file).rest (fgets 127 file).eof
              (omega (arith, less, h))
      ])

-- On a well-formed list, `ParsTxt` ends whatever the file holds and whatever `malloc` returns: fuel for
-- one round more than the file has bytes is enough for its loop.
pub pars_txt-Ends :
    (fuel : ℕ) (t : Table) (xs : Cells) (allocs : List Alloc) (file : List ℕ)
    → IsList t.store xs
    → length file < fuel
    → Ends (pars_txt fuel t allocs (some file))
unfolding pars_txt
pars_txt-Ends fuel t xs allocs file w h =
    let (t', e, gone) = clear_table-nil t xs w in
    rw (pars_txt, e) (read_rounds-Ends fuel t' allocs file false h)

strchr-lt : (s : List ℕ) (c i : ℕ) → strchr s c ≡ some i → i < length s
unfolding strchr
strchr-lt [] c i e = cc
strchr-lt (b ∷ bs) c i e = elim (Option-cases (strchr bs c)) [
  | inl nothing ↦ ground (arith, nothing)
  | inr (j, found) ↦ ground (arith, found, strchr-lt bs c j found)
]

length-before : (s : List ℕ) (i : ℕ) → i < length s → length (take i s) ≡ i
length-before s i h = omega (arith, length-take i s)

pars_path-ok :
    (c : CoapIp) (p : List ℕ)
    → length p ≤ 128
    → length c.path ≡ 128
    → (parsed : Parsed) × (pars_path c p ≡ ok parsed)
unfolding pars_path
pars_path-ok c p h n = elim (Option-cases (strchr p hash)) [
  | inl e ↦ (record { entry = c; complete = false }, rw (pars_path, e))
  | inr (i, e) ↦
      let len = length-before p i (strchr-lt p hash i e) in
      (
        record {
          entry = record c { path = take i p ++ drop (length (take i p)) c.path };
          complete = true;
        },
        rw (
          pars_path,
          e,
          copy_in-append Exit [] c.path (take i p) 0 refl
              (omega (arith, h, n, len, strchr-lt p hash i e)),
        ),
      )
]

overflow : (ip : List ℕ) → 64 < length ip → copy_in {E = Exit} (replicate 64 0) 0 ip ≡ fault
unfolding copy_in
overflow ip h = ground (arith, h)

ok-ne-fault : (x : Parsed) → ◌≡◌ {A = Run Exit Parsed} (ok x) fault → ⊥
ok-ne-fault x e = cc

returns :
    (pid fifo_fd : ℕ) (ip rest : List ℕ)
    → All (λ b. (b ≢ slash) × (b ≢ 0)) ip
    → length ip + length rest ≤ 126
    → ¬ (64 < length ip)
    → pars_line (blank pid fifo_fd) (ip ++ (slash ∷ rest)) ≢ fault
returns pid fifo_fd ip rest p h fits e =
    let a = ip ++ drop (length ip) (replicate 64 0) in
    let (x, ex) =
      pars_path-ok (record (blank pid fifo_fd) { ip = a }) rest (omega (arith, h)) refl in
    let runs : pars_line (blank pid fifo_fd) (ip ++ (slash ∷ rest)) ≡ ok x =
      rw
        (
          pars_line-slash (blank pid fifo_fd) ip rest p,
          copy_in-append Exit [] (replicate 64 0) ip 0 refl (omega (arith, fits)),
        )
        ex in
    ok-ne-fault x (sym runs ∙ e)

-- A line of at most 127 bytes with a slash, and with no NUL before it, overflows an array exactly if
-- more than 64 bytes stand before the slash: the array of the address has 64, and no check stops the copy.
pub pars_line-fault_iff :
    (pid fifo_fd : ℕ) (ip rest : List ℕ)
    → All (λ b. (b ≢ slash) × (b ≢ 0)) ip
    → length ip + length rest ≤ 126
    → (pars_line (blank pid fifo_fd) (ip ++ (slash ∷ rest)) ≡ fault) ↔ (64 < length ip)
pars_line-fault_iff pid fifo_fd ip rest p h = elim (dec_lt 64 (length ip)) [
  | yes long ↦
      (λ e. long, λ l. rw (pars_line-slash (blank pid fifo_fd) ip rest p, overflow ip long))
  | no fits ↦ (λ e. absurd (returns pid fifo_fd ip rest p h fits e), λ l. absurd (fits l))
]
