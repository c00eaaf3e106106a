-- ===== src/IpTable/RoundTrip.antt =====
-- `ParsTxt` reads back the table that a file was written for.
use gateway_project.Base.{
  ℕ, zero, suc, ◌<◌, ◌≡◌, ◌≢◌, refl, ℕ_discrete, sym, ◌∙◌, List, [], ◌∷◌, ◌++◌, append-nil,
  append_assoc, All, true, false, none, some, length, ltb-false, lt→ltb, ◌==◌, ==_false, ==_true,
  Bool, Bool-cases, inl, inr, not, ◌&&◌, ◌||◌, subst, if◌then◌else◌, ok, arith,
}
use mathlib.Core.List.{reverse_aux}
use gateway_project.Comm.Heap.{Ptr, null, Heap}
use gateway_project.Comm.Cells.{Cells, has, Linked, IsList}
use gateway_project.Comm.Remove.{data_of, list_clean-nil}
use gateway_project.IpTable.Lines.{fgets, blank}
use gateway_project.IpTable.Table.{
  Blocks, put_block, Table, Alloc, read_round, fgets_result, read_rounds, free_blocks, clear_table,
  pars_txt,
}
use gateway_project.IpTable.Print.{
  Entry, line_of, text_of, IsEntry, fgets-line, line_of-no_newline, length-line_of,
}
use gateway_project.IpTable.Append.{
  IsTable, IsFresh, AreFresh, Differs, Stays, AreDistinct, Holds-put, read_round-append,
}

fgets_result-append : (xs : List ℕ) (b : ℕ) → fgets_result (xs ++ (b ∷ [])) ≡ some (xs ++ (b ∷ []))
fgets_result-append [] b = refl
fgets_result-append (x ∷ xs) b = refl

-- The last round, in which `fgets` returns NULL: a block is allocated that nothing points to.
read_round-end :
    (t : Table) (a : Alloc) (es : List Entry)
    → IsTable t es
    → IsFresh t a
    → (t' : Table) × (read_round t a none ≡ ok t') × IsTable t' es × Stays t (a ∷ []) t'
unfolding read_round
read_round-end t a es (xs, w, h, apart) (nb, _, ub, _) =
    let c = blank a.pid a.fifo_fd in
    (
      record t { blocks = put_block t.blocks a.block (some c) },
      rw (==_false a.block null nb),
      (xs, w, Holds-put t.blocks a.block c (data_of xs) es ub h, apart),
      record {
        elements = λ q nq _ uq. uq;
        freed_blocks = λ q (db, _) uq. rw (==_false q a.block db) uq;
      },
    )

AreFresh-step :
    (t t' : Table) (a : Alloc) (as' : List Alloc)
    → ((b : Alloc) → Differs a b → IsFresh t b → IsFresh t' b)
    → All (Differs a) as'
    → All (IsFresh t) as'
    → All (IsFresh t') as'
AreFresh-step t t' a [] keep d f = tt
AreFresh-step t t' a (b ∷ bs) keep (db, d) (fb, f) =
    (keep b db fb, AreFresh-step t t' a bs keep d f)

fgets_end : fgets 127 [] ≡ record { line = []; rest = []; eof = true }
unfolding fgets
fgets_end = refl

pub read_rounds-eof :
    (fuel : ℕ) (t : Table) (allocs : List Alloc) (file : List ℕ)
    → read_rounds fuel t allocs file true ≡ ok t
unfolding read_rounds
read_rounds-eof zero t allocs file = refl
read_rounds-eof (suc fuel) t [] file = refl
read_rounds-eof (suc fuel) t (a ∷ rest) file = refl

read_rounds-text_of :
    (fuel : ℕ) (t : Table) (allocs : List Alloc) (old es : List Entry)
    → IsTable t old
    → All (IsFresh t) allocs
    → AreDistinct allocs
    → All IsEntry es
    → length allocs ≡ suc (length es)
    → length es < fuel
    → (t' : Table) × (read_rounds fuel t allocs (text_of es) false ≡ ok t')
      × IsTable t' (old ++ es)
      × Stays t allocs t'
unfolding read_rounds
read_rounds-text_of zero t allocs old es w f d v n enough = absurd (omega (arith, enough))
read_rounds-text_of (suc fuel) t [] old es w f d v n enough = absurd (omega (arith, n))
read_rounds-text_of (suc fuel) t (a ∷ rest) old [] w (fa, f) d v n enough =
    let (t', e, w', stays) = read_round-end t a old w fa in
    (
      t',
      rw (fgets_end, e) (read_rounds-eof fuel t' rest []),
      rw (append-nil old) w',
      record {
        elements = λ q nq (de, _) uq. stays.elements q nq (de, tt) uq;
        freed_blocks = λ q (db, _) uq. stays.freed_blocks q (db, tt) uq;
      },
    )
read_rounds-text_of (suc fuel) t (a ∷ rest) old (x ∷ es) w (fa, f) (da, d) (vx, v) n enough =
    let (t', e, w', keep, stays) = read_round-append t a old x w fa vx in
    let (t'', e', w'', stays') =
      read_rounds-text_of fuel t' rest (old ++ (x ∷ [])) es w' (AreFresh-step t t' a rest keep da f)
        d v (omega (arith, n)) (omega (arith, enough)) in
    (
      t'',
      rw
          (
            fgets-line 127 (line_of x) (text_of es) (line_of-no_newline x vx)
                (omega (arith, length-line_of x, vx.room)),
            fgets_result-append (line_of x) 10,
            e,
          )
          e',
      rw (sym (append_assoc old (x ∷ []) es)) w'',
      record {
        elements = λ q nq (na, ns) uq. stays'.elements q nq ns (stays.elements q nq (na, tt) uq);
        freed_blocks = λ q (na, ns) uq. stays'.freed_blocks q ns (stays.freed_blocks q (na, tt) uq);
      },
    )

free_blocks-none :
    (ps : List Ptr) (bs : Blocks) (a : Ptr) → bs a ≡ none → free_blocks bs ps a ≡ none
free_blocks-none [] bs a e = e
free_blocks-none (p ∷ ps) bs a e = free_blocks-none ps (put_block bs p none) a kept
  where
    kept : (if a == p then none else bs a) ≡ none
    kept = ground (arith, e)

free_blocks-freed : (ps : List Ptr) (bs : Blocks) → All (λ p. free_blocks bs ps p ≡ none) ps
free_blocks-freed [] bs = tt
free_blocks-freed (p ∷ ps) bs = (
  free_blocks-none ps (put_block bs p none) p (rw (==_true p p refl) refl),
  free_blocks-freed ps (put_block bs p none),
)

All-reverse_aux :
    (P : Ptr → Type 0) (ps acc : List Ptr) → All P (reverse_aux ps acc) → All P ps × All P acc
All-reverse_aux P [] acc h = (tt, h)
All-reverse_aux P (p ∷ ps) acc h =
    let (hs, (here, more)) = All-reverse_aux P ps (p ∷ acc) h in ((here, hs), more)

-- The old list is freed, its elements and its blocks.
pub record IsCleared (xs : Cells) (t : Table) : Type 0 where
  pub table : IsTable t []
  pub elements : (q : Ptr) → has q xs ≡ true → t.store.heap q ≡ none
  pub blocks_of : All (λ p. t.blocks p ≡ none) (data_of xs)

pub clear_table-nil :
    (t : Table) (xs : Cells)
    → IsList t.store xs
    → (t' : Table) × (clear_table t ≡ ok t') × IsCleared xs t'
unfolding clear_table
clear_table-nil t [] w = (
  t,
  rw (ltb-false 0 t.store.list.size (omega (arith, w.size))),
  record { table = ([], w, tt, tt); elements = λ q i. absurd (no_member i); blocks_of = tt },
)
  where
    no_member : false ≡ true → ⊥
    no_member h = cc
clear_table-nil t (x ∷ xs) w =
    let (c, e, d, w', freed) = list_clean-nil t.store (x ∷ xs) w in
    (
      record { store = c.store; blocks = free_blocks t.blocks c.destroyed },
      rw (lt→ltb 0 t.store.list.size (omega (arith, w.size)), e),
      record {
        table = ([], w', tt, tt);
        elements = λ q i. freed q ∙ ground (arith, i);
        blocks_of =
            (All-reverse_aux (λ p. free_blocks t.blocks c.destroyed p ≡ none) (data_of (x ∷ xs)) []
              (subst (λ ps. All (λ p. free_blocks t.blocks c.destroyed p ≡ none) ps) d
                (free_blocks-freed c.destroyed t.blocks))).0;
      },
    )

member-ne-null : (h : Heap) (xs : Cells) (q : Ptr) → Linked h xs → has q xs ≡ true → q ≢ null
member-ne-null h [] q l i = cc
member-ne-null h ((p, d) ∷ xs) q (ne, hp, out, l) i = elim (ℕ_discrete q p) [
  | yes same ↦ λ z. ne (sym same ∙ z)
  | no other ↦ member-ne-null h xs q l (rw (==_false q p other) at i)
]

-- Whether `malloc` gave an address again.
abbrev pub reused_element : Ptr → List Alloc → Bool
reused_element q [] = false
reused_element q (a ∷ more) = (q == a.element) || reused_element q more

abbrev pub reused_block : Ptr → List Alloc → Bool
reused_block q [] = false
reused_block q (a ∷ more) = (q == a.block) || reused_block q more

pub reused_element-false :
    (q : Ptr) (allocs : List Alloc)
    → reused_element q allocs ≡ false
    → All (λ (a : Alloc). q ≢ a.element) allocs
reused_element-false q [] h = tt
reused_element-false q (a ∷ more) h = elim (ℕ_discrete q a.element) [
  | yes same ↦ absurd (clash (rw (==_true q a.element same) at h))
  | no other ↦ (other, reused_element-false q more (rw (==_false q a.element other) at h))
]
  where
    clash : true ≡ false → ⊥
    clash h = cc

reused_block-false :
    (q : Ptr) (allocs : List Alloc)
    → reused_block q allocs ≡ false
    → All (λ (a : Alloc). q ≢ a.block) allocs
reused_block-false q [] h = tt
reused_block-false q (a ∷ more) h = elim (ℕ_discrete q a.block) [
  | yes same ↦ absurd (clash (rw (==_true q a.block same) at h))
  | no other ↦ (other, reused_block-false q more (rw (==_false q a.block other) at h))
]
  where
    clash : true ≡ false → ⊥
    clash h = cc

-- Of the old list nothing is left but what `malloc` gave again.
abbrev pub ElementsFreed : Cells → List Alloc → Table → Type 0
ElementsFreed xs allocs t =
    (q : Ptr) → (if has q xs && not (reused_element q allocs) then t.store.heap q else none) ≡ none

abbrev pub BlocksFreed : Cells → List Alloc → Table → Type 0
BlocksFreed xs allocs t =
    All (λ p. (if reused_block p allocs then none else t.blocks p) ≡ none) (data_of xs)

All-blocks :
    (allocs : List Alloc) (t t' : Table) (ps : List Ptr)
    → Stays t allocs t'
    → All (λ p. t.blocks p ≡ none) ps
    → All (λ p. (if reused_block p allocs then none else t'.blocks p) ≡ none) ps
All-blocks allocs t t' [] stays h = tt
All-blocks allocs t t' (p ∷ ps) stays (e, h) = (here, All-blocks allocs t t' ps stays h)
  where
    here : (if reused_block p allocs then none else t'.blocks p) ≡ none
    here = elim (Bool-cases (reused_block p allocs)) [
      | inl yes_reused ↦ rw yes_reused refl
      | inr not_reused ↦
          rw not_reused (stays.freed_blocks p (reused_block-false p allocs not_reused) e)
    ]

-- With what is left of the old list.
pub pars_txt_lem :
    (fuel : ℕ) (t : Table) (xs : Cells) (allocs : List Alloc) (es : List Entry)
    → IsList t.store xs
    → AreFresh t allocs
    → AreDistinct allocs
    → All IsEntry es
    → length allocs ≡ suc (length es)
    → length es < fuel
    → (t' : Table) × (pars_txt fuel t allocs (some (text_of es)) ≡ ok t')
      × IsTable t' es
      × ((q : Ptr) → has q xs ≡ true → reused_element q allocs ≡ false → t'.store.heap q ≡ none)
      × BlocksFreed xs allocs t'
unfolding pars_txt
pars_txt_lem fuel t xs allocs es w f d v n enough =
    let (t', e, gone) = clear_table-nil t xs w in
    let (t'', e', w'', stays) =
      read_rounds-text_of fuel t' allocs [] es gone.table (f t' e) d v n enough in
    (
      t'',
      rw (e, e') refl,
      w'',
      λ q i r.
          stays.elements q (member-ne-null t.store.heap xs q w.linked i)
            (reused_element-false q allocs r) (gone.elements q i),
      All-blocks allocs t' t'' (data_of xs) stays gone.blocks_of,
    )

-- `ParsTxt` on a well-formed list and a file with one line `ip/path#` for each entry, given by `malloc`
-- distinct addresses that are unused once the old list was freed (two for each line, and two for the
-- round that finds the end of the file): of the elements and blocks of the old list nothing is left but
-- the addresses that `malloc` gave again, and the new list is well-formed, with blocks that hold the
-- addresses and the paths of the file as strings, in the order of the lines. The entries have no NUL, no
-- newline and no separator before its place, addresses of at most 63 bytes, and lines of at most 127
-- bytes with their newline. Fuel for one round more than the lines is enough.
pub pars_txt-text_of :
    (fuel : ℕ) (t : Table) (xs : Cells) (allocs : List Alloc) (es : List Entry)
    → IsList t.store xs
    → AreFresh t allocs
    → AreDistinct allocs
    → All IsEntry es
    → length allocs ≡ suc (length es)
    → length es < fuel
    → (t' : Table) × (pars_txt fuel t allocs (some (text_of es)) ≡ ok t')
      × IsTable t' es
      × ElementsFreed xs allocs t'
      × BlocksFreed xs allocs t'
pars_txt-text_of fuel t xs allocs es w f d v n enough =
    let (t', e, w', elements, blocks) = pars_txt_lem fuel t xs allocs es w f d v n enough in
    (
      t',
      e,
      w',
      λ q. elim (Bool-cases (has q xs)) [
        | inr out ↦ rw out refl
        | inl i ↦ elim (Bool-cases (reused_element q allocs)) [
          | inl again ↦ rw (i, again) refl
          | inr once ↦ rw (i, once) (elements q i once)
        ]
      ],
      blocks,
    )
