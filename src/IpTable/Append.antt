-- ===== src/IpTable/Append.antt =====
-- A table with its entries, and how a round that reads a line of the text extends it.
use gateway_project.Base.{
  All-append, ℕ, ◌≡◌, ◌≢◌, refl, sym, ap, ◌∙◌, subst, List, [], ◌∷◌, ◌++◌, All, true, false, Option,
  none, some, ◌==◌, ==_false, ==_true, if◌then◌else◌, Run, ok, ℕ_discrete,
}
use gateway_project.Base.Text.{c_string}
use gateway_project.Comm.Heap.{Ptr, null}
use gateway_project.Comm.LinkedList.{Store, list_append, queue_enqueue}
use gateway_project.Comm.Cells.{Cells, has, IsList, has-last_of, not-has_of_none}
use gateway_project.Comm.Remove.{data_of}
use gateway_project.Comm.Queue.{queue_enqueue-append, data_of-append}
use gateway_project.IpTable.Lines.{CoapIp, Exit}
use gateway_project.IpTable.Table.{
  Blocks, put_block, Table, Alloc, append_block, read_round, clear_table,
}
use gateway_project.IpTable.Print.{
  Entry, line_of, IsEntry, block_of, pars_line-line_of, c_string-padded,
}

-- The block at an address holds the two strings of an entry.
abbrev pub IsBlock : Blocks → Ptr → Entry → Type 0
IsBlock bs p e =
    (c : CoapIp) × (bs p ≡ some c) × (c_string c.ip ≡ e.ip) × (c_string c.path ≡ e.path)

abbrev pub Holds : Blocks → List Ptr → List Entry → Type 0
Holds bs [] [] = Unit {0}
Holds bs [] (e ∷ es) = ⊥
Holds bs (p ∷ ps) [] = ⊥
Holds bs (p ∷ ps) (e ∷ es) = IsBlock bs p e × Holds bs ps es

-- Each address occurs once.
abbrev pub AreApart : List Ptr → Type 0
AreApart [] = Unit {0}
AreApart (p ∷ ps) = All (λ q. q ≢ p) ps × AreApart ps

pub away : (ps : List Ptr) (p : Ptr) → All (λ q. q ≢ p) ps → All (λ q. p ≢ q) ps
away [] p h = tt
away (q ∷ qs) p (ne, h) = (λ same. ne (sym same), away qs p h)

pub towards : (ps : List Ptr) (p : Ptr) → All (λ q. p ≢ q) ps → All (λ q. q ≢ p) ps
towards [] p h = tt
towards (q ∷ qs) p (ne, h) = (λ same. ne (sym same), towards qs p h)

-- The table stands for a list of entries.
abbrev pub IsTable : Table → List Entry → Type 0
IsTable t es =
    (xs : Cells) × IsList t.store xs × Holds t.blocks (data_of xs) es × AreApart (data_of xs)

-- What `malloc` documents: the addresses are not NULL and not in use in the table `t`, and differ from
-- each other.
abbrev pub IsFresh : Table → Alloc → Type 0
IsFresh t a =
    (a.block ≢ null)
    × (a.element ≢ null)
    × (t.blocks a.block ≡ none)
    × (t.store.heap a.element ≡ none)

abbrev pub Differs : Alloc → Alloc → Type 0
Differs a b = (b.block ≢ a.block) × (b.element ≢ a.element)

-- The addresses that `ParsTxt` gets from `malloc`: unused once it has freed the old list, so that an
-- address of the old list may come again.
abbrev pub AreFresh : Table → List Alloc → Type 0
AreFresh t allocs = (t' : Table) → clear_table t ≡ ok t' → All (IsFresh t') allocs

table-injective : (t t' : Table) → ◌≡◌ {A = Run Exit Table} (ok t) (ok t') → t ≡ t'
table-injective t t' h = cc

pub cleared-AreFresh :
    (t cleared : Table) (allocs : List Alloc)
    → clear_table t ≡ ok cleared
    → All (IsFresh cleared) allocs
    → AreFresh t allocs
cleared-AreFresh t cleared allocs e f t' e' =
    subst (λ u. All (IsFresh u) allocs) (table-injective cleared t' (sym e ∙ e')) f

-- The first table's free addresses, other than those that `malloc` gave, are free in the second.
pub record Stays (t : Table) (allocs : List Alloc) (t' : Table) : Type 0 where
  pub elements :
      (q : Ptr)
      → q ≢ null
      → All (λ (a : Alloc). q ≢ a.element) allocs
      → t.store.heap q ≡ none
      → t'.store.heap q ≡ none
  pub freed_blocks :
      (q : Ptr) → All (λ (a : Alloc). q ≢ a.block) allocs → t.blocks q ≡ none → t'.blocks q ≡ none

abbrev pub AreDistinct : List Alloc → Type 0
AreDistinct [] = Unit {0}
AreDistinct (a ∷ as') = All (Differs a) as' × AreDistinct as'

pub Holds-put :
    (bs : Blocks) (a : Ptr) (c : CoapIp) (ps : List Ptr) (es : List Entry)
    → bs a ≡ none
    → Holds bs ps es
    → Holds (put_block bs a (some c)) ps es
Holds-put bs a c [] [] e h = tt
Holds-put bs a c [] (x ∷ es) e h = h
Holds-put bs a c (p ∷ ps) [] e h = h
Holds-put bs a c (p ∷ ps) (x ∷ es) e ((d, here, ip, path), h) =
    ((d, kept, ip, path), Holds-put bs a c ps es e h)
  where
    kept : (if p == a then some c else bs p) ≡ some d
    kept = elim (ℕ_discrete p a) [ yes same ↦ cc | no other ↦ rw (==_false p a other) here ]

Holds-append :
    (bs : Blocks) (p : Ptr) (e : Entry) (ps : List Ptr) (es : List Entry)
    → Holds bs ps es
    → IsBlock bs p e
    → Holds bs (ps ++ (p ∷ [])) (es ++ (e ∷ []))
Holds-append bs p e [] [] h k = (k, tt)
Holds-append bs p e [] (x ∷ es) h k = absurd h
Holds-append bs p e (q ∷ ps) [] h k = absurd h
Holds-append bs p e (q ∷ ps) (x ∷ es) (b, h) k = (b, Holds-append bs p e ps es h k)

-- An address without a block is none of those that hold entries.
Holds-ne :
    (bs : Blocks) (a : Ptr) (ps : List Ptr) (es : List Entry)
    → bs a ≡ none
    → Holds bs ps es
    → All (λ p. a ≢ p) ps
Holds-ne bs a [] es e h = tt
Holds-ne bs a (p ∷ ps) [] e h = absurd h
Holds-ne bs a (p ∷ ps) (x ∷ es) e ((c, here, _, _), h) =
    (λ same. some-ne-none c (sym here ∙ (ap bs (sym same) ∙ e)), Holds-ne bs a ps es e h)
  where
    some-ne-none : (c : CoapIp) → ◌≡◌ {A = Option CoapIp} (some c) none → ⊥
    some-ne-none c k = cc

pub AreApart-append :
    (a : Ptr) (ps : List Ptr) → AreApart ps → All (λ p. a ≢ p) ps → AreApart (ps ++ (a ∷ []))
AreApart-append a [] h k = (tt, tt)
AreApart-append a (p ∷ ps) (hp, h) (kp, k) =
    (All-append (λ q. q ≢ p) ps (a ∷ []) hp (kp, tt), AreApart-append a ps h k)

-- The end of a list is not an address that is not in use.
not-tail :
    (s : Store) (xs : Cells) (b : Ptr) → IsList s xs → b ≢ null → s.heap b ≡ none → b ≢ s.list.tail
not-tail s [] b w ne unused e = ne (e ∙ w.tail)
not-tail s (y ∷ xs) b w ne unused e =
    let out : has b (y ∷ xs) ≡ false = not-has_of_none s.heap b (y ∷ xs) w.linked unused in
    let i : has b (y ∷ xs) ≡ true =
      subst (λ (t : ℕ). has t (y ∷ xs) ≡ true) (sym (e ∙ w.tail)) (has-last_of y xs) in
    absurd (clash (sym i ∙ out))
  where
    clash : true ≡ false → ⊥
    clash h = cc

append_block-ok :
    (t : Table) (block element : Ptr) (s : Store)
    → queue_enqueue element t.store block ≡ ok s
    → append_block t block element ≡ ok (record { store = s; blocks = t.blocks })
unfolding append_block list_append queue_enqueue
append_block-ok t block element s e = rw (append_block, list_append, e)

-- A round on a line of the text appends its entry.
pub read_round-append :
    (t : Table) (a : Alloc) (es : List Entry) (e : Entry)
    → IsTable t es
    → IsFresh t a
    → IsEntry e
    → (t' : Table) × (read_round t a (some (line_of e ++ (10 ∷ []))) ≡ ok t')
      × IsTable t' (es ++ (e ∷ []))
      × ((b : Alloc) → Differs a b → IsFresh t b → IsFresh t' b)
      × Stays t (a ∷ []) t'
unfolding read_round
read_round-append t a es e (xs, w, h, apart) (nb, ne, ub, ue) v =
    let c = block_of a.pid a.fifo_fd e in
    let (s', eq, w', same) = queue_enqueue-append a.element a.block t.store xs w ne ue in
    let bs = put_block t.blocks a.block (some c) in
    let here : bs a.block ≡ some c = rw (==_true a.block a.block refl) in
    (
      record { store = s'; blocks = bs },
      rw (==_false a.block null nb, pars_line-line_of a.pid a.fifo_fd e v)
          (append_block-ok (record { store = t.store; blocks = bs }) a.block a.element s' eq),
      (
        xs ++ ((a.element, a.block) ∷ []),
        w',
        rw (data_of-append xs a.element a.block) (
            Holds-append bs a.block e (data_of xs) es
              (Holds-put t.blocks a.block c (data_of xs) es ub h)
              (c, here, c_string-padded 0x2f 64 e.ip v.ip, c_string-padded 0x23 128 e.path v.path)),
        rw (data_of-append xs a.element a.block) (
            AreApart-append a.block (data_of xs) apart
              (Holds-ne t.blocks a.block (data_of xs) es ub h)),
      ),
      λ b (db, de) (nb', ne', ub', ue'). (
        nb',
        ne',
        rw (==_false b.block a.block db) ub',
        same b.element de (not-tail t.store xs b.element w ne' ue') ∙ ue',
      ),
      record {
        elements = λ q nq (de, _) uq. same q de (not-tail t.store xs q w nq uq) ∙ uq;
        freed_blocks = λ q (db, _) uq. rw (==_false q a.block db) uq;
      },
    )
