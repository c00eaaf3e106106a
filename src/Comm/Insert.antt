-- ===== src/Comm/Insert.antt =====
-- `list_ins_next` puts a new element behind the one given, or in front of the list.
use gateway_project.Base.{
  ℕ, suc, ◌+◌, ◌≡◌, ◌≢◌, refl, [], ◌∷◌, true, false, none, some, length, arith, ◌==◌, ==_false,
  ==_true, if◌then◌else◌, ok, ℕ_discrete,
}
use gateway_project.Comm.Heap.{Ptr, null, ListElmt, elmt, Heap, put, load-ok}
use gateway_project.Comm.LinkedList.{Store, list_ins_next}
use gateway_project.Comm.Cells.{
  Cells, has, head_of, last_of, Linked, IsList, Linked-frame, not-has_of_none,
}

-- The cells with `x` behind the cell at address `a`.
abbrev pub insert_after : Ptr → Ptr × ℕ → Cells → Cells
insert_after a x [] = []
insert_after a x ((p, d) ∷ xs) = if p == a then (p, d) ∷ x ∷ xs else (p, d) ∷ insert_after a x xs

-- The element at an address of the list.
pub element_at :
    (h : Heap) (a : Ptr) (xs : Cells)
    → Linked h xs
    → has a xs ≡ true
    → (a ≢ null) × (e : ListElmt) × (h a ≡ some e)
element_at h a [] l i = cc
element_at h a ((p, d) ∷ xs) (ne, hp, out, l) i = elim (ℕ_discrete a p) [
  | yes e ↦ (ground arith, elmt d (head_of xs), ground arith)
  | no other ↦ element_at h a xs l (ground arith)
]

has-insert_after :
    (b a fresh v : ℕ) (xs : Cells)
    → b ≢ fresh
    → has b xs ≡ false
    → has b (insert_after a (fresh, v) xs) ≡ false
has-insert_after b a fresh v [] ne out = refl
has-insert_after b a fresh v ((p, d) ∷ xs) ne out =
    ground (arith, has-insert_after b a fresh v xs ne)

head_of-insert_after :
    (a : Ptr) (x : Ptr × ℕ) (xs : Cells) → head_of (insert_after a x xs) ≡ head_of xs
head_of-insert_after a x [] = refl
head_of-insert_after a x ((p, d) ∷ xs) = ground arith

length-insert_after :
    (a : Ptr) (x : Ptr × ℕ) (xs : Cells)
    → has a xs ≡ true
    → length (insert_after a x xs) ≡ suc (length xs)
length-insert_after a x [] i = cc
length-insert_after a x ((p, d) ∷ xs) i = ground (arith, length-insert_after a x xs)

module _ (h : Heap) (fresh v a : ℕ) (e : ListElmt) (ne_null : fresh ≢ null)
    (unused : h fresh ≡ none) (here : h a ≡ some e) where
  -- The heap after the insertion behind `a`.
  abbrev after : Heap
  after = put (put h fresh (some (elmt v e.next))) a (some (elmt e.data_ptr fresh))

  Linked-insert_after :
      (xs : Cells) → Linked h xs → has a xs ≡ true → Linked after (insert_after a (fresh, v) xs)
  Linked-insert_after [] l i = cc
  Linked-insert_after ((p, d) ∷ xs) (ne, hp, out, l) i =
      let fresh_out : has fresh xs ≡ false = not-has_of_none h fresh xs l unused in
      elim (ℕ_discrete p a) [
        | yes same ↦ rw (==_true p a same) (
          ne,
          ground arith,
          ground arith,
          (ne_null, ground arith, fresh_out, Linked-frame xs l (λ b j. ground arith)),
        )
        | no other ↦ rw (==_false p a other) (
          ne,
          ground (arith, head_of-insert_after a (fresh, v) xs),
          has-insert_after p a fresh v xs (ground arith) out,
          Linked-insert_after xs l (ground arith),
        )
      ]

  last_of-insert_after :
      (xs : Cells)
      → Linked h xs
      → has a xs ≡ true
      → last_of (insert_after a (fresh, v) xs) ≡ (if e.next == null then fresh else last_of xs)
  last_of-insert_after [] l i = cc
  last_of-insert_after ((p, d) ∷ []) l i = ground arith
  last_of-insert_after ((p, d) ∷ (q, c) ∷ xs) (ne, hp, out, l) i = elim (ℕ_discrete p a) [
    | yes same ↦ ground arith
    | no other ↦ ground (arith, last_of-insert_after ((q, c) ∷ xs) l)
  ]

-- `list_ins_next` behind an element of a list, given an unused address from `malloc`: the new element
-- stands directly behind that element, all others stay, and head, tail and size are right.
pub list_ins_next-insert_after :
    (fresh a v : ℕ) (s : Store) (xs : Cells)
    → IsList s xs
    → has a xs ≡ true
    → fresh ≢ null
    → s.heap fresh ≡ none
    → (s' : Store) × (list_ins_next fresh s a v ≡ ok s')
      × IsList s' (insert_after a (fresh, v) xs)
      × ((b : Ptr) → b ≢ fresh → b ≢ a → s'.heap b ≡ s.heap b)
unfolding list_ins_next
list_ins_next-insert_after fresh a v s xs w i ne unused =
    let (na, e, here) = element_at s.heap a xs w.linked i in
    (
      record {
        heap = put (put s.heap fresh (some (elmt v e.next))) a (some (elmt e.data_ptr fresh));
        list = record {
          size = s.list.size + 1;
          head = s.list.head;
          tail = if e.next == null then fresh else s.list.tail;
        };
      },
      rw (==_false fresh null ne, ==_false a null na, load-ok s.heap a e na here),
      record {
        linked = Linked-insert_after s.heap fresh v a e ne unused here xs w.linked i;
        size = omega (arith, w.size, length-insert_after a (fresh, v) xs i);
        head = ground (arith, w.head, head_of-insert_after a (fresh, v) xs);
        tail =
            ground
              (arith, w.tail, last_of-insert_after s.heap fresh v a e ne unused here xs w.linked i);
      },
      λ b nf nb. ground arith,
    )

-- `list_ins_next` with NULL for the element, given an unused address from `malloc`, puts the new
-- element in front.
pub list_ins_next-cons :
    (fresh v : ℕ) (s : Store) (xs : Cells)
    → IsList s xs
    → fresh ≢ null
    → s.heap fresh ≡ none
    → (s' : Store) × (list_ins_next fresh s null v ≡ ok s')
      × IsList s' ((fresh, v) ∷ xs)
      × ((b : Ptr) → b ≢ fresh → s'.heap b ≡ s.heap b)
unfolding list_ins_next
list_ins_next-cons fresh v s xs w ne unused = (
  record {
    heap = put s.heap fresh (some (elmt v s.list.head));
    list = record {
      size = s.list.size + 1;
      head = fresh;
      tail = if s.list.size == 0 then fresh else s.list.tail;
    };
  },
  rw (==_false fresh null ne),
  record {
    linked = (
      ne,
      ground (arith, w.head),
      not-has_of_none s.heap fresh xs w.linked unused,
      Linked-frame xs w.linked
          (λ b j. ground (arith, not-has_of_none s.heap fresh xs w.linked unused)),
    );
    size = omega (arith, w.size);
    head = refl;
    tail = tail_of_cons xs (w.size) (w.tail);
  },
  λ b nb. ground arith,
)
  where
    tail_of_cons :
        (ys : Cells)
        → s.list.size ≡ length ys
        → s.list.tail ≡ last_of ys
        → (if s.list.size == 0 then fresh else s.list.tail) ≡ last_of ((fresh, v) ∷ ys)
    tail_of_cons [] n t = ground arith
    tail_of_cons ((p, d) ∷ ys) n t = ground arith
