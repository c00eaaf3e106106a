-- ===== src/Comm/Remove.antt =====
-- `list_rem_next` takes out the element behind the one given, or the first one, and frees it.
use gateway_project.Base.{
  ℕ, suc, ◌-◌, ◌≡◌, ◌≢◌, refl, ◌∙◌, ap, List, [], ◌∷◌, true, false, none, length, arith, ◌==◌,
  ==_false, ==_true, if◌then◌else◌, ok, err, ℕ_discrete,
}
use mathlib.Core.List.{reverse, reverse_aux}
use gateway_project.Comm.Heap.{Ptr, null, elmt, Heap, put, load-ok}
use gateway_project.Comm.LinkedList.{
  Store, nothing_there, Removed, list_rem_next, Cleaned, clean_loop, list_clean,
}
use gateway_project.Comm.Cells.{Cells, has, head_of, last_of, IsList, Linked-frame}

pub ne_of_has : (a b : Ptr) (xs : Cells) → has a xs ≡ false → has b xs ≡ true → b ≢ a
ne_of_has a b xs out i e = cc

-- `list_rem_next` with NULL for the element, on a list that is not empty: it returns the first data
-- pointer, frees the first element, leaves the list of the others, and changes no other address.
pub list_rem_next-tail :
    (a v : ℕ) (s : Store) (xs : Cells)
    → IsList s ((a, v) ∷ xs)
    → (r : Removed) × (list_rem_next s null ≡ ok r)
      × (r.data_ptr ≡ v)
      × IsList r.store xs
      × (r.store.heap a ≡ none)
      × ((b : Ptr) → b ≢ a → r.store.heap b ≡ s.heap b)
unfolding list_rem_next
list_rem_next-tail a v s xs w =
    let (ne, ha, out, l) = w.linked in
    (
      record {
        data_ptr = v;
        store = record {
          heap = put s.heap s.list.head none;
          list = record {
            size = s.list.size - 1;
            head = head_of xs;
            tail = if s.list.size == 1 then null else s.list.tail;
          };
        };
      },
      rw (
        ==_false s.list.size 0 (omega (arith, w.size)),
        load-ok s.heap s.list.head (elmt v (head_of xs)) (ground (arith, w.head))
            (ground (arith, w.head)),
      ),
      refl,
      record {
        linked = Linked-frame xs l λ b i. rw (w.head, ==_false b a (ne_of_has a b xs out i));
        size = omega (arith, w.size);
        head = refl;
        tail = tail_of_rest xs w.size w.tail;
      },
      ground (arith, w.head),
      λ b nb. ground (arith, w.head),
    )
  where
    tail_of_rest :
        (ys : Cells)
        → s.list.size ≡ suc (length ys)
        → s.list.tail ≡ last_of ((a, v) ∷ ys)
        → (if s.list.size == 1 then null else s.list.tail) ≡ last_of ys
    tail_of_rest [] n t = ground arith
    tail_of_rest (y ∷ ys) n t = ground arith

-- On an empty list `list_rem_next` returns -1, whatever the element.
pub list_rem_next-nil : (s : Store) (a : Ptr) → IsList s [] → list_rem_next s a ≡ err nothing_there
unfolding list_rem_next
list_rem_next-nil s a w = rw (==_true s.list.size 0 w.size)

-- The data pointers of a list.
abbrev pub data_of : Cells → List ℕ
data_of [] = []
data_of ((p, d) ∷ xs) = d ∷ data_of xs

-- `g` is `h` without the elements of the list.
abbrev pub IsFreed : Cells → Heap → Heap → Type 0
IsFreed xs h g = (b : Ptr) → g b ≡ (if has b xs then none else h b)

clean_loop-nil :
    (xs : Cells) (done : List ℕ) (s : Store)
    → IsList s xs
    → (c : Cleaned) × (clean_loop (length xs) true done s ≡ ok c)
      × (c.destroyed ≡ reverse_aux (data_of xs) done)
      × IsList c.store []
      × IsFreed xs s.heap c.store.heap
unfolding clean_loop
clean_loop-nil [] done s w =
    (record { destroyed = done; store = s }, rw (==_true s.list.size 0 w.size), refl, w, λ b. refl)
clean_loop-nil ((a, v) ∷ xs) done s w =
    let (r, e, d, w', freed, same) = list_rem_next-tail a v s xs w in
    let (c, e', d', w'', freed') = clean_loop-nil xs (r.data_ptr ∷ done) r.store w' in
    (
      c,
      rw (==_false s.list.size 0 (omega (arith, w.size)), e) e',
      d' ∙ ap (λ (n : ℕ). reverse_aux (data_of xs) (n ∷ done)) d,
      w'',
      λ b. elim (ℕ_discrete b a) [
        | yes at_head ↦ rw (==_true b a at_head) (freed' b ∙ ground (arith, freed))
        | no other ↦ rw (==_false b a other) (freed' b ∙ rw (same b other))
      ],
    )

-- `list_clean` on a list with a function `destroy` ends with an empty list: it passes every data
-- pointer to `destroy` once, from the first to the last (the log has the last one first), frees every
-- element of the list, and changes no other address.
pub list_clean-nil :
    (s : Store) (xs : Cells)
    → IsList s xs
    → (c : Cleaned) × (list_clean true s ≡ ok c)
      × (c.destroyed ≡ reverse (data_of xs))
      × IsList c.store []
      × IsFreed xs s.heap c.store.heap
unfolding list_clean
list_clean-nil s xs w =
    let (c, e, d, w', freed) = clean_loop-nil xs [] s w in
    (c, ap (λ (n : ℕ). clean_loop n true [] s) w.size ∙ e, d, w', freed)
