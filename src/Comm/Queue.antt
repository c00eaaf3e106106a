-- ===== src/Comm/Queue.antt =====
-- The queue of comm/queue.c is first in, first out.
use gateway_project.Base.{
  ℕ, ◌≡◌, ◌≢◌, refl, sym, ap, ◌∙◌, List, [], ◌∷◌, ◌++◌, true, Option, none, some, arith, subst,
  Option-cases, inl, inr, ==_false, Run, ok, ℕ_discrete, ◌>>=◌,
}
use gateway_project.Comm.Heap.{Ptr, null, Heap}
use gateway_project.Comm.LinkedList.{
  Store, ListError, Removed, list_ins_next, queue_enqueue, queue_dequeue,
}
use gateway_project.Comm.Cells.{Cells, has, last_of, Linked, IsList, has-last_of}
use gateway_project.Comm.Insert.{insert_after, list_ins_next-insert_after, list_ins_next-cons}
use gateway_project.Comm.Remove.{ne_of_has, data_of, list_rem_next-tail}

insert_after-last_of :
    (h : Heap) (x y : Ptr × ℕ) (xs : Cells)
    → Linked h (y ∷ xs)
    → insert_after (last_of (y ∷ xs)) x (y ∷ xs) ≡ (y ∷ xs) ++ (x ∷ [])
insert_after-last_of h x (p, d) [] l = ground arith
insert_after-last_of h x (p, d) (y ∷ xs) (ne, hp, out, l) = elim (ℕ_discrete p (last_of (y ∷ xs))) [
  | yes e ↦ absurd (ne_of_has p (last_of (y ∷ xs)) (y ∷ xs) out (has-last_of y xs) (sym e))
  | no e ↦ rw (==_false p (last_of (y ∷ xs)) e, insert_after-last_of h x y xs l)
]

-- `queue_enqueue`, given an unused address from `malloc`, puts the data pointer at the end, and leaves
-- all elements of the list but the last as they are.
pub queue_enqueue-append :
    (fresh v : ℕ) (s : Store) (xs : Cells)
    → IsList s xs
    → fresh ≢ null
    → s.heap fresh ≡ none
    → (s' : Store) × (queue_enqueue fresh s v ≡ ok s')
      × IsList s' (xs ++ ((fresh, v) ∷ []))
      × ((b : Ptr) → b ≢ fresh → b ≢ s.list.tail → s'.heap b ≡ s.heap b)
unfolding queue_enqueue
queue_enqueue-append fresh v s [] w ne unused =
    let (s', e, w', same) = list_ins_next-cons fresh v s [] w ne unused in
    (s', ap (λ (t : ℕ). list_ins_next fresh s t v) w.tail ∙ e, w', λ b nb nt. same b nb)
queue_enqueue-append fresh v s (y ∷ xs) w ne unused =
    let i : has s.list.tail (y ∷ xs) ≡ true =
      subst (λ (t : ℕ). has t (y ∷ xs) ≡ true) (sym w.tail) (has-last_of y xs) in
    let (s', e, w', same) =
      list_ins_next-insert_after fresh s.list.tail v s (y ∷ xs) w i ne unused in
    let behind : insert_after s.list.tail (fresh, v) (y ∷ xs) ≡ (y ∷ xs) ++ ((fresh, v) ∷ []) =
      ap (λ (t : ℕ). insert_after t (fresh, v) (y ∷ xs)) w.tail
      ∙ insert_after-last_of s.heap (fresh, v) y xs w.linked in
    (s', e, subst (λ (zs : Cells). IsList s' zs) behind w', same)

-- `queue_dequeue` on a queue that is not empty returns the first data pointer, frees its element,
-- and leaves the others.
pub queue_dequeue-tail :
    (a v : ℕ) (s : Store) (xs : Cells)
    → IsList s ((a, v) ∷ xs)
    → (r : Removed) × (queue_dequeue s ≡ ok r) × (r.data_ptr ≡ v) × IsList r.store xs
unfolding queue_dequeue
queue_dequeue-tail a v s xs w =
    let (r, e, d, w', freed, same) = list_rem_next-tail a v s xs w in (r, e, d, w')

-- A program that uses the queue: it puts data pointers in, each with the address that `malloc` returns,
-- and takes them out.
pub data Op : Type 0 where
  enqueue : (fresh v : ℕ) → Op
  dequeue : Op

-- The data pointers that a sequence of calls takes out, with the store at the end.
pub record Taken : Type 0 where
  pub out : List ℕ
  pub store : Store

unfoldable pub run_queue : Store → List Op → Run ListError Taken
run_queue s [] = ok (record { out = []; store = s })
run_queue s (enqueue fresh v ∷ ops) = do s' ← queue_enqueue fresh s v; run_queue s' ops
run_queue s (dequeue ∷ ops) = do
  r ← queue_dequeue s
  t ← run_queue r.store ops
  ok (record { out = r.data_ptr ∷ t.out; store = t.store })

-- The specification: a queue is a list of values.
abbrev pub run_fifo : List ℕ → List Op → Option (List ℕ × List ℕ)
run_fifo vs [] = some ([], vs)
run_fifo vs (enqueue fresh v ∷ ops) = run_fifo (vs ++ (v ∷ [])) ops
run_fifo [] (dequeue ∷ ops) = none
run_fifo (v ∷ vs) (dequeue ∷ ops) = elim (run_fifo vs ops) [
  | none ↦ none
  | some r ↦ some (v ∷ r.0, r.1)
]

pub data_of-append : (xs : Cells) (p v : ℕ) → data_of (xs ++ ((p, v) ∷ [])) ≡ data_of xs ++ (v ∷ [])
data_of-append [] p v = refl
data_of-append ((q, d) ∷ xs) p v = rw (data_of-append xs p v)

-- What `malloc` documents: it returns an address that is not in use. NULL, which it returns when the
-- memory is used up, is excluded.
abbrev pub Allocates : Store → List Op → Type 0
Allocates s [] = Unit {0}
Allocates s (enqueue fresh v ∷ ops) =
    (fresh ≢ null)
    × (s.heap fresh ≡ none)
    × ((s' : Store) → queue_enqueue fresh s v ≡ ok s' → Allocates s' ops)
Allocates s (dequeue ∷ ops) = (r : Removed) → queue_dequeue s ≡ ok r → Allocates r.store ops

none-ne-some : {p : List ℕ × List ℕ} → none ≡ some p → ⊥
none-ne-some e = cc

-- A sequence of calls on a queue, in which `malloc` succeeds, takes out the values that a first-in
-- first-out queue gives, and leaves the queue with the values that remain there, if that queue is
-- never empty when a value is taken out.
pub run_queue-run_fifo :
    (ops : List Op) (s : Store) (xs : Cells) (out vs : List ℕ)
    → IsList s xs
    → Allocates s ops
    → run_fifo (data_of xs) ops ≡ some (out, vs)
    → (t : Taken) × (ys : Cells) × (run_queue s ops ≡ ok t)
      × (t.out ≡ out)
      × IsList t.store ys
      × (data_of ys ≡ vs)
unfolding run_queue
run_queue-run_fifo [] s xs out vs w m e =
    (record { out = []; store = s }, xs, refl, ground arith, w, ground arith)
run_queue-run_fifo (enqueue fresh v ∷ ops) s xs out vs w (ne, unused, m) e =
    let (s', e', w', same) = queue_enqueue-append fresh v s xs w ne unused in
    let (t, ys, r, o, wt, d) =
      run_queue-run_fifo ops s' (xs ++ ((fresh, v) ∷ [])) out vs w' (m s' e')
        (rw (data_of-append xs fresh v) e) in
    (t, ys, rw e' r, o, wt, d)
run_queue-run_fifo (dequeue ∷ ops) s [] out vs w m e = cc
run_queue-run_fifo (dequeue ∷ ops) s ((a, v) ∷ xs) out vs w m e =
    elim (Option-cases (run_fifo (data_of xs) ops)) [
      | inl stuck ↦ absurd (none-ne-some (rw stuck at e))
      | inr ((out', vs'), rest) ↦
          let (r, e', d, w') = queue_dequeue-tail a v s xs w in
          let (t, ys, run, o, wt, dt) =
            run_queue-run_fifo ops r.store xs out' vs' w' (m r e') rest in
          let same : ◌≡◌ {A = Option (List ℕ × List ℕ)} (some (v ∷ out', vs')) (some (out, vs)) =
            rw rest at e in
          (
            record { out = r.data_ptr ∷ t.out; store = t.store },
            ys,
            rw (e', run),
            ground arith,
            wt,
            ground arith,
          )
    ]
