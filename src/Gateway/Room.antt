-- ===== src/Gateway/Room.antt =====
-- The queue of the two threads uses finitely many addresses, so that there is always memory left.
use gateway_project.Base.{
  ℕ, suc, ◌+◌, ◌≤◌, ◌≡◌, ◌≢◌, sym, ◌∙◌, ap, subst, refl, List, ◌∷◌, [], none, Run, ok, ℕ_discrete,
  arith,
}
use gateway_project.Comm.Heap.{Ptr, null, Heap}
use gateway_project.Comm.LinkedList.{Store, Removed, queue_enqueue, queue_dequeue}
use gateway_project.Comm.Cells.{Cells, IsList}
use gateway_project.Comm.Remove.{list_rem_next-tail}
use gateway_project.Comm.Queue.{queue_enqueue-append}
use gateway_project.IpTable.Table.{Table}
use gateway_project.Gateway.Create.{Process}
use gateway_project.Gateway.Threads.{
  s_locked, Threads, Step, receive, reader_lock, enqueue, reader_unlock, post, wait, sender_lock,
  dequeue, dequeue_nothing, sender_unlock, send, Reach, here, next, start_threads,
}
use gateway_project.Gateway.Invariant.{Inv}
use gateway_project.Gateway.Delivery.{IsRunning, fds_of, after_send, deliver-ok}
use gateway_project.Gateway.Safety.{removed-injective, threads-injective, Reach-Inv}

abbrev pub HasRoom : Heap → Type 0
HasRoom h = (n : ℕ) × ((a : ℕ) → n ≤ a → h a ≡ none)

stores-injective : {E : Type 0} (a b : Store) → ◌≡◌ {A = Run E Store} (ok a) (ok b) → a ≡ b
stores-injective a b h = cc

queue_enqueue-HasRoom :
    (element p : Ptr) (q r : Store) (xs : Cells)
    → IsList q xs
    → element ≢ null
    → q.heap element ≡ none
    → queue_enqueue element q p ≡ ok r
    → HasRoom q.heap
    → HasRoom r.heap
queue_enqueue-HasRoom element p q r xs w ne unused done (n, room) =
    let (r', done', _, same) = queue_enqueue-append element p q xs w ne unused in
    (
      n + suc element + suc q.list.tail,
      λ a high.
          let out : a ≢ element = λ k. absurd (omega (arith, high, k)) in
          let not_tail : a ≢ q.list.tail = λ k. absurd (omega (arith, high, k)) in
          ap (λ (s : Store). s.heap a) (sym (stores-injective r' r (sym done' ∙ done)))
          ∙ (same a out not_tail ∙ room a (omega (arith, high))),
    )

queue_dequeue-HasRoom :
    (q : Store) (a v : ℕ) (xs : Cells) (r : Removed)
    → IsList q ((a, v) ∷ xs)
    → queue_dequeue q ≡ ok r
    → HasRoom q.heap
    → HasRoom r.store.heap
unfolding queue_dequeue
queue_dequeue-HasRoom q a v xs r w done (n, room) =
    let (r', done', _, _, gone, same) = list_rem_next-tail a v q xs w in
    let is_r : r' ≡ r = removed-injective r' r (sym done' ∙ done) in
    (
      n,
      λ b high. ap (λ (x : Removed). x.store.heap b) (sym is_r) ∙ elim (ℕ_discrete b a) [
        | yes k ↦ ap r'.store.heap k ∙ gone
        | no ne ↦ same b ne ∙ room b high
      ],
    )

none_left : (s : Threads) → Inv s [] → s.sender ≡ s_locked → ⊥
none_left s inv e = absurd (ground (arith, inv.count, e))

Step-HasRoom :
    {fuel : ℕ} {table : Table} {fs : List Process} {s t : Threads} (xs : Cells)
    → IsRunning fuel table fs
    → Inv s xs
    → Step fuel table s t
    → HasRoom s.queue.heap
    → HasRoom t.queue.heap
Step-HasRoom xs w inv (receive p frame e ne unused str) room = room
Step-HasRoom xs w inv (reader_lock p e free) room = room
Step-HasRoom {s = s} xs w inv (enqueue p element q e ne unused done) room =
    queue_enqueue-HasRoom element p s.queue q xs inv.is_list ne unused done room
Step-HasRoom xs w inv (reader_unlock e) room = room
Step-HasRoom xs w inv (post e) room = room
Step-HasRoom xs w inv (wait n e more) room = room
Step-HasRoom xs w inv (sender_lock e free) room = room
Step-HasRoom {s = s} [] w inv (dequeue r e done) room = absurd (none_left s inv e)
Step-HasRoom {s = s} ((a, v) ∷ xs) w inv (dequeue r e done) room =
    queue_dequeue-HasRoom s.queue a v xs r inv.is_list done room
Step-HasRoom xs w inv (dequeue_nothing e done) room = room
Step-HasRoom xs w inv (sender_unlock e) room = room
Step-HasRoom {fuel} {table} {fs} {s} {t} xs w inv (send u e done) room =
    let (ms, p, done', _) = deliver-ok fuel table fs s xs w inv e in
    subst (λ (x : Threads). HasRoom x.queue.heap)
      (threads-injective (after_send s ms p (fds_of fs)) t (sym done' ∙ done)) room

pub Reach-HasRoom :
    {fuel : ℕ} {table : Table} {fs : List Process} {s : Threads}
    → IsRunning fuel table fs
    → Reach fuel table start_threads s
    → HasRoom s.queue.heap
Reach-HasRoom w here = (0, λ a high. refl)
Reach-HasRoom w (next r st) =
    let (xs, inv, _) = Reach-Inv w r in Step-HasRoom xs w inv st (Reach-HasRoom w r)
