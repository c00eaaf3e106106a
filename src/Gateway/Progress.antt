-- ===== src/Gateway/Progress.antt =====
-- The two threads while no frame comes in: they neither stop before every message is handled, nor run
-- on for ever.
use gateway_project.Base.{
  ℕ, zero, suc, ◌+◌, ◌*◌, ◌≤◌, ◌≡◌, refl, sym, ap, ◌∙◌, subst, List, [], ◌∷◌, ◌++◌, map, append-nil,
  false, length, length-append, arith, ◌⊎◌, inl, inr,
}
use gateway_project.Base.Text.{c_string}
use gateway_project.Comm.Heap.{Ptr}
use gateway_project.Comm.Cells.{Cells}
use gateway_project.Comm.Queue.{queue_enqueue-append}
use gateway_project.IpTable.Table.{Table}
use gateway_project.Gateway.Create.{Process}
use gateway_project.Gateway.Threads.{
  ReaderAt, reading, copied, r_locked, queued, r_unlocked, SenderAt, waiting, awake, s_locked,
  taken, s_unlocked, nobody, Threads, Step, receive, reader_lock, enqueue, reader_unlock, post,
  wait, sender_lock, dequeue, dequeue_nothing, sender_unlock, send, Reach, next, start_threads,
}
use gateway_project.Gateway.Pending.{text_of_delivery, texts_of}
use gateway_project.Gateway.Invariant.{reader_inside, under_way, Inv}
use gateway_project.Gateway.Delivery.{IsRunning, fds_of, after_send, dequeue-ok, deliver-ok}
use gateway_project.Gateway.Safety.{ok-ne-err, threads-injective, Reach-Inv}
use gateway_project.Gateway.Room.{HasRoom, Reach-HasRoom}

-- How many steps are left.
abbrev reader_work : ReaderAt → ℕ
reader_work reading = 0
reader_work (copied p) = 9
reader_work (r_locked p) = 8
reader_work queued = 7
reader_work r_unlocked = 6

abbrev sender_work : SenderAt → ℕ
sender_work waiting = 0
sender_work awake = 4
sender_work s_locked = 3
sender_work taken = 2
sender_work s_unlocked = 1

abbrev pub work : Threads → ℕ
work s = reader_work s.reader + 5 * s.semaphore + sender_work s.sender

-- A run of so many steps in which no frame comes in.
pub data QuietRun (fuel : ℕ) (table : Table) (s : Threads) : ℕ → Threads → Type 0 where
  quiet_here : QuietRun fuel table s 0 s
  quiet_next :
      {n : ℕ} {t u : Threads}
      → QuietRun fuel table s n t
      → Step fuel table t u
      → u.received ≡ t.received
      → QuietRun fuel table s (suc n) u

abbrev pub Continues : ℕ → Table → Threads → Type 0
Continues fuel table s = (t : Threads) × Step fuel table s t × (t.received ≡ s.received)

longer : (xs : List (List ℕ)) (x : List ℕ) → xs ++ (x ∷ []) ≡ xs → ⊥
longer xs x e = absurd (omega (arith, ap length e, length-append xs (x ∷ [])))

work-Step :
    {fuel : ℕ} {table : Table} {fs : List Process} {s t : Threads} (xs : Cells)
    → IsRunning fuel table fs
    → Inv s xs
    → Step fuel table s t
    → t.received ≡ s.received
    → suc (work t) ≡ work s
work-Step {s = s} xs w inv (receive p frame e ne unused str) quiet =
    absurd (longer s.received (c_string frame) quiet)
work-Step xs w inv (reader_lock p e free) quiet = rw e (omega arith)
work-Step xs w inv (enqueue p element q e ne unused done) quiet = rw e (omega arith)
work-Step xs w inv (reader_unlock e) quiet = rw e (omega arith)
work-Step {s = s} xs w inv (post e) quiet = rw e (omega arith)
work-Step {s = s} xs w inv (wait n e more) quiet = rw (e, more) (omega arith)
work-Step xs w inv (sender_lock e free) quiet = rw e (omega arith)
work-Step xs w inv (dequeue r e done) quiet = rw e (omega arith)
work-Step {s = s} xs w inv (dequeue_nothing e done) quiet =
    let (r', done', _) = dequeue-ok s xs inv e in absurd (ok-ne-err r' (sym done' ∙ done))
work-Step xs w inv (sender_unlock e) quiet = rw e (omega arith)
work-Step {fuel} {table} {fs} {s} {t} xs w inv (send u e done) quiet =
    let (ms, p, done', _) = deliver-ok fuel table fs s xs w inv e in
    subst (λ (x : Threads). suc (work x) ≡ work s)
      (threads-injective (after_send s ms p (fds_of fs)) t (sym done' ∙ done)) (rw e (omega arith))

module _ {fuel : ℕ} {table : Table} {fs : List Process} (s : Threads) (xs : Cells)
    (w : IsRunning fuel table fs) (inv : Inv s xs) where
  dequeue-Continues : s.sender ≡ s_locked → Continues fuel table s
  dequeue-Continues e =
      let (r, done, _) = dequeue-ok s xs inv e in
      (record s { sender = taken; queue = r.store; coap_msg = r.data_ptr }, dequeue r e done, refl)

  -- When the reader is outside, a sender that has something to do can go on.
  sender-Continues :
      (at_sender : SenderAt)
      → s.sender ≡ at_sender
      → reader_inside s.reader ≡ false
      → (at_sender ≡ waiting) ⊎ Continues fuel table s
  sender-Continues waiting e out = inl refl
  sender-Continues awake e out = inr (
    record s { sender = s_locked; mutex = _ },
    sender_lock e (inv.owner ∙ rw (out, e) refl),
    refl,
  )
  sender-Continues s_locked e out = inr (dequeue-Continues e)
  sender-Continues taken e out =
      inr (record s { sender = s_unlocked; mutex = nobody }, sender_unlock e, refl)
  sender-Continues s_unlocked e out =
      let (ms, p, done, _) = deliver-ok fuel table fs s xs w inv e in
      inr (after_send s ms p (fds_of fs), send (after_send s ms p (fds_of fs)) e done, refl)

  lock-Continues :
      (p : Ptr) (at_sender : SenderAt)
      → s.reader ≡ copied p
      → s.sender ≡ at_sender
      → Continues fuel table s
  lock-Continues p s_locked e d = dequeue-Continues d
  lock-Continues p taken e d =
      (record s { sender = s_unlocked; mutex = nobody }, sender_unlock d, refl)
  lock-Continues p waiting e d = (
    record s { reader = r_locked p; mutex = _ },
    reader_lock p e (inv.owner ∙ rw (e, d) refl),
    refl,
  )
  lock-Continues p awake e d = (
    record s { reader = r_locked p; mutex = _ },
    reader_lock p e (inv.owner ∙ rw (e, d) refl),
    refl,
  )
  lock-Continues p s_unlocked e d = (
    record s { reader = r_locked p; mutex = _ },
    reader_lock p e (inv.owner ∙ rw (e, d) refl),
    refl,
  )

  enqueue-Continues :
      (p : Ptr) → s.reader ≡ r_locked p → HasRoom s.queue.heap → Continues fuel table s
  enqueue-Continues p e (n, room) =
      let unused = room (suc n) (omega arith) in
      let (q, done, _, _) =
        queue_enqueue-append (suc n) p s.queue xs inv.is_list (omega arith) unused in
      (
        record s { reader = queued; queue = q },
        enqueue p (suc n) q e (omega arith) unused done,
        refl,
      )

  -- With both threads at their start, the semaphore decides.
  wait-Continues :
      (n : ℕ)
      → s.semaphore ≡ n
      → s.reader ≡ reading
      → s.sender ≡ waiting
      → (map text_of_delivery s.sent ≡ s.received) ⊎ Continues fuel table s
  wait-Continues (suc n) k e d = inr (record s { sender = awake; semaphore = n }, wait n d k, refl)
  wait-Continues zero k e d =
      let none_left : length xs ≡ 0 = ground (arith, inv.count, k, e, d) in
      inl (handled xs (inv.pending.history) none_left)
    where
      handled :
          (ys : Cells)
          → s.received
            ≡ map text_of_delivery s.sent
              ++ texts_of s.messages (under_way s.reader s.sender s.coap_msg ys)
          → length ys ≡ 0
          → map text_of_delivery s.sent ≡ s.received
      handled [] h n = sym (h ∙ rw (e, d, append-nil (map text_of_delivery s.sent)))
      handled (y ∷ ys) h n = absurd (omega (arith, n))

  continues :
      (at_reader : ReaderAt)
      → s.reader ≡ at_reader
      → HasRoom s.queue.heap
      → (map text_of_delivery s.sent ≡ s.received) ⊎ Continues fuel table s
  continues (copied p) e room = inr (lock-Continues p s.sender e refl)
  continues (r_locked p) e room = inr (enqueue-Continues p e room)
  continues queued e room =
      inr (record s { reader = r_unlocked; mutex = nobody }, reader_unlock e, refl)
  continues r_unlocked e room =
      inr (record s { reader = reading; semaphore = suc s.semaphore }, post e, refl)
  continues reading e room = elim (sender-Continues s.sender refl (rw e refl)) [
    | inl d ↦ wait-Continues s.semaphore refl e d
    | inr more ↦ inr more
  ]

QuietRun-Reach :
    {fuel : ℕ} {table : Table} {s t : Threads} {n : ℕ}
    → Reach fuel table start_threads s
    → QuietRun fuel table s n t
    → Reach fuel table start_threads t × (t.received ≡ s.received)
QuietRun-Reach r quiet_here = (r, refl)
QuietRun-Reach r (quiet_next q st same) = let (r', e) = QuietRun-Reach r q in (next r' st, same ∙ e)

work-QuietRun :
    {fuel : ℕ} {table : Table} {fs : List Process} {s t : Threads} {n : ℕ}
    → IsRunning fuel table fs
    → Reach fuel table start_threads s
    → QuietRun fuel table s n t
    → n + work t ≡ work s
work-QuietRun w r quiet_here = omega arith
work-QuietRun {n = suc n} w r (quiet_next q st same) =
    let (r', _) = QuietRun-Reach r q in
    let (xs, inv, _) = Reach-Inv w r' in
    omega (arith, work-Step xs w inv st same, work-QuietRun w r q)

-- While the clients of a table are running and no frame comes in, from any state that the two threads
-- reach: whatever the order of the steps, a run is not longer than `work`, a number that only depends
-- on the semaphore and on where the threads stand, and as long as some message is not handled, one of
-- the threads can take a step. So every message that was received is handled in the end, and the
-- threads never lock each other out.
pub QuietRun-ends :
    {fuel : ℕ} {table : Table} {fs : List Process} {s t : Threads} {n : ℕ}
    → IsRunning fuel table fs
    → Reach fuel table start_threads s
    → QuietRun fuel table s n t
    → (n ≤ work s) × ((map text_of_delivery t.sent ≡ s.received) ⊎ Continues fuel table t)
QuietRun-ends {fuel} {table} {fs} {s} {t} {n} w r q =
    let (r', same) = QuietRun-Reach r q in
    let (xs, inv, _) = Reach-Inv w r' in
    (
      omega (arith, work-QuietRun w r q),
      subst (λ (x : List (List ℕ)). (map text_of_delivery t.sent ≡ x) ⊎ Continues fuel table t) same
          (continues t xs w inv t.reader refl (Reach-HasRoom w r')),
    )
