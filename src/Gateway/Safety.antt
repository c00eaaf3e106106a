-- ===== src/Gateway/Safety.antt =====
-- The steps that can go wrong: the sender never finds the queue empty, and never reads a message that is
-- not there.
use gateway_project.Base.{
  ℕ, ◌≡◌, refl, sym, ◌∙◌, subst, List, [], ◌∷◌, ◌++◌, map, All, All-append, false, ◌&&◌, Run, ok,
  err,
}
use gateway_project.Comm.LinkedList.{ListError, nothing_there, Removed, queue_dequeue}
use gateway_project.Comm.Cells.{Cells}
use gateway_project.Comm.Remove.{data_of}
use gateway_project.IpTable.Lines.{Exit}
use gateway_project.IpTable.Table.{Table}
use gateway_project.Gateway.Create.{Process}
use gateway_project.Gateway.Threads.{
  s_locked, taken, s_unlocked, Delivery, Threads, text_at, deliver, Step, receive, reader_lock,
  enqueue, reader_unlock, post, wait, sender_lock, dequeue, dequeue_nothing, sender_unlock, send,
  Reach, here, next, start_threads,
}
use gateway_project.Gateway.Pending.{texts_of, IsPending, text_of_delivery}
use gateway_project.Gateway.Invariant.{
  reader_inside, sender_inside, in_hand, under_way, Inv, start-Inv, receive-Inv,
}
use gateway_project.Gateway.Moves.{
  reader_lock-Inv, enqueue-Inv, reader_unlock-Inv, post-Inv, wait-Inv, sender_lock-Inv,
  sender_unlock-Inv,
}
use gateway_project.Gateway.Delivery.{dequeue-ok, fds_of, IsRunning, after_send, deliver-ok}

pub removed-injective : (a b : Removed) → ◌≡◌ {A = Run ListError Removed} (ok a) (ok b) → a ≡ b
removed-injective a b h = cc

pub threads-injective : (a b : Threads) → ◌≡◌ {A = Run Exit Threads} (ok a) (ok b) → a ≡ b
threads-injective a b h = cc

pub ok-ne-err : (r : Removed) → ◌≡◌ {A = Run ListError Removed} (ok r) (err nothing_there) → ⊥
ok-ne-err r h = cc

abbrev pub AllTo : List Process → Threads → Type 0
AllTo fs s = All (λ (d : Delivery). d.fds ≡ fds_of fs) s.sent

pub Step-Inv :
    {fuel : ℕ} {table : Table} {fs : List Process} {s t : Threads} (xs : Cells)
    → IsRunning fuel table fs
    → Step fuel table s t
    → Inv s xs
    → AllTo fs s
    → (ys : Cells) × Inv t ys × AllTo fs t
Step-Inv {s = s} xs w (receive p frame e ne unused str) inv all =
    (xs, receive-Inv s xs p frame inv e unused str, all)
Step-Inv {s = s} xs w (reader_lock p e free) inv all = (xs, reader_lock-Inv s xs inv p e free, all)
Step-Inv {s = s} xs w (enqueue p element q e ne unused done) inv all =
    (xs ++ ((element, p) ∷ []), enqueue-Inv s xs inv p element q e ne unused done, all)
Step-Inv {s = s} xs w (reader_unlock e) inv all = (xs, reader_unlock-Inv s xs inv e, all)
Step-Inv {s = s} xs w (post e) inv all = (xs, post-Inv s xs inv e, all)
Step-Inv {s = s} xs w (wait n e more) inv all = (xs, wait-Inv s xs inv n e more, all)
Step-Inv {s = s} xs w (sender_lock e free) inv all = (xs, sender_lock-Inv s xs inv e free, all)
Step-Inv {s = s} xs w (dequeue r e done) inv all =
    let (r', done', (ys, inv')) = dequeue-ok s xs inv e in
    let same : r' ≡ r = removed-injective r' r (sym done' ∙ done) in
    (
      ys,
      subst
          (λ (x : Removed).
            Inv (record s { sender = taken; queue = x.store; coap_msg = x.data_ptr }) ys)
          same inv',
      all,
    )
Step-Inv {s = s} xs w (dequeue_nothing e done) inv all =
    let (r', done', _) = dequeue-ok s xs inv e in absurd (ok-ne-err r' (sym done' ∙ done))
Step-Inv {s = s} xs w (sender_unlock e) inv all = (xs, sender_unlock-Inv s xs inv e, all)
Step-Inv {fuel} {table} {fs} {s} xs w (send t e done) inv all =
    let (ms, p, done', inv') = deliver-ok fuel table fs s xs w inv e in
    let d : Delivery = record { text = text_at s.messages s.coap_msg; fds = fds_of fs } in
    let same : after_send s ms p (fds_of fs) ≡ t =
      threads-injective (after_send s ms p (fds_of fs)) t (sym done' ∙ done) in
    (
      xs,
      subst (λ (x : Threads). Inv x xs) same inv',
      subst (λ (x : Threads). AllTo fs x) same
          (All-append (λ (y : Delivery). y.fds ≡ fds_of fs) s.sent (d ∷ []) all (refl, tt)),
    )

pub Reach-Inv :
    {fuel : ℕ} {table : Table} {fs : List Process} {s : Threads}
    → IsRunning fuel table fs
    → Reach fuel table start_threads s
    → (xs : Cells) × Inv s xs × AllTo fs s
Reach-Inv w here = ([], start-Inv, tt)
Reach-Inv w (next r st) = let (xs, inv, all) = Reach-Inv w r in Step-Inv xs w st inv all

-- While the clients of a table are running, whatever the order of the steps: the reader and the sender
-- are never both between lock and unlock of the mutex.
pub mutual_exclusion :
    {fuel : ℕ} {table : Table} {fs : List Process} {s : Threads}
    → IsRunning fuel table fs
    → Reach fuel table start_threads s
    → reader_inside s.reader && sender_inside s.sender ≡ false
mutual_exclusion w r = let (xs, inv, _) = Reach-Inv w r in inv.exclusive

-- While the clients of a table are running, whatever the order of the steps: a sender that came through
-- `sem_wait` and holds the mutex finds an element in the queue.
pub dequeue_returns :
    {fuel : ℕ} {table : Table} {fs : List Process} {s : Threads}
    → IsRunning fuel table fs
    → Reach fuel table start_threads s
    → s.sender ≡ s_locked
    → (r : Removed) × (queue_dequeue s.queue ≡ ok r)
dequeue_returns {s = s} w r e =
    let (xs, inv, _) = Reach-Inv w r in let (x, done, _) = dequeue-ok s xs inv e in (x, done)

-- While the clients of a table are running, whatever the order of the steps: the messages that were
-- handled are the first messages that were received, in their order, with none lost, changed or sent
-- twice, and each was written once to the pipe of every client of the table, in the order of the table.
pub sent_in_order :
    {fuel : ℕ} {table : Table} {fs : List Process} {s : Threads}
    → IsRunning fuel table fs
    → Reach fuel table start_threads s
    → (rest : List (List ℕ)) × (s.received ≡ map text_of_delivery s.sent ++ rest)
      × All (λ (d : Delivery). d.fds ≡ fds_of fs) s.sent
sent_in_order {s = s} w r =
    let (xs, inv, all) = Reach-Inv w r in
    (texts_of s.messages (under_way s.reader s.sender s.coap_msg xs), inv.pending.history, all)

-- While the clients of a table are running, whatever the order of the steps: a sender that took a message
-- from the queue writes it without a fault, and its text is the first one that was received and not
-- handled before.
pub deliver_returns :
    {fuel : ℕ} {table : Table} {fs : List Process} {s : Threads}
    → IsRunning fuel table fs
    → Reach fuel table start_threads s
    → s.sender ≡ s_unlocked
    → (t : Threads) × (text : List ℕ) × (rest : List (List ℕ)) × (deliver fuel table s ≡ ok t)
      × (s.received ≡ map text_of_delivery s.sent ++ (text ∷ rest))
      × (t.sent ≡ s.sent ++ (record { text = text; fds = fds_of fs } ∷ []))
deliver_returns {fuel} {table} {fs} {s} w r e =
    let (xs, inv, all) = Reach-Inv w r in
    let (ms, p, done, _) = deliver-ok fuel table fs s xs w inv e in
    let before : IsPending s.messages (s.coap_msg ∷ (data_of xs ++ in_hand s.reader)) s.received
        s.sent =
      rw e at inv.pending in
    (
      after_send s ms p (fds_of fs),
      text_at s.messages s.coap_msg,
      texts_of s.messages (data_of xs ++ in_hand s.reader),
      done,
      before.history,
      refl,
    )
