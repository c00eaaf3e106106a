-- ===== src/Gateway/Moves.antt =====
-- Each step of the two threads keeps the invariant.
use gateway_project.Base.{
  ℕ, suc, ◌≡◌, ◌≢◌, refl, sym, ◌∙◌, subst, [], ◌∷◌, ◌++◌, append-nil, Bool, true, false, ◌&&◌, none,
  length-append, Run, ok, arith,
}
use gateway_project.Comm.Heap.{Ptr, null}
use gateway_project.Comm.LinkedList.{Store, ListError, queue_enqueue}
use gateway_project.Comm.Cells.{Cells, IsList}
use gateway_project.Comm.Remove.{data_of}
use gateway_project.Comm.Queue.{queue_enqueue-append, data_of-append}
use gateway_project.Gateway.Threads.{
  copied, r_locked, queued, r_unlocked, reading, waiting, awake, s_locked, taken, s_unlocked,
  nobody, by_reader, by_sender, Threads,
}
use gateway_project.Gateway.Pending.{IsPending}
use gateway_project.Gateway.Invariant.{reader_inside, sender_inside, owner_of, in_flight, Inv}

free_of_owner : (a b : Bool) → nobody ≡ owner_of a b → (a ≡ false) × (b ≡ false)
free_of_owner true b e = cc
free_of_owner false true e = cc
free_of_owner false false e = (refl, refl)

and-false : (b : Bool) → true && b ≡ false → b ≡ false
and-false true e = cc
and-false false e = refl

and_true-false : (b : Bool) → b && true ≡ false → b ≡ false
and_true-false true e = cc
and_true-false false e = refl

module _ (s : Threads) (xs : Cells) (inv : Inv s xs) where
  pub reader_lock-Inv :
      (p : Ptr)
      → s.reader ≡ copied p
      → s.mutex ≡ nobody
      → Inv (record s { reader = r_locked p; mutex = by_reader }) xs
  reader_lock-Inv p e free =
      let out =
        (free_of_owner (reader_inside s.reader) (sender_inside s.sender)
          (sym free ∙ inv.owner)).1 in
      record {
        is_list = inv.is_list;
        count = ground (arith, inv.count, e);
        exclusive = out;
        owner = refl;
        pending = rw e at inv.pending;
      }

  pub enqueue-Inv :
      (p element : Ptr) (q : Store)
      → s.reader ≡ r_locked p
      → element ≢ null
      → s.queue.heap element ≡ none
      → queue_enqueue element s.queue p ≡ ok q
      → Inv (record s { reader = queued; queue = q }) (xs ++ ((element, p) ∷ []))
  enqueue-Inv p element q e ne unused done =
      let (q', done', w, same) = queue_enqueue-append element p s.queue xs inv.is_list ne unused in
      let same_q : q' ≡ q = ok-injective q' q (sym done' ∙ done) in
      let before : IsPending s.messages (in_flight s.sender s.coap_msg ++ (data_of xs ++ (p ∷ [])))
          s.received s.sent =
        rw e at inv.pending in
      record {
        is_list = subst (λ (t : Store). IsList t (xs ++ ((element, p) ∷ []))) same_q w;
        count = ground (arith, inv.count, e, length-append xs ((element, p) ∷ []));
        exclusive = ground (arith, inv.exclusive, e);
        owner = ground (arith, inv.owner, e);
        pending = rw (data_of-append xs element p, append-nil (data_of xs ++ (p ∷ []))) before;
      }
    where
      ok-injective : (a b : Store) → ◌≡◌ {A = Run ListError Store} (ok a) (ok b) → a ≡ b
      ok-injective a b h = cc

  pub reader_unlock-Inv :
      s.reader ≡ queued → Inv (record s { reader = r_unlocked; mutex = nobody }) xs
  reader_unlock-Inv e =
      let out : sender_inside s.sender ≡ false =
        and-false (sender_inside s.sender) (rw e at inv.exclusive) in
      record {
        is_list = inv.is_list;
        count = ground (arith, inv.count, e);
        exclusive = refl;
        owner = rw out refl;
        pending = rw e at inv.pending;
      }

  pub post-Inv :
      s.reader ≡ r_unlocked → Inv (record s { reader = reading; semaphore = suc s.semaphore }) xs
  post-Inv e = record {
    is_list = inv.is_list;
    count = ground (arith, inv.count, e);
    exclusive = refl;
    owner = ground (arith, inv.owner, e);
    pending = rw e at inv.pending;
  }

  pub wait-Inv :
      (n : ℕ)
      → s.sender ≡ waiting
      → s.semaphore ≡ suc n
      → Inv (record s { sender = awake; semaphore = n }) xs
  wait-Inv n e more = record {
    is_list = inv.is_list;
    count = ground (arith, inv.count, e, more);
    exclusive = ground (arith, inv.exclusive, e);
    owner = ground (arith, inv.owner, e);
    pending = rw e at inv.pending;
  }

  pub sender_lock-Inv :
      s.sender ≡ awake
      → s.mutex ≡ nobody
      → Inv (record s { sender = s_locked; mutex = by_sender }) xs
  sender_lock-Inv e free =
      let out =
        (free_of_owner (reader_inside s.reader) (sender_inside s.sender)
          (sym free ∙ inv.owner)).0 in
      record {
        is_list = inv.is_list;
        count = ground (arith, inv.count, e);
        exclusive = rw out refl;
        owner = rw out refl;
        pending = rw e at inv.pending;
      }

  pub sender_unlock-Inv :
      s.sender ≡ taken → Inv (record s { sender = s_unlocked; mutex = nobody }) xs
  sender_unlock-Inv e =
      let out : reader_inside s.reader ≡ false =
        and_true-false (reader_inside s.reader) (rw e at inv.exclusive) in
      record {
        is_list = inv.is_list;
        count = ground (arith, inv.count, e);
        exclusive = rw out refl;
        owner = rw out refl;
        pending = rw e at inv.pending;
      }
