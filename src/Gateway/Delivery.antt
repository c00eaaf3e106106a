-- ===== src/Gateway/Delivery.antt =====
-- What the sender does with an element and a message that the invariant promises.
use gateway_project.Base.{
  ℕ, ◌+◌, ◌≡◌, ◌<◌, List, [], ◌∷◌, ◌++◌, append-nil, append_assoc, none, some, length, lt→ltb,
  ltb-false, ok, arith,
}
use gateway_project.Base.Text.{c_string, string_at}
use gateway_project.Comm.Heap.{Ptr, null}
use gateway_project.Comm.LinkedList.{Removed, queue_dequeue}
use gateway_project.Comm.Cells.{Cells, IsList}
use gateway_project.Comm.Remove.{data_of}
use gateway_project.Comm.Queue.{queue_dequeue-tail}
use gateway_project.Comm.Walk.{for_each, walk-for_each}
use gateway_project.IpTable.Lines.{Exit}
use gateway_project.IpTable.Table.{Blocks, Table}
use gateway_project.IpTable.Print.{Entry}
use gateway_project.Gateway.Clients.{load_block}
use gateway_project.Gateway.Create.{Process, Serves}
use gateway_project.Gateway.Threads.{
  Messages, put_message, waiting, s_locked, taken, s_unlocked, Threads, text_at, load_message,
  write_to, deliver,
}
use gateway_project.Gateway.Pending.{IsPending, IsPending-drop, IsPending-tail}
use gateway_project.Gateway.Invariant.{unposted, claimed, in_hand, Inv}

pub dequeue-ok :
    (s : Threads) (xs : Cells)
    → Inv s xs
    → s.sender ≡ s_locked
    → (r : Removed) × (queue_dequeue s.queue ≡ ok r)
      × ((ys : Cells) × Inv
            (record s { sender = taken; queue = r.store; coap_msg = r.data_ptr })
            ys)
dequeue-ok s [] inv e = absurd (none_left inv.count e)
  where
    none_left : 0 ≡ s.semaphore + unposted s.reader + claimed s.sender → s.sender ≡ s_locked → ⊥
    none_left c k = ground (arith, c, k)
dequeue-ok s ((a, v) ∷ ys) inv e =
    let (r, done, same, w) = queue_dequeue-tail a v s.queue ys inv.is_list in
    let before : IsPending s.messages (v ∷ (data_of ys ++ in_hand s.reader)) s.received s.sent =
      rw e at inv.pending in
    (
      r,
      done,
      (
        ys,
        record {
          is_list = w;
          count = ground (arith, inv.count, e);
          exclusive = ground (arith, inv.exclusive, e);
          owner = ground (arith, inv.owner, e);
          pending = rw same before;
        },
      ),
    )

abbrev pub fds_of : List Process → List ℕ
fds_of [] = []
fds_of (f ∷ fs) = f.fd ∷ fds_of fs

for_each-write_to :
    (ps : List Ptr) (es : List Entry) (fs : List Process) (bs : Blocks) (out : List ℕ)
    → Serves bs ps es fs
    → for_each (write_to bs) ps out ≡ ok (out ++ fds_of fs)
unfolding write_to load_block
for_each-write_to [] [] [] bs out s = rw (append-nil out)
for_each-write_to [] [] (f ∷ fs) bs out s = absurd s
for_each-write_to [] (e ∷ es) fs bs out s = absurd s
for_each-write_to (p ∷ ps) [] fs bs out s = absurd s
for_each-write_to (p ∷ ps) (e ∷ es) [] bs out s = absurd s
for_each-write_to (p ∷ ps) (e ∷ es) (f ∷ fs) bs out ((c, found, ip, path, pid, fd), s) = rw (
  load_block,
  found,
  fd,
  for_each-write_to ps es fs bs (out ++ (f.fd ∷ [])) s,
  append_assoc out (f.fd ∷ []) (fds_of fs),
)

-- A table whose clients are running, with fuel above the number of its entries.
pub record IsRunning (fuel : ℕ) (table : Table) (fs : List Process) : Type 0 where
  pub cells : Cells
  pub entries : List Entry
  pub is_list : IsList table.store cells
  pub serves : Serves table.blocks (data_of cells) entries fs
  pub enough : length cells < fuel

-- The state after a delivery.
abbrev pub after_send : Threads → Messages → Ptr → List ℕ → Threads
after_send s ms p fds = record s {
  messages = ms;
  coap_msg = p;
  sender = waiting;
  sent = s.sent ++ (record { text = text_at s.messages s.coap_msg; fds = fds } ∷ []);
}

load_message-ok :
    (ms : Messages) (p : Ptr) (m : List ℕ)
    → ms p ≡ some m
    → string_at {E = Exit} m ≡ ok (c_string m)
    → load_message ms p ≡ ok (text_at ms p)
unfolding load_message
load_message-ok ms p m found str = rw (load_message, found) str

after_send-Inv :
    (s : Threads) (xs : Cells) (ms : Messages) (p : Ptr) (fds : List ℕ)
    → Inv s xs
    → s.sender ≡ s_unlocked
    → IsPending ms
        (data_of xs ++ in_hand s.reader)
        s.received
        (s.sent ++ (record { text = text_at s.messages s.coap_msg; fds = fds } ∷ []))
    → Inv (after_send s ms p fds) xs
after_send-Inv s xs ms p fds inv e pending = record {
  is_list = inv.is_list;
  count = ground (arith, inv.count, e);
  exclusive = ground (arith, inv.exclusive, e);
  owner = ground (arith, inv.owner, e);
  pending = pending;
}

deliver_cells :
    (fuel : ℕ) (table : Table) (cs : Cells) (es : List Entry) (fs : List Process) (s : Threads)
    (xs : Cells)
    → IsList table.store cs
    → Serves table.blocks (data_of cs) es fs
    → length cs < fuel
    → Inv s xs
    → s.sender ≡ s_unlocked
    → (ms : Messages) × (p : Ptr) × (deliver fuel table s ≡ ok (after_send s ms p (fds_of fs)))
      × Inv (after_send s ms p (fds_of fs)) xs
unfolding deliver
deliver_cells fuel table [] [] [] s xs w sv enough inv e =
    let rest = data_of xs ++ in_hand s.reader in
    let before : IsPending s.messages (s.coap_msg ∷ rest) s.received s.sent = rw e at inv.pending in
    (
      s.messages,
      s.coap_msg,
      rw (ltb-false 0 table.store.list.size (omega (arith, w.size))),
      after_send-Inv s xs s.messages s.coap_msg [] inv e
          (IsPending-drop s.messages s.coap_msg rest s.received s.sent [] before),
    )
deliver_cells fuel table [] [] (f ∷ fs) s xs w sv enough inv e = absurd sv
deliver_cells fuel table [] (x ∷ es) fs s xs w sv enough inv e = absurd sv
deliver_cells fuel table (c ∷ cs) es fs s xs w sv enough inv e =
    let rest = data_of xs ++ in_hand s.reader in
    let before : IsPending s.messages (s.coap_msg ∷ rest) s.received s.sent = rw e at inv.pending in
    let (m, found, str) = before.live.0 in
    let ms = put_message s.messages s.coap_msg none in
    (
      ms,
      null,
      rw (
        lt→ltb 0 table.store.list.size (omega (arith, w.size)),
        load_message-ok s.messages s.coap_msg m found str,
        walk-for_each (write_to table.blocks) fuel table.store (c ∷ cs) [] w enough,
        for_each-write_to (data_of (c ∷ cs)) es fs table.blocks [] sv,
      ),
      after_send-Inv s xs ms null (fds_of fs) inv e
          (IsPending-tail s.messages s.coap_msg rest s.received s.sent (fds_of fs) before),
    )

pub deliver-ok :
    (fuel : ℕ) (table : Table) (fs : List Process) (s : Threads) (xs : Cells)
    → IsRunning fuel table fs
    → Inv s xs
    → s.sender ≡ s_unlocked
    → (ms : Messages) × (p : Ptr) × (deliver fuel table s ≡ ok (after_send s ms p (fds_of fs)))
      × Inv (after_send s ms p (fds_of fs)) xs
deliver-ok fuel table fs s xs w =
    deliver_cells fuel table w.cells w.entries fs s xs w.is_list w.serves w.enough
