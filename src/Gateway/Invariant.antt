-- ===== src/Gateway/Invariant.antt =====
-- What holds in every state that the two threads reach.
use gateway_project.Base.{
  ℕ, ◌+◌, ◌≡◌, refl, List, [], ◌∷◌, ◌++◌, append-nil, append_assoc, Bool, true, false, ◌&&◌, none,
  some, length, ok, arith,
}
use gateway_project.Base.Text.{c_string, string_at}
use gateway_project.Comm.Heap.{Ptr}
use gateway_project.Comm.Cells.{Cells, IsList}
use gateway_project.Comm.Remove.{data_of}
use gateway_project.IpTable.Lines.{Exit}
use gateway_project.Gateway.Threads.{
  put_message, ReaderAt, reading, copied, r_locked, queued, r_unlocked, SenderAt, waiting, awake,
  s_locked, taken, s_unlocked, Owner, nobody, by_reader, by_sender, Threads, start_threads,
}
use gateway_project.Gateway.Pending.{IsPending, IsPending-append}

-- Elements of the queue that the semaphore does not count yet, or no longer.
abbrev pub unposted : ReaderAt → ℕ
unposted queued = 1
unposted r_unlocked = 1
unposted reading = 0
unposted (copied p) = 0
unposted (r_locked p) = 0

abbrev pub claimed : SenderAt → ℕ
claimed awake = 1
claimed s_locked = 1
claimed waiting = 0
claimed taken = 0
claimed s_unlocked = 0

-- The owner of the mutex, by where the threads stand, when they are not both inside.
abbrev pub reader_inside : ReaderAt → Bool
reader_inside (r_locked p) = true
reader_inside queued = true
reader_inside reading = false
reader_inside (copied p) = false
reader_inside r_unlocked = false

abbrev pub sender_inside : SenderAt → Bool
sender_inside s_locked = true
sender_inside taken = true
sender_inside waiting = false
sender_inside awake = false
sender_inside s_unlocked = false

abbrev pub owner_of : Bool → Bool → Owner
owner_of true b = by_reader
owner_of false true = by_sender
owner_of false false = nobody

-- The messages on their way: the one that was taken, those in the queue, the one not queued yet.
abbrev pub in_flight : SenderAt → Ptr → List Ptr
in_flight taken p = p ∷ []
in_flight s_unlocked p = p ∷ []
in_flight waiting p = []
in_flight awake p = []
in_flight s_locked p = []

abbrev pub in_hand : ReaderAt → List Ptr
in_hand (copied p) = p ∷ []
in_hand (r_locked p) = p ∷ []
in_hand reading = []
in_hand queued = []
in_hand r_unlocked = []

abbrev pub under_way : ReaderAt → SenderAt → Ptr → Cells → List Ptr
under_way r sd p xs = in_flight sd p ++ (data_of xs ++ in_hand r)

pub record Inv (s : Threads) (xs : Cells) : Type 0 where
  pub is_list : IsList s.queue xs
  pub count : length xs ≡ s.semaphore + unposted s.reader + claimed s.sender
  pub exclusive : reader_inside s.reader && sender_inside s.sender ≡ false
  pub owner : s.mutex ≡ owner_of (reader_inside s.reader) (sender_inside s.sender)
  pub pending : IsPending s.messages (under_way s.reader s.sender s.coap_msg xs) s.received s.sent

pub start-Inv : Inv start_threads []
start-Inv = record {
  is_list = record { linked = tt; size = refl; head = refl; tail = refl };
  count = refl;
  exclusive = refl;
  owner = refl;
  pending = record { live = tt; apart = tt; history = refl };
}

pub receive-Inv :
    (s : Threads) (xs : Cells) (p : Ptr) (frame : List ℕ)
    → Inv s xs
    → s.reader ≡ reading
    → s.messages p ≡ none
    → string_at {E = Exit} frame ≡ ok (c_string frame)
    → Inv
        (record s {
          messages = put_message s.messages p (some frame);
          reader = copied p;
          received = s.received ++ (c_string frame ∷ []);
        })
        xs
receive-Inv s xs p frame inv at_start unused str =
    let before = in_flight s.sender s.coap_msg ++ data_of xs in
    let old : under_way s.reader s.sender s.coap_msg xs ≡ before =
      rw (at_start, append-nil (data_of xs)) in
    let new : before ++ (p ∷ []) ≡ in_flight s.sender s.coap_msg ++ (data_of xs ++ (p ∷ [])) =
      append_assoc (in_flight s.sender s.coap_msg) (data_of xs) (p ∷ []) in
    let pending : IsPending s.messages before s.received s.sent = rw old at inv.pending in
    record {
      is_list = inv.is_list;
      count = ground (arith, inv.count, at_start);
      exclusive = refl;
      owner = ground (arith, inv.owner, at_start);
      pending =
          rw new at
            (IsPending-append s.messages before s.received s.sent p frame pending unused str);
    }
