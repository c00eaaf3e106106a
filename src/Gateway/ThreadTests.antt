-- ===== src/Gateway/ThreadTests.antt =====
-- A run of the two threads on one frame.
use gateway_project.Base.{
  ℕ, ◌≡◌, ◌⊎◌, ◌≤◌, refl, List, [], ◌∷◌, ◌++◌, map, All, false, ◌&&◌, none, some, ok, arith,
}
use gateway_project.Base.Text.{codes, c_string, string_at}
use gateway_project.Comm.Heap.{null, elmt, load, put}
use gateway_project.Comm.LinkedList.{
  Removed, list_ins_next, list_append, list_rem_next, queue_enqueue, queue_dequeue,
}
use gateway_project.Gateway.Threads.{
  put_message, copied, r_unlocked, reading, s_locked, s_unlocked, nobody, by_sender, waiting,
  Delivery, Threads, deliver, Reach, here, next, receive, reader_lock, enqueue, reader_unlock, post,
  wait, sender_lock, dequeue, sender_unlock, start_threads,
}
use gateway_project.Gateway.Pending.{text_of_delivery}
use gateway_project.Gateway.Invariant.{reader_inside, sender_inside}
use gateway_project.Gateway.Progress.{quiet_here, quiet_next, work, Continues, QuietRun-ends}
use gateway_project.Gateway.Delivery.{IsRunning}
use gateway_project.Gateway.Safety.{
  mutual_exclusion, dequeue_returns, sent_in_order, deliver_returns,
}
use gateway_project.CoapClient.Sequence.{Line}
use gateway_project.Gateway.Create.{Serves}
use gateway_project.Gateway.Samples.{lamp, process, one_block, one_client, one_client-IsList}

one_client-Serves : Serves one_client.table.blocks (10 ∷ []) (lamp ∷ []) (process 4711 5 ∷ [])
unfolding c_string
one_client-Serves = ((one_block, refl, refl, refl, refl, refl), tt)

abbrev running : IsRunning 2 one_client.table (process 4711 5 ∷ [])
running = record {
  cells = (11, 10) ∷ [];
  entries = lamp ∷ [];
  is_list = one_client-IsList;
  serves = one_client-Serves;
  enough = omega arith;
}

-- A frame comes in at the address 40, and goes through the queue in the element 41.
abbrev frame : List ℕ
frame = codes "$1&" ++ (0 ∷ [])

abbrev one_copied : Threads
one_copied = record start_threads {
  messages = put_message (λ a. none) 40 (some frame);
  reader = copied 40;
  received = c_string frame ∷ [];
}

abbrev one_queued : Threads
one_queued = record one_copied {
  queue = record {
    heap = put (λ a. none) 41 (some (elmt 40 null));
    list = record { size = 1; head = 41; tail = 41 };
  };
  reader = r_unlocked;
}

abbrev one_claimed : Threads
one_claimed = record one_queued { reader = reading; sender = s_locked; mutex = by_sender }

abbrev one_taken : Threads
one_taken = record one_claimed {
  queue = record {
    heap = put (put (λ a. none) 41 (some (elmt 40 null))) 41 none;
    list = record { size = 0; head = null; tail = null };
  };
  sender = s_unlocked;
  mutex = nobody;
  coap_msg = 40;
}

one_copied-Reach : Reach 2 one_client.table start_threads one_copied
unfolding c_string string_at
one_copied-Reach = next here (receive 40 frame refl (omega arith) refl refl)

one_queued-Reach : Reach 2 one_client.table start_threads one_queued
unfolding queue_enqueue list_append list_ins_next
one_queued-Reach =
    next
      (next (next one_copied-Reach (reader_lock 40 refl refl))
        (enqueue 40 41 one_queued.queue refl (omega arith) refl refl))
      (reader_unlock refl)

one_claimed-Reach : Reach 2 one_client.table start_threads one_claimed
one_claimed-Reach =
    next (next (next one_queued-Reach (post refl)) (wait 0 refl refl)) (sender_lock refl refl)

one_taken-Reach : Reach 2 one_client.table start_threads one_taken
unfolding queue_dequeue list_rem_next load
one_taken-Reach =
    next
      (next one_claimed-Reach
        (dequeue (record { data_ptr = 40; store = one_taken.queue }) refl refl))
      (sender_unlock refl)

mutual_exclusion_example :
    reader_inside one_claimed.reader && sender_inside one_claimed.sender ≡ false
mutual_exclusion_example = mutual_exclusion running one_claimed-Reach

dequeue_returns_example : (r : Removed) × (queue_dequeue one_claimed.queue ≡ ok r)
dequeue_returns_example = dequeue_returns running one_claimed-Reach refl

sent_in_order_example :
    (rest : List (List ℕ)) × (one_taken.received ≡ map text_of_delivery one_taken.sent ++ rest)
    × All (λ (d : Delivery). d.fds ≡ (5 ∷ [])) one_taken.sent
sent_in_order_example = sent_in_order running one_taken-Reach

deliver_returns_example :
    (t : Threads) × (text : List ℕ) × (rest : List (List ℕ)) × (deliver 2 one_client.table one_taken
      ≡ ok t)
    × (one_taken.received ≡ map text_of_delivery one_taken.sent ++ (text ∷ rest))
    × (t.sent ≡ one_taken.sent ++ (record { text = text; fds = 5 ∷ [] } ∷ []))
deliver_returns_example = deliver_returns running one_taken-Reach refl

abbrev one_posted : Threads
one_posted = record one_queued { reader = reading; semaphore = 1 }

QuietRun-ends_example :
    (1 ≤ work one_queued)
    × ((map text_of_delivery one_posted.sent ≡ one_queued.received)
        ⊎ Continues 2 one_client.table one_posted)
QuietRun-ends_example =
    QuietRun-ends running one_queued-Reach (quiet_next quiet_here (post refl) refl)

-- The message was sent to the client.
abbrev one_sent : Threads
one_sent = record one_taken {
  messages = put_message one_taken.messages 40 none;
  coap_msg = null;
  sender = waiting;
  sent = record { text = codes "$1&"; fds = 5 ∷ [] } ∷ [];
}

abbrev one_line : Line
one_line = record { first = b'$'; others = codes "1&"; token = 513 }
