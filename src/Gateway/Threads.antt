-- ===== src/Gateway/Threads.antt =====
-- The two threads of the main process: `Uart_ReadThread` of uart/uart.c from the copy of a frame on, and
-- `TransMsgThread` of user/main.c. They share the queue with its mutex and the semaphore, and take their
-- steps in any order. The table of the clients stays as it is; memory for an element is found.
use gateway_project.Base.{
  ℕ, suc, ◌≡◌, ◌≢◌, List, [], ◌∷◌, ◌++◌, Option, none, some, ltb, ◌==◌, if◌then◌else◌, Run, ok, err,
  fault, ◌>>=◌,
}
use gateway_project.Base.Text.{c_string, string_at}
use gateway_project.Comm.Heap.{Ptr, null}
use gateway_project.Comm.LinkedList.{
  Store, Removed, nothing_there, list_init, queue_enqueue, queue_dequeue,
}
use gateway_project.Comm.Walk.{walk}
use gateway_project.IpTable.Lines.{Exit}
use gateway_project.IpTable.Table.{Blocks, Table}
use gateway_project.Gateway.Clients.{load_block}

-- The copies of the frames, allocated by the reader and freed by the sender.
abbrev pub Messages : Type 0
Messages = Ptr → Option (List ℕ)

abbrev pub put_message : Messages → Ptr → Option (List ℕ) → Messages
put_message ms p c a = if a == p then c else ms a

-- Where a thread stands, named by what it did last.
pub data ReaderAt : Type 0 where
  reading : ReaderAt
  copied : Ptr → ReaderAt
  r_locked : Ptr → ReaderAt
  queued : ReaderAt
  r_unlocked : ReaderAt

pub data SenderAt : Type 0 where
  waiting : SenderAt
  awake : SenderAt
  s_locked : SenderAt
  taken : SenderAt
  s_unlocked : SenderAt

pub data Owner : Type 0 where
  nobody : Owner
  by_reader : Owner
  by_sender : Owner

-- What a round of the sender wrote, and to which pipes.
pub record Delivery : Type 0 where
  pub text : List ℕ
  pub fds : List ℕ

pub record Threads : Type 0 where
  pub queue : Store
  pub messages : Messages
  pub semaphore : ℕ
  pub mutex : Owner
  pub reader : ReaderAt
  pub sender : SenderAt
  pub coap_msg : Ptr
  pub received : List (List ℕ)
  pub sent : List Delivery

abbrev pub start_threads : Threads
start_threads = record {
  queue = record { heap = λ a. none; list = list_init };
  messages = λ a. none;
  semaphore = 0;
  mutex = nobody;
  reader = reading;
  sender = waiting;
  coap_msg = null;
  received = [];
  sent = [];
}

abbrev pub text_in : Option (List ℕ) → List ℕ
text_in none = []
text_in (some m) = c_string m

abbrev pub text_at : Messages → Ptr → List ℕ
text_at ms p = text_in (ms p)

-- `strlen(coapMsg)` and the bytes that `write` reads.
unfoldable pub load_message : Messages → Ptr → Run Exit (List ℕ)
load_message ms p = elim (ms p) [ none ↦ fault | some m ↦ string_at m ]

-- The `write` to one client.
unfoldable pub write_to : Blocks → Ptr → List ℕ → Run Exit (List ℕ)
write_to bs p fds = do block ← load_block bs p; ok (fds ++ (block.fifo_fd ∷ []))

-- What the sender does with the message that it took: without clients the message is kept, and the
-- next one replaces its pointer.
unfoldable pub deliver : (fuel : ℕ) → Table → Threads → Run Exit Threads
deliver fuel table s =
    if ltb 0 table.store.list.size
    then (do
      text ← load_message s.messages s.coap_msg
      fds ← walk (write_to table.blocks) fuel table.store.heap table.store.list.head []
      ok (record s {
        messages = put_message s.messages s.coap_msg none;
        coap_msg = null;
        sender = waiting;
        sent = s.sent ++ (record { text = text; fds = fds } ∷ []);
      }))
    else ok (record s {
      sender = waiting;
      sent = s.sent ++ (record { text = text_at s.messages s.coap_msg; fds = [] } ∷ []);
    })

-- One step. `receive` is the end of a frame, whose copy holds a NUL (see Uart.Copies), at an address
-- that `malloc` returns.
pub data Step (fuel : ℕ) (table : Table) (s : Threads) : Threads → Type 0 where
  receive :
      (p : Ptr) (frame : List ℕ)
      → s.reader ≡ reading
      → p ≢ null
      → s.messages p ≡ none
      → string_at {E = Exit} frame ≡ ok (c_string frame)
      → Step fuel table s (record s {
        messages = put_message s.messages p (some frame);
        reader = copied p;
        received = s.received ++ (c_string frame ∷ []);
      })
  reader_lock :
      (p : Ptr)
      → s.reader ≡ copied p
      → s.mutex ≡ nobody
      → Step fuel table s (record s { reader = r_locked p; mutex = by_reader })
  enqueue :
      (p element : Ptr) (q : Store)
      → s.reader ≡ r_locked p
      → element ≢ null
      → s.queue.heap element ≡ none
      → queue_enqueue element s.queue p ≡ ok q
      → Step fuel table s (record s { reader = queued; queue = q })
  reader_unlock :
      s.reader ≡ queued → Step fuel table s (record s { reader = r_unlocked; mutex = nobody })
  post :
      s.reader ≡ r_unlocked
      → Step fuel table s (record s { reader = reading; semaphore = suc s.semaphore })
  wait :
      (n : ℕ)
      → s.sender ≡ waiting
      → s.semaphore ≡ suc n
      → Step fuel table s (record s { sender = awake; semaphore = n })
  sender_lock :
      s.sender ≡ awake
      → s.mutex ≡ nobody
      → Step fuel table s (record s { sender = s_locked; mutex = by_sender })
  dequeue :
      (r : Removed)
      → s.sender ≡ s_locked
      → queue_dequeue s.queue ≡ ok r
      → Step fuel table s (record s { sender = taken; queue = r.store; coap_msg = r.data_ptr })
  dequeue_nothing :
      s.sender ≡ s_locked
      → queue_dequeue s.queue ≡ err nothing_there
      → Step fuel table s (record s { sender = taken })
  sender_unlock :
      s.sender ≡ taken → Step fuel table s (record s { sender = s_unlocked; mutex = nobody })
  send : (t : Threads) → s.sender ≡ s_unlocked → deliver fuel table s ≡ ok t → Step fuel table s t

pub data Reach (fuel : ℕ) (table : Table) (s : Threads) : Threads → Type 0 where
  here : Reach fuel table s s
  next : {t u : Threads} → Reach fuel table s t → Step fuel table t u → Reach fuel table s u
