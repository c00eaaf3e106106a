-- ===== src/Comm/LinkedList.antt =====
-- The functions of comm/list.c and comm/queue.c. A function that returns -1 changes nothing and is an
-- error here; the others return the new heap and the new list.
use gateway_project.Base.{
  ℕ, zero, suc, ◌+◌, ◌-◌, List, [], ◌∷◌, Bool, none, some, ◌==◌, if◌then◌else◌, Run, ok, err, fault,
  out_of_fuel, ◌>>=◌,
}
use gateway_project.Comm.Heap.{Ptr, null, elmt, Heap, put, load}

pub data ListError : Type 0 where
  out_of_memory : ListError
  nothing_there : ListError

-- A list, without its function pointer `destroy`.
pub record CList : Type 0 where
  pub size : ℕ
  pub head : Ptr
  pub tail : Ptr

pub record Store : Type 0 where
  pub heap : Heap
  pub list : CList

abbrev pub list_init : CList
list_init = record { size = 0; head = null; tail = null }

-- `fresh` is what `malloc` returns.
unfoldable pub list_ins_next : (fresh : Ptr) → Store → (element : Ptr) → ℕ → Run ListError Store
list_ins_next fresh s element d =
    let l = s.list in
    if fresh == null
    then err out_of_memory
    else if element == null
    then ok (record {
      heap = put s.heap fresh (some (elmt d l.head));
      list = record {
        size = l.size + 1;
        head = fresh;
        tail = if l.size == 0 then fresh else l.tail;
      };
    })
    else do
      e ← load s.heap element
      ok (record {
        heap = put (put s.heap fresh (some (elmt d e.next))) element (some (elmt e.data_ptr fresh));
        list = record {
          size = l.size + 1;
          head = l.head;
          tail = if e.next == null then fresh else l.tail;
        };
      })

unfoldable pub list_append : (fresh : Ptr) → Store → ℕ → Run ListError Store
list_append fresh s d = list_ins_next fresh s s.list.tail d

-- The data pointer that was taken out, and the store after it.
pub record Removed : Type 0 where
  pub data_ptr : ℕ
  pub store : Store

unfoldable pub list_rem_next : Store → (element : Ptr) → Run ListError Removed
list_rem_next s element =
    let l = s.list in
    if l.size == 0
    then err nothing_there
    else if element == null
    then (do
      old ← load s.heap l.head
      ok (record {
        data_ptr = old.data_ptr;
        store = record {
          heap = put s.heap l.head none;
          list = record {
            size = l.size - 1;
            head = old.next;
            tail = if l.size == 1 then null else l.tail;
          };
        };
      }))
    else do
      e ← load s.heap element
      if e.next == null then err nothing_there else do
        old ← load s.heap e.next
        ok (record {
          data_ptr = old.data_ptr;
          store = record {
            heap = put (put s.heap element (some (elmt e.data_ptr old.next))) e.next none;
            list = record {
              size = l.size - 1;
              head = l.head;
              tail = if old.next == null then element else l.tail;
            };
          };
        })

-- What `list_clean` leaves, with the data pointers that it passed to `destroy`, in order.
pub record Cleaned : Type 0 where
  pub destroyed : List ℕ
  pub store : Store

-- One round less is left after each; a round in which nothing is removed leaves the size as it is.
unfoldable pub clean_loop : (rounds : ℕ) → Bool → List ℕ → Store → Run ListError Cleaned
clean_loop zero destroy done s =
    if s.list.size == 0 then ok (record { destroyed = done; store = s }) else out_of_fuel
clean_loop (suc n) destroy done s =
    if s.list.size == 0
    then ok (record { destroyed = done; store = s })
    else (elim (list_rem_next s null) [
      | ok r ↦ clean_loop n destroy (if destroy then r.data_ptr ∷ done else done) r.store
      | err e ↦ clean_loop n destroy done s
      | fault ↦ fault
      | out_of_fuel ↦ out_of_fuel
    ])

-- `destroy` says whether the list has such a function. The last pointer destroyed comes first.
unfoldable pub list_clean : Bool → Store → Run ListError Cleaned
list_clean destroy s = clean_loop s.list.size destroy [] s

-- As `list_clean`; then all fields are set to zero.
unfoldable pub list_destroy : Bool → Store → Run ListError Cleaned
list_destroy destroy s = do
  c ← list_clean destroy s
  ok (record c { store = record { heap = c.store.heap; list = list_init } })

unfoldable pub queue_enqueue : (fresh : Ptr) → Store → ℕ → Run ListError Store
queue_enqueue fresh s d = list_ins_next fresh s s.list.tail d

unfoldable pub queue_dequeue : Store → Run ListError Removed
queue_dequeue s = list_rem_next s null
