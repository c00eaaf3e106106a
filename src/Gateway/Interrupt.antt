-- ===== src/Gateway/Interrupt.antt =====
-- `Tftp_Sig` of user/main.c runs `UpdateCoapclient` when the TFTP server signals that a table came, also
-- while `TransMsgThread` walks the list: its pointer then belongs to the old list.
use gateway_project.Base.{
  ℕ, zero, suc, List, [], ◌∷◌, Bool, true, false, some, ◌==◌, Run, ok, ◌>>=◌, if◌then◌else◌,
}
use gateway_project.Comm.Heap.{Ptr, null, Heap, load}
use gateway_project.Comm.Cells.{Cells}
use gateway_project.Comm.Walk.{walk}
use gateway_project.IpTable.Lines.{Exit}
use gateway_project.IpTable.Table.{Table, Alloc}
use gateway_project.Gateway.Clients.{Gateway, update_coapclient}
use gateway_project.Gateway.Create.{Process, all_calls}
use gateway_project.Gateway.Threads.{write_to}

-- The pointer of the loop, and the pipes that were written to.
pub record Walker : Type 0 where
  pub ptr : Ptr
  pub fds : List ℕ

-- The `write` for the element at the pointer, if there is one.
unfoldable pub write_one : Table → Walker → Run Exit Walker
write_one t s = elim (s.ptr == null) [
  | true ↦ ok s
  | false ↦ do
    e ← load t.store.heap s.ptr
    fds ← write_to t.blocks e.data_ptr s.fds
    ok (record { ptr = s.ptr; fds = fds })
]

-- `ptr = ptr->next` after a write.
unfoldable pub advance : Heap → Ptr → Run Exit Ptr
advance h p = elim (p == null) [ true ↦ ok null | false ↦ do e ← load h p; ok e.next ]

-- So many rounds of the loop over the list, if it has so many elements.
unfoldable pub walk_some : (rounds : ℕ) → Table → Walker → Run Exit Walker
walk_some zero t s = ok s
walk_some (suc n) t s = do
  written ← write_one t s
  next ← advance t.store.heap written.ptr
  walk_some n t (record { ptr = next; fds = written.fds })

-- The loop, when the signal comes after some rounds and, if `written` holds, the write of the next one:
-- the handler replaces the table, and the loop goes on in the memory that it leaves.
unfoldable pub send_interrupted :
    (fuel rounds : ℕ) (written : Bool)
    → Gateway
    → List Alloc
    → (file : List ℕ) → List Process
    → Run Exit (List ℕ)
send_interrupted fuel rounds written g allocs file fs = do
  s ← walk_some rounds g.table (record { ptr = g.table.store.list.head; fds = [] })
  s' ← (if written then write_one g.table s else ok s)
  g' ← update_coapclient fuel g allocs (some file) (all_calls fs)
  p ← (if written then advance g'.table.store.heap s'.ptr else ok s'.ptr)
  walk (write_to g'.table.blocks) fuel g'.table.store.heap p s'.fds

abbrev suffix : ℕ → Cells → Cells
suffix zero xs = xs
suffix (suc n) [] = []
suffix (suc n) (x ∷ xs) = suffix n xs
