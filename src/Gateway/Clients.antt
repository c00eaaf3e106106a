-- ===== src/Gateway/Clients.antt =====
-- `CreatCoapclient` and `UpdateCoapclient` of user/main.c, in the main process: a client that is forked
-- runs `CoapClient` and does not come back. What the system calls give is an argument.
use gateway_project.Base.{
  ℕ, List, [], ◌∷◌, ◌++◌, ◌||◌, Bool, Option, none, some, ltb, if◌then◌else◌, replicate, Run, ok,
  err, fault, ◌>>=◌,
}
use gateway_project.Base.Text.{c_string}
use gateway_project.Comm.Heap.{Ptr}
use gateway_project.Comm.Walk.{walk}
use gateway_project.IpTable.Lines.{CoapIp, Exit, exit_failure}
use gateway_project.IpTable.Table.{Blocks, put_block, Table, Alloc, pars_txt}
use gateway_project.Gateway.Fifo.{getfifo_name}

-- The calls for one client: the result of `fork` in the main process (none is -1), whether the pipe is
-- there already, whether `mkfifo` succeeds, and the result of `open` (none is -1).
pub record Calls : Type 0 where
  pub forked : Option ℕ
  pub present : Bool
  pub made : Bool
  pub fd : Option ℕ

-- What the other processes and the file system see.
pub data Event : Type 0 where
  fork_of : (pid : ℕ) → Event
  open_of : (name : List ℕ) → Event
  kill_of : (pid : ℕ) → Event
  wait_for : Event

pub record Clients : Type 0 where
  pub blocks : Blocks
  pub calls : List Calls
  pub log : List Event

unfoldable pub load_block : Blocks → Ptr → Run Exit CoapIp
load_block bs p = elim (bs p) [ none ↦ fault | some c ↦ ok c ]

-- The part for `pid > 0`.
unfoldable pub connect : Clients → Ptr → (pid : ℕ) → Calls → List Calls → Run Exit Clients
connect s p pid c rest = do
  name ← getfifo_name (replicate 64 0) 64 pid
  block ← load_block s.blocks p
  ready ← (if c.present || c.made then ok name else err exit_failure)
  elim c.fd [
    | none ↦ err exit_failure
    | some fd ↦ ok (record {
      blocks = put_block s.blocks p (some (record block { pid = pid; fifo_fd = fd }));
      calls = rest;
      log = s.log ++ (fork_of pid ∷ open_of (c_string ready) ∷ []);
    })
  ]

-- The body of the loop for one element; when the calls are used up, `fork` fails.
unfoldable pub create_client : Ptr → Clients → Run Exit Clients
create_client p s = elim s.calls [
  | [] ↦ ok s
  | c ∷ rest ↦ elim c.forked [
    | none ↦ ok (record s { calls = rest })
    | some pid ↦ connect s p pid c rest
  ]
]

-- The table and what was done, at the end.
pub record Gateway : Type 0 where
  pub table : Table
  pub log : List Event

unfoldable pub creat_coapclient :
    (fuel : ℕ) → Gateway → List Alloc → Option (List ℕ) → List Calls → Run Exit Gateway
creat_coapclient fuel g allocs file calls = do
  t ← pars_txt fuel g.table allocs file
  s ←
      walk create_client fuel t.store.heap t.store.list.head
        (record { blocks = t.blocks; calls = calls; log = g.log })
  ok (record { table = record t { blocks = s.blocks }; log = s.log })

-- `kill` and `wait` for one element.
unfoldable pub stop_client : Blocks → Ptr → List Event → Run Exit (List Event)
stop_client bs p log = do block ← load_block bs p; ok (log ++ (kill_of block.pid ∷ wait_for ∷ []))

unfoldable pub update_coapclient :
    (fuel : ℕ) → Gateway → List Alloc → Option (List ℕ) → List Calls → Run Exit Gateway
update_coapclient fuel g allocs file calls = do
  log ←
      (if ltb 0 g.table.store.list.size
        then walk (stop_client g.table.blocks) fuel g.table.store.heap g.table.store.list.head g.log
        else ok g.log)
  creat_coapclient fuel (record g { log = log }) allocs file calls
