-- ===== src/Gateway/Main.antt =====
-- `main` of user/main.c up to its idle loop, in the main process. What the calls give is an argument.
use gateway_project.Base.{
  ℕ, List, [], ◌∷◌, ◌++◌, Bool, true, false, Option, none, Run, ok, err, fault, out_of_fuel, ◌>>=◌,
}
use gateway_project.Comm.LinkedList.{list_init}
use gateway_project.IpTable.Lines.{Exit}
use gateway_project.IpTable.Table.{Alloc}
use gateway_project.Gateway.Clients.{Calls, Gateway, creat_coapclient}

-- Whether the calls for the semaphore, the mutex, the database, the log and the threads succeed; the
-- process ids that `fork` returns in the main process (none is -1); and what `CreatCoapclient` gets.
pub record Setup : Type 0 where
  pub semaphore : Bool
  pub mutex : Bool
  pub database : Bool
  pub log : Bool
  pub category : Bool
  pub reader : Bool
  pub sender : Bool
  pub tftp : Option ℕ
  pub server : Option ℕ
  pub allocs : List Alloc
  pub file : Option (List ℕ)
  pub calls : List Calls

pub data Started : Type 0 where
  signal_set : Started
  queue_ready : Started
  semaphore_ready : Started
  mutex_ready : Started
  database_open : Started
  log_ready : Started
  category_ready : Started
  uart_set : Started
  reader_started : Started
  sender_started : Started
  list_ready : Started

-- `exit(0)`; `exit(-1)`, `exit(1)` and `return -1`; `return -2`.
pub data ExitCode : Type 0 where
  success : ExitCode
  failure : ExitCode
  no_category : ExitCode

-- The end of the process, with what was done before.
pub record Stopped : Type 0 where
  pub code : ExitCode
  pub done : List Started

-- A call that ends the process when it fails.
unfoldable pub require : Bool → ExitCode → Started → List Started → Run Stopped (List Started)
require true code what done = ok (done ++ (what ∷ []))
require false code what done = err record { code = code; done = done }

-- `Open_db` of sqlite/sqlite.c.
unfoldable pub open_db : Bool → List Started → Run Stopped (List Started)
open_db opened done = require opened success database_open done

pub record Main : Type 0 where
  pub done : List Started
  pub tftp_pid : Option ℕ
  pub coap_serv_pid : Option ℕ
  pub gateway : Gateway

abbrev pub no_clients : Gateway
no_clients = record {
  table = record { store = record { heap = λ a. none; list = list_init }; blocks = λ a. none };
  log = [];
}

-- The clients; an exit in `CreatCoapclient` is one of the process.
unfoldable pub clients_of : Run Exit Gateway → List Started → Run Stopped Gateway
clients_of (ok g) done = ok g
clients_of (err e) done = err record { code = failure; done = done }
clients_of fault done = fault
clients_of out_of_fuel done = out_of_fuel

unfoldable pub start_clients : (fuel : ℕ) → Setup → List Started → Run Stopped Gateway
start_clients fuel s = clients_of (creat_coapclient fuel no_clients s.allocs s.file s.calls)

-- A failed `fork` leaves the variable for the process id as it was.
unfoldable pub main_start : (fuel : ℕ) → Setup → Run Stopped Main
main_start fuel s = do
  a ← require s.semaphore failure semaphore_ready (signal_set ∷ queue_ready ∷ [])
  b ← require s.mutex failure mutex_ready a
  c ← open_db s.database b
  d ← require s.log failure log_ready c
  e ← require s.category no_category category_ready d
  f ← require s.reader failure reader_started (e ++ (uart_set ∷ []))
  g ← require s.sender failure sender_started f
  clients ← start_clients fuel s (g ++ (list_ready ∷ []))
  ok (record {
    done = g ++ (list_ready ∷ []);
    tftp_pid = s.tftp;
    coap_serv_pid = s.server;
    gateway = clients;
  })
