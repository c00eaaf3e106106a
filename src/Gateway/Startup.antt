-- ===== src/Gateway/Startup.antt =====
-- What holds when `main` has come to its idle loop, or ended before.
use gateway_project.Base.{
  ℕ, suc, ◌<◌, ◌≡◌, refl, List, [], ◌∷◌, ◌++◌, All, Bool, true, false, Option, some, length, Run,
  ok, err, fault, out_of_fuel, ◌>>=◌, arith,
}
use gateway_project.Comm.Cells.{IsList}
use gateway_project.Comm.Remove.{data_of}
use gateway_project.IpTable.Lines.{Exit}
use gateway_project.IpTable.Table.{Alloc, clear_table}
use gateway_project.IpTable.Print.{Entry, text_of, IsEntry}
use gateway_project.IpTable.Append.{IsFresh, AreDistinct, cleared-AreFresh}
use gateway_project.Gateway.Clients.{Gateway, creat_coapclient}
use gateway_project.Gateway.Create.{
  Process, all_calls, IsServed, length-data_of, creat_coapclient-IsServed,
}
use gateway_project.Gateway.Update.{Serves-length}
use gateway_project.Gateway.Delivery.{IsRunning}
use gateway_project.Gateway.Main.{
  ExitCode, success, failure, no_category, Setup, Started, signal_set, queue_ready, semaphore_ready,
  mutex_ready, database_open, log_ready, category_ready, uart_set, reader_started, sender_started,
  list_ready, Stopped, require, open_db, Main, no_clients, clients_of, start_clients, main_start,
}

-- The order in which the parts are made ready.
abbrev pub start_order : List Started
start_order =
    signal_set ∷ queue_ready ∷ semaphore_ready ∷ mutex_ready ∷ database_open ∷ log_ready
    ∷ category_ready ∷ uart_set ∷ reader_started ∷ sender_started ∷ list_ready ∷ []

abbrev pub IsPrefix : List Started → Type 0
IsPrefix done = (rest : List Started) × (start_order ≡ done ++ rest)

-- What was done before the idle loop, or before the end of the process, is a first part of the order.
abbrev pub KeepsOrder : Run Stopped Main → Type 0
KeepsOrder (ok m) = m.done ≡ start_order
KeepsOrder (err e) = IsPrefix e.done
KeepsOrder fault = Unit {0}
KeepsOrder out_of_fuel = Unit {0}

require-KeepsOrder :
    (b : Bool) (code : ExitCode) (what : Started) (done : List Started)
    (k : List Started → Run Stopped Main)
    → IsPrefix done
    → KeepsOrder (k (done ++ (what ∷ [])))
    → KeepsOrder (require b code what done >>= k)
unfolding require
require-KeepsOrder true code what done k p q = q
require-KeepsOrder false code what done k p q = p

clients-KeepsOrder :
    (m : Run Exit Gateway) (done : List Started) (k : Gateway → Main)
    → ((g : Gateway) → (k g).done ≡ start_order)
    → IsPrefix done
    → KeepsOrder (clients_of m done >>= λ g. ok (k g))
unfolding clients_of
clients-KeepsOrder (ok g) done k h p = h g
clients-KeepsOrder (err e) done k h p = p
clients-KeepsOrder fault done k h p = tt
clients-KeepsOrder out_of_fuel done k h p = tt

-- Whatever the calls in `main` give: if it comes to its idle loop, everything was made ready in the
-- order `start_order`, in which the queue, the semaphore, the mutex, the database and the log stand
-- before the two threads; if the process ends, only a first part of that was done, and nothing after the
-- call that failed.
pub main_start-KeepsOrder : (fuel : ℕ) (s : Setup) → KeepsOrder (main_start fuel s)
unfolding main_start open_db start_clients
main_start-KeepsOrder fuel s =
    require-KeepsOrder s.semaphore failure semaphore_ready (signal_set ∷ queue_ready ∷ []) _
      (_, refl)
      (require-KeepsOrder s.mutex failure mutex_ready _ _ (_, refl)
        (require-KeepsOrder s.database success database_open _ _ (_, refl)
          (require-KeepsOrder s.log failure log_ready _ _ (_, refl)
            (require-KeepsOrder s.category no_category category_ready _ _ (_, refl)
              (require-KeepsOrder s.reader failure reader_started _ _ (_, refl)
                (require-KeepsOrder s.sender failure sender_started _ _ (_, refl)
                  (clients-KeepsOrder (creat_coapclient fuel no_clients s.allocs s.file s.calls)
                    start_order _ (λ g. refl) (_, refl))))))))

-- The calls when all of them succeed.
abbrev pub good_setup : (tftp server : Option ℕ) → List Alloc → List Entry → List Process → Setup
good_setup tftp server allocs es fs = record {
  semaphore = true;
  mutex = true;
  database = true;
  log = true;
  category = true;
  reader = true;
  sender = true;
  tftp = tftp;
  server = server;
  allocs = allocs;
  file = some (text_of es);
  calls = all_calls fs;
}

pub IsServed-IsRunning :
    (fuel : ℕ) (g : Gateway) (es : List Entry) (fs : List Process)
    → IsServed g es fs
    → length fs < fuel
    → IsRunning fuel g.table fs
IsServed-IsRunning fuel g es fs (xs, w, s, a) short = record {
  cells = xs;
  entries = es;
  is_list = w;
  serves = s;
  enough =
      omega (arith, short, Serves-length g.table.blocks (data_of xs) es fs s, length-data_of xs);
}

no_clients-cleared : clear_table no_clients.table ≡ ok no_clients.table
unfolding clear_table
no_clients-cleared = refl

-- When all calls succeed, with the conditions of `CreatCoapclient` on the file and the memory, `main`
-- comes to its idle loop with a client running for each entry of IPtable.txt, in the state in which the
-- two threads do their work, and with the process ids of the two servers recorded.
pub main_start-IsRunning :
    (fuel : ℕ) (tftp server : Option ℕ) (allocs : List Alloc) (es : List Entry) (fs : List Process)
    → All (IsFresh no_clients.table) allocs
    → AreDistinct allocs
    → All IsEntry es
    → length allocs ≡ suc (length es)
    → length fs ≡ length es
    → length es < fuel
    → (m : Main) × (main_start fuel (good_setup tftp server allocs es fs) ≡ ok m)
      × IsServed m.gateway es fs
      × IsRunning fuel m.gateway.table fs
      × (m.tftp_pid ≡ tftp)
      × (m.coap_serv_pid ≡ server)
unfolding main_start open_db start_clients clients_of require
main_start-IsRunning fuel tftp server allocs es fs fresh d v n m enough =
    let (g, run, served, _) =
      creat_coapclient-IsServed fuel no_clients [] allocs es fs empty-IsList
        (cleared-AreFresh no_clients.table no_clients.table allocs no_clients-cleared fresh) d v n m
        enough in
    (
      record { done = start_order; tftp_pid = tftp; coap_serv_pid = server; gateway = g },
      rw run refl,
      served,
      IsServed-IsRunning fuel g es fs served (omega (arith, m, enough)),
      refl,
      refl,
    )
  where
    empty-IsList : IsList no_clients.table.store []
    empty-IsList = record { linked = tt; size = refl; head = refl; tail = refl }
