-- ===== src/Gateway/Tests.antt =====
-- Concrete clients and tables.
use gateway_project.Base.{
  false, ℕ, ◌≡◌, ◌↔◌, refl, List, [], ◌∷◌, ◌++◌, replicate, true, none, some, none, ok, arith,
}
use gateway_project.Base.Text.{codes, c_string}
use gateway_project.IpTable.Append.{AreFresh, cleared-AreFresh}
use gateway_project.IpTable.Table.{Table, Alloc, put_block, clear_table}
use gateway_project.Comm.Heap.{put, load}
use gateway_project.Comm.LinkedList.{list_init, list_clean, clean_loop, list_rem_next}
use gateway_project.IpTable.Print.{text_of}
use gateway_project.Tftp.Packets.{data_bytes}
use gateway_project.Tftp.Request.{Host, Handled, tftpd_round}
use gateway_project.Tftp.Names.{request_bytes}
use gateway_project.Gateway.TableFile.{table_name, Uploads, file_of, tftpd_round-update_coapclient}
use gateway_project.Gateway.Fifo.{getfifo_name, getfifo_name_iff}
use gateway_project.Gateway.Clients.{Gateway, update_coapclient}
use gateway_project.Gateway.Create.{all_calls, creations, IsServed}
use gateway_project.Gateway.Delivery.{IsRunning}
use gateway_project.Gateway.Main.{Main, main_start}
use gateway_project.Gateway.Startup.{good_setup, main_start-IsRunning}
use gateway_project.Gateway.Update.{removals, update_coapclient-IsServed}
use gateway_project.Gateway.Samples.{
  alloc, lamp, lamp-IsEntry, process, one_block, one_client, one_client-IsList,
}

getfifo_name_iff_example :
    (a : List ℕ) × (a' : List ℕ) × (getfifo_name {E = Unit {0}} (replicate 64 1) 64 4711 ≡ ok a)
    × (getfifo_name {E = Unit {0}} (replicate 64 2) 64 471 ≡ ok a')
    × ((c_string a ≡ c_string a') ↔ (◌≡◌ {A = ℕ} 4711 471))
getfifo_name_iff_example =
    getfifo_name_iff (replicate 64 1) (replicate 64 2) 4711 471 refl refl (omega arith)
      (omega arith)

-- The mutex cannot be made.
main_start-IsRunning_example :
    (m : Main) × (main_start 2 (
        good_setup
          (some 4700)
          none
          (alloc 10 11 ∷ alloc 20 21 ∷ [])
          (lamp ∷ [])
          (process 4711 5 ∷ []))
      ≡ ok m)
    × IsServed m.gateway (lamp ∷ []) (process 4711 5 ∷ [])
    × IsRunning 2 m.gateway.table (process 4711 5 ∷ [])
    × (m.tftp_pid ≡ some 4700)
    × (m.coap_serv_pid ≡ none)
main_start-IsRunning_example =
    main_start-IsRunning 2 (some 4700) none (alloc 10 11 ∷ alloc 20 21 ∷ []) (lamp ∷ [])
      (process 4711 5 ∷ [])
      ((omega arith, omega arith, refl, refl), ((omega arith, omega arith, refl, refl), tt))
      (((omega arith, omega arith), tt), (tt, tt)) (lamp-IsEntry, tt) refl refl (omega arith)

one_client-IsServed : IsServed one_client (lamp ∷ []) (process 4711 5 ∷ [])
unfolding c_string
one_client-IsServed =
    (((11, 10) ∷ []), one_client-IsList, ((one_block, refl, refl, refl, refl, refl), tt), (tt, tt))

-- The table of the one client after its list was freed.
abbrev cleared : Table
cleared = record {
  store = record { heap = put one_client.table.store.heap 11 none; list = list_init };
  blocks = put_block one_client.table.blocks 10 none;
}

one_client-cleared : clear_table one_client.table ≡ ok cleared
unfolding clear_table list_clean clean_loop list_rem_next load
one_client-cleared = refl

-- `malloc` gives the block and the element of the old list again.
abbrev same_allocs : List Alloc
same_allocs = alloc 10 11 ∷ alloc 20 21 ∷ []

same_allocs-AreFresh : AreFresh one_client.table same_allocs
same_allocs-AreFresh =
    cleared-AreFresh one_client.table cleared same_allocs one_client-cleared
      ((omega arith, omega arith, refl, refl), ((omega arith, omega arith, refl, refl), tt))

abbrev other_allocs : List Alloc
other_allocs = alloc 30 31 ∷ alloc 20 21 ∷ []

update_coapclient-IsServed_example :
    (g' : Gateway) × (update_coapclient 2 one_client same_allocs
        (some (text_of (lamp ∷ [])))
        (all_calls (process 4712 6 ∷ []))
      ≡ ok g')
    × IsServed g' (lamp ∷ []) (process 4712 6 ∷ [])
    × (g'.log ≡ removals (process 4711 5 ∷ []) ++ creations (process 4712 6 ∷ []))
update_coapclient-IsServed_example =
    update_coapclient-IsServed 2 one_client (lamp ∷ []) (lamp ∷ []) (process 4711 5 ∷ [])
      (process 4712 6 ∷ []) same_allocs one_client-IsServed same_allocs-AreFresh
      (((omega arith, omega arith), tt), (tt, tt)) (lamp-IsEntry, tt) refl refl (omega arith)
      (omega arith)

abbrev upload_host : Host
upload_host = record {
  made = true;
  bound = true;
  readable = λ name. none;
  writable = λ name. true;
  memory = true;
  spare = false;
  put = λ b. b;
  answer = some (data_bytes 1 (text_of (lamp ∷ [])));
  stack = replicate 516 170;
  name_stack = replicate 30 170;
}

upload_host-Uploads : Uploads upload_host (text_of (lamp ∷ []))
upload_host-Uploads = record {
  made = refl;
  bound = refl;
  writable = refl;
  memory = refl;
  put = refl;
  answer = refl;
  stack = refl;
  name_stack = refl;
  some_bytes = omega arith;
  one_block = omega arith;
}

tftpd_round-update_coapclient_example :
    (r : Handled) × (g' : Gateway) × (tftpd_round upload_host
        (replicate 1024 0)
        (some (request_bytes 2 table_name (codes "octet")))
      ≡ ok (some r))
    × (r.name ≡ some table_name)
    × (r.signalled ≡ true)
    × (update_coapclient 2 one_client same_allocs (file_of r) (all_calls (process 4712 6 ∷ []))
        ≡ ok g')
    × IsServed g' (lamp ∷ []) (process 4712 6 ∷ [])
    × (g'.log ≡ removals (process 4711 5 ∷ []) ++ creations (process 4712 6 ∷ []))
tftpd_round-update_coapclient_example =
    tftpd_round-update_coapclient upload_host (replicate 1024 0) (codes "octet") 2 one_client
      (lamp ∷ []) (lamp ∷ []) (process 4711 5 ∷ []) (process 4712 6 ∷ []) same_allocs
      upload_host-Uploads one_client-IsServed same_allocs-AreFresh
      (((omega arith, omega arith), tt), (tt, tt)) (lamp-IsEntry, tt) refl refl (omega arith)
      (omega arith)
