-- ===== src/Gateway/Update.antt =====
-- What `UpdateCoapclient` does: the old clients are stopped before the new ones are forked.
use gateway_project.Base.{
  ℕ, suc, ◌≡◌, refl, ap, ◌∙◌, ◌<◌, List, [], ◌∷◌, ◌++◌, append-nil, append_assoc, All, some, none,
  true, false, length, ltb, ltb-false, lt→ltb, if◌then◌else◌, ok, arith,
}
use gateway_project.Comm.Heap.{Ptr}
use gateway_project.Comm.Cells.{Cells, has, IsList}
use gateway_project.Comm.Remove.{data_of}
use gateway_project.Comm.Walk.{walk, for_each, walk-for_each}
use gateway_project.IpTable.Table.{Blocks, Alloc}
use gateway_project.IpTable.Print.{Entry, text_of, IsEntry}
use gateway_project.IpTable.Append.{AreFresh, AreDistinct}
use gateway_project.IpTable.RoundTrip.{reused_element}
use gateway_project.Gateway.Clients.{
  Event, kill_of, wait_for, Gateway, load_block, stop_client, update_coapclient,
}
use gateway_project.Gateway.Create.{
  Process, all_calls, creations, Serves, IsServed, length-data_of, creat_coapclient_lem,
}

abbrev pub removals : List Process → List Event
removals [] = []
removals (f ∷ fs) = kill_of f.pid ∷ wait_for ∷ removals fs

for_each-stop_client :
    (ps : List Ptr) (es : List Entry) (fs : List Process) (bs : Blocks) (log : List Event)
    → Serves bs ps es fs
    → for_each (stop_client bs) ps log ≡ ok (log ++ removals fs)
unfolding stop_client load_block
for_each-stop_client [] [] [] bs log s = rw (append-nil log)
for_each-stop_client [] [] (f ∷ fs) bs log s = absurd s
for_each-stop_client [] (e ∷ es) fs bs log s = absurd s
for_each-stop_client (p ∷ ps) [] fs bs log s = absurd s
for_each-stop_client (p ∷ ps) (e ∷ es) [] bs log s = absurd s
for_each-stop_client (p ∷ ps) (e ∷ es) (f ∷ fs) bs log ((c, here, ip, path, pid, fd), s) = rw (
  load_block,
  here,
  pid,
  for_each-stop_client ps es fs bs (log ++ (kill_of f.pid ∷ wait_for ∷ [])) s,
  append_assoc log (kill_of f.pid ∷ wait_for ∷ []) (removals fs),
)

pub Serves-length :
    (bs : Blocks) (ps : List Ptr) (es : List Entry) (fs : List Process)
    → Serves bs ps es fs
    → length ps ≡ length fs
Serves-length bs [] [] [] s = refl
Serves-length bs [] [] (f ∷ fs) s = absurd s
Serves-length bs [] (e ∷ es) fs s = absurd s
Serves-length bs (p ∷ ps) [] fs s = absurd s
Serves-length bs (p ∷ ps) (e ∷ es) [] s = absurd s
Serves-length bs (p ∷ ps) (e ∷ es) (f ∷ fs) (b, s) = ap suc (Serves-length bs ps es fs s)

walk-stop_client :
    (fuel : ℕ) (g : Gateway) (xs : Cells) (es : List Entry) (fs : List Process)
    → IsList g.table.store xs
    → Serves g.table.blocks (data_of xs) es fs
    → length xs < fuel
    → (if ltb 0 g.table.store.list.size
        then walk (stop_client g.table.blocks) fuel g.table.store.heap g.table.store.list.head g.log
        else ok g.log)
      ≡ ok (g.log ++ removals fs)
walk-stop_client fuel g [] [] [] w s short =
    rw (ltb-false 0 g.table.store.list.size (omega (arith, w.size)), append-nil g.log)
walk-stop_client fuel g [] [] (f ∷ fs) w s short = absurd s
walk-stop_client fuel g [] (e ∷ es) fs w s short = absurd s
walk-stop_client fuel g (x ∷ xs) es fs w s short = rw (
  lt→ltb 0 g.table.store.list.size (omega (arith, w.size)),
  walk-for_each (stop_client g.table.blocks) fuel g.table.store (x ∷ xs) g.log w short,
  for_each-stop_client (data_of (x ∷ xs)) es fs g.table.blocks g.log s,
)

-- For the list that stands in the table, whose elements are free afterwards.
pub update_coapclient_lem :
    (fuel : ℕ) (g : Gateway) (xs : Cells) (old es : List Entry) (gone fs : List Process)
    (allocs : List Alloc)
    → IsList g.table.store xs
    → Serves g.table.blocks (data_of xs) old gone
    → AreFresh g.table allocs
    → AreDistinct allocs
    → All IsEntry es
    → length allocs ≡ suc (length es)
    → length fs ≡ length es
    → length gone < fuel
    → length es < fuel
    → (g' : Gateway) × (update_coapclient fuel g allocs (some (text_of es)) (all_calls fs) ≡ ok g')
      × IsServed g' es fs
      × (g'.log ≡ g.log ++ (removals gone ++ creations fs))
      × ((q : Ptr)
          → has q xs ≡ true
          → reused_element q allocs ≡ false
          → g'.table.store.heap q ≡ none)
unfolding update_coapclient
update_coapclient_lem fuel g xs old es gone fs allocs w s fresh d v n m short enough =
    let stopped = walk-stop_client fuel g xs old gone w s (
      omega
        (arith, short, Serves-length g.table.blocks (data_of xs) old gone s, length-data_of xs)) in
    let g0 : Gateway = record g { log = g.log ++ removals gone } in
    let (g', e, served, logged, freed) =
      creat_coapclient_lem fuel g0 xs allocs es fs w fresh d v n m enough in
    (g', rw (stopped, e), served, logged ∙ append_assoc g.log (removals gone) (creations fs), freed)

-- `UpdateCoapclient` while clients run, on a new file with one line for each entry, where all calls
-- succeed: it stops each old client once, in the order of the list, by the signal to the process id
-- that was recorded for it and a wait, and only then forks one client for each line of the new file. The
-- new table stands for the new entries with their processes. The conditions on the file and the memory
-- are those of `ParsTxt`; fuel above the number of the old and of the new entries is enough.
pub update_coapclient-IsServed :
    (fuel : ℕ) (g : Gateway) (old es : List Entry) (gone fs : List Process) (allocs : List Alloc)
    → IsServed g old gone
    → AreFresh g.table allocs
    → AreDistinct allocs
    → All IsEntry es
    → length allocs ≡ suc (length es)
    → length fs ≡ length es
    → length gone < fuel
    → length es < fuel
    → (g' : Gateway) × (update_coapclient fuel g allocs (some (text_of es)) (all_calls fs) ≡ ok g')
      × IsServed g' es fs
      × (g'.log ≡ g.log ++ (removals gone ++ creations fs))
update_coapclient-IsServed fuel g old es gone fs allocs (xs, w, s, a) fresh d v n m short enough =
    let (g', e, served, logged, _) =
      update_coapclient_lem fuel g xs old es gone fs allocs w s fresh d v n m short enough in
    (g', e, served, logged)
