-- ===== src/Gateway/Create.antt =====
-- What `CreatCoapclient` leaves: every entry of the file has a client process and an open pipe to it.
use gateway_project.Base.{
  ℕ, suc, ◌≡◌, ◌≢◌, refl, ap, ◌∙◌, ◌<◌, List, [], ◌∷◌, ◌++◌, append-nil, append_assoc, All, true,
  false, none, some, length, replicate, ==_false, ==_true, ok, arith,
}
use gateway_project.Base.Text.{c_string}
use gateway_project.Comm.Heap.{Ptr}
use gateway_project.Comm.Cells.{Cells, has, IsList}
use gateway_project.Comm.Remove.{data_of}
use gateway_project.Comm.Walk.{for_each, walk-for_each}
use gateway_project.IpTable.Lines.{CoapIp, Exit}
use gateway_project.IpTable.Table.{Blocks, put_block, Alloc}
use gateway_project.IpTable.Print.{Entry, text_of, IsEntry}
use gateway_project.IpTable.Append.{Holds, AreApart, away, AreFresh, AreDistinct}
use gateway_project.Gateway.Fifo.{fifo_text, getfifo_name-fifo_text}
use gateway_project.IpTable.RoundTrip.{pars_txt_lem, reused_element}
use gateway_project.Gateway.Clients.{
  Calls, Event, fork_of, open_of, Clients, Gateway, load_block, connect, create_client,
  creat_coapclient,
}

-- A client process: its id, and the descriptor of the pipe to it.
pub record Process : Type 0 where
  pub pid : ℕ
  pub fd : ℕ

-- The calls of a round in which `fork`, `mkfifo` and `open` succeed.
abbrev pub good_calls : Process → Calls
good_calls f = record { forked = some f.pid; present = false; made = true; fd = some f.fd }

abbrev pub all_calls : List Process → List Calls
all_calls [] = []
all_calls (f ∷ fs) = good_calls f ∷ all_calls fs

-- The block at an address holds an entry together with its client process.
abbrev pub IsClient : Blocks → Ptr → Entry → Process → Type 0
IsClient bs p e f =
    (c : CoapIp) × (bs p ≡ some c)
    × (c_string c.ip ≡ e.ip)
    × (c_string c.path ≡ e.path)
    × (c.pid ≡ f.pid)
    × (c.fifo_fd ≡ f.fd)

abbrev pub Serves : Blocks → List Ptr → List Entry → List Process → Type 0
Serves bs (p ∷ ps) (e ∷ es) (f ∷ fs) = IsClient bs p e f × Serves bs ps es fs
Serves bs [] [] [] = Unit {0}
Serves bs _ _ _ = ⊥

-- What is done for the processes, in order.
abbrev pub creations : List Process → List Event
creations [] = []
creations (f ∷ fs) = fork_of f.pid ∷ open_of (fifo_text f.pid) ∷ creations fs

connect-client :
    (s : Clients) (p : Ptr) (f : Process) (rest : List Calls) (c : CoapIp)
    → s.blocks p ≡ some c
    → connect s p f.pid (good_calls f) rest
      ≡ ok (record {
        blocks = put_block s.blocks p (some (record c { pid = f.pid; fifo_fd = f.fd }));
        calls = rest;
        log = s.log ++ (fork_of f.pid ∷ open_of (fifo_text f.pid) ∷ []);
      })
unfolding connect load_block
connect-client s p f rest c here =
    let (name, e, text) = getfifo_name-fifo_text {E = Exit} (replicate 64 0) f.pid refl in
    rw (e, load_block, here, text)

-- Blocks at other addresses stay.
Holds-frame :
    (bs : Blocks) (p : Ptr) (c : CoapIp) (ps : List Ptr) (es : List Entry)
    → All (λ q. q ≢ p) ps
    → Holds bs ps es
    → Holds (put_block bs p (some c)) ps es
Holds-frame bs p c [] [] a h = tt
Holds-frame bs p c [] (e ∷ es) a h = h
Holds-frame bs p c (q ∷ ps) [] a h = h
Holds-frame bs p c (q ∷ ps) (e ∷ es) (ne, a) ((d, here, ip, path), h) =
    ((d, rw (==_false q p ne) here, ip, path), Holds-frame bs p c ps es a h)

for_each-create_client :
    (ps : List Ptr) (es : List Entry) (fs : List Process) (bs : Blocks) (log : List Event)
    → Holds bs ps es
    → AreApart ps
    → length fs ≡ length es
    → (t : Blocks) × (for_each create_client ps
          (record { blocks = bs; calls = all_calls fs; log = log })
        ≡ ok (record { blocks = t; calls = []; log = log ++ creations fs }))
      × Serves t ps es fs
      × ((q : Ptr) → All (λ p. q ≢ p) ps → t q ≡ bs q)
unfolding create_client
for_each-create_client [] [] [] bs log h a n = (bs, rw (append-nil log), tt, λ q out. refl)
for_each-create_client [] [] (f ∷ fs) bs log h a n = absurd (omega (arith, n))
for_each-create_client [] (e ∷ es) fs bs log h a n = absurd h
for_each-create_client (p ∷ ps) [] fs bs log h a n = absurd h
for_each-create_client (p ∷ ps) (e ∷ es) [] bs log h a n = absurd (omega (arith, n))
for_each-create_client (p ∷ ps) (e ∷ es) (f ∷ fs) bs log ((c, here, ip, path), h) (out, a) n =
    let c' : CoapIp = record c { pid = f.pid; fifo_fd = f.fd } in
    let bs' = put_block bs p (some c') in
    let log' = log ++ (fork_of f.pid ∷ open_of (fifo_text f.pid) ∷ []) in
    let (t, run, s, same) =
      for_each-create_client ps es fs bs' log' (Holds-frame bs p c' ps es out h) a
        (omega (arith, n)) in
    let made : t p ≡ some c' = same p (away ps p out) ∙ rw (==_true p p refl) in
    (
      t,
      rw (
        connect-client (record { blocks = bs; calls = all_calls (f ∷ fs); log = log }) p f
            (all_calls fs) c here,
        run,
        append_assoc log (fork_of f.pid ∷ open_of (fifo_text f.pid) ∷ []) (creations fs),
      ),
      ((c', made, ip, path, refl, refl), s),
      λ q (nq, qs). same q qs ∙ rw (==_false q p nq),
    )

-- A gateway whose clients are running: a well-formed list whose blocks hold the entries, each with its
-- own process.
abbrev pub IsServed : Gateway → List Entry → List Process → Type 0
IsServed g es fs =
    (xs : Cells) × IsList g.table.store xs
    × Serves g.table.blocks (data_of xs) es fs
    × AreApart (data_of xs)

pub length-data_of : (xs : Cells) → length (data_of xs) ≡ length xs
length-data_of [] = refl
length-data_of (x ∷ xs) = ap suc (length-data_of xs)

Holds-length :
    (bs : Blocks) (ps : List Ptr) (es : List Entry) → Holds bs ps es → length ps ≡ length es
Holds-length bs [] [] h = refl
Holds-length bs [] (e ∷ es) h = absurd h
Holds-length bs (p ∷ ps) [] h = absurd h
Holds-length bs (p ∷ ps) (e ∷ es) (b, h) = ap suc (Holds-length bs ps es h)

-- With what happens to the elements of the old list.
pub creat_coapclient_lem :
    (fuel : ℕ) (g : Gateway) (xs : Cells) (allocs : List Alloc) (es : List Entry)
    (fs : List Process)
    → IsList g.table.store xs
    → AreFresh g.table allocs
    → AreDistinct allocs
    → All IsEntry es
    → length allocs ≡ suc (length es)
    → length fs ≡ length es
    → length es < fuel
    → (g' : Gateway) × (creat_coapclient fuel g allocs (some (text_of es)) (all_calls fs) ≡ ok g')
      × IsServed g' es fs
      × (g'.log ≡ g.log ++ creations fs)
      × ((q : Ptr)
          → has q xs ≡ true
          → reused_element q allocs ≡ false
          → g'.table.store.heap q ≡ none)
unfolding creat_coapclient
creat_coapclient_lem fuel g xs allocs es fs w fresh d v n m enough =
    let (t, e, (ys, wt, h, a), gone, _) =
      pars_txt_lem fuel g.table xs allocs es w fresh d v n enough in
    let (bs, run, s, same) = for_each-create_client (data_of ys) es fs t.blocks g.log h a m in
    let short : length ys < fuel =
      omega (arith, enough, Holds-length t.blocks (data_of ys) es h, length-data_of ys) in
    let walked =
      walk-for_each create_client fuel t.store ys
        (record { blocks = t.blocks; calls = all_calls fs; log = g.log }) wt short in
    (
      record { table = record t { blocks = bs }; log = g.log ++ creations fs },
      rw (e, walked, run),
      (ys, wt, s, a),
      refl,
      gone,
    )

-- `CreatCoapclient` on a file with one line for each entry, as `ParsTxt` reads it, where all calls
-- succeed: it forks one client for each entry, in the order of the lines, opens the pipe with the name
-- for its process id, and records the process id and the descriptor in the block of this entry. The
-- conditions on the file, the memory and the fuel are those of `ParsTxt`.
pub creat_coapclient-IsServed :
    (fuel : ℕ) (g : Gateway) (xs : Cells) (allocs : List Alloc) (es : List Entry)
    (fs : List Process)
    → IsList g.table.store xs
    → AreFresh g.table allocs
    → AreDistinct allocs
    → All IsEntry es
    → length allocs ≡ suc (length es)
    → length fs ≡ length es
    → length es < fuel
    → (g' : Gateway) × (creat_coapclient fuel g allocs (some (text_of es)) (all_calls fs) ≡ ok g')
      × IsServed g' es fs
      × (g'.log ≡ g.log ++ creations fs)
creat_coapclient-IsServed fuel g xs allocs es fs w fresh d v n m enough =
    let (g', e, served, logged, _) =
      creat_coapclient_lem fuel g xs allocs es fs w fresh d v n m enough in
    (g', e, served, logged)
