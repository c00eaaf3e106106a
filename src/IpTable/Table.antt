-- ===== src/IpTable/Table.antt =====
-- `ParsTxt` of iptable/coap_iptable.c: the list `iplist`, and the blocks of type `coapIP` that its data
-- pointers point to.
use gateway_project.Base.{
  ℕ, zero, suc, List, [], ◌∷◌, Bool, true, false, Option, none, some, ltb, ◌==◌, if◌then◌else◌, Run,
  ok, err, fault, out_of_fuel, ◌>>=◌,
}
use gateway_project.Comm.Heap.{Ptr, null}
use gateway_project.Comm.LinkedList.{Store, list_append, list_clean}
use gateway_project.IpTable.Lines.{CoapIp, Exit, exit_failure, fgets, blank, pars_line}

abbrev pub Blocks : Type 0
Blocks = Ptr → Option CoapIp

abbrev pub put_block : Blocks → Ptr → Option CoapIp → Blocks
put_block bs p c a = if a == p then c else bs a

pub record Table : Type 0 where
  pub store : Store
  pub blocks : Blocks

-- What the calls of `malloc` return in one round: for the block, and for the list element. The block is
-- not initialised, and keeps the values `pid` and `fifo_fd`.
pub record Alloc : Type 0 where
  pub block : Ptr
  pub element : Ptr
  pub pid : ℕ
  pub fifo_fd : ℕ

-- The result of `list_append` is not looked at.
unfoldable pub append_block : Table → (block element : Ptr) → Run Exit Table
append_block t block element = elim (list_append element t.store block) [
  | ok s ↦ ok (record t { store = s })
  | err e ↦ ok t
  | fault ↦ fault
  | out_of_fuel ↦ out_of_fuel
]

-- One round of the loop, with the line that `fgets` read; none is NULL.
unfoldable pub read_round : Table → Alloc → Option (List ℕ) → Run Exit Table
read_round t a line = if a.block == null then err exit_failure else (elim line [
  | none ↦ ok (record t { blocks = put_block t.blocks a.block (some (blank a.pid a.fifo_fd)) })
  | some s ↦ do
    parsed ← pars_line (blank a.pid a.fifo_fd) s
    let t' : Table = record t { blocks = put_block t.blocks a.block (some parsed.entry) }
    if parsed.complete then append_block t' a.block a.element else ok t'
])

-- The pointer that `fgets` returns, as its line.
abbrev pub fgets_result : List ℕ → Option (List ℕ)
fgets_result [] = none
fgets_result (b ∷ bs) = some (b ∷ bs)

-- The loop over the file: `feof` is true only after a read met the end. A round that has no entry in the
-- list of the allocations gets NULL.
unfoldable pub read_rounds : (fuel : ℕ) → Table → List Alloc → List ℕ → Bool → Run Exit Table
read_rounds fuel t allocs file true = ok t
read_rounds zero t allocs file false = out_of_fuel
read_rounds (suc fuel) t [] file false = err exit_failure
read_rounds (suc fuel) t (a ∷ allocs) file false =
    let got = fgets 127 file in
    do t' ← read_round t a (fgets_result got.line); read_rounds fuel t' allocs got.rest got.eof

-- `free` of each data pointer.
abbrev pub free_blocks : Blocks → List Ptr → Blocks
free_blocks bs [] = bs
free_blocks bs (p ∷ ps) = free_blocks (put_block bs p none) ps

unfoldable pub clear_table : Table → Run Exit Table
clear_table t =
    if ltb 0 t.store.list.size
    then (elim (list_clean true t.store) [
      | ok c ↦ ok (record { store = c.store; blocks = free_blocks t.blocks c.destroyed })
      | err e ↦ ok t
      | fault ↦ fault
      | out_of_fuel ↦ out_of_fuel
    ])
    else ok t

-- `file` is the content of IPtable.txt, if `fopen` succeeds.
unfoldable pub pars_txt : (fuel : ℕ) → Table → List Alloc → Option (List ℕ) → Run Exit Table
pars_txt fuel t allocs file = do
  t' ← clear_table t
  elim file [ none ↦ err exit_failure | some text ↦ read_rounds fuel t' allocs text false ]
