-- ===== src/IpTable/Tests.antt =====
-- The table read from concrete files.
use gateway_project.Base.{
  ℕ, ◌≡◌, ◌↔◌, ◌<◌, refl, List, [], ◌∷◌, ◌++◌, length, replicate, none, some, ok, fault, arith,
}
use gateway_project.Base.Text.{codes}
use gateway_project.Comm.LinkedList.{list_init, list_clean, clean_loop, list_rem_next}
use gateway_project.Comm.Heap.{null, elmt, put, load}
use gateway_project.Comm.Cells.{IsList}
use gateway_project.IpTable.Lines.{blank, slash, pars_line}
use gateway_project.IpTable.Table.{Table, Alloc, put_block, clear_table, pars_txt}
use gateway_project.IpTable.Print.{Entry, text_of, IsEntry}
use gateway_project.IpTable.Append.{IsTable, cleared-AreFresh}
use gateway_project.IpTable.RoundTrip.{ElementsFreed, BlocksFreed, pars_txt-text_of}
use gateway_project.IpTable.Ends.{Ends, pars_txt-Ends, pars_line-fault_iff}

abbrev empty : Table
empty = record { store = record { heap = λ a. none; list = list_init }; blocks = λ a. none }

empty-IsList : IsList empty.store []
empty-IsList = record { linked = tt; size = refl; head = refl; tail = refl }

abbrev alloc : ℕ → ℕ → Alloc
alloc block element = record { block = block; element = element; pid = 7; fifo_fd = 9 }

abbrev two_allocs : List Alloc
two_allocs = alloc 10 11 ∷ alloc 20 21 ∷ []

abbrev lamp : Entry
lamp = record { ip = codes "10.0.0.7"; path = codes "light" }

lamp-IsEntry : IsEntry lamp
lamp-IsEntry = record {
  ip = omega arith;
  path = omega arith;
  ip_room = omega arith;
  room = omega arith;
}

lamp_text : text_of (lamp ∷ []) ≡ codes "10.0.0.7/light#\n"
lamp_text = refl

-- A table whose element 11 holds the block 10.
abbrev one_old : Table
one_old = record {
  store = record {
    heap = put (λ a. none) 11 (some (elmt 10 null));
    list = record { size = 1; head = 11; tail = 11 };
  };
  blocks = put_block (λ a. none) 10 (some (blank 1 2));
}

one_old-IsList : IsList one_old.store ((11, 10) ∷ [])
one_old-IsList = record {
  linked = (omega arith, refl, refl, tt);
  size = refl;
  head = refl;
  tail = refl;
}

abbrev one_freed : Table
one_freed = record {
  store = record { heap = put one_old.store.heap 11 none; list = list_init };
  blocks = put_block one_old.blocks 10 none;
}

one_old-cleared : clear_table one_old ≡ ok one_freed
unfolding clear_table list_clean clean_loop list_rem_next load
one_old-cleared = refl

-- The element of the old list comes again, its block does not.
abbrev new_allocs : List Alloc
new_allocs = alloc 30 11 ∷ alloc 20 21 ∷ []

pars_txt-text_of_example :
    (t' : Table) × (pars_txt 2 one_old new_allocs (some (text_of (lamp ∷ []))) ≡ ok t')
    × IsTable t' (lamp ∷ [])
    × ElementsFreed ((11, 10) ∷ []) new_allocs t'
    × BlocksFreed ((11, 10) ∷ []) new_allocs t'
pars_txt-text_of_example =
    pars_txt-text_of 2 one_old ((11, 10) ∷ []) new_allocs (lamp ∷ []) one_old-IsList
      (cleared-AreFresh one_old one_freed new_allocs one_old-cleared
        ((omega arith, omega arith, refl, refl), ((omega arith, omega arith, refl, refl), tt)))
      (((omega arith, omega arith), tt), (tt, tt)) (lamp-IsEntry, tt) refl (omega arith)

pars_txt-Ends_example : Ends (pars_txt 20 empty two_allocs (some (codes "no separator\n/")))
pars_txt-Ends_example =
    pars_txt-Ends 20 empty [] two_allocs (codes "no separator\n/") empty-IsList (omega arith)

abbrev long_ip : List ℕ
long_ip = replicate 65 b'1'

pars_line-fault_iff_example :
    (pars_line (blank 7 9) (long_ip ++ (slash ∷ codes "light#")) ≡ fault) ↔ (64 < length long_ip)
pars_line-fault_iff_example =
    pars_line-fault_iff 7 9 long_ip (codes "light#") (omega arith) (omega arith)
