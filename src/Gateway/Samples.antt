-- ===== src/Gateway/Samples.antt =====
-- A table with one client, and what a round of the allocations and calls gives.
use gateway_project.Base.{ℕ, refl, [], ◌∷◌, ◌++◌, none, some, replicate, arith}
use gateway_project.Base.Text.{codes}
use gateway_project.Comm.Heap.{null, elmt, put}
use gateway_project.Comm.LinkedList.{list_init}
use gateway_project.Comm.Cells.{IsList}
use gateway_project.IpTable.Lines.{CoapIp}
use gateway_project.IpTable.Table.{put_block, Alloc}
use gateway_project.IpTable.Print.{Entry, IsEntry}
use gateway_project.Gateway.Clients.{Gateway}
use gateway_project.Gateway.Create.{Process}

abbrev pub no_blocks : Gateway
no_blocks = record {
  table = record { store = record { heap = λ a. none; list = list_init }; blocks = λ a. none };
  log = [];
}

abbrev pub alloc : ℕ → ℕ → Alloc
alloc block element = record { block = block; element = element; pid = 7; fifo_fd = 9 }

abbrev pub lamp : Entry
lamp = record { ip = codes "10.0.0.7"; path = codes "light" }

pub lamp-IsEntry : IsEntry lamp
lamp-IsEntry = record {
  ip = omega arith;
  path = omega arith;
  ip_room = omega arith;
  room = omega arith;
}

abbrev pub process : ℕ → ℕ → Process
process pid fd = record { pid = pid; fd = fd }

abbrev pub one_block : CoapIp
one_block = record {
  coap_socket = 0;
  path = codes "light" ++ replicate 123 0;
  ip = codes "10.0.0.7" ++ (0 ∷ []);
  pid = 4711;
  fifo_fd = 5;
}

-- A table with one client: the element 11 holds the block 10.
abbrev pub one_client : Gateway
one_client = record {
  table = record {
    store = record {
      heap = put (λ a. none) 11 (some (elmt 10 null));
      list = record { size = 1; head = 11; tail = 11 };
    };
    blocks = put_block (λ a. none) 10 (some one_block);
  };
  log = [];
}

pub one_client-IsList : IsList one_client.table.store ((11, 10) ∷ [])
one_client-IsList = record {
  linked = (omega arith, refl, refl, tt);
  size = refl;
  head = refl;
  tail = refl;
}
