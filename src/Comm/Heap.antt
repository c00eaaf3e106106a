-- ===== src/Comm/Heap.antt =====
-- The list elements of comm/list.h on an explicit heap. An access through NULL or through an address
-- that holds no element is a fault. Data pointers are numbers.
use gateway_project.Base.{
  ℕ, Option, none, some, ◌==◌, if◌then◌else◌, Run, ok, fault, ◌≡◌, ◌≢◌, arith,
}

abbrev pub Ptr : Type 0
Ptr = ℕ

abbrev pub null : Ptr
null = 0

pub record ListElmt : Type 0 where
  pub data_ptr : ℕ
  pub next : Ptr

abbrev pub elmt : ℕ → Ptr → ListElmt
elmt d q = record { data_ptr = d; next = q }

abbrev pub Heap : Type 0
Heap = Ptr → Option ListElmt

-- The heap after a store of `some` element, or after `free`.
abbrev pub put : Heap → Ptr → Option ListElmt → Heap
put h p c a = if a == p then c else h a

-- `*p`
unfoldable pub load : {E : Type 0} → Heap → Ptr → Run E ListElmt
load h p = if p == null then fault else elim (h p) [ none ↦ fault | some e ↦ ok e ]

pub load-ok :
    {E : Type 0} (h : Heap) (p : Ptr) (e : ListElmt)
    → p ≢ null
    → h p ≡ some e
    → load {E = E} h p ≡ ok e
unfolding load
load-ok h p e ne hp = ground arith
