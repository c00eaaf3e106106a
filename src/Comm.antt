-- ===== src/Comm.antt =====
-- The containers of comm/: the linked list of list.c and the queue of queue.c.
pub mod Heap
pub mod LinkedList
pub mod Cells
pub mod Insert
pub mod Remove
pub mod Queue
pub mod Walk
mod Tests
