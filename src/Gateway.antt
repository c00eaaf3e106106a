-- ===== src/Gateway.antt =====
-- The main program, user/main.c: the processes of the CoAP clients, and the threads that pass the
-- messages on.
pub mod Fifo
pub mod Clients
pub mod Create
pub mod Update
pub mod TableFile
pub mod Threads
pub mod Pending
pub mod Invariant
pub mod Moves
pub mod Delivery
pub mod Safety
pub mod Process
pub mod Readings
pub mod Room
pub mod Progress
pub mod Interrupt
pub mod Main
pub mod Startup
mod Samples
mod Tests
mod ThreadTests
