-- ===== src/Uart.antt =====
-- The reader of the serial line of uart/uart.c, with the statement that sqlite/sqlite.c makes of each
-- frame.
pub mod Reader
pub mod Frames
pub mod Copies
mod Tests
