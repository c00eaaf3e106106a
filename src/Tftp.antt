-- ===== src/Tftp.antt =====
-- The TFTP server: TFTPServer/tftputils.c and tftpserver.c.
pub mod Messages
pub mod Packets
pub mod Transfer
pub mod Read
pub mod Write
pub mod Request
pub mod Names
pub mod Server
pub mod Wishes
pub mod Session
mod Tests
