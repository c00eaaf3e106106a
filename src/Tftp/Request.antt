-- ===== src/Tftp/Request.antt =====
-- A request on the main socket: `tftpd_init` and `process_tftp_request` of TFTPServer/tftpserver.c. What
-- the system calls give is an argument.
use gateway_project.Base.{
  ℕ, List, [], ◌∷◌, ◌++◌, take, drop, length, Bool, false, not, Option, none, some, ◌==◌,
  if◌then◌else◌, ok, ◌>>=◌,
}
use gateway_project.Base.Text.{c_string, string_at}
use gateway_project.Base.Writes.{copy_in}
use gateway_project.Tftp.Messages.{Tftp, decode_op, error_packet}
use gateway_project.Tftp.Transfer.{
  null_file, Conn, fresh_conn, send_error, process_read, process_write,
}

-- `strcpy` of the string that begins behind the opcode.
unfoldable pub extract_filename : (fname buf : List ℕ) → Tftp (List ℕ)
extract_filename fname buf = do text ← string_at (drop 2 buf); copy_in fname 0 (text ++ (0 ∷ []))

-- Whether the second socket is made and bound; what `fopen` gives for a name, to read and to write;
-- whether `malloc` succeeds; `spare` of `store_address`; what `fwrite` stores; the answer of the client, if one comes; and the old
-- content of the packet arrays and of `FileName`.
pub record Host : Type 0 where
  pub made : Bool
  pub bound : Bool
  pub readable : List ℕ → Option (List ℕ)
  pub writable : List ℕ → Bool
  pub memory : Bool
  pub spare : Bool
  pub put : List ℕ → List ℕ
  pub answer : Option (List ℕ)
  pub stack : List ℕ
  pub name_stack : List ℕ

-- The second socket with its file, the name that was opened, what was sent on the main socket, and
-- whether the parent was signalled.
pub record Handled : Type 0 where
  pub conn : Option Conn
  pub name : Option (List ℕ)
  pub main_sent : List (List ℕ)
  pub signalled : Bool

unfoldable pub read_request : Host → (pkt_buf : List ℕ) → Tftp Handled
read_request h pkt_buf = do
  fname ← extract_filename h.name_stack pkt_buf
  c ← process_read h.stack h.spare (h.readable (c_string fname)) h.memory h.answer
  ok (record { conn = some c; name = some (c_string fname); main_sent = []; signalled = false })

unfoldable pub write_request : Host → (pkt_buf : List ℕ) → Tftp Handled
write_request h pkt_buf = do
  fname ← extract_filename h.name_stack pkt_buf
  r ← process_write h.stack h.put (h.writable (c_string fname)) h.memory h.answer
  ok (record { conn = some (r.0); name = some (c_string fname); main_sent = []; signalled = r.1 })

-- The default case of the switch.
unfoldable pub unknown_request : Host → Tftp Handled
unknown_request h = do
  c ← send_error h.stack (fresh_conn null_file) 2
  ok (record {
    conn = some (record c { sock_open = false });
    name = none;
    main_sent = [];
    signalled = false;
  })

-- Without a second socket the error goes to the main one; if it is not bound it stays open.
unfoldable pub no_socket : Host → Tftp Handled
no_socket h = do
  packet ← error_packet (take 512 h.stack) 0
  ok (record { conn = none; name = none; main_sent = packet ∷ []; signalled = false })

abbrev pub not_bound : Handled
not_bound = record {
  conn = some (fresh_conn null_file);
  name = none;
  main_sent = [];
  signalled = false;
}

unfoldable pub process_tftp_request : Host → (pkt_buf : List ℕ) → Tftp Handled
process_tftp_request h pkt_buf = do
  op ← decode_op pkt_buf
  (if not h.made
      then no_socket h
      else if not h.bound
      then ok not_bound
      else if op == 1
      then read_request h pkt_buf
      else if op == 2
      then write_request h pkt_buf
      else unknown_request h)

-- One round of the loop; `buffer` is the old content of `tftpRecvBuffer`, and a datagram of 0 bytes or
-- an error is passed over.
unfoldable pub tftpd_round : Host → (buffer : List ℕ) → Option (List ℕ) → Tftp (Option Handled)
tftpd_round h buffer none = ok none
tftpd_round h buffer (some []) = ok none
tftpd_round h buffer (some (b ∷ bs)) = do
  r ← process_tftp_request h ((b ∷ bs) ++ drop (length (b ∷ bs)) buffer)
  ok (some r)
