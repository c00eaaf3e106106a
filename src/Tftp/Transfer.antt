-- ===== src/Tftp/Transfer.antt =====
-- `tftp_process_read` and `tftp_process_write` of TFTPServer/tftpserver.c. The state has the file handle,
-- the connection block on the heap, the socket, and the packets that were sent; a close of a handle
-- that is not open, and a use of the connection block after it was freed, are faults. What the library
-- calls give is an argument: the file's content, whether `malloc` succeeds, and the answer of
-- at most 1024 bytes that `recvfrom` stores. `stack` is the old
-- content of the packet arrays, which have 512, 516 and 4 bytes.
use gateway_project.Base.{
  ℕ, ◌+◌, ◌-◌, List, [], ◌∷◌, ◌++◌, take, drop, length, replicate, Bool, true, false, Option, none,
  some, ltb, ◌==◌, if◌then◌else◌, ok, fault, ◌>>=◌,
}
use gateway_project.Tftp.Messages.{
  Tftp, extract_block, is_correct_ack, error_packet, data_packet, ack_packet,
}

-- `file`: not opened, open with the content that was written, or closed.
pub data FileHandle : Type 0 where
  null_file : FileHandle
  opened : List ℕ → FileHandle
  closed : List ℕ → FileHandle

-- `args`: NULL, a live block with its `block` and `data_len`, or freed.
pub data Args : Type 0 where
  null_args : Args
  live : (block data_len : ℕ) → Args
  freed : Args

pub record Conn : Type 0 where
  pub file : FileHandle
  pub args : Args
  pub sock_open : Bool
  pub sent : List (List ℕ)

unfoldable pub fclose : FileHandle → Tftp FileHandle
fclose null_file = fault
fclose (opened text) = ok (closed text)
fclose (closed text) = fault

unfoldable pub free : Args → Tftp Args
free null_args = ok null_args
free (live block data_len) = ok freed
free freed = fault

-- `tftp_cleanup_rd` and `tftp_cleanup_wr`, which are the same.
unfoldable pub cleanup : Conn → Tftp Conn
cleanup c = do
  file ← fclose c.file
  args ← free c.args
  ok (record { file = file; args = args; sock_open = false; sent = c.sent })

abbrev pub send : Conn → List ℕ → Conn
send c packet = record {
  file = c.file;
  args = c.args;
  sock_open = c.sock_open;
  sent = c.sent ++ (packet ∷ []);
}

abbrev pub with_args : Conn → Args → Conn
with_args c args = record { file = c.file; args = args; sock_open = c.sock_open; sent = c.sent }

-- `args->block` and `args->data_len`
unfoldable pub load_args : Conn → Tftp (ℕ × ℕ)
load_args c = elim c.args [
  | null_args ↦ fault
  | live block data_len ↦ ok (block, data_len)
  | freed ↦ fault
]

abbrev pub fresh_conn : FileHandle → Conn
fresh_conn file = record { file = file; args = null_args; sock_open = true; sent = [] }

-- What `tftpRecvBuffer` holds after an answer was received into the cleared buffer.
abbrev pub received : List ℕ → List ℕ
received answer = answer ++ replicate (1024 - length answer) 0

unfoldable pub send_error : (stack : List ℕ) → Conn → ℕ → Tftp Conn
send_error stack c code = do packet ← error_packet (take 512 stack) code; ok (send c packet)

-- After the answer of the client: the cleanup, and the test of the length.
unfoldable pub finish_read : Conn → Bool → Tftp Conn
finish_read c correct = do
  a ← load_args c
  b ← (if correct then ok (with_args c (live (a.0 + 1) a.1)) else cleanup c)
  d ← load_args b
  if ltb d.1 512 then cleanup b else ok b

-- `recvfrom` with `&to` as the place for the address of the sender, 16 bytes: the variable `to` is a
-- pointer of 8 bytes, so an answer is stored over what stands behind it. `spare` says that no variable
-- stands in the bytes there; the variable `to` itself is not used afterwards.
unfoldable pub store_address : (spare : Bool) → (answer : Option (List ℕ)) → Tftp (Unit {0})
store_address spare none = ok tt
store_address true (some answer) = ok tt
store_address false (some answer) = fault

abbrev pub answer_bytes : Option (List ℕ) → List ℕ
answer_bytes none = []
answer_bytes (some bytes) = bytes

-- `none` is an error of `recvfrom`.
unfoldable pub process_read :
    (stack : List ℕ) (spare : Bool) (file : Option (List ℕ)) (memory : Bool)
    (answer : Option (List ℕ))
    → Tftp Conn
process_read stack spare none memory answer = do
  c ← send_error stack (fresh_conn null_file) 1
  cleanup c
process_read stack spare (some text) false answer = do
  c ← send_error stack (fresh_conn (opened text)) 0
  cleanup c
process_read stack spare (some text) true answer = do
  packet ← data_packet stack 1 (take 512 text)
  stored ← store_address spare answer
  correct ← is_correct_ack (received (answer_bytes answer)) 1
  finish_read (with_args (send (fresh_conn (opened text)) packet) (live 1 (length (take 512 text))))
      correct

-- The state after a write, and whether the parent was signalled.
unfoldable pub finish_write : (stack : List ℕ) → Conn → (recvn : Option ℕ) → Tftp (Conn × Bool)
finish_write stack c recvn = do
  a ← load_args c
  packet ← ack_packet (take 4 stack) a.0
  d ← (elim recvn [
    | none ↦ cleanup (send c packet)
    | some n ↦ if ltb n 516 then cleanup (send c packet) else ok (send c packet)
  ])
  ok (d, true)

-- `put` is what `fwrite` stores of the bytes that it is given.
unfoldable pub store_block :
    (stack : List ℕ) (put : List ℕ → List ℕ) → Conn → (bytes : List ℕ) → Tftp Conn
store_block stack put c bytes = do
  written ← ok (put bytes)
  d ←
      (if length written == 0
        then (do e ← send_error stack c 1; cleanup e)
        else ok (record {
          file = opened written;
          args = c.args;
          sock_open = c.sock_open;
          sent = c.sent;
        }))
  a ← load_args d
  ok (with_args d (live (a.0 + 1) a.1))

-- The result of `recvfrom`: `none` stands for -1. No time limit is set, since SO_RCVTIMEO gets a value
-- of another type, so this is an error, such as a signal that interrupts the wait.
unfoldable pub process_write :
    (stack : List ℕ) (put : List ℕ → List ℕ) (openable memory : Bool) (answer : Option (List ℕ))
    → Tftp (Conn × Bool)
process_write stack put false memory answer = do
  c ← send_error stack (fresh_conn null_file) 1
  d ← cleanup c
  ok (d, false)
process_write stack put true false answer = do
  c ← send_error stack (fresh_conn (opened [])) 0
  d ← cleanup c
  ok (d, false)
process_write stack put true true none = do
  packet ← ack_packet (take 4 stack) 0
  finish_write stack (with_args (send (fresh_conn (opened [])) packet) (live 0 0)) none
process_write stack put true true (some answer) = do
  packet ← ack_packet (take 4 stack) 0
  let c = with_args (send (fresh_conn (opened [])) packet) (live 0 0) in
      (do
        block ← extract_block (received answer)
        d ←
            (if block == 1
              then (if ltb 4 (length answer)
                  then store_block stack put c (drop 4 answer)
                  else ok (with_args c (live 1 0)))
              else ok c)
        finish_write stack d (some (length answer)))
