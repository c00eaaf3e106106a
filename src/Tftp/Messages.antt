-- ===== src/Tftp/Messages.antt =====
-- The messages of TFTPServer/tftputils.c, and the packets that TFTPServer/tftpserver.c makes of them in
-- an array whose old content is `packet`. A packet is what is sent: the first bytes of the array.
use gateway_project.Base.{
  ℕ, ◌+◌, ◌*◌, ◌/◌, ◌%◌, List, [], ◌∷◌, ◌++◌, take, length, get_elem?, none, some, Bool, false,
  ◌==◌, if◌then◌else◌, Run, ok, fault, ◌>>=◌, deref,
}
use gateway_project.Base.Text.{codes}
use gateway_project.Base.Writes.{poke, copy_in}

abbrev pub Tftp : Type 0 → Type 0
Tftp A = Run (Unit {0}) A

unfoldable pub decode_op : List ℕ → Tftp ℕ
decode_op buf = deref buf 1

unfoldable pub extract_block : List ℕ → Tftp ℕ
extract_block buf = do hi ← deref buf 2; lo ← deref buf 3; ok (hi * 256 + lo)

unfoldable pub set_opcode : List ℕ → ℕ → Tftp (List ℕ)
set_opcode buffer opcode = do b ← poke buffer 0 0; poke b 1 (opcode % 256)

unfoldable pub set_errorcode : List ℕ → ℕ → Tftp (List ℕ)
set_errorcode buffer code = do b ← poke buffer 2 0; poke b 3 (code % 256)

unfoldable pub set_errormsg : List ℕ → List ℕ → Tftp (List ℕ)
set_errormsg buffer errormsg = copy_in buffer 4 (errormsg ++ (0 ∷ []))

unfoldable pub set_block : List ℕ → ℕ → Tftp (List ℕ)
set_block packet block = do p ← poke packet 2 (block / 256 % 256); poke p 3 (block % 256)

unfoldable pub set_data_message : List ℕ → List ℕ → Tftp (List ℕ)
set_data_message packet bytes = copy_in packet 4 bytes

unfoldable pub is_correct_ack : List ℕ → ℕ → Tftp Bool
is_correct_ack buf block = do
  op ← decode_op buf
  received ← extract_block buf
  ok (if op == 4 then block == received else false)

-- `tftp_errorcode_string`
abbrev pub error_strings : List (List ℕ)
error_strings =
    codes "not defined"
    ∷ codes "file not found"
    ∷ codes "access violation"
    ∷ codes "disk full"
    ∷ codes "illegal operation"
    ∷ codes "unknown transfer id"
    ∷ codes "file already exists"
    ∷ codes "no such user"
    ∷ []

unfoldable pub error_string : ℕ → Tftp (List ℕ)
error_string code = elim (get_elem? error_strings code) [ none ↦ fault | some text ↦ ok text ]

unfoldable pub error_packet : (packet : List ℕ) → ℕ → Tftp (List ℕ)
error_packet packet code = do
  a ← set_opcode packet 5
  b ← set_errorcode a code
  text ← error_string code
  c ← set_errormsg b text
  ok (take (4 + length text + 1) c)

unfoldable pub data_packet : (packet : List ℕ) → ℕ → List ℕ → Tftp (List ℕ)
data_packet packet block bytes = do
  a ← set_opcode packet 3
  b ← set_block a block
  c ← set_data_message b bytes
  ok (take (length bytes + 4) c)

unfoldable pub ack_packet : (packet : List ℕ) → ℕ → Tftp (List ℕ)
ack_packet packet block = do a ← set_opcode packet 4; b ← set_block a block; ok (take 4 b)
