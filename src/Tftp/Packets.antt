-- ===== src/Tftp/Packets.antt =====
-- The bytes of the packets, and the getters on them.
use gateway_project.Base.{
  ℕ, ◌+◌, ◌*◌, ◌/◌, ◌%◌, ◌≤◌, ◌<◌, ◌≡◌, refl, List, [], ◌∷◌, ◌++◌, drop, length, take-length-append,
  length-append, ◌==◌, ok, ◌>>=◌, deref, arith,
}
use gateway_project.Base.Writes.{copy_in-append}
use gateway_project.Tftp.Messages.{
  decode_op, extract_block, set_opcode, set_block, set_data_message, is_correct_ack, data_packet,
  ack_packet, error_packet, error_string, set_errorcode, set_errormsg,
}

-- A data packet of RFC 1350.
abbrev pub data_bytes : ℕ → List ℕ → List ℕ
data_bytes block bytes = 0 ∷ 3 ∷ (block / 256 % 256) ∷ (block % 256) ∷ bytes

pub data_packet_lem :
    (stack : List ℕ) (block : ℕ) (bytes : List ℕ)
    → 4 + length bytes ≤ length stack
    → data_packet stack block bytes ≡ ok (data_bytes block bytes)
unfolding data_packet set_opcode set_block set_data_message
data_packet_lem [] block bytes h = absurd (omega (arith, h))
data_packet_lem (a ∷ []) block bytes h = absurd (omega (arith, h))
data_packet_lem (a ∷ b ∷ []) block bytes h = absurd (omega (arith, h))
data_packet_lem (a ∷ b ∷ c ∷ []) block bytes h = absurd (omega (arith, h))
data_packet_lem (a ∷ b ∷ c ∷ d ∷ rest) block bytes h =
    let head = 0 ∷ 3 ∷ (block / 256 % 256) ∷ (block % 256) ∷ [] in
    rw (
      copy_in-append (Unit {0}) head rest bytes 4 refl (omega (arith, h)),
      take-length-append (length bytes + 4) (head ++ bytes) (drop (length bytes) rest)
          (omega arith),
    )

pub ack_packet_lem :
    (a b c d : ℕ) (rest : List ℕ) (block : ℕ)
    → ack_packet (a ∷ b ∷ c ∷ d ∷ rest) block
      ≡ ok (0 ∷ 4 ∷ (block / 256 % 256) ∷ (block % 256) ∷ [])
unfolding ack_packet set_opcode set_block
ack_packet_lem a b c d rest block = refl

-- In an array of at least 4 bytes, the ACK packet for a block number below 65536 is accepted by
-- `tftp_is_correct_ack`, whatever follows the packet, exactly if that block number is expected.
pub is_correct_ack-ack_packet :
    (stack rest : List ℕ) (block expected : ℕ)
    → 4 ≤ length stack
    → block < 65536
    → (ack_packet stack block >>= λ packet. is_correct_ack (packet ++ rest) expected)
      ≡ ok (expected == block)
unfolding ack_packet set_opcode set_block is_correct_ack decode_op extract_block deref
is_correct_ack-ack_packet [] rest block expected h k = absurd (omega (arith, h))
is_correct_ack-ack_packet (a ∷ []) rest block expected h k = absurd (omega (arith, h))
is_correct_ack-ack_packet (a ∷ b ∷ []) rest block expected h k = absurd (omega (arith, h))
is_correct_ack-ack_packet (a ∷ b ∷ c ∷ []) rest block expected h k = absurd (omega (arith, h))
is_correct_ack-ack_packet (a ∷ b ∷ c ∷ d ∷ more) rest block expected h k =
    let e : block / 256 % 256 * 256 + block % 256 ≡ block = omega (arith, k) in rw e

-- An error packet of RFC 1350.
abbrev pub error_bytes : ℕ → List ℕ → List ℕ
error_bytes code text = 0 ∷ 5 ∷ 0 ∷ (code % 256) ∷ (text ++ (0 ∷ []))

pub error_packet_lem :
    (stack : List ℕ) (code : ℕ) (text : List ℕ)
    → error_string code ≡ ok text
    → 5 + length text ≤ length stack
    → error_packet stack code ≡ ok (error_bytes code text)
unfolding error_packet set_opcode set_errorcode set_errormsg
error_packet_lem [] code text e h = absurd (omega (arith, h))
error_packet_lem (a ∷ []) code text e h = absurd (omega (arith, h))
error_packet_lem (a ∷ b ∷ []) code text e h = absurd (omega (arith, h))
error_packet_lem (a ∷ b ∷ c ∷ []) code text e h = absurd (omega (arith, h))
error_packet_lem (a ∷ b ∷ c ∷ d ∷ rest) code text e h =
    let head = 0 ∷ 5 ∷ 0 ∷ (code % 256) ∷ [] in
    let whole = text ++ (0 ∷ []) in
    rw (
      e,
      copy_in-append (Unit {0}) head rest whole 4 refl
          (omega (arith, h, length-append text (0 ∷ []))),
      take-length-append (4 + length text + 1) (head ++ whole) (drop (length whole) rest)
          (omega (arith, length-append text (0 ∷ []))),
    )
