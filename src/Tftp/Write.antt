-- ===== src/Tftp/Write.antt =====
-- What a write request does, branch by branch.
use gateway_project.Base.{
  ℕ, suc, ◌/◌, ◌%◌, ◌≤◌, ◌<◌, ◌≡◌, List, [], ◌∷◌, take, length, true, false, none, some, ok, arith,
  lt→ltb, ==_false, deref,
}
use gateway_project.Tftp.Messages.{extract_block, ack_packet}
use gateway_project.Tftp.Packets.{data_bytes, ack_packet_lem}
use gateway_project.Tftp.Transfer.{
  closed, freed, fclose, free, cleanup, load_args, store_block, finish_write, process_write,
}

-- An ACK packet of RFC 1350.
abbrev pub ack_bytes : ℕ → List ℕ
ack_bytes block = 0 ∷ 4 ∷ (block / 256 % 256) ∷ (block % 256) ∷ []

ack_packet-take :
    (stack : List ℕ) (block : ℕ)
    → 4 ≤ length stack
    → ack_packet (take 4 stack) block ≡ ok (ack_bytes block)
ack_packet-take [] block h = absurd (omega (arith, h))
ack_packet-take (a ∷ []) block h = absurd (omega (arith, h))
ack_packet-take (a ∷ b ∷ []) block h = absurd (omega (arith, h))
ack_packet-take (a ∷ b ∷ c ∷ []) block h = absurd (omega (arith, h))
ack_packet-take (a ∷ b ∷ c ∷ d ∷ rest) block h = ack_packet_lem a b c d [] block

-- A write request for which the file opens and there is memory, and whose first data packet holds block
-- 1 with 1 to 511 bytes that `fwrite` stores all, leaves exactly these bytes in the closed file,
-- acknowledges the blocks 0 and 1, releases everything and signals the parent.
pub process_write-data_bytes :
    (stack : List ℕ) (put : List ℕ → List ℕ) (bytes : List ℕ)
    → length stack ≡ 516
    → put bytes ≡ bytes
    → 0 < length bytes
    → length bytes < 512
    → process_write stack put true true (some (data_bytes 1 bytes))
      ≡ ok (
        record {
          file = closed bytes;
          args = freed;
          sock_open = false;
          sent = ack_bytes 0 ∷ ack_bytes 1 ∷ [];
        },
        true,
      )
unfolding process_write finish_write store_block extract_block load_args cleanup fclose free deref
process_write-data_bytes stack put bytes n all some_bytes short = rw (
  ack_packet-take stack 0 (omega (arith, n)),
  lt→ltb 4 (suc (suc (suc (suc (length bytes))))) (omega (arith, some_bytes)),
  all,
  ==_false (length bytes) 0 (omega (arith, some_bytes)),
  ack_packet-take stack 1 (omega (arith, n)),
  lt→ltb (suc (suc (suc (suc (length bytes))))) 516 (omega (arith, short)),
)

-- A write request for which the file opens and there is memory, and for which `recvfrom` gives -1 in
-- place of a data packet, acknowledges block 0 twice, leaves the file empty, releases everything, and signals the
-- parent all the same.
pub process_write-none :
    (stack : List ℕ) (put : List ℕ → List ℕ)
    → length stack ≡ 516
    → process_write stack put true true none
      ≡ ok (
        record {
          file = closed [];
          args = freed;
          sock_open = false;
          sent = ack_bytes 0 ∷ ack_bytes 0 ∷ [];
        },
        true,
      )
unfolding process_write finish_write load_args cleanup fclose free
process_write-none stack put n = rw (ack_packet-take stack 0 (omega (arith, n)))
