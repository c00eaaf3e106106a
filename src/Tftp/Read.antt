-- ===== src/Tftp/Read.antt =====
-- What a read request does, branch by branch.
use gateway_project.Base.{
  ℕ, ◌≤◌, ◌≡◌, refl, List, [], ◌∷◌, take, length, length-take, take_all, Bool, true, false, not,
  Option, some, ltb, if◌then◌else◌, ok, fault, arith, ltb-false, lt→ltb, dec_lt,
}
use gateway_project.Base.Text.{codes}
use gateway_project.Tftp.Messages.{is_correct_ack, error_string}
use gateway_project.Tftp.Packets.{data_bytes, data_packet_lem, error_bytes, error_packet_lem}
use gateway_project.Tftp.Transfer.{
  opened, closed, null_args, live, freed, fclose, free, cleanup, load_args, received, send_error,
  finish_read, process_read, store_address,
}

length-block : (text : List ℕ) → length (take 512 text) ≤ 512
length-block text = omega (arith, length-take 512 text)

-- With a file and memory, and an answer that `tftp_is_correct_ack` accepts for block 1, a read request
-- sends one packet, the first 512 bytes of the file as block 1. If a variable stands in the bytes behind
-- `to`, the address of the answer is written over it. If not, and the file has fewer than 512 bytes,
-- everything is released afterwards; for a longer file the handler returns without sending the rest,
-- with the file and the socket open and the connection block allocated.
pub process_read-data_bytes :
    (stack : List ℕ) (spare : Bool) (text answer : List ℕ)
    → length stack ≡ 516
    → is_correct_ack (received answer) 1 ≡ ok true
    → process_read stack spare (some text) true (some answer) ≡ (
        if not spare
        then fault
        else ok (
            if ltb (length text) 512
            then (record {
              file = closed text;
              args = freed;
              sock_open = false;
              sent = data_bytes 1 text ∷ [];
            })
            else (record {
              file = opened text;
              args = live 2 512;
              sock_open = true;
              sent = data_bytes 1 (take 512 text) ∷ [];
            })))
unfolding process_read finish_read load_args cleanup fclose free store_address
process_read-data_bytes stack false text answer n ack =
    rw (data_packet_lem stack 1 (take 512 text) (omega (arith, n, length-block text)))
process_read-data_bytes stack true text answer n ack = elim (dec_lt (length text) 512) [
  | yes small ↦ rw (
    data_packet_lem stack 1 (take 512 text) (omega (arith, n, length-block text)),
    ack,
    take_all 512 text (omega (arith, small)),
    lt→ltb (length text) 512 small,
  )
  | no big ↦
      let whole : length (take 512 text) ≡ 512 = omega (arith, big, length-take 512 text) in
      rw (
        data_packet_lem stack 1 (take 512 text) (omega (arith, n, length-block text)),
        ack,
        whole,
        ltb-false (length text) 512 (omega (arith, big)),
      )
]

-- If there is no memory for the connection block, a read request answers with the error `not defined`
-- and releases the file and the socket.
pub process_read-error_bytes :
    (stack : List ℕ) (spare : Bool) (text : List ℕ) (answer : Option (List ℕ))
    → length stack ≡ 516
    → process_read stack spare (some text) false answer
      ≡ ok (record {
        file = closed text;
        args = null_args;
        sock_open = false;
        sent = error_bytes 0 (codes "not defined") ∷ [];
      })
unfolding process_read send_error cleanup fclose free error_string
process_read-error_bytes stack spare text answer n = rw (
    error_packet_lem (take 512 stack) 0 (codes "not defined") refl
      (omega (arith, n, length-take 512 stack)))
