-- ===== src/Tftp/Tests.antt =====
-- The theorems on concrete requests.
use gateway_project.Base.{
  ℕ, ◌≡◌, refl, List, [], ◌∷◌, map, All, Option, replicate, true, false, none, some, ok, fault,
  deref, arith, inl,
}
use gateway_project.Base.Text.{codes, same}
use gateway_project.Tftp.Messages.{is_correct_ack, decode_op, extract_block}
use gateway_project.Tftp.Packets.{data_bytes}
use gateway_project.Tftp.Transfer.{closed, freed, received, process_read, process_write}
use gateway_project.Tftp.Request.{Host, Handled, process_tftp_request}
use gateway_project.Tftp.Names.{request_bytes, process_tftp_request_fault}
use gateway_project.Tftp.Server.{Files, put_file, Round, tftpd_init}
use gateway_project.Tftp.Wishes.{
  Wish, upload, download, run_files, Works, AreRounds, no_rounds, then_round,
}
use gateway_project.Tftp.Session.{sent_of, IsReleased, tftpd_init-run_files}
use gateway_project.Tftp.Read.{process_read-data_bytes}
use gateway_project.Tftp.Write.{ack_bytes, process_write-none}

abbrev stack : List ℕ
stack = replicate 516 170

abbrev good_ack : List ℕ
good_ack = 0 ∷ 4 ∷ 0 ∷ 1 ∷ []

good_ack_accepted : is_correct_ack (received good_ack) 1 ≡ ok true
unfolding is_correct_ack decode_op extract_block deref
good_ack_accepted = refl

process_read-data_bytes_example :
    process_read stack true (some (codes "10.0.0.1/light#")) true (some good_ack)
    ≡ ok (record {
      file = closed (codes "10.0.0.1/light#");
      args = freed;
      sock_open = false;
      sent = data_bytes 1 (codes "10.0.0.1/light#") ∷ [];
    })
process_read-data_bytes_example =
    process_read-data_bytes stack true (codes "10.0.0.1/light#") good_ack refl good_ack_accepted

process_write-none_example :
    process_write stack (λ b. b) true true none
    ≡ ok (
      record {
        file = closed [];
        args = freed;
        sock_open = false;
        sent = ack_bytes 0 ∷ ack_bytes 0 ∷ [];
      },
      true,
    )
process_write-none_example = process_write-none stack (λ b. b) refl

abbrev host : Host
host = record {
  made = true;
  bound = true;
  readable = λ name. none;
  writable = λ name. true;
  memory = true;
  spare = true;
  put = λ b. b;
  answer = none;
  stack = stack;
  name_stack = replicate 30 170;
}

process_tftp_request_fault_example :
    process_tftp_request host (request_bytes 1 (replicate 30 97) (replicate 990 0)) ≡ fault
process_tftp_request_fault_example =
    process_tftp_request_fault host 1 (replicate 30 97) (replicate 990 0) (inl refl) refl refl refl
      (omega arith) (omega arith)

abbrev no_files : Files
no_files name = none

abbrev table_name : List ℕ
table_name = codes "IPtable.txt"

abbrev table_text : List ℕ
table_text = codes "10.0.0.1/light#"

abbrev answered : List ℕ → Host
answered bytes = record host { answer = some bytes }

answered-Works : (bytes : List ℕ) → Works (answered bytes) table_name
answered-Works bytes = record {
  made = refl;
  bound = refl;
  memory = refl;
  stack = refl;
  name_stack = refl;
  no_nul = omega arith;
  short_name = omega arith;
}

-- The request of an operation, with the mode `octet`, and the packet that comes after it.
abbrev round_of : (op : ℕ) → (answer : List ℕ) → Round
round_of op answer = record {
  host = answered answer;
  buffer = [];
  datagram = some (request_bytes op table_name (codes "octet"));
}

-- A table is written, and read back.
abbrev two_rounds : List Round
two_rounds = round_of 2 (data_bytes 1 table_text) ∷ round_of 1 (ack_bytes 1) ∷ []

abbrev two_wishes : List Wish
two_wishes = upload table_name table_text ∷ download table_name ∷ []

read_back : put_file no_files table_name table_text table_name ≡ some table_text
unfolding put_file same
read_back = refl

two_rounds-AreRounds : AreRounds no_files two_rounds two_wishes
two_rounds-AreRounds =
    then_round _ _ _ _ _
      (record {
        works = answered-Works (data_bytes 1 table_text);
        writable = refl;
        put = refl;
        answer = refl;
        some_bytes = omega arith;
        one_block = omega arith;
        mode = codes "octet";
        request = refl;
      })
      (then_round _ _ _ _ _
        (record {
          works = answered-Works (ack_bytes 1);
          spare = refl;
          text = table_text;
          present = read_back;
          one_block = omega arith;
          answer = refl;
          mode = codes "octet";
          request = refl;
        })
        (no_rounds _))

tftpd_init-run_files_example :
    (done : List (Option Handled)) × (tftpd_init true true no_files two_rounds
      ≡ ok (run_files no_files two_wishes, done))
    × (map sent_of done ≡ (ack_bytes 0 ∷ ack_bytes 1 ∷ []) ∷ (data_bytes 1 table_text ∷ []) ∷ [])
    × All IsReleased done
unfolding put_file same
tftpd_init-run_files_example =
    tftpd_init-run_files no_files two_rounds two_wishes two_rounds-AreRounds
