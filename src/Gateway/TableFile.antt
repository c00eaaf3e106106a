-- ===== src/Gateway/TableFile.antt =====
-- A new table on its way: a write request to the TFTP server brings the file IPtable.txt, the signal of
-- the server makes the main program read it, and the clients are started again.
use gateway_project.Base.{
  ℕ, suc, ◌<◌, ◌≡◌, refl, List, [], ◌∷◌, ◌++◌, All, drop, length, true, false, false, Option, none,
  some, ok, arith, deref,
}
use gateway_project.Base.Text.{codes}
use gateway_project.IpTable.Table.{Alloc}
use gateway_project.IpTable.Print.{Entry, text_of, IsEntry}
use gateway_project.IpTable.Append.{AreFresh, AreDistinct}
use gateway_project.Tftp.Messages.{decode_op}
use gateway_project.Tftp.Packets.{data_bytes}
use gateway_project.Tftp.Transfer.{FileHandle, null_file, opened, closed, freed}
use gateway_project.Tftp.Write.{ack_bytes, process_write-data_bytes}
use gateway_project.Tftp.Request.{Host, Handled, write_request, process_tftp_request, tftpd_round}
use gateway_project.Tftp.Names.{request_bytes, extract_filename-c_string}
use gateway_project.Gateway.Clients.{Gateway, update_coapclient}
use gateway_project.Gateway.Create.{Process, all_calls, creations, IsServed}
use gateway_project.Gateway.Update.{removals, update_coapclient-IsServed}

abbrev pub table_name : List ℕ
table_name = codes "IPtable.txt"

-- A host on which the file opens, with memory, and whose client answers with one data packet that is
-- written whole.
pub record Uploads (h : Host) (text : List ℕ) : Type 0 where
  pub made : h.made ≡ true
  pub bound : h.bound ≡ true
  pub writable : h.writable table_name ≡ true
  pub memory : h.memory ≡ true
  pub put : h.put text ≡ text
  pub answer : h.answer ≡ some (data_bytes 1 text)
  pub stack : length h.stack ≡ 516
  pub name_stack : length h.name_stack ≡ 30
  pub some_bytes : 0 < length text
  pub one_block : length text < 512

-- The content that the handler left in its closed file.
abbrev closed_text : FileHandle → Option (List ℕ)
closed_text null_file = none
closed_text (opened text) = none
closed_text (closed text) = some text

abbrev pub file_of : Handled → Option (List ℕ)
file_of r = elim r.conn [ none ↦ none | some c ↦ closed_text c.file ]

tftpd_round-closed :
    (h : Host) (buffer rest text : List ℕ)
    → Uploads h text
    → (r : Handled) × (tftpd_round h buffer (some (request_bytes 2 table_name rest)) ≡ ok (some r))
      × (r.name ≡ some table_name)
      × (r.signalled ≡ true)
      × (file_of r ≡ some text)
unfolding tftpd_round process_tftp_request write_request decode_op deref
tftpd_round-closed h buffer rest text w =
    let tail = rest ++ drop (length (request_bytes 2 table_name rest)) buffer in
    let (a, e, name) =
      extract_filename-c_string h.name_stack table_name tail 2 (omega arith)
        (omega (arith, w.name_stack)) in
    let written =
      process_write-data_bytes h.stack h.put text w.stack w.put w.some_bytes w.one_block in
    (
      record {
        conn = some record {
          file = closed text;
          args = freed;
          sock_open = false;
          sent = ack_bytes 0 ∷ ack_bytes 1 ∷ [];
        };
        name = some table_name;
        main_sent = [];
        signalled = true;
      },
      rw (w.made, w.bound, e, name, w.writable, w.memory, w.answer, written) refl,
      refl,
      refl,
      refl,
    )

-- While clients run, a write request for IPtable.txt whose one data packet holds a table with one line
-- for each entry, 1 to 511 bytes that are all written, ends with the parent signalled; and
-- `UpdateCoapclient` on the file that the request left stops each old client, starts one for each entry
-- of the new table, and leaves a gateway that serves it. The conditions on the host are those of
-- `Uploads`, those on the table, the memory, the calls and the fuel are those of `UpdateCoapclient`; the
-- old content of the receive buffer and the rest of the request do not matter.
pub tftpd_round-update_coapclient :
    (h : Host) (buffer rest : List ℕ) (fuel : ℕ) (g : Gateway) (old es : List Entry)
    (gone fs : List Process) (allocs : List Alloc)
    → Uploads h (text_of es)
    → IsServed g old gone
    → AreFresh g.table allocs
    → AreDistinct allocs
    → All IsEntry es
    → length allocs ≡ suc (length es)
    → length fs ≡ length es
    → length gone < fuel
    → length es < fuel
    → (r : Handled) × (g' : Gateway) × (tftpd_round h buffer
          (some (request_bytes 2 table_name rest))
        ≡ ok (some r))
      × (r.name ≡ some table_name)
      × (r.signalled ≡ true)
      × (update_coapclient fuel g allocs (file_of r) (all_calls fs) ≡ ok g')
      × IsServed g' es fs
      × (g'.log ≡ g.log ++ (removals gone ++ creations fs))
tftpd_round-update_coapclient h buffer rest fuel g old es gone fs allocs up served fresh d v n m
      short enough =
    let (r, done, name, signalled, file) = tftpd_round-closed h buffer rest (text_of es) up in
    let (g', run, now, logged) =
      update_coapclient-IsServed fuel g old es gone fs allocs served fresh d v n m short enough in
    (r, g', done, name, signalled, rw file run, now, logged)
