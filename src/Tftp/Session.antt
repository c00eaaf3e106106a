-- ===== src/Tftp/Session.antt =====
-- Uploads and downloads in any order, as the TFTP server serves them, against the files as a map.
use mathlib.Core.Path.{fun_ext}
use gateway_project.Base.{
  ℕ, ◌≡◌, refl, sym, ap, ◌∙◌, append_assoc, List, [], ◌∷◌, ◌++◌, map, All, drop, length, Bool, true,
  false, Option, none, some, ok, arith, deref, Bool-cases, inl, inr, lt→ltb,
}
use gateway_project.Base.Text.{same, same→eq}
use gateway_project.Tftp.Messages.{is_correct_ack, decode_op, extract_block}
use gateway_project.Tftp.Packets.{data_bytes}
use gateway_project.Tftp.Transfer.{received}
use gateway_project.Tftp.Read.{process_read-data_bytes}
use gateway_project.Tftp.Write.{ack_bytes, process_write-data_bytes}
use gateway_project.Tftp.Request.{
  Handled, read_request, write_request, process_tftp_request, tftpd_round,
}
use gateway_project.Tftp.Names.{request_bytes, extract_filename-c_string}
use gateway_project.Tftp.Server.{
  Files, put_file, keep_file, store, Round, on_files, tftpd_loop, tftpd_init,
}
use gateway_project.Tftp.Wishes.{
  Wish, upload, download, after, packets_of, run_files, answers, IsRound, AreRounds, no_rounds,
  then_round, released, IsUpload, IsDownload,
}

good_ack : is_correct_ack (received (ack_bytes 1)) 1 ≡ ok true
unfolding is_correct_ack decode_op extract_block deref
good_ack = refl

tftpd_round-upload :
    (files : Files) (r : Round) (name text : List ℕ)
    → IsUpload r name text
    → tftpd_round (on_files r.host files) r.buffer r.datagram
      ≡ ok (released name text (ack_bytes 0 ∷ ack_bytes 1 ∷ []) true)
unfolding tftpd_round process_tftp_request write_request decode_op deref
tftpd_round-upload files r name text u =
    let h = r.host in
    let (a, e, called) =
      extract_filename-c_string h.name_stack name
        (u.mode ++ drop (length (request_bytes 2 name u.mode)) r.buffer) 2 u.works.no_nul
        (omega (arith, u.works.short_name, u.works.name_stack)) in
    rw (
      u.request,
      u.works.made,
      u.works.bound,
      append_assoc name (0 ∷ u.mode) (drop (length (request_bytes 2 name u.mode)) r.buffer),
      e,
      called,
      u.writable,
      u.works.memory,
      u.answer,
      process_write-data_bytes h.stack h.put text u.works.stack u.put u.some_bytes u.one_block,
    )

tftpd_round-download :
    (files : Files) (r : Round) (name : List ℕ) (d : IsDownload files r name)
    → tftpd_round (on_files r.host files) r.buffer r.datagram
      ≡ ok (released name d.text (data_bytes 1 d.text ∷ []) false)
unfolding tftpd_round process_tftp_request read_request decode_op deref
tftpd_round-download files r name d =
    let h = r.host in
    let (a, e, called) =
      extract_filename-c_string h.name_stack name
        (d.mode ++ drop (length (request_bytes 1 name d.mode)) r.buffer) 1 d.works.no_nul
        (omega (arith, d.works.short_name, d.works.name_stack)) in
    rw (
      d.request,
      d.works.made,
      d.works.bound,
      append_assoc name (0 ∷ d.mode) (drop (length (request_bytes 1 name d.mode)) r.buffer),
      e,
      called,
      d.present,
      d.works.memory,
      d.answer,
      d.spare,
      process_read-data_bytes h.stack true d.text (ack_bytes 1) d.works.stack good_ack,
      lt→ltb (length d.text) 512 d.one_block,
    )

put_file-present :
    (files : Files) (name text : List ℕ) → files name ≡ some text → put_file files name text ≡ files
unfolding put_file
put_file-present files name text e = fun_ext λ n. elim (Bool-cases (same name n)) [
  | inl eq ↦ rw eq (sym e ∙ ap files (same→eq name n eq))
  | inr ne ↦ rw ne refl
]

store-after :
    (files : Files) (name text : List ℕ) (sent : List (List ℕ)) (signalled : Bool)
    → store files (released name text sent signalled) ≡ put_file files name text
unfolding store keep_file
store-after files name text sent signalled = refl

abbrev pub sent_of : Option Handled → List (List ℕ)
sent_of none = []
sent_of (some r) = elim r.conn [ none ↦ r.main_sent | some c ↦ c.sent ]

abbrev pub IsReleased : Option Handled → Type 0
IsReleased d =
    (name text : List ℕ) × (sent : List (List ℕ)) × (signalled : Bool) × (d
      ≡ released name text sent signalled)

-- One round.
tftpd_round-packets_of :
    (files : Files) (r : Round) (q : Wish)
    → IsRound files r q
    → (d : Option Handled) × (tftpd_round (on_files r.host files) r.buffer r.datagram ≡ ok d)
      × (store files d ≡ after files q)
      × (sent_of d ≡ packets_of files q)
      × IsReleased d
tftpd_round-packets_of files r (upload name text) u = (
  released name text (ack_bytes 0 ∷ ack_bytes 1 ∷ []) true,
  tftpd_round-upload files r name text u,
  store-after files name text _ true,
  refl,
  (name, text, _, true, refl),
)
tftpd_round-packets_of files r (download name) d = (
  released name d.text (data_bytes 1 d.text ∷ []) false,
  tftpd_round-download files r name d,
  store-after files name d.text _ false ∙ put_file-present files name d.text d.present,
  rw (packets_of, d.present) refl,
  (name, d.text, _, false, refl),
)

tftpd_loop-run_files :
    (files : Files) (rounds : List Round) (qs : List Wish)
    → AreRounds files rounds qs
    → (done : List (Option Handled)) × (tftpd_loop files rounds ≡ ok (run_files files qs, done))
      × (map sent_of done ≡ answers files qs)
      × All IsReleased done
unfolding tftpd_loop
tftpd_loop-run_files files _ _ (no_rounds _) = ([], refl, refl, tt)
tftpd_loop-run_files files _ _ (then_round _ r rs q qs w ws) =
    let (d, run, kept, sent, released) = tftpd_round-packets_of files r q w in
    let (done, rest, all_sent, all_released) = tftpd_loop-run_files (after files q) rs qs ws in
    (d ∷ done, rw (run, kept, rest) refl, rw (sent, all_sent) refl, (released, all_released))

-- When its socket is made and bound, the TFTP server serves any sequence of uploads and downloads as a
-- map from names to contents does: the files are afterwards those of the map, and each client got the
-- packets that the map gives, two ACKs for an upload, and for a download one data packet with the content
-- that was uploaded last; after each round the file is closed, the connection block freed and its socket
-- closed. The conditions on a round are those of `IsUpload` and `IsDownload`: its calls succeed, the
-- name has fewer than 30 bytes and no NUL, the client answers with the right packet, an upload has 1 to
-- 511 bytes, and a download is of a file that is there, with fewer than 512 bytes, in a build in which
-- the 16 bytes that `recvfrom` stores from the pointer `to` on, which has 8, meet no other variable.
pub tftpd_init-run_files :
    (files : Files) (rounds : List Round) (qs : List Wish)
    → AreRounds files rounds qs
    → (done : List (Option Handled)) × (tftpd_init true true files rounds
        ≡ ok (run_files files qs, done))
      × (map sent_of done ≡ answers files qs)
      × All IsReleased done
unfolding tftpd_init
tftpd_init-run_files = tftpd_loop-run_files
