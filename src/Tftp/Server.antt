-- ===== src/Tftp/Server.antt =====
-- The TFTP server: `tftpd_init` of TFTPServer/tftpserver.c with the rounds of its loop on the files.
use gateway_project.Base.{
  ℕ, List, [], ◌∷◌, Option, none, some, Bool, not, if◌then◌else◌, ok, err, ◌>>=◌,
}
use gateway_project.Base.Text.{same}
use gateway_project.Tftp.Messages.{Tftp}
use gateway_project.Tftp.Transfer.{FileHandle, null_file, opened, closed}
use gateway_project.Tftp.Request.{Host, Handled, tftpd_round}

-- The content of the files by their names.
abbrev pub Files : Type 0
Files = List ℕ → Option (List ℕ)

unfoldable pub put_file : Files → (name text : List ℕ) → Files
put_file files name text n = if same name n then some text else files n

-- What a round leaves in the file that it opened.
unfoldable pub keep_file : Files → (name : List ℕ) → FileHandle → Files
keep_file files name null_file = files
keep_file files name (opened text) = put_file files name text
keep_file files name (closed text) = put_file files name text

unfoldable pub store : Files → Option Handled → Files
store files none = files
store files (some r) = elim r.name [
  | none ↦ files
  | some name ↦ elim r.conn [ none ↦ files | some c ↦ keep_file files name c.file ]
]

-- What the calls of a round give; `host.readable` is left to the files. With the old content of
-- `tftpRecvBuffer` and the datagram, if one comes.
pub record Round : Type 0 where
  pub host : Host
  pub buffer : List ℕ
  pub datagram : Option (List ℕ)

abbrev pub on_files : Host → Files → Host
on_files h files = record h { readable = files }

-- The rounds of the loop.
unfoldable pub tftpd_loop : Files → List Round → Tftp (Files × List (Option Handled))
tftpd_loop files [] = ok (files, [])
tftpd_loop files (r ∷ rs) = do
  handled ← tftpd_round (on_files r.host files) r.buffer r.datagram
  rest ← tftpd_loop (store files handled) rs
  ok (rest.0, handled ∷ rest.1)

-- Whether the main socket is made and bound; if not, the process exits.
unfoldable pub tftpd_init :
    (made bound : Bool) → Files → List Round → Tftp (Files × List (Option Handled))
tftpd_init made bound files rounds =
    if not made then err tt else if not bound then err tt else tftpd_loop files rounds
