-- ===== src/Tftp/Wishes.antt =====
-- Uploads and downloads as what a map from file names to contents does, and the rounds that bring them.
use gateway_project.Base.{
  ℕ, ◌<◌, ◌≡◌, ◌≢◌, List, [], ◌∷◌, All, length, Bool, true, false, Option, none, some,
}
use gateway_project.Tftp.Packets.{data_bytes}
use gateway_project.Tftp.Transfer.{closed, freed}
use gateway_project.Tftp.Write.{ack_bytes}
use gateway_project.Tftp.Request.{Host, Handled}
use gateway_project.Tftp.Names.{request_bytes}
use gateway_project.Tftp.Server.{Files, put_file, Round}

-- What a client wants.
pub data Wish : Type 0 where
  upload : (name text : List ℕ) → Wish
  download : (name : List ℕ) → Wish

-- The files after a wish, and the packets that the client gets.
abbrev pub after : Files → Wish → Files
after files (upload name text) = put_file files name text
after files (download name) = files

abbrev pub packets_of : Files → Wish → List (List ℕ)
packets_of files (upload name text) = ack_bytes 0 ∷ ack_bytes 1 ∷ []
packets_of files (download name) = elim (files name) [
  | none ↦ []
  | some text ↦ data_bytes 1 text ∷ []
]

abbrev pub run_files : Files → List Wish → Files
run_files files [] = files
run_files files (q ∷ qs) = run_files (after files q) qs

abbrev pub answers : Files → List Wish → List (List (List ℕ))
answers files [] = []
answers files (q ∷ qs) = packets_of files q ∷ answers (after files q) qs

-- The sockets, the memory and the arrays of a round that works, and a name that fits into its array.
pub record Works (h : Host) (name : List ℕ) : Type 0 where
  pub made : h.made ≡ true
  pub bound : h.bound ≡ true
  pub memory : h.memory ≡ true
  pub stack : length h.stack ≡ 516
  pub name_stack : length h.name_stack ≡ 30
  pub no_nul : All (λ b. b ≢ 0) name
  pub short_name : length name < 30

-- The request of an upload, and then its one data packet, which is written whole.
pub record IsUpload (r : Round) (name text : List ℕ) : Type 0 where
  pub works : Works r.host name
  pub writable : r.host.writable name ≡ true
  pub put : r.host.put text ≡ text
  pub answer : r.host.answer ≡ some (data_bytes 1 text)
  pub some_bytes : 0 < length text
  pub one_block : length text < 512
  pub mode : List ℕ
  pub request : r.datagram ≡ some (request_bytes 2 name mode)

-- The request of a download of a file with fewer than 512 bytes, and then the ACK for its block, whose
-- address is not written over another variable.
pub record IsDownload (files : Files) (r : Round) (name : List ℕ) : Type 0 where
  pub works : Works r.host name
  pub spare : r.host.spare ≡ true
  pub text : List ℕ
  pub present : files name ≡ some text
  pub one_block : length text < 512
  pub answer : r.host.answer ≡ some (ack_bytes 1)
  pub mode : List ℕ
  pub request : r.datagram ≡ some (request_bytes 1 name mode)

abbrev pub IsRound : Files → Round → Wish → Type 0
IsRound files r (upload name text) = IsUpload r name text
IsRound files r (download name) = IsDownload files r name

-- Rounds that bring some wishes, one after the other.
pub data AreRounds : Files → List Round → List Wish → Type 0 where
  no_rounds : (files : Files) → AreRounds files [] []
  then_round :
      (files : Files) (r : Round) (rs : List Round) (q : Wish) (qs : List Wish)
      → IsRound files r q
      → AreRounds (after files q) rs qs
      → AreRounds files (r ∷ rs) (q ∷ qs)

-- What a round leaves when its file is closed and everything is released.
abbrev pub released :
    (name text : List ℕ) → (sent : List (List ℕ)) → (signalled : Bool) → Option Handled
released name text sent signalled = some record {
  conn = some record { file = closed text; args = freed; sock_open = false; sent = sent };
  name = some name;
  main_sent = [];
  signalled = signalled;
}
