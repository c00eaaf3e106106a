-- ===== src/IpTable/Lines.antt =====
-- One line of the file in iptable/coap_iptable.c: how `ParsTxt` reads it and takes it apart.
use gateway_project.Base.{
  ℕ, zero, suc, ◌+◌, List, [], ◌∷◌, take, drop, replicate, Bool, true, false, none, some, ◌==◌,
  if◌then◌else◌, Run, ok, ◌>>=◌,
}
use gateway_project.Base.Text.{strchr}
use gateway_project.Base.Writes.{copy_in}

abbrev pub coap_path_len : ℕ
coap_path_len = 128

abbrev pub coap_ip_len : ℕ
coap_ip_len = 64

pub record CoapIp : Type 0 where
  pub coap_socket : ℕ
  pub path : List ℕ
  pub ip : List ℕ
  pub pid : ℕ
  pub fifo_fd : ℕ

-- `exit(-1)` and `exit(1)`.
pub data Exit : Type 0 where
  exit_failure : Exit

-- What `fgets` reads: at most `room` bytes, up to the first newline; `eof` says that it met the end of
-- the file. It returns NULL if it reads nothing.
pub record Got : Type 0 where
  pub line : List ℕ
  pub rest : List ℕ
  pub eof : Bool

unfoldable pub fgets : (room : ℕ) → List ℕ → Got
fgets zero file = record { line = []; rest = file; eof = false }
fgets (suc n) [] = record { line = []; rest = []; eof = true }
fgets (suc n) (b ∷ bs) =
    let more = fgets n bs in
    if b == 10
    then record { line = b ∷ []; rest = bs; eof = false }
    else record { line = b ∷ more.line; rest = more.rest; eof = more.eof }

abbrev pub slash : ℕ
slash = 0x2f

abbrev pub hash : ℕ
hash = 0x23

-- The block as `malloc` and `memset` leave it; `pid` and `fifo_fd` keep what was there before.
abbrev pub blank : (pid fifo_fd : ℕ) → CoapIp
blank pid fifo_fd = record {
  coap_socket = 0;
  path = replicate coap_path_len 0;
  ip = replicate coap_ip_len 0;
  pid = pid;
  fifo_fd = fifo_fd;
}

-- The block after a line, and whether the line is complete, so that the block enters the list.
pub record Parsed : Type 0 where
  pub entry : CoapIp
  pub complete : Bool

unfoldable pub pars_path : CoapIp → List ℕ → Run Exit Parsed
pars_path c p = elim (strchr p hash) [
  | none ↦ ok (record { entry = c; complete = false })
  | some e ↦ do
    path ← copy_in c.path 0 (take e p)
    ok (record { entry = record c { path = path }; complete = true })
]

unfoldable pub pars_line : CoapIp → List ℕ → Run Exit Parsed
pars_line c s = elim (strchr s slash) [
  | none ↦ ok (record { entry = c; complete = false })
  | some p ↦ do ip ← copy_in c.ip 0 (take p s); pars_path (record c { ip = ip }) (drop (p + 1) s)
]
