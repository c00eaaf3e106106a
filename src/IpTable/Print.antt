-- ===== src/IpTable/Print.antt =====
-- The text of a table, and how one line of it is read.
use gateway_project.Base.{
  All-append, ℕ, zero, suc, ◌+◌, ◌-◌, ◌≤◌, ◌<◌, ◌≡◌, ◌≢◌, refl, sym, ap, ◌∙◌, List, [], ◌∷◌, ◌++◌,
  append_assoc, All, drop, length, length-append, replicate, take-length-append, drop-length-append,
  true, false, ==_false, ok, ◌>>=◌, arith,
}
use gateway_project.Base.Text.{c_string, c_string-append, strchr-append}
use gateway_project.Base.Writes.{copy_in, copy_in-append}
use gateway_project.IpTable.Lines.{CoapIp, Exit, fgets, blank, slash, hash, pars_path, pars_line}

pub record Entry : Type 0 where
  pub ip : List ℕ
  pub path : List ℕ

abbrev pub line_of : Entry → List ℕ
line_of e = e.ip ++ (slash ∷ (e.path ++ (hash ∷ [])))

-- A file with a line for each entry.
abbrev pub text_of : List Entry → List ℕ
text_of [] = []
text_of (e ∷ es) = line_of e ++ (10 ∷ text_of es)

-- No NUL and no newline, and no separator in the part before it.
abbrev pub IsPart : (separator : ℕ) → List ℕ → Type 0
IsPart separator = All (λ b. (b ≢ separator) × (b ≢ 0) × (b ≢ 10))

-- The whole line fits into what `fgets` reads, and the address into its array.
pub record IsEntry (e : Entry) : Type 0 where
  pub ip : IsPart slash e.ip
  pub path : IsPart hash e.path
  pub ip_room : length e.ip ≤ 63
  pub room : length e.ip + length e.path ≤ 124

pub fgets-line :
    (room : ℕ) (bytes rest : List ℕ)
    → All (λ b. b ≢ 10) bytes
    → length bytes < room
    → fgets room (bytes ++ (10 ∷ rest))
      ≡ record { line = bytes ++ (10 ∷ []); rest = rest; eof = false }
unfolding fgets
fgets-line zero bytes rest p h = absurd (omega (arith, h))
fgets-line (suc n) [] rest p h = refl
fgets-line (suc n) (b ∷ bs) rest (ne, p) h =
    rw (==_false b 10 ne, fgets-line n bs rest p (omega (arith, h)))

no_newline : (c : ℕ) (xs : List ℕ) → IsPart c xs → All (λ b. b ≢ 10) xs
no_newline c [] p = tt
no_newline c (b ∷ bs) ((_, _, ne), p) = (ne, no_newline c bs p)

no_nul : (c : ℕ) (xs : List ℕ) → IsPart c xs → All (λ b. b ≢ 0) xs
no_nul c [] p = tt
no_nul c (b ∷ bs) ((_, ne, _), p) = (ne, no_nul c bs p)

plain : (c : ℕ) (xs : List ℕ) → IsPart c xs → All (λ b. (b ≢ c) × (b ≢ 0)) xs
plain c [] p = tt
plain c (b ∷ bs) ((nc, nz, _), p) = ((nc, nz), plain c bs p)

-- A line of the text has no newline in it.
pub line_of-no_newline : (e : Entry) → IsEntry e → All (λ b. b ≢ 10) (line_of e)
line_of-no_newline e w =
    All-append (λ b. b ≢ 10) e.ip (slash ∷ (e.path ++ (hash ∷ []))) (no_newline slash e.ip w.ip)
      (
        omega arith,
        All-append (λ b. b ≢ 10) e.path (hash ∷ []) (no_newline hash e.path w.path)
            (omega arith, tt),
      )

pub length-line_of : (e : Entry) → length (line_of e) ≡ length e.ip + length e.path + 2
length-line_of e =
    omega (
      arith,
      length-append e.ip (slash ∷ (e.path ++ (hash ∷ []))),
      length-append e.path (hash ∷ []),
    )

-- The array of an entry after the copy of a string.
abbrev pub padded : (size : ℕ) → List ℕ → List ℕ
padded size text = text ++ drop (length text) (replicate size 0)

drop-replicate : (n size : ℕ) → drop n (replicate {A = ℕ} size 0) ≡ replicate (size - n) 0
drop-replicate zero size = let e : size - 0 ≡ size = omega arith in rw e
drop-replicate (suc n) zero = let e : 0 - suc n ≡ 0 = omega arith in rw e
drop-replicate (suc n) (suc size) =
    let e : suc size - suc n ≡ size - n = omega arith in rw (e, drop-replicate n size)

pub c_string-padded :
    (c size : ℕ) (text : List ℕ) → IsPart c text → c_string (padded size text) ≡ text
c_string-padded c size text p =
    rw (drop-replicate (length text) size)
      (c_string-append text (size - length text) (no_nul c text p))

-- The block that a line of the text gives.
abbrev pub block_of : (pid fifo_fd : ℕ) → Entry → CoapIp
block_of pid fifo_fd e = record {
  coap_socket = 0;
  path = padded 128 e.path;
  ip = padded 64 e.ip;
  pid = pid;
  fifo_fd = fifo_fd;
}

-- A line with a slash: what stands before it goes into the array of the address.
pub pars_line-slash :
    (c : CoapIp) (ip rest : List ℕ)
    → All (λ b. (b ≢ slash) × (b ≢ 0)) ip
    → pars_line c (ip ++ (slash ∷ rest))
      ≡ (copy_in c.ip 0 ip >>= λ a. pars_path (record c { ip = a }) rest)
unfolding pars_line
pars_line-slash c ip rest p =
    let behind : drop (length ip + 1) (ip ++ (slash ∷ rest)) ≡ rest =
      rw (sym (append_assoc ip (slash ∷ []) rest)) (
        drop-length-append (length ip + 1) (ip ++ (slash ∷ [])) rest
          (omega (arith, length-append ip (slash ∷ [])))) in
    rw (
      pars_line,
      strchr-append ip rest slash p,
      take-length-append (length ip) ip (slash ∷ rest) refl,
      behind,
    )

pars_line-text :
    (pid fifo_fd : ℕ) (ip path rest : List ℕ)
    → IsPart slash ip
    → IsPart hash path
    → length ip ≤ 64
    → length path ≤ 128
    → pars_line (blank pid fifo_fd) (ip ++ (slash ∷ (path ++ (hash ∷ rest))))
      ≡ ok (record {
        entry = block_of pid fifo_fd (record { ip = ip; path = path });
        complete = true;
      })
unfolding pars_path
pars_line-text pid fifo_fd ip path rest p q small_ip small_path = rw (
  pars_line-slash (blank pid fifo_fd) ip (path ++ (hash ∷ rest)) (plain slash ip p),
  copy_in-append Exit [] (replicate 64 0) ip 0 refl (omega (arith, small_ip)),
  pars_path,
  strchr-append path rest hash (plain hash path q),
  take-length-append (length path) path (hash ∷ rest) refl,
  copy_in-append Exit [] (replicate 128 0) path 0 refl (omega (arith, small_path)),
)

pub pars_line-line_of :
    (pid fifo_fd : ℕ) (e : Entry)
    → IsEntry e
    → pars_line (blank pid fifo_fd) (line_of e ++ (10 ∷ []))
      ≡ ok (record { entry = block_of pid fifo_fd e; complete = true })
pars_line-line_of pid fifo_fd e w =
    let whole : line_of e ++ (10 ∷ []) ≡ e.ip ++ (slash ∷ (e.path ++ (hash ∷ 10 ∷ []))) =
      append_assoc e.ip (slash ∷ (e.path ++ (hash ∷ []))) (10 ∷ [])
      ∙ ap (λ t. e.ip ++ (slash ∷ t)) (append_assoc e.path (hash ∷ []) (10 ∷ [])) in
    ap (pars_line (blank pid fifo_fd)) whole
    ∙ pars_line-text pid fifo_fd e.ip e.path (10 ∷ []) w.ip w.path (omega (arith, w.ip_room))
        (omega (arith, w.room))
