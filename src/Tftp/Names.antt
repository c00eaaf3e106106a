-- ===== src/Tftp/Names.antt =====
-- The file name in a request, and the array that it is copied to.
use gateway_project.Base.{
  ℕ, ◌≤◌, ◌<◌, ◌≡◌, ◌≢◌, refl, List, [], ◌∷◌, ◌++◌, All, drop, length, length-append, true,
  append_assoc, ok, fault, arith, deref, ◌⊎◌, inl, inr,
}
use gateway_project.Base.Text.{c_string, c_string-nul, string_at-nul}
use gateway_project.Base.Writes.{copy_in, copy_in-append}
use gateway_project.Tftp.Messages.{decode_op}
use gateway_project.Tftp.Request.{
  extract_filename, Host, read_request, write_request, process_tftp_request,
}

-- A request of RFC 1350 with the opcode 1 or 2, as it stands in the buffer.
abbrev pub request_bytes : (op : ℕ) → (name rest : List ℕ) → List ℕ
request_bytes op name rest = 0 ∷ op ∷ (name ++ (0 ∷ rest))

pub extract_filename-c_string :
    (fname name rest : List ℕ) (op : ℕ)
    → All (λ b. b ≢ 0) name
    → length name < length fname
    → (a : List ℕ) × (extract_filename fname (request_bytes op name rest) ≡ ok a)
      × (c_string a ≡ name)
unfolding extract_filename
extract_filename-c_string fname name rest op p room =
    let text = name ++ (0 ∷ []) in
    (
      text ++ drop (length text) fname,
      rw (
        string_at-nul (Unit {0}) name rest p,
        copy_in-append (Unit {0}) [] fname text 0 refl
            (omega (arith, room, length-append name (0 ∷ []))),
      ),
      rw (append_assoc name (0 ∷ []) (drop (length text) fname))
          (c_string-nul name (drop (length text) fname) p),
    )

copy_in_fault :
    (E : Type 0) (buf bytes : List ℕ)
    → length buf < length bytes
    → copy_in {E = E} buf 0 bytes ≡ fault
unfolding copy_in
copy_in_fault E buf bytes h = ground arith

extract_filename-fault :
    (fname name rest : List ℕ) (op : ℕ)
    → All (λ b. b ≢ 0) name
    → length fname ≤ length name
    → extract_filename fname (request_bytes op name rest) ≡ fault
unfolding extract_filename
extract_filename-fault fname name rest op p full = rw (
  string_at-nul (Unit {0}) name rest p,
  copy_in_fault (Unit {0}) fname (name ++ (0 ∷ []))
      (omega (arith, full, length-append name (0 ∷ []))),
)

-- A read or a write request whose file name has at least as many bytes as the array `FileName`, 30,
-- writes behind that array, whatever the files and the memory are.
pub process_tftp_request_fault :
    (h : Host) (op : ℕ) (name rest : List ℕ)
    → (op ≡ 1) ⊎ (op ≡ 2)
    → h.made ≡ true
    → h.bound ≡ true
    → length h.name_stack ≡ 30
    → All (λ b. b ≢ 0) name
    → 30 ≤ length name
    → process_tftp_request h (request_bytes op name rest) ≡ fault
unfolding process_tftp_request decode_op deref read_request write_request
process_tftp_request_fault h op name rest (inl one) m b n p long =
    rw (one, m, b, extract_filename-fault h.name_stack name rest 1 p (omega (arith, n, long)))
process_tftp_request_fault h op name rest (inr two) m b n p long =
    rw (two, m, b, extract_filename-fault h.name_stack name rest 2 p (omega (arith, n, long)))
