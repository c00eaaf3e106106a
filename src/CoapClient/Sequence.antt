-- ===== src/CoapClient/Sequence.antt =====
-- What the client sends in all its rounds.
use gateway_project.Base.{
  ℕ, suc, ◌+◌, ◌%◌, ◌^◌, ◌≤◌, ◌<◌, ◌≡◌, ◌≢◌, refl, sym, ap, ◌∙◌, bind_cong, List, [], ◌∷◌, ◌++◌,
  append_assoc, append-nil, All, map, length, length-append, drop, take-length-append, some, ok,
  arith, fetch,
}
use gateway_project.Base.Text.{string_at-nul}
use gateway_project.Base.Writes.{leb-true}
use gateway_project.CoapServer.Packet.{CoapPacket}
use gateway_project.CoapServer.Format.{Message, view, encode}
use gateway_project.CoapServer.Parse.{parse}
use gateway_project.CoapServer.ParseFormat.{parse-encode}
use gateway_project.CoapClient.Pdu.{ClientError, Pdu}
use gateway_project.CoapClient.Options.{
  add_option, put_payload, set_payload, compute_option_header_len,
}
use gateway_project.CoapClient.Client.{start_message, tolerate, build_message, send_round}
use gateway_project.CoapClient.RequestSteps.{request}
use gateway_project.CoapClient.Request.{request-IsMessage, send_round-encode}
use gateway_project.CoapClient.Rounds.{Loop, Round, client_round, client_rounds, coap_client}

fetch-append : (E : Type 0) (m rest : List ℕ) → fetch {E = E} (m ++ rest) (length m) ≡ ok m
unfolding fetch
fetch-append E m rest = rw (
  leb-true (length m) (length (m ++ rest)) (omega (arith, length-append m rest)),
  take-length-append (length m) m rest refl,
)

-- The old bytes behind the line are not read.
put_payload-append :
    (pdu : Pdu) (ptr : ℕ) (m rest : List ℕ)
    → put_payload pdu ptr (m ++ rest) (length m) ≡ put_payload pdu ptr m (length m)
unfolding put_payload
put_payload-append pdu ptr m rest =
    let same : fetch {E = ClientError} m (length m) ≡ ok m =
      rw (append-nil m) at (fetch-append ClientError m []) in
    rw (fetch-append ClientError m rest, same)

set_payload-rest :
    (fuel : ℕ) (pdu : Pdu) (m rest : List ℕ)
    → set_payload fuel pdu (m ++ rest) (length m) ≡ set_payload fuel pdu m (length m)
unfolding set_payload put_payload
set_payload-rest fuel pdu m rest =
    let same : fetch {E = ClientError} m (length m) ≡ ok m =
      rw (append-nil m) at (fetch-append ClientError m []) in
    rw (fetch-append ClientError m rest, same)

build_message-rest :
    (fuel mid token : ℕ) (path m rest : List ℕ)
    → build_message fuel mid token path (m ++ rest) (length m)
      ≡ build_message fuel mid token path m (length m)
unfolding build_message
build_message-rest fuel mid token path m rest = bind_cong (start_message mid token) (λ started.
    bind_cong (tolerate started (add_option fuel started 11 path (length path)))
      (λ named. ap (tolerate named) (set_payload-rest fuel named m rest)))

send_round-rest :
    (fuel counter token : ℕ) (path m rest : List ℕ)
    → send_round fuel counter token path (m ++ rest) (length m)
      ≡ send_round fuel counter token path m (length m)
unfolding send_round
send_round-rest fuel counter token path m rest =
    rw (build_message-rest fuel counter token path m rest)

-- A line and the random number of its round.
pub record Line : Type 0 where
  pub first : ℕ
  pub others : List ℕ
  pub token : ℕ

abbrev pub line_bytes : Line → List ℕ
line_bytes l = l.first ∷ l.others

abbrev pub reads : List Line → List Round
reads [] = []
reads (l ∷ ls) = record { got = some (line_bytes l); token = l.token } ∷ reads ls

-- The requests for the lines, with message ids that count up from `n`.
abbrev pub requests : (n : ℕ) → (path : List ℕ) → List Line → List Message
requests n path [] = []
requests n path (l ∷ ls) =
    request (n % 2 ^ 16) l.token path (line_bytes l) ∷ requests (suc n) path ls

-- A line fits into the buffer together with the path.
abbrev pub Fits : List ℕ → Line → Type 0
Fits path l = compute_option_header_len 11 (length path) + length path + (2 + length l.others) ≤ 506

abbrev pub IsRead : Message → Type 0
IsRead m = (k : CoapPacket) × (parse (encode m) (length (encode m)) ≡ ok k) × (view k ≡ m)

requests-IsRead :
    (n : ℕ) (path : List ℕ) (ls : List Line) → length path < 269 → All IsRead (requests n path ls)
requests-IsRead n path [] h = tt
requests-IsRead n path (l ∷ ls) h = (
  parse-encode (request (n % 2 ^ 16) l.token path (line_bytes l))
      (request-IsMessage (n % 2 ^ 16) l.token path (line_bytes l) h),
  requests-IsRead (suc n) path ls h,
)

-- The state after a round with a line.
abbrev after_round : ℕ → List ℕ → Loop → Line → Loop
after_round n path s l = record {
  message_id_counter = (n % 2 ^ 16 + 1) % 2 ^ 16;
  msg_buf = line_bytes l ++ drop (length (line_bytes l)) s.msg_buf;
  datagrams = s.datagrams ++ (encode (request (n % 2 ^ 16) l.token path (line_bytes l)) ∷ []);
}

client_round-request :
    (fuel n : ℕ) (path : List ℕ) (s : Loop) (l : Line)
    → length path < 269
    → Fits path l
    → s.message_id_counter ≡ n % 2 ^ 16
    → client_round (suc (suc fuel)) path s (record { got = some (line_bytes l); token = l.token })
      ≡ ok (after_round n path s l)
unfolding client_round
client_round-request fuel n path s l h fit e =
    let m = line_bytes l in
    rw (
      e,
      send_round-rest (suc (suc fuel)) (n % 2 ^ 16) l.token path m (drop (length m) s.msg_buf),
      send_round-encode fuel (n % 2 ^ 16) l.token l.first path l.others h fit,
    )

client_rounds-requests :
    (fuel n : ℕ) (path : List ℕ) (s : Loop) (ls : List Line)
    → length path < 269
    → All (Fits path) ls
    → s.message_id_counter ≡ n % 2 ^ 16
    → (t : Loop) × (client_rounds (suc (suc fuel)) path s (reads ls) ≡ ok t)
      × (t.datagrams ≡ s.datagrams ++ map encode (requests n path ls))
unfolding client_rounds
client_rounds-requests fuel n path s [] h f e = (s, refl, sym (append-nil s.datagrams))
client_rounds-requests fuel n path s (l ∷ ls) h (fit, f) e =
    let datagram = encode (request (n % 2 ^ 16) l.token path (line_bytes l)) in
    let (t, run, sent) =
      client_rounds-requests fuel (suc n) path (after_round n path s l) ls h f (omega arith) in
    (
      t,
      rw (client_round-request fuel n path s l h fit e) run,
      sent ∙ append_assoc s.datagrams (datagram ∷ []) (map encode (requests (suc n) path ls)),
    )

-- The client for an address block whose path is a string of fewer than 269 bytes: for any sequence of
-- lines, each of at least one byte, read whole by one call, and small enough to fit into the buffer
-- of 512 bytes together with the path, it sends one confirmable GET request for each line and nothing
-- else, in the order of the lines, with this path and the line as its payload and with message ids that
-- count up from the first random number, modulo 65536; and the server's coap_parse reads each datagram
-- as that request. Two rounds of fuel are enough.
pub coap_client-requests :
    (fuel seed : ℕ) (path behind stack : List ℕ) (ls : List Line)
    → All (λ b. b ≢ 0) path
    → length path < 269
    → All (Fits path) ls
    → (t : Loop) × (coap_client (suc (suc fuel)) seed (path ++ (0 ∷ behind)) stack (reads ls)
        ≡ ok t)
      × (t.datagrams ≡ map encode (requests seed path ls))
      × All IsRead (requests seed path ls)
unfolding coap_client
coap_client-requests fuel seed path behind stack ls p h f =
    let s : Loop = record { message_id_counter = seed % 2 ^ 16; msg_buf = stack; datagrams = [] } in
    let (t, run, sent) = client_rounds-requests fuel seed path s ls h f refl in
    (t, rw (string_at-nul ClientError path behind p, run), sent, requests-IsRead seed path ls h)
