-- ===== src/CoapServer/ServeSafety.antt =====
-- The loop of `CoapServ` on any datagrams.
use gateway_project.Base.{
  ℕ, zero, suc, ◌≤◌, ◌<◌, ◌≡◌, refl, ap, List, [], ◌∷◌, ◌++◌, none, some, length, take, drop,
  get_elem?, length-append, take-length, All, arith, Run, ok, err, fault, out_of_fuel, Returns,
  Gives, Gives-ok, bind-Gives, Bool, Bool-cases, ◌⊎◌, inl, inr, ◌==◌, ◌>>=◌, if◌then◌else◌,
}
use gateway_project.Base.Text.{string_at}
use gateway_project.CoapServer.Packet.{CoapError, CoapBuffer, CoapPacket, content}
use gateway_project.CoapServer.Parse.{parse}
use gateway_project.CoapServer.Format.{Message, view, encode, IsMessage}
use gateway_project.CoapServer.BuildFormat.{build-encode}
use gateway_project.CoapServer.ParseSafety.{IsPacket, parse-IsPacket}
use gateway_project.CoapServer.Endpoints.{
  endpoints, handle_req, build_rsp, build_rsp_loop, list_endpoint, add_endpoint, add_path, add_text,
  strncat,
}
use gateway_project.CoapServer.Respond.{type_ack}
use gateway_project.CoapServer.Reply.{handle_req-IsHandled}
use gateway_project.CoapServer.Serve.{
  buf_size, Server, receive, received, buffer_after, Round, send, answer, print_payload, round_of,
  serve, start,
}

abbrev pub AreBytes : List ℕ → Type 0
AreBytes = All (λ (b : ℕ). b < 256)

get_elem?-lt_256 : (xs : List ℕ) (i b : ℕ) → AreBytes xs → get_elem? xs i ≡ some b → b < 256
get_elem?-lt_256 [] i b h e = cc
get_elem?-lt_256 (x ∷ xs) zero b (hx, h) e = ground arith
get_elem?-lt_256 (x ∷ xs) (suc i) b (hx, h) e = get_elem?-lt_256 xs i b h e

-- The listing leaves room for a header, a token and the content format in a buffer of 512 bytes.
pub record IsReady (s : Server) : Type 0 where
  pub listing : length s.service.rsp ≤ 495

-- A datagram that was sent answers a packet: it is the encoding of a well-formed message of type ACK
-- with the packet's message id and token.
pub record Answers (k : CoapPacket) (sent : List ℕ) : Type 0 where
  pub message : Message
  pub well_formed : IsMessage message
  pub bytes : sent ≡ encode message
  pub type : message.hdr.t ≡ type_ack
  pub id_hi : message.hdr.id_hi ≡ k.hdr.id_hi
  pub id_lo : message.hdr.id_lo ≡ k.hdr.id_lo
  pub token : message.token ≡ content k.tok

pub record IsAnswered (k : CoapPacket) (r : Round) : Type 0 where
  pub ready : IsReady r.server
  pub sent : List ℕ
  pub reply : r.reply ≡ some sent
  pub answers : Answers k sent
  pub fits : length sent ≤ buf_size

pub answer-IsAnswered :
    (stale junk : ℕ) (s : Server) (k : CoapPacket) (buf : List ℕ)
    → IsReady s
    → AreBytes buf
    → IsPacket buf k
    → Gives (IsAnswered k) (answer stale junk s k)
unfolding answer send
answer-IsAnswered stale junk s k buf ready bytes w =
    bind-Gives (IsAnswered k)
      (handle_req stale (record { p = s.scratch; len = buf_size }) k s.service endpoints) _
      (handle_req-IsHandled stale (record { p = s.scratch; len = buf_size }) k s.service
        (record {
          inside = w.inside;
          short = omega (arith, w.same_len, w.short);
          id_hi = get_elem?-lt_256 buf 2 _ bytes w.id_hi;
          id_lo = get_elem?-lt_256 buf 3 _ bytes w.id_lo;
          room = omega arith;
        })
        endpoints)
      λ h r.
        let m : Message = view h.response.pkt in
        let small : length (encode m) ≤ 512 = omega (arith, r.reply.small, ready.listing) in
        rw
          (build-encode junk buf_size h.response.pkt r.reply.message r.reply.inside r.reply.same_len
            small)
          record {
            ready = record { listing = omega (arith, ap length r.listing, ready.listing) };
            sent = encode m;
            reply = ap some (take-length (encode m));
            answers = record {
              message = m;
              well_formed = r.reply.message;
              bytes = refl;
              type = r.reply.type;
              id_hi = r.reply.id_hi;
              id_lo = r.reply.id_lo;
              token = ap content r.reply.token;
            };
            fits = small;
          }

-- What a round does with the outcome of the parser: a reply to a packet whose payload was printed, a
-- fault exactly if the printing reads beyond the buffer, silence on an error.
abbrev pub Serves : Bool → Server → Run CoapError CoapPacket → Run CoapError Round → Type 0
Serves prints_null s (ok k) (ok r) = (print_payload prints_null k.payload ≡ ok tt) × IsAnswered k r
Serves prints_null s (ok k) fault = print_payload prints_null k.payload ≡ fault
Serves prints_null s (err e) (ok r) = (r.reply ≡ none) × (r.server ≡ s)
Serves prints_null s _ _ = ⊥

string_at-cases :
    (bytes : List ℕ)
    → ((text : List ℕ) × (string_at {E = CoapError} bytes ≡ ok text))
      ⊎ (string_at {E = CoapError} bytes ≡ fault)
unfolding string_at
string_at-cases [] = inr refl
string_at-cases (b ∷ bs) = elim (Bool-cases (b == 0)) [
  | inl z ↦ inl ([], rw z refl)
  | inr nz ↦ elim (string_at-cases bs) [
    | inl (text, e) ↦ inl (b ∷ text, rw (nz, e) refl)
    | inr e ↦ inr (rw (nz, e) refl)
  ]
]

print_payload-cases :
    (prints_null : Bool) (b : CoapBuffer)
    → (print_payload prints_null b ≡ ok tt) ⊎ (print_payload prints_null b ≡ fault)
unfolding print_payload
print_payload-cases prints_null b = from b.p
  where
    printed : List ℕ → Run CoapError (Unit {0})
    printed p = elim p [
      | [] ↦ if prints_null then ok tt else fault
      | c ∷ cs ↦ do text ← string_at (c ∷ cs); ok tt
    ]

    from : (p : List ℕ) → (printed p ≡ ok tt) ⊎ (printed p ≡ fault)
    from [] = elim (Bool-cases prints_null) [
      | inl yes_null ↦ inl (rw yes_null refl)
      | inr no_null ↦ inr (rw no_null refl)
    ]
    from (c ∷ cs) = elim (string_at-cases (c ∷ cs)) [
      | inl (text, e) ↦ inl (rw e refl)
      | inr e ↦ inr (rw e refl)
    ]

round_of-Serves :
    (prints_null : Bool) (stale junk : ℕ) (s : Server) (buf : List ℕ) (p : Run CoapError CoapPacket)
    → IsReady s
    → AreBytes buf
    → Returns (IsPacket buf) p
    → Serves prints_null s p (round_of prints_null stale junk s p)
unfolding round_of
round_of-Serves prints_null stale junk s buf (ok k) ready bytes w =
    elim (print_payload-cases prints_null k.payload) [
      | inl printed ↦
          let (r, run, answered) =
            Gives-ok (IsAnswered k) (answer stale junk s k)
              (answer-IsAnswered stale junk s k buf ready bytes w) in
          rw (printed, run) (printed, answered)
      | inr overread ↦ rw overread overread
    ]
round_of-Serves prints_null stale junk s buf (err e) ready bytes w = (refl, refl)
round_of-Serves prints_null stale junk s buf fault ready bytes w = w
round_of-Serves prints_null stale junk s buf out_of_fuel ready bytes w = w

AreBytes-append : (xs ys : List ℕ) → AreBytes xs → AreBytes ys → AreBytes (xs ++ ys)
AreBytes-append [] ys h k = k
AreBytes-append (x ∷ xs) ys (hx, h) k = (hx, AreBytes-append xs ys h k)

AreBytes-take : (n : ℕ) (xs : List ℕ) → AreBytes xs → AreBytes (take n xs)
AreBytes-take zero xs h = tt
AreBytes-take (suc n) [] h = tt
AreBytes-take (suc n) (x ∷ xs) (hx, h) = (hx, AreBytes-take n xs h)

AreBytes-drop : (n : ℕ) (xs : List ℕ) → AreBytes xs → AreBytes (drop n xs)
AreBytes-drop zero xs h = h
AreBytes-drop (suc n) [] h = tt
AreBytes-drop (suc n) (x ∷ xs) (hx, h) = AreBytes-drop n xs h

-- Whatever datagram arrives: if `coap_parse` accepts it, and its payload is printed inside the buffer,
-- the server sends exactly one datagram of at most 512 bytes, a well-formed ACK with the request's
-- message id and token, and is ready for the next round; if the payload has no NUL in the buffer, the
-- printing reads beyond it; if the datagram is not accepted, the server sends nothing and its state is
-- unchanged. The conditions are that the datagram and the buffer's old content are bytes and that the
-- listing of resources has at most 495 bytes.
pub serve-Serves :
    (prints_null : Bool) (stale junk : ℕ) (old : List ℕ) (s : Server) (datagram : List ℕ)
    → IsReady s
    → AreBytes old
    → AreBytes datagram
    → Serves prints_null s
        (parse (receive old datagram) (received (some datagram)))
        (serve prints_null stale junk old s (some datagram))
unfolding serve receive received buffer_after
serve-Serves prints_null stale junk old s datagram ready bytes_old bytes =
    let front = take buf_size datagram in
    let buf = front ++ drop (length front) old in
    round_of-Serves prints_null stale junk s buf _ ready
      (AreBytes-append front _ (AreBytes-take buf_size datagram bytes)
        (AreBytes-drop (length front) old bytes_old))
      (parse-IsPacket buf (length front)
        (omega (arith, length-append front (drop (length front) old))))

-- The server is ready when its loop begins.
pub start-IsReady : (scratch : List ℕ) → IsReady (start scratch)
unfolding start build_rsp build_rsp_loop list_endpoint add_endpoint add_path add_text strncat
start-IsReady scratch = record { listing = omega arith }
