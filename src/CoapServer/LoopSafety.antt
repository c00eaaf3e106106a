-- ===== src/CoapServer/LoopSafety.antt =====
-- The CoAP server from its start on, whatever datagrams arrive.
use gateway_project.Base.{
  ℕ, ◌≤◌, ◌≡◌, refl, List, [], ◌∷◌, Option, none, some, length, true, Run, ok, err, fault,
  out_of_fuel, Bool, ◌⊎◌, inl, inr, ◌>>=◌, ap, ◌∙◌,
}
use gateway_project.CoapServer.Packet.{CoapError, CoapPacket}
use gateway_project.CoapServer.Parse.{parse}
use gateway_project.CoapServer.Serve.{
  buf_size, Server, receive, received, Round, print_payload, serve, start,
}
use gateway_project.CoapServer.Loop.{Arrival, Replies, serve_all, coap_serv}
use gateway_project.CoapServer.ServeSafety.{
  AreBytes, IsReady, Answers, Serves, serve-Serves, start-IsReady,
}

-- What is sent for the outcome of the parser: a well-formed ACK of at most 512 bytes with the message id
-- and the token of the packet, whose payload was printed; nothing on an error.
abbrev pub IsReplyTo : Bool → Run CoapError CoapPacket → Option (List ℕ) → Type 0
IsReplyTo prints_null (ok k) reply =
    (print_payload prints_null k.payload ≡ ok tt)
    × (sent : List ℕ) × (reply ≡ some sent)
    × Answers k sent
    × (length sent ≤ buf_size)
IsReplyTo prints_null (err e) reply = reply ≡ none
IsReplyTo prints_null fault reply = ⊥
IsReplyTo prints_null out_of_fuel reply = ⊥

-- A datagram that is accepted, with a payload whose printing reads beyond the buffer.
abbrev pub Overreads : Bool → Arrival → Type 0
Overreads prints_null a =
    (datagram : List ℕ) × (k : CoapPacket) × (a.datagram ≡ some datagram)
    × (parse (receive a.old datagram) (received (some datagram)) ≡ ok k)
    × (print_payload prints_null k.payload ≡ fault)

pub data HasOverread (prints_null : Bool) : List Arrival → Type 0 where
  at_first :
      (a : Arrival) (others : List Arrival)
      → Overreads prints_null a
      → HasOverread prints_null (a ∷ others)
  later :
      (a : Arrival) (others : List Arrival)
      → HasOverread prints_null others
      → HasOverread prints_null (a ∷ others)

-- A datagram of bytes into a buffer of bytes.
abbrev pub Brings : Arrival → List ℕ → Type 0
Brings a datagram = (a.datagram ≡ some datagram) × AreBytes a.old × AreBytes datagram

-- One reply, or silence, for each datagram.
pub data AreReplies (prints_null : Bool) : List Arrival → Replies → Type 0 where
  no_replies : AreReplies prints_null [] []
  then_reply :
      (a : Arrival) (others : List Arrival) (reply : Option (List ℕ)) (replies : Replies)
      (datagram : List ℕ)
      → a.datagram ≡ some datagram
      → IsReplyTo prints_null (parse (receive a.old datagram) (received (some datagram))) reply
      → AreReplies prints_null others replies
      → AreReplies prints_null (a ∷ others) (reply ∷ replies)

pub data AreArrivals : List Arrival → Type 0 where
  no_arrivals : AreArrivals []
  then_arrival :
      (a : Arrival) (others : List Arrival) (datagram : List ℕ)
      → Brings a datagram
      → AreArrivals others
      → AreArrivals (a ∷ others)

-- How the rounds end: all datagrams were served, or one of them made the printing read beyond the
-- buffer.
abbrev pub ServesAll : Bool → List Arrival → Run CoapError (Server × Replies) → Type 0
ServesAll prints_null arrivals (ok (end, replies)) =
    IsReady end × AreReplies prints_null arrivals replies
ServesAll prints_null arrivals fault = HasOverread prints_null arrivals
ServesAll prints_null arrivals (err e) = ⊥
ServesAll prints_null arrivals out_of_fuel = ⊥

Serves-cases :
    (prints_null : Bool) (s : Server) (p : Run CoapError CoapPacket) (m : Run CoapError Round)
    → IsReady s
    → Serves prints_null s p m
    → ((r : Round) × (m ≡ ok r) × IsReady r.server × IsReplyTo prints_null p r.reply)
      ⊎ ((k : CoapPacket) × (m ≡ fault)
          × (p ≡ ok k)
          × (print_payload prints_null k.payload ≡ fault))
Serves-cases prints_null s (ok k) (ok r) ready (printed, w) =
    inl (r, refl, w.ready, (printed, w.sent, w.reply, w.answers, w.fits))
Serves-cases prints_null s (ok k) fault ready overread = inr (k, refl, refl, overread)
Serves-cases prints_null s (err e) (ok r) ready (silent, same) =
    inl (r, refl, rw same ready, silent)
Serves-cases prints_null s (ok k) (err e) ready w = elim w [ ]
Serves-cases prints_null s (ok k) out_of_fuel ready w = elim w [ ]
Serves-cases prints_null s (err e) (err e') ready w = elim w [ ]
Serves-cases prints_null s (err e) fault ready w = elim w [ ]
Serves-cases prints_null s (err e) out_of_fuel ready w = elim w [ ]
Serves-cases prints_null s fault m ready w = elim w [ ]
Serves-cases prints_null s out_of_fuel m ready w = elim w [ ]

extend :
    (prints_null : Bool) (a : Arrival) (others : List Arrival) (reply : Option (List ℕ))
    (datagram : List ℕ) (m : Run CoapError (Server × Replies))
    → a.datagram ≡ some datagram
    → IsReplyTo prints_null (parse (receive a.old datagram) (received (some datagram))) reply
    → ServesAll prints_null others m
    → ServesAll prints_null (a ∷ others) (m >>= λ rest. ok (rest.0, reply ∷ rest.1))
extend prints_null a others reply datagram (ok (end, replies)) came w (ready, all) =
    (ready, then_reply a others reply replies datagram came w all)
extend prints_null a others reply datagram fault came w over = later a others over
extend prints_null a others reply datagram (err e) came w impossible = elim impossible [ ]
extend prints_null a others reply datagram out_of_fuel came w impossible = elim impossible [ ]

serve_all-ServesAll :
    (prints_null : Bool) (s : Server) (arrivals : List Arrival)
    → IsReady s
    → AreArrivals arrivals
    → ServesAll prints_null arrivals (serve_all prints_null s arrivals)
unfolding serve_all
serve_all-ServesAll prints_null s _ ready no_arrivals = (ready, no_replies)
serve_all-ServesAll prints_null s _ ready (then_arrival a others datagram (came, old, bytes) more) =
    elim (Serves-cases prints_null s _ _ ready
      (serve-Serves prints_null a.stale a.junk a.old s datagram ready old bytes)) [
        | inl (r, run, ready', reply) ↦
            rw (ap (λ d. serve prints_null a.stale a.junk a.old s d) came ∙ run) (
              extend prints_null a others r.reply datagram (serve_all prints_null r.server others)
                came reply (serve_all-ServesAll prints_null r.server others ready' more))
        | inr (k, run, parsed, overread) ↦
            rw (ap (λ d. serve prints_null a.stale a.junk a.old s d) came ∙ run)
              (at_first a others (datagram, k, came, parsed, overread))
      ]

-- Once its socket is made and bound, the server, from its start on, on any sequence of datagrams: either
-- it serves all of them, or it ends in a fault because it accepted one whose payload has no NUL in the
-- buffer, or no payload where `printf` does not take NULL, so that printing the payload reads outside.
-- If it serves them, it sends for each datagram that `coap_parse` accepts exactly one datagram of at
-- most 512 bytes, a well-formed ACK with the request's message id and token, and for each other one
-- nothing; and it is ready for more. The condition is that the datagrams, and what the buffer held
-- before, are bytes.
pub coap_serv-ServesAll :
    (prints_null : Bool) (scratch : List ℕ) (arrivals : List Arrival)
    → AreArrivals arrivals
    → (outcome : Run CoapError (Server × Replies)) × (coap_serv prints_null true true scratch
          arrivals
        ≡ some outcome)
      × ServesAll prints_null arrivals outcome
unfolding coap_serv
coap_serv-ServesAll prints_null scratch arrivals w = (
  serve_all prints_null (start scratch) arrivals,
  refl,
  serve_all-ServesAll prints_null (start scratch) arrivals (start-IsReady scratch) w,
)
