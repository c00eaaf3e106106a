-- ===== src/CoapServer/Loop.antt =====
-- `CoapServ` of coapServer/coapServer.c: its set-up and the rounds of its loop.
use gateway_project.Base.{
  ℕ, List, [], ◌∷◌, Bool, Option, none, some, not, if◌then◌else◌, Run, ok, ◌>>=◌,
}
use gateway_project.CoapServer.Packet.{CoapError}
use gateway_project.CoapServer.Serve.{Server, serve, start}

-- A datagram that `recvfrom` gives, with what `buf` holds before it comes, and what the variables hold
-- that a round does not initialise. An error of `recvfrom` is no datagram.
pub record Arrival : Type 0 where
  pub stale : ℕ
  pub junk : ℕ
  pub old : List ℕ
  pub datagram : Option (List ℕ)

abbrev pub Replies : Type 0
Replies = List (Option (List ℕ))

-- The rounds of the loop, with what each sends.
unfoldable pub serve_all :
    (prints_null : Bool) → Server → List Arrival → Run CoapError (Server × Replies)
serve_all prints_null s [] = ok (s, [])
serve_all prints_null s (a ∷ more) = do
  r ← serve prints_null a.stale a.junk a.old s a.datagram
  rest ← serve_all prints_null r.server more
  ok (rest.0, r.reply ∷ rest.1)

-- Whether the socket is made and bound; `none` if the process exits.
unfoldable pub coap_serv :
    (prints_null made bound : Bool) (scratch : List ℕ)
    → List Arrival
    → Option (Run CoapError (Server × Replies))
coap_serv prints_null made bound scratch arrivals =
    if not made
    then none
    else if not bound
    then none
    else some (serve_all prints_null (start scratch) arrivals)
