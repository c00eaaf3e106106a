-- ===== src/CoapServer/Serve.antt =====
-- One round of the loop of `CoapServ` in coapServer/coapServer.c: receive, parse, handle, build, send.
-- `coap_build` writes over the buffer that holds the request. The token is the only part of a response
-- that points into it, and it is copied to the place where it stands, before anything else is written
-- there; so the model reads the request's bytes as they were.
use gateway_project.Base.{
  ℕ, ◌-◌, ◌^◌, List, [], ◌∷◌, ◌++◌, Bool, if◌then◌else◌, Option, none, some, length, take, drop,
  Run, ok, err, fault, out_of_fuel, ◌>>=◌,
}
use gateway_project.Base.Text.{string_at}
use gateway_project.CoapServer.Packet.{CoapError, CoapBuffer, CoapPacket}
use gateway_project.CoapServer.Parse.{parse}
use gateway_project.CoapServer.Build.{Built, build}
use gateway_project.CoapServer.Endpoints.{Service, endpoints, handle_req, build_rsp}

abbrev pub buf_size : ℕ
buf_size = 512

pub record Server : Type 0 where
  pub scratch : List ℕ
  pub service : Service

-- `CoapServ` before its loop.
unfoldable pub start : List ℕ → Server
start scratch = record {
  scratch = scratch;
  service = record { ret_hello = 49; rsp = build_rsp endpoints };
}

-- What `recvfrom` leaves in the buffer, which held `old` before.
unfoldable pub receive : List ℕ → List ℕ → List ℕ
receive old datagram = take buf_size datagram ++ drop (length (take buf_size datagram)) old

-- `n` as `coap_parse` takes it, a size_t: an error of `recvfrom` gives -1.
unfoldable pub received : Option (List ℕ) → ℕ
received none = 2 ^ 64 - 1
received (some datagram) = length (take buf_size datagram)

unfoldable pub buffer_after : List ℕ → Option (List ℕ) → List ℕ
buffer_after old none = old
buffer_after old (some datagram) = receive old datagram

-- The state after the round, and the datagram sent, if any.
pub record Round : Type 0 where
  pub server : Server
  pub reply : Option (List ℕ)

unfoldable pub send : Server → Run CoapError Built → Run CoapError Round
send s (ok b) = ok (record { server = s; reply = some (take b.buflen b.bytes) })
send s (err e) = ok (record { server = s; reply = none })
send s fault = fault
send s out_of_fuel = out_of_fuel

unfoldable pub answer : (stale junk : ℕ) → Server → CoapPacket → Run CoapError Round
answer stale junk s k = do
  h ← handle_req stale (record { p = s.scratch; len = buf_size }) k s.service endpoints
  send (record { scratch = h.response.scratch; service = h.service })
      (build junk buf_size h.response.pkt)

-- `printf` of the payload as a string: it reads up to a NUL, beyond the buffer if there is none.
-- `prints_null` says whether it takes NULL, as the C library of GNU does; without a payload the pointer
-- is NULL.
unfoldable pub print_payload : (prints_null : Bool) → CoapBuffer → Run CoapError (Unit {0})
print_payload prints_null b = elim b.p [
  | [] ↦ if prints_null then ok tt else fault
  | c ∷ cs ↦ do text ← string_at (c ∷ cs); ok tt
]

unfoldable pub round_of :
    (prints_null : Bool) (stale junk : ℕ) → Server → Run CoapError CoapPacket → Run CoapError Round
round_of prints_null stale junk s (ok k) = do
  printed ← print_payload prints_null k.payload
  answer stale junk s k
round_of prints_null stale junk s (err e) = ok (record { server = s; reply = none })
round_of prints_null stale junk s fault = fault
round_of prints_null stale junk s out_of_fuel = out_of_fuel

unfoldable pub serve :
    (prints_null : Bool) (stale junk : ℕ) (old : List ℕ)
    → Server
    → Option (List ℕ)
    → Run CoapError Round
serve prints_null stale junk old s datagram =
    round_of prints_null stale junk s (parse (buffer_after old datagram) (received datagram))
