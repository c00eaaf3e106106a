-- ===== src/CoapServer/Tests.antt =====
-- Runs of the CoAP server, and its theorems at concrete inputs.
use gateway_project.Base.{
  Run, true, ℕ, ◌+◌, ◌-◌, ◌<◌, ◌≡◌, ◌↔◌, refl, List, [], ◌∷◌, ◌++◌, some, length, replicate, arith,
  ltb, if◌then◌else◌, ok, err, fault, Returns,
}
use gateway_project.Base.Text.{codes, same, string_at}
use gateway_project.CoapServer.Packet.{
  CoapError, CoapBuffer, CoapHeader, CoapPacket, buffer_too_small,
}
use gateway_project.CoapServer.Parse.{parse}
use gateway_project.CoapServer.Build.{Built, build, option_header}
use gateway_project.CoapServer.Format.{
  view, encode, encode_header, encode_options, encode_option, encode_payload, nibble, extension,
}
use gateway_project.CoapServer.RoundTrip.{parse-build}
use gateway_project.CoapServer.BuildBounds.{build_lem, option_header_iff}
use gateway_project.CoapServer.ParseSafety.{parse-IsPacket, IsPacket}
use gateway_project.CoapServer.ParseFormat.{parse-encode}
use gateway_project.CoapServer.Respond.{changed, content_205, response_code}
use gateway_project.CoapServer.Endpoints.{
  Service, Handled, endpoints, handle, handle_req, build_rsp, get_hello,
}
use gateway_project.CoapServer.Dispatch.{handle_req-route}
use gateway_project.CoapServer.Hello.{get-put, stored, body_of}
use gateway_project.CoapServer.Serve.{Server, print_payload}
use gateway_project.CoapServer.Loop.{Arrival, Replies, coap_serv}
use gateway_project.CoapServer.LoopSafety.{
  AreArrivals, no_arrivals, then_arrival, coap_serv-ServesAll, ServesAll,
}
use gateway_project.CoapServer.Listing.{build_rsp-links}

abbrev header : ℕ → CoapHeader
header code = record { ver = 1; t = 0; tkl = 2; code = code; id_hi = 18; id_lo = 52 }

-- A request for /hello with the method `code` and a body.
abbrev hello : ℕ → List ℕ → CoapPacket
hello code body = record {
  hdr = header code;
  tok = record { p = 170 ∷ 187 ∷ 9 ∷ []; len = 2 };
  opts = record { num = 11; buf = record { p = codes "hello" ++ (255 ∷ []); len = 5 } } ∷ [];
  payload = record { p = body; len = length body };
}

-- The bytes of a GET of /hello.
abbrev hello_bytes : List ℕ
hello_bytes = 66 ∷ 1 ∷ 18 ∷ 52 ∷ 170 ∷ 187 ∷ 181 ∷ 104 ∷ 101 ∷ 108 ∷ 108 ∷ 111 ∷ []

abbrev service : Service
service = record { ret_hello = 49; rsp = [] }

abbrev scratch : CoapBuffer
scratch = record { p = replicate 512 0; len = 512 }

encode-hello : encode (view (hello 1 [])) ≡ hello_bytes
unfolding encode encode_header encode_options encode_option encode_payload nibble extension
encode-hello = refl

parse-build_example :
    (b : Built) × (k' : CoapPacket) × (build 7 64 (hello 1 []) ≡ ok b)
    × (b.buflen ≡ length b.bytes)
    × (parse b.bytes b.buflen ≡ ok k')
    × (view k' ≡ view (hello 1 []))
unfolding encode encode_header encode_options encode_option encode_payload nibble extension
parse-build_example = parse-build 7 64 (hello 1 []) (omega arith) (omega arith) refl (omega arith)

build_lem_example : build 7 8 (hello 1 []) ≡ (
    if ltb 8 6
    then err buffer_too_small
    else if ltb 8 (6 + length (encode_options 0 (view (hello 1 [])).options))
    then fault
    else if ltb 8 (length (encode (view (hello 1 []))))
    then err buffer_too_small
    else ok (record {
      bytes = encode (view (hello 1 []));
      buflen = length (encode (view (hello 1 [])));
    }))
build_lem_example = build_lem 7 8 (hello 1 []) (omega arith) (omega arith) refl

option_header_iff_example :
    (option_header 0 0 (record { num = 11; buf = record { p = []; len = 300 } })
      ≡ encode_option (11 - 0) 300)
    ↔ (300 < 269)
option_header_iff_example =
    option_header_iff 0 0 (record { num = 11; buf = record { p = []; len = 300 } }) (omega arith)
      (omega arith) (omega arith)

parse-IsPacket_example : Returns (IsPacket hello_bytes) (parse hello_bytes 12)
parse-IsPacket_example = parse-IsPacket hello_bytes 12 (omega arith)

parse-encode_example :
    (k : CoapPacket) × (parse (encode (view (hello 1 []))) (length (encode (view (hello 1 []))))
      ≡ ok k)
    × (view k ≡ view (hello 1 []))
parse-encode_example = parse-encode (view (hello 1 [])) (omega arith)

handle_req-route_example :
    handle_req 0 scratch (hello 1 []) service endpoints
    ≡ handle 0 scratch (hello 1 []) service get_hello
unfolding same
handle_req-route_example =
    handle_req-route 0 scratch (hello 1 []) service endpoints (omega arith) (omega arith)
      (omega arith)

get-put_example :
    (h g : Handled) × (handle_req 0 scratch (hello 3 (48 ∷ [])) service endpoints ≡ ok h)
    × (h.response.pkt.hdr.code ≡ response_code changed)
    × (body_of h ≡ stored 48 ∷ [])
    × (handle_req 0 scratch (hello 1 []) h.service endpoints ≡ ok g)
    × (g.response.pkt.hdr.code ≡ response_code content_205)
    × (body_of g ≡ stored 48 ∷ [])
    × (g.service ≡ h.service)
get-put_example =
    get-put 0 scratch (omega arith) (hello 3 (48 ∷ [])) (hello 1 []) service 48 []
      (record { sorted = omega arith; room = omega arith; backed = omega arith; path = refl })
      (record { sorted = omega arith; room = omega arith; backed = omega arith; path = refl }) refl
      refl refl (omega arith)

-- A request, and then bytes that are no packet.
abbrev two_arrivals : List Arrival
two_arrivals =
    record { stale = 0; junk = 7; old = []; datagram = some hello_bytes }
    ∷ record { stale = 5; junk = 1; old = replicate 512 0; datagram = some (64 ∷ []) }
    ∷ []

two_arrivals-AreArrivals : AreArrivals two_arrivals
two_arrivals-AreArrivals =
    then_arrival _ _ hello_bytes (refl, tt, omega arith)
      (then_arrival _ _ (64 ∷ []) (refl, omega arith, omega arith) no_arrivals)

coap_serv-ServesAll_example :
    (outcome : Run CoapError (Server × Replies)) × (coap_serv true true true
        (replicate 512 0)
        two_arrivals
      ≡ some outcome)
    × ServesAll true two_arrivals outcome
coap_serv-ServesAll_example =
    coap_serv-ServesAll true (replicate 512 0) two_arrivals two_arrivals-AreArrivals

-- A request with a payload, in a buffer without a NUL behind it.
print_overread : print_payload true (record { p = 49 ∷ 50 ∷ []; len = 2 }) ≡ fault
unfolding print_payload string_at
print_overread = refl

build_rsp-links_example : build_rsp endpoints ≡ codes "</.well-known/core>;ct=40,</hello>;ct=0"
build_rsp-links_example = build_rsp-links endpoints (omega arith)
