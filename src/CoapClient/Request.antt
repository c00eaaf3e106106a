-- ===== src/CoapClient/Request.antt =====
-- The datagram of the client is a message of the CoAP format, which the server's parser reads.
use gateway_project.Base.{
  ℕ, suc, ◌+◌, ◌%◌, ◌^◌, ◌≤◌, ◌<◌, ◌≡◌, refl, List, ◌∷◌, length, drop, replicate, length-drop,
  take-length-append, ok, arith,
}
use gateway_project.CoapServer.Packet.{CoapPacket}
use gateway_project.CoapServer.Format.{view, encode, IsMessage}
use gateway_project.CoapServer.Parse.{parse}
use gateway_project.CoapServer.ParseFormat.{parse-encode}
use gateway_project.CoapClient.Start.{start_message_lem}
use gateway_project.CoapClient.Options.{compute_option_header_len}
use gateway_project.CoapClient.Client.{build_message, send_round, Sent}
use gateway_project.CoapClient.RequestSteps.{request, add_path, add_payload}

pub request-IsMessage :
    (counter token : ℕ) (path msg : List ℕ)
    → length path < 269
    → IsMessage (request counter token path msg)
request-IsMessage counter token path msg h = record {
  header = record {
    version = refl;
    type = omega arith;
    token_length = omega arith;
    code = omega arith;
    id_hi = omega arith;
    id_lo = omega arith;
  };
  token = refl;
  options = (omega arith, omega arith, h, tt);
  room = omega arith;
}

-- A round of the client, with an address path of fewer than 269 bytes and a line of at least one byte
-- that fits into the buffer of 512 bytes together with the path, sends exactly the bytes of one
-- well-formed confirmable GET request of RFC 7252 with the message counter, the low two bytes of the
-- random number as its token, one Uri-Path option and the line as its payload, and counts the message
-- number up modulo 65536. Two rounds of fuel are enough for its loops.
pub send_round-encode :
    (fuel counter token b : ℕ) (path bs : List ℕ)
    → length path < 269
    → compute_option_header_len 11 (length path) + length path + (2 + length bs) ≤ 506
    → send_round (suc (suc fuel)) counter token path (b ∷ bs) (length (b ∷ bs))
      ≡ ok (record {
        datagram = encode (request counter token path (b ∷ bs));
        counter = (counter + 1) % 2 ^ 16;
      })
unfolding send_round build_message
send_round-encode fuel counter token b path bs h room =
    let zeros : List ℕ = replicate 506 0 in
    let hdr = compute_option_header_len 11 (length path) in
    let gone = drop (length path) (drop hdr zeros) in
    let lens : hdr + length path + length gone ≡ 506 =
      omega (arith, room, length-drop (length path) (drop hdr zeros), length-drop hdr zeros) in
    let (tail, e) = add_payload fuel counter token b path bs gone h room lens in
    let m = encode (request counter token path (b ∷ bs)) in
    rw (
      start_message_lem counter token,
      add_path (suc fuel) counter token path zeros refl h,
      e,
      take-length-append (length m) m tail refl,
    )

-- A round of the client, with an address path of fewer than 269 bytes and a line of at least one byte
-- that fits into the buffer of 512 bytes together with the path, and with two rounds of fuel, sends a
-- datagram that the server's coap_parse accepts, and reads as the request: with its header, its
-- token, one Uri-Path option and the line as its payload.
pub parse-send_round :
    (fuel counter token b : ℕ) (path bs : List ℕ)
    → length path < 269
    → compute_option_header_len 11 (length path) + length path + (2 + length bs) ≤ 506
    → (sent : Sent) × ((k : CoapPacket) × ((send_round
              (suc (suc fuel))
              counter
              token
              path
              (b ∷ bs)
              (length (b ∷ bs))
            ≡ ok sent)
          × ((parse sent.datagram (length sent.datagram) ≡ ok k)
              × (view k ≡ request counter token path (b ∷ bs)))))
parse-send_round fuel counter token b path bs h room =
    let m = request counter token path (b ∷ bs) in
    let (k, e, v) = parse-encode m (request-IsMessage counter token path (b ∷ bs) h) in
    (
      record { datagram = encode m; counter = (counter + 1) % 2 ^ 16 },
      (k, (send_round-encode fuel counter token b path bs h room, (e, v))),
    )
