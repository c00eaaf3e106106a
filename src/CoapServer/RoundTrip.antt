-- ===== src/CoapServer/RoundTrip.antt =====
-- `coap_parse` after `coap_build`.
use gateway_project.Base.{ℕ, ◌≤◌, ◌≡◌, length, ok, refl}
use gateway_project.CoapServer.Packet.{CoapPacket}
use gateway_project.CoapServer.Parse.{parse}
use gateway_project.CoapServer.Build.{Built, build}
use gateway_project.CoapServer.Format.{view, encode, IsMessage}
use gateway_project.CoapServer.ParseSafety.{IsInside}
use gateway_project.CoapServer.BuildFormat.{build-encode}
use gateway_project.CoapServer.ParseFormat.{parse-encode}

-- If a well-formed packet, with backed pointers, `tok.len` equal to `hdr.tkl` and option values of at
-- most 268 bytes, fits into the buffer, then `coap_build` succeeds, `*buflen` is the number of bytes
-- written, and `coap_parse` of these bytes gives a packet with the same header, token, options and
-- payload.
pub parse-build :
    (junk buflen : ℕ) (k : CoapPacket)
    → IsMessage (view k)
    → IsInside k
    → k.tok.len ≡ k.hdr.tkl
    → length (encode (view k)) ≤ buflen
    → (b : Built) × (k' : CoapPacket) × (build junk buflen k ≡ ok b)
      × (b.buflen ≡ length b.bytes)
      × (parse b.bytes b.buflen ≡ ok k')
      × (view k' ≡ view k)
parse-build junk buflen k w inside e room =
    let (k', parsed, same) = parse-encode (view k) w in
    (
      record { bytes = encode (view k); buflen = length (encode (view k)) },
      k',
      build-encode junk buflen k w inside e room,
      refl,
      parsed,
      same,
    )
