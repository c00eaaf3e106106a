-- ===== src/CoapServer/BuildSteps.antt =====
-- The size checks of `coap_build`, step by step.
use gateway_project.Base.{
  ℕ, ◌+◌, ◌-◌, ◌*◌, ◌≤◌, ◌<◌, ◌≡◌, sym, ap, ◌∙◌, List, [], ◌∷◌, ◌++◌, All, map, length,
  length-append, arith, err, fault, fetch-ok, emit-ok, emit_fault, dec_le, ltb-false, lt→ltb,
}
use gateway_project.CoapServer.Packet.{
  buffer_too_small, CoapBuffer, CoapOption, CoapPacket, content,
}
use gateway_project.CoapServer.Build.{option_header, build_options, build_payload, build}
use gateway_project.CoapServer.Format.{
  view_option, view, encode_option, encode_options, encode_payload, encode_header, encode,
  AreOptions, IsMessage,
}
use gateway_project.CoapServer.ParseSafety.{IsBacked}
use gateway_project.CoapServer.BuildFormat.{
  option_header-encode_option, length-content, build_options-encode_options, build_token-append,
  header_bytes-encode_header, length-encode_header,
}

module _ (junk buflen : ℕ) where
  build_options_overflow :
      (prev : ℕ) (out : List ℕ) (opts : List CoapOption)
      → AreOptions prev (map view_option opts)
      → All (λ (o : CoapOption). IsBacked o.buf) opts
      → length out ≤ buflen
      → buflen < length out + length (encode_options prev (map view_option opts))
      → build_options junk buflen prev out opts ≡ fault
  unfolding build_options encode_options
  build_options_overflow prev out [] w b room over = absurd (omega arith)
  build_options_overflow prev out (o ∷ opts) (sorted, small, short, w) (b, bs) room over =
      let value = content o.buf in
      let rest = encode_options o.num (map view_option opts) in
      let head = encode_option (o.num - prev) (length value) in
      let len : length value ≡ o.buf.len = length-content o.buf b in
      let e : option_header junk prev o ≡ head =
        option_header-encode_option junk prev o sorted small (omega arith)
        ∙ ap (encode_option (o.num - prev)) (sym len) in
      let total : buflen < length out + (length head + (length value + length rest)) =
        omega (arith, length-append head (value ++ rest), length-append value rest, over) in
      elim (dec_le (length out + length head) buflen) [
        | no h ↦
            rw (ltb-false buflen (length out) room, e, emit_fault buflen out head (omega arith))
        | yes h ↦
            rw
              (
                ltb-false buflen (length out) room,
                e,
                emit-ok buflen out head h,
                fetch-ok o.buf.p o.buf.len b,
              )
              (elim (dec_le (length out + length head + length value) buflen) [
                | no h' ↦
                    rw (
                      emit_fault buflen (out ++ head) value (omega (arith, length-append out head)))
                | yes h' ↦
                    rw (emit-ok buflen (out ++ head) value (omega (arith, length-append out head)))
                      (build_options_overflow o.num ((out ++ head) ++ value) opts w bs
                        (omega (arith, length-append (out ++ head) value, length-append out head))
                        (omega (arith, length-append (out ++ head) value, length-append out head)))
              ])
      ]

-- A payload takes one byte more than it has, if it has any.
pub payload_bytes :
    (bytes : List ℕ)
    → (length (encode_payload bytes) ≤ 1 + length bytes)
      × (length (encode_payload bytes) ≤ 2 * length bytes)
unfolding encode_payload
payload_bytes [] = omega arith
payload_bytes (x ∷ xs) = omega arith

build_payload_too_small :
    (buflen : ℕ) (out : List ℕ) (payload : CoapBuffer)
    → IsBacked payload
    → 4 ≤ length out
    → length out ≤ buflen
    → buflen < length out + length (encode_payload (content payload))
    → build_payload buflen out payload ≡ err buffer_too_small
unfolding build_payload
build_payload_too_small buflen out payload b long room over =
    let few = payload_bytes (content payload) in
    let len = length-content payload b in
    rw (
      lt→ltb 0 payload.len (omega arith),
      lt→ltb buflen (4 + 1 + payload.len + (length out - 4)) (omega arith),
    )

module _ (junk buflen : ℕ) (k : CoapPacket) (w : IsMessage (view k)) (bt : IsBacked k.tok)
    (bo : All (λ (o : CoapOption). IsBacked o.buf) k.opts) where
  pub build_fault :
      k.tok.len ≡ k.hdr.tkl
      → 4 + k.hdr.tkl ≤ buflen
      → buflen < 4 + k.hdr.tkl + length (encode_options 0 (view k).options)
      → build junk buflen k ≡ fault
  unfolding build
  build_fault e room over =
      let head = encode_header k.hdr in
      let token = content k.tok in
      let four : length head ≡ 4 = length-encode_header k.hdr in
      let tkl : length token ≡ k.hdr.tkl = w.token in
      rw (
        ltb-false buflen (4 + k.hdr.tkl) room,
        header_bytes-encode_header k.hdr w.header,
        emit-ok buflen [] head (omega arith),
        build_token-append buflen head k.hdr k.tok e bt (omega arith),
        build_options_overflow junk buflen 0 (head ++ token) k.opts w.options bo
            (omega (arith, length-append head token)) (omega (arith, length-append head token)),
      )

  pub build_payload_short :
      IsBacked k.payload
      → k.tok.len ≡ k.hdr.tkl
      → 4 + k.hdr.tkl + length (encode_options 0 (view k).options) ≤ buflen
      → buflen < length (encode (view k))
      → build junk buflen k ≡ err buffer_too_small
  unfolding build encode
  build_payload_short bp e room over =
      let head = encode_header k.hdr in
      let token = content k.tok in
      let opts = encode_options 0 (map view_option k.opts) in
      let payload = encode_payload (content k.payload) in
      let four : length head ≡ 4 = length-encode_header k.hdr in
      let tkl : length token ≡ k.hdr.tkl = w.token in
      let total : buflen < length head + (length token + (length opts + length payload)) = omega (
        arith,
        over,
        length-append head (token ++ (opts ++ payload)),
        length-append token (opts ++ payload),
        length-append opts payload,
      ) in
      rw
        (
          ltb-false buflen (4 + k.hdr.tkl) (omega arith),
          header_bytes-encode_header k.hdr w.header,
          emit-ok buflen [] head (omega arith),
          build_token-append buflen head k.hdr k.tok e bt (omega arith),
          build_options-encode_options junk buflen 0 (head ++ token) k.opts w.options bo
              (omega (arith, length-append head token)),
        )
        (build_payload_too_small buflen ((head ++ token) ++ opts) k.payload bp
          (omega (arith, length-append (head ++ token) opts, length-append head token))
          (omega (arith, length-append (head ++ token) opts, length-append head token))
          (omega (arith, length-append (head ++ token) opts, length-append head token)))
