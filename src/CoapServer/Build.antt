-- ===== src/CoapServer/Build.antt =====
-- The message builder of coapServer/microcoap.c. The bytes are written from the start of `buf` on, so
-- the state is what is written; `*buflen` is the size of `buf`, and a write behind it is a fault.
use gateway_project.Base.{
  ℕ, ◌+◌, ◌-◌, ◌/◌, ◌%◌, ◌*◌, ◌^◌, List, [], ◌∷◌, ◌++◌, bit_and, bit_or, length, ltb, leb, ◌==◌,
  if◌then◌else◌, Run, ok, err, ◌>>=◌, fetch, emit, not, ◌&&◌,
}
use gateway_project.CoapServer.Packet.{
  CoapError, buffer_too_small, unsupported, CoapHeader, CoapBuffer, CoapOption, CoapPacket,
}

-- `coap_option_nibble`, with what `*nibble` holds before: it stays above 0xFFFF + 269.
unfoldable pub option_nibble : ℕ → ℕ → ℕ
option_nibble value old =
    if ltb value 13
    then value
    else if leb value (0xFF + 13)
    then 13
    else if leb value (0xFFFF + 269)
    then 14
    else old

unfoldable pub header_bytes : CoapHeader → List ℕ
header_bytes hdr =
    bit_or (bit_or (bit_and hdr.ver 0x03 * 64) (bit_and hdr.t 0x03 * 16)) (bit_and hdr.tkl 0x0F)
    ∷ hdr.code
    ∷ hdr.id_hi
    ∷ hdr.id_lo
    ∷ []

-- The extension of the option delta, a uint32_t.
unfoldable pub delta_bytes : ℕ → ℕ → List ℕ
delta_bytes nibble value =
    if nibble == 13
    then ((value - 13) % 256) ∷ []
    else if nibble == 14
    then ((value - 269) / 256 % 256) ∷ ((value - 269) % 256) ∷ []
    else []

-- The extension of the option length: its high byte is taken before 269 is subtracted.
unfoldable pub len_bytes : ℕ → ℕ → List ℕ
len_bytes nibble len =
    if nibble == 13
    then ((len - 13) % 256) ∷ []
    else if nibble == 14
    then (len / 256 % 256) ∷ ((len - 269) % 256) ∷ []
    else []

-- All bytes of an option header. `junk` is the value of the variable `len`, which is not initialised.
unfoldable pub option_header : (junk running_delta : ℕ) → CoapOption → List ℕ
option_header junk running_delta o =
    let opt_delta = (o.num + 2 ^ 32 - running_delta) % 2 ^ 32 in
    let delta = option_nibble opt_delta 0 in
    let len = option_nibble (o.buf.len % 2 ^ 32) junk in
    (bit_or (delta * 16) len % 256) ∷ (delta_bytes delta opt_delta ++ len_bytes len o.buf.len)

unfoldable pub build_options :
    (junk buflen running_delta : ℕ) → List ℕ → List CoapOption → Run CoapError (List ℕ)
build_options junk buflen running_delta out [] = ok out
build_options junk buflen running_delta out (o ∷ opts) =
    if ltb buflen (length out) then err buffer_too_small else do
      out₁ ← emit buflen out (option_header junk running_delta o)
      value ← fetch o.buf.p o.buf.len
      out₂ ← emit buflen out₁ value
      build_options junk buflen o.num out₂ opts

-- What `coap_build` leaves: the bytes written, and the new `*buflen`.
pub record Built : Type 0 where
  pub bytes : List ℕ
  pub buflen : ℕ

unfoldable pub build_payload : ℕ → List ℕ → CoapBuffer → Run CoapError Built
build_payload buflen out payload =
    let opts_len = length out - 4 in
    if ltb 0 payload.len
    then (if ltb buflen (4 + 1 + payload.len + opts_len) then err buffer_too_small else do
      out₁ ← emit buflen out (0xFF ∷ [])
      value ← fetch payload.p payload.len
      out₂ ← emit buflen out₁ value
      ok (record { bytes = out₂; buflen = opts_len + 5 + payload.len }))
    else ok (record { bytes = out; buflen = opts_len + 4 })

unfoldable pub build_token : ℕ → List ℕ → CoapHeader → CoapBuffer → Run CoapError (List ℕ)
build_token buflen out hdr tok =
    if ltb 0 hdr.tkl && not (hdr.tkl == tok.len)
    then err unsupported
    else if ltb 0 hdr.tkl
    then (do value ← fetch tok.p hdr.tkl; emit buflen out value)
    else ok out

unfoldable pub build : (junk buflen : ℕ) → CoapPacket → Run CoapError Built
build junk buflen pkt = if ltb buflen (4 + pkt.hdr.tkl) then err buffer_too_small else do
  out₀ ← emit buflen [] (header_bytes pkt.hdr)
  out₁ ← build_token buflen out₀ pkt.hdr pkt.tok
  out₂ ← build_options junk buflen 0 out₁ pkt.opts
  build_payload buflen out₂ pkt.payload
