-- ===== src/CoapServer/BuildFormat.antt =====
-- `coap_build` writes the message format, for values of at most 268 bytes.
use gateway_project.Base.{
  ℕ, suc, ◌+◌, ◌-◌, ◌*◌, ◌%◌, ◌^◌, ◌≤◌, ◌<◌, ◌≡◌, refl, sym, ap, ◌∙◌, List, [], ◌∷◌, ◌++◌, All, map,
  length, length-append, length-take, append-nil, append_assoc, arith, ok, fetch-ok, emit-ok,
  bit_and, dec_lt, ltb-false, lt→ltb, ==_true,
}
use gateway_project.Base.Bits.{or_nibbles, or_pairs, and_0f, and_03}
use gateway_project.CoapServer.Packet.{CoapHeader, CoapBuffer, CoapOption, CoapPacket, content}
use gateway_project.CoapServer.Build.{
  option_nibble, header_bytes, delta_bytes, len_bytes, option_header, build_options, build_payload,
  build_token, build,
}
use gateway_project.CoapServer.Format.{
  view_option, view, nibble, extension, encode_option, encode_options, encode_payload,
  encode_header, encode, AreOptions, IsHeader, IsMessage,
}
use gateway_project.CoapServer.ParseSafety.{IsBacked, IsInside}

pub option_nibble-nibble : (v old : ℕ) → v < 65805 → option_nibble v old ≡ nibble v
unfolding option_nibble nibble
option_nibble-nibble v old h = ground arith

nibble-lt : (v : ℕ) → nibble v < 16
unfolding nibble
nibble-lt v = ground arith

pub delta_bytes-extension : (v : ℕ) → v < 269 → delta_bytes (nibble v) v ≡ extension v
unfolding delta_bytes nibble extension
delta_bytes-extension v h = ground arith

len_bytes-extension : (v : ℕ) → v < 269 → len_bytes (nibble v) v ≡ extension v
unfolding len_bytes nibble extension
len_bytes-extension v h = ground arith

pub option_header-encode_option :
    (junk prev : ℕ) (o : CoapOption)
    → prev ≤ o.num
    → o.num < 256
    → o.buf.len < 269
    → option_header junk prev o ≡ encode_option (o.num - prev) o.buf.len
unfolding option_header encode_option
option_header-encode_option junk prev o sorted small short =
    let d : (o.num + 2 ^ 32 - prev) % 2 ^ 32 ≡ o.num - prev = omega arith in
    let l : o.buf.len % 2 ^ 32 ≡ o.buf.len = omega arith in
    rw
      (
        d,
        l,
        option_nibble-nibble (o.num - prev) 0 (omega arith),
        option_nibble-nibble o.buf.len junk (omega arith),
        delta_bytes-extension (o.num - prev) (omega arith),
        len_bytes-extension o.buf.len short,
        or_nibbles _ _ (nibble-lt (o.num - prev)) (nibble-lt o.buf.len),
      )
      (ap (λ (b : ℕ). b ∷ (extension (o.num - prev) ++ extension o.buf.len))
        (omega (arith, nibble-lt (o.num - prev), nibble-lt o.buf.len)))

pub header_bytes-encode_header : (h : CoapHeader) → IsHeader h → header_bytes h ≡ encode_header h
unfolding header_bytes encode_header
header_bytes-encode_header h w =
    let v : bit_and h.ver 3 ≡ h.ver = and_03 h.ver (omega arith) ∙ omega arith in
    let t : bit_and h.t 3 ≡ h.t = and_03 h.t (omega arith) ∙ omega arith in
    let k : bit_and h.tkl 15 ≡ h.tkl = and_0f h.tkl (omega arith) ∙ omega arith in
    rw
      (
        v,
        t,
        k,
        or_pairs h.ver h.t (omega arith) (omega arith),
        or_nibbles (h.ver * 4 + h.t) h.tkl (omega arith) (omega arith),
      )
      (ap (λ (b : ℕ). b ∷ h.code ∷ h.id_hi ∷ h.id_lo ∷ []) (omega arith))

pub length-content : (b : CoapBuffer) → IsBacked b → length (content b) ≡ b.len
length-content b h = omega (arith, length-take b.len b.p)

module _ (junk buflen : ℕ) where
  pub build_options-encode_options :
      (prev : ℕ) (out : List ℕ) (opts : List CoapOption)
      → AreOptions prev (map view_option opts)
      → All (λ (o : CoapOption). IsBacked o.buf) opts
      → length out + length (encode_options prev (map view_option opts)) ≤ buflen
      → build_options junk buflen prev out opts
        ≡ ok (out ++ encode_options prev (map view_option opts))
  unfolding build_options encode_options
  build_options-encode_options prev out [] w b room = ap ok (sym (append-nil out))
  build_options-encode_options prev out (o ∷ opts) (sorted, small, short, w) (b, bs) room =
      let value = content o.buf in
      let rest = encode_options o.num (map view_option opts) in
      let head = encode_option (o.num - prev) (length value) in
      let len : length value ≡ o.buf.len = length-content o.buf b in
      let e : option_header junk prev o ≡ head =
        option_header-encode_option junk prev o sorted small (omega arith)
        ∙ ap (encode_option (o.num - prev)) (sym len) in
      let fits : length out + (length head + (length value + length rest)) ≤ buflen =
        omega (arith, length-append head (value ++ rest), length-append value rest, room) in
      rw
        (
          ltb-false buflen (length out) (omega arith),
          e,
          emit-ok buflen out head (omega arith),
          fetch-ok o.buf.p o.buf.len b,
          emit-ok buflen (out ++ head) value (omega (arith, length-append out head)),
        )
        (build_options-encode_options o.num ((out ++ head) ++ value) opts w bs
            (omega (arith, length-append (out ++ head) value, length-append out head))
          ∙ ap ok (append_assoc (out ++ head) value rest ∙ append_assoc out head (value ++ rest)))

-- The two cases of a payload, by the bytes that it denotes.
build_payload-by_content :
    (buflen : ℕ) (out bytes : List ℕ) (payload : CoapBuffer)
    → 4 ≤ length out
    → IsBacked payload
    → content payload ≡ bytes
    → length (out ++ encode_payload bytes) ≤ buflen
    → build_payload buflen out payload
      ≡ ok (record {
        bytes = out ++ encode_payload bytes;
        buflen = length (out ++ encode_payload bytes);
      })
unfolding build_payload encode_payload
build_payload-by_content buflen out [] payload long b e room =
    let len : payload.len ≡ 0 = omega (arith, length-content payload b, ap length e) in
    rw (ltb-false 0 payload.len (omega arith), append-nil out)
      (ap (λ (n : ℕ). ok (record { bytes = out; buflen = n })) (omega arith))
build_payload-by_content buflen out (x ∷ xs) payload long b e room =
    let len : payload.len ≡ suc (length xs) =
      omega (arith, length-content payload b, ap length e) in
    let total : length (out ++ (0xFF ∷ x ∷ xs)) ≡ length out + 2 + length xs =
      omega (arith, length-append out (0xFF ∷ x ∷ xs)) in
    rw
      (
        lt→ltb 0 payload.len (omega arith),
        ltb-false buflen (4 + 1 + payload.len + (length out - 4)) (omega arith),
        emit-ok buflen out (0xFF ∷ []) (omega arith),
        fetch-ok payload.p payload.len b,
        e,
        emit-ok buflen (out ++ (0xFF ∷ [])) (x ∷ xs) (omega (arith, length-append out (0xFF ∷ []))),
        append_assoc out (0xFF ∷ []) (x ∷ xs),
      )
      (ap (λ (n : ℕ). ok (record { bytes = out ++ (0xFF ∷ x ∷ xs); buflen = n })) (omega arith))

build_payload-encode_payload :
    (buflen : ℕ) (out : List ℕ) (payload : CoapBuffer)
    → 4 ≤ length out
    → IsBacked payload
    → length (out ++ encode_payload (content payload)) ≤ buflen
    → build_payload buflen out payload
      ≡ ok (record {
        bytes = out ++ encode_payload (content payload);
        buflen = length (out ++ encode_payload (content payload));
      })
build_payload-encode_payload buflen out payload long b room =
    build_payload-by_content buflen out (content payload) payload long b refl room

pub build_token-append :
    (buflen : ℕ) (out : List ℕ) (hdr : CoapHeader) (tok : CoapBuffer)
    → tok.len ≡ hdr.tkl
    → IsBacked tok
    → length out + hdr.tkl ≤ buflen
    → build_token buflen out hdr tok ≡ ok (out ++ content tok)
unfolding build_token
build_token-append buflen out hdr tok e b room = elim (dec_lt 0 hdr.tkl) [
  | yes some_token ↦
      rw
        (
          lt→ltb 0 hdr.tkl some_token,
          ==_true hdr.tkl tok.len (sym e),
          ← e,
          fetch-ok tok.p tok.len b,
        )
        (emit-ok buflen out (content tok) (omega (arith, length-content tok b)))
  | no none_at_all ↦
      let z : tok.len ≡ 0 = omega arith in
      rw (ltb-false 0 hdr.tkl (omega arith), z) (ap ok (sym (append-nil out)))
]

pub length-encode_header : (h : CoapHeader) → length (encode_header h) ≡ 4
unfolding encode_header
length-encode_header h = refl

-- `coap_build` writes exactly the message format of the packet and sets `*buflen` to its length,
-- whatever the uninitialised variable holds, if the packet is well formed, its pointers are backed,
-- its option values have at most 268 bytes, and the bytes fit into the buffer.
pub build-encode :
    (junk buflen : ℕ) (k : CoapPacket)
    → IsMessage (view k)
    → IsInside k
    → k.tok.len ≡ k.hdr.tkl
    → length (encode (view k)) ≤ buflen
    → build junk buflen k
      ≡ ok (record { bytes = encode (view k); buflen = length (encode (view k)) })
unfolding build encode
build-encode junk buflen k w (bt, bo, bp, _) e room =
    let head = encode_header k.hdr in
    let token = content k.tok in
    let opts = encode_options 0 (map view_option k.opts) in
    let payload = encode_payload (content k.payload) in
    let fits : length head + (length token + (length opts + length payload)) ≤ buflen = omega (
      arith,
      room,
      length-append head (token ++ (opts ++ payload)),
      length-append token (opts ++ payload),
      length-append opts payload,
    ) in
    let four : length head ≡ 4 = length-encode_header k.hdr in
    let tkl : length token ≡ k.hdr.tkl = w.token in
    let parts : ((head ++ token) ++ opts) ++ payload ≡ head ++ (token ++ (opts ++ payload)) =
      append_assoc (head ++ token) opts payload ∙ append_assoc head token (opts ++ payload) in
    rw
      (
        ltb-false buflen (4 + k.hdr.tkl) (omega arith),
        header_bytes-encode_header k.hdr w.header,
        emit-ok buflen [] head (omega arith),
        build_token-append buflen head k.hdr k.tok e bt (omega arith),
        build_options-encode_options junk buflen 0 (head ++ token) k.opts w.options bo
            (omega (arith, length-append head token)),
        build_payload-encode_payload buflen ((head ++ token) ++ opts) k.payload
            (omega (arith, length-append (head ++ token) opts, length-append head token)) bp
            (omega (
              arith,
              length-append ((head ++ token) ++ opts) payload,
              length-append (head ++ token) opts,
              length-append head token,
            )),
      )
      (ap (λ (bytes : List ℕ). ok (record { bytes = bytes; buflen = length bytes })) parts)
