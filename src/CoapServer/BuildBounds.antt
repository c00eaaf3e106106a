-- ===== src/CoapServer/BuildBounds.antt =====
-- Where `coap_build` checks the size of the buffer, and where it does not.
use gateway_project.Base.{
  ℕ, ◌+◌, ◌-◌, ◌%◌, ◌^◌, ◌≤◌, ◌<◌, ◌≡◌, ◌≢◌, ◌↔◌, ap, List, [], ◌∷◌, ◌++◌, length, arith, ok, err,
  fault, dec_lt, ltb, ltb-false, lt→ltb, if◌then◌else◌,
}
use gateway_project.CoapServer.Packet.{buffer_too_small, CoapOption, CoapPacket}
use gateway_project.CoapServer.Build.{len_bytes, option_header, build}
use gateway_project.CoapServer.Format.{
  view, nibble, extension, encode_option, encode_options, encode, IsMessage,
}
use gateway_project.CoapServer.ParseSafety.{IsInside}
use gateway_project.CoapServer.BuildFormat.{
  option_header-encode_option, build-encode, option_nibble-nibble, delta_bytes-extension,
}
use gateway_project.CoapServer.BuildSteps.{build_fault, build_payload_short}

-- What `coap_build` does with a well-formed packet whose pointers are backed and whose `tok.len` is
-- `hdr.tkl`, by the size of the buffer. It answers COAP_ERR_BUFFER_TOO_SMALL if the header and the
-- token do not fit, or if only the payload does not fit; it writes the message if all of it fits. If
-- the options do not fit, no check stops it from writing behind the end of the buffer.
pub build_lem :
    (junk buflen : ℕ) (k : CoapPacket)
    → IsMessage (view k)
    → IsInside k
    → k.tok.len ≡ k.hdr.tkl
    → build junk buflen k ≡ (
        if ltb buflen (4 + k.hdr.tkl)
        then err buffer_too_small
        else if ltb buflen (4 + k.hdr.tkl + length (encode_options 0 (view k).options))
        then fault
        else if ltb buflen (length (encode (view k)))
        then err buffer_too_small
        else ok (record { bytes = encode (view k); buflen = length (encode (view k)) }))
build_lem junk buflen k w (bt, bo, bp, br) e = elim (dec_lt buflen (4 + k.hdr.tkl)) [
  | yes h ↦
      rw (lt→ltb buflen (4 + k.hdr.tkl) h) (unfold build in rw (lt→ltb buflen (4 + k.hdr.tkl) h))
  | no h ↦
      rw (ltb-false buflen (4 + k.hdr.tkl) (omega arith))
        (elim (dec_lt buflen (4 + k.hdr.tkl + length opts)) [
          | yes h' ↦
              rw (lt→ltb buflen (4 + k.hdr.tkl + length opts) h')
                (build_fault junk buflen k w bt bo e (omega arith) h')
          | no h' ↦
              rw (ltb-false buflen (4 + k.hdr.tkl + length opts) (omega arith))
                (elim (dec_lt buflen (length (encode (view k)))) [
                  | yes h'' ↦
                      rw (lt→ltb buflen (length (encode (view k))) h'')
                        (build_payload_short junk buflen k w bt bo bp e (omega arith) h'')
                  | no h'' ↦
                      rw (ltb-false buflen (length (encode (view k))) (omega arith))
                        (build-encode junk buflen k w (bt, bo, bp, br) e (omega arith))
                ])
        ])
]
  where
    opts : List ℕ
    opts = encode_options 0 (view k).options

len_bytes_wrong : (len : ℕ) → 269 ≤ len → len < 65805 → len_bytes (nibble len) len ≢ extension len
unfolding len_bytes nibble extension
len_bytes_wrong len lo hi e = ground arith

abbrev tail_of : List ℕ → List ℕ
tail_of [] = []
tail_of (x ∷ xs) = xs

append-cancel : (xs ys zs : List ℕ) → xs ++ ys ≡ xs ++ zs → ys ≡ zs
append-cancel [] ys zs e = e
append-cancel (x ∷ xs) ys zs e = append-cancel xs ys zs (cc)

option_header-cancel :
    (junk prev : ℕ) (o : CoapOption)
    → prev ≤ o.num
    → o.num < 256
    → o.buf.len < 65805
    → option_header junk prev o ≡ encode_option (o.num - prev) o.buf.len
    → len_bytes (nibble o.buf.len) o.buf.len ≡ extension o.buf.len
unfolding option_header encode_option
option_header-cancel junk prev o sorted small short e =
    let d : (o.num + 2 ^ 32 - prev) % 2 ^ 32 ≡ o.num - prev = omega arith in
    let l : o.buf.len % 2 ^ 32 ≡ o.buf.len = omega arith in
    append-cancel (extension (o.num - prev)) _ _ (
      rw
        (
          d,
          l,
          option_nibble-nibble (o.num - prev) 0 (omega arith),
          option_nibble-nibble o.buf.len junk (omega arith),
          delta_bytes-extension (o.num - prev) (omega arith),
        )
        at (ap tail_of e))

-- `coap_build` writes the right header of an option exactly if its value has less than 269 bytes: for
-- 269 bytes and more the high byte of the extended length is taken before 269 is subtracted. The
-- conditions are an ascending number below 256 and a length that the format can express.
pub option_header_iff :
    (junk prev : ℕ) (o : CoapOption)
    → prev ≤ o.num
    → o.num < 256
    → o.buf.len < 65805
    → (option_header junk prev o ≡ encode_option (o.num - prev) o.buf.len) ↔ (o.buf.len < 269)
option_header_iff junk prev o sorted small short = (
  λ e. elim (dec_lt o.buf.len 269) [
    | yes h ↦ h
    | no h ↦ absurd (
        len_bytes_wrong o.buf.len (omega arith) short
          (option_header-cancel junk prev o sorted small short e))
  ],
  λ h. option_header-encode_option junk prev o sorted small h,
)
