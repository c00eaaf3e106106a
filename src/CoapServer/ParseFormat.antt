-- ===== src/CoapServer/ParseFormat.antt =====
-- `coap_parse` reads the message format back.
use gateway_project.Base.{
  ℕ, ◌+◌, ◌-◌, ◌*◌, ◌≤◌, ◌≡◌, refl, sym, List, [], ◌∷◌, ◌++◌, map, length, length-append,
  drop-length-append, take-length-append, take-length, append_assoc, arith, ok, deref, ltb-false,
}
use gateway_project.Base.Bits.{and_0f, and_c0, and_30}
use gateway_project.CoapServer.Packet.{
  CoapHeader, CoapBuffer, CoapOption, CoapPacket, content, maxopt, null_buffer,
}
use gateway_project.CoapServer.Parse.{
  parse_header, parse_token, parse_payload, parse_options_and_payload, parse,
}
use gateway_project.CoapServer.BuildFormat.{length-encode_header}
use gateway_project.CoapServer.Format.{
  Message, view_option, view, encode_options, encode_payload, encode_header, encode, AreOptions,
  IsHeader, IsMessage,
}
use gateway_project.CoapServer.OptionsFormat.{
  options_of, view-options_of, IsTail, parse_options-encode_options,
}

parse_payload-encode_payload :
    (bytes : List ℕ)
    → (b : CoapBuffer) × (parse_payload (encode_payload bytes) (length (encode_payload bytes))
        ≡ ok b)
      × (content b ≡ bytes)
unfolding parse_payload encode_payload deref
parse_payload-encode_payload [] = (null_buffer, refl, refl)
parse_payload-encode_payload (x ∷ xs) =
    (record { p = x ∷ xs; len = length (x ∷ xs) }, ground arith, take-length (x ∷ xs))

encode_payload-IsTail : (bytes : List ℕ) → IsTail (encode_payload bytes)
unfolding encode_payload
encode_payload-IsTail [] = tt
encode_payload-IsTail (x ∷ xs) = refl

parse_header-encode_header :
    (h : CoapHeader) (rest : List ℕ) (buflen : ℕ)
    → IsHeader h
    → 4 ≤ buflen
    → parse_header (encode_header h ++ rest) buflen ≡ ok h
unfolding parse_header encode_header deref
parse_header-encode_header h rest buflen w long =
    let b0 = h.ver * 64 + h.t * 16 + h.tkl in ground (arith, and_c0 b0, and_30 b0, and_0f b0)

parse_token-append :
    (h : CoapHeader) (token rest : List ℕ) (buflen : ℕ)
    → IsHeader h
    → length token ≡ h.tkl
    → 4 + h.tkl ≤ buflen
    → (b : CoapBuffer) × (parse_token h (encode_header h ++ (token ++ rest)) buflen ≡ ok b)
      × (content b ≡ token)
unfolding parse_token encode_header
parse_token-append h [] rest buflen w e long = (null_buffer, ground arith, refl)
parse_token-append h (x ∷ xs) rest buflen w e long = (
  record { p = (x ∷ xs) ++ rest; len = h.tkl },
  ground arith,
  take-length-append h.tkl (x ∷ xs) rest (omega arith),
)

-- The body of a message, at the place where the header and the token end.
parse_body-encode :
    (h : CoapHeader) (front : List ℕ) (os : List (ℕ × List ℕ)) (bytes : List ℕ)
    → length front ≡ 4 + h.tkl
    → AreOptions 0 os
    → length os ≤ maxopt
    → (x : List CoapOption × CoapBuffer) × (parse_options_and_payload h
          (front ++ (encode_options 0 os ++ encode_payload bytes))
          (length (front ++ (encode_options 0 os ++ encode_payload bytes)))
        ≡ ok x)
      × (map view_option x.0 ≡ os)
      × (content x.1 ≡ bytes)
unfolding parse_options_and_payload
parse_body-encode h front os bytes e w room =
    let tail = encode_payload bytes in
    let body = encode_options 0 os ++ tail in
    let (b, parsed, same) = parse_payload-encode_payload bytes in
    let total : length (front ++ body) ≡ 4 + h.tkl + length body =
      omega (arith, length-append front body) in
    let left : length (front ++ body) - (4 + h.tkl) ≡ length body = omega arith in
    (
      (options_of 0 os tail, b),
      rw (
        ltb-false (length (front ++ body)) (4 + h.tkl) (omega arith),
        left,
        drop-length-append (4 + h.tkl) front body (sym e),
        parse_options-encode_options maxopt 0 os tail (encode_payload-IsTail bytes) w room,
        parsed,
      ),
      view-options_of 0 os tail,
      same,
    )

-- `coap_parse` accepts the bytes of every well-formed message, and the packet that it makes of them
-- stands for that message.
pub parse-encode :
    (m : Message)
    → IsMessage m
    → (k : CoapPacket) × (parse (encode m) (length (encode m)) ≡ ok k) × (view k ≡ m)
unfolding parse encode
parse-encode m w =
    let head = encode_header m.hdr in
    let body = encode_options 0 m.options ++ encode_payload m.payload in
    let total : length (head ++ (m.token ++ body)) ≡ 4 + m.hdr.tkl + length body = omega (
      arith,
      length-append head (m.token ++ body),
      length-append m.token body,
      length-encode_header m.hdr,
      w.token,
    ) in
    let (tok, et, vt) =
      parse_token-append m.hdr m.token body (length (head ++ (m.token ++ body))) w.header w.token
        (omega arith) in
    let (x, ex, vo, vp) =
      parse_body-encode m.hdr (head ++ m.token) m.options m.payload
        (omega (arith, length-append head m.token, length-encode_header m.hdr, w.token)) w.options
        w.room in
    (
      record { hdr = m.hdr; tok = tok; opts = x.0; payload = x.1 },
      rw (
        parse_header-encode_header m.hdr (m.token ++ body) (length (head ++ (m.token ++ body)))
            w.header (omega arith),
        et,
        rw (append_assoc head m.token body) at ex,
      ),
      λ i. record { hdr = m.hdr; token = vt i; options = vo i; payload = vp i },
    )
