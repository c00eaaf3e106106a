-- ===== src/CoapClient/Payload.antt =====
-- `coap_get_payload` on the messages of the format.
use gateway_project.Base.{
  ℕ, zero, suc, ◌+◌, ◌-◌, ◌*◌, ◌%◌, ◌^◌, ◌<◌, ◌≡◌, ◌≢◌, refl, sym, List, [], ◌∷◌, ◌++◌,
  append_assoc, length, length-append, none, some, ok, err, deref, arith, ==_false,
}
use gateway_project.Base.Bits.{and_0f}
use gateway_project.CoapServer.Packet.{CoapHeader}
use gateway_project.CoapServer.Format.{
  Message, encode, encode_header, encode_options, encode_option, encode_payload, AreOptions,
  IsMessage, IsHeader,
}
use gateway_project.CoapClient.Pdu.{ClientError, ClientPayload, sub_word, found_payload_marker}
use gateway_project.Base.Writes.{deref-append}
use gateway_project.CoapClient.Decode.{decode_option}
use gateway_project.CoapClient.Getters.{get_tkl, payload_loop, get_payload}
use gateway_project.CoapClient.Header.{length-encode_option}
use gateway_project.CoapClient.Options.{compute_option_header_len}
use gateway_project.CoapClient.HeaderDecode.{decode_option-encode_option}
use gateway_project.CoapClient.Message.{decode_option-end, header_bounds}

-- Where the payload of a message of some length stands, and how long it is.
abbrev pub payload_at : (total : ℕ) → List ℕ → ClientPayload
payload_at total [] = record { len = 0; val = none }
payload_at total (b ∷ bs) = record { len = length (b ∷ bs); val = some (total - length (b ∷ bs)) }

pub decode_option-marker :
    (p rest : List ℕ) (pkt_len : ℕ)
    → pkt_len ≢ 0
    → decode_option (p ++ (0xFF ∷ rest)) (length p) pkt_len ≡ err found_payload_marker
unfolding decode_option
decode_option-marker p rest pkt_len ne =
    rw (==_false pkt_len 0 ne, deref-append ClientError p 0xFF rest (length p) refl)

-- At the end of the options.
payload_loop-last :
    (fuel max : ℕ) (p msg junk : List ℕ)
    → length p + length (encode_payload msg) < 2 ^ 63
    → payload_loop
        (suc fuel)
        (record {
          buf = p ++ (encode_payload msg ++ junk);
          len = length p + length (encode_payload msg);
          max = max;
        })
        (length p)
      ≡ ok (payload_at (length p + length (encode_payload msg)) msg)
unfolding payload_loop encode_payload
payload_loop-last fuel max p [] junk small = rw (
  payload_loop,
  decode_option-end (p ++ junk) (length p) (sub_word (length p + 0) (length p))
      (omega (arith, small)),
)
payload_loop-last fuel max p (b ∷ bs) junk small =
    let total = length p + suc (suc (length bs)) in
    let len : sub_word (sub_word total (length p)) 1 ≡ suc (length bs) = omega (arith, small) in
    let place : length p + 1 ≡ total - suc (length bs) = omega arith in
    rw (
      payload_loop,
      decode_option-marker p ((b ∷ bs) ++ junk) (sub_word total (length p)) (omega (arith, small)),
      len,
      place,
    )

-- One option.
payload_loop-step :
    (fuel len max num l : ℕ) (p value rest : List ℕ)
    → num < 65536
    → l ≡ length value
    → l < 65536
    → length p < len
    → len < 2 ^ 63
    → payload_loop
        (suc fuel)
        (record { buf = p ++ (encode_option num l ++ (value ++ rest)); len = len; max = max })
        (length p)
      ≡ payload_loop fuel
          (record { buf = ((p ++ encode_option num l) ++ value) ++ rest; len = len; max = max })
          (length ((p ++ encode_option num l) ++ value))
unfolding payload_loop
payload_loop-step fuel len max num l p value rest hn e hl low small =
    let enc = encode_option num l in
    let next : length p + compute_option_header_len num l + l ≡ length ((p ++ enc) ++ value) =
      omega (
        arith,
        length-append (p ++ enc) value,
        length-append p enc,
        length-encode_option num l,
        e,
      ) in
    rw (
      payload_loop,
      decode_option-encode_option p (value ++ rest) num l (sub_word len (length p)) hn hl
          (omega (arith, low, small)),
      next,
      append_assoc (p ++ enc) value rest,
      append_assoc p enc (value ++ rest),
    )

payload_loop-encode :
    (fuel len max prev : ℕ) (p : List ℕ) (os : List (ℕ × List ℕ)) (msg junk : List ℕ)
    → AreOptions prev os
    → length os < fuel
    → len ≡ length p + length (encode_options prev os ++ encode_payload msg)
    → len < 2 ^ 63
    → payload_loop fuel
        (record {
          buf = p ++ ((encode_options prev os ++ encode_payload msg) ++ junk);
          len = len;
          max = max;
        })
        (length p)
      ≡ ok (payload_at len msg)
unfolding encode_options
payload_loop-encode zero len max prev p os msg junk w f e small = absurd (omega (arith, f))
payload_loop-encode (suc fuel) len max prev p [] msg junk w f e small =
    rw e (payload_loop-last fuel max p msg junk (omega (arith, e, small)))
payload_loop-encode (suc fuel) len max prev p ((num, value) ∷ os) msg junk (o, n, v, w) f e small =
    let l = length value in
    let enc = encode_option (num - prev) l in
    let more = encode_options num os in
    let ep = encode_payload msg in
    let q = (p ++ enc) ++ value in
    let len-all : length ((enc ++ (value ++ more)) ++ ep)
        ≡ compute_option_header_len (num - prev) l + l + length (more ++ ep) =
      omega (
        arith,
        length-append (enc ++ (value ++ more)) ep,
        length-append enc (value ++ more),
        length-append value more,
        length-append more ep,
        length-encode_option (num - prev) l,
      ) in
    let len-q : length q ≡ length p + (compute_option_header_len (num - prev) l + l) = omega (
      arith,
      length-append (p ++ enc) value,
      length-append p enc,
      length-encode_option (num - prev) l,
    ) in
    rw
      (
        append_assoc (enc ++ (value ++ more)) ep junk,
        append_assoc enc (value ++ more) (ep ++ junk),
        append_assoc value more (ep ++ junk),
        payload_loop-step fuel len max (num - prev) l p value (more ++ (ep ++ junk))
            (omega (arith, n)) refl (omega (arith, v))
            (omega (arith, e, len-all, header_bounds (num - prev) l)) small,
        sym (append_assoc more ep junk),
      )
      (payload_loop-encode fuel len max num q os msg junk w (omega (arith, f))
        (omega (arith, e, len-all, len-q)) small)

pub get_tkl_lem :
    (h : CoapHeader) (rest : List ℕ) (len max : ℕ)
    → IsHeader h
    → get_tkl (record { buf = encode_header h ++ rest; len = len; max = max }) ≡ ok h.tkl
unfolding get_tkl encode_header deref
get_tkl_lem h rest len max w =
    let b = h.ver * 64 + h.t * 16 + h.tkl in
    let e : b % 16 ≡ h.tkl = omega (arith, w.token_length) in
    rw (and_0f b (omega (arith, w.version, w.type, w.token_length)), e)

pub length-encode_header : (h : CoapHeader) → length (encode_header h) ≡ 4
unfolding encode_header
length-encode_header h = refl

-- On a buffer that begins with the bytes of a well-formed message of the format of fewer than 2 ^ 63
-- bytes, whose length is the length of the message, and whatever follows it, `coap_get_payload` gives
-- the payload of the message: its length and its offset, or the length 0 and NULL if there is none.
-- Fuel for one round more than the number of options is enough.
pub get_payload-encode :
    (m : Message) (fuel max : ℕ) (junk : List ℕ)
    → IsMessage m
    → length m.options < fuel
    → length (encode m) < 2 ^ 63
    → get_payload fuel (record { buf = encode m ++ junk; len = length (encode m); max = max })
      ≡ ok (payload_at (length (encode m)) m.payload)
unfolding get_payload encode
get_payload-encode m fuel max junk w f small =
    let head = encode_header m.hdr in
    let body = encode_options 0 m.options ++ encode_payload m.payload in
    let len = length (head ++ (m.token ++ body)) in
    let start : length (head ++ m.token) ≡ 4 + m.hdr.tkl =
      omega (arith, length-append head m.token, w.token, length-encode_header m.hdr) in
    let total : len ≡ length (head ++ m.token) + length body = omega (
      arith,
      length-append head (m.token ++ body),
      length-append m.token body,
      length-append head m.token,
    ) in
    rw
      (
        append_assoc head (m.token ++ body) junk,
        get_tkl_lem m.hdr ((m.token ++ body) ++ junk) len max w.header,
        sym start,
        append_assoc m.token body junk,
        sym (append_assoc head m.token (body ++ junk)),
      )
      (payload_loop-encode fuel len max 0 (head ++ m.token) m.options m.payload junk w.options f
        total small)
