-- ===== src/CoapClient/Building.antt =====
-- Calls of `coap_add_option`, and of `coap_set_payload`, build the messages of the format.
use gateway_project.Base.{
  ℕ, suc, ◌+◌, ◌^◌, ◌≤◌, ◌<◌, ◌≡◌, sym, ap, ◌∙◌, subst, List, [], ◌∷◌, ◌++◌, append-nil, length,
  length-append, drop, ok, ◌>>=◌, arith,
}
use gateway_project.CoapServer.Packet.{CoapHeader}
use gateway_project.CoapServer.Format.{
  Message, encode, encode_header, encode_options, encode_payload, AreOptions, IsHeader, IsMessage,
}
use gateway_project.CoapClient.Options.{set_payload}
use gateway_project.CoapClient.Message.{set_payload-append}
use gateway_project.CoapClient.Places.{Options, last_num}
use gateway_project.CoapClient.Adding.{
  unpaid, start_of, encode-unpaid, get_tkl-unpaid, place-unpaid,
}
use gateway_project.CoapClient.AddedOptions.{
  add_all, add_all-encode, paid, encode-paid, last_num-bound,
}

set_payload-encode :
    (h : CoapHeader) (token : List ℕ) (os : Options) (b : ℕ) (bs : List ℕ) (fuel max : ℕ)
    (rest : List ℕ)
    → IsHeader h
    → length token ≡ h.tkl
    → AreOptions 0 os
    → length os < fuel
    → max ≡ length (encode (unpaid h token os)) + length rest
    → max < 2 ^ 63
    → 1 + length (b ∷ bs) ≤ length rest
    → (left : List ℕ) × (set_payload fuel
          (record {
            buf = encode (unpaid h token os) ++ rest;
            len = length (encode (unpaid h token os));
            max = max;
          })
          (b ∷ bs)
          (length (b ∷ bs))
        ≡ ok (record {
          buf = encode (paid h token os (b ∷ bs)) ++ left;
          len = length (encode (paid h token os (b ∷ bs)));
          max = max;
        }))
unfolding encode_payload
set_payload-encode h token os b bs fuel max [] header tkl w f hmax small room =
    absurd (omega (arith, room))
set_payload-encode h token os b bs fuel max (z ∷ rest) header tkl w f hmax small room =
    let q = encode (unpaid h token os) in
    let msg = b ∷ bs in
    let left = drop (length msg) rest in
    let bytes : encode (paid h token os msg) ≡ (q ++ (0xFF ∷ [])) ++ msg =
      encode-paid h token os b bs in
    let size : length (encode (paid h token os msg)) ≡ length q + 1 + length msg =
      ap length bytes
      ∙ omega (arith, length-append (q ++ (0xFF ∷ [])) msg, length-append q (0xFF ∷ [])) in
    let done =
      set_payload-append fuel q rest z max (length token) (last_num 0 os) msg
        (get_tkl-unpaid h token os header tkl w (z ∷ rest) (length q) max)
        (place-unpaid h token os header tkl w fuel max (2 ^ 16) (z ∷ rest)
          (last_num-bound 0 os w (omega arith)) f (omega (arith, hmax, small)))
        (omega (arith, hmax)) (omega (arith, small)) (omega (arith, room)) in
    (left, rw (sym bytes, sym size) at done)

-- On a buffer of `max` bytes that begins with a header and its token, with the length of these, the
-- calls of `coap_add_option` for any options in ascending order of their numbers, numbers below 256 and
-- values of at most 268 bytes, followed by `coap_set_payload` with at least one byte, leave in the buffer
-- exactly the message of RFC 7252 with this header, token, options and payload, and its length, if the
-- message fits into the buffer. Fuel for one round more than the number of options is enough.
pub set_payload-add_all :
    (m : Message) (fuel max b : ℕ) (bs rest : List ℕ)
    → IsMessage m
    → m.payload ≡ b ∷ bs
    → length m.options < fuel
    → max ≡ length (encode_header m.hdr ++ m.token) + length rest
    → length (encode m) ≤ max
    → max < 2 ^ 63
    → (left : List ℕ) × ((add_all fuel
            (record {
              buf = (encode_header m.hdr ++ m.token) ++ rest;
              len = length (encode_header m.hdr ++ m.token);
              max = max;
            })
            m.options
          >>= λ pdu. set_payload fuel pdu m.payload (length m.payload))
        ≡ ok (record { buf = encode m ++ left; len = length (encode m); max = max }))
unfolding encode_options
set_payload-add_all m fuel max b bs rest w e f hmax room small =
    let start : encode (unpaid m.hdr m.token []) ≡ encode_header m.hdr ++ m.token =
      encode-unpaid m.hdr m.token [] ∙ append-nil (start_of m.hdr m.token) in
    let whole : encode m ≡ (encode (unpaid m.hdr m.token m.options) ++ (0xFF ∷ [])) ++ (b ∷ bs) =
      rw e (encode-paid m.hdr m.token m.options b bs) in
    let size : length (encode m)
        ≡ length (encode (unpaid m.hdr m.token m.options)) + 1 + suc (length bs) =
      ap length whole
      ∙ omega (
        arith,
        length-append (encode (unpaid m.hdr m.token m.options) ++ (0xFF ∷ [])) (b ∷ bs),
        length-append (encode (unpaid m.hdr m.token m.options)) (0xFF ∷ []),
      ) in
    let (rest1, added, hmax1) =
      add_all-encode m.hdr m.token [] m.options fuel max rest w.header w.token w.options
        (omega (arith, f)) (rw start hmax) small (omega (arith, size, room)) in
    let (left, done) =
      set_payload-encode m.hdr m.token m.options b bs fuel max rest1 w.header w.token w.options f
        hmax1 small (omega (arith, hmax1, size, room)) in
    let from_start =
      subst
        (λ (x : List ℕ).
          add_all fuel (record { buf = x ++ rest; len = length x; max = max }) m.options
          ≡ ok (record {
            buf = encode (unpaid m.hdr m.token m.options) ++ rest1;
            len = length (encode (unpaid m.hdr m.token m.options));
            max = max;
          }))
        start added in
    let to_end =
      subst
        (λ (x : List ℕ).
          set_payload fuel
            (record {
              buf = encode (unpaid m.hdr m.token m.options) ++ rest1;
              len = length (encode (unpaid m.hdr m.token m.options));
              max = max;
            })
            x (length x)
          ≡ ok (record {
            buf = encode (paid m.hdr m.token m.options x) ++ left;
            len = length (encode (paid m.hdr m.token m.options x));
            max = max;
          }))
        (sym e) done in
    (
      left,
      ap (λ r. r >>= λ pdu. set_payload fuel pdu m.payload (length m.payload)) from_start ∙ to_end,
    )
