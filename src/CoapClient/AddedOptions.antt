-- ===== src/CoapClient/AddedOptions.antt =====
-- Calls of `coap_add_option` for options in ascending order.
use gateway_project.Base.{
  ℕ, ◌+◌, ◌-◌, ◌^◌, ◌≤◌, ◌<◌, ◌≡◌, refl, ap, ◌∙◌, List, [], ◌∷◌, ◌++◌, append-nil, append_assoc,
  length, length-append, Run, ok, ◌>>=◌, arith,
}
use gateway_project.CoapServer.Packet.{CoapHeader}
use gateway_project.CoapServer.Format.{
  Message, encode, encode_header, encode_options, encode_option, encode_payload, AreOptions,
  IsHeader,
}
use gateway_project.CoapClient.Pdu.{ClientError, Pdu}
use gateway_project.CoapClient.Header.{length-encode_option}
use gateway_project.CoapClient.Options.{add_option, compute_option_header_len}
use gateway_project.CoapClient.Places.{Options, last_num}
use gateway_project.CoapClient.Adding.{
  unpaid, start_of, length-start_of, encode-unpaid, encode_options-append, add_option-encode,
}

-- The calls of `coap_add_option` for some options, in their order.
unfoldable pub add_all : (fuel : ℕ) → Pdu → Options → Run ClientError Pdu
add_all fuel pdu [] = ok pdu
add_all fuel pdu ((num, value) ∷ os) = do
  added ← add_option fuel pdu num value (length value)
  add_all fuel added os

AreOptions-append :
    (prev : ℕ) (os : Options) (num : ℕ) (value : List ℕ) (more : Options)
    → AreOptions prev (os ++ ((num, value) ∷ more))
    → AreOptions prev (os ++ ((num, value) ∷ []))
      × (last_num prev os ≤ num)
      × (num < 256)
      × (length value < 269)
AreOptions-append prev [] num value more (o, n, v, w) = ((o, n, v, tt), o, n, v)
AreOptions-append prev ((n', v') ∷ os) num value more (o, n, v, w) =
    let (r, up, lo, vl) = AreOptions-append n' os num value more w in ((o, n, v, r), up, lo, vl)

AreOptions-init : (prev : ℕ) (os more : Options) → AreOptions prev (os ++ more) → AreOptions prev os
AreOptions-init prev [] more w = tt
AreOptions-init prev ((num, value) ∷ os) more (o, n, v, w) =
    (o, n, v, AreOptions-init num os more w)

length-encode_options-append :
    (prev : ℕ) (os more : Options)
    → length (encode_options prev (os ++ more))
      ≡ length (encode_options prev os) + length (encode_options (last_num prev os) more)
length-encode_options-append prev os more =
    ap length (encode_options-append prev os more)
    ∙ length-append (encode_options prev os) (encode_options (last_num prev os) more)

length-encode-unpaid :
    (h : CoapHeader) (token : List ℕ) (os : Options)
    → length (encode (unpaid h token os)) ≡ 4 + length token + length (encode_options 0 os)
length-encode-unpaid h token os =
    ap length (encode-unpaid h token os)
    ∙ (length-append (start_of h token) (encode_options 0 os)
        ∙ omega (arith, length-start_of h token))

length-first :
    (prev num : ℕ) (value : List ℕ) (more : Options)
    → compute_option_header_len (num - prev) (length value) + length value
      ≤ length (encode_options prev ((num, value) ∷ more))
unfolding encode_options
length-first prev num value more = omega (
  arith,
  length-append (encode_option (num - prev) (length value)) (value ++ encode_options num more),
  length-append value (encode_options num more),
  length-encode_option (num - prev) (length value),
)

pub add_all-encode :
    (h : CoapHeader) (token : List ℕ) (os more : Options) (fuel max : ℕ) (rest : List ℕ)
    → IsHeader h
    → length token ≡ h.tkl
    → AreOptions 0 (os ++ more)
    → length (os ++ more) ≤ fuel
    → max ≡ length (encode (unpaid h token os)) + length rest
    → max < 2 ^ 63
    → length (encode (unpaid h token (os ++ more))) ≤ max
    → (left : List ℕ) × (add_all fuel
          (record {
            buf = encode (unpaid h token os) ++ rest;
            len = length (encode (unpaid h token os));
            max = max;
          })
          more
        ≡ ok (record {
          buf = encode (unpaid h token (os ++ more)) ++ left;
          len = length (encode (unpaid h token (os ++ more)));
          max = max;
        }))
      × (max ≡ length (encode (unpaid h token (os ++ more))) + length left)
unfolding add_all encode_options
add_all-encode h token os [] fuel max rest header tkl w f hmax small room =
    (rest, rw (append-nil os) refl, rw (append-nil os) hmax)
add_all-encode h token os ((num, value) ∷ more) fuel max rest header tkl w f hmax small room =
    let (w1, up, n, v) = AreOptions-append 0 os num value more w in
    let regroup : (os ++ ((num, value) ∷ [])) ++ more ≡ os ++ ((num, value) ∷ more) =
      append_assoc os ((num, value) ∷ []) more in
    let fits : compute_option_header_len (num - last_num 0 os) (length value) + length value
        ≤ length rest =
      omega (
        arith,
        room,
        hmax,
        length-encode-unpaid h token os,
        length-encode-unpaid h token (os ++ ((num, value) ∷ more)),
        length-encode_options-append 0 os ((num, value) ∷ more),
        length-first (last_num 0 os) num value more,
      ) in
    let (left, done, hmax') =
      add_option-encode h token os header tkl (AreOptions-init 0 os ((num, value) ∷ more) w) fuel
        max num value rest up n v (omega (arith, f, length-append os ((num, value) ∷ more))) hmax
        small fits in
    let (left', run, hmax'') =
      add_all-encode h token (os ++ ((num, value) ∷ [])) more fuel max left header tkl
        (rw regroup w) (rw regroup f) hmax' small (rw regroup room) in
    (left', rw (done) (rw regroup at run), rw regroup at hmax'')

-- With a payload.
abbrev pub paid : CoapHeader → (token : List ℕ) → Options → (payload : List ℕ) → Message
paid h token os payload = record { hdr = h; token = token; options = os; payload = payload }

pub encode-paid :
    (h : CoapHeader) (token : List ℕ) (os : Options) (b : ℕ) (bs : List ℕ)
    → encode (paid h token os (b ∷ bs)) ≡ (encode (unpaid h token os) ++ (0xFF ∷ [])) ++ (b ∷ bs)
unfolding encode encode_payload
encode-paid h token os b bs = rw (
  append-nil (encode_options 0 os),
  append_assoc (encode_header h) (token ++ encode_options 0 os) (0xFF ∷ []),
  append_assoc (encode_header h) ((token ++ encode_options 0 os) ++ (0xFF ∷ [])) (b ∷ bs),
  append_assoc (token ++ encode_options 0 os) (0xFF ∷ []) (b ∷ bs),
  append_assoc token (encode_options 0 os) (0xFF ∷ b ∷ bs),
)

pub last_num-bound :
    (prev : ℕ) (os : Options) → AreOptions prev os → prev < 256 → last_num prev os ≤ 2 ^ 16
last_num-bound prev [] w h = omega (arith, h)
last_num-bound prev ((num, value) ∷ os) (o, n, v, w) h = last_num-bound num os w n
