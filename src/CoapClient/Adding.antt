-- ===== src/CoapClient/Adding.antt =====
-- `coap_add_option` at the end of a message of the format.
use gateway_project.Base.{
  ℕ, ◌+◌, ◌-◌, ◌^◌, ◌≤◌, ◌<◌, ◌≡◌, refl, sym, ap, ◌∙◌, List, [], ◌∷◌, ◌++◌, append-nil,
  append_assoc, length, length-append, drop, length-drop, true, false, ok, arith,
}
use gateway_project.CoapServer.Packet.{CoapHeader}
use gateway_project.CoapServer.Format.{
  Message, encode, encode_header, encode_options, encode_option, encode_payload, AreOptions,
  IsHeader,
}
use gateway_project.CoapClient.Getters.{get_tkl}
use gateway_project.CoapClient.Header.{length-encode_option}
use gateway_project.CoapClient.Options.{find_place, add_option, compute_option_header_len}
use gateway_project.CoapClient.Message.{add_option-last}
use gateway_project.CoapClient.Payload.{get_tkl_lem, length-encode_header}
use gateway_project.CoapClient.Places.{Options, last_num, find_place-encode_options}

pub encode_options-append :
    (prev : ℕ) (os more : Options)
    → encode_options prev (os ++ more)
      ≡ encode_options prev os ++ encode_options (last_num prev os) more
unfolding encode_options
encode_options-append prev [] more = refl
encode_options-append prev ((num, value) ∷ os) more =
    let enc = encode_option (num - prev) (length value) in
    let tail = encode_options (last_num num os) more in
    rw (
      encode_options-append num os more,
      append_assoc enc (value ++ encode_options num os) tail,
      append_assoc value (encode_options num os) tail,
    )

-- A message without a payload, which more options are added to.
abbrev pub unpaid : CoapHeader → (token : List ℕ) → Options → Message
unpaid h token os = record { hdr = h; token = token; options = os; payload = [] }

-- The header, the token and the options as one list, whose end is the place of the next option.
abbrev pub start_of : CoapHeader → List ℕ → List ℕ
start_of h token = encode_header h ++ token

pub length-start_of :
    (h : CoapHeader) (token : List ℕ) → length (start_of h token) ≡ 4 + length token
length-start_of h token =
    omega (arith, length-append (encode_header h) token, length-encode_header h)

pub encode-unpaid :
    (h : CoapHeader) (token : List ℕ) (os : Options)
    → encode (unpaid h token os) ≡ start_of h token ++ encode_options 0 os
unfolding encode encode_payload
encode-unpaid h token os =
    rw
      (append-nil (encode_options 0 os), append_assoc (encode_header h) token (encode_options 0 os))

module _ (h : CoapHeader) (token : List ℕ) (os : Options) (header : IsHeader h)
    (tkl : length token ≡ h.tkl) (w : AreOptions 0 os) where
  pub get_tkl-unpaid :
      (rest : List ℕ) (len max : ℕ)
      → get_tkl (record { buf = encode (unpaid h token os) ++ rest; len = len; max = max })
        ≡ ok (length token)
  unfolding encode
  get_tkl-unpaid rest len max =
      rw
        (
          append_assoc (encode_header h) (token ++ (encode_options 0 os ++ encode_payload [])) rest,
          tkl,
        )
        (get_tkl_lem h ((token ++ (encode_options 0 os ++ encode_payload [])) ++ rest) len max
          header)

  -- The place behind the last option.
  pub place-unpaid :
      (fuel max up_to : ℕ) (rest : List ℕ)
      → last_num 0 os ≤ up_to
      → length os < fuel
      → length (encode (unpaid h token os)) < 2 ^ 63
      → find_place fuel
          (record {
            buf = encode (unpaid h token os) ++ rest;
            len = length (encode (unpaid h token os));
            max = max;
          })
          up_to
          (4 + length token)
          0
        ≡ ok (record {
          ptr = length (encode (unpaid h token os));
          number = last_num 0 os;
          at_end = true;
          at_marker = false;
        })
  place-unpaid fuel max up_to rest up f small =
      let p = start_of h token in
      let same = encode-unpaid h token os in
      let size : length (encode (unpaid h token os)) ≡ length p + length (encode_options 0 os) =
        ap length same ∙ length-append p (encode_options 0 os) in
      let found =
        find_place-encode_options fuel (length (encode (unpaid h token os))) max up_to 0 p os rest w
          up f size small in
      let bytes : p ++ (encode_options 0 os ++ rest) ≡ encode (unpaid h token os) ++ rest =
        sym (append_assoc p (encode_options 0 os) rest) ∙ ap (λ x. x ++ rest) (sym same) in
      rw (bytes, length-start_of h token) at found

  -- `coap_add_option` with a number that is not below that of the last option.
  pub add_option-encode :
      (fuel max num : ℕ) (value rest : List ℕ)
      → last_num 0 os ≤ num
      → num < 256
      → length value < 269
      → length os < fuel
      → max ≡ length (encode (unpaid h token os)) + length rest
      → max < 2 ^ 63
      → compute_option_header_len (num - last_num 0 os) (length value) + length value ≤ length rest
      → (left : List ℕ) × (add_option fuel
            (record {
              buf = encode (unpaid h token os) ++ rest;
              len = length (encode (unpaid h token os));
              max = max;
            })
            num
            value
            (length value)
          ≡ ok (record {
            buf = encode (unpaid h token (os ++ ((num, value) ∷ []))) ++ left;
            len = length (encode (unpaid h token (os ++ ((num, value) ∷ []))));
            max = max;
          }))
        × (max ≡ length (encode (unpaid h token (os ++ ((num, value) ∷ [])))) + length left)
  unfolding encode_options
  add_option-encode fuel max num value rest up n v f hmax small room =
      let before = encode (unpaid h token os) in
      let after = encode (unpaid h token (os ++ ((num, value) ∷ []))) in
      let delta = num - last_num 0 os in
      let hdr = compute_option_header_len delta (length value) in
      let enc = encode_option delta (length value) in
      let left = drop (length value) (drop hdr rest) in
      let bytes : after ≡ (before ++ enc) ++ value =
        encode-unpaid h token (os ++ ((num, value) ∷ []))
        ∙ rw (
          encode_options-append 0 os ((num, value) ∷ []),
          encode-unpaid h token os,
          append-nil value,
          append_assoc (start_of h token ++ encode_options 0 os) enc value,
          append_assoc (start_of h token) (encode_options 0 os) (enc ++ value),
        ) in
      let size : length after ≡ length before + (hdr + length value) =
        ap length bytes
        ∙ omega (
          arith,
          length-append (before ++ enc) value,
          length-append before enc,
          length-encode_option delta (length value),
        ) in
      let done =
        add_option-last fuel before rest (length token) max (last_num 0 os) num value
          (get_tkl-unpaid rest (length before) max)
          (place-unpaid fuel max num rest up f (omega (arith, hmax, small))) (omega (arith, n))
          (omega (arith, v)) hmax room in
      (
        left,
        rw (sym bytes, sym size) at done,
        omega (
          arith,
          hmax,
          size,
          room,
          length-drop (length value) (drop hdr rest),
          length-drop hdr rest,
        ),
      )
