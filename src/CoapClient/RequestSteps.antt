-- ===== src/CoapClient/RequestSteps.antt =====
-- The request of the client, and the message after each step that builds it.
use gateway_project.Base.{
  ℕ, suc, ◌+◌, ◌/◌, ◌%◌, ◌^◌, ◌≤◌, ◌<◌, ◌≡◌, refl, List, [], ◌∷◌, ◌++◌, append-nil, append_assoc,
  length, drop, length-append, ok, deref, arith, true, false,
}
use gateway_project.CoapServer.Format.{
  Message, encode, encode_header, encode_options, encode_option, encode_payload,
}
use gateway_project.CoapClient.Start.{head_bytes}
use gateway_project.CoapClient.Getters.{get_tkl}
use gateway_project.CoapClient.Header.{length-encode_option}
use gateway_project.CoapClient.Options.{
  find_place, add_option, set_payload, compute_option_header_len,
}
use gateway_project.CoapClient.Setters.{token_bytes}
use gateway_project.CoapClient.Message.{
  find_place-end, find_place-step, add_option-append, set_payload-append, header_bounds,
}

-- The request that a round sends, as a message of the format.
abbrev pub request : (counter token : ℕ) → (path msg : List ℕ) → Message
request counter token path msg = record {
  hdr = record {
    ver = 1;
    t = 0;
    tkl = 2;
    code = 1;
    id_hi = counter / 256 % 256;
    id_lo = counter % 256;
  };
  token = token_bytes 2 token;
  options = (11, path) ∷ [];
  payload = msg;
}

-- The message after the path was added.
pub add_path :
    (fuel counter token : ℕ) (path rest : List ℕ)
    → length rest ≡ 506
    → length path < 269
    → add_option
        (suc fuel)
        (record { buf = head_bytes counter token ++ rest; len = 6; max = 512 })
        11
        path
        (length path)
      ≡ ok (record {
        buf =
            ((head_bytes counter token ++ encode_option 11 (length path)) ++ path)
            ++ drop (length path) (drop (compute_option_header_len 11 (length path)) rest);
        len = 6 + (compute_option_header_len 11 (length path) + length path);
        max = 512;
      })
unfolding get_tkl deref
add_path fuel counter token path rest n h =
    add_option-append fuel (head_bytes counter token) rest 512 11 path refl (omega arith)
      (omega arith) (omega (arith, h)) (omega (arith, n)) (omega arith)
      (omega (arith, n, h, header_bounds 11 (length path)))

-- The bytes before the payload.
abbrev named : (counter token : ℕ) (path : List ℕ) → List ℕ
named counter token path = (head_bytes counter token ++ encode_option 11 (length path)) ++ path

length-named :
    (counter token : ℕ) (path : List ℕ)
    → length (named counter token path)
      ≡ 6 + (compute_option_header_len 11 (length path) + length path)
length-named counter token path = omega (
  arith,
  length-append (head_bytes counter token ++ encode_option 11 (length path)) path,
  length-append (head_bytes counter token) (encode_option 11 (length path)),
  length-encode_option 11 (length path),
)

encode-request :
    (counter token b : ℕ) (path bs : List ℕ)
    → encode (request counter token path (b ∷ bs))
      ≡ (named counter token path ++ (0xFF ∷ [])) ++ (b ∷ bs)
unfolding encode encode_header encode_options encode_payload
encode-request counter token b path bs =
    let head = head_bytes counter token in
    let enc = encode_option 11 (length path) in
    rw (
      append-nil path,
      append_assoc (named counter token path) (0xFF ∷ []) (b ∷ bs),
      append_assoc (head ++ enc) path (0xFF ∷ b ∷ bs),
      append_assoc head enc (path ++ (0xFF ∷ b ∷ bs)),
    )

-- The search for the place of the payload steps over the path.
payload_place :
    (fuel counter token : ℕ) (path tail : List ℕ)
    → length path < 269
    → find_place
        (suc (suc fuel))
        (record {
          buf = named counter token path ++ tail;
          len = 6 + compute_option_header_len 11 (length path) + length path;
          max = 512;
        })
        (2 ^ 16)
        6
        0
      ≡ ok (record {
        ptr = 6 + compute_option_header_len 11 (length path) + length path;
        number = 11;
        at_end = true;
        at_marker = false;
      })
payload_place fuel counter token path tail h =
    let head = head_bytes counter token in
    let enc = encode_option 11 (length path) in
    rw (
      append_assoc (head ++ enc) path tail,
      append_assoc head enc (path ++ tail),
      find_place-step (suc fuel) head (path ++ tail) 11 (length path) 512 (omega arith)
          (omega (arith, h)) (omega arith),
      find_place-end fuel
          (record {
            buf = head ++ (enc ++ (path ++ tail));
            len = 6 + compute_option_header_len 11 (length path) + length path;
            max = 512;
          })
          (2 ^ 16) 11 (omega (arith, h, header_bounds 11 (length path))),
    )

-- The message after the payload was added.
pub add_payload :
    (fuel counter token b : ℕ) (path bs gone : List ℕ)
    → length path < 269
    → compute_option_header_len 11 (length path) + length path + (2 + length bs) ≤ 506
    → compute_option_header_len 11 (length path) + length path + length gone ≡ 506
    → (tail : List ℕ) × (set_payload
          (suc (suc fuel))
          (record {
            buf = named counter token path ++ gone;
            len = 6 + (compute_option_header_len 11 (length path) + length path);
            max = 512;
          })
          (b ∷ bs)
          (length (b ∷ bs))
        ≡ ok (record {
          buf = encode (request counter token path (b ∷ bs)) ++ tail;
          len = length (encode (request counter token path (b ∷ bs)));
          max = 512;
        }))
unfolding get_tkl deref
add_payload fuel counter token b path bs [] h room n = absurd (omega (arith, room, n))
add_payload fuel counter token b path bs (z ∷ zs) h room n =
    let q = named counter token path in
    let hdr = compute_option_header_len 11 (length path) in
    let len-q : length q ≡ 6 + hdr + length path = omega (arith, length-named counter token path) in
    let shift : 6 + (hdr + length path) ≡ length q = omega (arith, len-q) in
    (
      drop (length (b ∷ bs)) zs,
      rw
          (
            shift,
            encode-request counter token b path bs,
            length-append (q ++ (0xFF ∷ [])) (b ∷ bs),
            length-append q (0xFF ∷ []),
          )
          (set_payload-append (suc (suc fuel)) q zs z 512 2 11 (b ∷ bs) refl
            (rw len-q (payload_place fuel counter token path (z ∷ zs) h)) (omega (arith, len-q, n))
            (omega arith) (omega (arith, room, n))),
    )
