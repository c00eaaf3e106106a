-- ===== src/CoapServer/Response.antt =====
-- The responses that `coap_make_response` makes.
use gateway_project.Base.{
  ℕ, ◌+◌, ◌%◌, ◌/◌, ◌≤◌, ◌<◌, ◌≡◌, refl, List, [], ◌∷◌, ◌++◌, none, length, drop, arith, ltb-false,
  length-append,
}
use gateway_project.CoapServer.Packet.{CoapHeader, CoapBuffer, content}
use gateway_project.CoapServer.Format.{
  view, encode, encode_options, encode_option, encode_payload, encode_header, extension, nibble,
  IsMessage,
}
use gateway_project.CoapServer.BuildFormat.{length-encode_header, length-content}
use gateway_project.CoapServer.BuildSteps.{payload_bytes}
use gateway_project.CoapServer.Respond.{
  option_content_format, make_response, Response, ResponseCode, ContentType, content_205, not_found,
  bad_request, changed, response_code, content_type_u16, type_ack,
}
use gateway_project.CoapServer.ParseSafety.{IsBacked, IsInside}

-- A response to a request with the token `tok` and the message id, with a body of at most `size` bytes.
pub record IsReply (tok : CoapBuffer) (hi lo size : ℕ) (r : Response) : Type 0 where
  pub success : r.rc ≡ none
  pub type : r.pkt.hdr.t ≡ type_ack
  pub id_hi : r.pkt.hdr.id_hi ≡ hi
  pub id_lo : r.pkt.hdr.id_lo ≡ lo
  pub token : r.pkt.tok ≡ tok
  pub same_len : r.pkt.tok.len ≡ r.pkt.hdr.tkl
  pub message : IsMessage (view r.pkt)
  pub inside : IsInside r.pkt
  pub small : length (encode (view r.pkt)) ≤ 16 + size

code-lt : (c : ResponseCode) → response_code c < 256
code-lt content_205 = omega arith
code-lt not_found = omega arith
code-lt bad_request = omega arith
code-lt changed = omega arith

length-reply :
    (hdr : CoapHeader) (tok body : CoapBuffer) (a b : ℕ) (rest : List ℕ)
    → IsBacked tok
    → IsBacked body
    → length (
        encode (
          view (record {
            hdr = hdr;
            tok = tok;
            opts =
                record { num = option_content_format; buf = record { p = a ∷ b ∷ rest; len = 2 } }
                ∷ [];
            payload = body;
          })))
      ≤ 8 + tok.len + body.len
unfolding encode encode_options encode_option extension nibble
length-reply hdr tok body a b rest bt bb =
    let opt : List ℕ = encode_options 0 ((option_content_format, a ∷ b ∷ []) ∷ []) in
    omega (
      arith,
      length-append (encode_header hdr) (content tok ++ (opt ++ encode_payload (content body))),
      length-append (content tok) (opt ++ encode_payload (content body)),
      length-append opt (encode_payload (content body)),
      length-encode_header hdr,
      length-content tok bt,
      length-content body bb,
      payload_bytes (content body),
    )

pub make_response-IsReply :
    (stale : ℕ) (scratch body : CoapBuffer) (id_hi id_lo : ℕ) (tok : CoapBuffer)
    (code : ResponseCode) (type : ContentType) (size : ℕ)
    → 2 ≤ scratch.len
    → IsBacked body
    → body.len ≤ size
    → IsBacked tok
    → tok.len ≤ 8
    → id_hi < 256
    → id_lo < 256
    → IsReply tok id_hi id_lo size (make_response stale scratch body id_hi id_lo tok code type)
unfolding make_response
make_response-IsReply stale scratch body id_hi id_lo tok code type size room b small bt short hi
      lo =
    let tkl : tok.len % 256 ≡ tok.len = omega arith in
    let u = content_type_u16 type in
    let hdr : CoapHeader = record {
      ver = 1;
      t = type_ack;
      tkl = tok.len;
      code = response_code code;
      id_hi = id_hi;
      id_lo = id_lo;
    } in
    rw (ltb-false scratch.len 2 room, tkl)
      record {
        success = refl;
        type = refl;
        id_hi = refl;
        id_lo = refl;
        token = refl;
        same_len = refl;
        message = record {
          header = record {
            version = refl;
            type = omega arith;
            token_length = short;
            code = code-lt code;
            id_hi = hi;
            id_lo = lo;
          };
          token = length-content tok bt;
          options = omega arith;
          room = omega arith;
        };
        inside = (bt, omega arith, b, omega arith);
        small =
            omega (arith, length-reply hdr tok body (u / 256) (u % 256) (drop 2 scratch.p) bt b);
      }
