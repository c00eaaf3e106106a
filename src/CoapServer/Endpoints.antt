-- ===== src/CoapServer/Endpoints.antt =====
-- coapServer/endpoints.c, and the dispatch `coap_handle_req` of coapServer/microcoap.c.
use gateway_project.Base.{
  ℕ, ◌+◌, ◌-◌, ◌%◌, List, [], ◌∷◌, ◌++◌, Bool, true, false, Option, none, some, length, take, ltb,
  ◌==◌, if◌then◌else◌, Run, ok, fault, ◌>>=◌, fetch, deref, not,
}
use gateway_project.Base.Text.{codes, same}
use gateway_project.CoapServer.Packet.{CoapError, CoapBuffer, CoapOption, CoapPacket, null_buffer}
use gateway_project.CoapServer.Respond.{
  find_options, ContentType, none_given, text_plain, linkformat, ResponseCode, content_205,
  not_found, bad_request, changed, Response, make_response, option_uri_path,
}

-- The function pointers of the table.
pub data Handler : Type 0 where
  get_well_known_core : Handler
  get_hello : Handler
  put_hello : Handler

pub record Endpoint : Type 0 where
  pub method : ℕ
  pub handler : Handler
  pub path : List (List ℕ)
  pub core_attr : Option (List ℕ)

abbrev pub method_get : ℕ
method_get = 1

abbrev pub method_put : ℕ
method_put = 3

-- The table without its last entry, which only ends it.
abbrev pub endpoints : List Endpoint
endpoints =
    record {
      method = method_get;
      handler = get_well_known_core;
      path = codes ".well-known" ∷ codes "core" ∷ [];
      core_attr = some (codes "ct=40");
    }
    ∷ record {
      method = method_get;
      handler = get_hello;
      path = codes "hello" ∷ [];
      core_attr = some (codes "ct=0");
    }
    ∷ record {
      method = method_put;
      handler = put_hello;
      path = codes "hello" ∷ [];
      core_attr = none;
    }
    ∷ []

-- `strncat`: at most `n` characters of `src`.
unfoldable pub strncat : List ℕ → List ℕ → ℕ → List ℕ
strncat dst src n = dst ++ take n src

-- The text `rsp` and the uint16_t `len` that `build_rsp` counts down.
pub record Listing : Type 0 where
  pub rsp : List ℕ
  pub len : ℕ

unfoldable pub add_text : Listing → List ℕ → Listing
add_text l s = record { rsp = strncat l.rsp s l.len; len = (l.len + 65536 - length s) % 65536 }

unfoldable pub add_path : Listing → List (List ℕ) → Listing
add_path l [] = l
add_path l (e ∷ es) = add_path (add_text (add_text l (codes "/")) e) es

unfoldable pub add_endpoint : Listing → List (List ℕ) → List ℕ → Listing
add_endpoint l path attr =
    let l₁ = if ltb 0 (length l.rsp) then add_text l (codes ",") else l in
    let l₂ = add_path (add_text l₁ (codes "<")) path in add_text (add_text l₂ (codes ">;")) attr

-- An endpoint without attributes is skipped.
unfoldable pub list_endpoint : Listing → List (List ℕ) → Option (List ℕ) → Listing
list_endpoint l path none = l
list_endpoint l path (some attr) = add_endpoint l path attr

unfoldable pub build_rsp_loop : Listing → List Endpoint → Listing
build_rsp_loop l [] = l
build_rsp_loop l (ep ∷ eps) = build_rsp_loop (list_endpoint l ep.path ep.core_attr) eps

unfoldable pub build_rsp : List Endpoint → List ℕ
build_rsp eps = (build_rsp_loop (record { rsp = []; len = 1500 - 1 }) eps).rsp

-- The static variables of the server that its handlers use.
pub record Service : Type 0 where
  pub ret_hello : ℕ
  pub rsp : List ℕ

-- A response, and the static variables after it.
pub record Handled : Type 0 where
  pub response : Response
  pub service : Service

module _ (stale : ℕ) (scratch : CoapBuffer) (inpkt : CoapPacket) (s : Service) where
  respond : Service → CoapBuffer → ResponseCode → ContentType → Handled
  respond s' body code type = record {
    response = make_response stale scratch body inpkt.hdr.id_hi inpkt.hdr.id_lo inpkt.tok code type;
    service = s';
  }

  unfoldable pub handle : Handler → Run CoapError Handled
  unfolding respond
  handle get_well_known_core =
      ok (respond s (record { p = s.rsp; len = length s.rsp }) content_205 linkformat)
  handle get_hello =
      ok (respond s (record { p = s.ret_hello ∷ []; len = 1 }) content_205 text_plain)
  handle put_hello =
      if inpkt.payload.len == 0 then ok (respond s null_buffer bad_request text_plain) else do
        b ← deref inpkt.payload.p 0
        let v = if b == b'1' then b'1' else b'0'
        ok (
            respond (record s { ret_hello = v }) (record { p = v ∷ []; len = 1 }) changed
              text_plain)

  -- The comparison of the URI path with the path of an endpoint.
  unfoldable pub match_path : List (List ℕ) → List CoapOption → Run CoapError Bool
  match_path [] opts = ok true
  match_path (e ∷ es) [] = fault
  match_path (e ∷ es) (o ∷ os) =
      if not (o.buf.len == length e)
      then ok false
      else do v ← fetch o.buf.p o.buf.len; if same e v then match_path es os else ok false

  -- The test of an endpoint's path against the result of `coap_findOptions`.
  unfoldable pub compare_path : Option (List CoapOption) × ℕ → List (List ℕ) → Run CoapError Bool
  compare_path (none, count) path = ok false
  compare_path (some opt, count) path =
      if not (count == length path) then ok false else match_path path opt

  unfoldable pub applies : Endpoint → Run CoapError Bool
  applies ep =
      if not (ep.method == inpkt.hdr.code)
      then ok false
      else compare_path (find_options inpkt option_uri_path) ep.path

  unfoldable pub handle_req : List Endpoint → Run CoapError Handled
  unfolding respond
  handle_req [] = ok (respond s null_buffer not_found none_given)
  handle_req (ep ∷ eps) = do
    found ← applies ep
    elim found [ true ↦ handle ep.handler | false ↦ handle_req eps ]
