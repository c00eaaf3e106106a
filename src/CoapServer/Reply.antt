-- ===== src/CoapServer/Reply.antt =====
-- Every response that `coap_handle_req` makes answers its request.
use gateway_project.Base.{
  ℕ, ◌+◌, ◌%◌, ◌≤◌, ◌<◌, ◌≡◌, refl, List, [], ◌∷◌, Bool, true, false, Option, none, some, length,
  All, arith, ◌==◌, ==_true, ==_false, ℕ_discrete, Run, Gives, bind-Gives, branch-Gives, fetch-ok,
  deref, deref-Gives, not,
}
use gateway_project.Base.Text.{same}
use gateway_project.CoapServer.Packet.{
  CoapError, CoapBuffer, CoapOption, CoapPacket, content, null_buffer,
}
use gateway_project.CoapServer.Respond.{
  find_loop, find_options, option_uri_path, make_response, ResponseCode, ContentType, content_205,
  not_found, bad_request, changed, none_given, text_plain, linkformat,
}
use gateway_project.CoapServer.Endpoints.{
  Endpoint, Service, Handler, get_well_known_core, get_hello, put_hello, match_path, compare_path,
  applies, handle, handle_req, Handled,
}
use gateway_project.CoapServer.ParseSafety.{IsBacked, IsInside}
use gateway_project.CoapServer.Response.{make_response-IsReply, IsReply}

-- The pointer of a result has at least `count` entries behind it, with backed values.
abbrev IsRun : Option (List CoapOption) × ℕ → Type 0
IsRun (none, count) = Unit {0}
IsRun (some f, count) = (count ≤ length f) × All (λ (o : CoapOption). IsBacked o.buf) f

find_loop_started-IsRun :
    (num count : ℕ) (f os : List CoapOption)
    → count + length os ≤ length f
    → All (λ (o : CoapOption). IsBacked o.buf) f
    → IsRun (find_loop num (some f) count os)
unfolding find_loop
find_loop_started-IsRun num count f [] h b = (omega arith, b)
find_loop_started-IsRun num count f (o ∷ os) h b = elim (ℕ_discrete o.num num) [
  | yes e ↦
      rw (==_true o.num num e)
        (find_loop_started-IsRun num ((count + 1) % 256) f os (omega arith) b)
  | no ne ↦ rw (==_false o.num num ne) (omega arith, b)
]

find_loop-IsRun :
    (num : ℕ) (os : List CoapOption)
    → All (λ (o : CoapOption). IsBacked o.buf) os
    → IsRun (find_loop num none 0 os)
unfolding find_loop
find_loop-IsRun num [] b = tt
find_loop-IsRun num (o ∷ os) b = elim (ℕ_discrete o.num num) [
  | yes e ↦ rw (==_true o.num num e) (find_loop_started-IsRun num 1 (o ∷ os) os (omega arith) b)
  | no ne ↦ rw (==_false o.num num ne) (find_loop-IsRun num os b.1)
]

module _ (stale : ℕ) (scratch : CoapBuffer) (k : CoapPacket) (s : Service) where
  match_path-Gives :
      (es : List (List ℕ)) (os : List CoapOption)
      → length es ≤ length os
      → All (λ (o : CoapOption). IsBacked o.buf) os
      → Gives (λ _. Unit {0}) (match_path stale scratch k s es os)
  unfolding match_path
  match_path-Gives [] os h b = tt
  match_path-Gives (e ∷ es) [] h b = absurd (omega arith)
  match_path-Gives (e ∷ es) (o ∷ os) h (bo, b) =
      branch-Gives U (not (o.buf.len == length e)) _ _ (λ _. tt)
        λ _. rw (fetch-ok o.buf.p o.buf.len bo) (
          branch-Gives U (same e (content o.buf)) _ _ (λ _. match_path-Gives es os (omega arith) b)
            λ _. tt)
    where
      U : Bool → Type 0
      U _ = Unit {0}

  compare_path-Gives :
      (r : Option (List CoapOption) × ℕ) (path : List (List ℕ))
      → IsRun r
      → Gives (λ _. Unit {0}) (compare_path stale scratch k s r path)
  unfolding compare_path
  compare_path-Gives (none, count) path h = tt
  compare_path-Gives (some f, count) path (h, b) =
      branch-Gives (λ _. Unit {0}) (not (count == length path)) _ _ (λ _. tt)
        λ e. match_path-Gives path f (ground arith) b

  applies-Gives :
      (ep : Endpoint) → IsInside k → Gives (λ _. Unit {0}) (applies stale scratch k s ep)
  unfolding applies find_options
  applies-Gives ep (_, b, _, _) =
      branch-Gives (λ _. Unit {0}) (not (ep.method == k.hdr.code)) _ _ (λ _. tt)
        λ _. compare_path-Gives _ ep.path (find_loop-IsRun option_uri_path k.opts b)

-- A handled request: the response answers it, and the listing of resources is as before.
pub record IsHandled (k : CoapPacket) (s : Service) (h : Handled) : Type 0 where
  pub reply : IsReply k.tok k.hdr.id_hi k.hdr.id_lo (1 + length s.rsp) h.response
  pub listing : h.service.rsp ≡ s.rsp

-- What a request must satisfy, and a scratch buffer of at least two bytes.
pub record IsRequest (scratch : CoapBuffer) (k : CoapPacket) : Type 0 where
  pub inside : IsInside k
  pub short : k.tok.len ≤ 8
  pub id_hi : k.hdr.id_hi < 256
  pub id_lo : k.hdr.id_lo < 256
  pub room : 2 ≤ scratch.len

module _ (stale : ℕ) (scratch : CoapBuffer) (k : CoapPacket) (s : Service)
    (w : IsRequest scratch k) where
  reply :
      (body : CoapBuffer) (code : ResponseCode) (type : ContentType)
      → IsBacked body
      → body.len ≤ 1 + length s.rsp
      → IsReply k.tok k.hdr.id_hi k.hdr.id_lo
          (1 + length s.rsp)
          (make_response stale scratch body k.hdr.id_hi k.hdr.id_lo k.tok code type)
  reply body code type b small =
      make_response-IsReply stale scratch body k.hdr.id_hi k.hdr.id_lo k.tok code type
        (1 + length s.rsp) w.room b small (w.inside.0) w.short w.id_hi w.id_lo

  handle-IsHandled : (h : Handler) → Gives (IsHandled k s) (handle stale scratch k s h)
  unfolding handle
  handle-IsHandled get_well_known_core = record {
    reply = reply _ content_205 linkformat (omega arith) (omega arith);
    listing = refl;
  }
  handle-IsHandled get_hello = record {
    reply = reply _ content_205 text_plain (omega arith) (omega arith);
    listing = refl;
  }
  handle-IsHandled put_hello =
      branch-Gives (IsHandled k s) (k.payload.len == 0) _ _
        (λ _. record {
          reply = reply null_buffer bad_request text_plain (omega arith) (omega arith);
          listing = refl;
        })
        λ some_bytes.
          bind-Gives (IsHandled k s) (deref k.payload.p 0) _
            (deref-Gives _ k.payload.p 0 (ground (arith, w.inside.2)))
            λ b _. record {
              reply = reply _ changed text_plain (omega arith) (omega arith);
              listing = refl;
            }

  -- `coap_handle_req`, on any table of endpoints and any request that lies inside its packet with a
  -- token of at most 8 bytes, never faults: it produces a success response of type ACK that carries
  -- the message id and the token of the request, is a well-formed message inside its buffers, and has
  -- at most 17 bytes more than the listing of resources. The listing stays as it is.
  pub handle_req-IsHandled :
      (eps : List Endpoint) → Gives (IsHandled k s) (handle_req stale scratch k s eps)
  unfolding handle_req
  handle_req-IsHandled [] = record {
    reply = reply null_buffer not_found none_given (omega arith) (omega arith);
    listing = refl;
  }
  handle_req-IsHandled (ep ∷ eps) =
      bind-Gives (IsHandled k s) (applies stale scratch k s ep) _
        (applies-Gives stale scratch k s ep w.inside)
        λ found _.
          (elim found
            as (λ x. Gives (IsHandled k s) (elim x as (λ y. Run CoapError Handled) [
              | true ↦ handle stale scratch k s ep.handler
              | false ↦ handle_req stale scratch k s eps
            ])) [ true ↦ handle-IsHandled ep.handler | false ↦ handle_req-IsHandled eps ])
