-- ===== src/CoapServer/Dispatch.antt =====
-- `coap_handle_req` refines the lookup of an endpoint by method and path.
use gateway_project.Base.{
  ℕ, ◌<◌, ◌≡◌, refl, ap, ◌∙◌, List, [], ◌∷◌, Bool, true, false, Option, none, some, length, take,
  map, All, arith, ◌==◌, ==_true, ==_false, ℕ_discrete, if◌then◌else◌, ◌&&◌, ok, fetch-ok,
  Bool-cases, inl, inr, length-take, length-map,
}
use gateway_project.Base.Text.{same}
use gateway_project.CoapServer.Packet.{null_buffer, CoapBuffer, CoapOption, CoapPacket, content}
use gateway_project.CoapServer.Respond.{
  find_options, option_uri_path, make_response, not_found, none_given,
}
use gateway_project.CoapServer.Endpoints.{
  Endpoint, Service, match_path, applies, compare_path, handle, handle_req,
}
use gateway_project.CoapServer.FindOptions.{
  AreSorted, with_num, denoted, find_options-with_num, Starts, find_options-Starts,
}
use gateway_project.CoapServer.ParseSafety.{IsBacked}

-- The path that a request names: the values of its URI path options.
abbrev pub uri_path : CoapPacket → List (List ℕ)
uri_path k = map (λ (o : CoapOption). content o.buf) (with_num option_uri_path k.opts)

abbrev pub same_path : List (List ℕ) → List (List ℕ) → Bool
same_path [] [] = true
same_path [] (v ∷ vs) = false
same_path (e ∷ es) [] = false
same_path (e ∷ es) (v ∷ vs) = same e v && same_path es vs

abbrev pub has_path : List (List ℕ) → List (List ℕ) → Bool
has_path path [] = false
has_path path (v ∷ vs) = same_path path (v ∷ vs)

-- The specification: the first entry of the method with the path. A request without a path has none.
abbrev pub serves : CoapPacket → Endpoint → Bool
serves k ep = (ep.method == k.hdr.code) && has_path ep.path (uri_path k)

abbrev pub route : CoapPacket → List Endpoint → Option Endpoint
route k [] = none
route k (ep ∷ eps) = let rest = route k eps in if serves k ep then some ep else rest

pub All-with_num :
    (num : ℕ) (os : List CoapOption)
    → All (λ (o : CoapOption). IsBacked o.buf) os
    → All (λ (o : CoapOption). IsBacked o.buf) (with_num num os)
All-with_num num [] h = tt
All-with_num num (o ∷ os) (b, h) = ground (arith, All-with_num num os h)

same_ne_length : (xs ys : List ℕ) → ¬ (length ys ≡ length xs) → same xs ys ≡ false
unfolding same
same_ne_length [] [] h = absurd (h refl)
same_ne_length [] (y ∷ ys) h = refl
same_ne_length (x ∷ xs) [] h = refl
same_ne_length (x ∷ xs) (y ∷ ys) h = rw (same_ne_length xs ys (omega arith)) (ground arith)

same_path-length : (es vs : List (List ℕ)) → ¬ (length vs ≡ length es) → same_path es vs ≡ false
same_path-length [] [] h = absurd (h refl)
same_path-length [] (v ∷ vs) h = refl
same_path-length (e ∷ es) [] h = refl
same_path-length (e ∷ es) (v ∷ vs) h = rw (same_path-length es vs (omega arith)) (ground arith)

module _ (stale : ℕ) (scratch : CoapBuffer) (k : CoapPacket) (s : Service) where
  match_path-same_path :
      (es : List (List ℕ)) (os : List CoapOption)
      → length (take (length es) os) ≡ length es
      → All (λ (o : CoapOption). IsBacked o.buf) (take (length es) os)
      → match_path stale scratch k s es os
        ≡ ok (same_path es (map (λ (o : CoapOption). content o.buf) (take (length es) os)))
  unfolding match_path
  match_path-same_path [] os n b = refl
  match_path-same_path (e ∷ es) [] n b = absurd (omega arith)
  match_path-same_path (e ∷ es) (o ∷ os) n (bo, b) = elim (ℕ_discrete o.buf.len (length e)) [
    | yes same_len ↦
        rw
          (
            ==_true o.buf.len (length e) same_len,
            fetch-ok o.buf.p o.buf.len bo,
            match_path-same_path es os (omega arith) b,
          )
          (ground arith)
    | no other ↦
        rw
          (
            ==_false o.buf.len (length e) other,
            same_ne_length e (content o.buf) (omega (arith, length-take o.buf.len o.buf.p)),
          )
          (ground arith)
  ]

  compare_path-has_path :
      (r : Option (List CoapOption) × ℕ) (path : List (List ℕ)) (ws : List CoapOption)
      → Starts r
      → denoted r ≡ ws
      → r.1 ≡ length ws
      → All (λ (o : CoapOption). IsBacked o.buf) ws
      → compare_path stale scratch k s r path
        ≡ ok (has_path path (map (λ (o : CoapOption). content o.buf) ws))
  unfolding compare_path
  compare_path-has_path (none, count) path ws st d n b = rw (← d)
  compare_path-has_path (some f, count) path [] st d n b = absurd (omega arith)
  compare_path-has_path (some f, count) path (w ∷ ws) st d n b =
      elim (ℕ_discrete count (length path)) [
        | yes e ↦
            let d' : take (length path) f ≡ w ∷ ws = rw e at d in
            rw (
              ==_true count (length path) e,
              match_path-same_path path f (ap length d' ∙ omega arith) (rw d' b),
              d',
            )
        | no ne ↦ rw (
          ==_false count (length path) ne,
          same_path-length path (map (λ (o : CoapOption). content o.buf) (w ∷ ws))
              (omega (arith, length-map (w ∷ ws) (λ (o : CoapOption). content o.buf))),
        )
      ]

  applies-serves :
      (ep : Endpoint)
      → AreSorted 0 k.opts
      → length k.opts < 256
      → All (λ (o : CoapOption). IsBacked o.buf) k.opts
      → applies stale scratch k s ep ≡ ok (serves k ep)
  unfolding applies
  applies-serves ep sorted room b =
      let (d, n) = find_options-with_num k option_uri_path sorted room in
      rw
        (compare_path-has_path (find_options k option_uri_path) ep.path
          (with_num option_uri_path k.opts) (find_options-Starts k option_uri_path sorted room) d n
          (All-with_num option_uri_path k.opts b))
        (ground arith)

  -- `coap_handle_req`, on any table and any request with ascending options and backed pointers, calls
  -- the handler of the first endpoint with the request's method and URI path, and answers 4.04 with an
  -- empty body, the static variables unchanged, if there is none.
  pub handle_req-route :
      (eps : List Endpoint)
      → AreSorted 0 k.opts
      → length k.opts < 256
      → All (λ (o : CoapOption). IsBacked o.buf) k.opts
      → handle_req stale scratch k s eps ≡ elim (route k eps) [
        | none ↦ ok (record {
          response =
              make_response stale scratch null_buffer k.hdr.id_hi k.hdr.id_lo k.tok not_found
                none_given;
          service = s;
        })
        | some ep ↦ handle stale scratch k s ep.handler
      ]
  unfolding handle_req
  handle_req-route [] sorted room b = refl
  handle_req-route (ep ∷ eps) sorted room b = elim (Bool-cases (serves k ep)) [
    | inl yes_it_does ↦ rw (applies-serves ep sorted room b, yes_it_does)
    | inr it_does_not ↦
        rw (applies-serves ep sorted room b, it_does_not) (handle_req-route eps sorted room b)
  ]
