-- ===== src/CoapServer/Hello.antt =====
-- The resource /hello: what a PUT stores, a GET returns.
use gateway_project.Base.{
  ℕ, ◌≤◌, ◌<◌, ◌≡◌, refl, List, [], ◌∷◌, none, some, length, All, arith, ◌==◌, ==_false, ltb-false,
  if◌then◌else◌, ok, deref,
}
use gateway_project.Base.Text.{codes, same}
use gateway_project.CoapServer.Packet.{CoapBuffer, CoapOption, CoapPacket, content}
use gateway_project.CoapServer.Respond.{
  content_205, changed, text_plain, make_response, response_code,
}
use gateway_project.CoapServer.Endpoints.{
  Service, endpoints, Handled, handle, handle_req, get_hello, put_hello, method_get, method_put,
}
use gateway_project.CoapServer.FindOptions.{AreSorted}
use gateway_project.CoapServer.Dispatch.{uri_path, route, handle_req-route}
use gateway_project.CoapServer.ParseSafety.{IsBacked}

abbrev pub hello_path : List (List ℕ)
hello_path = codes "hello" ∷ []

-- A request with ascending options, fewer than 256, and backed pointers, for the path of /hello.
pub record IsHello (k : CoapPacket) : Type 0 where
  pub sorted : AreSorted 0 k.opts
  pub room : length k.opts < 256
  pub backed : All (λ (o : CoapOption). IsBacked o.buf) k.opts
  pub path : uri_path k ≡ hello_path

-- The state of /hello that a body sets: '1' for a body that begins with '1', and '0' for any other.
abbrev pub stored : ℕ → ℕ
stored b = if b == b'1' then b'1' else b'0'

-- The body of a response.
abbrev pub body_of : Handled → List ℕ
body_of h = content h.response.pkt.payload

module _ (stale : ℕ) (scratch : CoapBuffer) (room : 2 ≤ scratch.len) where
  route-put :
      (k : CoapPacket)
      → IsHello k
      → k.hdr.code ≡ method_put
      → route k endpoints
        ≡ some (record {
          method = method_put;
          handler = put_hello;
          path = hello_path;
          core_attr = none;
        })
  unfolding same
  route-put k w c = rw (c, w.path)

  route-get :
      (k : CoapPacket)
      → IsHello k
      → k.hdr.code ≡ method_get
      → route k endpoints
        ≡ some (record {
          method = method_get;
          handler = get_hello;
          path = hello_path;
          core_attr = some (codes "ct=0");
        })
  unfolding same
  route-get k w c = rw (c, w.path)

  -- A PUT of a body to /hello is answered by 2.04 with the new state as its body, and a GET of /hello
  -- afterwards by 2.05 with that state, which it leaves as it is. Both requests have ascending options
  -- and backed pointers; the scratch buffer has two bytes at least.
  pub get-put :
      (put get : CoapPacket) (s : Service) (b : ℕ) (more : List ℕ)
      → IsHello put
      → IsHello get
      → put.hdr.code ≡ method_put
      → get.hdr.code ≡ method_get
      → put.payload.p ≡ b ∷ more
      → 0 < put.payload.len
      → (h g : Handled) × (handle_req stale scratch put s endpoints ≡ ok h)
        × (h.response.pkt.hdr.code ≡ response_code changed)
        × (body_of h ≡ stored b ∷ [])
        × (handle_req stale scratch get h.service endpoints ≡ ok g)
        × (g.response.pkt.hdr.code ≡ response_code content_205)
        × (body_of g ≡ stored b ∷ [])
        × (g.service ≡ h.service)
  unfolding handle make_response deref
  get-put put get s b more wp wg cp cg e some_bytes =
      let s' : Service = record s { ret_hello = stored b } in
      let body : CoapBuffer = record { p = stored b ∷ []; len = 1 } in
      let h : Handled = record {
        response =
            make_response stale scratch body put.hdr.id_hi put.hdr.id_lo put.tok changed text_plain;
        service = s';
      } in
      let g : Handled = record {
        response =
            make_response stale scratch body get.hdr.id_hi get.hdr.id_lo get.tok content_205
              text_plain;
        service = s';
      } in
      (
        h,
        g,
        rw (
          handle_req-route stale scratch put s endpoints wp.sorted wp.room wp.backed,
          route-put put wp cp,
          ==_false put.payload.len 0 (omega arith),
          e,
        ),
        rw (ltb-false scratch.len 2 room),
        rw (ltb-false scratch.len 2 room),
        rw (
          handle_req-route stale scratch get s' endpoints wg.sorted wg.room wg.backed,
          route-get get wg cg,
        ),
        rw (ltb-false scratch.len 2 room),
        rw (ltb-false scratch.len 2 room),
        refl,
      )
