-- ===== src/CoapServer/ParseSafety.antt =====
-- Memory safety of `coap_parse`: on any bytes it reads inside the packet, and every buffer that it
-- hands out lies inside the packet.
use gateway_project.Base.{
  ℕ, zero, suc, get_elem?, refl, some, ◌+◌, ◌-◌, ◌/◌, ◌≤◌, ◌≡◌, List, All, length, drop,
  length-drop, arith, Returns, bind, branch, deref, deref-Returns, bit_and, ltb, leb, ◌==◌, not,
}
use gateway_project.CoapServer.Packet.{
  CoapError, option_delta_invalid, option_len_invalid, CoapHeader, CoapBuffer, CoapOption,
  CoapPacket, maxopt,
}
use gateway_project.CoapServer.Parse.{
  parse_header, parse_token, parse_extended, Extended, parse_option, Parsed, parse_options, Options,
  parse_payload, parse_options_and_payload, parse,
}

-- Behind the pointer of `b` there are `b.len` bytes.
abbrev pub IsBacked : CoapBuffer → Type 0
IsBacked b = b.len ≤ length b.p

abbrev pub IsInside : CoapPacket → Type 0
IsInside k =
    IsBacked k.tok
    × All (λ (o : CoapOption). IsBacked o.buf) k.opts
    × IsBacked k.payload
    × (length k.opts ≤ maxopt)

-- Within an option that starts with `size` readable bytes the pointer is at the header's last byte.
record Within (size buflen : ℕ) (x : Extended) : Type 0 where
  at_header : length x.p + x.headlen ≡ size + 1
  in_packet : x.headlen ≤ buflen

module _ (invalid : CoapError) (size buflen : ℕ) (fits : buflen ≤ size) where
  parse_extended-Within :
      (nibble headlen : ℕ) (p : List ℕ)
      → length p + headlen ≡ size + 1
      → headlen ≤ buflen
      → Returns (Within size buflen) (parse_extended invalid buflen nibble headlen p)
  unfolding parse_extended
  parse_extended-Within nibble headlen p e h =
      branch W (nibble == 13) _ _
        (λ _.
          branch W (ltb buflen (headlen + 1)) _ _ (λ _. tt)
            λ long. bind W (deref p 1) _ (deref-Returns _ p 1 (ground arith)) λ b _. record {
              at_header = ground (arith, length-drop 1 p);
              in_packet = ground arith;
            })
        λ _.
          branch W (nibble == 14) _ _
            (λ _.
              branch W (ltb buflen (headlen + 2)) _ _ (λ _. tt)
                λ long. bind W (deref p 1) _ (deref-Returns _ p 1 (ground arith)) λ b _.
                  bind W (deref p 2) _ (deref-Returns _ p 2 (ground arith)) λ c _. record {
                    at_header = ground (arith, length-drop 2 p);
                    in_packet = ground arith;
                  })
            λ _. branch W (nibble == 15) _ _ (λ _. tt) λ _. record { at_header = e; in_packet = h }
    where
      W : Extended → Type 0
      W = Within size buflen

record IsParsed (x : Parsed) : Type 0 where
  value : IsBacked x.option.buf
  rest : x.left ≤ length x.buf

parse_option-IsParsed :
    (delta : ℕ) (buf : List ℕ) (buflen : ℕ)
    → buflen ≤ length buf
    → Returns IsParsed (parse_option delta buf buflen)
unfolding parse_option
parse_option-IsParsed delta buf buflen h =
    branch IsParsed (ltb buflen 1) _ _ (λ _. tt)
      λ some_byte. bind IsParsed (deref buf 0) _ (deref-Returns _ buf 0 (ground arith)) λ b0 _.
        bind IsParsed (parse_extended option_delta_invalid buflen (bit_and b0 0xF0 / 16) 1 buf) _
          (parse_extended-Within option_delta_invalid (length buf) buflen h _ 1 buf (omega arith)
            (ground arith))
          λ d wd.
            bind IsParsed (parse_extended option_len_invalid buflen (bit_and b0 0x0F) d.headlen d.p)
              _
              (parse_extended-Within option_len_invalid (length buf) buflen h _ d.headlen d.p
                wd.at_header wd.in_packet)
              λ l wl.
                branch IsParsed (ltb buflen (l.headlen + l.value)) _ _ (λ _. tt)
                  λ fits. record {
                    value = ground (arith, length-drop 1 l.p, wl.at_header, wl.in_packet);
                    rest =
                        ground (arith, length-drop (1 + l.value) l.p, wl.at_header, wl.in_packet);
                  }

record AreParsed (slots : ℕ) (x : Options) : Type 0 where
  values : All (λ (o : CoapOption). IsBacked o.buf) x.opts
  room : length x.opts ≤ slots
  rest : x.left ≤ length x.p

parse_options-AreParsed :
    (slots delta : ℕ) (p : List ℕ) (left : ℕ)
    → left ≤ length p
    → Returns (AreParsed slots) (parse_options slots delta p left)
unfolding parse_options
parse_options-AreParsed zero delta p left h = record { values = tt; room = omega arith; rest = h }
parse_options-AreParsed (suc slots) delta p left h =
    branch A (left == 0) _ _ (λ _. record { values = tt; room = omega arith; rest = h })
      λ more. bind A (deref p 0) _ (deref-Returns _ p 0 (ground arith)) λ b _.
        branch A (b == 0xFF) _ _ (λ _. record { values = tt; room = omega arith; rest = h })
          λ _. bind A (parse_option delta p left) _ (parse_option-IsParsed delta p left h) λ o po.
            bind A (parse_options slots o.running_delta o.buf o.left) _
              (parse_options-AreParsed slots o.running_delta o.buf o.left po.rest)
              λ r pr. record {
                values = (po.value, pr.values);
                room = omega (arith, pr.room);
                rest = pr.rest;
              }
  where
    A : Options → Type 0
    A = AreParsed (suc slots)

parse_payload-IsBacked :
    (p : List ℕ) (left : ℕ) → left ≤ length p → Returns IsBacked (parse_payload p left)
unfolding parse_payload
parse_payload-IsBacked p left h =
    branch IsBacked (ltb 1 left) _ _
      (λ more. bind IsBacked (deref p 0) _ (deref-Returns _ p 0 (ground arith)) λ b _.
        branch IsBacked (b == 0xFF) _ _ (λ _. ground (arith, length-drop 1 p)) λ _. omega arith)
      λ _. omega arith

-- The version of a header that was read, and where its message id stands.
record IsRead (buf : List ℕ) (h : CoapHeader) : Type 0 where
  version : h.ver ≡ 1
  id_hi : get_elem? buf 2 ≡ some h.id_hi
  id_lo : get_elem? buf 3 ≡ some h.id_lo

parse_header-IsRead :
    (buf : List ℕ) (buflen : ℕ)
    → buflen ≤ length buf
    → Returns (IsRead buf) (parse_header buf buflen)
unfolding parse_header
parse_header-IsRead buf buflen h =
    branch H (ltb buflen 4) _ _ (λ _. tt)
      λ long. bind H (deref buf 0) _ (deref-Returns _ buf 0 (ground arith)) λ b0 _.
        branch H (not (bit_and b0 0xC0 / 64 == 1)) _ _ (λ _. tt)
          λ v. bind H (deref buf 1) _ (deref-Returns _ buf 1 (ground arith)) λ b1 _.
            bind H (deref buf 2) _ (deref-Returns _ buf 2 (ground arith)) λ b2 e2.
              bind H (deref buf 3) _ (deref-Returns _ buf 3 (ground arith))
                λ b3 e3. record { version = ground arith; id_hi = e2; id_lo = e3 }
  where
    H : CoapHeader → Type 0
    H = IsRead buf

record IsToken (hdr : CoapHeader) (b : CoapBuffer) : Type 0 where
  backed : IsBacked b
  same_len : b.len ≡ hdr.tkl
  short : hdr.tkl ≤ 8

parse_token-IsToken :
    (hdr : CoapHeader) (buf : List ℕ) (buflen : ℕ)
    → buflen ≤ length buf
    → Returns (IsToken hdr) (parse_token hdr buf buflen)
unfolding parse_token
parse_token-IsToken hdr buf buflen h =
    branch T (hdr.tkl == 0) _ _
      (λ z. record { backed = omega arith; same_len = ground arith; short = ground arith })
      λ _.
        branch T (leb hdr.tkl 8) _ _
          (λ short.
            branch T (ltb buflen (4 + hdr.tkl)) _ _ (λ _. tt)
              λ fits. record {
                backed = ground (arith, length-drop 4 buf);
                same_len = refl;
                short = ground arith;
              })
          λ _. tt
  where
    T : CoapBuffer → Type 0
    T = IsToken hdr

record HasBody (x : List CoapOption × CoapBuffer) : Type 0 where
  values : All (λ (o : CoapOption). IsBacked o.buf) x.0
  payload : IsBacked x.1
  room : length x.0 ≤ maxopt

parse_options_and_payload-HasBody :
    (hdr : CoapHeader) (buf : List ℕ) (buflen : ℕ)
    → buflen ≤ length buf
    → Returns HasBody (parse_options_and_payload hdr buf buflen)
unfolding parse_options_and_payload
parse_options_and_payload-HasBody hdr buf buflen h =
    let start = 4 + hdr.tkl in
    branch HasBody (ltb buflen start) _ _ (λ _. tt)
      λ fits.
        bind HasBody (parse_options maxopt 0 (drop start buf) (buflen - start)) _
          (parse_options-AreParsed maxopt 0 (drop start buf) (buflen - start)
            (omega (arith, length-drop start buf)))
          λ r pr.
            bind HasBody (parse_payload r.p r.left) _ (parse_payload-IsBacked r.p r.left pr.rest)
              λ payload b. record { values = pr.values; payload = b; room = pr.room }

-- What every parsed packet satisfies: its buffers lie inside the bytes received, it has at most
-- MAXOPT options, the version is 1, the token has the length that the header says, at most 8, and the
-- message id is that of the third and fourth byte.
pub record IsPacket (buf : List ℕ) (k : CoapPacket) : Type 0 where
  pub inside : IsInside k
  pub version : k.hdr.ver ≡ 1
  pub same_len : k.tok.len ≡ k.hdr.tkl
  pub short : k.hdr.tkl ≤ 8
  pub id_hi : get_elem? buf 2 ≡ some k.hdr.id_hi
  pub id_lo : get_elem? buf 3 ≡ some k.hdr.id_lo

-- `coap_parse` never reads outside the packet, whatever its bytes: it ends with an error code or with
-- a packet as described by `IsPacket`. The condition is that the length it is told is not above the
-- size of the buffer.
pub parse-IsPacket :
    (buf : List ℕ) (buflen : ℕ) → buflen ≤ length buf → Returns (IsPacket buf) (parse buf buflen)
unfolding parse
parse-IsPacket buf buflen h =
    bind P (parse_header buf buflen) _ (parse_header-IsRead buf buflen h) λ hdr r.
      bind P (parse_token hdr buf buflen) _ (parse_token-IsToken hdr buf buflen h) λ tok t.
        bind P (parse_options_and_payload hdr buf buflen) _
          (parse_options_and_payload-HasBody hdr buf buflen h)
          λ (opts, payload) body. record {
            inside = (t.backed, body.values, body.payload, body.room);
            version = r.version;
            same_len = t.same_len;
            short = t.short;
            id_hi = r.id_hi;
            id_lo = r.id_lo;
          }
  where
    P : CoapPacket → Type 0
    P = IsPacket buf
