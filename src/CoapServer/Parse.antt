-- ===== src/CoapServer/Parse.antt =====
-- The parser of coapServer/microcoap.c. `buf` is what can be read at the pointer, and `buflen` the
-- length that the caller claims; a read behind the end of `buf` is a fault.
use gateway_project.Base.{
  ℕ, zero, suc, ◌+◌, ◌-◌, ◌/◌, ◌%◌, ◌*◌, List, [], ◌∷◌, bit_and, bit_or, drop, ltb, leb, ◌==◌,
  if◌then◌else◌, Run, ok, err, ◌>>=◌, deref, not,
}
use gateway_project.CoapServer.Packet.{
  CoapError, header_too_short, version_not_1, token_too_short, option_too_short_for_header,
  option_overruns_packet, option_too_big, option_len_invalid, option_delta_invalid, CoapHeader,
  CoapBuffer, CoapOption, CoapPacket, maxopt, null_buffer,
}

unfoldable pub parse_header : List ℕ → ℕ → Run CoapError CoapHeader
parse_header buf buflen = if ltb buflen 4 then err header_too_short else do
  b0 ← deref buf 0
  let ver = bit_and b0 0xC0 / 64
  if not (ver == 1) then err version_not_1 else do
    b1 ← deref buf 1
    b2 ← deref buf 2
    b3 ← deref buf 3
    ok (record {
      ver = ver;
      t = bit_and b0 0x30 / 16;
      tkl = bit_and b0 0x0F;
      code = b1;
      id_hi = b2;
      id_lo = b3;
    })

unfoldable pub parse_token : CoapHeader → List ℕ → ℕ → Run CoapError CoapBuffer
parse_token hdr buf buflen =
    if hdr.tkl == 0
    then ok null_buffer
    else if leb hdr.tkl 8
    then (if ltb buflen (4 + hdr.tkl)
        then err token_too_short
        else ok (record { p = drop 4 buf; len = hdr.tkl }))
    else err token_too_short

-- Where the parser of one option stands: `p` at the last byte of the header so far, which has
-- `headlen` bytes, and the value of the field just read.
pub record Extended : Type 0 where
  pub value : ℕ
  pub headlen : ℕ
  pub p : List ℕ

-- The code for the option delta and that for the option length differ in the error of nibble 15.
-- The value is a uint16_t.
unfoldable pub parse_extended : CoapError → ℕ → ℕ → ℕ → List ℕ → Run CoapError Extended
parse_extended invalid buflen nibble headlen p =
    if nibble == 13
    then (if ltb buflen (headlen + 1) then err option_too_short_for_header else do
      b1 ← deref p 1
      ok (record { value = b1 + 13; headlen = headlen + 1; p = drop 1 p }))
    else if nibble == 14
    then (if ltb buflen (headlen + 2) then err option_too_short_for_header else do
      b1 ← deref p 1
      b2 ← deref p 2
      ok (record {
        value = (bit_or (b1 * 256) b2 + 269) % 65536;
        headlen = headlen + 2;
        p = drop 2 p;
      }))
    else if nibble == 15
    then err invalid
    else ok (record { value = nibble; headlen = headlen; p = p })

-- An option with what `coap_parseOption` writes back: `*running_delta`, `*buf`, and the bytes that
-- are left up to the end of the packet.
pub record Parsed : Type 0 where
  pub option : CoapOption
  pub running_delta : ℕ
  pub buf : List ℕ
  pub left : ℕ

-- `p + 1` is `*buf + headlen`, so the last test compares `headlen + len` with `buflen`.
unfoldable pub parse_option : ℕ → List ℕ → ℕ → Run CoapError Parsed
parse_option running_delta buf buflen = if ltb buflen 1 then err option_too_short_for_header else do
  b0 ← deref buf 0
  d ← parse_extended option_delta_invalid buflen (bit_and b0 0xF0 / 16) 1 buf
  l ← parse_extended option_len_invalid buflen (bit_and b0 0x0F) d.headlen d.p
  if ltb buflen (l.headlen + l.value)
      then err option_too_big
      else ok (record {
        option = record {
          num = (d.value + running_delta) % 256;
          buf = record { p = drop 1 l.p; len = l.value };
        };
        running_delta = (running_delta + d.value) % 65536;
        buf = drop (1 + l.value) l.p;
        left = buflen - (l.headlen + l.value);
      })

-- The loop over the options, with the number of array entries that are still free.
pub record Options : Type 0 where
  pub opts : List CoapOption
  pub p : List ℕ
  pub left : ℕ

unfoldable pub parse_options : ℕ → ℕ → List ℕ → ℕ → Run CoapError Options
parse_options zero delta p left = ok (record { opts = []; p = p; left = left })
parse_options (suc slots) delta p left =
    if left == 0 then ok (record { opts = []; p = p; left = left }) else do
      b ← deref p 0
      if b == 0xFF then ok (record { opts = []; p = p; left = left }) else do
        o ← parse_option delta p left
        rest ← parse_options slots o.running_delta o.buf o.left
        ok (record rest { opts = o.option ∷ rest.opts })

-- The payload marker counts only with a byte behind it.
unfoldable pub parse_payload : List ℕ → ℕ → Run CoapError CoapBuffer
parse_payload p left =
    if ltb 1 left
    then (do
      b ← deref p 0
      if b == 0xFF then ok (record { p = drop 1 p; len = left - 1 }) else ok null_buffer)
    else ok null_buffer

unfoldable pub parse_options_and_payload :
    CoapHeader → List ℕ → ℕ → Run CoapError (List CoapOption × CoapBuffer)
parse_options_and_payload hdr buf buflen =
    if ltb buflen (4 + hdr.tkl) then err option_overruns_packet else do
      r ← parse_options maxopt 0 (drop (4 + hdr.tkl) buf) (buflen - (4 + hdr.tkl))
      payload ← parse_payload r.p r.left
      ok (r.opts, payload)

unfoldable pub parse : List ℕ → ℕ → Run CoapError CoapPacket
parse buf buflen = do
  hdr ← parse_header buf buflen
  tok ← parse_token hdr buf buflen
  (opts, payload) ← parse_options_and_payload hdr buf buflen
  ok (record { hdr = hdr; tok = tok; opts = opts; payload = payload })
