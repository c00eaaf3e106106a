-- ===== src/CoapClient/TokenRoom.antt =====
-- Moves inside a buffer that make room for another token.
use gateway_project.Base.{
  ℕ, zero, suc, ◌+◌, ◌*◌, ◌/◌, ◌%◌, ◌^◌, ◌≤◌, ◌<◌, ◌≡◌, refl, sym, ap, List, [], ◌∷◌, ◌++◌,
  append_assoc, length, length-append, length-take, take, drop, take-length-append,
  drop-length-append, take-append-drop, fetch-ok, ok, ltb-false, lt→ltb, arith, bit_and, bit_or,
}
use gateway_project.Base.Bits.{and_0f, and_f0, or_nibbles_swapped}
use gateway_project.Base.Writes.{leb-true, copy_in, copy_in-append, move}
use gateway_project.CoapServer.Packet.{CoapHeader}
use gateway_project.CoapServer.Format.{Message, IsHeader}
use gateway_project.CoapClient.Pdu.{ClientError, sub_word}
use gateway_project.CoapClient.Getters.{little_endian}
use gateway_project.CoapClient.Setters.{token_bytes, make_room}

pub length-token_bytes : (n token : ℕ) → length (token_bytes n token) ≡ n
length-token_bytes zero token = refl
length-token_bytes (suc n) token = ap suc (length-token_bytes n (token / 256))

pub little_endian-token_bytes :
    (n token : ℕ) → token < 256 ^ n → little_endian (token_bytes n token) ≡ token
little_endian-token_bytes zero token h = omega (arith, h)
little_endian-token_bytes (suc n) token h =
    omega (arith, little_endian-token_bytes n (token / 256) (omega (arith, h)))

take-append : (a y : List ℕ) (n : ℕ) → take (length a + n) (a ++ y) ≡ a ++ take n y
take-append [] y n = let e : 0 + n ≡ n = omega arith in rw e
take-append (x ∷ a) y n =
    let e : suc (length a) + n ≡ suc (length a + n) = omega arith in
    rw e (ap (λ u. x ∷ u) (take-append a y n))

-- A part `tail` of a buffer is moved, so that `n` bytes stand between it and the first part `a`.
move-append :
    (a b tail rest : List ℕ) (n : ℕ)
    → length a + n + length tail ≤ length (a ++ (b ++ (tail ++ rest)))
    → move {E = ClientError}
        (a ++ (b ++ (tail ++ rest)))
        (length a + n)
        (length a + length b)
        (length tail)
      ≡ ok (
          a
          ++ (take n (b ++ (tail ++ rest))
              ++ (tail ++ drop (length a + n + length tail) (a ++ (b ++ (tail ++ rest))))))
unfolding move copy_in
move-append a b tail rest n room =
    let w = a ++ (b ++ (tail ++ rest)) in
    let behind : drop (length a + length b) w ≡ tail ++ rest =
      rw (sym (append_assoc a b (tail ++ rest))) (
        drop-length-append (length a + length b) (a ++ b) (tail ++ rest)
          (omega (arith, length-append a b))) in
    rw (
      behind,
      fetch-ok {E = ClientError} (tail ++ rest) (length tail)
          (omega (arith, length-append tail rest)),
      take-length-append (length tail) tail rest refl,
      leb-true (length a + n + length tail) (length w) room,
      take-append a (b ++ (tail ++ rest)) n,
      append_assoc a (take n (b ++ (tail ++ rest))) (tail ++ drop (length a + n + length tail) w),
    )

-- Bytes are written over as many others.
pub copy_in-over :
    (a t q rest : List ℕ)
    → length t ≡ length q
    → copy_in {E = ClientError} (a ++ (t ++ rest)) (length a) q ≡ ok (a ++ (q ++ rest))
copy_in-over a t q rest e = rw (
  copy_in-append ClientError a (t ++ rest) q (length a) refl
      (omega (arith, e, length-append t rest)),
  drop-length-append (length q) t rest (sym e),
  append_assoc a q rest,
)

-- The message with another token.
abbrev pub with_token : Message → (token tkl : ℕ) → Message
with_token m token tkl = record m {
  hdr = record (m.hdr) { tkl = tkl };
  token = token_bytes tkl token;
}

module _ (max n : ℕ) (hn : n ≤ 8) (small : max < 2 ^ 63) where
  -- The rest of the packet is moved behind the new token.
  make_room-longer :
      (a tok tail rest : List ℕ)
      → length a ≡ 4
      → 0 < length tok + length tail
      → 4 + n + length tail ≤ max
      → max ≡ 4 + (length tok + (length tail + length rest))
      → (t left : List ℕ) × (length t ≡ n)
        × (make_room
              (record {
                buf = a ++ (tok ++ (tail ++ rest));
                len = 4 + (length tok + length tail);
                max = max;
              })
              n
              (length tok)
            ≡ ok (a ++ (t ++ (tail ++ left))))
  unfolding make_room
  make_room-longer a tok tail rest four longer room hmax =
      let behind = tok ++ (tail ++ rest) in
      let sizes : length behind ≡ length tok + (length tail + length rest) =
        omega (arith, length-append tok (tail ++ rest), length-append tail rest) in
      let size : sub_word (sub_word (4 + (length tok + length tail)) 4) (length tok) ≡ length tail =
        omega (arith, hmax, small) in
      (
        take n behind,
        drop (length a + n + length tail) (a ++ behind),
        omega (arith, length-take n behind, sizes, hmax, room),
        rw
            (
              lt→ltb 4 (4 + (length tok + length tail)) (omega (arith, longer)),
              ltb-false max (sub_word (4 + (length tok + length tail) + n) (length tok))
                  (omega (arith, hmax, small, room, hn)),
              size,
              sym four,
            )
            (move-append a tok tail rest n
              (omega (arith, four, room, sizes, hmax, length-append a behind))),
      )

  -- There is nothing to move in a packet that ends with its header.
  pub make_room-moved :
      (a tok tail rest : List ℕ)
      → length a ≡ 4
      → 4 + n + length tail ≤ max
      → max ≡ 4 + (length tok + (length tail + length rest))
      → (t left : List ℕ) × (length t ≡ n)
        × (make_room
              (record {
                buf = a ++ (tok ++ (tail ++ rest));
                len = 4 + (length tok + length tail);
                max = max;
              })
              n
              (length tok)
            ≡ ok (a ++ (t ++ (tail ++ left))))
  unfolding make_room
  make_room-moved a [] [] rest four room hmax = (
    take n rest,
    drop n rest,
    omega (arith, length-take n rest, room, hmax),
    rw (take-append-drop n rest),
  )
  make_room-moved a [] (x ∷ tail) rest four room hmax =
      make_room-longer a [] (x ∷ tail) rest four (omega arith) room hmax
  make_room-moved a (x ∷ tok) tail rest four room hmax =
      make_room-longer a (x ∷ tok) tail rest four (omega arith) room hmax

-- The first byte with another length of the token.
pub first_byte :
    (h : CoapHeader) (n : ℕ)
    → IsHeader h
    → n ≤ 8
    → bit_or (bit_and n 0x0F) (bit_and (h.ver * 64 + h.t * 16 + h.tkl) 0xF0)
      ≡ h.ver * 64 + h.t * 16 + n
first_byte h n w hn =
    let b = h.ver * 64 + h.t * 16 + h.tkl in
    let high : b / 16 ≡ h.ver * 4 + h.t = omega (arith, w.token_length) in
    rw
      (
        and_0f n (omega (arith, hn)),
        and_f0 b (omega (arith, w.version, w.type, w.token_length)),
        high,
        or_nibbles_swapped (h.ver * 4 + h.t) (n % 16) (omega (arith, w.version, w.type))
            (omega (arith, hn)),
      )
      (omega (arith, hn))
