-- ===== src/CoapClient/Setters.antt =====
-- The setters of coapClient/picocoap.c for the header and the token. A byte pointer argument is the
-- list of the bytes that can be read from it on.
use gateway_project.Base.{
  ℕ, zero, suc, ◌+◌, ◌*◌, ◌/◌, ◌%◌, List, [], ◌∷◌, ltb, if◌then◌else◌, Run, ok, err, ◌>>=◌, deref,
  bit_and, bit_or, replicate,
}
use gateway_project.Base.Writes.{poke, copy_in, move}
use gateway_project.CoapClient.Pdu.{ClientError, invalid_packet, insufficient_buffer, Pdu, sub_word}
use gateway_project.CoapClient.Getters.{get_tkl}

-- A byte is written, and the message reaches at least to `reach`.
abbrev pub put_byte : Pdu → (at_byte value reach : ℕ) → Run ClientError Pdu
put_byte pdu at_byte value reach = do
  buf ← poke pdu.buf at_byte value
  ok (record { buf = buf; len = if ltb pdu.len reach then reach else pdu.len; max = pdu.max })

unfoldable pub set_version : Pdu → ℕ → Run ClientError Pdu
set_version pdu ver =
    if ltb pdu.max 1
    then err insufficient_buffer
    else do b ← deref pdu.buf 0; put_byte pdu 0 (bit_or (ver * 64) (bit_and b 0x3F) % 256) 1

unfoldable pub set_type : Pdu → ℕ → Run ClientError Pdu
set_type pdu mtype =
    if ltb pdu.max 1
    then err insufficient_buffer
    else do b ← deref pdu.buf 0; put_byte pdu 0 (bit_or (mtype * 16) (bit_and b 0xCF) % 256) 1

unfoldable pub set_code : Pdu → ℕ → Run ClientError Pdu
set_code pdu code = if ltb pdu.max 2 then err insufficient_buffer else put_byte pdu 1 (code % 256) 2

unfoldable pub set_mid : Pdu → ℕ → Run ClientError Pdu
set_mid pdu mid =
    if ltb pdu.max 4
    then err insufficient_buffer
    else do pdu' ← put_byte pdu 2 (mid / 256 % 256) 0; put_byte pdu' 3 (mid % 256) 4

-- The lowest bytes of a number in memory.
abbrev pub token_bytes : ℕ → ℕ → List ℕ
token_bytes zero token = []
token_bytes (suc n) token = (token % 256) ∷ token_bytes n (token / 256)

-- The rest of the packet is moved if there is one.
unfoldable pub make_room : Pdu → (tkl old : ℕ) → Run ClientError (List ℕ)
make_room pdu tkl old =
    if ltb 4 pdu.len
    then (if ltb pdu.max (sub_word (pdu.len + tkl) old)
        then err insufficient_buffer
        else move pdu.buf (4 + tkl) (4 + old) (sub_word (sub_word pdu.len 4) old))
    else ok pdu.buf

unfoldable pub set_token : Pdu → (token tkl : ℕ) → Run ClientError Pdu
set_token pdu token tkl =
    if ltb pdu.max (4 + tkl)
    then err insufficient_buffer
    else if ltb 8 tkl
    then err invalid_packet
    else do
      old ← get_tkl pdu
      moved ← make_room pdu tkl old
      with_token ← copy_in moved 4 (token_bytes tkl token)
      b ← deref with_token 0
      buf ← poke with_token 0 (bit_or (bit_and tkl 0x0F) (bit_and b 0xF0))
      ok (record { buf = buf; len = sub_word (pdu.len + tkl) old; max = pdu.max })

unfoldable pub init_pdu : Pdu → Run ClientError Pdu
init_pdu pdu = if ltb pdu.max 4 then err insufficient_buffer else do
  cleared ← copy_in pdu.buf 0 (replicate 4 0)
  versioned ← set_version (record { buf = cleared; len = 0; max = pdu.max }) 1
  typed ← set_type versioned 3
  tokened ← set_token typed 0 0
  coded ← set_code tokened 0
  set_mid coded 0
