-- ===== src/CoapClient/Getters.antt =====
-- The getters of coapClient/picocoap.c and picocoap.h.
use gateway_project.Base.{
  ℕ, zero, suc, ◌+◌, ◌*◌, ◌/◌, ◌%◌, ◌^◌, List, [], ◌∷◌, true, false, Option, none, some, ltb, leb,
  ◌==◌, ◌||◌, not, if◌then◌else◌, Run, ok, err, fault, out_of_fuel, ◌>>=◌, deref, fetch, bit_and,
  drop,
}
use gateway_project.CoapClient.Pdu.{
  ClientError, invalid_packet, end_of_packet, found_payload_marker, Pdu, ClientOption,
  ClientPayload, sub_word,
}
use gateway_project.CoapClient.Decode.{decode_option}

unfoldable pub get_version : Pdu → Run ClientError ℕ
get_version pdu = do b ← deref pdu.buf 0; ok (b / 64)

unfoldable pub get_type : Pdu → Run ClientError ℕ
get_type pdu = do b ← deref pdu.buf 0; ok (bit_and (b / 16) 0x03)

unfoldable pub get_tkl : Pdu → Run ClientError ℕ
get_tkl pdu = do b ← deref pdu.buf 0; ok (bit_and b 0x0F)

unfoldable pub get_code : Pdu → Run ClientError ℕ
get_code pdu = deref pdu.buf 1

unfoldable pub get_code_class : Pdu → Run ClientError ℕ
get_code_class pdu = do b ← get_code pdu; ok (b / 32)

unfoldable pub get_code_detail : Pdu → Run ClientError ℕ
get_code_detail pdu = do b ← get_code pdu; ok (bit_and b 0x1F)

unfoldable pub get_mid : Pdu → Run ClientError ℕ
get_mid pdu = do b ← deref pdu.buf 2; c ← deref pdu.buf 3; ok (b * 256 + c)

-- The number that bytes stand for in memory, the lowest byte first.
abbrev pub little_endian : List ℕ → ℕ
little_endian [] = 0
little_endian (b ∷ bs) = b + 256 * little_endian bs

-- The bytes are copied into a number of 8 bytes.
unfoldable pub get_token : Pdu → Run ClientError ℕ
get_token pdu = do
  tkl ← get_tkl pdu
  if ltb pdu.len (4 + tkl)
      then ok 0
      else if ltb 8 tkl
      then fault
      else do bytes ← fetch (drop 4 pdu.buf) tkl; ok (little_endian bytes)

-- The loop over the options: it ends after the first round, whatever `coap_decode_option` returns.
unfoldable pub validate_first : Pdu → (ptr : ℕ) → Run ClientError (Unit {0})
validate_first pdu ptr = elim (decode_option pdu.buf ptr (sub_word pdu.len ptr)) [
  | ok d ↦ ok tt
  | err end_of_packet ↦ ok tt
  | err found_payload_marker ↦ if pdu.len == ptr then err invalid_packet else ok tt
  | err e ↦ err e
  | fault ↦ fault
  | out_of_fuel ↦ out_of_fuel
]

unfoldable pub validate_pkt : Pdu → Run ClientError (Unit {0})
validate_pkt pdu =
    if ltb pdu.max pdu.len
    then err invalid_packet
    else if ltb pdu.len 4
    then err invalid_packet
    else (do
      version ← get_version pdu
      tkl ← get_tkl pdu
      if not (version == 1)
          then err invalid_packet
          else if ltb 8 tkl
          then err invalid_packet
          else validate_first pdu (4 + tkl))

-- Where the search for the next option begins.
unfoldable pub next_option : Pdu → (tkl : ℕ) → Option ClientOption → ℕ
next_option pdu tkl none = 4 + tkl
next_option pdu tkl (some last) = elim last.val [
  | none ↦ 4 + tkl
  | some val ↦
      if last.num == 0 || ltb pdu.len (val + last.len) || val + last.len == 0
      then 4 + tkl
      else val + last.len
]

abbrev pub last_number : Option ClientOption → ℕ
last_number none = 0
last_number (some last) = last.num

-- `gap` is the number that `NULL - pdu->buf` gives.
unfoldable pub get_option : (gap : ℕ) → Pdu → Option ClientOption → Run ClientError ClientOption
get_option gap pdu last = do
  tkl ← get_tkl pdu
  let num = last_number last in
      let ptr = next_option pdu tkl last in
      elim (decode_option pdu.buf ptr (sub_word pdu.len ptr)) [
        | ok d ↦ ok (record { num = (num + d.delta) % 2 ^ 16; len = d.length; val = some d.value })
        | err found_payload_marker ↦
            if num == 0
            then ok
                (record { num = 0; len = sub_word (sub_word pdu.len ptr) 1; val = some (ptr + 1) })
            else ok (record { num = 0; len = sub_word pdu.len gap; val = none })
        | err e ↦ ok (record { num = 0; len = 0; val = none })
        | fault ↦ fault
        | out_of_fuel ↦ out_of_fuel
      ]

abbrev pub no_option : ClientOption
no_option = record { num = 0; len = 0; val = none }

-- The loop of `coap_get_option_by_num`, with the count `i`, a uint8_t, and the option before.
unfoldable pub option_loop :
    (fuel gap : ℕ) → Pdu → (num occ i : ℕ) → ClientOption → Run ClientError ClientOption
option_loop zero gap pdu num occ i last = out_of_fuel
option_loop (suc fuel) gap pdu num occ i last = elim (get_option gap pdu (some last)) [
  | ok option ↦ elim (option.num == num) [
    | true ↦ elim (leb ((i + 1) % 256) occ) [
      | true ↦ option_loop fuel gap pdu num occ ((i + 1) % 256) option
      | false ↦ ok option
    ]
    | false ↦
        if ltb num option.num
        then ok no_option
        else if option.num == 0
        then ok option
        else (elim (leb i occ) [
          | true ↦ option_loop fuel gap pdu num occ i option
          | false ↦ ok option
        ])
  ]
  | err e ↦ err e
  | fault ↦ fault
  | out_of_fuel ↦ out_of_fuel
]

unfoldable pub get_option_by_num :
    (fuel gap : ℕ) → Pdu → (num occ : ℕ) → Run ClientError ClientOption
get_option_by_num fuel gap pdu num occ = option_loop fuel gap pdu num occ 0 no_option

-- The loop of `coap_get_payload` from an offset on.
unfoldable pub payload_loop : (fuel : ℕ) → Pdu → (offset : ℕ) → Run ClientError ClientPayload
payload_loop zero pdu offset = out_of_fuel
payload_loop (suc fuel) pdu offset = elim (decode_option pdu.buf offset (sub_word pdu.len offset)) [
  | ok d ↦ payload_loop fuel pdu (d.value + d.length)
  | err found_payload_marker ↦
      ok (record { len = sub_word (sub_word pdu.len offset) 1; val = some (offset + 1) })
  | err e ↦ ok (record { len = 0; val = none })
  | fault ↦ fault
  | out_of_fuel ↦ out_of_fuel
]

unfoldable pub get_payload : (fuel : ℕ) → Pdu → Run ClientError ClientPayload
get_payload fuel pdu = do tkl ← get_tkl pdu; payload_loop fuel pdu (4 + tkl)
