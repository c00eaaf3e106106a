-- ===== src/CoapClient/Tests.antt =====
-- The client's functions on concrete messages.
use gateway_project.Base.{
  ℕ, ◌+◌, ◌^◌, ◌≤◌, ◌<◌, ◌≡◌, refl, List, [], ◌∷◌, ◌++◌, length, map, All, ok, ◌>>=◌, arith, deref,
  fetch, some, replicate,
}
use gateway_project.Base.Text.{codes}
use gateway_project.CoapServer.Format.{
  Message, encode, encode_header, encode_options, encode_option, encode_payload, IsMessage, nibble,
  extension,
}
use gateway_project.Base.Writes.{copy_in, move}
use gateway_project.CoapClient.Pdu.{Pdu, ClientOption}
use gateway_project.CoapClient.Decode.{decode_option, decode_extended}
use gateway_project.CoapClient.Getters.{
  validate_pkt, validate_first, get_version, get_tkl, get_token, get_payload, get_option_by_num,
}
use gateway_project.CoapClient.Options.{
  Built, build_option_header, compute_option_header_len, extension_len, set_payload, put_payload,
  find_place, add_option, open_gap, adjust_option_deltas, adjust_option, build_length,
}
use gateway_project.CoapClient.HeaderDecode.{decode_option-build_option_header}
use gateway_project.CoapClient.Fields.{
  mid_is, update, read_fields, set_field, set_field-read_fields,
}
use gateway_project.CoapClient.RequestSteps.{request}
use gateway_project.CoapClient.Request.{request-IsMessage}
use gateway_project.CoapClient.Rounds.{Loop, coap_client}
use gateway_project.CoapClient.Sequence.{Line, reads, requests, IsRead, coap_client-requests}
use gateway_project.CoapClient.Setters.{set_token}
use gateway_project.CoapClient.TokenRoom.{with_token}
use gateway_project.CoapClient.Token.{packet_of, get_token-set_token}
use gateway_project.CoapClient.Payload.{payload_at, get_payload-encode}
use gateway_project.CoapClient.AddedOptions.{add_all}
use gateway_project.CoapClient.Building.{set_payload-add_all}
use gateway_project.CoapClient.NextOption.{values_with, Finds}
use gateway_project.CoapClient.Lookup.{get_option_by_num-values_with}

abbrev path : List ℕ
path = codes "light"

-- A line of two bytes.
abbrev line : List ℕ
line = codes "$7"

abbrev sample : Message
sample = request 513 770 path line

sample-IsMessage : IsMessage sample
sample-IsMessage = request-IsMessage 513 770 path line (omega arith)

line_fits : compute_option_header_len 11 5 + 5 + 3 ≤ 506
unfolding compute_option_header_len extension_len
line_fits = omega arith

abbrev two_lines : List Line
two_lines =
    record { first = b'$'; others = b'7' ∷ []; token = 770 }
    ∷ record { first = b'$'; others = b'8' ∷ []; token = 41 }
    ∷ []

-- The message id wraps between the two lines.
coap_client-requests_example :
    (t : Loop) × (coap_client 2 65535 (path ++ (0 ∷ 9 ∷ [])) [] (reads two_lines) ≡ ok t)
    × (t.datagrams ≡ map encode (requests 65535 path two_lines))
    × All IsRead (requests 65535 path two_lines)
coap_client-requests_example =
    coap_client-requests 0 65535 path (9 ∷ []) [] two_lines (omega arith) (omega arith)
      (line_fits, (line_fits, tt))

long_header_fits : compute_option_header_len 300 20 ≤ 5
unfolding compute_option_header_len extension_len
long_header_fits = omega arith

decode_option-build_option_header_example :
    (built : Built) × (build_option_header
        (64 ∷ 0 ∷ 0 ∷ 0 ∷ 0 ∷ 0 ∷ [])
        1
        (compute_option_header_len 300 20)
        300
        20
      ≡ ok built)
    × (decode_option built.buf 1 9
        ≡ ok (record { delta = 300; length = 20; value = 1 + built.result }))
decode_option-build_option_header_example =
    decode_option-build_option_header (64 ∷ []) (0 ∷ 0 ∷ 0 ∷ 0 ∷ 0 ∷ []) 300 20 9 (omega arith)
      (omega arith) (omega arith) long_header_fits

abbrev small_pdu : Pdu
small_pdu = record { buf = 66 ∷ 1 ∷ 2 ∷ 3 ∷ []; len = 4; max = 4 }

set_field-read_fields_example :
    (set_field (mid_is 770) small_pdu >>= read_fields)
    ≡ (read_fields small_pdu >>= λ f. ok (update (mid_is 770) f))
set_field-read_fields_example =
    set_field-read_fields (mid_is 770) small_pdu (omega arith)
      (omega arith, (omega arith, (omega arith, (omega arith, tt)))) (omega arith)

sample_short : length (encode sample) < 2 ^ 63
unfolding encode encode_header encode_options encode_option encode_payload nibble extension
sample_short = omega arith

get_payload-encode_example :
    get_payload 2
      (record { buf = encode sample ++ (1 ∷ []); len = length (encode sample); max = 512 })
    ≡ ok (payload_at (length (encode sample)) line)
get_payload-encode_example =
    get_payload-encode sample 2 512 (1 ∷ []) sample-IsMessage (omega arith) sample_short

-- A token of three bytes takes the place of the one of two bytes.
get_token-set_token_example :
    (left : List ℕ) × (set_token
        (packet_of sample (replicate 40 9) (length (encode sample) + 40))
        70000
        3
      ≡ ok (packet_of (with_token sample 70000 3) left (length (encode sample) + 40)))
    × (get_token (packet_of (with_token sample 70000 3) left (length (encode sample) + 40))
        ≡ ok 70000)
unfolding encode encode_header encode_options encode_option encode_payload nibble extension
get_token-set_token_example =
    get_token-set_token sample 70000 3 (length (encode sample) + 40) (replicate 40 9)
      sample-IsMessage (omega arith) (omega arith) refl (omega arith) (omega arith)

-- A request with two path segments and a query.
abbrev long_path : Message
long_path = record {
  hdr = record { ver = 1; t = 0; tkl = 1; code = 1; id_hi = 2; id_lo = 3 };
  token = 9 ∷ [];
  options = (11, codes "sensor") ∷ (11, path) ∷ (15, codes "on") ∷ [];
  payload = line;
}

long_path-IsMessage : IsMessage long_path
long_path-IsMessage = record {
  header = record {
    version = refl;
    type = omega arith;
    token_length = omega arith;
    code = omega arith;
    id_hi = omega arith;
    id_lo = omega arith;
  };
  token = refl;
  options = omega arith;
  room = omega arith;
}

long_path_fits : length (encode long_path) ≤ 25
unfolding encode encode_header encode_options encode_option encode_payload nibble extension
long_path_fits = omega arith

long_path_size : 5 + 20 ≡ length (encode_header long_path.hdr ++ (9 ∷ [])) + 20
unfolding encode_header
long_path_size = refl

get_option_by_num-values_with_example :
    (r : ClientOption) × (get_option_by_num 4 0
        (record { buf = encode long_path ++ (1 ∷ []); len = length (encode long_path); max = 512 })
        11
        1
      ≡ ok r)
    × Finds (encode long_path ++ (1 ∷ [])) 11 (some path) r
unfolding values_with
get_option_by_num-values_with_example =
    get_option_by_num-values_with long_path 4 0 11 1 512 (1 ∷ []) long_path-IsMessage (omega arith)
      (omega arith) (omega arith) (omega arith) (omega (arith, long_path_fits))

set_payload-add_all_example :
    (left : List ℕ) × ((add_all 4
          (record {
            buf = (encode_header long_path.hdr ++ (9 ∷ [])) ++ replicate 20 7;
            len = length (encode_header long_path.hdr ++ (9 ∷ []));
            max = 25;
          })
          long_path.options
        >>= λ pdu. set_payload 4 pdu line 2)
      ≡ ok (record { buf = encode long_path ++ left; len = length (encode long_path); max = 25 }))
set_payload-add_all_example =
    set_payload-add_all long_path 4 25 b'$' (b'7' ∷ []) (replicate 20 7) long_path-IsMessage refl
      (omega arith) long_path_size long_path_fits (omega arith)

-- An option with the number 1 before options with the numbers 3 and 5, which become 3 and 7. The byte
-- behind the packet is taken for an option, too.
later_number_changed :
    add_option 5
      (record { buf = 64 ∷ 1 ∷ 0 ∷ 0 ∷ 48 ∷ 32 ∷ 0 ∷ 0 ∷ 9 ∷ []; len = 6; max = 9 })
      1
      []
      0
    ≡ ok (record { buf = 64 ∷ 1 ∷ 0 ∷ 0 ∷ 16 ∷ 32 ∷ 64 ∷ 64 ∷ 9 ∷ []; len = 7; max = 9 })
unfolding add_option open_gap adjust_option_deltas adjust_option build_option_header build_length
    find_place decode_option decode_extended get_tkl deref fetch copy_in move
    compute_option_header_len extension_len
later_number_changed = refl

-- The second option header is not valid, and the packet is accepted.
second_option_unchecked :
    validate_pkt (record { buf = 64 ∷ 1 ∷ 0 ∷ 0 ∷ 16 ∷ 240 ∷ []; len = 6; max = 6 }) ≡ ok tt
unfolding validate_pkt validate_first decode_option decode_extended get_version get_tkl deref
second_option_unchecked = refl

-- A second payload overwrites the payload marker.
marker_overwritten :
    set_payload 3 (record { buf = 64 ∷ 1 ∷ 0 ∷ 0 ∷ 255 ∷ 7 ∷ 0 ∷ []; len = 6; max = 7 }) (9 ∷ []) 1
    ≡ ok (record { buf = 64 ∷ 1 ∷ 0 ∷ 0 ∷ 9 ∷ 7 ∷ 0 ∷ []; len = 5; max = 7 })
unfolding set_payload put_payload find_place decode_option decode_extended get_tkl deref fetch
    copy_in
marker_overwritten = refl
