-- ===== src/CoapServer/Packet.antt =====
-- The data types of coapServer/microcoap.h. A constant byte pointer is the list of the bytes that can
-- be read from it on; NULL has none. The array `opts` is the list of its first `numopts` entries.
use gateway_project.Base.{ℕ, List, [], take}

pub data CoapError : Type 0 where
  header_too_short : CoapError
  version_not_1 : CoapError
  token_too_short : CoapError
  option_too_short_for_header : CoapError
  option_overruns_packet : CoapError
  option_too_big : CoapError
  option_len_invalid : CoapError
  buffer_too_small : CoapError
  unsupported : CoapError
  option_delta_invalid : CoapError

pub record CoapHeader : Type 0 where
  pub ver : ℕ
  pub t : ℕ
  pub tkl : ℕ
  pub code : ℕ
  pub id_hi : ℕ
  pub id_lo : ℕ

pub record CoapBuffer : Type 0 where
  pub p : List ℕ
  pub len : ℕ

pub record CoapOption : Type 0 where
  pub num : ℕ
  pub buf : CoapBuffer

pub record CoapPacket : Type 0 where
  pub hdr : CoapHeader
  pub tok : CoapBuffer
  pub opts : List CoapOption
  pub payload : CoapBuffer

abbrev pub maxopt : ℕ
maxopt = 16

abbrev pub null_buffer : CoapBuffer
null_buffer = record { p = []; len = 0 }

-- The bytes that a buffer denotes.
abbrev pub content : CoapBuffer → List ℕ
content b = take b.len b.p
