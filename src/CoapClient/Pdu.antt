-- ===== src/CoapClient/Pdu.antt =====
-- The types of coapClient/picocoap.h, and arithmetic on `size_t`. `buf` holds all bytes of the array
-- that the pointer `buf` of the struct points to; other pointers are offsets into it.
use gateway_project.Base.{ℕ, ◌+◌, ◌-◌, ◌%◌, ◌^◌, List, Option}

-- The error codes other than CE_NONE.
pub data ClientError : Type 0 where
  invalid_packet : ClientError
  insufficient_buffer : ClientError
  end_of_packet : ClientError
  found_payload_marker : ClientError

pub record Pdu : Type 0 where
  pub buf : List ℕ
  pub len : ℕ
  pub max : ℕ

pub record ClientOption : Type 0 where
  pub num : ℕ
  pub len : ℕ
  pub val : Option ℕ

pub record ClientPayload : Type 0 where
  pub len : ℕ
  pub val : Option ℕ

-- Arithmetic on `size_t`.
abbrev pub word : ℕ
word = 2 ^ 64

abbrev pub sub_word : ℕ → ℕ → ℕ
sub_word a b = (a + word - b % word) % word

abbrev pub with_buf : Pdu → List ℕ → Pdu
with_buf pdu buf = record { buf = buf; len = pdu.len; max = pdu.max }

abbrev pub with_len : Pdu → ℕ → Pdu
with_len pdu len = record { buf = pdu.buf; len = len; max = pdu.max }
