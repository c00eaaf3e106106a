-- ===== src/CoapClient/Start.antt =====
-- The header and the token of the client's message.
use gateway_project.Base.{ℕ, ◌/◌, ◌%◌, ◌≡◌, refl, List, [], ◌∷◌, ◌++◌, replicate, ok, deref}
use gateway_project.CoapClient.Setters.{
  init_pdu, set_version, set_type, set_code, set_mid, set_token, make_room,
}
use gateway_project.CoapClient.Getters.{get_tkl}
use gateway_project.Base.Writes.{copy_in}
use gateway_project.CoapClient.Client.{start_message}

abbrev pub head_bytes : (mid token : ℕ) → List ℕ
head_bytes mid token =
    66 ∷ 1 ∷ (mid / 256 % 256) ∷ (mid % 256) ∷ (token % 256) ∷ (token / 256 % 256) ∷ []

pub start_message_lem :
    (mid token : ℕ)
    → start_message mid token
      ≡ ok (record { buf = head_bytes mid token ++ replicate 506 0; len = 6; max = 512 })
unfolding start_message init_pdu set_version set_type set_code set_mid set_token make_room get_tkl
    copy_in deref
start_message_lem mid token = refl
