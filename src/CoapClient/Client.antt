-- ===== src/CoapClient/Client.antt =====
-- The message that the loop of `CoapClient` in coapClient/coapClient.c builds and sends. The results of
-- the setters are not looked at, so that after an error the message stays as it is.
use gateway_project.Base.{
  ℕ, ◌+◌, ◌%◌, ◌^◌, List, take, length, replicate, Run, ok, err, fault, out_of_fuel, ◌>>=◌,
}
use gateway_project.CoapClient.Pdu.{ClientError, Pdu}
use gateway_project.CoapClient.Setters.{
  init_pdu, set_version, set_type, set_code, set_mid, set_token,
}
use gateway_project.CoapClient.Options.{add_option, set_payload}

abbrev pub msg_buf_len : ℕ
msg_buf_len = 512

abbrev pub tolerate : Pdu → Run ClientError Pdu → Run ClientError Pdu
tolerate pdu (ok p) = ok p
tolerate pdu (err e) = ok pdu
tolerate pdu fault = fault
tolerate pdu out_of_fuel = out_of_fuel

-- The header and the token.
unfoldable pub start_message : (mid token : ℕ) → Run ClientError Pdu
start_message mid token =
    let zeros : Pdu = record { buf = replicate msg_buf_len 0; len = 0; max = msg_buf_len } in
    do
      a ← tolerate zeros (init_pdu zeros)
      b ← tolerate a (set_version a 1)
      c ← tolerate b (set_type b 0)
      d ← tolerate c (set_code c 1)
      e ← tolerate d (set_mid d mid)
      tolerate e (set_token e token 2)

unfoldable pub build_message :
    (fuel mid token : ℕ) → (path msg : List ℕ) → (msg_len : ℕ) → Run ClientError Pdu
build_message fuel mid token path msg msg_len = do
  started ← start_message mid token
  named ← tolerate started (add_option fuel started 11 path (length path))
  tolerate named (set_payload fuel named msg msg_len)

-- What a round passes to `sendto`, and the counter afterwards, a uint16_t.
pub record Sent : Type 0 where
  pub datagram : List ℕ
  pub counter : ℕ

unfoldable pub send_round :
    (fuel counter token : ℕ) → (path msg : List ℕ) → (msg_len : ℕ) → Run ClientError Sent
send_round fuel counter token path msg msg_len = do
  pdu ← build_message fuel counter token path msg msg_len
  ok (record { datagram = take pdu.len pdu.buf; counter = (counter + 1) % 2 ^ 16 })
