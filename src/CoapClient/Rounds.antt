-- ===== src/CoapClient/Rounds.antt =====
-- The loop of `CoapClient` in coapClient/coapClient.c: rounds that read from the pipe. What `read` and
-- `rand` give in a round is an argument; the answer of the server is received, but not looked at.
use gateway_project.Base.{
  ℕ, ◌-◌, ◌%◌, ◌^◌, List, [], ◌∷◌, ◌++◌, drop, length, Option, none, some, Run, ok, ◌>>=◌,
}
use gateway_project.Base.Text.{string_at}
use gateway_project.CoapClient.Pdu.{ClientError}
use gateway_project.CoapClient.Client.{send_round}

-- The variables that the rounds change, and the datagrams that were passed to `sendto`.
pub record Loop : Type 0 where
  pub message_id_counter : ℕ
  pub msg_buf : List ℕ
  pub datagrams : List (List ℕ)

-- What `read` stores, at most 512 bytes, or none for the result -1; and the random number.
pub record Round : Type 0 where
  pub got : Option (List ℕ)
  pub token : ℕ

-- `msg_len` as a size, and `msg_buf` after the call of `read`.
abbrev pub msg_len_of : Option (List ℕ) → ℕ
msg_len_of none = 2 ^ 64 - 1
msg_len_of (some m) = length m

abbrev pub msg_buf_after : List ℕ → Option (List ℕ) → List ℕ
msg_buf_after buf none = buf
msg_buf_after buf (some m) = m ++ drop (length m) buf

unfoldable pub client_round : (fuel : ℕ) → (path : List ℕ) → Loop → Round → Run ClientError Loop
client_round fuel path s r = do
  sent ←
      send_round fuel s.message_id_counter r.token path (msg_buf_after s.msg_buf r.got)
        (msg_len_of r.got)
  ok (record {
    message_id_counter = sent.counter;
    msg_buf = msg_buf_after s.msg_buf r.got;
    datagrams = s.datagrams ++ (sent.datagram ∷ []);
  })

unfoldable pub client_rounds :
    (fuel : ℕ) → (path : List ℕ) → Loop → List Round → Run ClientError Loop
client_rounds fuel path s [] = ok s
client_rounds fuel path s (r ∷ rs) = do t ← client_round fuel path s r; client_rounds fuel path t rs

-- From the first random number on, with the path of the address block and the array as the stack
-- leaves it.
unfoldable pub coap_client :
    (fuel seed : ℕ) → (path_array stack : List ℕ) → List Round → Run ClientError Loop
coap_client fuel seed path_array stack rs = do
  path ← string_at path_array
  client_rounds fuel path
      (record { message_id_counter = seed % 2 ^ 16; msg_buf = stack; datagrams = [] }) rs
