-- ===== src/Gateway/Process.antt =====
-- A client process: what a process that `CreatCoapclient` of user/main.c forks does in `CoapClient` of
-- coapClient/coapClient.c, from its set-up on.
use gateway_project.Base.{ℕ, List, Bool, not, if◌then◌else◌, replicate, Run, ok, err, ◌>>=◌}
use gateway_project.Base.Text.{c_string}
use gateway_project.IpTable.Lines.{CoapIp, Exit, exit_failure}
use gateway_project.CoapClient.Pdu.{ClientError}
use gateway_project.CoapClient.Rounds.{Loop, Round, coap_client}
use gateway_project.Gateway.Fifo.{getfifo_name}

-- With the process id of its own and the block of its entry: whether the socket is made, and which
-- pipes can be opened to read. Without the one or the other the process exits.
unfoldable pub client_process :
    (fuel seed pid : ℕ) (made : Bool) (opens : List ℕ → Bool) (block : CoapIp) (stack : List ℕ)
    → List Round
    → Run Exit (Run ClientError Loop)
client_process fuel seed pid made opens block stack rounds =
    if not made then err exit_failure else do
      fifo ← getfifo_name (replicate 64 0) 64 pid
      if opens (c_string fifo)
          then ok (coap_client fuel seed block.path stack rounds)
          else err exit_failure
