-- ===== src/Gateway/Readings.antt =====
-- From the serial line to the network: what the two threads hand to a client process, and what it sends.
use gateway_project.Base.{ℕ, List, [], ◌∷◌, ◌++◌, Bool, false, ◌==◌, ◌||◌, if◌then◌else◌}
use gateway_project.Base.Text.{same}
use gateway_project.CoapServer.Format.{Message}
use gateway_project.IpTable.Table.{Table}
use gateway_project.Gateway.Clients.{Event, open_of}
use gateway_project.Gateway.Create.{Process}
use gateway_project.Gateway.Threads.{Delivery, Threads}

abbrev pub payload_of : Message → List ℕ
payload_of m = m.payload

-- The texts that are written to one descriptor.
abbrev pub copies : ℕ → List ℕ → List ℕ → List (List ℕ)
copies fd text [] = []
copies fd text (x ∷ fds) = if fd == x then text ∷ copies fd text fds else copies fd text fds

abbrev pub written_to : ℕ → List Delivery → List (List ℕ)
written_to fd [] = []
written_to fd (d ∷ ds) = copies fd d.text d.fds ++ written_to fd ds

-- The names under which the gateway opened a pipe.
abbrev pub opened_in : List Event → List ℕ → Bool
opened_in [] name = false
opened_in (open_of other ∷ log) name = same other name || opened_in log name
opened_in (_ ∷ log) name = opened_in log name
