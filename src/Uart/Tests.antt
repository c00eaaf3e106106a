-- ===== src/Uart/Tests.antt =====
-- The reader on concrete streams.
use gateway_project.Base.{ℕ, ◌≡◌, refl, List, [], ◌∷◌, ◌++◌, replicate, ok, fault, arith}
use gateway_project.Base.Text.{codes, c_string}
use gateway_project.Uart.Reader.{start_flag, starts, read_all}
use gateway_project.Uart.Copies.{QueuesCopies, read_all-QueuesCopies}
use gateway_project.Uart.Frames.{
  Line, bytes_of, events_of, frames_of, IsLine, read_all-frames_of, read_all_fault,
}

abbrev time : List ℕ
time = codes "Mon Jan  1 00:00:00 2018\n"

abbrev good : Line
good = record { body = (start_flag, time) ∷ (b'4', time) ∷ []; now = time }

-- A line without the start flag, which is dropped.
abbrev bad : Line
bad = record { body = (b'7', time) ∷ []; now = time }

good-IsLine : IsLine good
good-IsLine = record {
  is_open = (omega arith, (omega arith, tt));
  time = refl;
  short = omega arith;
}

bad-IsLine : IsLine bad
bad-IsLine = record { is_open = (omega arith, tt); time = refl; short = omega arith }

read_all-frames_of_example :
    read_all {E = Unit {0}}
      (record { received = []; frames = [] })
      (events_of (bad ∷ good ∷ []) ++ ((b'9', time) ∷ []))
    ≡ ok (record { received = b'9' ∷ []; frames = frames_of (good ∷ []) })
unfolding starts c_string
read_all-frames_of_example =
    read_all-frames_of [] (bad ∷ good ∷ []) ((b'9', time) ∷ []) (bad-IsLine, (good-IsLine, tt))
      (omega arith, tt) (omega arith)

-- The queued copy of a frame, before the zeros.
good_text : c_string (bytes_of good.body) ≡ codes "$4"
unfolding c_string
good_text = refl

read_all_fault_example :
    read_all {E = Unit {0}}
      (record { received = replicate 511 b'a'; frames = [] })
      ((b'b', time) ∷ (b'c', time) ∷ [])
    ≡ fault
read_all_fault_example =
    read_all_fault (record { received = replicate 511 b'a'; frames = [] })
      ((b'b', time) ∷ (b'c', time) ∷ []) (omega arith, (omega arith, tt)) (omega arith)
      (omega arith)

read_all-QueuesCopies_example :
    QueuesCopies
      (Unit {0})
      (read_all (record { received = []; frames = [] }) (events_of (bad ∷ good ∷ [])))
read_all-QueuesCopies_example =
    read_all-QueuesCopies (Unit {0}) (record { received = []; frames = [] })
      (events_of (bad ∷ good ∷ [])) tt
