-- ===== src/Uart/Copies.antt =====
-- The copies that the serial reader queues end with a NUL, as their sender needs it.
use gateway_project.Base.{
  ℕ, zero, suc, ◌+◌, ◌-◌, ◌≤◌, ◌<◌, ◌≡◌, refl, List, [], ◌∷◌, ◌++◌, All, All-append, Bool-cases,
  length, length-append, replicate, ltb, ◌==◌, ==_false, ==_true, Run, ok, err, fault, out_of_fuel,
  ◌>>=◌, arith, ℕ_discrete, inl, inr, dec_lt,
}
use gateway_project.Base.Text.{codes, c_string, string_at}
use gateway_project.Base.Writes.{leb-true, leb-false}
use gateway_project.Uart.Reader.{
  sql_text, insert_db, Frame, Reader, end_flag, starts, whole_buffer, end_of_line, read_byte,
  read_all,
}

length-sql_text : (now msg : List ℕ) → length msg ≤ length (sql_text now msg)
unfolding sql_text
length-sql_text now msg = omega (
  arith,
  length-append (codes "INSERT INTO COAPMSG (TIME,ID,MSG) VALUES ('")
      (now ++ (codes "', NULL, '" ++ (msg ++ codes "'); "))),
  length-append now (codes "', NULL, '" ++ (msg ++ codes "'); ")),
  length-append (codes "', NULL, '") (msg ++ codes "'); "),
  length-append msg (codes "'); "),
)

-- What `strlen` and `write` find in a copy, for any outcomes of errors.
abbrev pub IsCopy : Type 0 → List ℕ → Type 0
IsCopy E m = string_at {E = E} m ≡ ok (c_string m)

-- Bytes that hold a NUL, or that leave room for one.
string_at-room :
    (E : Type 0) (bytes : List ℕ) (n : ℕ)
    → length (c_string bytes) < length bytes + n
    → IsCopy E (bytes ++ replicate n 0)
unfolding string_at c_string
string_at-room E [] zero h = absurd (omega (arith, h))
string_at-room E [] (suc n) h = refl
string_at-room E (b ∷ bs) n h = elim (ℕ_discrete b 0) [
  | yes z ↦ rw (==_true b 0 z) refl
  | no nz ↦ rw (==_false b 0 nz, string_at-room E bs n (shorter (rw (==_false b 0 nz) at h))) refl
]
  where
    shorter :
        suc (length (c_string bs)) < suc (length bs) + n → length (c_string bs) < length bs + n
    shorter k = omega (arith, k)

abbrev pub AreCopies : Type 0 → List Frame → Type 0
AreCopies E = All (λ (f : Frame). IsCopy E f.message)

-- Whatever the reader did, unless it faulted, its frames are copies.
abbrev pub QueuesCopies : Type 0 → Run (Unit {0}) Reader → Type 0
QueuesCopies F (ok r) = AreCopies F r.frames
QueuesCopies F (err e) = Unit {0}
QueuesCopies F fault = Unit {0}
QueuesCopies F out_of_fuel = Unit {0}

-- A frame whose statement fits leaves room for the NUL.
end_of_line-QueuesCopies :
    (F : Type 0) (bytes : List ℕ) (frames : List Frame) (now : List ℕ)
    → AreCopies F frames
    → QueuesCopies F (end_of_line bytes frames now)
unfolding end_of_line insert_db
end_of_line-QueuesCopies F bytes frames now all =
    let text = c_string bytes in
    elim (Bool-cases (starts bytes)) [
      | inr t ↦ rw t all
      | inl t ↦ elim (dec_lt 512 (length (sql_text now text) + 1)) [
        | yes long ↦ rw (t, leb-false (length (sql_text now text) + 1) 512 long) tt
        | no fits ↦
            rw (t, leb-true (length (sql_text now text) + 1) 512 (omega (arith, fits)))
              (All-append (λ (f : Frame). IsCopy F f.message) frames
                (record { sql = sql_text now text; message = whole_buffer bytes } ∷ []) all
                (string_at-room F bytes (512 - length bytes) (room (omega (arith, fits))), tt))
      ]
    ]
  where
    room :
        length (sql_text now (c_string bytes)) + 1 ≤ 512
        → length (c_string bytes) < length bytes + (512 - length bytes)
    room h = omega (arith, h, length-sql_text now (c_string bytes))

read_byte-QueuesCopies :
    (F : Type 0) (r : Reader) (ch : ℕ) (now : List ℕ)
    → AreCopies F r.frames
    → QueuesCopies F (read_byte r ch now)
unfolding read_byte
read_byte-QueuesCopies F r ch now all =
    let bytes = r.received ++ (ch ∷ []) in
    elim (Bool-cases (ltb (length r.received) 512)) [
      | inr full ↦ rw full tt
      | inl has_room ↦ elim (Bool-cases (ch == end_flag)) [
        | inl ends ↦ rw (has_room, ends) (end_of_line-QueuesCopies F bytes r.frames now all)
        | inr goes_on ↦ rw (has_room, goes_on) all
      ]
    ]

bind-QueuesCopies :
    (F : Type 0) (m : Run (Unit {0}) Reader) (k : Reader → Run (Unit {0}) Reader)
    → ((r : Reader) → AreCopies F r.frames → QueuesCopies F (k r))
    → QueuesCopies F m
    → QueuesCopies F (m >>= k)
bind-QueuesCopies F (ok r) k h w = h r w
bind-QueuesCopies F (err e) k h w = tt
bind-QueuesCopies F fault k h w = tt
bind-QueuesCopies F out_of_fuel k h w = tt

-- For any stream of bytes, with any times: either the reader ends in a fault, or every message that it
-- queued holds a NUL inside its copy of the buffer, if the messages before the stream do, so that
-- `strlen` finds the end of the string there.
pub read_all-QueuesCopies :
    (F : Type 0) (r : Reader) (es : List (ℕ × List ℕ))
    → AreCopies F r.frames
    → QueuesCopies F (read_all r es)
unfolding read_all
read_all-QueuesCopies F r [] all = all
read_all-QueuesCopies F r ((ch, now) ∷ more) all =
    bind-QueuesCopies F (read_byte r ch now) (λ r'. read_all r' more)
      (λ r' w. read_all-QueuesCopies F r' more w) (read_byte-QueuesCopies F r ch now all)
