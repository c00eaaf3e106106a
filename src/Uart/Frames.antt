-- ===== src/Uart/Frames.antt =====
-- The reader takes the frames out of a stream of lines.
use gateway_project.Base.{
  ℕ, suc, ◌+◌, ◌≤◌, ◌<◌, ◌≡◌, ◌≢◌, refl, sym, ap, ◌∙◌, List, [], ◌∷◌, ◌++◌, append-nil,
  append_assoc, length, length-append, All, if◌then◌else◌, ==_false, lt→ltb, ltb-false, Bool-cases,
  inl, inr, ok, fault, ◌>>=◌, arith, dec_lt,
}
use gateway_project.Base.Text.{codes, c_string, length-c_string}
use gateway_project.Uart.Reader.{
  sql_text, insert_db, Frame, Reader, end_flag, starts, whole_buffer, end_of_line, read_byte,
  read_all, uart_rd_buf_size,
}

-- A line of the stream: the bytes before its end flag with their times, and the time of the end flag.
pub record Line : Type 0 where
  pub body : List (ℕ × List ℕ)
  pub now : List ℕ

abbrev pub bytes_of : List (ℕ × List ℕ) → List ℕ
bytes_of [] = []
bytes_of ((b, t) ∷ es) = b ∷ bytes_of es

abbrev pub text_of : Line → List ℕ
text_of l = bytes_of l.body ++ (end_flag ∷ [])

abbrev pub events_of : List Line → List (ℕ × List ℕ)
events_of [] = []
events_of (l ∷ ls) = l.body ++ ((end_flag, l.now) ∷ events_of ls)

-- The frames of a stream: one for each line that begins with the start flag.
abbrev pub frames_of : List Line → List Frame
frames_of [] = []
frames_of (l ∷ ls) =
    if starts (text_of l)
    then record { sql = sql_text l.now (c_string (text_of l)); message = whole_buffer (text_of l) }
      ∷ frames_of ls
    else frames_of ls

-- No end flag among the bytes.
abbrev pub IsOpen : List (ℕ × List ℕ) → Type 0
IsOpen = All (λ (e : ℕ × List ℕ). e.0 ≢ end_flag)

-- The time has the 25 characters that `ctime` documents, and the statement fits into its array.
pub record IsLine (l : Line) : Type 0 where
  pub is_open : IsOpen l.body
  pub time : length l.now ≡ 25
  pub short : length l.body ≤ 428

length-bytes_of : (es : List (ℕ × List ℕ)) → length (bytes_of es) ≡ length es
length-bytes_of [] = refl
length-bytes_of ((b, t) ∷ es) = ap suc (length-bytes_of es)

-- Bytes without an end flag are collected, as long as the buffer has room.
read_all_open :
    (r : Reader) (es more : List (ℕ × List ℕ))
    → IsOpen es
    → length r.received + length es ≤ uart_rd_buf_size
    → read_all {E = Unit {0}} r (es ++ more)
      ≡ read_all (record { received = r.received ++ bytes_of es; frames = r.frames }) more
unfolding read_all read_byte
read_all_open r [] more o room = rw (append-nil r.received)
read_all_open r ((b, t) ∷ es) more (ne, o) room = rw (
  lt→ltb (length r.received) 512 (omega arith),
  ==_false b end_flag ne,
  read_all_open (record { received = r.received ++ (b ∷ []); frames = r.frames }) es more o
      (omega (arith, length-append r.received (b ∷ []))),
  append_assoc r.received (b ∷ []) (bytes_of es),
)

length-sql_text : (now msg : List ℕ) → length (sql_text now msg) ≡ 57 + (length now + length msg)
unfolding sql_text
length-sql_text now msg = omega (
  arith,
  length-append now (codes "', NULL, '" ++ (msg ++ codes "'); ")),
  length-append msg (codes "'); "),
)

insert_db-ok :
    (now msg : List ℕ)
    → length now ≡ 25
    → length msg ≤ 429
    → insert_db {E = Unit {0}} now msg ≡ ok (sql_text now msg)
unfolding insert_db
insert_db-ok now msg t h = ground (arith, length-sql_text now msg)

length-text_of : (l : Line) → IsLine l → length (c_string (text_of l)) ≤ 429
length-text_of l p = omega (
  arith,
  length-c_string (text_of l),
  length-append (bytes_of l.body) (end_flag ∷ []),
  length-bytes_of l.body,
  p.short,
)

-- The end flag behind the body of a line.
end_of_line_lem :
    (fs : List Frame) (l : Line) (ls : List Line) (f : List Frame)
    → IsLine l
    → fs ++ frames_of (l ∷ ls) ≡ f
    → (n : List Frame) × (end_of_line {E = Unit {0}} (text_of l) fs l.now
        ≡ ok (record { received = []; frames = n }))
      × (n ++ frames_of ls ≡ f)
unfolding end_of_line
end_of_line_lem fs l ls f p e = elim (Bool-cases (starts (text_of l))) [
  | inl t ↦ (
    (fs
        ++ (record {
          sql = sql_text l.now (c_string (text_of l));
          message = whole_buffer (text_of l);
        }
            ∷ [])),
    rw (t, insert_db-ok l.now (c_string (text_of l)) p.time (length-text_of l p)),
    rw (
      append_assoc fs
          (record {
            sql = sql_text l.now (c_string (text_of l));
            message = whole_buffer (text_of l);
          }
            ∷ [])
          (frames_of ls),
      sym e,
      t,
    ),
  )
  | inr t ↦ (fs, rw t, rw (sym e, t))
]

-- One whole line, from an empty buffer.
read_all_line :
    (fs : List Frame) (l : Line) (more : List (ℕ × List ℕ))
    → IsLine l
    → read_all {E = Unit {0}}
        (record { received = []; frames = fs })
        (l.body ++ ((end_flag, l.now) ∷ more))
      ≡ (end_of_line (text_of l) fs l.now >>= λ r. read_all r more)
unfolding read_all read_byte
read_all_line fs l more p = rw (
  read_all_open (record { received = []; frames = fs }) l.body ((end_flag, l.now) ∷ more) p.is_open
      (omega (arith, p.short)),
  lt→ltb (length (bytes_of l.body)) 512 (omega (arith, p.short, length-bytes_of l.body)),
)

-- A stream that consists of lines, each with a body of at most 428 bytes without an end flag and
-- with a time text of 25 characters, and of at most 512 further bytes without an end flag, is read
-- to the end without a write behind an array: the reader, started with an empty buffer, stores and
-- queues one frame for every line that begins with the start flag, in their order, drops the other
-- lines, and keeps the further bytes.
pub read_all-frames_of :
    (fs : List Frame) (ls : List Line) (rest : List (ℕ × List ℕ))
    → All IsLine ls
    → IsOpen rest
    → length rest ≤ uart_rd_buf_size
    → read_all {E = Unit {0}} (record { received = []; frames = fs }) (events_of ls ++ rest)
      ≡ ok (record { received = bytes_of rest; frames = fs ++ frames_of ls })
unfolding read_all
read_all-frames_of fs [] rest ps o room =
    ap (λ r. read_all (record { received = []; frames = fs }) r) (sym (append-nil rest))
    ∙ (read_all_open (record { received = []; frames = fs }) rest [] o (omega (arith, room))
        ∙ rw (append-nil fs))
read_all-frames_of fs (l ∷ ls) rest (p, ps) o room =
    let (n, e, q) = end_of_line_lem fs l ls (fs ++ frames_of (l ∷ ls)) p refl in
    rw (
      append_assoc l.body ((end_flag, l.now) ∷ events_of ls) rest,
      read_all_line fs l (events_of ls ++ rest) p,
      e,
      read_all-frames_of n ls rest ps o room,
      q,
    )

no_overflow : (n : ℕ) → n ≤ 512 → 512 < n + 0 → ⊥
no_overflow n h k = omega arith

-- A stream without an end flag that holds more bytes than the buffer has room for is written behind
-- the buffer, whatever the reader holds.
pub read_all_fault :
    (r : Reader) (es : List (ℕ × List ℕ))
    → IsOpen es
    → length r.received ≤ uart_rd_buf_size
    → uart_rd_buf_size < length r.received + length es
    → read_all {E = Unit {0}} r es ≡ fault
unfolding read_all read_byte
read_all_fault r [] o full over = elim (no_overflow (length r.received) full over) [ ]
read_all_fault r ((b, t) ∷ es) (ne, o) full over = elim (dec_lt (length r.received) 512) [
  | yes room ↦ rw (
    lt→ltb (length r.received) 512 room,
    ==_false b end_flag ne,
    read_all_fault (record { received = r.received ++ (b ∷ []); frames = r.frames }) es o
        (omega (arith, length-append r.received (b ∷ [])))
        (omega (arith, length-append r.received (b ∷ []))),
  )
  | no out ↦ rw (ltb-false (length r.received) 512 (omega (arith, out)))
]
