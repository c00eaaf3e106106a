-- ===== src/Uart/Reader.antt =====
-- `Uart_ReadThread` of uart/uart.c and `Insert_db` of sqlite/sqlite.c. The state is the list of the
-- bytes in `uartRdBuf` before `count`; behind them the buffer holds zeros. Every byte comes with the
-- text that `ctime` gives when it is read. A write behind the end of an array is a fault.
use gateway_project.Base.{
  ℕ, ◌+◌, ◌-◌, List, [], ◌∷◌, ◌++◌, Bool, false, length, replicate, ltb, leb, ◌==◌, if◌then◌else◌,
  Run, ok, fault, ◌>>=◌,
}
use gateway_project.Base.Text.{codes, c_string}

abbrev pub uart_rd_buf_size : ℕ
uart_rd_buf_size = 512

-- The text that `sprintf` makes in `Insert_db`.
unfoldable pub sql_text : (now msg : List ℕ) → List ℕ
sql_text now msg =
    codes "INSERT INTO COAPMSG (TIME,ID,MSG) VALUES ('"
    ++ (now ++ (codes "', NULL, '" ++ (msg ++ codes "'); ")))

-- The text and its NUL are written into an array of 512 bytes.
unfoldable pub insert_db : {E : Type 0} → (now msg : List ℕ) → Run E (List ℕ)
insert_db now msg = let sql = sql_text now msg in if leb (length sql + 1) 512 then ok sql else fault

-- A complete frame: the statement for the database, and the copy of the buffer for the queue.
pub record Frame : Type 0 where
  pub sql : List ℕ
  pub message : List ℕ

pub record Reader : Type 0 where
  pub received : List ℕ
  pub frames : List Frame

abbrev pub start_flag : ℕ
start_flag = b'$'

abbrev pub end_flag : ℕ
end_flag = b'&'

unfoldable pub starts : List ℕ → Bool
starts [] = false
starts (b ∷ bs) = b == start_flag

abbrev pub whole_buffer : List ℕ → List ℕ
whole_buffer bytes = bytes ++ replicate (uart_rd_buf_size - length bytes) 0

-- A complete line in the buffer: a frame is stored and queued, anything else is dropped.
unfoldable pub end_of_line : {E : Type 0} → List ℕ → List Frame → List ℕ → Run E Reader
end_of_line bytes frames now =
    if starts bytes
    then (do
      sql ← insert_db now (c_string bytes)
      ok (record {
        received = [];
        frames = frames ++ (record { sql = sql; message = whole_buffer bytes } ∷ []);
      }))
    else ok (record { received = []; frames = frames })

unfoldable pub read_byte : {E : Type 0} → Reader → ℕ → List ℕ → Run E Reader
read_byte r ch now =
    if ltb (length r.received) uart_rd_buf_size
    then (let bytes = r.received ++ (ch ∷ []) in
        if ch == end_flag
        then end_of_line bytes r.frames now
        else ok (record { received = bytes; frames = r.frames }))
    else fault

-- The loop of the thread over the bytes of a stream.
unfoldable pub read_all : {E : Type 0} → Reader → List (ℕ × List ℕ) → Run E Reader
read_all r [] = ok r
read_all r ((ch, now) ∷ more) = do r' ← read_byte r ch now; read_all r' more
