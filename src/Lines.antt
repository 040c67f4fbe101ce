-- ===== src/Lines.antt =====
-- src/control.rs: how both ports cut the byte stream into lines. `read_line_limited` serves the
-- clients; the `while let` loop of `upstream_reader_task` serves the telescope.
pub mod Reading
pub mod Splitting
use seestar_proxy.Base.{
  ℕ, zero, suc, ◌+◌, Bool, true, false, Option, none, some, List, [], ◌∷◌, ◌++◌, ltb, ◌==◌,
  if◌then◌else◌, length, take, drop,
}
use seestar_proxy.Base.Text.{Bytes}

abbrev pub newline : ℕ
newline = 10

abbrev pub max_line_bytes : ℕ
max_line_bytes = 1_048_576

abbrev pub max_buffer_bytes : ℕ
max_buffer_bytes = 1_000_000

abbrev pub bump : Option ℕ → Option ℕ
bump none = none
bump (some i) = some (suc i)

-- `iter().position(|&b| b == b'\n')`.
unfoldable pub position_newline : Bytes → Option ℕ
position_newline [] = none
position_newline (b ∷ bs) =
    let rest = bump (position_newline bs) in if b == newline then some 0 else rest

-- What successive calls of `fill_buf` find: the bytes of one read, or an error. The end of the list
-- is the end of the stream.
pub data Fill : Type 0 where
  bytes : Bytes → Fill
  fault : Fill

abbrev pub Stream : Type 0
Stream = List Fill

-- `consume` leaves the rest of the buffer for the next call, which reads anew if nothing is left.
abbrev pub put_back : Bytes → Stream → Stream
put_back [] s = s
put_back (b ∷ bs) s = bytes (b ∷ bs) ∷ s

pub data ReadResult : Type 0 where
  read : (total : ℕ) (buf : Bytes) (rest : Stream) → ReadResult
  failed : ReadResult

unfoldable pub read_line_loop : ℕ → Stream → Bytes → ℕ → ReadResult
read_line_loop limit [] buf total = read total buf []
read_line_loop limit (fault ∷ s) buf total = failed
read_line_loop limit (bytes [] ∷ s) buf total = read total buf s
read_line_loop limit (bytes (b ∷ bs) ∷ s) buf total =
    let available = b ∷ bs in
    let go_on = read_line_loop limit s (buf ++ available) (total + length available) in
    elim (position_newline available) [
      | some pos ↦
          read (total + (pos + 1)) (buf ++ take (suc pos) available)
            (put_back (drop (suc pos) available) s)
      | none ↦
          if ltb limit (total + length available)
          then read (total + length available) (buf ++ available) s
          else go_on
    ]

-- The callers clear the buffer first.
unfoldable pub read_line_limited : ℕ → Stream → ReadResult
unfolding read_line_loop
read_line_limited limit s = read_line_loop limit s [] 0

-- The `while let Some(pos)` loop over the telescope's buffer: the complete lines, without their
-- newlines, and what stays in the buffer. The fuel bounds the number of lines.
unfoldable pub drain_lines : ℕ → Bytes → List Bytes × Bytes
drain_lines zero buf = ([], buf)
drain_lines (suc fuel) buf = elim (position_newline buf) [
  | none ↦ ([], buf)
  | some pos ↦
      let (lines, rest) = drain_lines fuel (drop (suc pos) buf) in (take pos buf ∷ lines, rest)
]

-- A buffer of n bytes holds at most n lines.
unfoldable pub complete_lines : Bytes → List Bytes × Bytes
unfolding drain_lines
complete_lines buf = drain_lines (length buf) buf

-- Why the reader stopped: no more reads, or a partial line past the limit.
pub data Stop : Type 0 where
  end_of_stream buffer_overflow : Stop

-- The reads of one telescope connection: the lines in order, the last buffer, and why it ended.
unfoldable pub receive : List Bytes → Bytes → List Bytes × Bytes × Stop
unfolding complete_lines
receive [] buf = ([], buf, end_of_stream)
receive (chunk ∷ chunks) buf =
    let (lines, rest) = complete_lines (buf ++ chunk) in
    let (more, last, stop) = receive chunks rest in
    if ltb max_buffer_bytes (length rest)
    then (lines, rest, buffer_overflow)
    else (lines ++ more, last, stop)
