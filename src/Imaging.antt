-- ===== src/Imaging.antt =====
-- src/imaging.rs: the frames that the telescope sends and every client gets, and the command lines
-- that go the other way. A reader finds the bytes that arrive before its connection ends or fails;
-- `read_exact` does not show how they are spread over reads.
pub mod Clients
pub mod Accept
pub mod Frames
pub mod Broadcast
pub mod Commands
use seestar_proxy.Base.{
  ℕ, zero, suc, ◌+◌, ◌%◌, String, Bool, true, false, Option, none, some, List, [], ◌∷◌, ◌++◌, ltb,
  ◌==◌, if◌then◌else◌, length, take, drop,
}
use seestar_proxy.Base.Text.{Bytes}
use seestar_proxy.Protocol.{header_size, FrameHeader, parse, is_image}
use seestar_proxy.Metrics.{Metrics, Now, u64, push_log}

abbrev pub max_frame_size : ℕ
max_frame_size = 50_000_000

-- `read_exact` into a buffer of n bytes: the bytes and those after them, or an error.
unfoldable pub read_exact : ℕ → Bytes → Option (Bytes × Bytes)
read_exact n bs = if ltb (length bs) n then none else some (take n bs, drop n bs)

-- Why the reader left its loop: no header, a size past the limit, or no whole payload.
pub data End : Type 0 where
  lost unreasonable cut_off : End

pub data NextFrame : Type 0 where
  frame : (header payload rest : Bytes) → NextFrame
  ended : End → NextFrame

unfoldable pub read_payload : Bytes → Bytes → NextFrame
unfolding read_exact
read_payload header bs =
    let size = (parse header).size in
    if ltb max_frame_size size then ended unreasonable else elim (read_exact size bs) [
      | none ↦ ended cut_off
      | some (payload, rest) ↦ frame header payload rest
    ]

unfoldable pub next_frame : Bytes → NextFrame
unfolding read_exact
next_frame bs = elim (read_exact header_size bs) [
  | none ↦ ended lost
  | some (header, rest) ↦ read_payload header rest
]

-- A frame for the recorder, and one for the broadcast channel.
pub data Effect : Type 0 where
  recorded : (header payload : Bytes) → Effect
  to_all : Bytes → Effect

-- The options of the reader task; the clock's reading for each frame; and the `format!` of a log
-- entry for a frame with its kind: that of an image has the width, the height and the size in KB.
pub record Env : Type 0 where
  pub recording : Bool
  pub clock : ℕ → Now
  pub image_line : String → ℕ → ℕ → ℕ → String
  pub frame_line : String → ℕ → String

pub record Reader : Type 0 where
  pub metrics : Option Metrics
  pub frame_count : ℕ

abbrev kind : ℕ → String
kind id =
    if id == 20
    then "view"
    else if id == 21
    then "preview"
    else if id == 23
    then "stack"
    else "frame"

unfoldable pub summary : Env → FrameHeader → String
unfolding is_image
summary env h =
    if is_image h
    then env.image_line (kind h.id) h.width h.height h.size
    else env.frame_line (kind h.id) h.size

-- Every 30th frame is logged.
unfoldable pub log_frame : Env → ℕ → FrameHeader → Metrics → Metrics
unfolding push_log summary
log_frame env count h m =
    if count % 30 == 1 then push_log (env.clock count) "img" (summary env h) m else m

unfoldable pub count_frame : Env → Bytes → Bytes → Reader → Reader
unfolding log_frame
count_frame env header payload r = elim r.metrics [
  | none ↦ r
  | some m ↦
      let count = u64 (r.frame_count + 1) in
      let counted = record m {
        imaging_frames = u64 (m.imaging_frames + 1);
        imaging_bytes = u64 (m.imaging_bytes + (header_size + length payload));
      } in
      record { metrics = some (log_frame env count (parse header) counted); frame_count = count }
]

unfoldable pub frame_effects : Env → Bytes → Bytes → List Effect
frame_effects env header payload =
    (if env.recording then recorded header payload ∷ [] else []) ++ to_all (header ++ payload) ∷ []

-- The loop of `upstream_reader_task`, with the bytes it has not read. A frame takes 80 bytes at
-- least, so as much fuel as there are bytes is enough.
unfoldable pub read_frames : ℕ → Env → Bytes → Reader → Reader × List Effect × Bytes × End
unfolding next_frame
read_frames zero env bs r = (r, [], bs, lost)
read_frames (suc fuel) env bs r = elim (next_frame bs) [
  | ended e ↦ (r, [], bs, e)
  | frame header payload rest ↦
      let (r', later, left, e) = read_frames fuel env rest (count_frame env header payload r) in
      (r', frame_effects env header payload ++ later, left, e)
]

abbrev set_up : Bool → Option Metrics → Option Metrics
set_up up none = none
set_up up (some m) = some (record m { upstream_imaging_up = up })

unfoldable pub upstream_reader_task :
    Env → Bytes → Option Metrics → Reader × List Effect × Bytes × End
unfolding read_frames
upstream_reader_task env bs m =
    let start : Reader = record { metrics = set_up true m; frame_count = 0 } in
    let (r, effects, left, e) = read_frames (length bs) env bs start in
    (record r { metrics = set_up false r.metrics }, effects, left, e)
