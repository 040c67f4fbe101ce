-- ===== src/Tests/Sessions.antt =====
-- src/recorder.rs and src/replay.rs: a session with one message each way and one frame.
use seestar_proxy.Base.{
  ◌≡◌, Option, none, some, [], ◌∷◌, ◌++◌, arith, length, replicate, if◌then◌else◌, str_eq,
}
use seestar_proxy.Base.Text.{Text, codes, text_eq}
use seestar_proxy.Recorder.{ControlLine, new, manifest}
use seestar_proxy.Recorder.Files.{
  Frame, numbered, previews, stacks, record_frames, record_frames_lem,
}
use seestar_proxy.Replay

abbrev view : Frame
view = (
  (0 ∷ 0 ∷ 0 ∷ 0 ∷ 0 ∷ 0 ∷ 0 ∷ 0 ∷ 16 ∷ 0 ∷ 0 ∷ 0 ∷ 0 ∷ 0 ∷ 0 ∷ 23 ∷ 1 ∷ 0 ∷ 1 ∷ 0 ∷ [])
      ++ replicate 60 0,
  codes "pixels",
)

record_frames_lem_example :
    let r = record_frames (view ∷ view ∷ []) (new []) in
    (r.frames ≡ numbered 0 (view ∷ view ∷ []))
    × ((manifest r).frame_count ≡ length r.frames)
    × ((manifest r).preview_frame_count ≡ previews (view ∷ view ∷ []))
    × ((manifest r).stack_frame_count ≡ stacks (view ∷ view ∷ []))
record_frames_lem_example = record_frames_lem (view ∷ view ∷ []) (omega arith)

abbrev asked : ControlLine
asked = record { timestamp = 1; direction = "client"; raw = codes "ask" }

abbrev answered : ControlLine
answered = record { timestamp = 2; direction = "telescope"; raw = codes "answer" }

-- A timestamp that is read back as another.
abbrev late_ask : ControlLine
late_ask = record { timestamp = 3; direction = "client"; raw = codes "ask" }

abbrev to_string : ControlLine → Option Text
to_string e = some (if str_eq e.direction "client" then codes "c" else codes "t")

abbrev from_str : Text → Option ControlLine
from_str t = some (if text_eq t (codes "c") then late_ask else answered)

abbrev env : Replay.Env
env = record {
  from_str = λ t. none;
  now = record { elapsed_ms = 5; epoch_ms = 1000 };
  frame_line = λ kind w h. kind;
}
