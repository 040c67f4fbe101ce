-- ===== src/Replay.antt =====
-- src/replay.rs: a recorded session and what its replay broadcasts. The sleeps between messages and
-- between frames are not modelled.
pub mod Sessions
pub mod Load
use seestar_proxy.Base.{
  ℕ, ◌+◌, String, Bool, true, false, Option, none, some, List, [], ◌∷◌, ◌++◌, ltb, ◌==◌,
  if◌then◌else◌, length, unwrap_or, str_eq,
}
use seestar_proxy.Base.Text.{Bytes, Text, trim}
use seestar_proxy.Json.{Value}
use seestar_proxy.Protocol.{header_size, FrameHeader, parse, is_event, method_name}
use seestar_proxy.Metrics.{Metrics, Now, u64, push_log, push_log_with_payload}
use seestar_proxy.Recorder.{ControlLine}

pub record ControlEntry : Type 0 where
  pub timestamp : ℕ
  pub raw : Text

-- `str::lines`, but for the `\r` before a newline, which the caller trims.
abbrev pub push_char : ℕ → List Text → List Text
push_char c [] = (c ∷ []) ∷ []
push_char c (l ∷ ls) = (c ∷ l) ∷ ls

unfoldable pub lines : Text → List Text
lines [] = []
lines (c ∷ cs) = let rest = lines cs in if c == 10 then [] ∷ rest else push_char c rest

-- `serde_json::from_str::<RecordedLine>` is a parameter.
unfoldable pub load_line : (from_str : Text → Option ControlLine) → Text → List ControlEntry
load_line from_str [] = []
load_line from_str (c ∷ cs) = elim (from_str (c ∷ cs)) [
  | none ↦ []
  | some entry ↦
      if str_eq entry.direction "telescope"
      then record { timestamp = entry.timestamp; raw = entry.raw } ∷ []
      else []
]

unfoldable pub load_lines : (from_str : Text → Option ControlLine) → List Text → List ControlEntry
unfolding load_line trim
load_lines from_str [] = []
load_lines from_str (l ∷ ls) = load_line from_str (trim l) ++ load_lines from_str ls

-- The part of `ReplaySession::load` that reads `control.jsonl`.
unfoldable pub load_control : (from_str : Text → Option ControlLine) → Text → List ControlEntry
unfolding load_lines lines
load_control from_str text = load_lines from_str (lines text)

-- What a replay finds: the JSON parser, the clock, and the `format!` of a frame's log entry.
pub record Env : Type 0 where
  pub from_str : Text → Option Value
  pub now : Now
  pub frame_line : String → ℕ → ℕ → String

unfoldable pub note_message : Env → Text → Metrics → Metrics
note_message env raw m =
    let m' = record m { control_rx = u64 (m.control_rx + 1) } in
    elim (env.from_str raw) [
      | none ↦ m'
      | some v ↦
          let m'' =
            if is_event v then record m' { control_events = u64 (m'.control_events + 1) } else m' in
          push_log_with_payload env.now "ctrl-rx" (unwrap_or (method_name v) "?") (some raw) m''
    ]

abbrev pub on_metrics : (Metrics → Metrics) → Option Metrics → Option Metrics
on_metrics f none = none
on_metrics f (some m) = some (f m)

-- The messages broadcast, the handshake flag, and the metrics.
unfoldable pub replay_control :
    Env → List ControlEntry → Bool → Option Metrics → List Text × Bool × Option Metrics
unfolding note_message
replay_control env [] handshake_done m = ([], handshake_done, m)
replay_control env (e ∷ es) handshake_done m =
    let (sent, done, m') = replay_control env es true (on_metrics (note_message env e.raw) m) in
    (e.raw ∷ sent, done, m')

abbrev frame_kind : ℕ → String
frame_kind id =
    if id == 23
    then "stack"
    else if id == 21
    then "preview"
    else if id == 20
    then "view"
    else "frame"

unfoldable pub note_frame : Env → Bytes → Metrics → Metrics
unfolding push_log
note_frame env contents m =
    let h = parse contents in
    push_log env.now "img-rx" (env.frame_line (frame_kind h.id) h.width h.height) (record m {
      imaging_frames = u64 (m.imaging_frames + 1);
      imaging_bytes = u64 (m.imaging_bytes + length contents);
    })

-- The frames broadcast and the metrics, from what reading each file gives, in the order of the paths.
unfoldable pub replay_imaging :
    Env → List (Option Bytes) → Option Metrics → List Bytes × Option Metrics
unfolding note_frame
replay_imaging env [] m = ([], m)
replay_imaging env (none ∷ files) m = replay_imaging env files m
replay_imaging env (some contents ∷ files) m =
    let short = ltb (length contents) header_size in
    let (sent, m') =
      replay_imaging env files (if short then m else on_metrics (note_frame env contents) m) in
    (if short then sent else contents ∷ sent, m')
