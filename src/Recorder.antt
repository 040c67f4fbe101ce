-- ===== src/Recorder.antt =====
-- src/recorder.rs: the recording of a session. The files are the text of `control.jsonl` and the
-- frame files by name; a write that fails is not modelled.
pub mod Files
use seestar_proxy.Base.{
  ℕ, ◌+◌, ◌%◌, ◌^◌, String, Bool, true, false, ◌&&◌, Option, none, some, List, [], ◌∷◌, ◌++◌, ◌==◌,
  if◌then◌else◌, str_eq,
}
use seestar_proxy.Base.Text.{Bytes, Text}
use seestar_proxy.Protocol.{parse, is_image}

-- `fetch_add` on an `AtomicU32` wraps.
abbrev pub u32 : ℕ → ℕ
u32 n = n % 2 ^ 32

-- A double is its bit pattern.
pub record ControlLine : Type 0 where
  pub timestamp : ℕ
  pub direction : String
  pub raw : Text

-- `frames/frame_{idx:04}_{kind}.bin`, which differs for different numbers and kinds.
pub record FrameName : Type 0 where
  pub idx : ℕ
  pub kind : String

abbrev pub Files : Type 0
Files = List (FrameName × Bytes)

-- `fs::write`: a file of that name is replaced.
unfoldable pub write : FrameName → Bytes → Files → Files
write name contents [] = (name, contents) ∷ []
write name contents ((n, d) ∷ files) =
    let rest = write name contents files in
    if n.idx == name.idx && str_eq n.kind name.kind then (n, contents) ∷ files else (n, d) ∷ rest

pub record Recorder : Type 0 where
  pub control_file : Text
  pub frames : Files
  pub frame_counter : ℕ
  pub preview_count : ℕ
  pub stack_count : ℕ
  pub message_count : ℕ

-- `create_dir_all` leaves the frame files of an earlier recording in the same directory, `frames`;
-- `File::create` empties `control.jsonl`.
unfoldable pub new : Files → Recorder
new frames = record {
  control_file = [];
  frames = frames;
  frame_counter = 0;
  preview_count = 0;
  stack_count = 0;
  message_count = 0;
}

-- `serde_json::to_string` of a line is a parameter, and so is the clock's reading.
unfoldable pub record_control :
    (to_string : ControlLine → Option Text) → ℕ → String → Text → Recorder → Recorder
record_control to_string timestamp direction raw r =
    let counted = record r { message_count = u32 (r.message_count + 1) } in
    elim (to_string (record { timestamp = timestamp; direction = direction; raw = raw })) [
      | none ↦ counted
      | some json ↦ record counted { control_file = r.control_file ++ (json ++ 10 ∷ []) }
    ]

abbrev pub kind : Bytes → String
kind header = if (parse header).id == 23 then "stack" else "preview"

unfoldable pub record_image : Bytes → Bytes → Recorder → Recorder
unfolding write
record_image header payload r = record counted {
  frame_counter = u32 (r.frame_counter + 1);
  frames =
      write (record { idx = r.frame_counter; kind = kind header }) (header ++ payload) r.frames;
}
  where
    counted : Recorder
    counted =
        if (parse header).id == 23
        then record r { stack_count = u32 (r.stack_count + 1) }
        else record r { preview_count = u32 (r.preview_count + 1) }

-- Handshake and control frames are skipped.
unfoldable pub record_frame : Bytes → Bytes → Recorder → Recorder
unfolding record_image
record_frame header payload r = if is_image (parse header) then record_image header payload r else r

pub record Manifest : Type 0 where
  pub frame_count : ℕ
  pub preview_frame_count : ℕ
  pub stack_frame_count : ℕ
  pub control_message_count : ℕ

-- The counts of the manifest that `finalize` writes; the dates and versions are not modelled.
unfoldable pub manifest : Recorder → Manifest
manifest r = record {
  frame_count = r.frame_counter;
  preview_frame_count = r.preview_count;
  stack_frame_count = r.stack_count;
  control_message_count = r.message_count;
}
