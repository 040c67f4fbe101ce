-- ===== src/Replay/Sessions.antt =====
-- src/recorder.rs and src/replay.rs: what was recorded of the telescope is what is replayed.
use seestar_proxy.Base.{
  ◌≡◌, ◌≢◌, false, Option, none, some, List, [], ◌∷◌, ◌++◌, ◌==◌, if◌then◌else◌, All, str_eq,
}
use seestar_proxy.Base.Text.{Text, trim}
use seestar_proxy.Metrics.{Metrics}
use seestar_proxy.Recorder.{ControlLine, Recorder, record_control}
use seestar_proxy.Replay.{ControlEntry}

abbrev pub record_controls :
    (to_string : ControlLine → Option Text) → List ControlLine → Recorder → Recorder
record_controls to_string [] r = r
record_controls to_string (e ∷ es) r =
    record_controls to_string es (record_control to_string e.timestamp e.direction e.raw r)

-- The telescope's messages among those recorded.
abbrev pub telescope_texts : List ControlLine → List Text
telescope_texts [] = []
telescope_texts (e ∷ es) =
    if str_eq e.direction "telescope" then e.raw ∷ telescope_texts es else telescope_texts es

module _ (to_string : ControlLine → Option Text) (from_str : Text → Option ControlLine) where
  -- The line is printed as one line of text, without space around it, that parses to a line with the
  -- same direction and text. The timestamp may be another: serde_json does not promise that a double
  -- is read back exactly.
  pub record IsPrinted (e : ControlLine) : Type 0 where
    pub json : Text
    pub prints : to_string e ≡ some json
    pub one_line : All (λ c. (c == 10) ≡ false) json
    pub trimmed : trim json ≡ json
    pub shown : json ≢ []
    pub entry : ControlLine
    pub parses : from_str json ≡ some entry
    pub same_direction : entry.direction ≡ e.direction
    pub same_raw : entry.raw ≡ e.raw

  line_of : ControlLine → Text
  line_of e = elim (to_string e) [ none ↦ [] | some json ↦ json ++ 10 ∷ [] ]

  file_of : List ControlLine → Text
  file_of [] = []
  file_of (e ∷ es) = line_of e ++ file_of es

  -- The raw texts of the entries.
  texts : List ControlEntry → List Text
  texts [] = []
  texts (e ∷ es) = e.raw ∷ texts es
