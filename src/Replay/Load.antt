-- ===== src/Replay/Load.antt =====
-- src/replay.rs: `ReplaySession::load`. The entries of the directory are the names of its files, the
-- manifest's parser and the arithmetic of doubles are parameters.
pub mod Order
use seestar_proxy.Base.{
  ℕ, arith, ◌+◌, ◌≡◌, refl, ap, ◌∙◌, Bool, true, false, ◌&&◌, ◌||◌, Option, none, some, List, [],
  ◌∷◌, ◌>>=◌, if◌then◌else◌, if_lem, ltb, ◌==◌, All,
}
use mathlib.Core.List.{reverse}
use seestar_proxy.Base.Text.{Text, codes, text_eq}
use seestar_proxy.Recorder.{ControlLine}
use seestar_proxy.Replay.{ControlEntry, load_control}

-- A double is its bit pattern, an interval its nanoseconds. `divided` is none for a quotient that
-- `Duration::from_secs_f64` panics on.
pub record RecordedManifest : Type 0 where
  pub frame_count : ℕ
  pub duration_seconds : ℕ

pub record Env : Type 0 where
  pub parse_manifest : Text → Option RecordedManifest
  pub from_str : Text → Option ControlLine
  pub is_positive : ℕ → Bool
  pub divided : (duration count : ℕ) → Option ℕ

-- What the session's directory holds. A directory of frames may be missing, and listing it may fail.
pub record Session : Type 0 where
  pub manifest : Option Text
  pub control : Option Text
  pub frames_is_dir : Bool
  pub frames : Option (List Text)

pub record ReplaySession : Type 0 where
  pub control_messages : List ControlEntry
  pub frame_paths : List Text
  pub frame_interval : ℕ

abbrev pub starts_with : Text → Text → Bool
starts_with [] t = true
starts_with (c ∷ cs) [] = false
starts_with (c ∷ cs) (d ∷ ds) = c == d && starts_with cs ds

-- `n.starts_with("frame_") && n.ends_with(".bin")`.
unfoldable pub is_frame : Text → Bool
is_frame n = starts_with (codes "frame_") n && starts_with (reverse (codes ".bin")) (reverse n)

-- The order of names.
unfoldable pub precedes : Text → Text → Bool
precedes [] t = true
precedes (c ∷ cs) [] = false
precedes (c ∷ cs) (d ∷ ds) = ltb c d || (c == d && precedes cs ds)

unfoldable pub frame_names : List Text → List Text
unfolding is_frame
frame_names [] = []
frame_names (n ∷ ns) = let rest = frame_names ns in if is_frame n then n ∷ rest else rest

unfoldable pub insert_name : Text → List Text → List Text
unfolding precedes
insert_name n [] = n ∷ []
insert_name n (m ∷ ms) =
    let rest = insert_name n ms in if precedes n m then n ∷ m ∷ ms else m ∷ rest

unfoldable pub sort : List Text → List Text
unfolding insert_name
sort [] = []
sort (n ∷ ns) = insert_name n (sort ns)

-- None for the panic.
unfoldable pub frame_interval : Env → RecordedManifest → Option ℕ
frame_interval env m =
    if ltb 0 m.frame_count && env.is_positive m.duration_seconds
    then env.divided m.duration_seconds m.frame_count
    else some 2_000_000_000

-- The sorted frame files, or none for an error.
unfoldable pub frame_paths : Session → Option (List Text)
unfolding frame_names sort
frame_paths s =
    if s.frames_is_dir
    then elim s.frames [ none ↦ none | some names ↦ some (sort (frame_names names)) ]
    else some []

pub data Loading : Type 0 where
  loaded : ReplaySession → Loading
  failed panicked : Loading

unfoldable pub load : Env → Session → Loading
unfolding load_control frame_paths frame_interval
load env s = elim (do text ← s.manifest; env.parse_manifest text) [
  | none ↦ failed
  | some manifest ↦ elim (frame_paths s) [
    | none ↦ failed
    | some paths ↦ elim (frame_interval env manifest) [
      | none ↦ panicked
      | some interval ↦ loaded (record {
        control_messages = elim s.control [ none ↦ [] | some t ↦ load_control env.from_str t ];
        frame_paths = paths;
        frame_interval = interval;
      })
    ]
  ]
]
