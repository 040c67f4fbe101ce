-- ===== src/Tests/Replay.antt =====
-- src/replay.rs: a session with two frames and a stray file.
use seestar_proxy.Base.{◌≡◌, refl, true, some, none, List, [], ◌∷◌}
use seestar_proxy.Base.Text.{Text, codes}
use seestar_proxy.Replay.Load.{
  Env, Session, ReplaySession, precedes, frame_interval, frame_paths, loaded, panicked, load,
}
use seestar_proxy.Replay.Load.Order.{Ascending, Chosen, load-Ascending}

abbrev env : Env
env = record {
  parse_manifest = λ t. some (record { frame_count = 2; duration_seconds = 4 });
  from_str = λ t. none;
  is_positive = λ d. true;
  divided = λ d n. some 2_000_000_000;
}

abbrev names : List Text
names = codes "frame_0002_stack.bin" ∷ codes "notes.txt" ∷ codes "frame_0001_stack.bin" ∷ []

abbrev session : Session
session = record {
  manifest = some (codes "{}");
  control = none;
  frames_is_dir = true;
  frames = some names;
}

load-Ascending_example :
    (r : ReplaySession) × (load env session ≡ loaded r)
    × (r.frame_interval ≡ 2_000_000_000)
    × Ascending r.frame_paths
    × ((k : Text) → Chosen names r.frame_paths k)
unfolding frame_interval
load-Ascending_example =
    load-Ascending env session (codes "{}") (record { frame_count = 2; duration_seconds = 4 }) names
      2_000_000_000 refl refl refl refl refl

-- A duration that is too long for the interval makes loading panic.
too_long : load (record env { divided = λ d n. none }) session ≡ panicked
unfolding load frame_interval frame_paths
too_long = refl

-- The frame 10000 is played before the frame 9999.
out_of_order : precedes (codes "frame_10000_stack.bin") (codes "frame_9999_stack.bin") ≡ true
unfolding precedes
out_of_order = refl
