-- ===== src/Tests/Metrics.antt =====
-- src/metrics.rs: the traffic log after two entries.
use seestar_proxy.Base.{false, ◌≡◌, none, List, [], ◌∷◌}
use seestar_proxy.Metrics.{reset_telescope_state, new}
use seestar_proxy.Json.{null, Floats, pos}
use seestar_proxy.Metrics.Status.{
  Update, event, response, flags, updates, raised_all, reset-updates,
}
use seestar_proxy.Metrics.Log.{Push}

abbrev two : List Push
two =
    record {
      now = record { elapsed_ms = 5; epoch_ms = 1000 };
      channel = "ctrl-tx";
      summary = "get_time";
      payload = none;
    }
    ∷ record {
      now = record { elapsed_ms = 9; epoch_ms = 1004 };
      channel = "img";
      summary = "frame (0 bytes)";
      payload = none;
    }
    ∷ []

abbrev floats : Floats
floats = record { of_u64 = λ n. n; of_negative = λ n. n; round_i64 = λ x. pos x }

abbrev slewed : List Update
slewed = event (record { elapsed_ms = 5; epoch_ms = 1000 }) "AutoGoto" null ∷ response null ∷ []

reset-updates_example :
    flags (updates floats slewed (reset_telescope_state new)).telescope_status
    ≡ raised_all slewed (false, false)
reset-updates_example = reset-updates floats slewed new
