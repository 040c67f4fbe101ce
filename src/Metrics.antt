-- ===== src/Metrics.antt =====
-- src/metrics.rs: the counters, the ring of traffic log entries, and the telescope status. Each
-- operation takes the clock's reading; the locks are held for one operation at a time, and no
-- operation panics under a lock, so a poisoned lock is not modelled.
pub mod Log
pub mod Status
use mathlib.Core.Logic.{ite}
use seestar_proxy.Base.{
  ℕ, ◌+◌, ◌-◌, ◌%◌, ◌^◌, String, Bool, true, false, Option, none, some, List, [], ◌∷◌, ◌++◌, leb,
  if◌then◌else◌, length, unwrap_or, ◌>>=◌, str_eq, drop,
}
use seestar_proxy.Base.Text.{Text}
use seestar_proxy.Json.{ℤ, pos, Value, Floats, get, as_bool, as_f64, as_i64, as_str}

abbrev pub log_capacity : ℕ
log_capacity = 100

-- `fetch_add` on an `AtomicU64` wraps.
abbrev pub u64 : ℕ → ℕ
u64 n = n % 2 ^ 64

pub record TelescopeStatusSnapshot : Type 0 where
  pub battery : Option ℤ
  pub temperature : Option ℕ
  pub is_stacking : Bool
  pub stack_count : ℤ
  pub is_goto : Bool
  pub is_homing : Bool
  pub tracking : Bool
  pub view_mode : Option String
  pub charger_status : Option String
  pub last_event : Option String
  pub last_event_ts_ms : ℕ

pub record LogEntry : Type 0 where
  pub seq : ℕ
  pub elapsed_ms : ℕ
  pub timestamp_ms : ℕ
  pub channel : String
  pub summary : String
  pub payload : Option Text

-- An `AtomicI32` is kept as its 32 bits; `fetch_add` and `fetch_sub` wrap.
abbrev pub i32 : ℕ → ℕ
i32 n = n % 2 ^ 32

pub record Metrics : Type 0 where
  pub control_clients : ℕ
  pub imaging_clients : ℕ
  pub control_rx : ℕ
  pub control_tx : ℕ
  pub control_events : ℕ
  pub imaging_frames : ℕ
  pub imaging_bytes : ℕ
  pub upstream_control_up : Bool
  pub upstream_imaging_up : Bool
  pub log : List LogEntry
  pub log_seq : ℕ
  pub telescope_status : TelescopeStatusSnapshot

-- The readings of the two clocks, in milliseconds.
pub record Now : Type 0 where
  pub elapsed_ms : ℕ
  pub epoch_ms : ℕ

abbrev default_status : TelescopeStatusSnapshot
default_status = record {
  battery = none;
  temperature = none;
  is_stacking = false;
  stack_count = pos 0;
  is_goto = false;
  is_homing = false;
  tracking = false;
  view_mode = none;
  charger_status = none;
  last_event = none;
  last_event_ts_ms = 0;
}

unfoldable pub new : Metrics
new = record {
  control_clients = 0;
  imaging_clients = 0;
  control_rx = 0;
  control_tx = 0;
  control_events = 0;
  imaging_frames = 0;
  imaging_bytes = 0;
  upstream_control_up = false;
  upstream_imaging_up = false;
  log = [];
  log_seq = 0;
  telescope_status = default_status;
}

-- The oldest entry is the head.
abbrev push_back : List LogEntry → LogEntry → List LogEntry
push_back log e = (if leb log_capacity (length log) then drop 1 log else log) ++ e ∷ []

unfoldable pub push_log_with_payload : Now → String → String → Option Text → Metrics → Metrics
push_log_with_payload now channel summary payload m = record m {
  log = push_back m.log entry;
  log_seq = u64 (m.log_seq + 1);
}
  where
    entry : LogEntry
    entry = record {
      seq = m.log_seq;
      elapsed_ms = now.elapsed_ms;
      timestamp_ms = now.epoch_ms;
      channel = channel;
      summary = summary;
      payload = payload;
    }

unfoldable pub push_log : Now → String → String → Metrics → Metrics
unfolding push_log_with_payload
push_log now channel summary = push_log_with_payload now channel summary none

abbrev on_status : (TelescopeStatusSnapshot → TelescopeStatusSnapshot) → Metrics → Metrics
on_status f m = record m { telescope_status = f m.telescope_status }

-- `if let Some(v) = o { s.field = v }`.
abbrev set_if {ℓ κ} : {A : Type ℓ} {S : Type κ} → Option A → (A → S → S) → S → S
set_if none put s = s
set_if (some v) put s = put v s

set_battery : Floats → Value → TelescopeStatusSnapshot → TelescopeStatusSnapshot
unfolding get as_f64
set_battery ops msg =
    set_if (do v ← get msg "battery_capacity"; x ← as_f64 ops v; some (ops.round_i64 x))
      (λ v s. record s { battery = some v })

set_temperature : Floats → Value → TelescopeStatusSnapshot → TelescopeStatusSnapshot
unfolding get as_f64
set_temperature ops msg =
    set_if (do v ← get msg "temp"; as_f64 ops v) (λ v s. record s { temperature = some v })

-- The `match event_name` of `update_event`.
apply_event : Floats → String → Value → TelescopeStatusSnapshot → TelescopeStatusSnapshot
unfolding set_battery set_temperature get as_i64 as_str as_bool
apply_event ops name msg s =
    if str_eq name "PiStatus"
    then set_temperature ops msg (set_battery ops msg s)
    else if str_eq name "Stack"
    then set_if (do v ← get msg "count"; as_i64 v) (λ v t. record t { stack_count = v })
        (record s { is_stacking = true })
    else if str_eq name "AutoGoto"
    then record s { is_goto = true }
    else if str_eq name "ScopeGoto"
    then record s { is_goto = true }
    else if str_eq name "ScopeHome"
    then record s { is_homing = str_eq (unwrap_or (do v ← get msg "state"; as_str v) "") "working" }
    else if str_eq name "ScopeTrack"
    then record s { tracking = unwrap_or (do v ← get msg "tracking"; as_bool v) false }
    else if str_eq name "View"
    then record s { view_mode = (do v ← get msg "mode"; as_str v) }
    else s

unfoldable pub update_event : Floats → Now → String → Value → Metrics → Metrics
unfolding apply_event
update_event ops now name msg = on_status λ s.
    apply_event ops name msg (record s { last_event = some name; last_event_ts_ms = now.epoch_ms })

set_charger : Value → TelescopeStatusSnapshot → TelescopeStatusSnapshot
unfolding get as_str
set_charger pi =
    set_if (do v ← get pi "charger_status"; as_str v) (λ v s. record s { charger_status = some v })

unfoldable pub update_response : Floats → Value → Metrics → Metrics
unfolding set_battery set_temperature set_charger get as_str
update_response ops msg m =
    if str_eq (unwrap_or (do v ← get msg "method"; as_str v) "") "get_device_state"
    then set_if (do r ← get msg "result"; get r "pi_status")
        (λ pi. on_status λ s. set_charger pi (set_temperature ops pi (set_battery ops pi s))) m
    else m

unfoldable pub reset_telescope_state : Metrics → Metrics
reset_telescope_state =
    on_status
      λ s. record s { is_stacking = false; stack_count = pos 0; is_goto = false; is_homing = false }

from_seq_on : ℕ → List LogEntry → List LogEntry
from_seq_on k [] = []
from_seq_on k (e ∷ es) = let rest = from_seq_on k es in if leb k e.seq then e ∷ rest else rest

unfoldable pub log_since : Metrics → Option ℕ → List LogEntry
unfolding from_seq_on
log_since m none = m.log
log_since m (some k) = from_seq_on k m.log
