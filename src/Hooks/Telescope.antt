-- ===== src/Hooks/Telescope.antt =====
-- src/hooks.rs: the `telescope` table that the scripts read, as far as the proxy writes it.
use seestar_proxy.Base.{
  ℕ, String, Bool, true, false, Option, none, some, if◌then◌else◌, ◌>>=◌, str_eq,
}
use seestar_proxy.Json.{ℤ, pos, Value, Floats, get, as_f64, as_i64, as_str}

-- A double is its bit pattern; `stack_count` and `view_mode` are absent at the start.
pub record TelescopeTable : Type 0 where
  pub is_goto : Bool
  pub is_stacking : Bool
  pub stack_count : Option ℤ
  pub view_mode : Option String
  pub battery : ℤ
  pub temperature : ℕ

unfoldable pub new_table : TelescopeTable
new_table = record {
  is_goto = false;
  is_stacking = false;
  stack_count = none;
  view_mode = none;
  battery = pos 0;
  temperature = 0;
}

abbrev set_if {ℓ κ} : {A : Type ℓ} {S : Type κ} → Option A → (A → S → S) → S → S
set_if none put s = s
set_if (some v) put s = put v s

apply_event_type : Floats → String → Value → TelescopeTable → TelescopeTable
unfolding get as_f64 as_i64 as_str
apply_event_type ops name event t =
    if str_eq name "PiStatus"
    then set_if (do v ← get event "battery_capacity"; as_i64 v) (λ v s. record s { battery = v })
        (set_if (do v ← get event "temp"; as_f64 ops v) (λ v s. record s { temperature = v }) t)
    else if str_eq name "View"
    then set_if (do v ← get event "mode"; as_str v) (λ v s. record s { view_mode = some v }) t
    else if str_eq name "Stack"
    then set_if (do v ← get event "count"; as_i64 v) (λ v s. record s { stack_count = some v })
        (record t { is_stacking = true })
    else if str_eq name "AutoGoto"
    then record t { is_goto = true }
    else if str_eq name "ScopeGoto"
    then record t { is_goto = true }
    else t

unfoldable pub update_telescope_state : Floats → Value → TelescopeTable → TelescopeTable
unfolding apply_event_type get as_str
update_telescope_state ops event t =
    set_if (do v ← get event "Event"; as_str v) (λ name. apply_event_type ops name event) t

-- The reset of `on_upstream_connect`, before the script's own function runs.
unfoldable pub on_upstream_connect : TelescopeTable → TelescopeTable
on_upstream_connect t = record t {
  is_goto = false;
  is_stacking = false;
  stack_count = some (pos 0);
  view_mode = none;
}
