-- ===== src/Metrics/Status.antt =====
-- src/metrics.rs: which updates of the telescope's status last.
use seestar_proxy.Base.{
  ◌≡◌, refl, ◌∙◌, ap, String, Bool, true, false, inl, inr, Bool-cases, some, List, [], ◌∷◌,
  unwrap_or, ◌>>=◌, str_eq, str_eq_iff, sym, subst, All, Option-cases, ◌||◌, ◌⊎◌,
}
use seestar_proxy.Json.{Value, Floats, get, as_f64, as_i64, as_str}
use seestar_proxy.Metrics.{
  TelescopeStatusSnapshot, Metrics, Now, set_battery, set_temperature, set_charger, apply_event,
  update_event, update_response, reset_telescope_state,
}

-- What one connection does to the status.
pub data Update : Type 0 where
  event : Now → String → Value → Update
  response : Value → Update

unfoldable pub update : Floats → Update → Metrics → Metrics
update ops (event now name msg) m = update_event ops now name msg m
update ops (response msg) m = update_response ops msg m

abbrev pub updates : Floats → List Update → Metrics → Metrics
updates ops [] m = m
updates ops (u ∷ us) m = updates ops us (update ops u m)

-- The two flags of a status.
abbrev pub Flags : Type 0
Flags = Bool × Bool

abbrev pub flags : TelescopeStatusSnapshot → Flags
flags s = (s.is_goto, s.is_stacking)

flags-set_battery :
    (ops : Floats) (msg : Value) (s : TelescopeStatusSnapshot)
    → flags (set_battery ops msg s) ≡ flags s
unfolding set_battery
flags-set_battery ops msg s =
    elim (Option-cases
      (do v ← get msg "battery_capacity"; x ← as_f64 ops v; some (ops.round_i64 x))) [
        | inl e ↦ rw (e, set_battery) refl
        | inr (v, e) ↦ rw (e, set_battery) refl
      ]

flags-set_temperature :
    (ops : Floats) (msg : Value) (s : TelescopeStatusSnapshot)
    → flags (set_temperature ops msg s) ≡ flags s
unfolding set_temperature
flags-set_temperature ops msg s = elim (Option-cases (do v ← get msg "temp"; as_f64 ops v)) [
  | inl e ↦ rw (e, set_temperature) refl
  | inr (v, e) ↦ rw (e, set_temperature) refl
]

flags-set_charger : (pi : Value) (s : TelescopeStatusSnapshot) → flags (set_charger pi s) ≡ flags s
unfolding set_charger
flags-set_charger pi s = elim (Option-cases (do v ← get pi "charger_status"; as_str v)) [
  | inl e ↦ rw (e, set_charger) refl
  | inr (v, e) ↦ rw (e, set_charger) refl
]

-- What an event does to the flags.
abbrev pub raised : String → Flags → Flags
raised name (goto, stacking) =
    (goto || str_eq name "AutoGoto" || str_eq name "ScopeGoto", stacking || str_eq name "Stack")

-- Each name that `update_event` knows, or none of them.
abbrev known : List String
known = "PiStatus" ∷ "Stack" ∷ "AutoGoto" ∷ "ScopeGoto" ∷ "ScopeHome" ∷ "ScopeTrack" ∷ "View" ∷ []

quiet : (g k : Bool) → ◌≡◌ {A = Flags} (g, k) (g || false || false, k || false)
quiet true true = refl
quiet true false = refl
quiet false true = refl
quiet false false = refl

-- A name that raises no flag.
raised_same :
    (name : String) (f : Flags)
    → str_eq name "AutoGoto" ≡ false
    → str_eq name "ScopeGoto" ≡ false
    → str_eq name "Stack" ≡ false
    → f ≡ raised name f
raised_same name (goto, stacking) a b c = rw (a, b, c) (quiet goto stacking)

raised_goto : (g k : Bool) → (true, k) ≡ raised "AutoGoto" (g, k)
raised_goto true true = refl
raised_goto true false = refl
raised_goto false true = refl
raised_goto false false = refl

raised_scope : (g k : Bool) → (true, k) ≡ raised "ScopeGoto" (g, k)
raised_scope true true = refl
raised_scope true false = refl
raised_scope false true = refl
raised_scope false false = refl

raised_stack : (g k : Bool) → (g, true) ≡ raised "Stack" (g, k)
raised_stack true true = refl
raised_stack true false = refl
raised_stack false true = refl
raised_stack false false = refl

-- The event at a known name.
abbrev Raises : Floats → Value → TelescopeStatusSnapshot → String → Type 0
Raises ops msg s name = flags (apply_event ops name msg s) ≡ raised name (flags s)

Raises-known :
    (ops : Floats) (msg : Value) (s : TelescopeStatusSnapshot) → All (Raises ops msg s) known
unfolding apply_event
Raises-known ops msg s =
    let f = flags s in
    (
      flags-set_temperature ops msg (set_battery ops msg s)
          ∙ flags-set_battery ops msg s
          ∙ raised_same "PiStatus" f refl refl refl,
      (
        elim (Option-cases (do v ← get msg "count"; as_i64 v)) [
          | inl e ↦ rw e (raised_stack s.is_goto s.is_stacking)
          | inr (v, e) ↦ rw e (raised_stack s.is_goto s.is_stacking)
        ],
        (
          raised_goto s.is_goto s.is_stacking,
          (
            raised_scope s.is_goto s.is_stacking,
            (
              raised_same "ScopeHome" f refl refl refl,
              (
                raised_same "ScopeTrack" f refl refl refl,
                (raised_same "View" f refl refl refl, tt),
              ),
            ),
          ),
        ),
      ),
    )

-- A name on a list, or on none of it.
abbrev IsOther : String → List String → Type 0
IsOther name = All (λ k. str_eq name k ≡ false)

on_list :
    (P : String → Type 0) (name : String) (ks : List String) → All P ks → P name ⊎ IsOther name ks
on_list P name [] all = inr tt
on_list P name (k ∷ ks) all = elim (Bool-cases (str_eq name k)) [
  | inl e ↦ inl (subst P (sym ((str_eq_iff name k).0 e)) all.0)
  | inr e ↦ elim (on_list P name ks all.1) [ inl p ↦ inl p | inr other ↦ inr (e, other) ]
]

Raises-other :
    (ops : Floats) (msg : Value) (s : TelescopeStatusSnapshot) (name : String)
    → IsOther name known
    → Raises ops msg s name
unfolding apply_event
Raises-other ops msg s name (a, b) =
    rw (a, b.0, b.1.0, b.1.1.0, b.1.1.1.0, b.1.1.1.1.0, b.1.1.1.1.1.0, apply_event)
      (quiet s.is_goto s.is_stacking)

flags-apply_event :
    (ops : Floats) (name : String) (msg : Value) (s : TelescopeStatusSnapshot)
    → flags (apply_event ops name msg s) ≡ raised name (flags s)
flags-apply_event ops name msg s =
    elim (on_list (Raises ops msg s) name known (Raises-known ops msg s)) [
      | inl p ↦ p
      | inr other ↦ Raises-other ops msg s name other
    ]

flags-update_response :
    (ops : Floats) (msg : Value) (m : Metrics)
    → flags (update_response ops msg m).telescope_status ≡ flags m.telescope_status
unfolding update_response
flags-update_response ops msg m =
    elim (Bool-cases
      (str_eq (unwrap_or (do v ← get msg "method"; as_str v) "") "get_device_state")) [
        | inr e ↦ rw (e, update_response) refl
        | inl e ↦ elim (Option-cases (do r ← get msg "result"; get r "pi_status")) [
          | inl f ↦ rw (e, update_response) (rw f refl)
          | inr (pi, f) ↦
              let s = m.telescope_status in
              let t = set_battery ops pi s in
              rw (e, update_response)
                (rw f (
                  flags-set_charger pi (set_temperature ops pi t)
                  ∙ flags-set_temperature ops pi t
                  ∙ flags-set_battery ops pi s))
        ]
      ]

-- The flags that a connection's updates leave, by the names of its events alone.
abbrev pub raised_all : List Update → Flags → Flags
raised_all [] f = f
raised_all (event now name msg ∷ us) f = raised_all us (raised name f)
raised_all (response msg ∷ us) f = raised_all us f

flags-updates :
    (ops : Floats) (us : List Update) (m : Metrics)
    → flags (updates ops us m).telescope_status ≡ raised_all us (flags m.telescope_status)
unfolding update update_event
flags-updates ops [] m = refl
flags-updates ops (event now name msg ∷ us) m =
    flags-updates ops us (update_event ops now name msg m)
    ∙ ap (raised_all us) (
        flags-apply_event ops name msg
          (record m.telescope_status { last_event = some name; last_event_ts_ms = now.epoch_ms }))
flags-updates ops (response msg ∷ us) m =
    flags-updates ops us (update_response ops msg m)
    ∙ ap (raised_all us) (flags-update_response ops msg m)

-- After a connection's reset, `is_goto` is set exactly if an `AutoGoto` or `ScopeGoto` event has
-- come, and `is_stacking` exactly if a `Stack` event has, whatever the events say: neither is cleared
-- before the next reset.
pub reset-updates :
    (ops : Floats) (us : List Update) (m : Metrics)
    → flags (updates ops us (reset_telescope_state m)).telescope_status
      ≡ raised_all us (false, false)
unfolding reset_telescope_state
reset-updates ops us m = flags-updates ops us (reset_telescope_state m)
