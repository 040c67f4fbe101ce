-- ===== src/Startup/Modes.antt =====
-- src/main.rs: which mode a configuration starts, and what each service is told.
use seestar_proxy.Base.{
  String, ◌≡◌, refl, sym, subst, ap, ◌∙◌, Bool, true, false, not, ◌&&◌, Bool-cases, Option-cases,
  inl, inr, Option, none, some, List, ◌∷◌, ◌++◌, is_some, if_lem, unwrap_or, All,
}
use mathlib.Core.Option
use seestar_proxy.Base.Text.{Bytes}
use seestar_proxy.Config.{Config}
use seestar_proxy.Metrics.{Metrics}
use seestar_proxy.Control.Accept.{SocketAddr, localhost, start, Event, woken}
use seestar_proxy.Control.Accept
use seestar_proxy.Control.Accept.Upstream.{Asleep, run-upstream, known}
use seestar_proxy.Startup
use seestar_proxy.Startup.{
  World, Serving, Plan, failed, panicked, raw, serving, is_open, upstreams, resolve_host, services,
  obstacle, session_ok, raw_mode, multiplex, plan,
}

module _ (w : World) (c : Config) where
  -- How `plan` comes to its last step.
  pub data Planned : Plan → Type 0 where
    refused : (f : Startup.Failure) → Planned (failed f)
    piped :
        (uc ui : Option SocketAddr)
        → upstreams w c ≡ some (uc, ui)
        → c.raw ≡ true
        → Planned (raw_mode uc ui)
    multiplexed :
        (uc ui : Option SocketAddr)
        → (is_some c.replay && is_some c.record_dir) ≡ false
        → upstreams w c ≡ some (uc, ui)
        → c.raw ≡ false
        → obstacle w c ≡ none
        → Planned (serving (services w c uc ui))

  multiplex-Planned :
      (uc ui : Option SocketAddr)
      → (is_some c.replay && is_some c.record_dir) ≡ false
      → upstreams w c ≡ some (uc, ui)
      → c.raw ≡ false
      → Planned (multiplex w c uc ui)
  unfolding multiplex
  multiplex-Planned uc ui one e r = elim (Option-cases (obstacle w c)) [
    | inr (f, o) ↦ rw (multiplex, o) (refused f)
    | inl o ↦ rw (multiplex, o) (multiplexed uc ui one e r o)
  ]

  plan-Planned : Planned (plan w c)
  unfolding plan
  plan-Planned = elim (Bool-cases (is_some c.replay && is_some c.record_dir)) [
    | inl both ↦ rw (plan, both) (refused _)
    | inr one ↦ elim (Bool-cases (not (session_ok w c))) [
      | inl bad ↦ rw (plan, one, bad) (refused _)
      | inr good ↦ elim (Option-cases (upstreams w c)) [
        | inl e ↦ rw (plan, one, good, e) (refused _)
        | inr ((uc, ui), e) ↦
            rw (plan, one, good, e)
              (if_lem Planned c.raw (λ r. piped uc ui e r) (λ r. multiplex-Planned uc ui one e r))
      ]
    ]
  ]

  abbrev services_of : Serving → Plan → Serving
  services_of s (serving t) = t
  services_of s _ = s

  -- A raw mode never serves, and a serving plan comes from its services.
  abbrev pub Served : Serving → Type 0
  Served s =
      (uc : Option SocketAddr) × (ui : Option SocketAddr) × (upstreams w c ≡ some (uc, ui))
      × (s ≡ services w c uc ui)
      × ((is_some c.replay && is_some c.record_dir) ≡ false)
      × (obstacle w c ≡ none)

  Planned-Served : (q : Plan) (s : Serving) → Planned q → q ≡ serving s → Served s
  unfolding raw_mode services
  Planned-Served q s (refused f) h = absurd cc
  Planned-Served q s (piped none ui e r) h = absurd cc
  Planned-Served q s (piped (some uc) none e r) h = absurd cc
  Planned-Served q s (piped (some uc) (some ui) e r) h = absurd cc
  Planned-Served q s (multiplexed uc ui one e r o) h =
      (uc, ui, e, sym (ap (services_of s) h), one, o)

  plan-Served : (s : Serving) → plan w c ≡ serving s → Served s
  plan-Served s h = Planned-Served (plan w c) s plan-Planned h

  abbrev host : String
  host = unwrap_or c.upstream "seestar.local"

  -- The telescope's addresses, where they are open and where they are not.
  data Found : Option SocketAddr → Option SocketAddr → Type 0 where
    left_open : is_open w c ≡ true → Found none none
    at :
        (ip : Bytes)
        → is_open w c ≡ false
        → resolve_host w host ≡ some ip
        → Found
            (some (record { ip = ip; port = c.upstream_control_port }))
            (some (record { ip = ip; port = c.upstream_imaging_port }))

  abbrev FoundAll : Option (Option SocketAddr × Option SocketAddr) → Type 0
  FoundAll none = Unit
  FoundAll (some (uc, ui)) = Found uc ui

  upstreams-Found : FoundAll (upstreams w c)
  unfolding upstreams
  upstreams-Found = elim (Bool-cases (is_open w c)) [
    | inl e ↦ rw (upstreams, e) (left_open e)
    | inr e ↦ elim (Option-cases (resolve_host w host)) [
      | inl n ↦ rw (upstreams, e, n) tt
      | inr (ip, f) ↦ rw (upstreams, e, f) (at ip e f)
    ]
  ]

  -- What the modes promise of a pair of addresses.
  abbrev Promised : Option SocketAddr → Option SocketAddr → Type 0
  Promised uc ui =
      (is_some uc ≡ not (is_open w c))
      × (Option.map (λ (a : SocketAddr). a.ip) uc ≡ Option.map (λ (a : SocketAddr). a.ip) ui)
      × (is_some (services w c uc ui).discovery ≡ (c.discovery && not (is_open w c)))

  Found-Promised : (uc ui : Option SocketAddr) → Found uc ui → Promised uc ui
  unfolding services
  Found-Promised none none (left_open e) = (
    ap not (sym e),
    refl,
    elim (Bool-cases c.discovery) [ inl d ↦ rw (d, e) refl | inr d ↦ rw d refl ],
  )
  Found-Promised none (some ui) f = elim f [ ]
  Found-Promised (some uc) none f = elim f [ ]
  Found-Promised (some uc) (some ui) (at ip e f) = (
    ap not (sym e),
    refl,
    elim (Bool-cases c.discovery) [ inl d ↦ rw (d, e) refl | inr d ↦ rw d refl ],
  )

  -- If `main` comes to serve, it does not record a replay; it knows the telescope's address, one host
  -- with two ports, unless it replays or is transparent without a configured host; and it bridges
  -- discovery exactly if that is asked for and the address is known.
  pub plan-serving :
      (s : Serving)
      → plan w c ≡ serving s
      → ((is_some s.replay && is_some s.recorder) ≡ false)
        × (is_some s.upstream_control ≡ not (is_open w c))
        × (Option.map (λ (a : SocketAddr). a.ip) s.upstream_control
            ≡ Option.map (λ (a : SocketAddr). a.ip) s.upstream_imaging)
        × (is_some s.discovery ≡ (c.discovery && not (is_open w c)))
  unfolding services
  plan-serving s h =
      let (uc, ui, e, same, one, _) = plan-Served s h in
      let (a, b, d) = Found-Promised uc ui (subst FoundAll e upstreams-Found) in
      subst
        (λ (s : Serving).
          ((is_some s.replay && is_some s.recorder) ≡ false)
          × (is_some s.upstream_control ≡ not (is_open w c))
          × (Option.map (λ (a : SocketAddr). a.ip) s.upstream_control
              ≡ Option.map (λ (a : SocketAddr). a.ip) s.upstream_imaging)
          × (is_some s.discovery ≡ (c.discovery && not (is_open w c))))
        (sym same) (one, a, b, d)

  -- The raw mode has no telescope to pipe to if it replays or is transparent without a configured
  -- host: `main` panics instead of returning an error.
  pub plan-panicked :
      is_open w c ≡ true
      → (is_some c.replay && is_some c.record_dir) ≡ false
      → session_ok w c ≡ true
      → c.raw ≡ true
      → plan w c ≡ panicked
  unfolding plan upstreams raw_mode
  plan-panicked e one loads r =
      rw (plan, one, loads, upstreams, e)
        (if_lem (λ q. q ≡ panicked) c.raw (λ _. refl) (λ f. absurd cc))

  Found-at :
      (uc ui : Option SocketAddr)
      → Found uc ui
      → is_open w c ≡ false
      → (ip : Bytes) × (resolve_host w host ≡ some ip)
        × (uc ≡ some (record { ip = ip; port = c.upstream_control_port }))
  Found-at none none (left_open o) e = absurd cc
  Found-at none (some ui) f e = elim f [ ]
  Found-at (some uc) none f e = elim f [ ]
  Found-at (some uc) (some ui) (at ip o f) e = (ip, f, refl)

  -- The control proxy connects to the configured host and to nothing else: if `main` comes to serve and
  -- the address is not open, then whenever the upstream task wakes among whatever clients, the address
  -- that it takes is that of the configured host, with the configured port.
  pub served-upstream :
      (s : Serving) (hooks : Bool) (m : Option Metrics) (es fs : List Event)
      → plan w c ≡ serving s
      → is_open w c ≡ false
      → All Asleep es
      → let (l, out) =
          Accept.run s.transparent hooks (es ++ woken ∷ fs) (start m s.upstream_control) in
        (ip : Bytes) × (resolve_host w host ≡ some ip)
        × (l.upstream_addr ≡ some (record { ip = ip; port = c.upstream_control_port }))
  unfolding services
  served-upstream s hooks m es fs h e asleep =
      let (uc, ui, f, same, _, _) = plan-Served s h in
      let (ip, resolved, there) = Found-at uc ui (subst FoundAll f upstreams-Found) e in
      let control : s.upstream_control ≡ some (record { ip = ip; port = c.upstream_control_port }) =
        ap (λ (t : Serving). t.upstream_control) same ∙ there in
      (
        ip,
        resolved,
        (run-upstream s.transparent hooks m s.upstream_control es fs asleep).0
            ∙ ap (λ u. some (unwrap_or (known s.transparent u es) localhost)) control,
      )
