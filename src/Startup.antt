-- ===== src/Startup.antt =====
-- src/main.rs: what `main` starts for a configuration, up to the tasks that it spawns. What the disk,
-- the resolver and the other components answer is a parameter.
pub mod Modes
use seestar_proxy.Base.{
  ℕ, String, Bool, true, false, not, ◌&&◌, Option, none, some, List, [], ◌∷◌, ◌++◌, if◌then◌else◌,
  is_some, length, unwrap_or, ◌==◌,
}
use mathlib.Core.Option
use seestar_proxy.Base.Text.{Bytes, Text, codes}
use seestar_proxy.Config.{Config}
use seestar_proxy.Control.Accept.{SocketAddr}
use seestar_proxy.Discovery.Probe.{is_unspecified}

pub record World : Type 0 where
  pub parse_ip : String → Option Bytes
  pub lookup_host : String → Option (List Bytes)
  pub session_loads : String → Bool
  pub recorder_starts : String → Bool
  pub scripts_load : List String → Bool
  pub has_wireguard : Bool
  pub tunnel_starts : (upstream_ip : Bytes) → Bool

-- The errors with which `main` returns.
pub data Failure : Type 0 where
  both_replay_and_record bad_session unresolved no_recorder bad_scripts no_wireguard : Failure

-- The services of the multiplexing mode. A service that is off, or whose start has failed without
-- ending the program, is none.
pub record Serving : Type 0 where
  pub bind_control : SocketAddr
  pub bind_imaging : SocketAddr
  pub upstream_control : Option SocketAddr
  pub upstream_imaging : Option SocketAddr
  pub transparent : Bool
  pub replay : Option String
  pub recorder : Option String
  pub scripts : List String
  pub tunnel : Option Bytes
  pub dashboard : Option SocketAddr
  pub discovery : Option Bytes

pub data Plan : Type 0 where
  failed : Failure → Plan
  panicked : Plan
  raw : (control imaging : SocketAddr) → Plan
  serving : Serving → Plan

unfoldable pub log_level : ℕ → String
log_level verbose = if verbose == 0 then "info" else if verbose == 1 then "debug" else "trace"

-- `starts_with("~")` looks at the first component of the path.
unfoldable pub key_file : (home : Option Text) → Text → Text
key_file home [] = []
key_file home (c ∷ cs) =
    if c == 126 && (elim cs [ [] ↦ true | d ∷ ds ↦ d == 47 ])
    then unwrap_or home (codes ".") ++ cs
    else c ∷ cs

abbrev address : Bytes → ℕ → SocketAddr
address ip port = record { ip = ip; port = port }

first_v4 : List Bytes → Option Bytes
first_v4 [] = none
first_v4 (ip ∷ ips) = let rest = first_v4 ips in if length ip == 4 then some ip else rest

abbrev head_opt : List Bytes → Option Bytes
head_opt [] = none
head_opt (ip ∷ ips) = some ip

unfoldable pub prefer_v4 : List Bytes → Option Bytes
unfolding first_v4
prefer_v4 ips = elim (first_v4 ips) [ some ip ↦ some ip | none ↦ head_opt ips ]

-- `expect` on both addresses.
unfoldable pub raw_mode : Option SocketAddr → Option SocketAddr → Plan
raw_mode none ui = panicked
raw_mode (some uc) none = panicked
raw_mode (some uc) (some ui) = raw uc ui

module _ (w : World) where
  unfoldable pub resolve_host : String → Option Bytes
  unfolding prefer_v4
  resolve_host host = elim (w.parse_ip host) [
    | some ip ↦ some ip
    | none ↦ elim (w.lookup_host host) [ none ↦ none | some ips ↦ prefer_v4 ips ]
  ]

  -- Whether the telescope's address is left open.
  abbrev pub is_open : Config → Bool
  is_open c = if is_some c.replay then true else c.transparent && not (is_some c.upstream)

  -- The telescope's two addresses, or none if its name does not resolve.
  unfoldable pub upstreams : Config → Option (Option SocketAddr × Option SocketAddr)
  unfolding resolve_host
  upstreams c =
      if is_open c
      then some (none, none)
      else Option.map
          (λ ip.
            (some (address ip c.upstream_control_port), some (address ip c.upstream_imaging_port)))
          (resolve_host (unwrap_or c.upstream "seestar.local"))

  -- What keeps the multiplexing mode from starting.
  unfoldable pub obstacle : Config → Option Failure
  obstacle c =
      if not (elim c.record_dir [ none ↦ true | some dir ↦ w.recorder_starts dir ])
      then some no_recorder
      else if not (elim c.hooks [ [] ↦ true | h ∷ hs ↦ w.scripts_load (h ∷ hs) ])
      then some bad_scripts
      else if c.wireguard && not w.has_wireguard
      then some no_wireguard
      else none

  unfoldable pub services : Config → Option SocketAddr → Option SocketAddr → Serving
  services c uc ui = record {
    bind_control = address c.bind c.control_port;
    bind_imaging = address c.bind c.imaging_port;
    upstream_control = uc;
    upstream_imaging = ui;
    transparent = c.transparent;
    replay = c.replay;
    recorder = c.record_dir;
    scripts = c.hooks;
    tunnel =
        let ip = unwrap_or (Option.map (λ (a : SocketAddr). a.ip) uc) (127 ∷ 0 ∷ 0 ∷ 1 ∷ []) in
        if c.wireguard && w.tunnel_starts ip then some ip else none;
    dashboard = if c.dashboard_port == 0 then none else some (address c.bind c.dashboard_port);
    discovery = if c.discovery then Option.map (λ (a : SocketAddr). a.ip) uc else none;
  }

  unfoldable pub multiplex : Config → Option SocketAddr → Option SocketAddr → Plan
  unfolding obstacle services
  multiplex c uc ui = elim (obstacle c) [ some f ↦ failed f | none ↦ serving (services c uc ui) ]

  abbrev pub session_ok : Config → Bool
  session_ok c = elim c.replay [ none ↦ true | some dir ↦ w.session_loads dir ]

  unfoldable pub plan : Config → Plan
  unfolding upstreams raw_mode multiplex
  plan c =
      if is_some c.replay && is_some c.record_dir
      then failed both_replay_and_record
      else if not (session_ok c)
      then failed bad_session
      else elim (upstreams c) [
        | none ↦ failed unresolved
        | some (uc, ui) ↦ if c.raw then raw_mode uc ui else multiplex c uc ui
      ]
