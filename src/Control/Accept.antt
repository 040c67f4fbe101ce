-- ===== src/Control/Accept.antt =====
-- src/control.rs: the accept loop of `run`, with the end of each client's task, and the address that
-- the upstream task takes when it is woken.
pub mod Clients
pub mod Upstream
use seestar_proxy.Base.{
  ℕ, ◌+◌, ◌-◌, ◌^◌, Bool, true, false, not, ◌&&◌, Option, none, some, List, [], ◌∷◌, ◌++◌,
  if◌then◌else◌, is_some, unwrap_or,
}
use mathlib.Core.Option
use seestar_proxy.Base.Text.{Bytes}
use seestar_proxy.Metrics.{Metrics, i32}

pub record SocketAddr : Type 0 where
  pub ip : Bytes
  pub port : ℕ

-- What `get_or_init` falls back to.
abbrev pub localhost : SocketAddr
localhost = record { ip = 127 ∷ 0 ∷ 0 ∷ 1 ∷ []; port = 4700 }

-- `upstream_addr` is the address that the upstream task has taken.
pub record Listener : Type 0 where
  pub metrics : Option Metrics
  pub resolved_upstream : Option SocketAddr
  pub upstream_started_once : Bool
  pub upstream_addr : Option SocketAddr

unfoldable pub start : Option Metrics → Option SocketAddr → Listener
start m upstream = record {
  metrics = m;
  resolved_upstream = upstream;
  upstream_started_once = false;
  upstream_addr = none;
}

-- A client that connects, with what `get_original_dst` says of it; the end of a client's task; and the
-- upstream task going on after `notified`.
pub data Event : Type 0 where
  accepted : (client : SocketAddr) → (original_dst : Option SocketAddr) → Event
  ended : (client : SocketAddr) → Event
  woken : Event

-- The notification of the upstream task, and the hooks on clients.
pub data Effect : Type 0 where
  notify_upstream : Effect
  client_connect client_disconnect : SocketAddr → Effect

abbrev pub add_client : Metrics → Metrics
add_client m = record m { control_clients = i32 (m.control_clients + 1) }

abbrev pub drop_client : Metrics → Metrics
drop_client m = record m { control_clients = i32 (m.control_clients + (2 ^ 32 - 1)) }

-- `resolved_upstream` after a client.
unfoldable pub resolve : Bool → Option SocketAddr → Option SocketAddr → Option SocketAddr
resolve transparent original_dst resolved =
    if transparent && not (is_some resolved) then original_dst else resolved

module _ (transparent hooks : Bool) where
  unfoldable pub step : Event → Listener → Listener × List Effect
  unfolding resolve
  step (accepted client original_dst) l = (
    record l {
      metrics = Option.map add_client l.metrics;
      resolved_upstream = resolve transparent original_dst l.resolved_upstream;
      upstream_started_once = true;
    },
    (if l.upstream_started_once then [] else notify_upstream ∷ [])
        ++ (if hooks then client_connect client ∷ [] else []),
  )
  step (ended client) l = (
    record l { metrics = Option.map drop_client l.metrics },
    if hooks then client_disconnect client ∷ [] else [],
  )
  step woken l =
      let addr = unwrap_or l.resolved_upstream localhost in
      (record l { resolved_upstream = some addr; upstream_addr = some addr }, [])

  unfoldable pub run : List Event → Listener → Listener × List Effect
  unfolding step
  run [] l = (l, [])
  run (e ∷ es) l = let (l', out) = step e l in let (l'', more) = run es l' in (l'', out ++ more)
