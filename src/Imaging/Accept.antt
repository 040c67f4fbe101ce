-- ===== src/Imaging/Accept.antt =====
-- src/imaging.rs: the accept loop of `run`, with the end of each client's task, and the upstream task
-- that waits for an address.
use seestar_proxy.Base.{◌+◌, ◌-◌, ◌^◌, ◌≡◌, ◌∙◌, Bool, Option, List, [], ◌∷◌}
use mathlib.Core.Option
use seestar_proxy.Metrics.{Metrics, i32}
use seestar_proxy.Control.Accept.{SocketAddr, resolve}
use seestar_proxy.Control.Accept.Upstream.{known, known-nil, known-resolve, known-ended}
use seestar_proxy.Control.Accept

pub record Listener : Type 0 where
  pub metrics : Option Metrics
  pub resolved_upstream : Option SocketAddr

pub data Event : Type 0 where
  accepted : (client : SocketAddr) → (original_dst : Option SocketAddr) → Event
  ended : (client : SocketAddr) → Event

abbrev pub add_client : Metrics → Metrics
add_client m = record m { imaging_clients = i32 (m.imaging_clients + 1) }

abbrev pub drop_client : Metrics → Metrics
drop_client m = record m { imaging_clients = i32 (m.imaging_clients + (2 ^ 32 - 1)) }

unfoldable pub step : Bool → Event → Listener → Listener
unfolding resolve
step transparent (accepted client original_dst) l = record {
  metrics = Option.map add_client l.metrics;
  resolved_upstream = resolve transparent original_dst l.resolved_upstream;
}
step transparent (ended client) l = record l { metrics = Option.map drop_client l.metrics }

unfoldable pub run : Bool → List Event → Listener → Listener
unfolding step
run transparent [] l = l
run transparent (e ∷ es) l = run transparent es (step transparent e l)

-- The clients as the control listener would see them.
abbrev pub as_control : List Event → List Accept.Event
as_control [] = []
as_control (accepted a dst ∷ es) = Accept.accepted a dst ∷ as_control es
as_control (ended a ∷ es) = Accept.ended a ∷ as_control es

-- The task that waits finds the configured address, or in transparent mode the destination of the
-- first client that has one, however late it comes.
pub run-known :
    (transparent : Bool) (es : List Event) (l : Listener)
    → (run transparent es l).resolved_upstream
      ≡ known transparent l.resolved_upstream (as_control es)
unfolding run step
run-known transparent [] l = known-nil transparent l.resolved_upstream
run-known transparent (accepted a dst ∷ es) l =
    run-known transparent es (step transparent (accepted a dst) l)
    ∙ known-resolve transparent dst l.resolved_upstream a (as_control es)
run-known transparent (ended a ∷ es) l =
    run-known transparent es (step transparent (ended a) l)
    ∙ known-ended transparent l.resolved_upstream a (as_control es)
