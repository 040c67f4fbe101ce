-- ===== src/Tests/Accept.antt =====
-- src/control.rs: the accept loop with a few clients.
use seestar_proxy.Base.{ℕ, ◌≡◌, refl, true, some, none, List, [], ◌∷◌, ◌++◌, arith}
use seestar_proxy.Json.{get, number, pos_int}
use seestar_proxy.Metrics.{new}
use seestar_proxy.Dashboard.{stats_handler}
use seestar_proxy.Control.Accept.{SocketAddr, localhost, start, Event, accepted, ended, woken, run}
use seestar_proxy.Control.Accept.Clients.{open_clients, counting, told, tells, run-clients}
use seestar_proxy.Control.Accept.Upstream.{notified, run-upstream}
use seestar_proxy.Tests.Dashboard.{env, now}

abbrev pub client : ℕ → SocketAddr
client n = record { ip = 10 ∷ 0 ∷ 0 ∷ n ∷ []; port = 50_000 }

abbrev telescope : SocketAddr
telescope = record { ip = 192 ∷ 168 ∷ 1 ∷ 9 ∷ []; port = 4700 }

abbrev visits : List Event
visits =
    accepted (client 2) none ∷ woken ∷ accepted (client 3) (some telescope) ∷ ended (client 2) ∷ []

run-clients_example :
    let (l', out) = run true true visits (start (some (counting 0 new)) none) in
    let m' = counting (open_clients 0 visits) new in
    (l'.metrics ≡ some m')
    × (get (stats_handler env now m') "control_clients"
        ≡ some (number (pos_int (open_clients 0 visits))))
    × (told out ≡ tells visits)
unfolding start
run-clients_example =
    run-clients true env now 0 new visits (start (some (counting 0 new)) none) refl
      (omega arith, (omega arith, (omega arith, omega arith, omega arith)))

-- The first client comes to the proxy directly, so the proxy takes itself for the telescope, although
-- the second client has been redirected.
run-upstream_example :
    let (l, out) =
      run true true
        ((accepted (client 2) none ∷ []) ++ woken ∷ accepted (client 3) (some telescope) ∷ [])
        (start none none) in
    (l.upstream_addr ≡ some localhost) × (l.resolved_upstream ≡ some localhost) × (notified out ≡ 1)
run-upstream_example =
    run-upstream true true none none (accepted (client 2) none ∷ [])
      (accepted (client 3) (some telescope) ∷ []) (tt, tt)
