-- ===== src/Control/Accept/Clients.antt =====
-- src/control.rs: the gauge of connected clients and the hooks that are told of them.
use seestar_proxy.Base.{
  ℕ, suc, ◌-◌, ◌^◌, ◌<◌, ◌≡◌, refl, sym, ap, ap₂, ◌∙◌, Bool, true, some, List, [], ◌∷◌, ◌++◌, arith,
  lt→ltb, Bool-cases, inl, inr,
}
use mathlib.Core.Option
use seestar_proxy.Json.{get, lookup, number, pos_int}
use seestar_proxy.Metrics.{Metrics, Now}
use seestar_proxy.Dashboard.{Env, build_payload, stats_handler}
use seestar_proxy.Control.Accept.{
  Listener, Event, accepted, ended, woken, Effect, notify_upstream, client_connect,
  client_disconnect, add_client, drop_client, step, run,
}

-- The clients that are connected after the events, and what the events must respect: only a client
-- that is connected ends, and there are never 2^31 of them.
abbrev pub open_clients : ℕ → List Event → ℕ
open_clients n [] = n
open_clients n (accepted _ _ ∷ es) = open_clients (suc n) es
open_clients n (ended _ ∷ es) = open_clients (n - 1) es
open_clients n (woken ∷ es) = open_clients n es

abbrev pub Plausible : ℕ → List Event → Type 0
Plausible n [] = n < 2 ^ 31
Plausible n (accepted _ _ ∷ es) = (suc n < 2 ^ 31) × Plausible (suc n) es
Plausible n (ended _ ∷ es) = (0 < n) × (n < 2 ^ 31) × Plausible (n - 1) es
Plausible n (woken ∷ es) = Plausible n es

open_clients-bound : (n : ℕ) (es : List Event) → Plausible n es → open_clients n es < 2 ^ 31
open_clients-bound n [] h = h
open_clients-bound n (accepted _ _ ∷ es) h = open_clients-bound (suc n) es h.1
open_clients-bound n (ended _ ∷ es) h = open_clients-bound (n - 1) es h.2
open_clients-bound n (woken ∷ es) h = open_clients-bound n es h

-- What the hook scripts are told.
abbrev pub told : List Effect → List Effect
told [] = []
told (notify_upstream ∷ es) = told es
told (client_connect a ∷ es) = client_connect a ∷ told es
told (client_disconnect a ∷ es) = client_disconnect a ∷ told es

abbrev pub tells : List Event → List Effect
tells [] = []
tells (accepted a _ ∷ es) = client_connect a ∷ tells es
tells (ended a ∷ es) = client_disconnect a ∷ tells es
tells (woken ∷ es) = tells es

told-append : (es fs : List Effect) → told (es ++ fs) ≡ told es ++ told fs
told-append [] fs = refl
told-append (notify_upstream ∷ es) fs = told-append es fs
told-append (client_connect a ∷ es) fs = ap (◌∷◌ (client_connect a)) (told-append es fs)
told-append (client_disconnect a ∷ es) fs = ap (◌∷◌ (client_disconnect a)) (told-append es fs)

step-told :
    (transparent : Bool) (e : Event) (l : Listener)
    → told (step transparent true e l).1 ≡ tells (e ∷ [])
unfolding step
step-told transparent (accepted a dst) l = elim (Bool-cases l.upstream_started_once) [
  | inl e ↦ rw e refl
  | inr e ↦ rw e refl
]
step-told transparent (ended a) l = refl
step-told transparent woken l = refl

tells-cons : (e : Event) (es : List Event) → tells (e ∷ es) ≡ tells (e ∷ []) ++ tells es
tells-cons (accepted a dst) es = refl
tells-cons (ended a) es = refl
tells-cons woken es = refl

run-told :
    (transparent : Bool) (es : List Event) (l : Listener)
    → told (run transparent true es l).1 ≡ tells es
unfolding run
run-told transparent [] l = refl
run-told transparent (e ∷ es) l =
    let a = step transparent true e l in
    told-append a.1 (run transparent true es a.0).1
    ∙ ap₂ ◌++◌ (step-told transparent e l) (run-told transparent es a.0)
    ∙ sym (tells-cons e es)

-- The metrics with a number of control clients.
abbrev pub counting : ℕ → Metrics → Metrics
counting n m = record m { control_clients = n }

add_client-counting :
    (n : ℕ) (m : Metrics) → suc n < 2 ^ 31 → add_client (counting n m) ≡ counting (suc n) m
add_client-counting n m h = ap (λ k. counting k m) (omega arith)

drop_client-counting :
    (n : ℕ) (m : Metrics) → 0 < n → n < 2 ^ 31 → drop_client (counting n m) ≡ counting (n - 1) m
drop_client-counting n m h k = ap (λ j. counting j m) (omega arith)

run-counting :
    (transparent hooks : Bool) (n : ℕ) (m : Metrics) (es : List Event) (l : Listener)
    → l.metrics ≡ some (counting n m)
    → Plausible n es
    → (run transparent hooks es l).0.metrics ≡ some (counting (open_clients n es) m)
unfolding run step
run-counting transparent hooks n m [] l e h = e
run-counting transparent hooks n m (accepted a dst ∷ es) l e h =
    run-counting transparent hooks (suc n) m es (step transparent hooks (accepted a dst) l).0
      (ap (Option.map add_client) e ∙ ap some (add_client-counting n m h.0)) h.1
run-counting transparent hooks n m (ended a ∷ es) l e h =
    run-counting transparent hooks (n - 1) m es (step transparent hooks (ended a) l).0
      (ap (Option.map drop_client) e ∙ ap some (drop_client-counting n m h.0 h.1)) h.2
run-counting transparent hooks n m (woken ∷ es) l e h =
    run-counting transparent hooks n m es (step transparent hooks woken l).0 e h

payload-counting :
    (env : Env) (now : Now) (n : ℕ) (m : Metrics)
    → n < 2 ^ 31
    → get (stats_handler env now (counting n m)) "control_clients" ≡ some (number (pos_int n))
unfolding stats_handler build_payload get lookup
payload-counting env now n m h = rw (lt→ltb n (2 ^ 31) h) refl

-- The dashboard shows how many control clients are connected: after any connections and ends of
-- clients, the metrics have changed in the number of clients alone, it is the number of clients that
-- are connected, and it is what the statistics show; and the hook scripts are told of each
-- connection and each end once and in order. Only a connected client ends, and there are fewer than
-- 2^31 clients.
pub run-clients :
    (transparent : Bool) (env : Env) (now : Now) (n : ℕ) (m : Metrics) (es : List Event)
    (l : Listener)
    → l.metrics ≡ some (counting n m)
    → Plausible n es
    → let (l', out) = run transparent true es l in
      let m' = counting (open_clients n es) m in
      (l'.metrics ≡ some m')
      × (get (stats_handler env now m') "control_clients"
          ≡ some (number (pos_int (open_clients n es))))
      × (told out ≡ tells es)
run-clients transparent env now n m es l e h = (
  run-counting transparent true n m es l e h,
  payload-counting env now (open_clients n es) m (open_clients-bound n es h),
  run-told transparent es l,
)
