-- ===== src/Control/Invariant.antt =====
-- src/control.rs: what holds of the shared state between any two steps.
use native.Mathlib.Nat.{mod-eq_of_lt}
use seestar_proxy.Base.{
  ℕ, suc, ◌+◌, ◌^◌, ◌≤◌, ◌<◌, ◌≡◌, refl, ap, ◌∙◌, false, Option, none, some, List, [], ◌∷◌, arith,
  length, Bool-cases, Option-cases, inl, inr,
}
use seestar_proxy.Json.{Value}
use seestar_proxy.Protocol.{is_event, json_rpc_id}
use seestar_proxy.Metrics.{Metrics, u64}
use seestar_proxy.Control.Pending.{
  PendingMap, PendingRequest, lookup, remove, insert, Distinct, Below, lookup-remove_ne,
  lookup-cons_ne, lookup-remove-none, remove_above, Below-Absent, Below-mono, remove-Below,
  remove-Distinct, length-remove-le,
}
use seestar_proxy.Control.State.{Proxy, max_pending_requests, first_id}
use seestar_proxy.Control.Steps.{
  Op, client_line, telescope_line, heartbeats, reconnects, reader_up, init, step, run, parsed,
  settles, answers_message,
}
use seestar_proxy.Control.Upstream.{set_upstream_up}
use seestar_proxy.Control.Frames.{
  Issue, Move, issue, same, bumped, entered, withdrawn, answered, drained, step-Move,
  handle_line-Issue, heartbeat-Issue, handle_message-Loses, removed_by,
}

-- The ids in the map differ, were all given out before, and are never more than the limit.
pub record Inv (p : Proxy) : Type 0 where
  pub distinct : Distinct p.pending
  pub issued : Below p.next_id p.pending
  pub bounded : length p.pending ≤ max_pending_requests

-- A step's worth of counter is left.
abbrev pub HasIds : ℕ → Proxy → Type 0
HasIds n p = p.next_id + n < 2 ^ 64

pub u64-below : (n : ℕ) → n + 1 < 2 ^ 64 → u64 (n + 1) ≡ n + 1
u64-below n h = mod-eq_of_lt h

-- On a map whose ids are all smaller, `insert` adds one entry.
pub insert_fresh :
    (n : ℕ) (r : PendingRequest) (m : PendingMap) → Below n m → insert n r m ≡ (n, r) ∷ m
unfolding insert
insert_fresh n r m b = ap (λ t. (n, r) ∷ t) (remove_above n n m b (omega arith))

pub remove-insert :
    (n : ℕ) (r : PendingRequest) (m : PendingMap) → Below n m → remove n (insert n r m) ≡ m
unfolding remove
remove-insert n r m b = ap (remove n) (insert_fresh n r m b) ∙ ground arith

-- The invariant as a property of the counter and the map.
Good : ℕ → PendingMap → Type 0
Good n m = Distinct m × Below n m × (length m ≤ max_pending_requests)

Good-Inv : (p : Proxy) → Good p.next_id p.pending → Inv p
unfolding Good
Good-Inv p (d, b, l) = record { distinct = d; issued = b; bounded = l }

Inv-Good : (p : Proxy) → Inv p → Good p.next_id p.pending
unfolding Good
Inv-Good p v = (v.distinct, v.issued, v.bounded)

Good-bump : (n : ℕ) (m : PendingMap) → n + 1 < 2 ^ 64 → Good n m → Good (u64 (n + 1)) m
unfolding Good
Good-bump n m h (d, b, l) = (d, Below-mono n _ m b (omega (arith, u64-below n h)), l)

Good-enter :
    (n : ℕ) (r : PendingRequest) (m : PendingMap)
    → n + 1 < 2 ^ 64
    → length m < max_pending_requests
    → Good n m
    → Good (u64 (n + 1)) ((n, r) ∷ m)
unfolding Good
Good-enter n r m h small (d, b, l) = (
  (Below-Absent n n m b (omega arith), d),
  (omega (arith, u64-below n h), Below-mono n _ m b (omega (arith, u64-below n h))),
  omega arith,
)

Good-remove : (rid n : ℕ) (m : PendingMap) → Good n m → Good n (remove rid m)
unfolding Good
Good-remove rid n m (d, b, l) =
    (remove-Distinct rid m d, remove-Below rid n m b, omega (arith, length-remove-le rid m))

issued : (n : ℕ) (m : PendingMap) → Good n m → Below n m
unfolding Good
issued n m (d, b, l) = b

Issue-Good :
    (p q : Proxy) → HasIds 1 p → Good p.next_id p.pending → Issue p q → Good q.next_id q.pending
unfolding Good
Issue-Good p q h v (same n m) = rw (n, m) v
Issue-Good p q h v (bumped n m) = rw (n, m) (Good-bump p.next_id p.pending h v)
Issue-Good p q h v (entered r small n m) =
    rw (n, m, insert_fresh p.next_id r p.pending (issued p.next_id p.pending v))
      (Good-enter p.next_id r p.pending h small v)
Issue-Good p q h v (withdrawn r n m) =
    rw (n, m, remove-insert p.next_id r p.pending (issued p.next_id p.pending v))
      (Good-bump p.next_id p.pending h v)

Move-Good :
    (p q : Proxy) → HasIds 1 p → Good p.next_id p.pending → Move p q → Good q.next_id q.pending
unfolding Good
Move-Good p q h v (issue i) = Issue-Good p q h v i
Move-Good p q h v (answered rid n m) = rw (n, m) (Good-remove rid p.next_id p.pending v)
Move-Good p q h v (drained n m) = rw (n, m) (tt, tt, omega arith)

-- Every step of the proxy keeps the invariant while the counter does not wrap.
pub step-Inv : (op : Op) (p : Proxy) → HasIds 1 p → Inv p → Inv (step op p).0
step-Inv op p h v =
    Good-Inv (step op p).0 (Move-Good p (step op p).0 h (Inv-Good p v) (step-Move op p))

Issue-next : (p q : Proxy) (k : ℕ) → HasIds (suc k) p → Issue p q → HasIds k q
Issue-next p q k h (same n m) = omega arith
Issue-next p q k h (bumped n m) = omega (arith, u64-below p.next_id)
Issue-next p q k h (entered r l n m) = omega (arith, u64-below p.next_id)
Issue-next p q k h (withdrawn r n m) = omega (arith, u64-below p.next_id)

Move-next : (p q : Proxy) (k : ℕ) → HasIds (suc k) p → Move p q → HasIds k q
Move-next p q k h (issue i) = Issue-next p q k h i
Move-next p q k h (answered rid n m) = omega arith
Move-next p q k h (drained n m) = omega arith

pub step-HasIds : (op : Op) (p : Proxy) (k : ℕ) → HasIds (suc k) p → HasIds k (step op p).0
step-HasIds op p k h = Move-next p (step op p).0 k h (step-Move op p)

pub run-Inv : (ops : List Op) (p : Proxy) → HasIds (length ops) p → Inv p → Inv (run ops p).0
unfolding run
run-Inv [] p h v = v
run-Inv (op ∷ ops) p h v =
    run-Inv ops (step op p).0 (step-HasIds op p (length ops) h) (step-Inv op p (omega arith) v)

-- After any steps from the start, fewer than the counter has ids, the waiting requests have
-- different proxy ids, each given out before, and are at most `max_pending_requests`.
pub run-init-Inv :
    (metrics : Option Metrics) (ops : List Op)
    → first_id + length ops < 2 ^ 64
    → Inv (run ops (init metrics)).0
unfolding init
run-init-Inv metrics ops h =
    run-Inv ops (init metrics) h (record { distinct = tt; issued = tt; bounded = omega arith })

-- A request that waits stays on the map under every step that does not settle it.
Issue-keeps :
    (p q : Proxy) (rid : ℕ)
    → Below p.next_id p.pending
    → rid < p.next_id
    → Issue p q
    → lookup rid q.pending ≡ lookup rid p.pending
Issue-keeps p q rid b lt (same n m) = ap (lookup rid) m
Issue-keeps p q rid b lt (bumped n m) = ap (lookup rid) m
Issue-keeps p q rid b lt (entered r small n m) =
    ap (lookup rid) (m ∙ insert_fresh p.next_id r p.pending b)
    ∙ lookup-cons_ne rid p.next_id r p.pending (ground arith)
Issue-keeps p q rid b lt (withdrawn r n m) =
    ap (lookup rid) (m ∙ remove-insert p.next_id r p.pending b)

removed_by-keeps :
    (msg : Option Value) (rid : ℕ) (m : PendingMap)
    → answers_message rid msg ≡ false
    → lookup rid (removed_by msg m) ≡ lookup rid m
removed_by-keeps none rid m h = refl
removed_by-keeps (some msg) rid m h = elim (Bool-cases (is_event msg)) [
  | inl e ↦ rw e
  | inr e ↦ elim (Option-cases (json_rpc_id msg)) [
    | inl f ↦ rw (e, f)
    | inr (n, f) ↦ rw (e, f) (lookup-remove_ne rid n m (rw (e, f) at h))
  ]
]

pub step-keeps :
    (op : Op) (p : Proxy) (rid : ℕ)
    → Inv p
    → rid < p.next_id
    → settles rid op ≡ false
    → lookup rid (step op p).0.pending ≡ lookup rid p.pending
unfolding step set_upstream_up
step-keeps (client_line env client line) p rid v lt h =
    Issue-keeps p _ rid v.issued lt (handle_line-Issue env client line p)
step-keeps (telescope_line env line) p rid v lt h =
    ap (lookup rid) (handle_message-Loses env line p).1
    ∙ removed_by-keeps (parsed env line) rid p.pending h
step-keeps (heartbeats env) p rid v lt h = Issue-keeps p _ rid v.issued lt (heartbeat-Issue env p)
step-keeps (reconnects env) p rid v lt h = cc
step-keeps (reader_up up) p rid v lt h = refl

-- No step lowers the counter.
Issue-next-le : (p q : Proxy) → HasIds 1 p → Issue p q → p.next_id ≤ q.next_id
Issue-next-le p q h (same n m) = omega arith
Issue-next-le p q h (bumped n m) = omega (arith, u64-below p.next_id)
Issue-next-le p q h (entered r l n m) = omega (arith, u64-below p.next_id)
Issue-next-le p q h (withdrawn r n m) = omega (arith, u64-below p.next_id)

Move-next-le : (p q : Proxy) → HasIds 1 p → Move p q → p.next_id ≤ q.next_id
Move-next-le p q h (issue i) = Issue-next-le p q h i
Move-next-le p q h (answered rid n m) = omega arith
Move-next-le p q h (drained n m) = omega arith

pub step-next-le : (op : Op) (p : Proxy) → HasIds 1 p → p.next_id ≤ (step op p).0.next_id
step-next-le op p h = Move-next-le p (step op p).0 h (step-Move op p)

Move-none :
    (p q : Proxy) (rid : ℕ)
    → Below p.next_id p.pending
    → rid < p.next_id
    → lookup rid p.pending ≡ none
    → Move p q
    → lookup rid q.pending ≡ none
unfolding lookup
Move-none p q rid b lt e (issue i) = Issue-keeps p q rid b lt i ∙ e
Move-none p q rid b lt e (answered k n m) = ap (lookup rid) m ∙ lookup-remove-none rid k p.pending e
Move-none p q rid b lt e (drained n m) = ap (lookup rid) m

-- A request that is off the map stays off: no id is given out twice.
pub step-none :
    (op : Op) (p : Proxy) (rid : ℕ)
    → Inv p
    → rid < p.next_id
    → lookup rid p.pending ≡ none
    → lookup rid (step op p).0.pending ≡ none
step-none op p rid v lt e = Move-none p (step op p).0 rid v.issued lt e (step-Move op p)
