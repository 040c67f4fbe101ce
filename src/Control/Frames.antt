-- ===== src/Control/Frames.antt =====
-- src/control.rs: what each step does to the id counter and to the map of waiting requests.
use seestar_proxy.Base.{
  ℕ, ◌+◌, ◌<◌, ◌≡◌, refl, true, Option, none, some, [], ◌∷◌, leb, ltb, if◌then◌else◌, length,
  Bool-cases, if_lem, Option-cases, leb_false→lt, inl, inr, ap, ap₂, subst, ◌∙◌,
}
use seestar_proxy.Base.Text.{Bytes, Text, from_utf8_lossy, trim}
use seestar_proxy.Json.{Value}
use seestar_proxy.Protocol.{is_event, json_rpc_id, set_json_rpc_id, get_id}
use seestar_proxy.Metrics.{u64}
use seestar_proxy.Hooks.{HookAction, forward, block, modify, reply}
use seestar_proxy.Control.Pending.{PendingMap, PendingRequest, lookup, remove, insert}
use seestar_proxy.Control.State.{Proxy, Env, Outcome, max_pending_requests, debug_slice, is_panic}
use seestar_proxy.Lines.{max_line_bytes}
use seestar_proxy.Control.Client.{
  register, forward_tracked, forward_notification, forward_request, request_action, send_reply,
  apply_action, handle_text, note_request, handle_trimmed, handle_line,
}
use seestar_proxy.Control.Upstream.{
  classify, handle_event, handle_response, deliver, handle_untracked, count_response, update_table,
  note_event, note_response, handle_parsed, handle_message, heartbeat, reconnect, set_upstream_up,
  can_hint,
}
use seestar_proxy.Control.Upstream
use seestar_proxy.Control.Steps.{
  Op, client_line, telescope_line, heartbeats, reconnects, reader_up, step, parsed,
}

-- What a client or the heartbeat does to the counter and the map.
pub data Issue (p q : Proxy) : Type 0 where
  same : q.next_id ≡ p.next_id → q.pending ≡ p.pending → Issue p q
  bumped : q.next_id ≡ u64 (p.next_id + 1) → q.pending ≡ p.pending → Issue p q
  entered :
      (r : PendingRequest)
      → length p.pending < max_pending_requests
      → q.next_id ≡ u64 (p.next_id + 1)
      → q.pending ≡ insert p.next_id r p.pending
      → Issue p q
  withdrawn :
      (r : PendingRequest)
      → q.next_id ≡ u64 (p.next_id + 1)
      → q.pending ≡ remove p.next_id (insert p.next_id r p.pending)
      → Issue p q

-- The telescope's side takes entries off.
pub data Move (p q : Proxy) : Type 0 where
  issue : Issue p q → Move p q
  answered : (rid : ℕ) → q.next_id ≡ p.next_id → q.pending ≡ remove rid p.pending → Move p q
  drained : q.next_id ≡ p.next_id → q.pending ≡ [] → Move p q

register-Issue :
    (env : Env) (client : ℕ) (id : Value) (text : Text) (p : Proxy)
    → Issue p (register env client p.next_id id text (record p { next_id = u64 (p.next_id + 1) })).0
unfolding register
register-Issue env client id text p =
    elim (Bool-cases (leb max_pending_requests (length p.pending))) [
      | inl full ↦ rw full (bumped refl refl)
      | inr room ↦ elim (Bool-cases env.upstream_open) [
        | inl up ↦ rw (room, up) (entered r (leb_false→lt _ _ room) refl refl)
        | inr down ↦ rw (room, down) (withdrawn r refl refl)
      ]
    ]
  where
    r : PendingRequest
    r = record { client = client; original_id = id }

forward_tracked-Issue :
    (env : Env) (client : ℕ) (msg id : Value) (p : Proxy)
    → Issue p (forward_tracked env client msg id p).0
unfolding forward_tracked
forward_tracked-Issue env client msg id p =
    elim (Option-cases (env.serde.to_string (set_json_rpc_id msg p.next_id))) [
      | inl e ↦ rw (e, forward_tracked) (bumped refl refl)
      | inr (text, e) ↦ rw (e, forward_tracked) (register-Issue env client id text p)
    ]

forward_notification-Issue :
    (env : Env) (msg : Value) (p : Proxy) → Issue p (forward_notification env msg p).0
unfolding forward_notification
forward_notification-Issue env msg p = elim (Option-cases (env.serde.to_string msg)) [
  | inl e ↦ rw (e, forward_notification) (same refl refl)
  | inr (text, e) ↦ elim (Bool-cases env.upstream_open) [
    | inl up ↦ rw (e, forward_notification) (rw up (same refl refl))
    | inr down ↦ rw (e, forward_notification) (rw down (same refl refl))
  ]
]

forward_request-Issue :
    (env : Env) (client : ℕ) (msg : Value) (p : Proxy)
    → Issue p (forward_request env client msg p).0
unfolding forward_request
forward_request-Issue env client msg p = elim (Option-cases (get_id msg)) [
  | inl e ↦ rw (e, forward_request) (forward_notification-Issue env msg p)
  | inr (id, e) ↦ rw (e, forward_request) (forward_tracked-Issue env client msg id p)
]

apply_action-Issue :
    (env : Env) (client : ℕ) (t : Text) (msg : Value) (a : HookAction) (p : Proxy)
    → Issue p (apply_action env client t msg a p).0
unfolding apply_action send_reply
apply_action-Issue env client t msg forward p = forward_request-Issue env client msg p
apply_action-Issue env client t msg block p = same refl refl
apply_action-Issue env client t msg (modify j) p = forward_request-Issue env client _ p
apply_action-Issue env client t msg (reply j) p = elim (Bool-cases (is_panic (debug_slice env j))) [
  | inl e ↦ rw e (same refl refl)
  | inr e ↦ rw e (same refl refl)
]

-- What the metrics and the other fields hold plays no part.
Issue-from :
    {p p' q : Proxy} → p'.next_id ≡ p.next_id → p'.pending ≡ p.pending → Issue p' q → Issue p q
Issue-from e f (same n m) = same (n ∙ e) (m ∙ f)
Issue-from e f (bumped n m) = bumped (n ∙ ap (λ k. u64 (k + 1)) e) (m ∙ f)
Issue-from e f (entered r l n m) =
    entered r (subst (λ x. length x < max_pending_requests) f l) (n ∙ ap (λ k. u64 (k + 1)) e)
      (m ∙ ap₂ (λ k x. insert k r x) e f)
Issue-from e f (withdrawn r n m) =
    withdrawn r (n ∙ ap (λ k. u64 (k + 1)) e) (m ∙ ap₂ (λ k x. remove k (insert k r x)) e f)

handle_text-Issue :
    (env : Env) (client : ℕ) (t : Text) (p : Proxy) → Issue p (handle_text env client t p).0
unfolding handle_text
handle_text-Issue env client t p = elim (Option-cases (env.serde.from_str t)) [
  | inl e ↦ rw (e, handle_text) (same refl refl)
  | inr (msg, e) ↦
      rw (e, handle_text) (apply_action-Issue env client t msg (request_action env msg) p)
]

pub handle_line-Issue :
    (env : Env) (client : ℕ) (line : Bytes) (p : Proxy) → Issue p (handle_line env client line p).0
unfolding handle_line handle_trimmed note_request
handle_line-Issue env client line p = elim (Bool-cases (ltb max_line_bytes (length line))) [
  | inl long ↦ rw long (same refl refl)
  | inr short ↦ rw short (on_trimmed (trim (from_utf8_lossy line)))
]
  where
    on_trimmed : (t : Text) → Issue p (handle_trimmed env client t p).0
    on_trimmed [] = same refl refl
    on_trimmed (c ∷ cs) =
        Issue-from refl refl (handle_text-Issue env client (c ∷ cs) (note_request env (c ∷ cs) p))

-- A message that is no event takes the entry of its id off the map.
abbrev removed : Value → PendingMap → PendingMap
removed msg m =
    if is_event msg then m else elim (json_rpc_id msg) [ none ↦ m | some rid ↦ remove rid m ]

abbrev pub removed_by : Option Value → PendingMap → PendingMap
removed_by none m = m
removed_by (some msg) m = removed msg m

-- The counter stays and the map loses what the message takes.
abbrev Loses : Option Value → Proxy → Proxy → Type 0
Loses msg p q = (q.next_id ≡ p.next_id) × (q.pending ≡ removed_by msg p.pending)

update_table-Loses : (env : Env) (msg : Value) (p : Proxy) → Loses none p (update_table env msg p)
unfolding update_table
update_table-Loses env msg p = elim (Option-cases env.hooks) [
  | inl e ↦ rw (e, update_table) (refl, refl)
  | inr (h, e) ↦ rw (e, update_table) (refl, refl)
]

handle_response-Loses :
    (env : Env) (t : Text) (msg : Value) (rid : ℕ) (p : Proxy)
    → let q = (handle_response env t msg rid p).0 in
      (q.next_id ≡ p.next_id) × (q.pending ≡ remove rid p.pending)
unfolding handle_response deliver handle_untracked count_response note_response
handle_response-Loses env t msg rid p = elim (Option-cases (lookup rid p.pending)) [
  | inl e ↦ rw (e, handle_response) (refl, refl)
  | inr (r, e) ↦ rw (e, handle_response) (refl, refl)
]

classify-Loses :
    (env : Env) (t : Text) (msg : Value) (p : Proxy) → Loses (some msg) p (classify env t msg p).0
unfolding classify handle_event note_event
classify-Loses env t msg p = elim (Bool-cases (is_event msg)) [
  | inl e ↦ rw (e, classify) (update_table-Loses env msg p)
  | inr e ↦ elim (Option-cases (json_rpc_id msg)) [
    | inl f ↦ rw (e, f, classify) (refl, refl)
    | inr (rid, f) ↦ rw (e, f, classify) (handle_response-Loses env t msg rid p)
  ]
]

handle_parsed-Loses :
    (env : Env) (t : Text) (p : Proxy) → Loses (env.serde.from_str t) p (handle_parsed env t p).0
unfolding handle_parsed
handle_parsed-Loses env t p = elim (Option-cases (env.serde.from_str t)) [
  | inl e ↦ rw (e, handle_parsed) (refl, refl)
  | inr (msg, e) ↦ rw (e, handle_parsed) (classify-Loses env t msg p)
]

abbrev shown : Env → Text → Option Value
shown env [] = none
shown env (c ∷ cs) = if can_hint (c ∷ cs) then env.serde.from_str (c ∷ cs) else none

handle_trimmed-Loses :
    (env : Env) (t : Text) (p : Proxy) → Loses (shown env t) p (Upstream.handle_trimmed env t p).0
unfolding Upstream.handle_trimmed
handle_trimmed-Loses env [] p = (refl, refl)
handle_trimmed-Loses env (c ∷ cs) p = elim (Bool-cases (can_hint (c ∷ cs))) [
  | inl e ↦ rw e (handle_parsed-Loses env (c ∷ cs) (record p { handshake_done = true }))
  | inr e ↦ rw e (refl, refl)
]

-- A line of the telescope takes at most the entry that it answers, and leaves the counter.
pub handle_message-Loses :
    (env : Env) (line : Bytes) (p : Proxy) → Loses (parsed env line) p (handle_message env line p).0
unfolding handle_message
handle_message-Loses env line p = handle_trimmed-Loses env (trim (from_utf8_lossy line)) p

Loses-Move : (msg : Option Value) (p q : Proxy) → Loses msg p q → Move p q
Loses-Move none p q (n, m) = issue (same n m)
Loses-Move (some msg) p q (n, m) = elim (Bool-cases (is_event msg)) [
  | inl e ↦ issue (same n (rw e at m))
  | inr e ↦ elim (Option-cases (json_rpc_id msg)) [
    | inl f ↦ issue (same n (rw (e, f) at m))
    | inr (rid, f) ↦ answered rid n (rw (e, f) at m)
  ]
]

pub heartbeat-Issue : (env : Env) (p : Proxy) → Issue p (heartbeat env p).0
unfolding heartbeat
heartbeat-Issue env p =
    if_lem (λ (o : Outcome). Issue p o.0) p.handshake_done (λ _. bumped refl refl)
      (λ _. same refl refl)

-- Every step is one of the moves.
pub step-Move : (op : Op) (p : Proxy) → Move p (step op p).0
unfolding step set_upstream_up reconnect
step-Move (client_line env client line) p = issue (handle_line-Issue env client line p)
step-Move (telescope_line env line) p =
    Loses-Move (parsed env line) p _ (handle_message-Loses env line p)
step-Move (heartbeats env) p = issue (heartbeat-Issue env p)
step-Move (reconnects env) p = drained refl refl
step-Move (reader_up up) p = issue (same refl refl)
