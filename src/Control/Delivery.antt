-- ===== src/Control/Delivery.antt =====
-- src/control.rs: from a client's request to its answer, across whatever the other tasks do between.
use seestar_proxy.Base.{
  ℕ, suc, ◌+◌, ◌<◌, ◌≡◌, refl, ap, ◌∙◌, true, false, none, some, List, [], ◌∷◌, ◌++◌, arith, length,
  All, if◌then◌else◌, if_lem,
}
use seestar_proxy.Base.Text.{Bytes, Text, from_utf8_lossy, trim}
use seestar_proxy.Json.{Value}
use seestar_proxy.Protocol.{set_json_rpc_id_value}
use seestar_proxy.Metrics.{u64}
use seestar_proxy.Control.Pending.{lookup, lookup-remove_self, lookup-insert_self, lookup_above}
use seestar_proxy.Control.State.{
  Proxy, Env, to_client, to_all, from_telescope, Outcome, record_if, serialise,
  max_pending_requests,
}
use seestar_proxy.Control.Client.{handle_line}
use seestar_proxy.Control.Upstream.{handle_message, heartbeat, response_forwarded}
use seestar_proxy.Control.Steps.{Op, step, run, settles, client_line, heartbeats}
use seestar_proxy.Control.Invariant.{
  Inv, HasIds, u64-below, step-Inv, step-HasIds, step-keeps, step-none, step-next-le, run-Inv,
}
use seestar_proxy.Control.Routing.{Submits, owner, handle_line-Submits}
use seestar_proxy.Control.Routing.Answers.{
  Answers, handle_message-Answers, handle_message_untracked,
}

abbrev pub NoneSettles : ℕ → List Op → Type 0
NoneSettles rid = All (λ op. settles rid op ≡ false)

run-keeps :
    (ops : List Op) (p : Proxy) (rid : ℕ)
    → Inv p
    → HasIds (length ops) p
    → rid < p.next_id
    → NoneSettles rid ops
    → lookup rid (run ops p).0.pending ≡ lookup rid p.pending
unfolding run
run-keeps [] p rid v h lt n = refl
run-keeps (op ∷ ops) p rid v h lt n =
    run-keeps ops (step op p).0 rid (step-Inv op p (omega arith) v)
      (step-HasIds op p (length ops) h) (omega (arith, step-next-le op p (omega arith))) n.1
    ∙ step-keeps op p rid v lt n.0

run-none :
    (ops : List Op) (p : Proxy) (rid : ℕ)
    → Inv p
    → HasIds (length ops) p
    → rid < p.next_id
    → lookup rid p.pending ≡ none
    → lookup rid (run ops p).0.pending ≡ none
unfolding run
run-none [] p rid v h lt e = e
run-none (op ∷ ops) p rid v h lt e =
    run-none ops (step op p).0 rid (step-Inv op p (omega arith) v) (step-HasIds op p (length ops) h)
      (omega (arith, step-next-le op p (omega arith))) (step-none op p rid v lt e)

-- A request that the proxy takes on for a client waits under a fresh id through any steps that do
-- not settle it, whatever the other clients, the heartbeat and the telescope do. The telescope's
-- answer under that id is then put into that client's channel, and no other, with the client's own
-- id in place of the proxy's, and the request is off the map.
pub delivery :
    (env env' : Env) (client : ℕ) (line line' : Bytes) (msg id : Value) (text : Text)
    (answer : Value) (ops : List Op) (p : Proxy)
    → Inv p
    → HasIds (suc (length ops)) p
    → Submits env line msg id text p
    → length p.pending < max_pending_requests
    → env.upstream_open ≡ true
    → NoneSettles p.next_id ops
    → Answers env' line' answer p.next_id
    → env'.client_open client ≡ true
    → let q = (handle_line env client line p).0 in
      let (r, effects, flow) = handle_message env' line' (run ops q).0 in
      (effects
        ≡ record_if env' from_telescope (trim (from_utf8_lossy line'))
          ++ to_client client (serialise env' (set_json_rpc_id_value answer id)) ∷ [])
      × (lookup p.next_id r.pending ≡ none)
unfolding step
delivery env env' client line line' msg id text answer ops p v h s room up none_settles a
      reachable =
    let q = (handle_line env client line p).0 in
    let (entered, counted, _, _) = handle_line-Submits env client line msg id text p s room up in
    let op = client_line env client line in
    let q_inv : Inv q = step-Inv op p (omega arith) v in
    let q_ids : HasIds (length ops) q = step-HasIds op p (length ops) h in
    let waiting : lookup p.next_id (run ops q).0.pending ≡ some (owner client id) =
      run-keeps ops q p.next_id q_inv q_ids (omega (arith, u64-below p.next_id)) none_settles
      ∙ ap (lookup p.next_id) entered
      ∙ lookup-insert_self p.next_id (owner client id) p.pending in
    let (gone, sent, _) =
      handle_message-Answers env' line' answer p.next_id (owner client id) (run ops q).0 a
        waiting in
    (
      sent
          ∙ ap
              (λ b.
                record_if env' from_telescope (trim (from_utf8_lossy line'))
                ++ (if b
                    then to_client client (serialise env' (set_json_rpc_id_value answer id)) ∷ []
                    else []))
              reachable,
      ap (lookup p.next_id) gone
          ∙ lookup-remove_self p.next_id (run ops q).0.pending (run-Inv ops q q_ids q_inv).distinct,
    )

-- Once a request is off the map its id is dead: whatever the proxy does next, a further answer under
-- it is put into no client's channel, but is broadcast to all of them unless a hook blocks it.
pub no_second_delivery :
    (env : Env) (line : Bytes) (answer : Value) (rid : ℕ) (ops : List Op) (p : Proxy)
    → Inv p
    → HasIds (length ops) p
    → rid < p.next_id
    → lookup rid p.pending ≡ none
    → Answers env line answer rid
    → let t = trim (from_utf8_lossy line) in
      (handle_message env line (run ops p).0).1
      ≡ record_if env from_telescope t
        ++ (if response_forwarded env answer then to_all t ∷ [] else [])
no_second_delivery env line answer rid ops p v h lt gone a =
    handle_message_untracked env line answer rid (run ops p).0 a (run-none ops p rid v h lt gone)

heartbeat_lem :
    (env : Env) (p : Proxy)
    → p.handshake_done ≡ true
    → ((heartbeat env p).0.next_id ≡ u64 (p.next_id + 1))
      × ((heartbeat env p).0.pending ≡ p.pending)
unfolding heartbeat
heartbeat_lem env p h =
    if_lem (λ (o : Outcome). (o.0.next_id ≡ u64 (p.next_id + 1)) × (o.0.pending ≡ p.pending))
      p.handshake_done (λ _. (refl, refl)) (λ no_handshake. cc)

-- The telescope's answer to a heartbeat of the proxy, which no client sent, is broadcast to all
-- clients unless a hook blocks it.
pub heartbeat-broadcast :
    (env env' : Env) (line : Bytes) (answer : Value) (ops : List Op) (p : Proxy)
    → Inv p
    → HasIds (suc (length ops)) p
    → p.handshake_done ≡ true
    → Answers env' line answer p.next_id
    → let t = trim (from_utf8_lossy line) in
      (handle_message env' line (run ops (heartbeat env p).0).0).1
      ≡ record_if env' from_telescope t
        ++ (if response_forwarded env' answer then to_all t ∷ [] else [])
unfolding step
heartbeat-broadcast env env' line answer ops p v h done a =
    let (counted, kept) = heartbeat_lem env p done in
    no_second_delivery env' line answer p.next_id ops (heartbeat env p).0
      (step-Inv (heartbeats env) p (omega arith) v) (step-HasIds (heartbeats env) p (length ops) h)
      (omega (arith, u64-below p.next_id))
      (ap (lookup p.next_id) kept
        ∙ lookup_above p.next_id p.next_id p.pending v.issued (omega arith))
      a
