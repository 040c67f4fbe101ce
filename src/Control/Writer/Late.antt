-- ===== src/Control/Writer/Late.antt =====
-- src/control.rs: a request that waits in the channel while the telescope is not connected.
use seestar_proxy.Base.{
  ℕ, Bool-cases, inl, inr, ◌&&◌, ◌≡◌, refl, sym, ap, ap₂, ◌∙◌, Bool, true, false, List, [], ◌∷◌,
  ◌++◌, map, arith, if◌then◌else◌, length,
}
use seestar_proxy.Base.Text.{Bytes, Text, codes, can_slice, from_utf8_lossy, trim}
use seestar_proxy.Json.{Value}
use seestar_proxy.Control.Pending.{lookup, insert}
use seestar_proxy.Control.State.{
  Proxy, Env, to_telescope, to_client, to_all, from_client, from_telescope, record_if, serialise,
  reconnecting,
}
use seestar_proxy.Control.Steps.{step, reconnects, client_line}
use seestar_proxy.Control.Upstream.{reconnect, response_forwarded}
use seestar_proxy.Control.Routing.{Submits, owner, handle_line-Submits}
use seestar_proxy.Control.Routing.Answers.{Answers, handle_message_untracked}
use seestar_proxy.Control.Reconnection.{reconnect_lem, reachable}
use seestar_proxy.Control.Writer.{
  Link, connecting, writing, Out, shared, wrote, client_sends, telescope_sends, connected, took,
  queued, seen, turn, act, write, run,
}

-- The request comes while the task connects, the connection is made, and the request is written.
abbrev pub early : Env → Env → ℕ → Bytes → Bool → Link → Link × List Out
early env env' client line debug_on =
    run (client_sends env client line ∷ connected env' ∷ took debug_on true ∷ [])

queued-sent :
    (env : Env) (t text : Text)
    → queued (record_if env from_client t ++ to_telescope text ∷ []) ≡ text ∷ []
queued-sent env t text = elim (Bool-cases env.recording) [ inl e ↦ rw e refl | inr e ↦ rw e refl ]

seen-open : (env : Env) (b : Bool) → env.upstream_open ≡ b → record env { upstream_open = b } ≡ env
seen-open env b e = ap (λ c. record env { upstream_open = c }) (sym e)

-- While the task connects, a client's line is handled as `env` has it.
turn-sends :
    (env : Env) (client : ℕ) (line : Bytes) (l : Link)
    → env.upstream_open ≡ true
    → l.phase ≡ connecting
    → turn (client_sends env client line) l ≡ act (client_line env client line) l
unfolding turn
turn-sends env client line l up e =
    ap (λ p. act (client_line (seen env p) client line) l) e
    ∙ ap (λ v. act (client_line v client line) l) (seen-open env true up)

turn-connected :
    (env : Env) (l : Link)
    → l.phase ≡ connecting
    → turn (connected env) l ≡ act (reconnects env) (record l { phase = writing })
unfolding turn
turn-connected env l e = rw (turn, e) refl

turn-took :
    (debug_on : Bool) (t : Text) (l : Link)
    → l.phase ≡ writing
    → l.queue ≡ t ∷ []
    → can_slice 200 t ≡ true
    → (turn (took debug_on true) l).0.proxy ≡ l.proxy
      × ((turn (took debug_on true) l).1 ≡ wrote (t ++ codes "\r\n") ∷ [])
unfolding turn write
turn-took debug_on t l e q c = rw (turn, e, q, c, and_false debug_on) (refl, refl)
  where
    and_false : (b : Bool) → (b && false) ≡ false
    and_false true = refl
    and_false false = refl

-- The only request that waits is answered with an error.
reconnect-alone :
    (env : Env) (p : Proxy) (rid client : ℕ) (id : Value)
    → p.pending ≡ (rid, owner client id) ∷ []
    → env.client_open client ≡ true
    → env.client_room client ≡ true
    → (reconnect env p).1 ≡ to_client client (serialise env (reconnecting id)) ∷ []
reconnect-alone env p rid client id e reach room =
    let (_, _, _, sent) = reconnect_lem env p in
    sent
    ∙ ap
        (λ m.
          map (λ r. to_client r.client (serialise env (reconnecting r.original_id)))
            (reachable env m))
        e
    ∙ rw (reach, room) refl

module _ (env env' env'' : Env) (client : ℕ) (line line' : Bytes) where
  -- A request that the first client sends while the telescope is being connected is answered with an
  -- error, and is sent all the same: if nobody else waits and the channel is empty, the client is
  -- told `telescope reconnecting` when the connection is made, then its request is written, and the
  -- telescope's answer is broadcast to all clients, under an id that none of them has used, unless a
  -- hook blocks it.
  pub early-answered :
      (msg id : Value) (text : Text) (answer : Value) (debug_on : Bool) (l : Link)
      → l.phase ≡ connecting
      → l.queue ≡ []
      → l.proxy.pending ≡ []
      → (s : Submits env line msg id text l.proxy) → env.upstream_open ≡ true
      → env'.client_open client ≡ true
      → env'.client_room client ≡ true
      → can_slice 200 text ≡ true
      → Answers env'' line' answer l.proxy.next_id
      → let (l', outs) = early env env' client line debug_on l in
        let t = trim (from_utf8_lossy line') in
        (outs
          ≡ map shared (record_if env from_client (s.head ∷ s.tail) ++ to_telescope text ∷ [])
            ++ shared (to_client client (serialise env' (reconnecting id)))
              ∷ wrote (text ++ codes "\r\n")
              ∷ [])
        × ((turn (telescope_sends env'' line') l').1
            ≡ map shared (
                record_if env'' from_telescope t
                ++ (if response_forwarded env'' answer then to_all t ∷ [] else [])))
  unfolding run turn act step insert lookup
  early-answered msg id text answer debug_on l phase queue pending s up reach room c a =
      let (entered, _, sent, _) =
        handle_line-Submits env client line msg id text l.proxy s (omega (arith, ap length pending))
          up in
      let taken = turn-sends env client line l up phase in
      let l1 = (turn (client_sends env client line) l).0 in
      let waiting : l1.queue ≡ text ∷ [] =
        ap (λ x. x.0.queue) taken
        ∙ ap₂ ◌++◌ queue (ap queued sent ∙ queued-sent env (s.head ∷ s.tail) text) in
      let made = turn-connected env' l1 (ap (λ x. x.0.phase) taken ∙ phase) in
      let told =
        reconnect-alone env' l1.proxy l.proxy.next_id client id
          (ap (λ x. x.0.proxy.pending) taken
            ∙ entered
            ∙ ap (insert l.proxy.next_id (owner client id)) pending)
          reach room in
      let l2 = (turn (connected env') l1).0 in
      let still : l2.queue ≡ text ∷ [] =
        ap (λ x. x.0.queue) made ∙ ap₂ ◌++◌ waiting (ap queued told) in
      let (kept, written) = turn-took debug_on text l2 (ap (λ x. x.0.phase) made) still c in
      let cleared =
        ap (λ (q : Proxy). q.pending) (kept ∙ ap (λ x. x.0.proxy) made)
        ∙ (reconnect_lem env' l1.proxy).0 in
      let l3 = (turn (took debug_on true) l2).0 in
      (
        ap₂ ◌++◌ (ap (λ x. x.1) taken ∙ ap (map shared) sent)
            (ap₂ ◌++◌ (ap (λ x. x.1) made ∙ ap (map shared) told) (ap (λ w. w ++ []) written)),
        ap (map shared) (
            handle_message_untracked env'' line' answer l.proxy.next_id l3.proxy a
              (ap (lookup l.proxy.next_id) cleared)),
      )
