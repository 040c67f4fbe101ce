-- ===== src/Control/Writer/Order.antt =====
-- src/control.rs: the order in which messages reach the telescope, and how many a connection loses.
use seestar_proxy.Base.{
  ℕ, ◌+◌, ◌≤◌, ◌≡◌, refl, sym, ap, ◌∙◌, Bool, not, ◌&&◌, Bool-cases, inl, inr, ◌⊎◌, List, [], ◌∷◌,
  ◌++◌, map, arith, append_assoc, append-nil,
}
use seestar_proxy.Base.Text.{Text, can_slice}
use seestar_proxy.Control.State.{Effect, recorded, to_telescope, to_client, to_all}
use seestar_proxy.Control.Channel.{as_line, as_lines, chain}
use seestar_proxy.Control.Steps.{
  Op, step, reconnects, client_line, telescope_line, heartbeats, reader_up,
}
use seestar_proxy.Control.Writer.{
  Phase, connecting, writing, crashed, Link, Out, shared, wrote, lost, dropped, open_channel, seen,
  Event, client_sends, telescope_sends, heartbeat_due, reader_flag, injected, connected, took,
  reader_dead, queued, act, write, turn, run,
}

-- The messages that come into the channel, and the lines that it has given away, written, lost or
-- dropped.
abbrev pub entered : List Out → List Text
entered [] = []
entered (shared e ∷ os) = queued (e ∷ []) ++ entered os
entered (wrote _ ∷ os) = entered os
entered (lost _ ∷ os) = entered os
entered (dropped _ ∷ os) = entered os

abbrev pub gone : List Out → List Text
gone [] = []
gone (shared _ ∷ os) = gone os
gone (wrote line ∷ os) = line ∷ gone os
gone (lost t ∷ os) = as_line t ∷ gone os
gone (dropped ts ∷ os) = as_lines ts ++ gone os

abbrev pub losses : List Out → ℕ
losses [] = 0
losses (shared _ ∷ os) = losses os
losses (wrote _ ∷ os) = losses os
losses (lost _ ∷ os) = 1 + losses os
losses (dropped _ ∷ os) = losses os

-- How often the task has panicked.
abbrev pub crashes : List Out → ℕ
crashes [] = 0
crashes (shared _ ∷ os) = crashes os
crashes (wrote _ ∷ os) = crashes os
crashes (lost _ ∷ os) = crashes os
crashes (dropped _ ∷ os) = 1 + crashes os

abbrev pub connects : List Event → ℕ
connects [] = 0
connects (connected _ ∷ es) = 1 + connects es
connects (_ ∷ es) = connects es

abbrev pub open_links : Phase → ℕ
open_links connecting = 0
open_links writing = 1
open_links crashed = 0

abbrev pub alive : Phase → ℕ
alive connecting = 1
alive writing = 1
alive crashed = 0

entered-append : (os ps : List Out) → entered (os ++ ps) ≡ entered os ++ entered ps
entered-append [] ps = refl
entered-append (shared e ∷ os) ps =
    ap (◌++◌ (queued (e ∷ []))) (entered-append os ps)
    ∙ sym (append_assoc (queued (e ∷ [])) (entered os) (entered ps))
entered-append (wrote _ ∷ os) ps = entered-append os ps
entered-append (lost _ ∷ os) ps = entered-append os ps
entered-append (dropped _ ∷ os) ps = entered-append os ps

gone-append : (os ps : List Out) → gone (os ++ ps) ≡ gone os ++ gone ps
gone-append [] ps = refl
gone-append (shared e ∷ os) ps = gone-append os ps
gone-append (wrote line ∷ os) ps = ap (◌∷◌ line) (gone-append os ps)
gone-append (lost t ∷ os) ps = ap (◌∷◌ (as_line t)) (gone-append os ps)
gone-append (dropped ts ∷ os) ps =
    ap (◌++◌ (as_lines ts)) (gone-append os ps)
    ∙ sym (append_assoc (as_lines ts) (gone os) (gone ps))

losses-append : (os ps : List Out) → losses (os ++ ps) ≡ losses os + losses ps
losses-append [] ps = omega arith
losses-append (shared e ∷ os) ps = losses-append os ps
losses-append (wrote line ∷ os) ps = losses-append os ps
losses-append (lost t ∷ os) ps = omega (arith, losses-append os ps)
losses-append (dropped ts ∷ os) ps = losses-append os ps

crashes-append : (os ps : List Out) → crashes (os ++ ps) ≡ crashes os + crashes ps
crashes-append [] ps = omega arith
crashes-append (shared e ∷ os) ps = crashes-append os ps
crashes-append (wrote line ∷ os) ps = crashes-append os ps
crashes-append (lost t ∷ os) ps = crashes-append os ps
crashes-append (dropped ts ∷ os) ps = omega (arith, crashes-append os ps)

connects-cons : (e : Event) (es : List Event) → connects (e ∷ es) ≡ connects (e ∷ []) + connects es
connects-cons (client_sends _ _ _) es = omega arith
connects-cons (telescope_sends _ _) es = omega arith
connects-cons (heartbeat_due _) es = omega arith
connects-cons (reader_flag _) es = omega arith
connects-cons (injected _) es = omega arith
connects-cons (connected _) es = omega arith
connects-cons (took _ _) es = omega arith
connects-cons reader_dead es = omega arith

-- What a turn from `l` to `l'` keeps, with `n` connections made.
abbrev Keeps : ℕ → Link → Link × List Out → Type 0
Keeps n l (l', os) =
    (gone os ++ as_lines l'.queue ≡ as_lines (l.queue ++ entered os))
    × (losses os + open_links l'.phase ≤ n + open_links l.phase)
    × (crashes os + alive l'.phase ≤ alive l.phase)

shared-entered : (es : List Effect) → entered (map shared es) ≡ queued es
shared-entered [] = refl
shared-entered (to_telescope t ∷ es) = ap (◌∷◌ t) (shared-entered es)
shared-entered (recorded s t ∷ es) = shared-entered es
shared-entered (to_client c t ∷ es) = shared-entered es
shared-entered (to_all t ∷ es) = shared-entered es

shared-gone : (es : List Effect) → gone (map shared es) ≡ []
shared-gone [] = refl
shared-gone (e ∷ es) = shared-gone es

shared-losses : (es : List Effect) → losses (map shared es) ≡ 0
shared-losses [] = refl
shared-losses (e ∷ es) = shared-losses es

shared-crashes : (es : List Effect) → crashes (map shared es) ≡ 0
shared-crashes [] = refl
shared-crashes (e ∷ es) = shared-crashes es

act-Keeps : (op : Op) (l : Link) → Keeps 0 l (act op l)
unfolding act
act-Keeps op l =
    let es = (step op l.proxy).1 in
    (
      ap (λ g. g ++ as_lines (l.queue ++ queued es)) (shared-gone es)
          ∙ ap (λ q. as_lines (l.queue ++ q)) (sym (shared-entered es)),
      omega (arith, shared-losses es),
      omega (arith, shared-crashes es),
    )

idle-Keeps : (n : ℕ) (l : Link) → Keeps n l (l, [])
idle-Keeps n l = (ap as_lines (sym (append-nil l.queue)), omega arith, omega arith)

write-Keeps :
    (debug_on written : Bool) (ts : List Text) (l : Link)
    → l.queue ≡ ts
    → l.phase ≡ writing
    → Keeps 0 l (write debug_on written ts l)
unfolding write
write-Keeps debug_on written [] l q w = idle-Keeps 0 l
write-Keeps debug_on written (t ∷ ts) l q w =
    let same : as_lines (t ∷ ts) ≡ as_lines (l.queue ++ []) =
      ap as_lines (sym q ∙ sym (append-nil l.queue)) in
    let more = ap open_links w in
    let living = ap alive w in
    elim (Bool-cases (debug_on && not (can_slice 200 t))) [
      | inl e ↦ rw e (
        append-nil (as_lines (t ∷ ts) ++ []) ∙ append-nil (as_lines (t ∷ ts)) ∙ same,
        omega (arith, more),
        omega (arith, living),
      )
      | inr e ↦ elim (Bool-cases written) [
        | inl f ↦ rw (e, f) (same, omega (arith, more), omega (arith, living))
        | inr f ↦ rw (e, f) (same, omega (arith, more), omega (arith, living))
      ]
    ]

Phase-cases :
    (p : Phase)
    → (p ≡ connecting) × (open_links p ≡ 0) × (alive p ≡ 1)
      ⊎ ((p ≡ writing) × (open_links p ≡ 1) × (alive p ≡ 1)
          ⊎ (p ≡ crashed) × (open_links p ≡ 0) × (alive p ≡ 0))
Phase-cases connecting = inl (refl, refl, refl)
Phase-cases writing = inr (inl (refl, refl, refl))
Phase-cases crashed = inr (inr (refl, refl, refl))

turn-Keeps : (e : Event) (l : Link) → Keeps (connects (e ∷ [])) l (turn e l)
unfolding turn
turn-Keeps (client_sends env client line) l =
    act-Keeps (client_line (seen env l.phase) client line) l
turn-Keeps (telescope_sends env line) l = act-Keeps (telescope_line env line) l
turn-Keeps (heartbeat_due env) l = act-Keeps (heartbeats (seen env l.phase)) l
turn-Keeps (reader_flag up) l = act-Keeps (reader_up up) l
turn-Keeps (injected t) l = elim (Bool-cases (open_channel l.phase)) [
  | inl e ↦ rw (turn, e) (refl, omega arith, omega arith)
  | inr e ↦ rw (turn, e) (ap as_lines (sym (append-nil l.queue)), omega arith, omega arith)
]
turn-Keeps (connected env) l = elim (Phase-cases l.phase) [
  | inl (e, o, a) ↦
      rw (turn, e)
        (let (order, few, once) = act-Keeps (reconnects env) (record l { phase = writing }) in
          (order, omega (arith, few, o), omega (arith, once, a)))
  | inr (inl (e, o, a)) ↦
      rw (turn, e) (ap as_lines (sym (append-nil l.queue)), omega (arith, o), omega (arith, a))
  | inr (inr (e, o, a)) ↦
      rw (turn, e) (ap as_lines (sym (append-nil l.queue)), omega (arith, o), omega (arith, a))
]
turn-Keeps (took debug_on written) l = elim (Phase-cases l.phase) [
  | inl (e, o, a) ↦
      rw (turn, e) (ap as_lines (sym (append-nil l.queue)), omega (arith, o), omega (arith, a))
  | inr (inl (e, o, a)) ↦
      rw (turn, e)
        (let (order, few, once) = write-Keeps debug_on written l.queue l refl e in
          (order, omega (arith, few, o), omega (arith, once, a)))
  | inr (inr (e, o, a)) ↦
      rw (turn, e) (ap as_lines (sym (append-nil l.queue)), omega (arith, o), omega (arith, a))
]
turn-Keeps reader_dead l = elim (Phase-cases l.phase) [
  | inl (e, o, a) ↦
      rw (turn, e) (ap as_lines (sym (append-nil l.queue)), omega (arith, o), omega (arith, a))
  | inr (inl (e, o, a)) ↦
      rw (turn, e) (ap as_lines (sym (append-nil l.queue)), omega (arith, o), omega (arith, a))
  | inr (inr (e, o, a)) ↦
      rw (turn, e) (ap as_lines (sym (append-nil l.queue)), omega (arith, o), omega (arith, a))
]

-- The messages of the clients, the heartbeat and the hooks leave the channel in the order in which
-- they came, each as one line, across any number of connections and whatever the tasks do: the lines
-- that have left, written, lost or dropped, and those still waiting, are the messages that have come.
-- A connection loses at most one of them by a failed write, and only a panic of the task drops more,
-- the message it has taken and all that wait, at most once.
pub run-order :
    (es : List Event) (l : Link)
    → let (l', outs) = run es l in
      (gone outs ++ as_lines l'.queue ≡ as_lines (l.queue ++ entered outs))
      × (losses outs + open_links l'.phase ≤ connects es + open_links l.phase)
      × (crashes outs + alive l'.phase ≤ alive l.phase)
unfolding run
run-order [] l = idle-Keeps 0 l
run-order (e ∷ es) l =
    let a = turn e l in
    let (one, few, once) = turn-Keeps e l in
    let (rest, few', once') = run-order es a.0 in
    (
      ap (λ g. g ++ as_lines (run es a.0).0.queue) (gone-append a.1 (run es a.0).1)
          ∙ chain l.queue a.0.queue (run es a.0).0.queue (entered a.1) (entered (run es a.0).1)
              (gone a.1) (gone (run es a.0).1) one rest
          ∙ ap (λ n. as_lines (l.queue ++ n)) (sym (entered-append a.1 (run es a.0).1)),
      omega (arith, few, few', losses-append a.1 (run es a.0).1, connects-cons e es),
      omega (arith, once, once', crashes-append a.1 (run es a.0).1),
    )
