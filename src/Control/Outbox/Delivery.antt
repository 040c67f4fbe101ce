-- ===== src/Control/Outbox/Delivery.antt =====
-- src/control.rs: a client gets its responses and the events, each channel in its order.
use seestar_proxy.Base.{
  ℕ, ◌+◌, ◌≤◌, arith, ◌-◌, ◌≡◌, refl, sym, ap, ◌∙◌, Bool, true, false, List, [], ◌∷◌, ◌++◌,
  if◌then◌else◌, if_lem, length, take, drop, take-append-drop, ltb, append_assoc, append-nil,
}
use seestar_proxy.Base.Text.{Text}
use seestar_proxy.Control.Channel.{as_line, as_lines, as_lines-append, chain}
use seestar_proxy.Control.Outbox.{
  event_capacity, Outbox, Event, respond, broadcast, take_response, take_event, aborted, Out,
  wrote_response, wrote_event, failed_response, failed_event, lagged, write_response, write_event,
  receive_event, turn, run,
}

-- The messages that come into the two channels.
abbrev pub responses_in : List Event → List Text
responses_in [] = []
responses_in (respond t ∷ es) = t ∷ responses_in es
responses_in (_ ∷ es) = responses_in es

abbrev pub events_in : List Event → List Text
events_in [] = []
events_in (broadcast t ∷ es) = t ∷ events_in es
events_in (_ ∷ es) = events_in es

-- The lines that leave them, written or not.
abbrev pub responses_out : List Out → List Text
responses_out [] = []
responses_out (wrote_response line ∷ os) = line ∷ responses_out os
responses_out (failed_response t ∷ os) = as_line t ∷ responses_out os
responses_out (_ ∷ os) = responses_out os

abbrev pub events_out : List Out → List Text
events_out [] = []
events_out (wrote_event line ∷ os) = line ∷ events_out os
events_out (failed_event t ∷ os) = as_line t ∷ events_out os
events_out (lagged ts ∷ os) = as_lines ts ++ events_out os
events_out (_ ∷ os) = events_out os

abbrev pub failures : List Out → ℕ
failures [] = 0
failures (failed_response _ ∷ os) = 1 + failures os
failures (failed_event _ ∷ os) = 1 + failures os
failures (_ ∷ os) = failures os

abbrev pub active : Bool → ℕ
active b = if b then 1 else 0

responses_out-append :
    (os ps : List Out) → responses_out (os ++ ps) ≡ responses_out os ++ responses_out ps
responses_out-append [] ps = refl
responses_out-append (wrote_response t ∷ os) ps = ap (◌∷◌ t) (responses_out-append os ps)
responses_out-append (failed_response t ∷ os) ps = ap (◌∷◌ (as_line t)) (responses_out-append os ps)
responses_out-append (wrote_event t ∷ os) ps = responses_out-append os ps
responses_out-append (failed_event t ∷ os) ps = responses_out-append os ps
responses_out-append (lagged ts ∷ os) ps = responses_out-append os ps

events_out-append : (os ps : List Out) → events_out (os ++ ps) ≡ events_out os ++ events_out ps
events_out-append [] ps = refl
events_out-append (wrote_event t ∷ os) ps = ap (◌∷◌ t) (events_out-append os ps)
events_out-append (failed_event t ∷ os) ps = ap (◌∷◌ (as_line t)) (events_out-append os ps)
events_out-append (lagged ts ∷ os) ps =
    ap (λ r. as_lines ts ++ r) (events_out-append os ps)
    ∙ sym (append_assoc (as_lines ts) (events_out os) (events_out ps))
events_out-append (wrote_response t ∷ os) ps = events_out-append os ps
events_out-append (failed_response t ∷ os) ps = events_out-append os ps

failures-append : (os ps : List Out) → failures (os ++ ps) ≡ failures os + failures ps
failures-append [] ps = omega arith
failures-append (wrote_event t ∷ os) ps = failures-append os ps
failures-append (failed_event t ∷ os) ps = omega (arith, failures-append os ps)
failures-append (lagged ts ∷ os) ps = failures-append os ps
failures-append (wrote_response t ∷ os) ps = failures-append os ps
failures-append (failed_response t ∷ os) ps = omega (arith, failures-append os ps)

-- What a step from `o` keeps, with the messages that come.
abbrev Keeps : List Text → List Text → Outbox → Outbox × List Out → Type 0
Keeps rs vs o (o', os) =
    (responses_out os ++ as_lines o'.responses ≡ as_lines (o.responses ++ rs))
    × (events_out os ++ as_lines o'.events ≡ as_lines (o.events ++ vs))
    × (failures os + active o'.running ≤ active o.running)

idle-Keeps : (o : Outbox) → Keeps [] [] o (o, [])
idle-Keeps o = (
  ap as_lines (sym (append-nil o.responses)),
  ap as_lines (sym (append-nil o.events)),
  omega arith,
)

write_response-Keeps :
    (written : Bool) (ts : List Text) (o : Outbox)
    → o.responses ≡ ts
    → o.running ≡ true
    → Keeps [] [] o (write_response written ts o)
unfolding write_response
write_response-Keeps written [] o e r = idle-Keeps o
write_response-Keeps true (t ∷ ts) o e r = (
  ap as_lines (sym e ∙ sym (append-nil o.responses)),
  ap as_lines (sym (append-nil o.events)),
  omega arith,
)
write_response-Keeps false (t ∷ ts) o e r = (
  ap as_lines (sym e ∙ sym (append-nil o.responses)),
  ap as_lines (sym (append-nil o.events)),
  omega (arith, ap active r),
)

write_event-Keeps :
    (written : Bool) (ts : List Text) (o : Outbox)
    → o.events ≡ ts
    → o.running ≡ true
    → Keeps [] [] o (write_event written ts o)
unfolding write_event
write_event-Keeps written [] o e r = idle-Keeps o
write_event-Keeps true (t ∷ ts) o e r = (
  ap as_lines (sym (append-nil o.responses)),
  ap as_lines (sym e ∙ sym (append-nil o.events)),
  omega arith,
)
write_event-Keeps false (t ∷ ts) o e r = (
  ap as_lines (sym (append-nil o.responses)),
  ap as_lines (sym e ∙ sym (append-nil o.events)),
  omega (arith, ap active r),
)

receive_event-Keeps :
    (written : Bool) (o : Outbox) → o.running ≡ true → Keeps [] [] o (receive_event written o)
unfolding receive_event
receive_event-Keeps written o r =
    if_lem (Keeps [] [] o) (ltb event_capacity (length o.events))
      (λ _.
        let n = length o.events - event_capacity in
        (
          ap as_lines (sym (append-nil o.responses)),
          ap (λ x. x ++ as_lines (drop n o.events)) (append-nil (as_lines (take n o.events)))
              ∙ sym (as_lines-append (take n o.events) (drop n o.events))
              ∙ ap as_lines (take-append-drop n o.events ∙ sym (append-nil o.events)),
          omega arith,
        ))
      (λ _. write_event-Keeps written o.events o refl r)

turn-Keeps :
    (e : Event) (o : Outbox) → Keeps (responses_in (e ∷ [])) (events_in (e ∷ [])) o (turn e o)
unfolding turn
turn-Keeps (respond t) o = (refl, ap as_lines (sym (append-nil o.events)), omega arith)
turn-Keeps (broadcast t) o = (ap as_lines (sym (append-nil o.responses)), refl, omega arith)
turn-Keeps (take_response written) o =
    if_lem (Keeps [] [] o) o.running (write_response-Keeps written o.responses o refl)
      (λ _. idle-Keeps o)
turn-Keeps (take_event written) o =
    if_lem (Keeps [] [] o) o.running (receive_event-Keeps written o) (λ _. idle-Keeps o)
turn-Keeps aborted o = (
  ap as_lines (sym (append-nil o.responses)),
  ap as_lines (sym (append-nil o.events)),
  omega arith,
)

responses_in-cons :
    (e : Event) (es : List Event) → responses_in (e ∷ []) ++ responses_in es ≡ responses_in (e ∷ es)
responses_in-cons (respond t) es = refl
responses_in-cons (broadcast t) es = refl
responses_in-cons (take_response written) es = refl
responses_in-cons (take_event written) es = refl
responses_in-cons aborted es = refl

events_in-cons :
    (e : Event) (es : List Event) → events_in (e ∷ []) ++ events_in es ≡ events_in (e ∷ es)
events_in-cons (respond t) es = refl
events_in-cons (broadcast t) es = refl
events_in-cons (take_response written) es = refl
events_in-cons (take_event written) es = refl
events_in-cons aborted es = refl

-- A client gets what is put into its channel and what is broadcast, each in its order and each message
-- as one line, however the two are taken in turn: the lines that have left a channel, written, failed
-- or missed by a slow client, and those that wait are what has come into it. At most one write fails,
-- for the task ends with it.
pub run-kept :
    (es : List Event) (o : Outbox)
    → let (o', outs) = run es o in
      (responses_out outs ++ as_lines o'.responses ≡ as_lines (o.responses ++ responses_in es))
      × (events_out outs ++ as_lines o'.events ≡ as_lines (o.events ++ events_in es))
      × (failures outs + active o'.running ≤ active o.running)
unfolding run
run-kept [] o = idle-Keeps o
run-kept (e ∷ es) o =
    let a = turn e o in
    let b = run es a.0 in
    let (r, v, f) = turn-Keeps e o in
    let (r', v', f') = run-kept es a.0 in
    (
      ap (λ g. g ++ as_lines b.0.responses) (responses_out-append a.1 b.1)
          ∙ chain o.responses a.0.responses b.0.responses (responses_in (e ∷ [])) (responses_in es)
              (responses_out a.1) (responses_out b.1) r r'
          ∙ ap (λ n. as_lines (o.responses ++ n)) (responses_in-cons e es),
      ap (λ g. g ++ as_lines b.0.events) (events_out-append a.1 b.1)
          ∙ chain o.events a.0.events b.0.events (events_in (e ∷ [])) (events_in es)
              (events_out a.1) (events_out b.1) v v'
          ∙ ap (λ n. as_lines (o.events ++ n)) (events_in-cons e es),
      omega (arith, f, f', failures-append a.1 b.1),
    )
