-- ===== src/Tests/Outbox.antt =====
-- src/control.rs: a response and two events to one client.
use seestar_proxy.Base.{◌+◌, ◌≤◌, ◌≡◌, refl, true, false, List, [], ◌∷◌, ◌++◌, replicate, length}
use seestar_proxy.Base.Text.{codes}
use seestar_proxy.Control.Channel.{as_lines}
use seestar_proxy.Control.Outbox.{
  Outbox, Event, respond, broadcast, take_response, take_event, wrote_response, wrote_event,
  failed_event, run, receive_event,
}
use seestar_proxy.Control.Outbox.Delivery.{responses_out, events_out, failures, active, run-kept}

abbrev outbox : Outbox
outbox = record { responses = []; events = codes "up" ∷ []; running = true }

abbrev turns : List Event
turns =
    respond (codes "yes")
    ∷ take_event true
    ∷ take_response true
    ∷ broadcast (codes "down")
    ∷ take_event false
    ∷ []

run-kept_example :
    let (o', outs) = run turns outbox in
    (responses_out outs ++ as_lines o'.responses ≡ as_lines (codes "yes" ∷ []))
    × (events_out outs ++ as_lines o'.events ≡ as_lines (codes "up" ∷ codes "down" ∷ []))
    × (failures outs + active o'.running ≤ 1)
run-kept_example = run-kept turns outbox

written_in_turn :
    (run turns outbox).1
    ≡ wrote_event (codes "up\r\n")
      ∷ wrote_response (codes "yes\r\n")
      ∷ failed_event (codes "down")
      ∷ []
unfolding run
written_in_turn = refl

-- A client that is 300 events behind misses 44.
behind :
    length (receive_event true (record outbox { events = replicate 300 (codes "e") })).0.events
    ≡ 256
unfolding receive_event
behind = refl
