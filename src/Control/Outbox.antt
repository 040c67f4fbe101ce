-- ===== src/Control/Outbox.antt =====
-- src/control.rs: the writer task of `handle_client`, with the client's own channel and its receiver of
-- the broadcast channel.
pub mod Delivery
use seestar_proxy.Base.{
  ℕ, ◌+◌, ◌-◌, Bool, true, false, List, [], ◌∷◌, ◌++◌, if◌then◌else◌, length, take, drop, ltb,
}
use seestar_proxy.Base.Text.{Text}
use seestar_proxy.Control.Channel.{as_line}

-- The capacity of the broadcast channel.
abbrev pub event_capacity : ℕ
event_capacity = 256

pub record Outbox : Type 0 where
  pub responses : List Text
  pub events : List Text
  pub running : Bool

-- A message into one of the channels; the arm of the `select!` that is taken, with whether the write
-- goes well; and the abort when the read loop is over.
pub data Event : Type 0 where
  respond broadcast : Text → Event
  take_response take_event : (written : Bool) → Event
  aborted : Event

-- A line to the client, a message whose write fails, and the events that a slow client misses.
pub data Out : Type 0 where
  wrote_response wrote_event : Text → Out
  failed_response failed_event : Text → Out
  lagged : List Text → Out

unfoldable pub write_response : Bool → List Text → Outbox → Outbox × List Out
write_response written [] o = (o, [])
write_response written (t ∷ ts) o =
    if written
    then (record o { responses = ts }, wrote_response (as_line t) ∷ [])
    else (record o { responses = ts; running = false }, failed_response t ∷ [])

unfoldable pub write_event : Bool → List Text → Outbox → Outbox × List Out
write_event written [] o = (o, [])
write_event written (t ∷ ts) o =
    if written
    then (record o { events = ts }, wrote_event (as_line t) ∷ [])
    else (record o { events = ts; running = false }, failed_event t ∷ [])

-- A receiver that is more than the capacity behind is told so first, and goes on with the oldest
-- message that is still there.
unfoldable pub receive_event : Bool → Outbox → Outbox × List Out
unfolding write_event
receive_event written o =
    if ltb event_capacity (length o.events)
    then (
      record o { events = drop (length o.events - event_capacity) o.events },
      lagged (take (length o.events - event_capacity) o.events) ∷ [],
    )
    else write_event written o.events o

unfoldable pub turn : Event → Outbox → Outbox × List Out
unfolding write_response receive_event
turn (respond t) o = (record o { responses = o.responses ++ t ∷ [] }, [])
turn (broadcast t) o = (record o { events = o.events ++ t ∷ [] }, [])
turn (take_response written) o = if o.running then write_response written o.responses o else (o, [])
turn (take_event written) o = if o.running then receive_event written o else (o, [])
turn aborted o = (record o { running = false }, [])

unfoldable pub run : List Event → Outbox → Outbox × List Out
unfolding turn
run [] o = (o, [])
run (e ∷ es) o = let (o', out) = turn e o in let (o'', more) = run es o' in (o'', out ++ more)
