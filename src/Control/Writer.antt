-- ===== src/Control/Writer.antt =====
-- src/control.rs: the upstream task of `run` with the channel that the clients, the heartbeat and the
-- hooks fill. The listener keeps a sender, so the channel is open as long as the task lives: a panic
-- of the task drops its receiver, the messages in the channel with it, and every later send fails. A
-- send into a full channel waits, and its step is over when there is room.
pub mod Order
pub mod Late
use seestar_proxy.Base.{ℕ, Bool, true, false, not, ◌&&◌, List, [], ◌∷◌, ◌++◌, map, if◌then◌else◌}
use seestar_proxy.Base.Text.{Bytes, Text, codes, can_slice}
use seestar_proxy.Control.State.{Proxy, Env, Effect, recorded, to_telescope, to_client, to_all}
use seestar_proxy.Control.Steps.{
  Op, client_line, telescope_line, heartbeats, reconnects, reader_up, step,
}

-- The task tries to connect, or writes, or has panicked.
pub data Phase : Type 0 where
  connecting writing crashed : Phase

pub record Link : Type 0 where
  pub proxy : Proxy
  pub queue : List Text
  pub phase : Phase

-- What happens outside: an effect of a step, a message that is written with its line end, a message
-- that has left the channel and is not written, and the messages that a panic of the task drops.
pub data Out : Type 0 where
  shared : Effect → Out
  wrote lost : Text → Out
  dropped : List Text → Out

-- A step of another task; a hook's `telescope.send`; the connection made; the loop taking a message,
-- whose write succeeds or fails; and the reader's signal.
pub data Event : Type 0 where
  client_sends : Env → ℕ → Bytes → Event
  telescope_sends : Env → Bytes → Event
  heartbeat_due : Env → Event
  reader_flag : Bool → Event
  injected : Text → Event
  connected : Env → Event
  took : (debug_on written : Bool) → Event
  reader_dead : Event

-- The messages of the effects for the channel.
abbrev pub queued : List Effect → List Text
queued [] = []
queued (to_telescope t ∷ es) = t ∷ queued es
queued (recorded s t ∷ es) = queued es
queued (to_client c t ∷ es) = queued es
queued (to_all t ∷ es) = queued es

unfoldable pub act : Op → Link → Link × List Out
unfolding step
act op l =
    let (p, es, flow) = step op l.proxy in
    (record l { proxy = p; queue = l.queue ++ queued es }, map shared es)

-- One arm of the `select!` of the write loop.
unfoldable pub write : (debug_on written : Bool) → List Text → Link → Link × List Out
unfolding can_slice
write debug_on written [] l = (l, [])
write debug_on written (msg ∷ msgs) l =
    if debug_on && not (can_slice 200 msg)
    then (record l { queue = []; phase = crashed }, dropped (msg ∷ msgs) ∷ [])
    else if written
    then (record l { queue = msgs }, wrote (msg ++ codes "\r\n") ∷ [])
    else (record l { queue = msgs; phase = connecting }, lost msg ∷ [])

-- The receiver of the channel is there until the task panics.
abbrev pub open_channel : Phase → Bool
open_channel connecting = true
open_channel writing = true
open_channel crashed = false

abbrev pub seen : Env → Phase → Env
seen env p = record env { upstream_open = open_channel p }

unfoldable pub turn : Event → Link → Link × List Out
unfolding act write
turn (client_sends env client line) l = act (client_line (seen env l.phase) client line) l
turn (telescope_sends env line) l = act (telescope_line env line) l
turn (heartbeat_due env) l = act (heartbeats (seen env l.phase)) l
turn (reader_flag up) l = act (reader_up up) l
turn (injected t) l =
    if open_channel l.phase
    then (record l { queue = l.queue ++ t ∷ [] }, shared (to_telescope t) ∷ [])
    else (l, [])
turn (connected env) l = elim l.phase [
  | connecting ↦ act (reconnects env) (record l { phase = writing })
  | writing ↦ (l, [])
  | crashed ↦ (l, [])
]
turn (took debug_on written) l = elim l.phase [
  | connecting ↦ (l, [])
  | writing ↦ write debug_on written l.queue l
  | crashed ↦ (l, [])
]
turn reader_dead l = elim l.phase [
  | connecting ↦ (l, [])
  | writing ↦ (record l { phase = connecting }, [])
  | crashed ↦ (l, [])
]

unfoldable pub run : List Event → Link → Link × List Out
unfolding turn
run [] l = (l, [])
run (e ∷ es) l = let (l', out) = turn e l in let (l'', more) = run es l' in (l'', out ++ more)
