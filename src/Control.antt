-- ===== src/Control.antt =====
-- src/control.rs: the control proxy as functions from the shared state to the new state, the
-- messages that it sends, and how the task goes on. One line of a client, one line of the
-- telescope, one heartbeat and one reconnection are one step each.
pub mod Pending
pub mod State
pub mod Client
pub mod Session
pub mod Upstream
pub mod Steps
pub mod Frames
pub mod Invariant
pub mod Routing
pub mod Delivery
pub mod Reconnection
pub mod Panics
pub mod Accept
pub mod Channel
pub mod Writer
pub mod Outbox
