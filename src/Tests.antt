-- ===== src/Tests.antt =====
-- Runs of the modelled code at concrete inputs, and instances of its theorems there.
mod Messages
mod Control
mod Lines
mod Imaging
mod Discovery
mod Sessions
mod Config
mod Metrics
mod Wireguard
mod Netstack
mod Tunnel
mod Dashboard
mod Accept
mod Writer
mod Replay
mod Outbox
mod Startup
mod Bridges
mod Hooks
mod Pairing
mod Probe
