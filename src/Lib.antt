-- ===== src/Lib.antt =====
-- seestar-proxy: TCP proxy and multiplexer between one Seestar telescope and many clients.
--
-- The program. `src/control.rs` serves port 4700: it reads JSON lines from every client, gives each
-- request an id of its own, keeps who asked under that id, and routes the telescope's answer back
-- under the id that the client used; events, and answers that nobody waits for, go to all clients.
-- `src/imaging.rs` serves port 4800: it reads binary frames from the telescope and sends each to all
-- clients, and passes the clients' command lines on. `src/hooks.rs` lets Lua scripts block, change or
-- answer messages, `src/metrics.rs` counts and logs, and `src/wireguard` answers discovery, DNS and
-- ping packets inside a tunnel. `src/discovery.rs` answers discovery requests on the local network,
-- `src/recorder.rs` and `src/replay.rs` store a session and play it back, and `src/config.rs` layers a
-- file under the command line.
--
-- The files.
--   Base: shared names, Boolean tests, list lemmas; Base/Text has `String` as its UTF-8 characters,
--     with `from_utf8_lossy`, `trim`, `find` and the slices that panic inside a character.
--   Json: `serde_json::Value` and the accessors that the source calls. `from_str`, `to_string` and
--     the conversions of floats are parameters (Serde, Floats).
--   Protocol: `src/protocol.rs`. Metrics: `src/metrics.rs`. Hooks: `src/hooks.rs`, with the scripts'
--     answers as functions.
--   Lines: `read_line_limited` of `src/control.rs` and the line loop of its `upstream_reader_task`.
--   Control: `src/control.rs`. Control/State has the shared state (`next_id`, the pending map, the
--     handshake gate, the metrics); Control/Client is a line of `handle_client`; Control/Upstream is
--     a line of `upstream_reader_task`, the reset of `run` on a new connection, and its heartbeat;
--     Control/Session is the read loop of `handle_client` over all that a client sends;
--     Control/Steps makes them the steps of a run; Control/Writer is the upstream task of `run` with
--     its channel over these steps, Control/Outbox the writer task of a client, and Control/Accept the
--     accept loop. The other children hold proofs.
--   Imaging: `src/imaging.rs`. Imaging/Clients has the clients' side, Imaging/Accept the accept loop,
--     the other children proofs.
--   Discovery: `run` of `src/discovery.rs`, the bridge that answers discovery on the local network;
--     Discovery/Probe is what it starts with, `probe_upstream` and `fetch_device_info_tcp`.
--   Recorder: `src/recorder.rs`, which starts with the frame files that the directory holds already. Replay: `src/replay.rs`, with `load` in Replay/Load.
--   Dashboard: the handlers of `src/dashboard.rs`.
--   Config: `apply_file` of `src/config.rs`, with `load` in Config/Load. Startup: the choice of the mode
--     and the services in `src/main.rs`. Hooks/Loading: `new` and the hooks on clients.
--   Bridges: `raw_pipe` of `src/main.rs`, `src/wireguard/bridge.rs` and `src/tailscale`.
--   Pairing: `src/bin/ble_pair.rs`.
--   Wireguard: `src/wireguard/tunnel_discovery.rs` (Checksum, Packets, Discovery) and
--     `src/wireguard/dns.rs` (Dns); `src/wireguard/mod.rs`, its dispatch (Tunnel), its packet loop
--     (Tunnel/Loop) and its requests for the device information (DeviceInfo, with `client_config` of
--     `src/wireguard/qr.rs`); `src/wireguard/netstack.rs` (Netstack); `src/wireguard/keys.rs` (Keys).
--   Tests: every theorem with hypotheses at a concrete input.
--
-- Modelling. A step returns the new state, the list of what it sends or records, and how its task
-- goes on; a panic and an early return are such ways. A panic of the upstream task drops its channel. Tasks interleave as sequences of steps: a step
-- is one line of a client or of the telescope, so orderings inside a line are not modelled. A message
-- that is put into a channel is an effect; what the operating system does with it is not modelled.
-- Integers are natural numbers; `u64` counters wrap by `% 2 ^ 64`, and statements that need fresh ids
-- say how many ids are left. The checksum's `u32` sum is bounded where that matters.
--
-- Fuel. The line loop gets the length of its buffer, which bounds the number of lines; the frame
-- loop the number of bytes, for a frame takes 80; a client's loop one turn more than its bytes; the
-- label loop of DNS names one more than its bytes; the loop over one datagram of the tunnel two
-- rounds more than the calls without bytes after which boringtun says `Done`; the carry loop of the checksums three turns, which
-- are enough for every `u32`. Statements about these loops say what they return, so that running out
-- of fuel would refute them.
--
-- Libraries are parameters: serde_json, clap and toml, mlua, boringtun, smoltcp, libtailscale, base64
-- and x25519, the resolver, and the quotient that `Duration::from_secs_f64` may panic on. Of boringtun
-- the packet loop's theorems assume that repeated calls without bytes come to `Done`, and that a
-- message of a handshake is answered once. What sockets, files and clocks give is the input of a step: a list of
-- datagrams or lines ends where the wait for them ends.
--
-- Not modelled: opening sockets and connecting, the forwarding of DNS queries, the dashboard's page
-- and its routes, the rendering of QR codes, `src/ntp.rs`, `src/transparent.rs` and the Bluetooth scans, which
-- are I/O and calls of libraries. The log is taken to show `info` lines; `debug` lines are a parameter.

pub mod Base
pub mod Json
pub mod Protocol
pub mod Recorder
pub mod Replay
pub mod Startup
pub mod Bridges
pub mod Pairing
pub mod Metrics
pub mod Lines
pub mod Hooks
pub mod Imaging
pub mod Config
pub mod Control
pub mod Discovery
pub mod Wireguard
pub mod Dashboard
mod Tests
