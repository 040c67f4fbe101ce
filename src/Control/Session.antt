-- ===== src/Control/Session.antt =====
-- src/control.rs: the read loop of `handle_client`, over all that one client sends.
pub mod Lines
use seestar_proxy.Base.{ℕ, zero, suc, ◌+◌, Bool, List, [], ◌∷◌, ◌++◌, ◌==◌, if◌then◌else◌, length}
use seestar_proxy.Base.Text.{Bytes}
use seestar_proxy.Lines.{Stream, max_line_bytes, ReadResult, read, failed, read_line_limited}
use seestar_proxy.Lines.Reading.{content}
use seestar_proxy.Control.State.{
  Proxy, Env, Effect, Flow, next, stop, error, panic, Outcome, prepend,
}
use seestar_proxy.Control.Client.{handle_line}

-- The turns after one whose outcome is known.
abbrev pub turn : (Proxy → Outcome) → Outcome → Outcome
turn later (p, effects, next) = prepend effects (later p)
turn later (p, effects, stop) = (p, effects, stop)
turn later (p, effects, error) = (p, effects, error)
turn later (p, effects, panic) = (p, effects, panic)

-- Each turn but the last takes a byte off the stream at least.
unfoldable pub read_loop : ℕ → Env → ℕ → Stream → Proxy → Outcome
unfolding read_line_limited
read_loop zero env client s p = (p, [], stop)
read_loop (suc fuel) env client s p = elim (read_line_limited max_line_bytes s) [
  | failed ↦ (p, [], error)
  | read n line_buf rest ↦
      let o = turn (read_loop fuel env client rest) (handle_line env client line_buf p) in
      if n == 0 then (p, [], stop) else o
]

-- All that a client sends, with no step of another task between its lines.
unfoldable pub handle_client : Env → ℕ → Stream → Proxy → Outcome
unfolding read_loop
handle_client env client s p = read_loop (suc (length (content s))) env client s p
