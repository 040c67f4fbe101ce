-- ===== src/Imaging/Commands.antt =====
-- src/imaging.rs: the command lines of an imaging client reach the telescope's channel.
use seestar_proxy.Base.{
  ℕ, zero, suc, ◌<◌, ◌≡◌, refl, ap, ◌∙◌, true, false, Option, List, [], ◌∷◌, ◌++◌, arith, ltb_le,
  ◌==◌, length, All, length-append,
}
use seestar_proxy.Base.Text.{Bytes, Text, from_utf8_lossy, trim}
use seestar_proxy.Lines.{newline, max_line_bytes, Stream, read, read_line_limited, read_line_loop}
use seestar_proxy.Lines.Reading.{
  NoNewline, content, IsSteady, read_line_limited-whole, ended_stream,
}
use seestar_proxy.Lines.Splitting.{unlines, length_lines-unlines}
use seestar_proxy.Metrics.{Metrics}
use seestar_proxy.Imaging.Clients.{
  Env, next, stop, error, Outcome, log_command, handle_command, handle_line, read_loop,
  handle_client,
}

-- A line's command, unless it is blank.
abbrev pub command_of : Text → List Text
command_of [] = []
command_of (c ∷ cs) = (c ∷ cs) ∷ []

abbrev pub commands : List Bytes → List Text
commands [] = []
commands (l ∷ ls) = command_of (trim (from_utf8_lossy (l ++ newline ∷ []))) ++ commands ls

handle_command_open :
    (env : Env) (t : Text) (m : Option Metrics)
    → env.upstream_open ≡ true
    → (m' : Option Metrics) × (handle_command env t m ≡ (m', command_of t, next))
unfolding handle_command
handle_command_open env [] m up = (m, refl)
handle_command_open env (c ∷ cs) m up = (log_command env (c ∷ cs) m, rw up refl)

handle_line_open :
    (env : Env) (l : Bytes) (m : Option Metrics)
    → env.upstream_open ≡ true
    → length l < max_line_bytes
    → (m' : Option Metrics) × (handle_line env (l ++ newline ∷ []) m
        ≡ (m', command_of (trim (from_utf8_lossy (l ++ newline ∷ []))), next))
unfolding handle_line
handle_line_open env l m up short =
    let line = l ++ newline ∷ [] in
    let (m', e) = handle_command_open env (trim (from_utf8_lossy line)) m up in
    (
      m',
      rw
          (
            ltb_le max_line_bytes (length line) (omega (arith, length-append l (newline ∷ []))),
            handle_line,
          )
          e,
    )

nonzero : (n : ℕ) → (suc n == 0) ≡ false
nonzero n = ground arith

read_loop_more :
    (fuel n : ℕ) (env : Env) (s rest : Stream) (line : Bytes) (m m' : Option Metrics)
    (sent : List Text)
    → read_line_limited max_line_bytes s ≡ read (suc n) line rest
    → handle_line env line m ≡ (m', sent, next)
    → read_loop (suc fuel) env s m
      ≡ (let (m'', later, end) = read_loop fuel env rest m' in (m'', sent ++ later, end))
unfolding read_loop
read_loop_more fuel n env s rest line m m' sent e h = rw (e, read_loop) (rw (nonzero n) (ap turn h))
  where
    turn : Outcome → Outcome
    turn (n, sent, flow) =
        let (k, later, end) = read_loop fuel env rest n in
        elim flow [
          | next ↦ (k, sent ++ later, end)
          | stop ↦ (n, sent, stop)
          | error ↦ (n, sent, error)
        ]

read_loop-lines :
    (fuel : ℕ) (env : Env) (s : Stream) (ls : List Bytes) (m : Option Metrics)
    → length ls < fuel
    → env.upstream_open ≡ true
    → IsSteady s
    → All NoNewline ls
    → All (λ l. length l < max_line_bytes) ls
    → content s ≡ unlines ls
    → (m' : Option Metrics) × (read_loop fuel env s m ≡ (m', commands ls, stop))
unfolding read_loop read_line_limited read_line_loop
read_loop-lines zero env s ls m enough up st nn short e = absurd (omega arith)
read_loop-lines (suc fuel) env s [] m enough up st nn short e =
    (m, rw (ended_stream s st e, read_loop) refl)
read_loop-lines (suc fuel) env s (l ∷ ls) m enough up st nn short e =
    let (rest, eq, c, st') =
      read_line_limited-whole max_line_bytes s l (unlines ls) st nn.0 (omega (arith, short.0)) e in
    let (m', h) = handle_line_open env l m up short.0 in
    let (m'', later) = read_loop-lines fuel env rest ls m' (omega arith) up st' nn.1 short.1 c in
    (
      m'',
      read_loop_more fuel (length l) env s rest (l ++ newline ∷ []) m m' _ eq h
          ∙ ap
              (λ o.
                let (n, sent, end) = o in
                (n, command_of (trim (from_utf8_lossy (l ++ newline ∷ []))) ++ sent, end))
              later,
    )

-- While the channel to the telescope is open, the handler sends each line that is not blank, trimmed,
-- in order and once, however the client's bytes are spread over the reads, and ends when the client
-- closes; the lines must be shorter than the limit, for it counts the newline.
pub handle_client-commands :
    (env : Env) (s : Stream) (ls : List Bytes) (m : Option Metrics)
    → env.upstream_open ≡ true
    → IsSteady s
    → All NoNewline ls
    → All (λ l. length l < max_line_bytes) ls
    → content s ≡ unlines ls
    → let (m', sent, flow) = handle_client env s m in (sent ≡ commands ls) × (flow ≡ stop)
unfolding handle_client
handle_client-commands env s ls m up st nn short e =
    let (m', eq) =
      read_loop-lines (suc (length (content s))) env s ls m
        (omega (arith, ap length e, length_lines-unlines ls)) up st nn short e in
    (ap (λ o. o.1) eq, ap (λ o. o.2) eq)
