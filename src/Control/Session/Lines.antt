-- ===== src/Control/Session/Lines.antt =====
-- src/control.rs: a client's lines are handled one by one, however its bytes arrive.
use seestar_proxy.Base.{
  ℕ, zero, suc, ◌≤◌, ◌<◌, ◌≡◌, refl, ap, ◌∙◌, false, List, [], ◌∷◌, ◌++◌, arith, ◌==◌, length, All,
}
use seestar_proxy.Base.Text.{Bytes}
use seestar_proxy.Lines.{newline, max_line_bytes, Stream, read, read_line_limited, read_line_loop}
use seestar_proxy.Lines.Reading.{
  NoNewline, content, IsSteady, read_line_limited-whole, ended_stream,
}
use seestar_proxy.Lines.Splitting.{unlines, length_lines-unlines}
use seestar_proxy.Control.State.{Proxy, Env, next, stop, error, panic, Outcome, prepend}
use seestar_proxy.Control.Client.{handle_line}
use seestar_proxy.Control.Session.{turn, read_loop, handle_client}

-- The lines handled in order, up to the first that ends the loop.
abbrev pub handle_lines : Env → ℕ → List Bytes → Proxy → Outcome
handle_lines env client [] p = (p, [], stop)
handle_lines env client (l ∷ ls) p =
    turn (handle_lines env client ls) (handle_line env client (l ++ newline ∷ []) p)

nonzero : (n : ℕ) → (suc n == 0) ≡ false
nonzero n = ground arith

read_loop_more :
    (fuel n : ℕ) (env : Env) (client : ℕ) (s rest : Stream) (line : Bytes) (p : Proxy)
    → read_line_limited max_line_bytes s ≡ read (suc n) line rest
    → read_loop (suc fuel) env client s p
      ≡ turn (read_loop fuel env client rest) (handle_line env client line p)
unfolding read_loop
read_loop_more fuel n env client s rest line p e = rw (e, read_loop) (rw (nonzero n))

turn-ap : (f g : Proxy → Outcome) (o : Outcome) → ((p : Proxy) → f p ≡ g p) → turn f o ≡ turn g o
turn-ap f g (p, effects, next) h = ap (prepend effects) (h p)
turn-ap f g (p, effects, stop) h = refl
turn-ap f g (p, effects, error) h = refl
turn-ap f g (p, effects, panic) h = refl

read_loop-lines :
    (fuel : ℕ) (env : Env) (client : ℕ) (s : Stream) (ls : List Bytes) (p : Proxy)
    → length ls < fuel
    → IsSteady s
    → All NoNewline ls
    → All (λ l. length l ≤ max_line_bytes) ls
    → content s ≡ unlines ls
    → read_loop fuel env client s p ≡ handle_lines env client ls p
unfolding read_loop read_line_limited read_line_loop
read_loop-lines zero env client s ls p enough st nn short e = absurd (omega arith)
read_loop-lines (suc fuel) env client s [] p enough st nn short e =
    rw (ended_stream s st e, read_loop) refl
read_loop-lines (suc fuel) env client s (l ∷ ls) p enough st nn short e =
    let (rest, eq, c, st') =
      read_line_limited-whole max_line_bytes s l (unlines ls) st nn.0 short.0 e in
    read_loop_more fuel (length l) env client s rest (l ++ newline ∷ []) p eq
    ∙ turn-ap (read_loop fuel env client rest) (handle_lines env client ls)
        (handle_line env client (l ++ newline ∷ []) p)
        (λ q. read_loop-lines fuel env client rest ls q (omega arith) st' nn.1 short.1 c)

-- However a client's bytes are spread over the reads, its session is its lines handled one by one in
-- order, up to the first that ends the loop, if no line is longer than the limit.
pub handle_client-lines :
    (env : Env) (client : ℕ) (s : Stream) (ls : List Bytes) (p : Proxy)
    → IsSteady s
    → All NoNewline ls
    → All (λ l. length l ≤ max_line_bytes) ls
    → content s ≡ unlines ls
    → handle_client env client s p ≡ handle_lines env client ls p
unfolding handle_client
handle_client-lines env client s ls p st nn short e =
    read_loop-lines (suc (length (content s))) env client s ls p
      (omega (arith, ap length e, length_lines-unlines ls)) st nn short e
