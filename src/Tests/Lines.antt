-- ===== src/Tests/Lines.antt =====
-- src/control.rs: lines that arrive in pieces.
use seestar_proxy.Base.{◌≡◌, refl, [], ◌∷◌, arith}
use seestar_proxy.Base.Text.{codes}
use seestar_proxy.Lines.{
  newline, bytes, Stream, read_line_limited, receive, end_of_stream, max_line_bytes,
}
use seestar_proxy.Lines.Reading.Accounting.{Accounts, read_line_limited-Accounts}
use seestar_proxy.Lines.Splitting.{receive-unlines}

-- The line `{}` in two reads, the second with the start of the next line.
abbrev pieces : Stream
pieces = bytes (codes "{") ∷ bytes (b'}' ∷ newline ∷ codes "[") ∷ []

read_line_limited-Accounts_example :
    Accounts max_line_bytes 8192 pieces [] (read_line_limited max_line_bytes pieces)
read_line_limited-Accounts_example =
    read_line_limited-Accounts max_line_bytes 8192 pieces (omega arith, (omega arith, tt))

receive-unlines_example :
    receive (codes "{" ∷ (b'}' ∷ newline ∷ codes "[") ∷ []) []
    ≡ (codes "{}" ∷ [], codes "[", end_of_stream)
receive-unlines_example =
    receive-unlines (codes "{" ∷ (b'}' ∷ newline ∷ codes "[") ∷ []) (codes "{}" ∷ []) (codes "[")
      ((refl, (refl, tt)), tt) (refl, tt) (omega arith, tt) (omega arith) refl
