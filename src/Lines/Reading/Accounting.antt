-- ===== src/Lines/Reading/Accounting.antt =====
-- src/control.rs: `read_line_limited` loses no byte, and how much it holds at most.
use seestar_proxy.Base.{
  ℕ, zero, suc, ◌+◌, ◌≤◌, ◌<◌, ◌≡◌, refl, sym, ap, ◌∙◌, inl, inr, some, [], ◌∷◌, ◌++◌, arith, ltb,
  Bool-cases, length, take, drop, All, length-append, append_assoc, subst, length-take,
  Option-cases, take-append-drop, ltb_false→le,
}
use seestar_proxy.Base.Text.{Bytes}
use seestar_proxy.Lines.{
  position_newline, bytes, fault, Stream, put_back, ReadResult, read, failed, read_line_loop,
  read_line_limited,
}
use seestar_proxy.Lines.Reading.{content, content-put_back, loop_on, loop_over, loop_found}

-- Each read brings at most `most` bytes.
abbrev pub IsCapped : ℕ → Stream → Type 0
IsCapped most = All (λ f. elim f [ bytes b ↦ length b ≤ most | fault ↦ Unit {0} ])

-- A successful result accounts for every byte, and is short of the limit, or ends the stream.
abbrev pub Accounts : ℕ → ℕ → Stream → Bytes → ReadResult → Type 0
Accounts limit most s buf (read total out rest) =
    (total ≡ length out) × (out ++ content rest ≡ buf ++ content s) × (total ≤ limit + most)
Accounts limit most s buf failed = Unit {0}

position_newline-lt : (bs : Bytes) (pos : ℕ) → position_newline bs ≡ some pos → pos < length bs
unfolding position_newline
position_newline-lt [] pos e = cc
position_newline-lt (b ∷ bs) zero e = omega arith
position_newline-lt (b ∷ bs) (suc pos) e = ground (arith, position_newline-lt bs pos)

found-Accounts :
    (limit most pos : ℕ) (av buf : Bytes) (s : Stream) (total : ℕ)
    → pos < length av
    → length av ≤ most
    → total ≡ length buf
    → total ≤ limit
    → Accounts limit most
        (bytes av ∷ s)
        buf
        (read (total + (pos + 1)) (buf ++ take (suc pos) av) (put_back (drop (suc pos) av) s))
found-Accounts limit most pos av buf s total lt le size fits = (
  omega (arith, length-append buf (take (suc pos) av), length-take (suc pos) av),
  ap (◌++◌ (buf ++ take (suc pos) av)) (content-put_back (drop (suc pos) av) s)
      ∙ append_assoc buf (take (suc pos) av) (drop (suc pos) av ++ content s)
      ∙ ap (◌++◌ buf) (
          sym (append_assoc (take (suc pos) av) (drop (suc pos) av) (content s))
          ∙ ap (λ w. w ++ content s) (take-append-drop (suc pos) av)),
  omega arith,
)

read_line_loop-Accounts :
    (limit most : ℕ) (s : Stream) (buf : Bytes) (total : ℕ)
    → IsCapped most s
    → total ≡ length buf
    → total ≤ limit
    → Accounts limit most s buf (read_line_loop limit s buf total)
unfolding read_line_loop
read_line_loop-Accounts limit most [] buf total c size fits = (size, refl, omega arith)
read_line_loop-Accounts limit most (fault ∷ s) buf total c size fits = tt
read_line_loop-Accounts limit most (bytes [] ∷ s) buf total c size fits = (size, refl, omega arith)
read_line_loop-Accounts limit most (bytes (b ∷ bs) ∷ s) buf total c size fits =
    elim (Option-cases (position_newline (b ∷ bs))) [
      | inr (pos, p) ↦
          subst (Accounts limit most (bytes (b ∷ bs) ∷ s) buf)
            (sym (loop_found limit b bs s buf total pos p))
            (found-Accounts limit most pos (b ∷ bs) buf s total (position_newline-lt (b ∷ bs) pos p)
              c.0 size fits)
      | inl p ↦ elim (Bool-cases (ltb limit (total + length (b ∷ bs)))) [
        | inl above ↦
            subst (Accounts limit most (bytes (b ∷ bs) ∷ s) buf)
              (sym (loop_over limit b bs s buf total p above))
              (
                omega (arith, length-append buf (b ∷ bs)),
                append_assoc buf (b ∷ bs) (content s),
                omega (arith, c.0),
              )
        | inr below ↦
            subst (Accounts limit most (bytes (b ∷ bs) ∷ s) buf)
              (sym (loop_on limit b bs s buf total p below))
              (regroup (read_line_loop limit s (buf ++ b ∷ bs) (total + length (b ∷ bs))) (
                read_line_loop-Accounts limit most s (buf ++ b ∷ bs) (total + length (b ∷ bs)) c.1
                  (omega (arith, length-append buf (b ∷ bs))) (ltb_false→le _ _ below)))
      ]
    ]
  where
    regroup :
        (r : ReadResult)
        → Accounts limit most s (buf ++ b ∷ bs) r
        → Accounts limit most (bytes (b ∷ bs) ∷ s) buf r
    regroup (read total out rest) (a, e, h) = (a, e ∙ append_assoc buf (b ∷ bs) (content s), h)
    regroup failed h = tt

-- Where each read brings at most `most` bytes, a call that meets no error returns the length of what
-- it read, loses and invents no byte, and never holds more than `limit + most` bytes.
pub read_line_limited-Accounts :
    (limit most : ℕ) (s : Stream)
    → IsCapped most s
    → Accounts limit most s [] (read_line_limited limit s)
unfolding read_line_limited
read_line_limited-Accounts limit most s c =
    read_line_loop-Accounts limit most s [] 0 c refl (omega arith)
