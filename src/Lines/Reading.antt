-- ===== src/Lines/Reading.antt =====
-- src/control.rs: what `read_line_limited` returns does not depend on how the bytes arrive.
pub mod Accounting
use seestar_proxy.Base.{
  ℕ, zero, suc, ◌+◌, ◌≤◌, ◌<◌, ◌≡◌, refl, sym, ap, ◌∙◌, ◌⊎◌, inl, inr, true, false, none, some, [],
  ◌∷◌, ◌++◌, arith, ltb, ◌==◌, Bool-cases, length, take, drop, All, length-append, append_assoc,
  subst, ap₂, ltb_le, length-take, Option-cases, take-append-drop, ltb_false→le,
}
use seestar_proxy.Base.Text.{Bytes}
use seestar_proxy.Lines.{
  newline, position_newline, bytes, fault, Stream, put_back, ReadResult, read, failed,
  read_line_loop, read_line_limited,
}

abbrev pub NoNewline : Bytes → Type 0
NoNewline = All (λ b. (b == newline) ≡ false)

-- All bytes still to come, if no read fails.
abbrev pub content : Stream → Bytes
content [] = []
content (bytes b ∷ s) = b ++ content s
content (fault ∷ s) = content s

-- Each read brings bytes, and none fails.
abbrev pub IsSteady : Stream → Type 0
IsSteady = All (λ f. elim f [ bytes b ↦ 0 < length b | fault ↦ ⊥ ])

-- Where the first newline of a stream stands with respect to its first read.
pub first_newline :
    (chunk later line rest : Bytes)
    → NoNewline line
    → chunk ++ later ≡ line ++ newline ∷ rest
    → ((position_newline chunk ≡ none)
        × ((l : Bytes) × (line ≡ chunk ++ l) × (later ≡ l ++ newline ∷ rest)))
      ⊎ ((position_newline chunk ≡ some (length line))
          × ((r : Bytes) × (chunk ≡ line ++ newline ∷ r) × (rest ≡ r ++ later)))
unfolding position_newline
first_newline [] later line rest h e = inl (refl, (line, refl, e))
first_newline (b ∷ bs) later [] rest h e = inr (ground arith, (bs, ground arith, ground arith))
first_newline (b ∷ bs) later (a ∷ line) rest h e =
    elim (first_newline bs later line rest h.1 (ground arith)) [
      | inl (p, (l, q, r)) ↦ inl (ground arith, (l, ground arith, r))
      | inr (p, (k, q, r)) ↦ inr (ground arith, (k, ground arith, r))
    ]

take_line : (line r : Bytes) → take (suc (length line)) (line ++ newline ∷ r) ≡ line ++ newline ∷ []
take_line [] r = refl
take_line (b ∷ line) r = ap (◌∷◌ b) (take_line line r)

drop_line : (line r : Bytes) → drop (suc (length line)) (line ++ newline ∷ r) ≡ r
drop_line [] r = refl
drop_line (b ∷ line) r = drop_line line r

content-put_back : (r : Bytes) (s : Stream) → content (put_back r s) ≡ r ++ content s
content-put_back [] s = refl
content-put_back (b ∷ r) s = refl

put_back-IsSteady : (r : Bytes) (s : Stream) → IsSteady s → IsSteady (put_back r s)
put_back-IsSteady [] s h = h
put_back-IsSteady (b ∷ r) s h = (omega arith, h)

no_line : (line rest : Bytes) → [] ≡ line ++ newline ∷ rest → ⊥
no_line [] rest e = cc
no_line (b ∷ line) rest e = cc

drop_prefix-NoNewline : (xs ys : Bytes) → NoNewline (xs ++ ys) → NoNewline ys
drop_prefix-NoNewline [] ys h = h
drop_prefix-NoNewline (x ∷ xs) ys h = drop_prefix-NoNewline xs ys h.1

loop_on :
    (limit b : ℕ) (bs : Bytes) (s : Stream) (buf : Bytes) (total : ℕ)
    → position_newline (b ∷ bs) ≡ none
    → ltb limit (total + length (b ∷ bs)) ≡ false
    → read_line_loop limit (bytes (b ∷ bs) ∷ s) buf total
      ≡ read_line_loop limit s (buf ++ b ∷ bs) (total + length (b ∷ bs))
unfolding read_line_loop
loop_on limit b bs s buf total p below = rw (p, read_line_loop) (rw below)

loop_over :
    (limit b : ℕ) (bs : Bytes) (s : Stream) (buf : Bytes) (total : ℕ)
    → position_newline (b ∷ bs) ≡ none
    → ltb limit (total + length (b ∷ bs)) ≡ true
    → read_line_loop limit (bytes (b ∷ bs) ∷ s) buf total
      ≡ read (total + length (b ∷ bs)) (buf ++ b ∷ bs) s
unfolding read_line_loop
loop_over limit b bs s buf total p above = rw (p, read_line_loop) (rw above)

loop_found :
    (limit b : ℕ) (bs : Bytes) (s : Stream) (buf : Bytes) (total pos : ℕ)
    → position_newline (b ∷ bs) ≡ some pos
    → read_line_loop limit (bytes (b ∷ bs) ∷ s) buf total
      ≡ read
          (total + (pos + 1))
          (buf ++ take (suc pos) (b ∷ bs))
          (put_back (drop (suc pos) (b ∷ bs)) s)
unfolding read_line_loop
loop_found limit b bs s buf total pos p = rw (p, read_line_loop)

-- One line taken off a stream that holds it.
abbrev Takes : ℕ → Stream → Bytes → Bytes → Bytes → ℕ → Type 0
Takes limit s buf line rest total =
    (s' : Stream) × (read_line_loop limit s buf total
      ≡ read (total + suc (length line)) (buf ++ line ++ newline ∷ []) s')
    × (content s' ≡ rest)
    × IsSteady s'

read_line_loop-Takes :
    (limit : ℕ) (s : Stream) (buf line rest : Bytes) (total : ℕ)
    → IsSteady s
    → NoNewline line
    → total + length line ≤ limit
    → content s ≡ line ++ newline ∷ rest
    → Takes limit s buf line rest total
unfolding read_line_loop
read_line_loop-Takes limit [] buf line rest total st nn h e = absurd (no_line line rest e)
read_line_loop-Takes limit (fault ∷ s) buf line rest total st nn h e = absurd st.0
read_line_loop-Takes limit (bytes [] ∷ s) buf line rest total st nn h e = absurd (omega arith)
read_line_loop-Takes limit (bytes (b ∷ bs) ∷ s) buf line rest total st nn h e =
    elim (first_newline (b ∷ bs) (content s) line rest nn e) [
      | inl (p, (l, q, r)) ↦
          let size : length line ≡ length (b ∷ bs) + length l =
            ap length q ∙ length-append (b ∷ bs) l in
          let below : ltb limit (total + length (b ∷ bs)) ≡ false = ltb_le _ _ (omega arith) in
          let (s', eq, c, t) =
            read_line_loop-Takes limit s (buf ++ b ∷ bs) l rest (total + length (b ∷ bs)) st.1
              (drop_prefix-NoNewline (b ∷ bs) l (subst NoNewline q nn)) (omega arith) r in
          (
            s',
            loop_on limit b bs s buf total p below
                ∙ (eq
                    ∙ ap₂ (λ n w. read n (w ++ newline ∷ []) s') (omega arith)
                        (append_assoc buf (b ∷ bs) l ∙ ap (◌++◌ buf) (sym q))),
            c,
            t,
          )
      | inr (p, (r, q, k)) ↦ (
        put_back r s,
        loop_found limit b bs s buf total (length line) p
            ∙ ap₂ (λ w v. read (total + (length line + 1)) (buf ++ w) (put_back v s))
                (ap (take (suc (length line))) q ∙ take_line line r)
                (ap (drop (suc (length line))) q ∙ drop_line line r)
            ∙ ap₂ (λ n w. read n w (put_back r s)) (omega arith)
                (sym (append_assoc buf line (newline ∷ []))),
        content-put_back r s ∙ sym k,
        put_back-IsSteady r s st.1,
      )
    ]

-- A line that fits the limit is returned whole, with its newline, however the bytes are spread over
-- the reads; what follows it is left in the stream, for the next call.
pub read_line_limited-whole :
    (limit : ℕ) (s : Stream) (line rest : Bytes)
    → IsSteady s
    → NoNewline line
    → length line ≤ limit
    → content s ≡ line ++ newline ∷ rest
    → (s' : Stream) × (read_line_limited limit s
        ≡ read (suc (length line)) (line ++ newline ∷ []) s')
      × (content s' ≡ rest)
      × IsSteady s'
unfolding read_line_limited
read_line_limited-whole limit s line rest st nn h e =
    let (s', eq, c, t) = read_line_loop-Takes limit s [] line rest 0 st nn (omega arith) e in
    (s', eq ∙ ap (λ n. read n (line ++ newline ∷ []) s') (omega arith), c, t)

-- Nothing is left of a steady stream without content.
pub ended_stream : (s : Stream) → IsSteady s → content s ≡ [] → s ≡ []
ended_stream [] st e = refl
ended_stream (fault ∷ s) st e = elim st.0 [ ]
ended_stream (bytes [] ∷ s) st e = absurd (omega (arith, st.0))
ended_stream (bytes (b ∷ bs) ∷ s) st e = absurd cc
