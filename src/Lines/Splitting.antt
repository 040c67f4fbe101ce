-- ===== src/Lines/Splitting.antt =====
-- src/control.rs: the lines that the telescope reader takes from its buffer do not depend on how
-- the telescope's bytes are spread over the reads.
use seestar_proxy.Base.{
  ℕ, zero, suc, ◌≤◌, ◌≡◌, refl, sym, ap, ◌∙◌, inl, inr, none, some, List, [], ◌∷◌, ◌++◌, arith,
  ltb_le, length, take, drop, All, length-append, append_assoc, append-nil, subst,
  take-append_length,
}
use seestar_proxy.Base.Text.{Bytes}
use seestar_proxy.Lines.{
  newline, max_buffer_bytes, position_newline, drain_lines, complete_lines, end_of_stream, receive,
}
use seestar_proxy.Lines.Reading.{NoNewline, first_newline}

-- Lines, each behind its newline.
abbrev pub unlines : List Bytes → Bytes
unlines [] = []
unlines (l ∷ ls) = l ++ newline ∷ unlines ls

abbrev pub concat : List Bytes → Bytes
concat [] = []
concat (c ∷ cs) = c ++ concat cs

position_newline-none : (r : Bytes) → NoNewline r → position_newline r ≡ none
unfolding position_newline
position_newline-none [] h = refl
position_newline-none (b ∷ r) h = ground (arith, position_newline-none r h.1)

position_newline-line :
    (l x : Bytes) → NoNewline l → position_newline (l ++ newline ∷ x) ≡ some (length l)
unfolding position_newline
position_newline-line [] x h = refl
position_newline-line (b ∷ l) x h = ground (arith, position_newline-line l x h.1)

take_to : (l x : Bytes) → take (length l) (l ++ x) ≡ l
take_to l x = take-append_length (length l) l x refl

drop_past : (l x : Bytes) → drop (suc (length l)) (l ++ newline ∷ x) ≡ x
drop_past [] x = refl
drop_past (b ∷ l) x = drop_past l x

drain_lines-unlines :
    (fuel : ℕ) (ls : List Bytes) (r : Bytes)
    → length ls ≤ fuel
    → All NoNewline ls
    → NoNewline r
    → drain_lines fuel (unlines ls ++ r) ≡ (ls, r)
unfolding drain_lines
drain_lines-unlines zero [] r h nl nr = refl
drain_lines-unlines (suc fuel) [] r h nl nr = rw (position_newline-none r nr, drain_lines)
drain_lines-unlines zero (l ∷ ls) r h nl nr = elim h [ ]
drain_lines-unlines (suc fuel) (l ∷ ls) r h nl nr =
    let x = unlines ls ++ r in
    rw (append_assoc l (newline ∷ unlines ls) r) (
      rw (position_newline-line l x nl.0, drain_lines)
        (rw (
          take_to l (newline ∷ x),
          drop_past l x,
          drain_lines-unlines fuel ls r (omega arith) nl.1 nr,
        )))

length-unlines : (ls : List Bytes) (r : Bytes) → length ls ≤ length (unlines ls ++ r)
length-unlines [] r = omega arith
length-unlines (l ∷ ls) r = omega (
  arith,
  length-unlines ls r,
  ap length (append_assoc l (newline ∷ unlines ls) r),
  length-append l (newline ∷ unlines ls ++ r),
)

complete_lines-unlines :
    (ls : List Bytes) (r : Bytes)
    → All NoNewline ls
    → NoNewline r
    → complete_lines (unlines ls ++ r) ≡ (ls, r)
unfolding complete_lines
complete_lines-unlines ls r nl nr =
    drain_lines-unlines (length (unlines ls ++ r)) ls r (length-unlines ls r) nl nr

-- A part of the text `unlines ls ++ rest` that `x` ends in the middle of.
record Cut (x y : Bytes) (ls : List Bytes) (rest : Bytes) : Type 0 where
  before : List Bytes
  after : List Bytes
  partial : Bytes
  lines : ls ≡ before ++ after
  left : x ≡ unlines before ++ partial
  right : partial ++ y ≡ unlines after ++ rest
  before_whole : All NoNewline before
  after_whole : All NoNewline after
  after_fits : All (λ l. length l ≤ max_buffer_bytes) after
  partial_whole : NoNewline partial
  partial_fits : length partial ≤ max_buffer_bytes

prefix-NoNewline : (xs ys : Bytes) → NoNewline (xs ++ ys) → NoNewline xs
prefix-NoNewline [] ys h = tt
prefix-NoNewline (x ∷ xs) ys h = (h.0, prefix-NoNewline xs ys h.1)

cut :
    (x y : Bytes) (ls : List Bytes) (rest : Bytes)
    → All NoNewline ls
    → NoNewline rest
    → All (λ l. length l ≤ max_buffer_bytes) ls
    → length rest ≤ max_buffer_bytes
    → x ++ y ≡ unlines ls ++ rest
    → Cut x y ls rest
cut x y [] rest nl nr fl fr e = record {
  before = [];
  after = [];
  partial = x;
  lines = refl;
  left = refl;
  right = e;
  before_whole = tt;
  after_whole = tt;
  after_fits = tt;
  partial_whole = prefix-NoNewline x y (subst NoNewline (sym e) nr);
  partial_fits = omega (arith, ap length e, length-append x y);
}
cut x y (l ∷ ls) rest nl nr fl fr e =
    elim (first_newline x y l (unlines ls ++ rest) nl.0
      (e ∙ append_assoc l (newline ∷ unlines ls) rest)) [
        | inl (p, (k, q, r)) ↦ record {
          before = [];
          after = l ∷ ls;
          partial = x;
          lines = refl;
          left = refl;
          right = e;
          before_whole = tt;
          after_whole = nl;
          after_fits = fl;
          partial_whole = prefix-NoNewline x k (subst NoNewline q nl.0);
          partial_fits = omega (arith, ap length q, length-append x k, fl.0);
        }
        | inr (p, (k, q, r)) ↦
            let c : Cut k y ls rest = cut k y ls rest nl.1 nr fl.1 fr (sym r) in
            record {
              before = l ∷ c.before;
              after = c.after;
              partial = c.partial;
              lines = ap (◌∷◌ l) c.lines;
              left =
                  q
                  ∙ ap (λ t. l ++ newline ∷ t) c.left
                  ∙ sym (append_assoc l (newline ∷ unlines c.before) c.partial);
              right = c.right;
              before_whole = (nl.0, c.before_whole);
              after_whole = c.after_whole;
              after_fits = c.after_fits;
              partial_whole = c.partial_whole;
              partial_fits = c.partial_fits;
            }
      ]

receive_from :
    (chunks : List Bytes) (buf : Bytes) (ls : List Bytes) (rest : Bytes)
    → NoNewline buf
    → All NoNewline ls
    → NoNewline rest
    → All (λ l. length l ≤ max_buffer_bytes) ls
    → length rest ≤ max_buffer_bytes
    → buf ++ concat chunks ≡ unlines ls ++ rest
    → receive chunks buf ≡ (ls, rest, end_of_stream)
unfolding receive
receive_from [] buf ls rest nb nl nr fl fr e =
    ap (λ p. (p.0, p.1, end_of_stream))
      (sym (complete_lines-unlines [] buf tt nb)
        ∙ ap complete_lines (sym (append-nil buf) ∙ e)
        ∙ complete_lines-unlines ls rest nl nr)
receive_from (chunk ∷ chunks) buf ls rest nb nl nr fl fr e =
    let tail : receive chunks c.partial ≡ (c.after, rest, end_of_stream) =
      receive_from chunks c.partial c.after rest c.partial_whole c.after_whole nr c.after_fits fr
        c.right in
    rw (c.left, complete_lines-unlines c.before c.partial c.before_whole c.partial_whole)
      (rw (ltb_le _ _ c.partial_fits, tail) (ap (λ t. (t, rest, end_of_stream)) (sym c.lines)))
  where
    c : Cut (buf ++ chunk) (concat chunks) ls rest
    c =
        cut (buf ++ chunk) (concat chunks) ls rest nl nr fl fr
          (append_assoc buf chunk (concat chunks) ∙ e)

pub length_lines-unlines : (ls : List Bytes) → length ls ≤ length (unlines ls)
length_lines-unlines [] = omega arith
length_lines-unlines (l ∷ ls) =
    omega (arith, length-append l (newline ∷ unlines ls), length_lines-unlines ls)

-- Whatever the reads of a telescope connection, as long as no line passes the buffer limit, the
-- reader hands on exactly the lines of the bytes sent, in order, keeps the unfinished rest, and
-- stops only at the end of the stream.
pub receive-unlines :
    (chunks ls : List Bytes) (rest : Bytes)
    → All NoNewline ls
    → NoNewline rest
    → All (λ l. length l ≤ max_buffer_bytes) ls
    → length rest ≤ max_buffer_bytes
    → concat chunks ≡ unlines ls ++ rest
    → receive chunks [] ≡ (ls, rest, end_of_stream)
receive-unlines chunks ls rest nl nr fl fr e = receive_from chunks [] ls rest tt nl nr fl fr e
