-- ===== src/Metrics/Log.antt =====
-- src/metrics.rs: the traffic log against the unbounded history of what was pushed.
use seestar_proxy.Base.{
  ℕ, zero, suc, ◌+◌, ◌-◌, ◌^◌, ◌≤◌, ◌<◌, String, ◌≡◌, refl, sym, ap, ◌∙◌, inl, inr, Option, none,
  some, List, [], ◌∷◌, ◌++◌, arith, leb, Bool-cases, leb→le, leb_false→lt, length, drop,
  length-append, length-drop, drop_nil, drop-drop, max, append-nil, append_assoc, subst,
}
use seestar_proxy.Base.Text.{Text}
use seestar_proxy.Metrics.{
  Metrics, LogEntry, Now, log_capacity, new, push_back, push_log_with_payload, log_since,
  from_seq_on,
}

-- The arguments of one call of `push_log_with_payload`.
pub record Push : Type 0 where
  pub now : Now
  pub channel : String
  pub summary : String
  pub payload : Option Text

abbrev pub pushes : List Push → Metrics → Metrics
pushes [] m = m
pushes (p ∷ ps) m = pushes ps (push_log_with_payload p.now p.channel p.summary p.payload m)

abbrev pub entry : ℕ → Push → LogEntry
entry s p = record {
  seq = s;
  elapsed_ms = p.now.elapsed_ms;
  timestamp_ms = p.now.epoch_ms;
  channel = p.channel;
  summary = p.summary;
  payload = p.payload;
}

-- Every entry ever pushed, numbered from `s`.
abbrev pub history : ℕ → List Push → List LogEntry
history s [] = []
history s (p ∷ ps) = entry s p ∷ history (suc s) ps

pub length-history : (s : ℕ) (ps : List Push) → length (history s ps) ≡ length ps
length-history s [] = refl
length-history s (p ∷ ps) = ap suc (length-history (suc s) ps)

module _ {ℓ} {A : Type ℓ} where
  pub drop-append_le :
      (n : ℕ) (xs ys : List A) → n ≤ length xs → drop n (xs ++ ys) ≡ drop n xs ++ ys
  drop-append_le zero xs ys h = refl
  drop-append_le (suc n) [] ys h = elim h [ ]
  drop-append_le (suc n) (x ∷ xs) ys h = drop-append_le n xs ys (omega arith)

-- One push keeps the last `log_capacity` entries.
push_back-drop :
    (xs : List LogEntry) (e : LogEntry)
    → push_back (drop (length xs - 100) xs) e ≡ drop (suc (length xs) - 100) (xs ++ e ∷ [])
push_back-drop xs e = elim (Bool-cases (leb 100 (length (drop (length xs - 100) xs)))) [
  | inl full ↦
      let many : 100 ≤ length xs =
        omega (arith, leb→le _ _ full, length-drop (length xs - 100) xs) in
      rw full (
        ap (λ t. t ++ e ∷ []) (drop-drop 1 (length xs - 100) xs)
        ∙ sym (drop-append_le (length xs - 100 + 1) xs (e ∷ []) (omega arith))
        ∙ ap (λ k. drop k (xs ++ e ∷ [])) (omega arith))
  | inr room ↦
      let few : length xs < 100 =
        omega (arith, leb_false→lt _ _ room, length-drop (length xs - 100) xs) in
      rw room (
        ap (λ k. drop k xs ++ e ∷ []) {x = length xs - 100} {y = 0} (omega arith)
        ∙ ap (λ k. drop k (xs ++ e ∷ [])) {x = 0} {y = suc (length xs) - 100} (omega arith))
]

-- The log holds the last `log_capacity` of the entries `seen`, and counts them all.
Tracks : Metrics → List LogEntry → Type 0
Tracks m seen = (m.log ≡ drop (length seen - 100) seen) × (m.log_seq ≡ length seen)

push-Tracks :
    (m : Metrics) (seen : List LogEntry) (p : Push)
    → Tracks m seen
    → length seen + 1 < 2 ^ 64
    → Tracks
        (push_log_with_payload p.now p.channel p.summary p.payload m)
        (seen ++ entry (length seen) p ∷ [])
unfolding Tracks push_log_with_payload
push-Tracks m seen p (h, k) small = (
  rw (h, k)
      (push_back-drop seen (entry (length seen) p)
        ∙ ap (λ n. drop (n - 100) (seen ++ entry (length seen) p ∷ []))
            (omega (arith, length-append seen (entry (length seen) p ∷ [])))),
  omega (arith, length-append seen (entry (length seen) p ∷ [])),
)

pushes-Tracks :
    (ps : List Push) (m : Metrics) (seen : List LogEntry)
    → Tracks m seen
    → length seen + length ps < 2 ^ 64
    → Tracks (pushes ps m) (seen ++ history (length seen) ps)
pushes-Tracks [] m seen h small = rw append-nil h
pushes-Tracks (p ∷ ps) m seen h small =
    subst (Tracks (pushes (p ∷ ps) m))
      (append_assoc seen (e ∷ []) (history (length (seen ++ e ∷ [])) ps)
        ∙ ap (λ n. seen ++ e ∷ history n ps) one_more)
      (pushes-Tracks ps (push_log_with_payload p.now p.channel p.summary p.payload m)
        (seen ++ e ∷ []) (push-Tracks m seen p h (omega arith)) (omega (arith, one_more)))
  where
    e : LogEntry
    e = entry (length seen) p

    one_more : length (seen ++ e ∷ []) ≡ suc (length seen)
    one_more = omega (arith, length-append seen (e ∷ []))

-- After any sequence of pushes onto new metrics the log holds exactly the last `log_capacity` of
-- them, oldest first, each with its number in the sequence; `log_since` without a number returns
-- them all.
pub log_since-none :
    (ps : List Push)
    → length ps < 2 ^ 64
    → log_since (pushes ps new) none ≡ drop (length ps - log_capacity) (history 0 ps)
unfolding log_since new Tracks
log_since-none ps small =
    (pushes-Tracks ps new [] (refl, refl) (omega arith)).0
    ∙ ap (λ n. drop (n - 100) (history 0 ps)) (length-history 0 ps)

from_seq_on-history :
    (k s : ℕ) (ps : List Push) → from_seq_on k (history s ps) ≡ drop (k - s) (history s ps)
unfolding from_seq_on
from_seq_on-history k s [] = sym (drop_nil (k - s))
from_seq_on-history k s (p ∷ ps) = elim (Bool-cases (leb k s)) [
  | inl low ↦ rw low (
      ap (◌∷◌ (entry s p)) (
        from_seq_on-history k (suc s) ps
        ∙ ap (λ n. drop n (history (suc s) ps)) {y = 0} (omega (arith, leb→le k s low)))
      ∙ ap (λ n. drop n (history s (p ∷ ps))) {x = 0} (omega (arith, leb→le k s low)))
  | inr high ↦ rw high (
      from_seq_on-history k (suc s) ps
      ∙ ap (λ n. drop n (history s (p ∷ ps))) {x = suc (k - suc s)}
          (omega (arith, leb_false→lt k s high)))
]

pub drop-history : (n s : ℕ) (ps : List Push) → drop n (history s ps) ≡ history (s + n) (drop n ps)
drop-history zero s ps = ap (λ k. history k ps) (omega arith)
drop-history (suc n) s [] = refl
drop-history (suc n) s (p ∷ ps) =
    drop-history n (suc s) ps ∙ ap (λ k. history k (drop n ps)) (omega arith)

-- `log_since` from a number on returns the retained entries whose number is at least it: the suffix
-- of the whole history that starts at the larger of that number and the oldest one retained.
pub log_since-some :
    (ps : List Push) (k : ℕ)
    → length ps < 2 ^ 64
    → log_since (pushes ps new) (some k) ≡ drop (max k (length ps - log_capacity)) (history 0 ps)
unfolding log_since
log_since-some ps k small =
    ap (from_seq_on k) (log_since-none ps small)
    ∙ ap (from_seq_on k) (drop-history j 0 ps)
    ∙ from_seq_on-history k (0 + j) (drop j ps)
    ∙ ap (drop (k - (0 + j))) (sym (drop-history j 0 ps))
    ∙ drop-drop (k - (0 + j)) j (history 0 ps)
    ∙ ap (λ n. drop n (history 0 ps)) (omega arith)
  where
    j : ℕ
    j = length ps - log_capacity
