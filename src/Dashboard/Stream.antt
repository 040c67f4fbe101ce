-- ===== src/Dashboard/Stream.antt =====
-- src/dashboard.rs: the log entries of the event stream against the history of what was pushed.
use seestar_proxy.Base.{
  ℕ, zero, suc, ◌+◌, ◌-◌, ◌^◌, ◌≤◌, ◌<◌, ◌≡◌, refl, sym, ap, ◌∙◌, Option, none, some, List, [], ◌∷◌,
  ◌++◌, arith, length, drop, length-append, length-drop, ap₂, All, unwrap_or,
}
use seestar_proxy.Metrics.{LogEntry, Now, new, log_since}
use seestar_proxy.Metrics.Log.{
  Push, pushes, entry, history, drop-append_le, drop-history, length-history, log_since-none,
  log_since-some,
}
use seestar_proxy.Dashboard.{
  Env, Tick, SseState, Sent, last, next_seq, sse_start, sse_tick, sse_handler,
}

-- What is pushed between two ticks, and the clocks and counters that the later one finds: anything
-- that leaves the log as the pushes have made it.
pub record Batch : Type 0 where
  pub pushed : List Push
  pub now : Now
  pub now_ns : ℕ

abbrev pub all_pushed : List Batch → List Push
all_pushed [] = []
all_pushed (b ∷ bs) = b.pushed ++ all_pushed bs

-- The ticks after the pushes `before`.
abbrev pub ticks : List Push → List Batch → List Tick
ticks before [] = []
ticks before (b ∷ bs) =
    let so_far = before ++ b.pushed in
    record { metrics = pushes so_far new; now = b.now; now_ns = b.now_ns } ∷ ticks so_far bs

abbrev pub shown : List Sent → List LogEntry
shown [] = []
shown (s ∷ ss) = s.entries ++ shown ss

last-history :
    (s : ℕ) (p : Push) (ps : List Push)
    → (q : Push) × (last (history s (p ∷ ps)) ≡ some (entry (s + length ps) q))
last-history s p [] = (p, ap (λ n. some (entry n p)) (omega arith))
last-history s p (q ∷ ps) =
    let (r, e) = last-history (suc s) q ps in (r, e ∙ ap (λ n. some (entry n r)) (omega arith))

next_seq-history :
    (s : ℕ) (ps : List Push) (next : Option ℕ)
    → (length ps ≡ 0 → unwrap_or next 0 ≡ s)
    → s + length ps < 2 ^ 64
    → next_seq (history s ps) next ≡ s + length ps
unfolding next_seq
next_seq-history s [] next e small = omega (arith, e refl)
next_seq-history s (p ∷ ps) next e small = let (q, f) = last-history s p ps in rw f (omega arith)

history-append :
    (s : ℕ) (ps qs : List Push) → history s (ps ++ qs) ≡ history s ps ++ history (s + length ps) qs
history-append s [] qs = ap (λ n. history n qs) (omega arith)
history-append s (p ∷ ps) qs =
    ap (◌∷◌ (entry s p))
      (history-append (suc s) ps qs ∙ ap (λ n. history (suc s) ps ++ history n qs) (omega arith))

-- What a tick shows that has seen the pushes `before`, if no more than the log holds came since.
log_since-batch :
    (before ps : List Push)
    → length ps ≤ 100
    → length before + length ps < 2 ^ 64
    → log_since (pushes (before ++ ps) new) (some (length before)) ≡ history (length before) ps
log_since-batch before ps few small =
    log_since-some (before ++ ps) n (omega (arith, both))
    ∙ ap (λ k. drop k (history 0 (before ++ ps))) {y = n} (omega (arith, both))
    ∙ ap (drop n) (history-append 0 before ps)
    ∙ ap (λ k. drop n (history 0 before ++ history k ps)) {y = n} (omega arith)
    ∙ drop-append_le n (history 0 before) (history n ps) (omega (arith, length-history 0 before))
    ∙ ap (λ xs. xs ++ history n ps)
        (drop-history n 0 before ∙ ap (history (0 + n)) (drop_whole before n (omega arith)))
  where
    n : ℕ
    n = length before

    both : length (before ++ ps) ≡ n + length ps
    both = length-append before ps

    drop_whole : (qs : List Push) (k : ℕ) → length qs ≤ k → drop k qs ≡ []
    drop_whole [] zero h = refl
    drop_whole [] (suc k) h = refl
    drop_whole (q ∷ qs) zero h = absurd (omega arith)
    drop_whole (q ∷ qs) (suc k) h = drop_whole qs k (omega arith)

length-all_pushed-cons :
    (b : Batch) (bs : List Batch)
    → length (all_pushed (b ∷ bs)) ≡ length b.pushed + length (all_pushed bs)
length-all_pushed-cons b bs = length-append b.pushed (all_pushed bs)

sse_handler-after :
    (env : Env) (before : List Push) (bs : List Batch) (s : SseState)
    → All (λ b. length b.pushed ≤ 100) bs
    → length before + length (all_pushed bs) < 2 ^ 64
    → s.next_log_seq ≡ some (length before)
    → shown (sse_handler env (ticks before bs) s) ≡ history (length before) (all_pushed bs)
unfolding sse_handler sse_tick
sse_handler-after env before [] s few small next = refl
sse_handler-after env before (b ∷ bs) s (now, later) small next =
    let entries = log_since (pushes (before ++ b.pushed) new) s.next_log_seq in
    let shown_now : entries ≡ history (length before) b.pushed =
      ap (log_since (pushes (before ++ b.pushed) new)) next
      ∙ log_since-batch before b.pushed now (omega (arith, sum)) in
    let counted : next_seq entries s.next_log_seq ≡ length (before ++ b.pushed) =
      ap (λ es. next_seq es s.next_log_seq) shown_now
      ∙ next_seq-history (length before) b.pushed s.next_log_seq (λ e. ap (λ o. unwrap_or o 0) next)
          (omega (arith, sum))
      ∙ omega (arith, both) in
    ap₂ ◌++◌ shown_now (
      sse_handler-after env (before ++ b.pushed) bs _ later (omega (arith, sum, both))
        (ap some counted))
    ∙ ap (λ n. history (length before) b.pushed ++ history n (all_pushed bs)) both
    ∙ sym (history-append (length before) b.pushed (all_pushed bs))
  where
    sum : length (all_pushed (b ∷ bs)) ≡ length b.pushed + length (all_pushed bs)
    sum = length-all_pushed-cons b bs

    both : length (before ++ b.pushed) ≡ length before + length b.pushed
    both = length-append before b.pushed

-- The event stream shows every entry of the traffic log exactly once and in order: over any ticks,
-- the entries that a client gets, one event after the other, are those that were pushed, from the
-- hundredth before its first tick on, each with its number, if no more than a hundred are pushed
-- between two later ticks. Entries are pushed one at a time, in the order of their numbers.
pub sse_handler-shown :
    (env : Env) (now_ns : ℕ) (b : Batch) (bs : List Batch)
    → All (λ b. length b.pushed ≤ 100) bs
    → length (all_pushed (b ∷ bs)) < 2 ^ 64
    → shown (sse_handler env (ticks [] (b ∷ bs)) (sse_start now_ns))
      ≡ drop (length b.pushed - 100) (history 0 (all_pushed (b ∷ bs)))
unfolding sse_handler sse_tick sse_start
sse_handler-shown env now_ns b bs few small =
    ap₂ ◌++◌ shown_now
      (sse_handler-after env b.pushed bs _ few (omega (arith, sum)) (ap some counted))
    ∙ sym (
        drop-append_le k (history 0 b.pushed) (history (length b.pushed) (all_pushed bs))
          (omega (arith, length-history 0 b.pushed)))
    ∙ ap (drop k) (
        ap (λ n. history 0 b.pushed ++ history n (all_pushed bs)) {y = 0 + length b.pushed}
          (omega arith)
        ∙ sym (history-append 0 b.pushed (all_pushed bs)))
  where
    k : ℕ
    k = length b.pushed - 100

    sum : length (all_pushed (b ∷ bs)) ≡ length b.pushed + length (all_pushed bs)
    sum = length-all_pushed-cons b bs

    entries : List LogEntry
    entries = log_since (pushes b.pushed new) none

    shown_now : entries ≡ drop k (history 0 b.pushed)
    shown_now = log_since-none b.pushed (omega (arith, sum))

    counted : next_seq entries none ≡ length b.pushed
    counted =
        ap (λ es. next_seq es none) (shown_now ∙ drop-history k 0 b.pushed)
        ∙ next_seq-history (0 + k) (drop k b.pushed) none
            (λ e. omega (arith, e, length-drop k b.pushed))
            (omega (arith, sum, length-drop k b.pushed))
        ∙ omega (arith, length-drop k b.pushed)
