-- ===== src/Tests/Dashboard.antt =====
-- src/dashboard.rs: the event stream over a short traffic log.
use seestar_proxy.Base.{
  ℕ, ◌-◌, ◌^◌, ◌≡◌, refl, false, some, none, List, [], ◌∷◌, arith, length, drop, map,
}
use seestar_proxy.Json.{get, number, neg_int, lookup}
use seestar_proxy.Metrics.{LogEntry, Now, new, push_log_with_payload}
use seestar_proxy.Metrics.Log.{Push, history}
use seestar_proxy.Dashboard.{
  Env, Tick, DashboardState, not_found, sse_start, sse_handler, build_payload, wg_config_handler,
  wg_qr_handler,
}
use seestar_proxy.Dashboard.Stream.{Batch, all_pushed, ticks, shown, sse_handler-shown}

abbrev pub env : Env
env = record {
  serde = record { from_str = λ t. none; to_string = λ v. some [] };
  of_text = λ t. "payload";
  rates = record { per_second = λ n dt. n; to_tenths = λ x. x; to_u64 = λ x. x; zero = 0 };
}

abbrev pub now : Now
now = record { elapsed_ms = 5; epoch_ms = 1000 }

abbrev pushed : Push
pushed = record { now = now; channel = "ctrl-rx"; summary = "scan"; payload = none }

abbrev first : Batch
first = record { pushed = pushed ∷ pushed ∷ []; now = now; now_ns = 1_000_000_000 }

abbrev quiet : Batch
quiet = record { pushed = []; now = now; now_ns = 2_000_000_000 }

abbrev second : Batch
second = record { pushed = pushed ∷ []; now = now; now_ns = 3_000_000_000 }

shown_seqs :
    map
      (λ s. map (λ (e : LogEntry). e.seq) s.entries)
      (sse_handler env (ticks [] (first ∷ quiet ∷ second ∷ [])) (sse_start 0))
    ≡ (0 ∷ 1 ∷ []) ∷ [] ∷ (2 ∷ []) ∷ []
unfolding sse_handler sse_start push_log_with_payload new
shown_seqs = refl

sse_handler-shown_example :
    shown (sse_handler env (ticks [] (first ∷ quiet ∷ second ∷ [])) (sse_start 0))
    ≡ drop (length first.pushed - 100) (history 0 (all_pushed (first ∷ quiet ∷ second ∷ [])))
sse_handler-shown_example =
    sse_handler-shown env 0 first (quiet ∷ second ∷ []) (omega arith, (omega arith, tt))
      (omega arith)

-- Two tasks that number their entries before either has the lock can push them in the other order;
-- a tick between the two pushes then passes over the first number for good.
abbrev numbered : ℕ → LogEntry
numbered n = record {
  seq = n;
  elapsed_ms = 5;
  timestamp_ms = 1000;
  channel = "ctrl-rx";
  summary = "scan";
  payload = none;
}

abbrev reordered : List Tick
reordered =
    record { metrics = record new { log = numbered 6 ∷ [] }; now = now; now_ns = 1 }
    ∷ record { metrics = record new { log = numbered 6 ∷ numbered 5 ∷ [] }; now = now; now_ns = 2 }
    ∷ []

passed_over : shown (sse_handler env reordered (sse_start 0)) ≡ numbered 6 ∷ []
unfolding sse_handler sse_start new
passed_over = refl

-- Minus one client: the 32 bits of an `i32` are read with their sign.
one_too_few :
    get
      (build_payload env now (record new { control_clients = 2 ^ 32 - 1 }) 0 0 0 [])
      "control_clients"
    ≡ some (number (neg_int 0))
unfolding build_payload get new lookup
one_too_few = refl

abbrev disabled : DashboardState
disabled = record { wg_config = none; wg_qr_svg = none; wg_enabled = false; wg_endpoint = none }

wg_disabled : (wg_config_handler disabled ≡ not_found) × (wg_qr_handler disabled ≡ not_found)
unfolding wg_config_handler wg_qr_handler
wg_disabled = (refl, refl)
