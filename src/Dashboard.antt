-- ===== src/Dashboard.antt =====
-- src/dashboard.rs: what the dashboard serves. axum, and the formatting and arithmetic of doubles, are
-- parameters; a handler is what it answers.
pub mod Stream
use seestar_proxy.Base.{
  ℕ, ◌+◌, ◌-◌, ◌^◌, String, Bool, true, false, Option, none, some, List, [], ◌∷◌, ltb,
  if◌then◌else◌, unwrap_or, map,
}
use mathlib.Core.Option
use seestar_proxy.Base.Text.{Text}
use seestar_proxy.Json.{
  ℤ, pos, negsuc, Value, null, boolean, number, pos_int, neg_int, float, string, array, object,
  Items, nil, cons, Fields, field, end, Serde,
}
use seestar_proxy.Metrics.{Metrics, LogEntry, TelescopeStatusSnapshot, Now, u64, log_since}

-- What is done with doubles, as their bits: a count over a number of nanoseconds, of which at least a
-- millisecond is taken, per second; rounded to tenths; and as a `u64`.
pub record Rates : Type 0 where
  pub per_second : ℕ → ℕ → ℕ
  pub to_tenths : ℕ → ℕ
  pub to_u64 : ℕ → ℕ
  pub zero : ℕ

-- The libraries: serde_json, a `String` as one of a JSON value, and doubles.
pub record Env : Type 0 where
  pub serde : Serde
  pub of_text : Text → String
  pub rates : Rates

abbrev pub int : ℤ → Value
int (pos n) = number (pos_int n)
int (negsuc n) = number (neg_int n)

-- The value of the 32 bits of an `i32`.
abbrev pub of_i32 : ℕ → ℤ
of_i32 bits = if ltb bits (2 ^ 31) then pos bits else negsuc (2 ^ 32 - 1 - bits)

abbrev pub opt {ℓ} : {A : Type ℓ} → (A → Value) → Option A → Value
opt f none = null
opt f (some a) = f a

-- The derived `Serialize`.
unfoldable pub entry_value : Env → LogEntry → Value
entry_value env e = object (
    field "seq" (number (pos_int e.seq)) (
      field "elapsed_ms" (number (pos_int e.elapsed_ms)) (
        field "timestamp_ms" (number (pos_int e.timestamp_ms)) (
          field "channel" (string e.channel) (
            field "summary" (string e.summary)
              (field "payload" (opt (λ t. string (env.of_text t)) e.payload) end))))))

unfoldable pub status_value : TelescopeStatusSnapshot → Value
status_value s = object (
    field "battery" (opt int s.battery) (
      field "temperature" (opt (λ x. number (float x)) s.temperature) (
        field "is_stacking" (boolean s.is_stacking) (
          field "stack_count" (int s.stack_count) (
            field "is_goto" (boolean s.is_goto) (
              field "is_homing" (boolean s.is_homing) (
                field "tracking" (boolean s.tracking) (
                  field "view_mode" (opt string s.view_mode) (
                    field "charger_status" (opt string s.charger_status) (
                      field "last_event" (opt string s.last_event) (
                        field "last_event_ts_ms" (number (pos_int s.last_event_ts_ms))
                          end)))))))))))

abbrev items : List Value → Items
items [] = nil
items (v ∷ vs) = cons v (items vs)

-- The three rates are those of messages, frames and bytes.
unfoldable pub build_payload : Env → Now → Metrics → (ctrl frames bps : ℕ) → List LogEntry → Value
unfolding entry_value status_value
build_payload env now m ctrl frames bps entries = object (
    field "uptime_ms" (number (pos_int now.elapsed_ms)) (
      field "control_clients" (int (of_i32 m.control_clients)) (
        field "imaging_clients" (int (of_i32 m.imaging_clients)) (
          field "control_rx" (number (pos_int m.control_rx)) (
            field "control_tx" (number (pos_int m.control_tx)) (
              field "control_events" (number (pos_int m.control_events)) (
                field "imaging_frames" (number (pos_int m.imaging_frames))
                  (field "imaging_bytes" (number (pos_int m.imaging_bytes)) rates))))))))
  where
    last : Fields
    last =
        field "log_entries" (array (items (map (entry_value env) entries)))
          (field "telescope_status" (status_value m.telescope_status) end)

    rates : Fields
    rates = field "upstream_control_up" (boolean m.upstream_control_up) (
        field "upstream_imaging_up" (boolean m.upstream_imaging_up) (
          field "control_rx_rate" (number (float ctrl)) (
            field "imaging_frame_rate" (number (float frames))
              (field "imaging_bytes_rate" (number (pos_int (env.rates.to_u64 bps))) last))))

unfoldable pub stats_handler : Env → Now → Metrics → Value
unfolding build_payload
stats_handler env now m = let z = env.rates.zero in build_payload env now m z z z []

-- The state of one stream; the metrics are shared, and given at each tick.
pub record SseState : Type 0 where
  pub next_log_seq : Option ℕ
  pub last_ctrl_rx : ℕ
  pub last_img_frames : ℕ
  pub last_img_bytes : ℕ
  pub last_tick : ℕ

unfoldable pub sse_start : ℕ → SseState
sse_start now_ns = record {
  next_log_seq = none;
  last_ctrl_rx = 0;
  last_img_frames = 0;
  last_img_bytes = 0;
  last_tick = now_ns;
}

abbrev pub last {ℓ} : {A : Type ℓ} → List A → Option A
last [] = none
last (x ∷ []) = some x
last (x ∷ y ∷ xs) = last (y ∷ xs)

-- `entries.last().map(|e| e.seq + 1).unwrap_or(..)`.
unfoldable pub next_seq : List LogEntry → Option ℕ → ℕ
next_seq entries next = elim (last entries) [ none ↦ unwrap_or next 0 | some e ↦ u64 (e.seq + 1) ]

-- What a tick reads: the metrics and the clocks.
pub record Tick : Type 0 where
  pub metrics : Metrics
  pub now : Now
  pub now_ns : ℕ

-- The log entries of a tick, and the data of its event.
pub record Sent : Type 0 where
  pub entries : List LogEntry
  pub event : Text

-- One turn of `stream::unfold`, after its sleep.
unfoldable pub sse_tick : Env → Tick → SseState → SseState × Sent
unfolding next_seq log_since build_payload
sse_tick env t s =
    let m = t.metrics in
    let dt = t.now_ns - s.last_tick in
    let rate = λ (now before : ℕ). env.rates.per_second (now - before) dt in
    let entries = log_since m s.next_log_seq in
    let payload =
      build_payload env t.now m (env.rates.to_tenths (rate m.control_rx s.last_ctrl_rx))
        (env.rates.to_tenths (rate m.imaging_frames s.last_img_frames))
        (rate m.imaging_bytes s.last_img_bytes) entries in
    (
      record {
        next_log_seq = some (next_seq entries s.next_log_seq);
        last_ctrl_rx = m.control_rx;
        last_img_frames = m.imaging_frames;
        last_img_bytes = m.imaging_bytes;
        last_tick = t.now_ns;
      },
      record { entries = entries; event = unwrap_or (env.serde.to_string payload) [] },
    )

unfoldable pub sse_handler : Env → List Tick → SseState → List Sent
unfolding sse_tick
sse_handler env [] s = []
sse_handler env (t ∷ ts) s = let (s', sent) = sse_tick env t s in sent ∷ sse_handler env ts s'

-- What a handler answers: a document of a content type, or `404 Not Found`.
pub data Response : Type 0 where
  ok : (content_type : String) → Text → Response
  not_found : Response

pub record DashboardState : Type 0 where
  pub wg_config : Option Text
  pub wg_qr_svg : Option Text
  pub wg_enabled : Bool
  pub wg_endpoint : Option Text

abbrev optional : String → Option Text → Response
optional content_type none = not_found
optional content_type (some t) = ok content_type t

unfoldable pub wg_config_handler : DashboardState → Response
wg_config_handler ds = optional "text/plain" ds.wg_config

unfoldable pub wg_qr_handler : DashboardState → Response
wg_qr_handler ds = optional "image/svg+xml" ds.wg_qr_svg
