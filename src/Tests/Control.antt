-- ===== src/Tests/Control.antt =====
-- src/control.rs at a concrete proxy: one client, one request and its answer.
use seestar_proxy.Base.{
  ◌≡◌, refl, true, false, Option, none, some, List, [], ◌∷◌, ◌++◌, arith, if◌then◌else◌, replicate,
}
use seestar_proxy.Base.Text.{Text, codes, text_eq, from_utf8_lossy, trim, utf8_len}
use seestar_proxy.Json
use seestar_proxy.Json.{Value, object, field, end, number, pos_int, string, Serde, Floats, pos}
use seestar_proxy.Protocol.{json_rpc_id, is_event, get_id, set_json_rpc_id_value}
use seestar_proxy.Control.Pending
use seestar_proxy.Control.Pending.{PendingRequest, PendingMap, lookup, insert, remove}
use seestar_proxy.Control.State.{
  Proxy, Env, Effect, to_client, to_all, serialise, next, recorded, from_client, from_telescope,
  record_if,
}
use seestar_proxy.Lines.{newline, bytes, Stream}
use seestar_proxy.Control.Session.{handle_client}
use seestar_proxy.Control.Session.Lines.{handle_lines, handle_client-lines}
use seestar_proxy.Control.Panics.{handle_message-next}
use seestar_proxy.Control.Client.{handle_line, request_action}
use seestar_proxy.Control.Upstream.{handle_message, heartbeat, can_hint, response_forwarded}
use seestar_proxy.Control.Steps.{init, run, heartbeats, reader_up}
use seestar_proxy.Control.Invariant.{Inv, run-init-Inv}
use seestar_proxy.Control.Routing.{Submits, owner, handle_line_full}
use seestar_proxy.Control.Routing.Fates.{Fate, handle_line-Fate}
use seestar_proxy.Control.Routing.Answers.{Answers}
use seestar_proxy.Control.Delivery.{delivery, heartbeat-broadcast}

abbrev pub request : Value
request = object (field "id" (number (pos_int 7)) (field "method" (string "get_time") end))

abbrev pub answer : Value
answer = object (field "id" (number (pos_int 100_000)) (field "code" (number (pos_int 0)) end))

-- A parser that knows two texts, and a printer.
abbrev from_str : Text → Option Value
from_str t =
    if text_eq t (codes "ask")
    then some request
    else if text_eq t (codes "answer")
    then some answer
    else none

abbrev pub env : Env
env = record {
  serde = record { from_str = from_str; to_string = λ v. some (codes "json") };
  floats = record { of_u64 = λ n. n; of_negative = λ n. n; round_i64 = λ x. pos x };
  now = record { elapsed_ms = 5; epoch_ms = 1000 };
  recording = true;
  hooks = none;
  debug_on = false;
  upstream_open = true;
  client_open = λ c. true;
  client_room = λ c. true;
}

abbrev pub start : Proxy
start = init none

start-Inv : Inv start
unfolding init run
start-Inv = run-init-Inv none [] (omega arith)

unfoldable pub submits :
    Submits env (codes " ask ") request (number (pos_int 7)) (codes "json") start
unfolding get_id request_action init text_eq from_utf8_lossy trim Json.lookup
submits = record {
  head = b'a';
  tail = codes "sk";
  short = refl;
  trimmed = refl;
  parses = refl;
  passes = refl;
  has_id = refl;
  prints = refl;
}

pub answers : Answers env (codes "answer") answer 100_000
unfolding json_rpc_id is_event can_hint text_eq from_utf8_lossy trim utf8_len Json.lookup
answers = record { reads = refl; no_event = refl; has_id = refl }

run-init-Inv_example : Inv (run (reader_up true ∷ heartbeats env ∷ []) (init none)).0
run-init-Inv_example = run-init-Inv none (reader_up true ∷ heartbeats env ∷ []) (omega arith)

-- A map with no room left.
abbrev full : Proxy
full = record start { pending = replicate 1024 (5, owner 4 (number (pos_int 1))) }

full_submits : Submits env (codes " ask ") request (number (pos_int 7)) (codes "json") full
unfolding get_id request_action init text_eq from_utf8_lossy trim Json.lookup
full_submits = record {
  head = b'a';
  tail = codes "sk";
  short = refl;
  trimmed = refl;
  parses = refl;
  passes = refl;
  has_id = refl;
  prints = refl;
}

full_refused :
    let (q, effects, flow) = handle_line env 3 (codes " ask ") full in
    (q.pending ≡ full.pending)
    × (effects ≡ recorded from_client (codes "ask") ∷ to_client 3 (codes "json") ∷ [])
    × (flow ≡ next)
unfolding full_submits
full_refused =
    handle_line_full env 3 (codes " ask ") request (number (pos_int 7)) (codes "json") full
      full_submits (omega arith)

handle_line-Fate_example :
    let (q, effects, flow) = handle_line env 3 (codes " ask ") start in
    (es : List Effect) × (effects ≡ record_if env from_client (codes "ask") ++ es)
    × Fate env 3 (number (pos_int 7)) (codes "json") start q es flow
unfolding submits
handle_line-Fate_example =
    handle_line-Fate env 3 (codes " ask ") request (number (pos_int 7)) (codes "json") start submits
      start-Inv

abbrev cut_off : Env
cut_off = record env { upstream_open = false }

cut_off_submits : Submits cut_off (codes " ask ") request (number (pos_int 7)) (codes "json") start
unfolding get_id request_action init text_eq from_utf8_lossy trim Json.lookup
cut_off_submits = record {
  head = b'a';
  tail = codes "sk";
  short = refl;
  trimmed = refl;
  parses = refl;
  passes = refl;
  has_id = refl;
  prints = refl;
}

-- The proxy while client 3 waits for the answer to its request.
abbrev waiting : Proxy
waiting = record start { next_id = 100_001; pending = (100_000, owner 3 (number (pos_int 7))) ∷ [] }

delivery_example :
    let q = (handle_line env 3 (codes " ask ") start).0 in
    let (r, effects, flow) = handle_message env (codes "answer") (run (heartbeats env ∷ []) q).0 in
    (effects
      ≡ record_if env from_telescope (trim (from_utf8_lossy (codes "answer")))
        ++ to_client 3 (serialise env (set_json_rpc_id_value answer (number (pos_int 7)))) ∷ [])
    × (Pending.lookup 100_000 r.pending ≡ none)
unfolding init
delivery_example =
    delivery env env 3 (codes " ask ") (codes "answer") request (number (pos_int 7)) (codes "json")
      answer (heartbeats env ∷ []) start start-Inv (omega arith) submits (omega arith) refl
      (refl, tt) answers refl

-- After the first answer.
abbrev answered : Proxy
answered = record start { next_id = 100_001 }

answered-Inv : Inv answered
unfolding init
answered-Inv = record { distinct = tt; issued = tt; bounded = omega arith }

abbrev shaken : Proxy
shaken = record start { handshake_done = true }

shaken-Inv : Inv shaken
unfolding init
shaken-Inv = record { distinct = tt; issued = tt; bounded = omega arith }

heartbeat-broadcast_example :
    (handle_message env (codes "answer") (run [] (heartbeat env shaken).0).0).1
    ≡ record_if env from_telescope (trim (from_utf8_lossy (codes "answer")))
      ++ (if response_forwarded env answer
          then to_all (trim (from_utf8_lossy (codes "answer"))) ∷ []
          else [])
unfolding init
heartbeat-broadcast_example =
    heartbeat-broadcast env env (codes "answer") answer [] shaken shaken-Inv (omega arith) refl
      answers

-- The line `ask` in two reads.
abbrev pieces : Stream
pieces = bytes (codes "as") ∷ bytes (b'k' ∷ newline ∷ []) ∷ []

handle_client-lines_example :
    handle_client env 3 pieces start ≡ handle_lines env 3 (codes "ask" ∷ []) start
handle_client-lines_example =
    handle_client-lines env 3 pieces (codes "ask" ∷ []) start (omega arith, (omega arith, tt))
      ((refl, (refl, (refl, tt))), tt) (omega arith, tt) refl

handle_message-next_example : (handle_message env (codes "answer") waiting).2 ≡ next
unfolding from_utf8_lossy trim
handle_message-next_example =
    handle_message-next env (codes "answer") waiting
      (omega arith, (omega arith, (omega arith, (omega arith, (omega arith, (omega arith, tt))))))
