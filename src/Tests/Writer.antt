-- ===== src/Tests/Writer.antt =====
-- src/control.rs: the upstream task with a request that is there before the connection.
use seestar_proxy.Base.{
  ◌+◌, ◌≤◌, ◌≡◌, refl, true, false, [], ◌∷◌, ◌++◌, map, if◌then◌else◌, replicate,
}
use seestar_proxy.Base.Text.{codes, from_utf8_lossy, trim, can_slice}
use seestar_proxy.Json.{number, pos_int}
use seestar_proxy.Control.State.{
  from_client, from_telescope, to_client, to_all, to_telescope, record_if, serialise, reconnecting,
}
use seestar_proxy.Control.Steps.{init}
use seestar_proxy.Control.Upstream.{reconnect, fail_pending, response_forwarded}
use seestar_proxy.Control.Writer.{
  lost, dropped, Link, connecting, shared, wrote, telescope_sends, connected, took, injected, turn,
  run,
}
use seestar_proxy.Control.Channel.{as_lines}
use seestar_proxy.Control.Writer.Order.{
  entered, gone, losses, crashes, connects, open_links, alive, run-order,
}
use seestar_proxy.Control.Writer.Late.{early, early-answered}
use seestar_proxy.Tests.Control.{env, start, request, answer, submits, answers}

abbrev link : Link
link = record { proxy = start; queue = []; phase = connecting }

run-order_example :
    let es =
      injected (codes "auth")
      ∷ connected env
      ∷ took false false
      ∷ injected (codes "again")
      ∷ connected env
      ∷ took false true
      ∷ [] in
    let (l', outs) = run es link in
    (gone outs ++ as_lines l'.queue ≡ as_lines (entered outs))
    × (losses outs + open_links l'.phase ≤ connects es + 0)
    × (crashes outs + alive l'.phase ≤ 1)
run-order_example =
    run-order
      (injected (codes "auth")
        ∷ connected env
        ∷ took false false
        ∷ injected (codes "again")
        ∷ connected env
        ∷ took false true
        ∷ [])
      link

-- The first of two messages is lost with the connection, the second is written.
second_written :
    (run
      (injected (codes "auth")
        ∷ connected env
        ∷ took false false
        ∷ injected (codes "again")
        ∷ connected env
        ∷ took false true
        ∷ [])
      link).1
    ≡ shared (to_telescope (codes "auth"))
      ∷ lost (codes "auth")
      ∷ shared (to_telescope (codes "again"))
      ∷ wrote (codes "again\r\n")
      ∷ []
unfolding run reconnect fail_pending init
second_written = refl

-- A panic in the slice for the log drops what waits, and a later message is not taken.
panic_drops :
    (run
      (injected (replicate 199 97 ++ 195 ∷ 169 ∷ [])
        ∷ injected (codes "again")
        ∷ connected env
        ∷ took true true
        ∷ injected (codes "late")
        ∷ [])
      link).1
    ≡ shared (to_telescope (replicate 199 97 ++ 195 ∷ 169 ∷ []))
      ∷ shared (to_telescope (codes "again"))
      ∷ dropped ((replicate 199 97 ++ 195 ∷ 169 ∷ []) ∷ codes "again" ∷ [])
      ∷ []
unfolding run reconnect fail_pending init can_slice
panic_drops = refl

early-answered_example :
    let (l', outs) = early env env 3 (codes " ask ") false link in
    let t = trim (from_utf8_lossy (codes "answer")) in
    (outs
      ≡ map shared (record_if env from_client (codes "ask") ++ to_telescope (codes "json") ∷ [])
        ++ shared (to_client 3 (serialise env (reconnecting (number (pos_int 7)))))
          ∷ wrote (codes "json\r\n")
          ∷ [])
    × ((turn (telescope_sends env (codes "answer")) l').1
        ≡ map shared (
            record_if env from_telescope t
            ++ (if response_forwarded env answer then to_all t ∷ [] else [])))
unfolding init submits can_slice
early-answered_example =
    early-answered env env env 3 (codes " ask ") (codes "answer") request (number (pos_int 7))
      (codes "json") answer false link refl refl refl submits refl refl refl refl answers
