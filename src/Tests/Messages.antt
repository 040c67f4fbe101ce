-- ===== src/Tests/Messages.antt =====
-- src/protocol.rs at concrete messages and headers.
use seestar_proxy.Base.{none, ◌≡◌, arith, replicate}
use seestar_proxy.Json.{Value, object, field, end, number, neg_int, string}
use seestar_proxy.Protocol.{FrameHeader, parse}
use seestar_proxy.Protocol.Headers.{encode, parse-encode}
use seestar_proxy.Base.Text.{codes}
use seestar_proxy.Json.{Serde}
use seestar_proxy.Hooks.{returned, string, call_message_hook}
use seestar_proxy.Hooks.Blocking.{Meaning, call_message_hook-Meaning}

abbrev request : Value
request = object (field "id" (number (neg_int 0)) (field "method" (string "get_time") end))

-- The preview header of the module's own tests.
abbrev preview : FrameHeader
preview = record { size = 1_833_419; code = 3; id = 20; width = 1080; height = 1920 }

parse-encode_example :
    parse (encode (3, 0xc3, 0, 2, 0, 80) (0, 0, 0, 0) (replicate 60 0) preview) ≡ preview
parse-encode_example =
    parse-encode (3, 0xc3, 0, 2, 0, 80) (0, 0, 0, 0) (replicate 60 0) preview (omega arith)

abbrev serde : Serde
serde = record { from_str = λ t. none; to_string = λ v. none }

call_message_hook-Meaning_example :
    Meaning serde
      (returned (string (codes "drop")))
      (call_message_hook serde (returned (string (codes "drop"))))
call_message_hook-Meaning_example =
    call_message_hook-Meaning serde (returned (string (codes "drop")))
