-- ===== src/Hooks.antt =====
-- src/hooks.rs: what a hook's answer means. The Lua interpreter is a parameter: a message is given
-- with what the script did with it.
pub mod Telescope
pub mod Loading
pub mod Blocking
use seestar_proxy.Base.{
  Bool, true, false, ◌||◌, Option, none, some, if◌then◌else◌, unwrap_or, ◌>>=◌,
}
use seestar_proxy.Base.Text.{Text, codes, text_eq}
use seestar_proxy.Json.{Value, object, Serde, get, as_bool, remove}

pub data HookAction : Type 0 where
  forward : HookAction
  block : HookAction
  modify : Text → HookAction
  reply : Text → HookAction

-- A Lua value, as far as `call_message_hook` tells them apart. A table carries the JSON that
-- `from_value` makes of it, if it makes one.
pub data LuaValue : Type 0 where
  nil : LuaValue
  string : Text → LuaValue
  boolean : Bool → LuaValue
  table : Option Value → LuaValue
  other : LuaValue

-- One call of a message hook: whether the function is there, the message converts, and the call
-- returns.
pub data Call : Type 0 where
  no_function : Call
  conversion_error : Call
  call_error : Call
  returned : LuaValue → Call

interpret_string : Text → HookAction
unfolding text_eq
interpret_string s =
    if text_eq s (codes "block") || text_eq s (codes "drop") || text_eq s (codes "reject")
    then block
    else if text_eq s (codes "forward") || text_eq s (codes "pass")
    then forward
    else modify s

unfoldable pub remove_reply : Value → Value
unfolding remove
remove_reply (object fs) = object (remove "_reply" fs)
remove_reply v = v

interpret_table : Serde → Value → HookAction
unfolding get as_bool remove_reply
interpret_table serde modified =
    if unwrap_or (do v ← get modified "_reply"; as_bool v) false
    then elim (serde.to_string (remove_reply modified)) [ some s ↦ reply s | none ↦ block ]
    else elim (serde.to_string modified) [ some s ↦ modify s | none ↦ forward ]

interpret : Serde → LuaValue → HookAction
unfolding interpret_string interpret_table
interpret serde nil = forward
interpret serde (string s) = interpret_string s
interpret serde (boolean true) = forward
interpret serde (boolean false) = block
interpret serde (table (some modified)) = interpret_table serde modified
interpret serde (table none) = forward
interpret serde other = forward

unfoldable pub call_message_hook : Serde → Call → HookAction
unfolding interpret
call_message_hook serde no_function = forward
call_message_hook serde conversion_error = forward
call_message_hook serde call_error = forward
call_message_hook serde (returned v) = interpret serde v

-- The engine, as the flags that `new` sets and the scripts' answers to a message.
pub record HookEngine : Type 0 where
  pub has_on_request : Bool
  pub has_on_response : Bool
  pub has_on_event : Bool
  pub request_call : Value → Call
  pub response_call : Value → Call
  pub event_call : Value → Call

unfoldable pub on_request : Serde → HookEngine → Value → HookAction
unfolding call_message_hook
on_request serde h msg =
    if h.has_on_request then call_message_hook serde (h.request_call msg) else forward

unfoldable pub on_response : Serde → HookEngine → Value → HookAction
unfolding call_message_hook
on_response serde h msg =
    if h.has_on_response then call_message_hook serde (h.response_call msg) else forward

unfoldable pub on_event : Serde → HookEngine → Value → HookAction
unfolding call_message_hook
on_event serde h msg =
    if h.has_on_event then call_message_hook serde (h.event_call msg) else forward
