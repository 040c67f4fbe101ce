-- ===== src/Tests/Discovery.antt =====
-- src/discovery.rs: a bridge that meets a request and then the telescope's answer.
use seestar_proxy.Base.{◌≡◌, refl, Bool, true, false, Option, none, some, [], ◌∷◌, All}
use seestar_proxy.Base.Text.{codes, text_eq}
use seestar_proxy.Json.{Value, object, field, end, string, lookup, insert, get, as_str}
use seestar_proxy.Discovery.{
  Env, Bridge, Address, start, run, patch_ip, set_ip, has_real_info, serial,
}
use seestar_proxy.Discovery.Replies.{MaySend, run-MaySend}

abbrev info : Value
info = object (field "result" (object (field "sn" (string "proxy") end)) end)

abbrev request : Value
request = object (field "method" (string "scan_iscope") end)

abbrev env : Env
env = record {
  from_str = λ t. if_asked (text_eq t (codes "ask"));
  to_vec = λ v. some (codes "json");
  proxy_ip = "10.0.0.5";
  upstream_ip = 10 ∷ 0 ∷ 0 ∷ 1 ∷ [];
}
  where
    if_asked : Bool → Option Value
    if_asked true = some request
    if_asked false = none

abbrev app : Address
app = record { ip = 10 ∷ 0 ∷ 0 ∷ 7 ∷ []; port = 4720 }

abbrev bridge : Bridge
bridge = record {
  device_info = object (
      field "result" (object (field "sn" (string "proxy") (field "ip" (string "10.0.0.5") end)))
        end);
  have_real_info = false;
}

started : start env info ≡ some bridge
unfolding start patch_ip set_ip has_real_info serial get as_str lookup insert
started = refl

run-MaySend_example : All (MaySend env) (run env ((app, codes "ask") ∷ []) bridge).1
run-MaySend_example = run-MaySend env info bridge ((app, codes "ask") ∷ []) started
