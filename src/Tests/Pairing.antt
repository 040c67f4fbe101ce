-- ===== src/Tests/Pairing.antt =====
-- src/bin/ble_pair.rs: a pairing with a challenge, a signature and a network.
use seestar_proxy.Base.{◌≡◌, refl, ◌⊎◌, true, Option, none, some, List, [], ◌∷◌, if◌then◌else◌, All}
use seestar_proxy.Base.Text.{Bytes, codes, text_eq}
use seestar_proxy.Json.{
  Value, string, object, number, pos_int, field, end, get, lookup, as_str, as_i64,
}
use seestar_proxy.Pairing.{
  Args, Env, Link, ok, failed, challenge_of, pair, and_then, authenticate, spontaneous, decode,
  obtain_challenge, send_and_recv, await_next, read_challenge, verify, check_code, code_of, wifi,
  configure, accepted,
}
use seestar_proxy.Pairing.Trust.{Other, link_of, Vouched, pair-Vouched}

abbrev args : Args
args = record {
  sn = "token";
  key = some "client.pem";
  ssid = some "home";
  password = some "secret";
}

-- "c" is a challenge, "z" the code zero, "e" an error.
abbrev from_slice : Bytes → Option Value
from_slice t =
    if text_eq t (codes "c")
    then some (object (field "result" (string "abc") end))
    else if text_eq t (codes "z")
    then some (object (field "code" (number (pos_int 0)) end))
    else if text_eq t (codes "e")
    then some (object (field "error" (string "no") end))
    else none

abbrev env : Env
env = record {
  from_slice = from_slice;
  text_of = λ t. "text";
  to_vec = λ v. true;
  write = λ v. true;
  sign_challenge = λ k c. some "c2lnbmF0dXJl";
  utf8_length = λ s. 12;
}

abbrev answers : List (Option Bytes)
answers = none ∷ some (codes "c") ∷ some (codes "z") ∷ some (codes "e") ∷ some (codes "z") ∷ []

pair-Vouched_example :
    All Other (link_of (pair env args answers)).sent
    ⊎ ((rest : List (Option Bytes)) × Vouched env answers rest)
pair-Vouched_example = pair-Vouched env args answers

-- The second method sets the network.
network_set : (l : Link) × (pair env args answers ≡ ok (some "set_wifi_ssid") l)
unfolding pair and_then authenticate spontaneous decode obtain_challenge send_and_recv await_next
    read_challenge verify check_code code_of wifi configure accepted challenge_of text_eq get lookup
    as_str as_i64
network_set = (_, refl)

-- An error in place of a challenge ends the pairing.
no_challenge : (l : Link) × (pair env args (none ∷ some (codes "e") ∷ []) ≡ failed l)
unfolding pair and_then authenticate spontaneous decode obtain_challenge send_and_recv await_next
    read_challenge verify check_code code_of wifi configure accepted challenge_of text_eq get lookup
    as_str as_i64
no_challenge = (_, refl)

-- A network whose name holds nothing but text is no challenge: what cannot be parsed is its text.
raw_text : challenge_of (decode env (codes "?")) ≡ none
unfolding decode challenge_of text_eq get lookup as_str
raw_text = refl
