-- ===== src/Pairing.antt =====
-- src/bin/ble_pair.rs: the pairing over Bluetooth from the first notification on. The list of
-- notifications has none where a wait runs out of time, and ends where the stream ends. Signing and
-- the serialiser are parameters, and so is the `String` of a text.
pub mod Trust
use seestar_proxy.Base.{
  ℕ, String, Bool, true, false, not, ◌&&◌, ◌||◌, Option, none, some, List, [], ◌∷◌, ◌++◌,
  if◌then◌else◌, is_some, unwrap_or, ◌>>=◌, str_eq, ltb, ◌==◌,
}
use seestar_proxy.Base.Text.{Bytes, Text, from_utf8_lossy, codes}
use seestar_proxy.Json.{
  ℤ, pos, negsuc, Value, string, object, number, pos_int, field, end, get, as_str, as_i64,
}

pub record Args : Type 0 where
  pub sn : String
  pub key : Option String
  pub ssid : Option String
  pub password : Option String

-- `to_vec` is whether a message serialises, `write` whether the write goes well.
pub record Env : Type 0 where
  pub from_slice : Bytes → Option Value
  pub text_of : Text → String
  pub to_vec : Value → Bool
  pub write : Value → Bool
  pub sign_challenge : (key challenge : String) → Option String
  pub utf8_length : String → ℕ

-- What has been sent, latest first, and the notifications to come.
pub record Link : Type 0 where
  pub sent : List Value
  pub notifs : List (Option Bytes)

pub data Result {ℓ} (A : Type ℓ) : Type ℓ where
  ok : A → Link → Result A
  failed panicked : Link → Result A

unfoldable pub and_then {ℓ κ} :
    {A : Type ℓ} {B : Type κ} → Result A → (A → Link → Result B) → Result B
and_then (ok a l) f = f a l
and_then (failed l) f = failed l
and_then (panicked l) f = panicked l

-- The mark of a telescope that trusts the client already.
abbrev pub already_trusted : String
already_trusted = "__already_trusted__"

-- `pointer("/result/str")`, or a result that is a string.
unfoldable pub challenge_of : Value → Option String
unfolding get as_str
challenge_of v = elim (do result ← get v "result"; get result "str") [
  | some s ↦ as_str s
  | none ↦ do result ← get v "result"; as_str result
]

abbrev pub request : ℕ → (ble_method ble_sn : String) → Value → Value
request id ble_method ble_sn params = object (
    field "id" (number (pos_int id)) (
      field "ble_method" (string ble_method)
        (field "ble_sn" (string ble_sn) (field "params" params end))))

unfoldable pub read_challenge : Value → Link → Result String
unfolding challenge_of get
read_challenge resp l = elim (challenge_of resp) [
  | some ch ↦ ok ch l
  | none ↦
      if is_some (get resp "code") || is_some (get resp "error")
      then failed l
      else ok already_trusted l
]

unfoldable pub code_of : Value → ℤ
unfolding get as_i64
code_of resp = unwrap_or (do code ← get resp "code"; as_i64 code) (negsuc 0)

abbrev pub is_zero : ℤ → Bool
is_zero (pos n) = n == 0
is_zero (negsuc n) = false

unfoldable pub check_code : Value → Link → Result {0} Unit
unfolding code_of
check_code resp l = if is_zero (code_of resp) then ok tt l else failed l

-- A code of zero, or neither code nor error.
unfoldable pub accepted : Value → Bool
unfolding get as_i64
accepted resp = elim (do code ← get resp "code"; as_i64 code) [
  | some code ↦ is_zero code
  | none ↦ not (is_some (get resp "error"))
]

module _ (env : Env) where
  unfoldable pub decode : Bytes → Value
  unfolding from_utf8_lossy
  decode bs =
      unwrap_or (env.from_slice bs)
        (object (field "raw" (string (env.text_of (from_utf8_lossy bs))) end))

  -- The wait for the next notification.
  unfoldable pub await_next : List (Option Bytes) → Link → Result Value
  unfolding decode
  await_next [] l = failed l
  await_next (none ∷ ns) l = failed (record l { notifs = ns })
  await_next (some bs ∷ ns) l = ok (decode bs) (record l { notifs = ns })

  -- The message is written without an answer of the link, and the next notification is the response.
  unfoldable pub send_and_recv : Value → Link → Result Value
  unfolding await_next
  send_and_recv msg l =
      if env.to_vec msg && env.write msg
      then await_next l.notifs (record l { sent = msg ∷ l.sent })
      else failed l

  -- What the first notification holds, or an empty text.
  unfoldable pub spontaneous : List (Option Bytes) → String × List (Option Bytes)
  unfolding decode challenge_of
  spontaneous [] = ("", [])
  spontaneous (none ∷ ns) = ("", ns)
  spontaneous (some bs ∷ ns) = (unwrap_or (challenge_of (decode bs)) "", ns)

module _ (env : Env) (args : Args) where
  unfoldable pub obtain_challenge : String → Link → Result String
  unfolding send_and_recv and_then read_challenge
  obtain_challenge challenge l =
      if str_eq challenge ""
      then and_then (send_and_recv env (request 1 "get_verify_str" args.sn (string "verify")) l)
          read_challenge
      else ok challenge l

  -- The quotation of the signature's first and last eight bytes panics if it is shorter.
  unfoldable pub verify : String → Link → Result {0} Unit
  unfolding send_and_recv and_then check_code
  verify challenge l = elim (do key ← args.key; env.sign_challenge key challenge) [
    | none ↦ failed l
    | some signature ↦
        if ltb (env.utf8_length signature) 8
        then panicked l
        else and_then
            (send_and_recv env
              (request 2 "verify_client" args.sn
                (object (field "sign" (string signature) (field "data" (string challenge) end))))
              l)
            check_code
  ]

  unfoldable pub authenticate : Link → Result {0} Unit
  unfolding spontaneous obtain_challenge and_then verify
  authenticate l =
      let (first, ns) = spontaneous env l.notifs in
      and_then (obtain_challenge first (record l { notifs = ns }))
        (λ challenge l'. if str_eq challenge already_trusted then ok tt l' else verify challenge l')

  abbrev pub set_wifi : String → (ssid password : String) → Value
  set_wifi ble_method ssid password =
      request 10 ble_method args.sn
        (object (field "ssid" (string ssid) (field "password" (string password) end)))

  -- The method by which the network was set, if one was accepted.
  unfoldable pub configure : List String → (ssid password : String) → Link → Result (Option String)
  unfolding send_and_recv and_then accepted
  configure [] ssid password l = ok none l
  configure (m ∷ ms) ssid password l =
      let later = configure ms ssid password in
      and_then (send_and_recv env (set_wifi m ssid password) l)
        (λ resp l'. if accepted resp then ok (some m) l' else later l')

  unfoldable pub wifi : Link → Result (Option String)
  unfolding configure send_and_recv and_then
  wifi l = elim args.ssid [
    | none ↦ show_info l
    | some ssid ↦ elim args.password [
      | none ↦ show_info l
      | some password ↦ configure ("iscope_set_wifi" ∷ "set_wifi_ssid" ∷ []) ssid password l
    ]
  ]
    where
      show_info : Link → Result (Option String)
      show_info l =
          and_then (send_and_recv env (request 100 "get_wifi_info" args.sn (object end)) l)
            (λ resp l'. ok none l')

  unfoldable pub pair : List (Option Bytes) → Result (Option String)
  unfolding authenticate and_then wifi
  pair notifs = and_then (authenticate (record { sent = []; notifs = notifs })) (λ done l. wifi l)
