-- ===== src/Hooks/Loading.antt =====
-- src/hooks.rs: loading the scripts, `telescope.send`, and the hooks on clients. The interpreter is a
-- parameter with a state of its own.
use seestar_proxy.Base.{
  String, ◌≡◌, refl, ap, Bool, true, false, ◌&&◌, Option-cases, inl, inr, Option, none, some, List,
  [], ◌∷◌, ◌++◌, if◌then◌else◌, if_lem, sym, ◌∙◌,
}
use seestar_proxy.Base.Text.{Text}
use seestar_proxy.Json.{Value, Serde}

-- The state that a fresh interpreter has once the telescope's table and `log` are set; a script, which
-- may fail; whether a global is a function; and a call of one, with whether it returns.
pub record Lua (S : Type 0) : Type 0 where
  pub fresh : S
  pub exec : Text → S → Option S
  pub defines : S → String → Bool
  pub call : String → List String → S → S × Bool

pub data Loaded (A : Type 0) : Type 0 where
  loaded : A → Loaded A
  unreadable script_error : (path : String) → Loaded A

-- The engine with its interpreter, the flags of the hooks that are called, and whether it has the
-- channel to the telescope.
pub record Engine (S : Type 0) : Type 0 where
  pub lua : S
  pub has_on_request : Bool
  pub has_on_response : Bool
  pub has_on_event : Bool
  pub has_on_upstream_connect : Bool
  pub has_on_client_connect : Bool
  pub has_on_client_disconnect : Bool
  pub upstream_tx : Bool

-- What becomes of a message of `telescope.send`.
pub data Sent : Type 0 where
  queued : Text → Sent
  ignored conversion_error json_error channel_error : Sent

module _ (S : Type 0) (lua : Lua S) (read : String → Option Text) where
  -- One script.
  unfoldable pub load_script : String → S → Loaded S
  load_script path s = elim (read path) [
    | none ↦ unreadable path
    | some source ↦ elim (lua.exec source s) [ none ↦ script_error path | some s' ↦ loaded s' ]
  ]

  unfoldable pub load_scripts : List String → S → Loaded S
  unfolding load_script
  load_scripts [] s = loaded s
  load_scripts (path ∷ paths) s =
      let rest = load_scripts paths in
      elim (load_script path s) [
        | loaded s' ↦ rest s'
        | unreadable p ↦ unreadable p
        | script_error p ↦ script_error p
      ]

  unfoldable pub engine_of : S → Engine S
  engine_of s = record {
    lua = s;
    has_on_request = lua.defines s "on_request";
    has_on_response = lua.defines s "on_response";
    has_on_event = lua.defines s "on_event";
    has_on_upstream_connect = lua.defines s "on_upstream_connect";
    has_on_client_connect = lua.defines s "on_client_connect";
    has_on_client_disconnect = lua.defines s "on_client_disconnect";
    upstream_tx = false;
  }

  unfoldable pub new : List String → Loaded (Engine S)
  unfolding load_scripts engine_of
  new paths = elim (load_scripts paths lua.fresh) [
    | loaded s ↦ loaded (engine_of s)
    | unreadable p ↦ unreadable p
    | script_error p ↦ script_error p
  ]

  -- The scripts that have run, in order.
  pub data Runs : List String → S → S → Type 0 where
    finished : (s : S) → Runs [] s s
    ran :
        (path : String) (source : Text) (paths : List String) (s t u : S)
        → read path ≡ some source
        → lua.exec source s ≡ some t
        → Runs paths t u
        → Runs (path ∷ paths) s u

  pub data Loads (paths : List String) (s : S) : Loaded S → Type 0 where
    all_ran : (u : S) → Runs paths s u → Loads paths s (loaded u)
    missing :
        (before after : List String) (path : String) (t : S)
        → paths ≡ before ++ path ∷ after
        → Runs before s t
        → read path ≡ none
        → Loads paths s (unreadable path)
    fails :
        (before after : List String) (path : String) (source : Text) (t : S)
        → paths ≡ before ++ path ∷ after
        → Runs before s t
        → read path ≡ some source
        → lua.exec source t ≡ none
        → Loads paths s (script_error path)

  extend :
      (path : String) (source : Text) (paths : List String) (s t : S) (r : Loaded S)
      → read path ≡ some source
      → lua.exec source s ≡ some t
      → Loads paths t r
      → Loads (path ∷ paths) s r
  extend path source paths s t r e f (all_ran u runs) =
      all_ran u (ran path source paths s t u e f runs)
  extend path source paths s t r e f (missing before after p v same runs gone) =
      missing (path ∷ before) after p v (ap (◌∷◌ path) same) (ran path source before s t v e f runs)
        gone
  extend path source paths s t r e f (fails before after p code v same runs there stops) =
      fails (path ∷ before) after p code v (ap (◌∷◌ path) same)
        (ran path source before s t v e f runs) there stops

  load_scripts-Loads : (paths : List String) (s : S) → Loads paths s (load_scripts paths s)
  unfolding load_scripts load_script
  load_scripts-Loads [] s = all_ran s (finished s)
  load_scripts-Loads (path ∷ paths) s = elim (Option-cases (read path)) [
    | inl e ↦ rw (load_scripts, load_script, e) (missing [] paths path s refl (finished s) e)
    | inr (source, e) ↦ elim (Option-cases (lua.exec source s)) [
      | inl f ↦
          rw (load_scripts, load_script, e, f) (fails [] paths path source s refl (finished s) e f)
      | inr (t, f) ↦
          rw (load_scripts, load_script, e, f)
            (extend path source paths s t (load_scripts paths t) e f (load_scripts-Loads paths t))
    ]
  ]

  -- What `new` can give.
  pub data Made (paths : List String) : Loaded (Engine S) → Type 0 where
    built :
        (u : S) (e : Engine S)
        → Runs paths lua.fresh u
        → e.lua ≡ u
        → e.has_on_request ≡ lua.defines u "on_request"
        → e.has_on_response ≡ lua.defines u "on_response"
        → e.has_on_event ≡ lua.defines u "on_event"
        → e.has_on_upstream_connect ≡ lua.defines u "on_upstream_connect"
        → e.has_on_client_connect ≡ lua.defines u "on_client_connect"
        → e.has_on_client_disconnect ≡ lua.defines u "on_client_disconnect"
        → e.upstream_tx ≡ false
        → Made paths (loaded e)
    not_read :
        (before after : List String) (path : String) (t : S)
        → paths ≡ before ++ path ∷ after
        → Runs before lua.fresh t
        → read path ≡ none
        → Made paths (unreadable path)
    not_run :
        (before after : List String) (path : String) (source : Text) (t : S)
        → paths ≡ before ++ path ∷ after
        → Runs before lua.fresh t
        → read path ≡ some source
        → lua.exec source t ≡ none
        → Made paths (script_error path)

  -- The engine is made of the state that the scripts leave, run one after the other, each on the state
  -- of the one before. Each of its six flags says whether this last state defines the function of that
  -- flag's name, and it has no channel to the telescope yet. Otherwise `new` fails with the first
  -- script that cannot be read, or whose run fails after those before it.
  pub new-Made : (paths : List String) → Made paths (new paths)
  unfolding new engine_of
  new-Made paths = go (load_scripts paths lua.fresh) (load_scripts-Loads paths lua.fresh)
    where
      go :
          (r : Loaded S)
          → Loads paths lua.fresh r
          → Made paths (elim r as (λ _. Loaded (Engine S)) [
            | loaded s ↦ loaded (engine_of s)
            | unreadable p ↦ unreadable p
            | script_error p ↦ script_error p
          ])
      go _ (all_ran u runs) = built u (engine_of u) runs refl refl refl refl refl refl refl refl
      go _ (missing before after path t same runs gone) =
          not_read before after path t same runs gone
      go _ (fails before after path source t same runs there stops) =
          not_run before after path source t same runs there stops

  -- A hook on a client is called if it was there at the start and still is.
  unfoldable pub notify : Bool → String → List String → Engine S → Engine S
  notify has name arguments e =
      if has && lua.defines e.lua name
      then record e { lua = (lua.call name arguments e.lua).0 }
      else e

  unfoldable pub on_client_connect : (addr port_type : String) → Engine S → Engine S
  unfolding notify
  on_client_connect addr port_type e =
      notify e.has_on_client_connect "on_client_connect" (addr ∷ port_type ∷ []) e

  unfoldable pub on_client_disconnect : (addr port_type : String) → Engine S → Engine S
  unfolding notify
  on_client_disconnect addr port_type e =
      notify e.has_on_client_disconnect "on_client_disconnect" (addr ∷ port_type ∷ []) e

  unfoldable pub set_upstream_tx : Engine S → Engine S
  set_upstream_tx e = record e { upstream_tx = true }

  -- `telescope.send` with what `from_value` makes of its argument, and whether the channel has room.
  unfoldable pub send : Serde → (room : Bool) → Option Value → Engine S → Sent
  send serde room msg e =
      if e.upstream_tx
      then elim msg [
        | none ↦ conversion_error
        | some value ↦ elim (serde.to_string value) [
          | none ↦ json_error
          | some json ↦ if room then queued json else channel_error
        ]
      ]
      else ignored

  abbrev tx_of : Loaded (Engine S) → Bool
  tx_of (loaded e) = e.upstream_tx
  tx_of (unreadable p) = false
  tx_of (script_error p) = false

  no_channel : (paths : List String) (r : Loaded (Engine S)) → Made paths r → tx_of r ≡ false
  no_channel paths _ (built u e _ _ _ _ _ _ _ _ off) = off
  no_channel paths _ (not_read before after p t _ _ _) = refl
  no_channel paths _ (not_run before after p source t _ _ _ _) = refl

  notify-upstream_tx :
      (has : Bool) (name : String) (arguments : List String) (e : Engine S)
      → (notify has name arguments e).upstream_tx ≡ e.upstream_tx
  unfolding notify
  notify-upstream_tx has name arguments e =
      if_lem (λ (d : Engine S). d.upstream_tx ≡ e.upstream_tx) (has && lua.defines e.lua name)
        (λ _. refl) (λ _. refl)

  send-queued :
      (serde : Serde) (value : Value) (json : Text) (e : Engine S)
      → serde.to_string value ≡ some json
      → e.upstream_tx ≡ true
      → send serde true (some value) e ≡ queued json
  unfolding send
  send-queued serde value json e prints h = rw (send, h, prints) refl

  -- A message that a script sends while it is loaded goes nowhere, and says nothing to the script; once
  -- `run` has set the channel, it is queued, whatever the hooks on clients have done before.
  pub send_lem :
      (serde : Serde) (paths : List String) (e : Engine S) (value : Value) (json : Text)
      (addr port_type : String)
      → new paths ≡ loaded e
      → serde.to_string value ≡ some json
      → (send serde true (some value) e ≡ ignored)
        × (send serde true (some value) (on_client_connect addr port_type (set_upstream_tx e))
            ≡ queued json)
  unfolding send on_client_connect set_upstream_tx
  send_lem serde paths e value json addr port_type made prints =
      let off : e.upstream_tx ≡ false =
        ap tx_of (sym made) ∙ no_channel paths (new paths) (new-Made paths) in
      (
        rw (send, off) refl,
        send-queued serde value json (on_client_connect addr port_type (set_upstream_tx e)) prints (
            notify-upstream_tx e.has_on_client_connect "on_client_connect" (addr ∷ port_type ∷ [])
              (set_upstream_tx e)),
      )
