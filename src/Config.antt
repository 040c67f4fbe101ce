-- ===== src/Config.antt =====
-- src/config.rs: how the values of a configuration file are layered under those of the command line.
-- The parsers are libraries, and the equality of paths, which looks at their components, is a
-- parameter.
pub mod Layers
pub mod Load
use seestar_proxy.Base.{
  ℕ, String, Bool, true, false, ◌||◌, Option, none, some, List, [], ◌∷◌, ◌++◌, ltb, ◌==◌,
  if◌then◌else◌, str_eq,
}
use seestar_proxy.Base.Text.{Bytes, text_eq}

-- An IP address is its bytes, and a path is its text.
pub record FileConfig : Type 0 where
  pub upstream : Option String
  pub upstream_control_port : Option ℕ
  pub upstream_imaging_port : Option ℕ
  pub bind : Option Bytes
  pub control_port : Option ℕ
  pub imaging_port : Option ℕ
  pub discovery : Option Bool
  pub record_dir : Option String
  pub replay : Option String
  pub raw : Option Bool
  pub transparent : Option Bool
  pub dashboard_port : Option ℕ
  pub hooks : Option (List String)
  pub wireguard : Option Bool
  pub wg_port : Option ℕ
  pub wg_subnet : Option String
  pub wg_key_file : Option String
  pub wg_endpoint : Option String
  pub verbose : Option ℕ
  pub telescope_sn : Option String
  pub telescope_model : Option String
  pub telescope_bssid : Option String

-- The fields that a file can set; `record` is a reserved word.
pub record Config : Type 0 where
  pub upstream : Option String
  pub upstream_control_port : ℕ
  pub upstream_imaging_port : ℕ
  pub bind : Bytes
  pub control_port : ℕ
  pub imaging_port : ℕ
  pub discovery : Bool
  pub record_dir : Option String
  pub replay : Option String
  pub raw : Bool
  pub transparent : Bool
  pub dashboard_port : ℕ
  pub hooks : List String
  pub wireguard : Bool
  pub wg_port : ℕ
  pub wg_subnet : String
  pub wg_key_file : String
  pub wg_endpoint : Option String
  pub verbose : ℕ
  pub telescope_sn : Option String
  pub telescope_model : Option String
  pub telescope_bssid : Option String

-- `if self.field.is_none() { self.field = file.field }`.
unfoldable pub fill {ℓ} : {A : Type ℓ} → Option A → Option A → Option A
fill none file = file
fill (some v) file = some v

-- `apply_default!`, with the test against the default.
unfoldable pub apply_default {ℓ} : {A : Type ℓ} → (A → Bool) → A → Option A → A
apply_default is_default v none = v
apply_default is_default v (some w) = if is_default v then w else v

unfoldable pub enable : Bool → Option Bool → Bool
enable flag none = flag
enable flag (some false) = flag
enable flag (some true) = true

unfoldable pub raise : ℕ → Option ℕ → ℕ
raise v none = v
raise v (some w) = if ltb v w then w else v

abbrev pub default_bind : Bytes
default_bind = 0 ∷ 0 ∷ 0 ∷ 0 ∷ []

module _ (path_eq : String → String → Bool) where
  unfoldable pub contains : String → List String → Bool
  contains h [] = false
  contains h (g ∷ gs) = path_eq g h || contains h gs

  unfoldable pub push_hooks : List String → List String → List String
  unfolding contains
  push_hooks hooks [] = hooks
  push_hooks hooks (h ∷ hs) = push_hooks (if contains h hooks then hooks else hooks ++ h ∷ []) hs

  unfoldable pub append_hooks : List String → Option (List String) → List String
  unfolding push_hooks
  append_hooks hooks none = hooks
  append_hooks hooks (some file_hooks) = push_hooks hooks file_hooks

  unfoldable pub apply_file : FileConfig → Config → Config
  unfolding text_eq
  apply_file file c = record {
    upstream = fill c.upstream file.upstream;
    upstream_control_port =
        apply_default (λ p. p == 4700) c.upstream_control_port file.upstream_control_port;
    upstream_imaging_port =
        apply_default (λ p. p == 4800) c.upstream_imaging_port file.upstream_imaging_port;
    bind = apply_default (text_eq default_bind) c.bind file.bind;
    control_port = apply_default (λ p. p == 4700) c.control_port file.control_port;
    imaging_port = apply_default (λ p. p == 4800) c.imaging_port file.imaging_port;
    discovery = enable c.discovery file.discovery;
    record_dir = fill c.record_dir file.record_dir;
    replay = fill c.replay file.replay;
    raw = enable c.raw file.raw;
    transparent = enable c.transparent file.transparent;
    dashboard_port = apply_default (λ p. p == 4090) c.dashboard_port file.dashboard_port;
    hooks = append_hooks c.hooks file.hooks;
    wireguard = enable c.wireguard file.wireguard;
    wg_port = apply_default (λ p. p == 51820) c.wg_port file.wg_port;
    wg_subnet = apply_default (λ s. str_eq s "10.99.0.0/24") c.wg_subnet file.wg_subnet;
    wg_key_file =
        apply_default (λ p. path_eq p "~/.seestar-proxy/wg.key") c.wg_key_file file.wg_key_file;
    wg_endpoint = fill c.wg_endpoint file.wg_endpoint;
    verbose = raise c.verbose file.verbose;
    telescope_sn = fill c.telescope_sn file.telescope_sn;
    telescope_model = fill c.telescope_model file.telescope_model;
    telescope_bssid = fill c.telescope_bssid file.telescope_bssid;
  }
