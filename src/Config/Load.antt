-- ===== src/Config/Load.antt =====
-- src/config.rs: `load`, which finds the file and layers it under the command line and the
-- environment.
use seestar_proxy.Base.{
  str_eq, ℕ, String, ◌≤◌, ◌≡◌, Bool, true, false, Option, none, some, List, [], ◌∷◌, ◌++◌,
  if◌then◌else◌, ◌==◌,
}
use seestar_proxy.Base.Text.{Text, codes, text_eq}
use seestar_proxy.Config.{FileConfig, Config, default_bind, apply_file}

-- What the disk gives for a path, and the TOML parser. A path that can be read exists.
pub record Files : Type 0 where
  pub read : Text → Option Text
  pub parse : Text → Option FileConfig

-- `PathBuf::join` with a relative path.
unfoldable pub join : Text → Text → Text
join [] relative = relative
join (c ∷ cs) relative =
    (c ∷ cs) ++ (if ends_in_slash c cs then relative else codes "/" ++ relative)
  where
    ends_in_slash : ℕ → Text → Bool
    ends_in_slash c [] = c == 47
    ends_in_slash c (d ∷ ds) = ends_in_slash d ds

unfoldable pub dirs_or_home : (home : Option Text) → Text → Text
unfolding join
dirs_or_home none relative = join (codes "/tmp") relative
dirs_or_home (some home) relative = join home relative

unfoldable pub candidates : (home : Option Text) → List Text
unfolding dirs_or_home
candidates home =
    codes "/etc/seestar-proxy/config.toml"
    ∷ dirs_or_home home (codes ".config/seestar-proxy/config.toml")
    ∷ []

module _ (path_eq : String → String → Bool) (fs : Files) where
  unfoldable pub read_file : Text → Option FileConfig
  read_file path = elim (fs.read path) [ none ↦ none | some content ↦ fs.parse content ]

  -- The loop over the default locations, which passes over what cannot be read or parsed.
  unfoldable pub load_default : List Text → Config → Config
  unfolding read_file
  load_default [] c = c
  load_default (path ∷ paths) c =
      let later = load_default paths c in
      elim (read_file path) [ some file ↦ apply_file path_eq file c | none ↦ later ]

  -- The configuration, or none for an error. The arguments are parsed by a library.
  unfoldable pub load : (config : Option Text) (home : Option Text) → Config → Option Config
  unfolding read_file load_default candidates
  load (some path) home c = elim (read_file path) [
    | some file ↦ some (apply_file path_eq file c)
    | none ↦ none
  ]
  load none home c = some (load_default (candidates home) c)

-- A field of the configuration afterwards, where the field before was set.
abbrev pub Kept {ℓ} : {A : Type ℓ} → Option A → Option A → Type ℓ
Kept none w = Unit
Kept (some v) w = w ≡ some v

abbrev pub Firm {ℓ} : {A : Type ℓ} → (A → Bool) → A → A → Type ℓ
Firm is_default v w = is_default v ≡ false → w ≡ v

abbrev pub On : Bool → Bool → Type 0
On b c = b ≡ true → c ≡ true

abbrev pub Extends : List String → List String → Type 0
Extends hs gs = (more : List String) × (gs ≡ hs ++ more)

pub record Respects (path_eq : String → String → Bool) (c d : Config) : Type 0 where
  pub upstream : Kept c.upstream d.upstream
  pub record_dir : Kept c.record_dir d.record_dir
  pub replay : Kept c.replay d.replay
  pub wg_endpoint : Kept c.wg_endpoint d.wg_endpoint
  pub telescope_sn : Kept c.telescope_sn d.telescope_sn
  pub bind : Firm (text_eq default_bind) c.bind d.bind
  pub control_port : Firm (λ p. p == 4700) c.control_port d.control_port
  pub imaging_port : Firm (λ p. p == 4800) c.imaging_port d.imaging_port
  pub dashboard_port : Firm (λ p. p == 4090) c.dashboard_port d.dashboard_port
  pub wg_port : Firm (λ p. p == 51820) c.wg_port d.wg_port
  pub upstream_control_port : Firm (λ p. p == 4700) c.upstream_control_port d.upstream_control_port
  pub upstream_imaging_port : Firm (λ p. p == 4800) c.upstream_imaging_port d.upstream_imaging_port
  pub wg_subnet : Firm (λ s. str_eq s "10.99.0.0/24") c.wg_subnet d.wg_subnet
  pub wg_key_file : Firm (λ p. path_eq p "~/.seestar-proxy/wg.key") c.wg_key_file d.wg_key_file
  pub telescope_model : Kept c.telescope_model d.telescope_model
  pub telescope_bssid : Kept c.telescope_bssid d.telescope_bssid
  pub discovery : On c.discovery d.discovery
  pub raw : On c.raw d.raw
  pub transparent : On c.transparent d.transparent
  pub wireguard : On c.wireguard d.wireguard
  pub verbose : c.verbose ≤ d.verbose
  pub hooks : Extends c.hooks d.hooks
