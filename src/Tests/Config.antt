-- ===== src/Tests/Config.antt =====
-- src/config.rs: a file that sets a port and two hooks.
use seestar_proxy.Base.{◌≡◌, refl, true, false, none, some, [], ◌∷◌, str_eq}
use seestar_proxy.Config.{
  FileConfig, Config, default_bind, apply_file, fill, apply_default, enable, raise, append_hooks,
  push_hooks, contains,
}
use seestar_proxy.Base.{if◌then◌else◌}
use seestar_proxy.Base.Text.{codes, text_eq}
use seestar_proxy.Config.Load.{Files}

abbrev file : FileConfig
file = record {
  upstream = some "10.0.0.1";
  upstream_control_port = none;
  upstream_imaging_port = none;
  bind = none;
  control_port = some 4701;
  imaging_port = none;
  discovery = some true;
  record_dir = none;
  replay = none;
  raw = none;
  transparent = some false;
  dashboard_port = none;
  hooks = some ("a.lua" ∷ "b.lua" ∷ "a.lua" ∷ []);
  wireguard = none;
  wg_port = none;
  wg_subnet = none;
  wg_key_file = none;
  wg_endpoint = none;
  verbose = some 2;
  telescope_sn = none;
  telescope_model = none;
  telescope_bssid = none;
}

abbrev pub defaults : Config
defaults = record {
  upstream = none;
  upstream_control_port = 4700;
  upstream_imaging_port = 4800;
  bind = default_bind;
  control_port = 4700;
  imaging_port = 4800;
  discovery = false;
  record_dir = none;
  replay = none;
  raw = false;
  transparent = false;
  dashboard_port = 4090;
  hooks = "b.lua" ∷ [];
  wireguard = false;
  wg_port = 51820;
  wg_subnet = "10.99.0.0/24";
  wg_key_file = "~/.seestar-proxy/wg.key";
  wg_endpoint = none;
  verbose = 1;
  telescope_sn = none;
  telescope_model = none;
  telescope_bssid = none;
}

-- The file's hooks are appended but for the ones that are there, and its port takes the default's place.
layered :
    ((apply_file str_eq file defaults).hooks ≡ "b.lua" ∷ "a.lua" ∷ [])
    × ((apply_file str_eq file defaults).control_port ≡ 4701)
unfolding apply_file fill apply_default enable raise append_hooks push_hooks contains
layered = (refl, refl)

-- Nothing can be read in /etc, and the file of the home directory is there.
abbrev files : Files
files = record {
  read =
      λ p. if text_eq p (codes "/home/pi/.config/seestar-proxy/config.toml") then some p else none;
  parse = λ t. some file;
}

abbrev loaded : Config
loaded = apply_file str_eq file defaults
