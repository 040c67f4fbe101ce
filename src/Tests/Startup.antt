-- ===== src/Tests/Startup.antt =====
-- src/main.rs: a telescope with a name, and the raw mode without one.
use seestar_proxy.Base.{◌≡◌, refl, true, false, none, some, [], ◌∷◌}
use seestar_proxy.Base.Text.{Bytes, codes}
use seestar_proxy.Config.{Config}
use seestar_proxy.Control.Accept.{SocketAddr, start, accepted, woken}
use seestar_proxy.Control.Accept
use seestar_proxy.Startup.{
  World, Serving, serving, services, resolve_host, plan, log_level, key_file, prefer_v4,
}
use seestar_proxy.Startup.Modes.{served-upstream}
use seestar_proxy.Tests.Config.{defaults}
use seestar_proxy.Tests.Accept.{client}

abbrev world : World
world = record {
  parse_ip = λ h. none;
  lookup_host = λ h. some ((0xfe ∷ 0x80 ∷ []) ∷ (10 ∷ 0 ∷ 0 ∷ 9 ∷ []) ∷ []);
  session_loads = λ d. true;
  recorder_starts = λ d. true;
  scripts_load = λ hs. true;
  has_wireguard = true;
  tunnel_starts = λ ip. true;
}

abbrev named : Config
named = record defaults { discovery = true }

abbrev telescope : SocketAddr
telescope = record { ip = 10 ∷ 0 ∷ 0 ∷ 9 ∷ []; port = 4700 }

abbrev served : Serving
served = services world named (some telescope) (some (record telescope { port = 4800 }))

named-served : plan world named ≡ serving served
unfolding plan
named-served = refl

abbrev transparent_raw : Config
transparent_raw = record defaults { raw = true; transparent = true }

served-upstream_example :
    let (l, out) =
      Accept.run false false
        (accepted (client 2) none ∷ woken ∷ [])
        (start none served.upstream_control) in
    (ip : Bytes) × (resolve_host world "seestar.local" ≡ some ip)
    × (l.upstream_addr ≡ some (record { ip = ip; port = 4700 }))
unfolding services
served-upstream_example =
    served-upstream world named served false none (accepted (client 2) none ∷ []) [] named-served
      refl (tt, tt)

small_choices :
    (log_level 2 ≡ "trace")
    × (key_file (some (codes "/root")) (codes "~/wg.key") ≡ codes "/root/wg.key")
    × (key_file none (codes "~x/wg.key") ≡ codes "~x/wg.key")
    × (prefer_v4 ((0xfe ∷ 0x80 ∷ []) ∷ []) ≡ some (0xfe ∷ 0x80 ∷ []))
unfolding log_level key_file prefer_v4
small_choices = (refl, refl, refl, refl)
