-- ===== src/Bridges/Pipes.antt =====
-- src/main.rs, src/wireguard/bridge.rs and src/tailscale/bridge.rs: the pipes pass on what they read.
use seestar_proxy.Base.{
  ℕ, ◌+◌, ◌≡◌, refl, ap, ◌∙◌, Bool, true, false, List, [], ◌∷◌, ◌++◌, length, append_assoc,
}
use seestar_proxy.Base.Text.{Bytes}
use seestar_proxy.Metrics.{u64}
use seestar_proxy.Bridges.{
  Read, chunk, read_error, Reads, pump, tunnel_to_local, local_to_tunnel, Side, tailnet, local,
  ts_bridge, bridge_to_local,
}

abbrev pub concat : List Bytes → Bytes
concat [] = []
concat (bs ∷ bss) = bs ++ concat bss

-- The bytes that come before the end of a stream or an error.
abbrev pub received : Reads → Bytes
received [] = []
received ((read_error, ok) ∷ rs) = []
received ((chunk [], ok) ∷ rs) = []
received ((chunk (b ∷ bs), ok) ∷ rs) = (b ∷ bs) ++ received rs

abbrev pub messages : List (Bytes × Bool) → Bytes
messages [] = []
messages ((bs, ok) ∷ ms) = bs ++ messages ms

-- The reads of one side.
abbrev pub of_side : Side → List (Side × Read × Bool) → Reads
of_side s [] = []
of_side tailnet ((tailnet, r, ok) ∷ rs) = (r, ok) ∷ of_side tailnet rs
of_side tailnet ((local, r, ok) ∷ rs) = of_side tailnet rs
of_side local ((tailnet, r, ok) ∷ rs) = of_side local rs
of_side local ((local, r, ok) ∷ rs) = (r, ok) ∷ of_side local rs

abbrev pub Prefix : Bytes → Bytes → Type 0
Prefix xs ys = (rest : Bytes) × (xs ++ rest ≡ ys)

Prefix-nil : (ys : Bytes) → Prefix [] ys
Prefix-nil ys = (ys, refl)

Prefix-append : (zs xs ys : Bytes) → Prefix xs ys → Prefix (zs ++ xs) (zs ++ ys)
Prefix-append zs xs ys (rest, e) = (rest, append_assoc zs xs rest ∙ ap (λ t. zs ++ t) e)

-- The bytes that are not passed on: those of the first read whose write fails, and all after it.
abbrev pub unsent : Reads → Bytes
unsent [] = []
unsent ((read_error, ok) ∷ rs) = []
unsent ((chunk [], ok) ∷ rs) = []
unsent ((chunk (b ∷ bs), true) ∷ rs) = unsent rs
unsent ((chunk (b ∷ bs), false) ∷ rs) = (b ∷ bs) ++ received rs

abbrev pub unsent_messages : List (Bytes × Bool) → Bytes
unsent_messages [] = []
unsent_messages ((bs, true) ∷ ms) = unsent_messages ms
unsent_messages ((bs, false) ∷ ms) = bs ++ messages ms

keep : (bs xs rest ys : Bytes) → xs ++ rest ≡ ys → (bs ++ xs) ++ rest ≡ bs ++ ys
keep bs xs rest ys e = append_assoc bs xs rest ∙ ap (λ t. bs ++ t) e

pump_lem : (total : ℕ) (rs : Reads) → concat (pump total rs).0 ++ unsent rs ≡ received rs
unfolding pump
pump_lem total [] = refl
pump_lem total ((read_error, ok) ∷ rs) = refl
pump_lem total ((chunk [], ok) ∷ rs) = refl
pump_lem total ((chunk (b ∷ bs), true) ∷ rs) =
    let more = concat (pump (u64 (total + length (b ∷ bs))) rs).0 in
    keep (b ∷ bs) more (unsent rs) (received rs) (pump_lem (u64 (total + length (b ∷ bs))) rs)
pump_lem total ((chunk (b ∷ bs), false) ∷ rs) = refl

local_to_tunnel_lem : (rs : Reads) → concat (local_to_tunnel rs) ++ unsent rs ≡ received rs
unfolding local_to_tunnel
local_to_tunnel_lem [] = refl
local_to_tunnel_lem ((read_error, ok) ∷ rs) = refl
local_to_tunnel_lem ((chunk [], ok) ∷ rs) = refl
local_to_tunnel_lem ((chunk (b ∷ bs), true) ∷ rs) =
    keep (b ∷ bs) (concat (local_to_tunnel rs)) (unsent rs) (received rs) (local_to_tunnel_lem rs)
local_to_tunnel_lem ((chunk (b ∷ bs), false) ∷ rs) = refl

tunnel_to_local_lem :
    (ms : List (Bytes × Bool)) → concat (tunnel_to_local ms) ++ unsent_messages ms ≡ messages ms
unfolding tunnel_to_local
tunnel_to_local_lem [] = refl
tunnel_to_local_lem ((bs, true) ∷ ms) =
    keep bs (concat (tunnel_to_local ms)) (unsent_messages ms) (messages ms)
      (tunnel_to_local_lem ms)
tunnel_to_local_lem ((bs, false) ∷ ms) = refl

-- The pipes pass on, unchanged and in order, all that they read up to the first write that fails: what
-- the bridge of a tunnel's connection has written to the proxy and sent to the tunnel, and what the raw
-- mode has written of a stream, followed by the bytes from that write on, is what has been received.
pub pipes-received :
    (ms : List (Bytes × Bool)) (rs stream : Reads)
    → (concat (bridge_to_local true ms rs).0 ++ unsent_messages ms ≡ messages ms)
      × (concat (bridge_to_local true ms rs).1 ++ unsent rs ≡ received rs)
      × (concat (pump 0 stream).0 ++ unsent stream ≡ received stream)
unfolding bridge_to_local
pipes-received ms rs stream = (tunnel_to_local_lem ms, local_to_tunnel_lem rs, pump_lem 0 stream)

-- The bridge of Tailscale passes on a part of each side from its start.
ts_bridge-Prefix :
    (rs : List (Side × Read × Bool))
    → Prefix (concat (ts_bridge rs).0) (received (of_side tailnet rs))
      × Prefix (concat (ts_bridge rs).1) (received (of_side local rs))
unfolding ts_bridge
ts_bridge-Prefix [] = (Prefix-nil [], Prefix-nil [])
ts_bridge-Prefix ((side, read_error, ok) ∷ rs) = (Prefix-nil _, Prefix-nil _)
ts_bridge-Prefix ((side, chunk [], ok) ∷ rs) = (Prefix-nil _, Prefix-nil _)
ts_bridge-Prefix ((side, chunk (b ∷ bs), false) ∷ rs) = (Prefix-nil _, Prefix-nil _)
ts_bridge-Prefix ((tailnet, chunk (b ∷ bs), true) ∷ rs) =
    let (x, y) = ts_bridge-Prefix rs in
    (Prefix-append (b ∷ bs) (concat (ts_bridge rs).0) (received (of_side tailnet rs)) x, y)
ts_bridge-Prefix ((local, chunk (b ∷ bs), true) ∷ rs) =
    let (x, y) = ts_bridge-Prefix rs in
    (x, Prefix-append (b ∷ bs) (concat (ts_bridge rs).1) (received (of_side local rs)) y)
