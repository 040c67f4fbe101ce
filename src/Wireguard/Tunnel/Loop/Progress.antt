-- ===== src/Wireguard/Tunnel/Loop/Progress.antt =====
-- src/wireguard/mod.rs: the packet loop goes on, and the one way in which it ends.
use seestar_proxy.Base.{ℕ, ◌≡◌, ◌⊎◌, Bool, some, List, ◌∷◌, ◌++◌}
use mathlib.Core.Option
use seestar_proxy.Base.Text.{Bytes}
use seestar_proxy.Wireguard.Packets.{found, panicked}
use seestar_proxy.Wireguard.Tunnel.{Env}
use seestar_proxy.Wireguard.Tunnel.Loop.{
  Boringtun, Event, received, Sent, State, Outcome, packet_loop,
}
use seestar_proxy.Wireguard.Tunnel.Loop.Rounds.{Brings}

module _ (wg : Boringtun) where
  open wg use {Tunn, decapsulate}

  module _ (Addr : Type 0) where
    abbrev GoesOn : Outcome wg Addr → Type 0
    GoesOn o = (st' : State wg Addr) × (out : List (Sent Addr)) × (o ≡ some (found (st', out)))

    abbrev Fates : Event Addr → State wg Addr → Outcome wg Addr → Type 0
    Fates e st o =
        GoesOn o
        ⊎ ((o ≡ some panicked)
            × (src : Addr) × (bytes : Bytes) × (room : Bool) × (e ≡ received src bytes room)
            × Brings wg st.tunn)

    module _ (fuel : Tunn → ℕ) (env : Env) where
      -- How the loop over the events can end.
      pub data Ending (es : List (Event Addr)) (st : State wg Addr) : Outcome wg Addr → Type 0 where
        goes_on :
            (st' : State wg Addr) (out : List (Sent Addr)) → Ending es st (some (found (st', out)))
        panics :
            (before after : List (Event Addr)) (src : Addr) (bytes : Bytes) (room : Bool)
            → (st' : State wg Addr) (out : List (Sent Addr))
            → es ≡ before ++ received src bytes room ∷ after
            → packet_loop wg Addr fuel env before st ≡ some (found (st', out))
            → Brings wg st'.tunn
            → Ending es st (some panicked)
