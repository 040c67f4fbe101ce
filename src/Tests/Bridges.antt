-- ===== src/Tests/Bridges.antt =====
-- src/wireguard/bridge.rs, src/tailscale/bridge.rs and src/main.rs: pipes with a write that fails.
use seestar_proxy.Base.{◌≡◌, refl, Bool, true, false, none, some, List, [], ◌∷◌, ◌++◌}
use seestar_proxy.Base.Text.{Bytes}
use seestar_proxy.Bridges.{
  chunk, Reads, pump, piped, accept_failed, raw_pipe, bridge_to_local, tailnet, local, ts_bridge,
  Node, ts_start,
}
use seestar_proxy.Bridges.Pipes.{concat, pipes-received}

abbrev sent : List (Bytes × Bool)
sent = (1 ∷ 2 ∷ [], true) ∷ (3 ∷ [], false) ∷ (4 ∷ [], true) ∷ []

abbrev reads : Reads
reads = (chunk (5 ∷ []), true) ∷ (chunk (6 ∷ 7 ∷ []), true) ∷ (chunk [], true) ∷ []

pipes-received_example :
    (concat (bridge_to_local true sent reads).0 ++ (3 ∷ 4 ∷ []) ≡ 1 ∷ 2 ∷ 3 ∷ 4 ∷ [])
    × (concat (bridge_to_local true sent reads).1 ++ [] ≡ 5 ∷ 6 ∷ 7 ∷ [])
    × (concat (pump 0 reads).0 ++ [] ≡ 5 ∷ 6 ∷ 7 ∷ [])
pipes-received_example = pipes-received sent reads reads

tunnel_cut : bridge_to_local true sent reads ≡ ((1 ∷ 2 ∷ []) ∷ [], (5 ∷ []) ∷ (6 ∷ 7 ∷ []) ∷ [])
unfolding bridge_to_local
tunnel_cut = refl

-- A client of the tailnet that has said all that it has to say gets no answer any more.
half_closed :
    ts_bridge (
      (tailnet, chunk (1 ∷ []), true)
      ∷ (tailnet, chunk [], true)
      ∷ (local, chunk (2 ∷ []), true)
      ∷ [])
    ≡ ((1 ∷ []) ∷ [], [])
unfolding ts_bridge
half_closed = refl

raw_sessions :
    raw_pipe true (accept_failed ∷ piped reads [] ∷ []) ≡ ((5 ∷ []) ∷ (6 ∷ 7 ∷ []) ∷ [], []) ∷ []
unfolding raw_pipe pump
raw_sessions = refl

abbrev node : Node
node = record {
  hostname_set = true;
  dir_set = true;
  authkey_set = λ k. false;
  control_url_set = λ u. true;
  up = true;
  ips = some ((0xfd ∷ 0x7a ∷ []) ∷ (100 ∷ 64 ∷ 0 ∷ 1 ∷ []) ∷ []);
  listens = λ p. true;
}

node_starts :
    (ts_start node "seestar-proxy" none none true 4700 4800 0
      ≡ some (
        record { hostname = "seestar-proxy"; node_ip = some (100 ∷ 64 ∷ 0 ∷ 1 ∷ []) },
        4700 ∷ 4800 ∷ [],
      ))
    × (ts_start node "seestar-proxy" (some "key") none true 4700 4800 0 ≡ none)
unfolding ts_start
node_starts = (refl, refl)
