-- ===== src/App/Tests/Nodes.antt =====
-- The theorems on the life of a node, on a system and an environment in which all goes well.
use amaru_wear.Prelude.{◌+◌, ◌≡◌, ◌≢◌, ◌↔◌, refl, true, false, none, some, List, [], ◌∷◌, arith, ok}
use amaru_wear.Bytes.{same}
use amaru_wear.Text.{codes}
use amaru_wear.App.{Shared, caught_up, store, set_sync_status, unlocked}
use amaru_wear.App.Node.{
  pos, preprod, NodeState, System, match_name, network_name, start_node, amaru_network,
  trace_poller,
}
use amaru_wear.App.Node.Laws.{start_node_success}
use amaru_wear.App.Network.{
  Effect, create_dir_all, exists, set_current_dir, bootstrap, build_and_run_network, Outside, World,
  network_thread,
}
use amaru_wear.App.Network.Laws.{
  bootstraps, before_setup, can_set_up, KeepsSound, RunsIf, bootstraps-network_thread,
  runs-network_thread,
}
use amaru_wear.App.Tests.{ascii, fresh}

abbrev system : System
system = record { runtime_starts = true; network_spawns = true; poller_spawns = true }

abbrev stopped : NodeState
stopped = record { runtime = unlocked none; spawned = [] }

abbrev running : NodeState
running = record {
  runtime = unlocked (some tt);
  spawned = trace_poller ∷ amaru_network preprod (codes "/data") ∷ [];
}

known : network_name ascii (codes "PreProd") ≡ some preprod
unfolding network_name match_name same
known = refl

known_name : network_name ascii (codes "PreProd") ≢ none
known_name e = ground (arith, known)

start_node_success_example :
    ((start_node ascii system (codes "PreProd") (codes "/data") stopped).0 ≡ ok (pos 0)) ↔ (
      (network_name ascii (codes "PreProd") ≢ none)
      × (false ≡ false)
      × (stopped.runtime.value ≡ none)
      × (true ≡ true)
      × (true ≡ true)
      × (true ≡ true))
start_node_success_example =
    start_node_success ascii system (codes "PreProd") (codes "/data") stopped

-- The poller sees that the node has caught up once it runs.
unfoldable poll : List Effect → Shared → Shared
poll (build_and_run_network c ∷ es) s = set_sync_status caught_up s
poll es s = s

-- Everything succeeds, and while the node runs it catches up.
abbrev fine : Outside
fine = record { succeeds = λ history e. true; poller = poll }

abbrev start : World
start = record { effects = []; shared = fresh }

bootstraps_example : bootstraps (network_thread fine preprod (codes "/data") start).effects ≡ 0 + 0
unfolding bootstraps
bootstraps_example = bootstraps-network_thread fine preprod (codes "/data") start

poll-KeepsSound : KeepsSound fine preprod (codes "/data")
unfolding poll set_sync_status store
poll-KeepsSound [] s sound = sound
poll-KeepsSound (create_dir_all path ∷ es) s sound = sound
poll-KeepsSound (exists path ∷ es) s sound = sound
poll-KeepsSound (set_current_dir path ∷ es) s sound = sound
poll-KeepsSound (bootstrap network ledger chain ∷ es) s sound = sound
poll-KeepsSound (build_and_run_network c ∷ es) s sound = ground arith

runs_example :
    RunsIf fine preprod
      (codes "/data")
      true
      start
      (network_thread fine preprod (codes "/data") start)
unfolding can_set_up before_setup
runs_example = runs-network_thread fine preprod (codes "/data") start refl poll-KeepsSound
