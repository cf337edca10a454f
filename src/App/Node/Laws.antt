-- ===== src/App/Node/Laws.antt =====
-- The life of a node under `start_node` and `stop_node`.
use amaru_wear.Prelude.{
  ℕ, ◌<◌, subst, ◌≡◌, ◌≢◌, ◌↔◌, refl, true, false, Option, none, some, arith, ok, All, map,
}
use amaru_wear.Bytes.{same, same→eq}
use amaru_wear.Text.{Text, Unicode, IsUnicode, codes, ascii_lower}
use amaru_wear.App.Node.{
  pos, negsuc, NetworkName, mainnet, preprod, preview, testnet, NodeState, System, network_name,
  match_name, start_on, start_node, spawn_threads, stop_node,
}

module _ (U : Unicode) (os : System) (network dir : Text) where
  -- `start_node` reports success exactly if the name is that of a network, no node is started, the
  -- lock is sound, and the system gives a runtime and both threads.
  pub start_node_success :
      (s : NodeState)
      → ((start_node U os network dir s).0 ≡ ok (pos 0)) ↔ (
          (network_name U network ≢ none)
          × (s.runtime.poisoned ≡ false)
          × (s.runtime.value ≡ none)
          × (os.runtime_starts ≡ true)
          × (os.network_spawns ≡ true)
          × (os.poller_spawns ≡ true))
  unfolding start_node start_on spawn_threads
  start_node_success s = ground arith

  -- A start that returns an error code has changed nothing.
  pub start_node_error :
      (s : NodeState) (n : ℕ)
      → (start_node U os network dir s).0 ≡ ok (negsuc n)
      → (start_node U os network dir s).1 ≡ s
  unfolding start_node start_on spawn_threads
  start_node_error s n h = ground arith

-- Stopping succeeds exactly if a node is started and the lock is sound, and spawns no thread.
pub stop_node_lem :
    (s : NodeState)
    → ((stop_node s).0 ≡ pos 0 ↔ (s.runtime.poisoned ≡ false) × (s.runtime.value ≡ some tt))
      × ((stop_node s).1.spawned ≡ s.spawned)
unfolding stop_node
stop_node_lem s = ground arith

-- The lower-case name of a network that can be chosen by name.
unfoldable pub spelling : NetworkName → Option Text
spelling mainnet = some (codes "mainnet")
spelling preprod = some (codes "preprod")
spelling preview = some (codes "preview")
spelling (testnet n) = none

match_name→spelling :
    (t : Text) (name : NetworkName) → match_name t ≡ some name → spelling name ≡ some t
unfolding match_name spelling
match_name→spelling t mainnet h = ground (arith, same→eq t (codes "mainnet"))
match_name→spelling t preprod h = ground (arith, same→eq t (codes "preprod"))
match_name→spelling t preview h = ground (arith, same→eq t (codes "preview"))
match_name→spelling t (testnet n) h = ground arith

unwrapped : Option Text → Option NetworkName
unwrapped o = elim o [ none ↦ none | some t ↦ match_name t ]

spelling→match_name :
    (t : Text) (name : NetworkName) → spelling name ≡ some t → match_name t ≡ some name
unfolding match_name spelling unwrapped same
spelling→match_name t mainnet h = subst (λ o. unwrapped o ≡ some mainnet) h refl
spelling→match_name t preprod h = subst (λ o. unwrapped o ≡ some preprod) h refl
spelling→match_name t preview h = subst (λ o. unwrapped o ≡ some preview) h refl
spelling→match_name t (testnet n) h = ground arith

-- An ASCII name chooses a network exactly if it is that network's name in any mix of cases.
pub network_name_lem :
    (U : Unicode)
    → IsUnicode U
    → (t : Text) → All (λ c. c < 128) t
    → (name : NetworkName)
    → (network_name U t ≡ some name) ↔ (spelling name ≡ some (map ascii_lower t))
unfolding network_name
network_name_lem U law t ascii name =
    rw (law.lower_ascii t ascii)
      (match_name→spelling (map ascii_lower t) name, spelling→match_name (map ascii_lower t) name)
