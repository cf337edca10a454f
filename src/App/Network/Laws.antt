-- ===== src/App/Network/Laws.antt =====
-- When the network thread bootstraps the node, when it runs it, and with which status.
use amaru_wear.Prelude.{
  ℕ, suc, ◌+◌, ◌≡◌, ◌⊎◌, refl, ap, none, some, Bool, true, false, ◌&&◌, Bool-cases, inl, inr, List,
  [], ◌∷◌, arith, if◌then◌else◌,
}
use amaru_wear.Text.{Text, codes}
use amaru_wear.App.{Shared, store, bootstrapping, syncing, set_sync_status, get_sync_status}
use amaru_wear.App.Node.{NetworkName}
use amaru_wear.App.Network.{
  config, Effect, create_dir_all, exists, set_current_dir, bootstrap, build_and_run_network,
  Outside, World, perform, join, setup_amaru_config, run_configured, attempt, bootstrap_if_needed,
  run_network, network_thread,
}

-- How often the effects bootstrap the node, and how often they run it.
unfoldable pub bootstraps : List Effect → ℕ
bootstraps [] = 0
bootstraps (bootstrap network ledger chain ∷ es) = suc (bootstraps es)
bootstraps (e ∷ es) = bootstraps es

unfoldable pub runs : List Effect → ℕ
runs [] = 0
runs (build_and_run_network c ∷ es) = suc (runs es)
runs (e ∷ es) = runs es

module _ (O : Outside) (network : NetworkName) (dir : Text) where
  abbrev ledger : Text
  ledger = join dir (codes "ledger.db")

  abbrev chain : Text
  chain = join dir (codes "chain.db")

  -- The thread bootstraps the node exactly once if there is no `CURRENT` file in the ledger's
  -- directory after the directories were created, and otherwise not at all.
  pub bootstraps-network_thread :
      (w : World)
      → bootstraps (network_thread O network dir w).effects
        ≡ (if O.succeeds
              (create_dir_all chain ∷ create_dir_all ledger ∷ w.effects)
              (exists (join ledger (codes "CURRENT")))
            then 0
            else 1)
          + bootstraps w.effects
  unfolding bootstraps network_thread run_network run_configured bootstrap_if_needed attempt perform
      setup_amaru_config
  bootstraps-network_thread w = ground arith

  -- The effects before the directories are set up, the latest first.
  unfoldable pub before_setup : List Effect → List Effect
  before_setup es =
      let created = create_dir_all chain ∷ create_dir_all ledger ∷ es in
      let current = exists (join ledger (codes "CURRENT")) in
      if O.succeeds created current
      then current ∷ created
      else bootstrap network ledger chain ∷ set_current_dir dir ∷ current ∷ created

  -- Whether the set-up can create both directories.
  unfoldable pub can_set_up : List Effect → Bool
  can_set_up es =
      O.succeeds es (create_dir_all ledger)
      && O.succeeds (create_dir_all ledger ∷ es) (create_dir_all chain)

  -- A poisoned status stays so, but the poller poisons none.
  abbrev pub KeepsSound : Type 0
  KeepsSound =
      (es : List Effect) (s : Shared)
      → s.sync_status.poisoned ≡ false
      → (O.poller es s).sync_status.poisoned ≡ false

  -- The network was run once more, with the status `Syncing` when it started, or not at all.
  abbrev pub RunsIf : Bool → World → World → Type 0
  RunsIf created w w' =
      ((created ≡ true)
        × (runs w'.effects ≡ suc (runs w.effects))
        × ((s : Shared) × (get_sync_status s ≡ syncing) × (w'.shared ≡ O.poller w'.effects s)))
      ⊎ ((created ≡ false) × (runs w'.effects ≡ runs w.effects))

  set_sync_status_lem :
      (s : Shared)
      → s.sync_status.poisoned ≡ false
      → get_sync_status (set_sync_status syncing s) ≡ syncing
  unfolding set_sync_status get_sync_status store
  set_sync_status_lem s sound = ground arith

  -- What the set-up gives, and the state after it.
  setup_amaru_config_lem :
      (w : World)
      → (w' : World) × (setup_amaru_config O network dir w
          ≡ (if can_set_up w.effects then some (config network ledger chain) else none, w'))
        × (runs w'.effects ≡ runs w.effects)
        × (KeepsSound
            → w.shared.sync_status.poisoned ≡ false
            → w'.shared.sync_status.poisoned ≡ false)
  unfolding setup_amaru_config perform runs can_set_up
  setup_amaru_config_lem w = elim (Bool-cases (O.succeeds w.effects (create_dir_all ledger))) [
    | inl e ↦
        let es = create_dir_all ledger ∷ w.effects in
        elim (Bool-cases (O.succeeds es (create_dir_all chain))) [
          | inl q ↦ (
            record {
              effects = create_dir_all chain ∷ es;
              shared = O.poller (create_dir_all chain ∷ es) (O.poller es w.shared);
            },
            rw (e, q) refl,
            refl,
            λ keeps sound. keeps _ _ (keeps _ w.shared sound),
          )
          | inr q ↦ (
            record {
              effects = create_dir_all chain ∷ es;
              shared = O.poller (create_dir_all chain ∷ es) (O.poller es w.shared);
            },
            rw (e, q) refl,
            refl,
            λ keeps sound. keeps _ _ (keeps _ w.shared sound),
          )
        ]
    | inr e ↦ (
      record {
        effects = create_dir_all ledger ∷ w.effects;
        shared = O.poller (create_dir_all ledger ∷ w.effects) w.shared;
      },
      rw e refl,
      refl,
      λ keeps sound. keeps _ w.shared sound,
    )
  ]

  run_network_lem :
      KeepsSound
      → (w : World) → w.shared.sync_status.poisoned ≡ false
      → RunsIf (can_set_up w.effects) w (run_network O network dir w)
  unfolding run_network run_configured attempt perform runs
  run_network_lem keeps w sound =
      let (w', done, same_runs, clean) = setup_amaru_config_lem w in
      elim (Bool-cases (can_set_up w.effects)) [
        | inl e ↦
            rw (done, e)
              (inl (
                refl,
                ap suc same_runs,
                (
                  set_sync_status syncing w'.shared,
                  set_sync_status_lem w'.shared (clean keeps sound),
                  refl,
                ),
              ))
        | inr e ↦ rw (done, e) (inr (refl, same_runs))
      ]

  bootstrap_if_needed_lem :
      KeepsSound
      → (w : World) → w.shared.sync_status.poisoned ≡ false
      → let w' =
          bootstrap_if_needed O network dir
            (attempt O (create_dir_all chain) (attempt O (create_dir_all ledger) w)) in
        (w'.effects ≡ before_setup w.effects)
        × (runs w'.effects ≡ runs w.effects)
        × (w'.shared.sync_status.poisoned ≡ false)
  unfolding bootstrap_if_needed attempt perform runs before_setup
  bootstrap_if_needed_lem keeps w sound =
      let created = create_dir_all chain ∷ create_dir_all ledger ∷ w.effects in
      let current = exists (join ledger (codes "CURRENT")) in
      let kept = keeps (current ∷ created) _ (keeps created _ (keeps _ w.shared sound)) in
      elim (Bool-cases (O.succeeds created current)) [
        | inl e ↦ rw e (refl, refl, kept)
        | inr e ↦ rw e (refl, refl, keeps _ _ (keeps _ _ kept))
      ]

  started :
      (s : Shared)
      → s.sync_status.poisoned ≡ false
      → (set_sync_status bootstrapping s).sync_status.poisoned ≡ false
  unfolding set_sync_status store
  started s sound = ground arith

  -- The thread runs the network once, with the status `Syncing` when it starts it, if both
  -- directories can be created after the bootstrap, and else not at all: whatever the thread that
  -- polls the traces makes of the status, as long as that does not poison it.
  pub runs-network_thread :
      (w : World)
      → w.shared.sync_status.poisoned ≡ false
      → KeepsSound
      → RunsIf (can_set_up (before_setup w.effects)) w (network_thread O network dir w)
  unfolding network_thread
  runs-network_thread w sound keeps =
      let w₀ = record w { shared = set_sync_status bootstrapping w.shared } in
      let w₂ = attempt O (create_dir_all chain) (attempt O (create_dir_all ledger) w₀) in
      let (effects, same_runs, clean) = bootstrap_if_needed_lem keeps w₀ (started w.shared sound) in
      let ran = run_network_lem keeps (bootstrap_if_needed O network dir w₂) clean in
      rw⁻¹ effects (rw⁻¹ same_runs ran)
