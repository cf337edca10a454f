-- ===== src/Ledger/Snapshots/Prune.antt =====
-- What `prune` removes, and when the check of the snapshots panics.
use amaru_wear.Prelude.{
  ℕ, ◌-◌, ◌≡◌, ◌≢◌, ◌↔◌, refl, sym, ◌∙◌, Bool, Option, List, [], ◌∷◌, arith, ltb, Result, ok, panic,
  if◌then◌else◌, Bool-cases, Option-cases, inl, inr,
}
use amaru_wear.Text.{Text}
use amaru_wear.Ledger.Snapshots.{
  split_continuous, insert_number, sort, OpenError, epochs, snapshots, check_ranges,
  assert_sufficient_snapshots, prune_entry, prune_files, prune, split_from,
}
use amaru_wear.Ledger.Snapshots.Laws.{concat, split_continuous_lem}

-- The epochs from a bound on.
unfoldable pub at_least : ℕ → List ℕ → List ℕ
at_least desired [] = []
at_least desired (e ∷ l) = let rest = at_least desired l in if ltb e desired then rest else e ∷ rest

inserted : (x : ℕ) (l : List ℕ) → insert_number x l ≢ []
unfolding insert_number
inserted x [] e = ground arith
inserted x (y ∷ l) e = ground arith

sort_nil : (l : List ℕ) → sort l ≡ [] → l ≡ []
unfolding sort
sort_nil [] e = refl
sort_nil (x ∷ l) e = absurd (inserted x (sort l) e)

split_nil : (l : List ℕ) → split_continuous l ≡ [] → l ≡ []
split_nil l e = sym (split_continuous_lem l).0 ∙ rw e (unfold concat in refl)

ranges_nil : (groups : List (List ℕ)) → check_ranges groups ≡ panic → groups ≡ []
unfolding check_ranges
ranges_nil [] e = refl
ranges_nil (g ∷ groups) e = ground arith

module _ (parse : Text → Option ℕ) where
  module _ (removable : Text → Bool) where
    -- What is left after the walk: every epoch from the bound on, and if it succeeded no other.
    Keeps : ℕ → List Text → Result OpenError (Unit {0}) × List Text → Type 0
    Keeps desired files (outcome, left) =
        (at_least desired (epochs parse left) ≡ at_least desired (epochs parse files))
        × (outcome ≡ ok tt → epochs parse left ≡ at_least desired (epochs parse files))

    prune_files-Keeps :
        (desired : ℕ) (files : List Text)
        → Keeps desired files (prune_files parse removable desired files)
    unfolding prune_files prune_entry epochs at_least Keeps
    prune_files-Keeps desired [] = (refl, λ done. refl)
    prune_files-Keeps desired (name ∷ files) =
        let (same_kept, all_gone) = prune_files-Keeps desired files in
        elim (Option-cases (parse name)) [
          | inl e ↦ ground (arith, same_kept, all_gone)
          | inr (epoch, e) ↦ elim (Bool-cases (ltb epoch desired)) [
            | inl b ↦ elim (Bool-cases (removable name)) [
              | inl r ↦ ground (arith, same_kept, all_gone)
              | inr r ↦ ground (arith, same_kept, all_gone)
            ]
            | inr b ↦ ground (arith, same_kept, all_gone)
          ]
        ]

    -- Whatever directories cannot be removed, `prune` keeps every snapshot that is wanted: those
    -- from the functional minimum less the extra ones on. If it succeeds, it has removed all others.
    pub prune_lem :
        (extra minimum : ℕ) (files : List Text)
        → let (outcome, left) = prune parse removable extra minimum files in
          (at_least (minimum - extra) (epochs parse left)
            ≡ at_least (minimum - extra) (epochs parse files))
          × (outcome ≡ ok tt → epochs parse left ≡ at_least (minimum - extra) (epochs parse files))
    unfolding prune Keeps
    prune_lem extra minimum files = prune_files-Keeps (minimum - extra) files

  -- The check of the snapshots panics exactly if there is no snapshot.
  pub assert_sufficient_panic :
      (files : List Text)
      → (assert_sufficient_snapshots parse files ≡ panic) ↔ (epochs parse files ≡ [])
  unfolding assert_sufficient_snapshots snapshots
  assert_sufficient_panic files = (
    λ e. sort_nil (epochs parse files) (split_nil (snapshots parse files) (ranges_nil _ e)),
    λ e. rw e (unfold sort split_continuous split_from check_ranges in refl),
  )
