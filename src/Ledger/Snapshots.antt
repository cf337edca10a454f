-- ===== src/Ledger/Snapshots.antt =====
-- The snapshots of past epochs, directories beside the live database:
-- rust/patches/amaru-stores/src/rocksdb/mod.rs.
pub mod Laws
pub mod Prune
pub mod Next
pub mod Taking
use amaru_wear.Prelude.{
  ℕ, ◌+◌, ◌-◌, ◌%◌, ◌^◌, Bool, true, false, ◌&&◌, not, Option, none, some, List, [], ◌∷◌, ◌++◌,
  ◌==◌, ltb, leb, length, Result, ok, err, panic, out_of_fuel, Exec, ◌>>◌, pure, if◌then◌else◌,
}
use amaru_wear.Text.{Text}

-- The last number of a group, if there is one.
unfoldable pub last : List ℕ → Option ℕ
last [] = none
last (x ∷ []) = some x
last (x ∷ y ∷ group) = last (y ∷ group)

-- `last_group.last().is_some_and(|&last| x == last + 1)`, in 64 bits.
unfoldable pub continues : List ℕ → ℕ → Bool
continues group x = elim (last group) [ none ↦ false | some l ↦ x == (l + 1) % 2 ^ 64 ]

-- One step of the fold: the number goes to the last group, or begins a group.
unfoldable pub push_number : List (List ℕ) → ℕ → List (List ℕ)
push_number [] x = (x ∷ []) ∷ []
push_number (g ∷ []) x = if continues g x then (g ++ x ∷ []) ∷ [] else g ∷ (x ∷ []) ∷ []
push_number (g ∷ h ∷ groups) x = g ∷ push_number (h ∷ groups) x

unfoldable pub split_from : List (List ℕ) → List ℕ → List (List ℕ)
split_from groups [] = groups
split_from groups (x ∷ input) = split_from (push_number groups x) input

unfoldable pub split_continuous : List ℕ → List (List ℕ)
split_continuous input = split_from [] input

-- `snapshots.sort()`
unfoldable pub insert_number : ℕ → List ℕ → List ℕ
insert_number x [] = x ∷ []
insert_number x (y ∷ l) = let rest = insert_number x l in if leb x y then x ∷ y ∷ l else y ∷ rest

unfoldable pub sort : List ℕ → List ℕ
sort [] = []
sort (x ∷ l) = insert_number x (sort l)

-- `StoreError::Open`
pub data OpenError : Type 0 where
  no_stable_snapshot : OpenError
  io : Text → OpenError

-- The condition on the ranges: indexing the first of none panics.
unfoldable pub check_ranges : List (List ℕ) → Result OpenError (Unit {0})
check_ranges [] = panic
check_ranges (g ∷ groups) =
    if not (length (g ∷ groups) == 1) && ltb (length g) 2 then err no_stable_snapshot else ok tt

-- The names of the files in the store's directory; `parse` is `str::parse::<Epoch>`.
module _ (parse : Text → Option ℕ) where
  unfoldable pub epochs : List Text → List ℕ
  epochs [] = []
  epochs (name ∷ files) =
      let rest = epochs files in elim (parse name) [ none ↦ rest | some epoch ↦ epoch ∷ rest ]

  unfoldable pub snapshots : List Text → List ℕ
  snapshots files = sort (epochs files)

  unfoldable pub assert_sufficient_snapshots : List Text → Result OpenError (Unit {0})
  assert_sufficient_snapshots files = check_ranges (split_continuous (snapshots files))

  module _ (removable : Text → Bool) where
    -- What the walk does with one file: the outcome, and the file in front if it is left.
    unfoldable pub prune_entry : ℕ → Text → Exec (List Text) OpenError (Unit {0})
    prune_entry desired name kept = elim (parse name) [
      | none ↦ (ok tt, name ∷ kept)
      | some epoch ↦
          if ltb epoch desired
          then (if removable name then (ok tt, kept) else (err (io name), name ∷ kept))
          else (ok tt, name ∷ kept)
    ]

    -- The walk of `with_snapshots` over the files: the outcome, and the files that are left. An
    -- error ends it.
    unfoldable pub prune_files : ℕ → List Text → Result OpenError (Unit {0}) × List Text
    prune_files desired [] = (ok tt, [])
    prune_files desired (name ∷ files) =
        let (rest, left) = prune_files desired files in
        let (outcome, here) = prune_entry desired name [] in
        elim outcome [
          | ok _ ↦ (rest, here ++ left)
          | err e ↦ (err e, here ++ files)
          | panic ↦ (panic, here ++ files)
          | out_of_fuel ↦ (out_of_fuel, here ++ files)
        ]

    -- `functional_minimum.saturating_sub(self.max_extra_ledger_snapshots)`
    unfoldable pub prune : ℕ → ℕ → List Text → Result OpenError (Unit {0}) × List Text
    prune max_extra_ledger_snapshots functional_minimum files =
        prune_files (functional_minimum - max_extra_ledger_snapshots) files
