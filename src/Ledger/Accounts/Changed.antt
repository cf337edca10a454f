-- ===== src/Ledger/Accounts/Changed.antt =====
-- What `add` has to make of an account, field by field: the row, the past delegation that it
-- reports and the one that it forgets.
use amaru_wear.Prelude.{
  ℕ, ◌≡◌, refl, Bool, true, false, ◌&&◌, not, Option, none, some, List, [], ◌∷◌, if◌then◌else◌,
}
use amaru_wear.Bytes.{Bytes, same}
use amaru_wear.RocksDb.{RocksDb}
use amaru_wear.Ledger.{
  AccountValue, LedgerKernel, StakeCredential, addr_keyhash, script_hash, DRep, key, script,
  abstain, no_confidence, Resettable, set, reset, unchanged,
}
use amaru_wear.Ledger.Changes.{after_change, replaced, or_before}
use amaru_wear.Ledger.Delegations.{new_key}
use amaru_wear.Ledger.Accounts.{Row, is_predefined}

module _ (R : RocksDb) (K : LedgerKernel) where
  open K use {Pool, Pointer, ProtocolVersion, up_to_version_9}

  abbrev pub new_account : AccountValue K.Pool K.Pointer → ℕ → Row R K
  new_account r deposit = record {
    pool = after_change r.pool none;
    drep = after_change r.drep none;
    deposit = deposit;
    rewards = r.rewards;
  }

  -- The row that the changes give, if there may be one: a new account needs a deposit.
  unfoldable pub account_after : AccountValue K.Pool K.Pointer → Option (Row R K) → Option (Row R K)
  account_after r none = elim r.deposit [
    | none ↦ none
    | some deposit ↦ some (new_account r deposit)
  ]
  account_after r (some row) = some (record {
    pool = after_change r.pool row.pool;
    drep = after_change r.drep row.drep;
    deposit = or_before r.deposit row.deposit;
    rewards = row.rewards;
  })

  -- The drep that the changes replace.
  unfoldable pub drep_before :
      AccountValue K.Pool K.Pointer → Option (Row R K) → Option (DRep × Pointer)
  drep_before r none = none
  drep_before r (some row) = replaced r.drep row.drep

  -- Whether a change is to a drep that is no credential.
  unfoldable pub delegates_to_none : Resettable (DRep × Pointer) → Bool
  delegates_to_none (set (key hash, since)) = false
  delegates_to_none (set (script hash, since)) = false
  delegates_to_none (set (abstain, since)) = true
  delegates_to_none (set (no_confidence, since)) = true
  delegates_to_none reset = false
  delegates_to_none unchanged = false

  pub is_predefined_lem :
      (drep : Resettable (DRep × Pointer)) → is_predefined R K drep ≡ delegates_to_none drep
  unfolding is_predefined delegates_to_none
  is_predefined_lem (set (key hash, since)) = refl
  is_predefined_lem (set (script hash, since)) = refl
  is_predefined_lem (set (abstain, since)) = refl
  is_predefined_lem (set (no_confidence, since)) = refl
  is_predefined_lem reset = refl
  is_predefined_lem unchanged = refl

  -- The past delegation that `add` reports for a drep that is replaced.
  unfoldable pub reported :
      ProtocolVersion
      → StakeCredential
      → Resettable (DRep × Pointer)
      → Option (DRep × Pointer)
      → List (StakeCredential × (DRep × Pointer))
  reported version c drep none = []
  reported version c drep (some previous) =
      if up_to_version_9 version && not (delegates_to_none drep) then (c, previous) ∷ [] else []

  -- Whether a key is that of an account's delegation to a drep.
  unfoldable pub records : DRep → StakeCredential → Bytes → Bool
  records (key hash) c j = same (new_key R K (addr_keyhash hash) c) j
  records (script hash) c j = same (new_key R K (script_hash hash) c) j
  records abstain c j = false
  records no_confidence c j = false

  -- Whether a key is that of the past delegation that `add` forgets.
  unfoldable pub forgotten :
      ProtocolVersion
      → StakeCredential
      → Resettable (DRep × Pointer)
      → Option (DRep × Pointer)
      → Bytes
      → Bool
  forgotten version c drep none j = false
  forgotten version c drep (some (previous, since)) j =
      up_to_version_9 version && delegates_to_none drep && records previous c j
