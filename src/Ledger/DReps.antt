-- ===== src/Ledger/DReps.antt =====
-- The dreps, rust/patches/amaru-stores/src/rocksdb/ledger/columns/dreps.rs.
pub mod Laws
pub mod Removal
pub mod Loops
use amaru_wear.Prelude.{
  ℕ, Bool, true, false, Option, none, some, List, [], ◌∷◌, map, if◌then◌else◌, Exec, ◌>>=◌, ◌>>◌,
  pure, lift, for_each,
}
use amaru_wear.Bytes.{Bytes}
use amaru_wear.RocksDb.{RocksDb}
use amaru_wear.Ledger.{
  LedgerKernel, StakeCredential, Resettable, DRepRow, DRepRegistration, LedgerExec, put_row,
}
use amaru_wear.Ledger.Delegations.{drep_key, get_drep, drop_drep}
use amaru_wear.Ledger.Accounts.{reset_delegation}

module _ (R : RocksDb) (K : LedgerKernel) where
  open K use {Pointer, Anchor, ProtocolVersion, up_to_version_9, set_or_reset, drep_codec}

  abbrev pub put_drep : StakeCredential → DRepRow Pointer Anchor → LedgerExec R (Unit {0})
  put_drep credential row = put_row R drep_codec (drep_key R K credential) row

  -- The row of a drep that registers, registers again, or only updates.
  unfoldable pub registered_drep :
      ℕ
      → Option (DRepRegistration Pointer)
      → Option (DRepRow Pointer Anchor)
      → Option (DRepRow Pointer Anchor)
  registered_drep valid_until_on_update (some r) (some row) = some (record row {
    deposit = r.deposit;
    registered_at = r.registered_at;
    valid_until = r.valid_until;
  })
  registered_drep valid_until_on_update none (some row) =
      some (record row { valid_until = valid_until_on_update })
  registered_drep valid_until_on_update (some r) none = some (record {
    deposit = r.deposit;
    registered_at = r.registered_at;
    valid_until = r.valid_until;
    anchor = none;
    previous_deregistration = none;
  })
  registered_drep valid_until_on_update none none = none

  unfoldable pub add_drep :
      ℕ
      → StakeCredential × (Resettable Anchor × Option (DRepRegistration Pointer))
      → LedgerExec R (Unit {0})
  add_drep valid_until_on_update (credential, (anchor, registration)) = do
    existing ← get_drep R K credential
    elim (registered_drep valid_until_on_update registration existing) [
      | none ↦ pure tt
      | some row ↦ put_drep credential (record row { anchor = (set_or_reset anchor row.anchor).0 })
    ]

  unfoldable pub add_dreps :
      ℕ
      → List (StakeCredential × (Resettable Anchor × Option (DRepRegistration Pointer)))
      → LedgerExec R (Unit {0})
  add_dreps valid_until_on_update rows = for_each rows (add_drep valid_until_on_update)

  unfoldable pub set_valid_until_of : ℕ → StakeCredential → LedgerExec R (Unit {0})
  set_valid_until_of valid_until credential = do
    existing ← get_drep R K credential
    elim existing [
      | none ↦ pure tt
      | some row ↦ put_drep credential (record row { valid_until = valid_until })
    ]

  -- A set of credentials is the list of its elements.
  unfoldable pub set_valid_until : List StakeCredential → ℕ → LedgerExec R (Unit {0})
  set_valid_until credentials valid_until = for_each credentials (set_valid_until_of valid_until)

  -- Up to protocol version 9, a drep that unregisters takes along the delegations of all accounts
  -- that ever delegated to it.
  unfoldable pub unbind_delegators :
      ProtocolVersion → StakeCredential → Pointer → LedgerExec R (Unit {0})
  unbind_delegators version drep pointer =
      if up_to_version_9 version
      then (drop_drep R K drep >>= λ delegators.
          reset_delegation R K (map (λ d. (d, pointer)) delegators))
      else pure tt

  unfoldable pub mark_deregistered : StakeCredential × Pointer → LedgerExec R (Unit {0})
  mark_deregistered (drep, pointer) = do
    existing ← get_drep R K drep
    elim existing [
      | none ↦ pure tt
      | some row ↦ put_drep drep (record row { previous_deregistration = some pointer })
    ]

  unfoldable pub remove_drep : ProtocolVersion → StakeCredential × Pointer → LedgerExec R (Unit {0})
  remove_drep version (drep, pointer) =
      unbind_delegators version drep pointer >> mark_deregistered (drep, pointer)

  unfoldable pub remove_dreps :
      ProtocolVersion → List (StakeCredential × Pointer) → LedgerExec R (Unit {0})
  remove_dreps version rows = for_each rows (remove_drep version)
