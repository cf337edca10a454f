-- ===== src/Ledger/Accounts.antt =====
-- The accounts, rust/patches/amaru-stores/src/rocksdb/ledger/columns/accounts.rs.
pub mod Laws
pub mod Delegation
pub mod Changed
pub mod Registration
pub mod Later
use amaru_wear.Prelude.{
  ℕ, Bool, true, false, Option, none, some, List, [], ◌∷◌, ◌++◌, Result, ok, panic, if◌then◌else◌,
  Exec, ◌>>=◌, ◌>>◌, pure, lift, for_each,
}
use amaru_wear.Bytes.{Bytes}
use amaru_wear.RocksDb.{RocksDb, delete}
use amaru_wear.Ledger.{
  LedgerKernel, AccountValue, StakeCredential, DRep, key, script, abstain, no_confidence,
  Resettable, set, reset, unchanged, Account, LedgerExec, internal, accounts_prefix, as_key,
  get_row, put_row,
}
use amaru_wear.Ledger.Delegations

module _ (R : RocksDb) (K : LedgerKernel) where
  open K use {
    Pool, Pointer, ProtocolVersion, later, up_to_version_9, set_or_reset, credential_codec,
    account_codec,
  }

  abbrev pub Row : Type 0
  Row = Account Pool Pointer

  abbrev pub account_key : StakeCredential → Bytes
  account_key = as_key credential_codec accounts_prefix

  unfoldable pub get_account : StakeCredential → LedgerExec R (Option Row)
  get_account credential = get_row R account_codec (account_key credential)

  abbrev pub put_account : StakeCredential → Row → LedgerExec R (Unit {0})
  put_account credential row = put_row R account_codec (account_key credential) row

  -- Whether the row's delegation was made after the drep was unregistered.
  unfoldable pub delegated_after : Pointer → Row → Bool
  delegated_after unregistered_at row = elim row.drep [
    | none ↦ false
    | some (drep, delegated_since) ↦ later delegated_since unregistered_at
  ]

  unfoldable pub reset_delegation_row : StakeCredential × Pointer → LedgerExec R (Unit {0})
  reset_delegation_row (credential, unregistered_at) = do
    entry ← get_account credential
    elim entry [
      | none ↦ pure tt
      | some row ↦
          if delegated_after unregistered_at row
          then pure tt
          else put_account credential (record row { drep = none })
    ]

  unfoldable pub reset_delegation : List (StakeCredential × Pointer) → LedgerExec R (Unit {0})
  reset_delegation rows = for_each rows reset_delegation_row

  unfoldable pub reset_row : StakeCredential → LedgerExec R (Unit {0})
  reset_row credential = do
    entry ← get_account credential
    elim entry [ none ↦ pure tt | some row ↦ put_account credential (record row { rewards = 0 }) ]

  unfoldable pub reset_many : List StakeCredential → LedgerExec R (Unit {0})
  reset_many rows = for_each rows reset_row

  -- `accounts::set`: the leftover is what an account that does not exist would have got.
  unfoldable pub set_account : StakeCredential → (ℕ → ℕ) → LedgerExec R ℕ
  set_account credential with_rewards = do
    entry ← get_account credential
    elim entry [
      | none ↦ pure (with_rewards 0)
      | some row ↦
          put_account credential (record row { rewards = with_rewards row.rewards }) >> pure 0
    ]

  unfoldable pub remove_accounts : List StakeCredential → LedgerExec R (Unit {0})
  remove_accounts rows = for_each rows (λ credential. delete R internal (account_key credential))

  -- `matches!(drep, Set((Abstain, _)) | Set((NoConfidence, _)))`
  unfoldable pub is_predefined : Resettable (DRep × Pointer) → Bool
  is_predefined (set (abstain, since)) = true
  is_predefined (set (no_confidence, since)) = true
  is_predefined drep = false

  -- The row with the changes, and the drep that they replace.
  unfoldable pub delegated : AccountValue Pool Pointer → Row → Row × Option (DRep × Pointer)
  delegated r row =
      let (pool, previous_pool) = set_or_reset r.pool row.pool in
      let (drep, previous_drep) = set_or_reset r.drep row.drep in
      (record row { pool = pool; drep = drep }, previous_drep)

  -- The row that is written for a credential, from the one that exists; an account cannot be
  -- created without a deposit.
  unfoldable pub registered :
      AccountValue Pool Pointer → Option Row → Option (Row × Option (DRep × Pointer))
  registered r none = elim r.deposit [
    | none ↦ none
    | some deposit ↦
        some (
          delegated r (record { pool = none; drep = none; deposit = deposit; rewards = r.rewards }))
  ]
  registered r (some row) =
      let (changed, previous) = delegated r row in
      elim r.deposit [
        | none ↦ some (changed, previous)
        | some deposit ↦ some (record changed { deposit = deposit }, previous)
      ]

  -- Up to protocol version 9, a replaced delegation is forgotten if the new drep is predefined, and
  -- else reported.
  unfoldable pub past_delegation :
      ProtocolVersion
      → StakeCredential
      → AccountValue Pool Pointer
      → Option (DRep × Pointer)
      → LedgerExec R (List (StakeCredential × (DRep × Pointer)))
  past_delegation version credential r none = pure []
  past_delegation version credential r (some (drep, since)) =
      if up_to_version_9 version
      then (if is_predefined r.drep
          then Delegations.remove_delegation R K drep credential >> pure []
          else pure ((credential, (drep, since)) ∷ []))
      else pure []

  unfoldable pub add_account :
      ProtocolVersion
      → StakeCredential
      → AccountValue Pool Pointer
      → LedgerExec R (List (StakeCredential × (DRep × Pointer)))
  add_account version credential r = do
    existing ← get_account credential
    elim (registered r existing) [
      | none ↦ lift panic
      | some (row, previous) ↦
          put_account credential row >> past_delegation version credential r previous
    ]

  unfoldable pub add_accounts :
      ProtocolVersion
      → List (StakeCredential × AccountValue Pool Pointer)
      → LedgerExec R (List (StakeCredential × (DRep × Pointer)))
  add_accounts version [] = pure []
  add_accounts version ((credential, r) ∷ rows) = do
    previous ← add_account version credential r
    rest ← add_accounts version rows
    pure (previous ++ rest)
