-- ===== src/Ledger/Save.antt =====
-- `save`: a block's changes to the ledger store, rust/patches/amaru-stores/src/rocksdb/mod.rs.
pub mod View
pub mod Frames
pub mod Columns
pub mod Flush
pub mod Tip
pub mod Laws
use amaru_wear.Prelude.{
  ℕ, Bool, true, false, ◌&&◌, not, Option, none, some, List, [], ◌∷◌, ltb, leb, Result, ok, err,
  panic, out_of_fuel, ◌>>=◌, ◌>>◌, pure, lift, if◌then◌else◌,
}
use amaru_wear.RocksDb.{RocksDb}
use amaru_wear.Ledger.{
  AccountValue, LedgerKernel, LedgerError, outside_history, StakeCredential, DRep, Resettable,
  DRepRow, DRepRegistration, LedgerExec, dreps_prefix, put_row,
}
use amaru_wear.Ledger.Delegations.{add_delegations}
use amaru_wear.Ledger.Accounts.{add_accounts, reset_many, remove_accounts}
use amaru_wear.Ledger.DReps.{add_dreps, set_valid_until, remove_dreps}
use amaru_wear.Ledger.CcMembers.{upsert_members}
use amaru_wear.Ledger.Pools.{add_pools, remove_pools}
use amaru_wear.Ledger.Entries.{put_slot, add_proposals, add_outputs, remove_outputs, add_votes}
use amaru_wear.Ledger.Iteration.{IterBorrow}
use amaru_wear.Ledger.ReadStore.{with_dreps}
use amaru_wear.Ledger.Governance.{GovernanceKernel, tip_key, tip, set_governance_activity}

module _ (K : LedgerKernel) where
  open K use {
    Pool, Pointer, Anchor, PoolId, PoolParams, ProposalId, Proposal, Input, Output, Ballot, Vote,
  }

  -- The columns of `add`; an iterator is the list of its items.
  pub record Additions : Type 0 where
    pub utxo : List (Input × Output)
    pub pools : List (PoolParams × (Pointer × ℕ))
    pub accounts : List (StakeCredential × AccountValue K.Pool K.Pointer)
    pub dreps : List (StakeCredential × (Resettable Anchor × Option (DRepRegistration Pointer)))
    pub cc_members : List (StakeCredential × (Resettable StakeCredential × Resettable ℕ))
    pub proposals : List (ProposalId × Proposal)
    pub votes : List (Ballot × Vote)

  -- The columns of `remove`.
  pub record Removals : Type 0 where
    pub utxo : List Input
    pub pools : List (PoolId × ℕ)
    pub accounts : List StakeCredential
    pub dreps : List (StakeCredential × Pointer)
    pub cc_members : List StakeCredential

  pub record Delta (G : GovernanceKernel K) : Type 0 where
    pub point : G.Point
    pub issuer : Option PoolId
    pub add : Additions
    pub remove : Removals
    pub withdrawals : List StakeCredential

module _ (R : RocksDb) (K : LedgerKernel) (G : GovernanceKernel K) where
  open R use {Db, Error}
  open K use {
    Pointer, Anchor, ProtocolVersion, up_to_version_9, PoolId, PoolParams, ProposalId, Proposal,
    Input, Output, Ballot, Vote, credential_codec, drep_codec,
  }
  open G use {
    Point, specific_slot, slot_or_default, point_codec, ProtocolParameters, protocol_version,
    drep_expiry, EraHistory, slot_to_epoch, add_epochs, sub_epochs, new_slot_row,
  }

  -- `self.tip().ok()`
  unfoldable pub found_tip :
      Result (LedgerError Error) Point → Result (LedgerError Error) (Option Point)
  found_tip (ok point) = ok (some point)
  found_tip (err error) = ok none
  found_tip panic = panic
  found_tip out_of_fuel = out_of_fuel

  unfoldable pub tip_ok : LedgerExec R (Option Point)
  tip_ok d = (found_tip (tip R K G d).0, d)

  -- `*new <= current && !self.host.incremental_save`, for two points that have a slot.
  unfoldable pub already_known : Bool → Option ℕ → Option ℕ → Bool
  already_known incremental_save (some new) (some current) = leb new current && not incremental_save
  already_known incremental_save (some new) none = false
  already_known incremental_save none current = false

  unfoldable pub slot_of_tip : Option Point → Option ℕ
  slot_of_tip none = none
  slot_of_tip (some point) = specific_slot point

  unfoldable pub epoch_at : EraHistory → ℕ → Result (LedgerError Error) ℕ
  epoch_at era_history slot = elim (slot_to_epoch era_history slot slot) [
    | none ↦ err outside_history
    | some epoch ↦ ok epoch
  ]

  unfoldable pub put_issuer : ℕ → Option PoolId → LedgerExec R (Unit {0})
  put_issuer slot none = pure tt
  put_issuer slot (some issuer) = put_slot R K slot (new_slot_row issuer)

  -- Up to protocol version 9 the replaced delegations are kept for later.
  unfoldable pub keep_delegations :
      ProtocolVersion → List (StakeCredential × (DRep × Pointer)) → LedgerExec R (Unit {0})
  keep_delegations version previous =
      if up_to_version_9 version then add_delegations R K previous else pure tt

  -- `if !voting_dreps.is_empty()`
  unfoldable pub renew : ℕ → List StakeCredential → LedgerExec R (Unit {0})
  renew drep_validity [] = pure tt
  renew drep_validity (drep ∷ dreps) = set_valid_until R K (drep ∷ dreps) drep_validity

  -- What is added, up to the validity of the dreps that vote; the result is the number of proposals.
  unfoldable pub add_columns : ProtocolVersion → ℕ → Additions K → LedgerExec R ℕ
  add_columns version drep_validity add = do
    add_outputs R K add.utxo
    add_pools R K add.pools
    add_dreps R K drep_validity add.dreps
    upsert_members R K add.cc_members
    previous_delegations ← add_accounts R K version add.accounts
    keep_delegations version previous_delegations
    proposals_count ← add_proposals R K add.proposals
    voting_dreps ← add_votes R K add.votes
    renew drep_validity voting_dreps
    pure proposals_count

  -- The members of the committee that are to be removed are not looked at.
  unfoldable pub remove_columns :
      ProtocolVersion → List StakeCredential → Removals K → LedgerExec R (Unit {0})
  remove_columns version withdrawals remove = do
    reset_many R K withdrawals
    remove_outputs R K remove.utxo
    remove_pools R K remove.pools
    remove_accounts R K remove.accounts
    remove_dreps R K version remove.dreps

  -- The row of a drep with the dormant epochs added, unless it has expired all the same. Every row
  -- is borrowed to change.
  unfoldable pub with_dormant : ℕ → ℕ → DRepRow Pointer Anchor → DRepRow Pointer Anchor
  with_dormant dormant current_epoch row =
      let actual_expiry = add_epochs row.valid_until dormant in
      if leb current_epoch actual_expiry then record row { valid_until = actual_expiry } else row

  -- The dormant epochs are flushed to the dreps when a proposal is seen; the result is what the
  -- governance activity holds then.
  unfoldable pub flush_dormant : IterBorrow → ℕ → ℕ → ℕ → LedgerExec R ℕ
  flush_dormant I dormant current_epoch proposals_count =
      if ltb 0 dormant && ltb 0 proposals_count
      then (with_dreps R K I
            (λ credential row. some (some (with_dormant dormant current_epoch row)))
          >> set_governance_activity R K G 0
          >> pure 0)
      else pure dormant

  unfoldable pub save_new :
      IterBorrow → EraHistory → ProtocolParameters → ℕ → Delta K G → LedgerExec R ℕ
  save_new I era_history parameters dormant delta =
      let slot = slot_or_default delta.point in
      let version = protocol_version parameters in
      do
        put_row R point_codec tip_key delta.point
        current_epoch ← lift (epoch_at era_history slot)
        put_issuer slot delta.issuer
        proposals_count ←
            add_columns version
              (sub_epochs (add_epochs current_epoch (drep_expiry parameters)) dormant) delta.add
        remove_columns version delta.withdrawals delta.remove
        flush_dormant I dormant current_epoch proposals_count

  -- The result is the number of dormant epochs that the governance activity, which is changed in
  -- place, holds after a success.
  unfoldable pub save :
      IterBorrow → Bool → EraHistory → ProtocolParameters → ℕ → Delta K G → LedgerExec R ℕ
  save I incremental_save era_history parameters dormant delta = tip_ok >>= λ current.
      if already_known incremental_save (specific_slot delta.point) (slot_of_tip current)
      then pure dormant
      else save_new I era_history parameters dormant delta
