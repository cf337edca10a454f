-- ===== src/InMemory/Columns.antt =====
-- The columns of the store in memory: rust/patches/amaru-stores/src/in_memory/ledger/columns.
use amaru_wear.Prelude.{ℕ, Option, none, some, List, [], ◌∷◌}
use amaru_wear.Map.{Map, get, insert, remove, modify}
use amaru_wear.Ledger.{
  LedgerKernel, StakeCredential, Resettable, set, reset, unchanged, Account, AccountValue, DRepRow,
  DRepRegistration, CcMember, Voter, drep_key, drep_script, committee_key, committee_script,
  stake_pool_key, addr_keyhash, script_hash,
}
use amaru_wear.Ledger.Governance.{GovernanceKernel}
use amaru_wear.InMemory.{MemoryKernel}

-- `for row in rows { .. }` over a map that is borrowed to change.
unfoldable pub over : {X S : Type 0} → (X → S → S) → List X → S → S
over step [] s = s
over step (x ∷ xs) s = over step xs (step x s)

module _ (K : LedgerKernel) (G : GovernanceKernel K) (Q : MemoryKernel K G) where
  open K use {
    Pool, Pointer, Anchor, PoolId, PoolParams, PoolRow, ProposalId, Proposal, Input, Output, Ballot,
    Vote, set_or_reset, pool_id, new_pool_row, scheduled, voter,
  }

  abbrev pub new_account : Account Pool Pointer
  new_account = record { pool = none; drep = none; deposit = 0; rewards = 0 }

  unfoldable pub or_new_account : Option (Account Pool Pointer) → Account Pool Pointer
  or_new_account none = new_account
  or_new_account (some row) = row

  unfoldable pub or_kept : Option ℕ → ℕ → ℕ
  or_kept none rewards = rewards
  or_kept (some new) rewards = new

  -- The loop takes the third part of the value for the rewards and the fourth for the deposit.
  unfoldable pub account_row :
      AccountValue Pool Pointer → Option (Account Pool Pointer) → Account Pool Pointer
  account_row value existing =
      let row = or_new_account existing in
      record {
        pool = (set_or_reset value.pool row.pool).0;
        drep = (set_or_reset value.drep row.drep).0;
        deposit = value.rewards;
        rewards = or_kept value.deposit row.rewards;
      }

  unfoldable pub add_to_accounts :
      List (StakeCredential × AccountValue Pool Pointer)
      → Map StakeCredential (Account Pool Pointer)
      → Map StakeCredential (Account Pool Pointer)
  add_to_accounts = over λ (x : StakeCredential × AccountValue Pool Pointer) accounts.
      insert Q.credential_order x.0 (account_row x.1 (get Q.credential_order x.0 accounts)) accounts

  unfoldable pub reset_rewards :
      List StakeCredential
      → Map StakeCredential (Account Pool Pointer)
      → Map StakeCredential (Account Pool Pointer)
  reset_rewards = over λ credential accounts.
      modify Q.credential_order (λ row. record row { rewards = 0 }) credential accounts

  unfoldable pub remove_from_accounts :
      List StakeCredential
      → Map StakeCredential (Account Pool Pointer)
      → Map StakeCredential (Account Pool Pointer)
  remove_from_accounts = over λ credential accounts. remove Q.credential_order credential accounts

  abbrev pub with_new_anchor : Resettable Anchor → DRepRow Pointer Anchor → DRepRow Pointer Anchor
  with_new_anchor anchor row = record row { anchor = (set_or_reset anchor row.anchor).0 }

  -- An update of a known drep does not touch its validity.
  unfoldable pub drep_row :
      Option (DRepRegistration Pointer)
      → Option (DRepRow Pointer Anchor)
      → Option (DRepRow Pointer Anchor)
  drep_row (some r) (some row) = some (record row {
    deposit = r.deposit;
    registered_at = r.registered_at;
    valid_until = r.valid_until;
  })
  drep_row none (some row) = some row
  drep_row (some r) none = some (record {
    deposit = r.deposit;
    registered_at = r.registered_at;
    valid_until = r.valid_until;
    anchor = none;
    previous_deregistration = none;
  })
  drep_row none none = none

  unfoldable pub add_drep_to :
      StakeCredential × (Resettable Anchor × Option (DRepRegistration Pointer))
      → Map StakeCredential (DRepRow Pointer Anchor)
      → Map StakeCredential (DRepRow Pointer Anchor)
  add_drep_to x dreps = elim (drep_row x.1.1 (get Q.credential_order x.0 dreps)) [
    | none ↦ dreps
    | some row ↦ insert Q.credential_order x.0 (with_new_anchor x.1.0 row) dreps
  ]

  unfoldable pub add_to_dreps :
      List (StakeCredential × (Resettable Anchor × Option (DRepRegistration Pointer)))
      → Map StakeCredential (DRepRow Pointer Anchor)
      → Map StakeCredential (DRepRow Pointer Anchor)
  add_to_dreps = over add_drep_to

  unfoldable pub remove_from_dreps :
      List (StakeCredential × Pointer)
      → Map StakeCredential (DRepRow Pointer Anchor)
      → Map StakeCredential (DRepRow Pointer Anchor)
  remove_from_dreps = over λ (x : StakeCredential × Pointer) dreps.
      modify Q.credential_order (λ row. record row { previous_deregistration = some x.1 }) x.0 dreps

  unfoldable pub add_pool_to : PoolParams × (Pointer × ℕ) → Map PoolId PoolRow → Map PoolId PoolRow
  add_pool_to x pools = elim (get Q.pool_id_order (pool_id x.0) pools) [
    | none ↦ insert Q.pool_id_order (pool_id x.0) (new_pool_row x.1.0 x.0) pools
    | some row ↦ modify Q.pool_id_order (scheduled (some x.0, x.1.1)) (pool_id x.0) pools
  ]

  unfoldable pub add_to_pools :
      List (PoolParams × (Pointer × ℕ)) → Map PoolId PoolRow → Map PoolId PoolRow
  add_to_pools = over add_pool_to

  unfoldable pub remove_from_pools : List (PoolId × ℕ) → Map PoolId PoolRow → Map PoolId PoolRow
  remove_from_pools =
      over λ (x : PoolId × ℕ) pools. modify Q.pool_id_order (scheduled (none, x.1)) x.0 pools

  unfoldable pub add_to_proposals :
      List (ProposalId × Proposal) → Map ProposalId Proposal → Map ProposalId Proposal
  add_to_proposals =
      over λ (x : ProposalId × Proposal) proposals. insert Q.proposal_id_order x.0 x.1 proposals

  -- A member that is not known needs a term.
  unfoldable pub member_row : Resettable ℕ → Option CcMember → Option CcMember
  member_row valid_until (some row) = some row
  member_row (set epoch) none = some (record { hot_credential = none; valid_until = some epoch })
  member_row reset none = none
  member_row unchanged none = none

  unfoldable pub add_to_members :
      List (StakeCredential × (Resettable StakeCredential × Resettable ℕ))
      → Map StakeCredential CcMember
      → Map StakeCredential CcMember
  add_to_members =
      over λ (x : StakeCredential × (Resettable StakeCredential × Resettable ℕ)) members.
        elim (member_row x.1.1 (get Q.credential_order x.0 members)) [
          | none ↦ members
          | some row ↦
              insert Q.credential_order x.0
                (record row { hot_credential = (set_or_reset x.1.0 row.hot_credential).0 }) members
        ]

  unfoldable pub remove_from_members :
      List StakeCredential → Map StakeCredential CcMember → Map StakeCredential CcMember
  remove_from_members = over λ credential members. remove Q.credential_order credential members

  unfoldable pub add_to_utxos : List (Input × Output) → Map Input Output → Map Input Output
  add_to_utxos = over λ (x : Input × Output) utxos. insert Q.input_order x.0 x.1 utxos

  unfoldable pub remove_from_utxos : List Input → Map Input Output → Map Input Output
  remove_from_utxos = over λ input utxos. remove Q.input_order input utxos

  unfoldable pub voting_credential : Voter → Option StakeCredential
  voting_credential (drep_key hash) = some (addr_keyhash hash)
  voting_credential (drep_script hash) = some (script_hash hash)
  voting_credential (committee_key hash) = none
  voting_credential (committee_script hash) = none
  voting_credential (stake_pool_key hash) = none

  -- A set is a map of its elements to nothing.
  abbrev pub with_voter :
      Option StakeCredential → Map StakeCredential (Unit {0}) → Map StakeCredential (Unit {0})
  with_voter none voting_dreps = voting_dreps
  with_voter (some credential) voting_dreps = insert Q.credential_order credential tt voting_dreps

  unfoldable pub add_vote_to :
      Ballot × Vote
      → Map StakeCredential (Unit {0}) × Map Ballot Vote
      → Map StakeCredential (Unit {0}) × Map Ballot Vote
  add_vote_to x (voting_dreps, votes) =
      (with_voter (voting_credential (voter x.0)) voting_dreps, insert Q.ballot_order x.0 x.1 votes)

  -- The dreps that have voted, and the votes.
  unfoldable pub add_to_votes :
      List (Ballot × Vote) → Map Ballot Vote → Map StakeCredential (Unit {0}) × Map Ballot Vote
  add_to_votes rows votes = over add_vote_to rows ([], votes)
