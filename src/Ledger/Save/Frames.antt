-- ===== src/Ledger/Save/Frames.antt =====
-- A change of one column as a change of the maps.
pub mod Governance
use amaru_wear.Prelude.{refl, subst}
use amaru_wear.Bytes.{starts_with}
use amaru_wear.RocksDb.{RocksDb}
use amaru_wear.Ledger.{
  LedgerKernel, LedgerExec, utxo_prefix, pools_prefix, accounts_prefix, dreps_prefix,
  cc_members_prefix, proposals_prefix, votes_prefix, slots_prefix, as_key,
}
use amaru_wear.Ledger.Column.{Makes}
use amaru_wear.Ledger.Column.Strays.{IsColumn, IsColumn-same, IsColumn-IsTidy}
use amaru_wear.Ledger.Accounts.Laws.{Accounts, HoldsAccounts}
use amaru_wear.Ledger.DReps.Laws.{DReps, HoldsDReps}
use amaru_wear.Ledger.DReps.Loops.{IsTidyDReps}
use amaru_wear.Ledger.Pools.{Pools, HoldsPools}
use amaru_wear.Ledger.Entries.Laws.{Outputs, HoldsOutputs, Proposals, HoldsProposals}
use amaru_wear.Ledger.Entries.Votes.{Votes, HoldsVotes}
use amaru_wear.Ledger.Governance.{GovernanceKernel}
use amaru_wear.Ledger.Governance.Committee.{Members, HoldsMembers}
use amaru_wear.Ledger.Save.View.{stays, not_a_drep, Slots, HoldsSlots, View, Refines}

module _ (R : RocksDb) (K : LedgerKernel) (G : GovernanceKernel K) where
  open R use {Db}
  open K use {
    credential_codec, account_codec, drep_codec, cc_member_codec, pool_id_codec, pool_codec,
    slot_codec, slot_value_codec, proposal_id_codec, proposal_codec, input_codec, output_codec,
    ballot_codec, vote_codec,
  }

  pub Refines-outputs :
      {X : Type 0} (action : LedgerExec R X) (v : View R K G) (x : X) (m : Outputs R K)
      → ((d : Db)
          → HoldsOutputs R K v.outputs d
          → Makes R input_codec output_codec utxo_prefix action d x m)
      → Refines R K G action v x (record v { outputs = m })
  unfolding as_key starts_with
  Refines-outputs action v x m made d h =
      let (d', done, now, frame) = made d h.outputs in
      (
        d',
        done,
        record {
          outputs = now;
          pools = stays R h.pools (λ a. frame _ refl);
          accounts = stays R h.accounts (λ a. frame _ refl);
          dreps = stays R h.dreps (λ a. frame _ refl);
          members = stays R h.members (λ a. frame _ refl);
          proposals = stays R h.proposals (λ a. frame _ refl);
          votes = stays R h.votes (λ a. frame _ refl);
          slots = stays R h.slots (λ a. frame _ refl);
          drep_keys =
              IsColumn-same R credential_codec drep_codec dreps_prefix d d'
                (λ j under. frame j (not_a_drep utxo_prefix j refl under)) h.drep_keys;
        },
        λ j o. frame j o.outputs,
      )

  pub Refines-pools :
      {X : Type 0} (action : LedgerExec R X) (v : View R K G) (x : X) (m : Pools R K)
      → ((d : Db)
          → HoldsPools R K v.pools d
          → Makes R pool_id_codec pool_codec pools_prefix action d x m)
      → Refines R K G action v x (record v { pools = m })
  unfolding as_key starts_with
  Refines-pools action v x m made d h =
      let (d', done, now, frame) = made d h.pools in
      (
        d',
        done,
        record {
          outputs = stays R h.outputs (λ a. frame _ refl);
          pools = now;
          accounts = stays R h.accounts (λ a. frame _ refl);
          dreps = stays R h.dreps (λ a. frame _ refl);
          members = stays R h.members (λ a. frame _ refl);
          proposals = stays R h.proposals (λ a. frame _ refl);
          votes = stays R h.votes (λ a. frame _ refl);
          slots = stays R h.slots (λ a. frame _ refl);
          drep_keys =
              IsColumn-same R credential_codec drep_codec dreps_prefix d d'
                (λ j under. frame j (not_a_drep pools_prefix j refl under)) h.drep_keys;
        },
        λ j o. frame j o.pools,
      )

  pub Refines-accounts :
      {X : Type 0} (action : LedgerExec R X) (v : View R K G) (x : X) (m : Accounts R K)
      → ((d : Db)
          → HoldsAccounts R K v.accounts d
          → Makes R credential_codec account_codec accounts_prefix action d x m)
      → Refines R K G action v x (record v { accounts = m })
  unfolding as_key starts_with
  Refines-accounts action v x m made d h =
      let (d', done, now, frame) = made d h.accounts in
      (
        d',
        done,
        record {
          outputs = stays R h.outputs (λ a. frame _ refl);
          pools = stays R h.pools (λ a. frame _ refl);
          accounts = now;
          dreps = stays R h.dreps (λ a. frame _ refl);
          members = stays R h.members (λ a. frame _ refl);
          proposals = stays R h.proposals (λ a. frame _ refl);
          votes = stays R h.votes (λ a. frame _ refl);
          slots = stays R h.slots (λ a. frame _ refl);
          drep_keys =
              IsColumn-same R credential_codec drep_codec dreps_prefix d d'
                (λ j under. frame j (not_a_drep accounts_prefix j refl under)) h.drep_keys;
        },
        λ j o. frame j o.accounts,
      )

  pub Refines-dreps :
      {X : Type 0} (action : LedgerExec R X) (v : View R K G) (x : X) (m : DReps R K)
      → ((d : Db)
          → HoldsDReps R K v.dreps d
          → IsColumn R credential_codec drep_codec dreps_prefix d
          → Makes R credential_codec drep_codec dreps_prefix action d x m
            × IsTidyDReps R K d (action d).1)
      → Refines R K G action v x (record v { dreps = m })
  unfolding as_key starts_with
  Refines-dreps action v x m made d h =
      let ((d', done, now, frame), tidy) = made d h.dreps h.drep_keys in
      let tidy' : IsTidyDReps R K d d' = subst (λ z. IsTidyDReps R K d z.1) done tidy in
      (
        d',
        done,
        record {
          outputs = stays R h.outputs (λ a. frame _ refl);
          pools = stays R h.pools (λ a. frame _ refl);
          accounts = stays R h.accounts (λ a. frame _ refl);
          dreps = now;
          members = stays R h.members (λ a. frame _ refl);
          proposals = stays R h.proposals (λ a. frame _ refl);
          votes = stays R h.votes (λ a. frame _ refl);
          slots = stays R h.slots (λ a. frame _ refl);
          drep_keys =
              IsColumn-IsTidy R credential_codec drep_codec dreps_prefix d d' h.drep_keys tidy';
        },
        λ j o. frame j o.dreps,
      )
