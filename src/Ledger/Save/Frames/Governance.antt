-- ===== src/Ledger/Save/Frames/Governance.antt =====
-- The same for the columns of governance, and for the slots.
use amaru_wear.Prelude.{refl}
use amaru_wear.Bytes.{starts_with}
use amaru_wear.RocksDb.{RocksDb}
use amaru_wear.Ledger.{
  LedgerKernel, LedgerExec, dreps_prefix, cc_members_prefix, proposals_prefix, votes_prefix,
  slots_prefix, as_key,
}
use amaru_wear.Ledger.Column.{Makes}
use amaru_wear.Ledger.Column.Strays.{IsColumn-same}
use amaru_wear.Ledger.Entries.Laws.{Proposals, HoldsProposals}
use amaru_wear.Ledger.Entries.Votes.{Votes, HoldsVotes}
use amaru_wear.Ledger.Governance.{GovernanceKernel}
use amaru_wear.Ledger.Governance.Committee.{Members, HoldsMembers}
use amaru_wear.Ledger.Save.View.{stays, not_a_drep, Slots, HoldsSlots, View, Refines}

module _ (R : RocksDb) (K : LedgerKernel) (G : GovernanceKernel K) where
  open R use {Db}
  open K use {
    credential_codec, account_codec, drep_codec, cc_member_codec, pool_id_codec, pool_codec,
    slot_codec, slot_value_codec, proposal_id_codec, proposal_codec, input_codec, output_codec,
    ballot_codec, vote_codec,
  }

  pub Refines-members :
      {X : Type 0} (action : LedgerExec R X) (v : View R K G) (x : X) (m : Members R K G)
      → ((d : Db)
          → HoldsMembers R K G v.members d
          → Makes R credential_codec cc_member_codec cc_members_prefix action d x m)
      → Refines R K G action v x (record v { members = m })
  unfolding as_key starts_with
  Refines-members action v x m made d h =
      let (d', done, now, frame) = made d h.members in
      (
        d',
        done,
        record {
          outputs = stays R h.outputs (λ a. frame _ refl);
          pools = stays R h.pools (λ a. frame _ refl);
          accounts = stays R h.accounts (λ a. frame _ refl);
          dreps = stays R h.dreps (λ a. frame _ refl);
          members = now;
          proposals = stays R h.proposals (λ a. frame _ refl);
          votes = stays R h.votes (λ a. frame _ refl);
          slots = stays R h.slots (λ a. frame _ refl);
          drep_keys =
              IsColumn-same R credential_codec drep_codec dreps_prefix d d'
                (λ j under. frame j (not_a_drep cc_members_prefix j refl under)) h.drep_keys;
        },
        λ j o. frame j o.members,
      )

  pub Refines-proposals :
      {X : Type 0} (action : LedgerExec R X) (v : View R K G) (x : X) (m : Proposals R K)
      → ((d : Db)
          → HoldsProposals R K v.proposals d
          → Makes R proposal_id_codec proposal_codec proposals_prefix action d x m)
      → Refines R K G action v x (record v { proposals = m })
  unfolding as_key starts_with
  Refines-proposals action v x m made d h =
      let (d', done, now, frame) = made d h.proposals in
      (
        d',
        done,
        record {
          outputs = stays R h.outputs (λ a. frame _ refl);
          pools = stays R h.pools (λ a. frame _ refl);
          accounts = stays R h.accounts (λ a. frame _ refl);
          dreps = stays R h.dreps (λ a. frame _ refl);
          members = stays R h.members (λ a. frame _ refl);
          proposals = now;
          votes = stays R h.votes (λ a. frame _ refl);
          slots = stays R h.slots (λ a. frame _ refl);
          drep_keys =
              IsColumn-same R credential_codec drep_codec dreps_prefix d d'
                (λ j under. frame j (not_a_drep proposals_prefix j refl under)) h.drep_keys;
        },
        λ j o. frame j o.proposals,
      )

  pub Refines-votes :
      {X : Type 0} (action : LedgerExec R X) (v : View R K G) (x : X) (m : Votes R K)
      → ((d : Db)
          → HoldsVotes R K v.votes d
          → Makes R ballot_codec vote_codec votes_prefix action d x m)
      → Refines R K G action v x (record v { votes = m })
  unfolding as_key starts_with
  Refines-votes action v x m made d h =
      let (d', done, now, frame) = made d h.votes in
      (
        d',
        done,
        record {
          outputs = stays R h.outputs (λ a. frame _ refl);
          pools = stays R h.pools (λ a. frame _ refl);
          accounts = stays R h.accounts (λ a. frame _ refl);
          dreps = stays R h.dreps (λ a. frame _ refl);
          members = stays R h.members (λ a. frame _ refl);
          proposals = stays R h.proposals (λ a. frame _ refl);
          votes = now;
          slots = stays R h.slots (λ a. frame _ refl);
          drep_keys =
              IsColumn-same R credential_codec drep_codec dreps_prefix d d'
                (λ j under. frame j (not_a_drep votes_prefix j refl under)) h.drep_keys;
        },
        λ j o. frame j o.votes,
      )

  pub Refines-slots :
      {X : Type 0} (action : LedgerExec R X) (v : View R K G) (x : X) (m : Slots R K G)
      → ((d : Db)
          → HoldsSlots R K G v.slots d
          → Makes R slot_codec slot_value_codec slots_prefix action d x m)
      → Refines R K G action v x (record v { slots = m })
  unfolding as_key starts_with
  Refines-slots action v x m made d h =
      let (d', done, now, frame) = made d h.slots in
      (
        d',
        done,
        record {
          outputs = stays R h.outputs (λ a. frame _ refl);
          pools = stays R h.pools (λ a. frame _ refl);
          accounts = stays R h.accounts (λ a. frame _ refl);
          dreps = stays R h.dreps (λ a. frame _ refl);
          members = stays R h.members (λ a. frame _ refl);
          proposals = stays R h.proposals (λ a. frame _ refl);
          votes = stays R h.votes (λ a. frame _ refl);
          slots = now;
          drep_keys =
              IsColumn-same R credential_codec drep_codec dreps_prefix d d'
                (λ j under. frame j (not_a_drep slots_prefix j refl under)) h.drep_keys;
        },
        λ j o. frame j o.slots,
      )
