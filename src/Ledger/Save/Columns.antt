-- ===== src/Ledger/Save/Columns.antt =====
-- What `save` adds to the columns and removes from them, as changes of the maps.
use amaru_wear.Prelude.{ℕ, ◌≡◌, false, none, some, List, [], ◌∷◌, length, if◌then◌else◌}
use amaru_wear.RocksDb.{RocksDb, IsLawful, IsReliable}
use amaru_wear.Ledger.{
  LedgerKernel, IsLedgerKernel, StakeCredential, DRep, Resettable, utxo_prefix, cc_members_prefix,
  dreps_prefix, proposals_prefix,
}
use amaru_wear.Ledger.Column.{Makes, kept, altered, steps, for_each-Makes}
use amaru_wear.Ledger.Column.Loops.{listed, latest}
use amaru_wear.Ledger.Accounts.{add_accounts, reset_many, remove_accounts}
use amaru_wear.Ledger.Accounts.Laws.{
  is_listed, mapped, without_rewards, reset_many_lem, remove_accounts_lem,
}
use amaru_wear.Ledger.Accounts.Later.{MayRegister, accounts_added, add_accounts_later}
use amaru_wear.Ledger.DReps.{add_dreps, set_valid_until, remove_dreps}
use amaru_wear.Ledger.DReps.Laws.{DReps, with_valid_until, set_valid_until_lem}
use amaru_wear.Ledger.DReps.Loops.{
  dreps_added, dreps_removed, add_dreps_made, set_valid_until_tidy, remove_dreps_made,
}
use amaru_wear.Ledger.CcMembers.{
  or_unknown, changed_member, upsert_member, upsert_members, upsert_member_lem,
}
use amaru_wear.Ledger.Pools.{add_pools, remove_pools}
use amaru_wear.Ledger.Pools.Loops.{pools_added, pools_removed, add_pools_made, remove_pools_made}
use amaru_wear.Ledger.Entries.{add_proposals, add_outputs, remove_outputs, add_votes}
use amaru_wear.Ledger.Entries.Laws.{
  spent, produced, add_outputs-Makes, remove_outputs-Makes, add_proposals_lem,
}
use amaru_wear.Ledger.Entries.Votes.{voters, votes_added, add_votes_made}
use amaru_wear.Ledger.Governance.{GovernanceKernel}
use amaru_wear.Ledger.Governance.Committee.{Members, HoldsMembers}
use amaru_wear.Ledger.Save.{
  Additions, Removals, keep_delegations, renew, add_columns, remove_columns,
}
use amaru_wear.Ledger.Save.View.{View, Refines, Refines-then, Refines-bind, Refines-pure}
use amaru_wear.Ledger.Save.Frames.{Refines-outputs, Refines-pools, Refines-accounts, Refines-dreps}
use amaru_wear.Ledger.Save.Frames.Governance.{Refines-members, Refines-proposals, Refines-votes}

module _ (R : RocksDb) (K : LedgerKernel) (G : GovernanceKernel K) where
  open R use {Db}
  open K use {
    ProtocolVersion, up_to_version_9, credential_codec, drep_codec, cc_member_codec,
    proposal_id_codec, proposal_codec, input_codec, output_codec,
  }

  -- The committee after `upsert` of a list.
  abbrev pub members_changed :
      List (StakeCredential × (Resettable StakeCredential × Resettable ℕ))
      → Members R K G
      → Members R K G
  members_changed =
      steps R credential_codec cc_member_codec cc_members_prefix
        (λ (x : StakeCredential × (Resettable StakeCredential × Resettable ℕ)) m.
          altered R credential_codec cc_member_codec cc_members_prefix
            (λ o. some (changed_member R K x.1.0 x.1.1 (or_unknown R K o))) x.0 m)

  -- The dreps whose validity is set because they vote.
  abbrev pub renewed : ℕ → List StakeCredential → DReps R K → DReps R K
  renewed validity dreps m = λ c.
      if listed R credential_codec drep_codec dreps_prefix c dreps
      then with_valid_until R K validity (m c)
      else m c

  abbrev pub added : ℕ → Additions K → View R K G → View R K G
  added validity add v = record v {
    outputs =
        λ c. kept R input_codec output_codec utxo_prefix (produced R K c add.utxo) (v.outputs c);
    pools = pools_added R K add.pools v.pools;
    accounts = accounts_added R K add.accounts v.accounts;
    dreps = renewed validity (voters R K [] add.votes) (dreps_added R K validity add.dreps v.dreps);
    members = members_changed add.cc_members v.members;
    proposals = λ c.
        kept R proposal_id_codec proposal_codec proposals_prefix
          (latest R proposal_id_codec proposal_codec proposals_prefix c add.proposals)
          (v.proposals c);
    votes = votes_added R K add.votes v.votes;
  }

  -- The accounts' rewards are withdrawn before accounts are removed.
  abbrev pub removed : List StakeCredential → Removals K → View R K G → View R K G
  removed withdrawals remove v = record v {
    outputs = λ c. if spent R K c remove.utxo then none else v.outputs c;
    pools = pools_removed R K remove.pools v.pools;
    accounts = λ c.
        if is_listed R K c remove.accounts
        then none
        else if is_listed R K c withdrawals
        then mapped R K (without_rewards R K) (v.accounts c)
        else v.accounts c;
    dreps = dreps_removed R K remove.dreps v.dreps;
  }

  module _ (sound : IsReliable R) (L : IsLawful R) (N : IsLedgerKernel K)
      (version : ProtocolVersion) (later : up_to_version_9 version ≡ false) where
    upsert_members_made :
        (rows : List (StakeCredential × (Resettable StakeCredential × Resettable ℕ)))
        (m : Members R K G) (d : Db)
        → HoldsMembers R K G m d
        → Makes R credential_codec cc_member_codec cc_members_prefix
            (upsert_members R K rows)
            d
            tt
            (members_changed rows m)
    unfolding upsert_members
    upsert_members_made rows m d h =
        for_each-Makes R credential_codec cc_member_codec cc_members_prefix _ (upsert_member R K)
          (λ x m d h. upsert_member_lem R K sound L N x.0 x.1.0 x.1.1 m d h) rows m d h

    renew-Refines :
        (validity : ℕ) (dreps : List StakeCredential) (v : View R K G)
        → Refines R K G
            (renew R K G validity dreps)
            v
            tt
            (record v { dreps = renewed validity dreps v.dreps })
    unfolding renew listed
    renew-Refines validity [] v = Refines-pure R K G tt v
    renew-Refines validity (drep ∷ dreps) v =
        Refines-dreps R K G (set_valid_until R K (drep ∷ dreps) validity) v tt _ λ d h column. (
          set_valid_until_lem R K sound L N (drep ∷ dreps) validity v.dreps d h,
          set_valid_until_tidy R K sound L N (drep ∷ dreps) validity v.dreps d h,
        )

    keep_delegations-Refines :
        (previous : List (StakeCredential × (DRep × K.Pointer))) (v : View R K G)
        → Refines R K G (keep_delegations R K G version previous) v tt v
    unfolding keep_delegations
    keep_delegations-Refines previous v = rw later (Refines-pure R K G tt v)

    pub add_columns-Refines :
        (validity : ℕ) (add : Additions K) (v : View R K G)
        → MayRegister R K v.accounts add.accounts
        → Refines R K G
            (add_columns R K G version validity add)
            v
            (length add.proposals)
            (added validity add v)
    unfolding add_columns
    add_columns-Refines validity add v may =
        Refines-then R K G (add_outputs R K add.utxo) _
          (Refines-outputs R K G (add_outputs R K add.utxo) v tt _
            (add_outputs-Makes R K sound L N add.utxo v.outputs))
          (Refines-then R K G (add_pools R K add.pools) _
            (Refines-pools R K G (add_pools R K add.pools) _ tt _
              (add_pools_made R K sound L N add.pools v.pools))
            (Refines-then R K G (add_dreps R K validity add.dreps) _
              (Refines-dreps R K G (add_dreps R K validity add.dreps) _ tt _
                (λ d h column. add_dreps_made R K sound L N validity add.dreps v.dreps d h))
              (Refines-then R K G (upsert_members R K add.cc_members) _
                (Refines-members R K G (upsert_members R K add.cc_members) _ tt _
                  (upsert_members_made add.cc_members v.members))
                (Refines-bind R K G (add_accounts R K version add.accounts) _
                  (Refines-accounts R K G (add_accounts R K version add.accounts) _ [] _ (λ d h.
                    add_accounts_later R K sound L N version later add.accounts v.accounts d h may))
                  (Refines-then R K G (keep_delegations R K G version []) _
                    (keep_delegations-Refines [] _)
                    (Refines-bind R K G (add_proposals R K add.proposals) _
                      (Refines-proposals R K G (add_proposals R K add.proposals) _
                        (length add.proposals) _
                        (add_proposals_lem R K sound L N add.proposals v.proposals))
                      (Refines-bind R K G (add_votes R K add.votes) _
                        (Refines-votes R K G (add_votes R K add.votes) _ (voters R K [] add.votes) _
                          (add_votes_made R K sound L N add.votes v.votes))
                        (Refines-then R K G (renew R K G validity (voters R K [] add.votes)) _
                          (renew-Refines validity (voters R K [] add.votes) _)
                          (Refines-pure R K G (length add.proposals) _)))))))))

    pub remove_columns-Refines :
        (withdrawals : List StakeCredential) (remove : Removals K) (v : View R K G)
        → Refines R K G
            (remove_columns R K G version withdrawals remove)
            v
            tt
            (removed withdrawals remove v)
    unfolding remove_columns
    remove_columns-Refines withdrawals remove v =
        Refines-then R K G (reset_many R K withdrawals) _
          (Refines-accounts R K G (reset_many R K withdrawals) v tt _
            (reset_many_lem R K sound L N withdrawals v.accounts))
          (Refines-then R K G (remove_outputs R K remove.utxo) _
            (Refines-outputs R K G (remove_outputs R K remove.utxo) _ tt _
              (remove_outputs-Makes R K sound L N remove.utxo v.outputs))
            (Refines-then R K G (remove_pools R K remove.pools) _
              (Refines-pools R K G (remove_pools R K remove.pools) _ tt _
                (remove_pools_made R K sound L N remove.pools v.pools))
              (Refines-then R K G (remove_accounts R K remove.accounts) _
                (Refines-accounts R K G (remove_accounts R K remove.accounts) _ tt _
                  (remove_accounts_lem R K sound L N remove.accounts _))
                (Refines-dreps R K G (remove_dreps R K version remove.dreps) _ tt _ (λ d h column.
                  remove_dreps_made R K sound L N version later remove.dreps v.dreps d h)))))
