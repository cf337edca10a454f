-- ===== src/InMemory/Agreement/Columns.antt =====
-- The loops of rust/patches/amaru-stores/src/in_memory/ledger/columns beside those of the ledger
-- store's columns.
use amaru_wear.Prelude.{
  ℕ, ◌≡◌, refl, subst, ◌∙◌, Option, none, some, List, [], ◌∷◌, Option-cases, inl, inr,
  if◌then◌else◌,
}
use amaru_wear.RocksDb.{RocksDb}
use amaru_wear.Map.{IsOrdered, Map, insert, modify}
use amaru_wear.Map.Laws.{modified}
use amaru_wear.Ledger.{
  StakeCredential, LedgerKernel, IsLedgerKernel, pools_prefix, utxo_prefix, proposals_prefix,
  votes_prefix,
}
use amaru_wear.Ledger.Column.{kept, updated}
use amaru_wear.Ledger.Column.Loops.{latest, steps-removed, steps-added}
use amaru_wear.Ledger.Pools.{Pools, with_pool, pool_row}
use amaru_wear.Ledger.Pools.Loops.{retired, pools_added, pools_removed}
use amaru_wear.Ledger.Entries.Laws.{Outputs, Proposals, spent, produced}
use amaru_wear.Ledger.Entries.Votes.{Votes, votes_added}
use amaru_wear.Ledger.Governance.{GovernanceKernel}
use amaru_wear.InMemory.{MemoryKernel}
use amaru_wear.InMemory.Columns.{
  over, add_pool_to, add_to_pools, remove_from_pools, add_to_proposals, add_to_utxos,
  remove_from_utxos, add_vote_to, add_to_votes,
}
use amaru_wear.InMemory.Agreement.{
  Agrees, insert-Agrees, remove-Agrees, modify-Agrees, over-Agrees, Agrees-same,
}

-- The keys of the maps are ordered.
pub record IsMemoryKernel {K : LedgerKernel} {G : GovernanceKernel K} (Q : MemoryKernel K G)
    : Type 0 where
  pub inputs : IsOrdered Q.input_order
  pub credentials : IsOrdered Q.credential_order
  pub pool_ids : IsOrdered Q.pool_id_order
  pub proposal_ids : IsOrdered Q.proposal_id_order
  pub ballots : IsOrdered Q.ballot_order

module _ (R : RocksDb) (K : LedgerKernel) (G : GovernanceKernel K) (Q : MemoryKernel K G)
    (N : IsLedgerKernel K) (M : IsMemoryKernel Q) where
  open K use {
    Pointer, PoolId, PoolParams, PoolRow, ProposalId, Proposal, Input, Output, Ballot, Vote,
    pool_id, new_pool_row, scheduled, pool_id_codec, pool_codec, proposal_id_codec, proposal_codec,
    input_codec, output_codec, ballot_codec, vote_codec,
  }

  pub add_to_utxos-Agrees :
      (rows : List (Input × Output)) (l : Map Input Output) (m : Outputs R K)
      → Agrees Q.input_order l m
      → Agrees Q.input_order
          (add_to_utxos K G Q rows l)
          (λ c. kept R input_codec output_codec utxo_prefix (produced R K c rows) (m c))
  unfolding add_to_utxos
  add_to_utxos-Agrees rows l m h =
      Agrees-same Q.input_order M.inputs _ _ _
        (steps-added R input_codec output_codec utxo_prefix rows m)
        (over-Agrees Q.input_order M.inputs R input_codec N.inputs output_codec utxo_prefix _ _
          (λ x l m h.
            insert-Agrees Q.input_order M.inputs R input_codec N.inputs output_codec utxo_prefix x.0
              x.1 l m h)
          rows l m h)

  pub remove_from_utxos-Agrees :
      (rows : List Input) (l : Map Input Output) (m : Outputs R K)
      → Agrees Q.input_order l m
      → Agrees Q.input_order
          (remove_from_utxos K G Q rows l)
          (λ c. if spent R K c rows then none else m c)
  unfolding remove_from_utxos
  remove_from_utxos-Agrees rows l m h =
      Agrees-same Q.input_order M.inputs _ _ _
        (steps-removed R input_codec output_codec utxo_prefix rows m)
        (over-Agrees Q.input_order M.inputs R input_codec N.inputs output_codec utxo_prefix _ _
          (λ a l m h.
            remove-Agrees Q.input_order M.inputs R input_codec N.inputs output_codec utxo_prefix a l
              m h)
          rows l m h)

  pub add_to_proposals-Agrees :
      (rows : List (ProposalId × Proposal)) (l : Map ProposalId Proposal) (m : Proposals R K)
      → Agrees Q.proposal_id_order l m
      → Agrees Q.proposal_id_order (add_to_proposals K G Q rows l) (λ c.
        kept R proposal_id_codec proposal_codec proposals_prefix
          (latest R proposal_id_codec proposal_codec proposals_prefix c rows)
          (m c))
  unfolding add_to_proposals
  add_to_proposals-Agrees rows l m h =
      Agrees-same Q.proposal_id_order M.proposal_ids _ _ _
        (steps-added R proposal_id_codec proposal_codec proposals_prefix rows m)
        (over-Agrees Q.proposal_id_order M.proposal_ids R proposal_id_codec N.proposal_ids
          proposal_codec proposals_prefix _ _
          (λ x l m h.
            insert-Agrees Q.proposal_id_order M.proposal_ids R proposal_id_codec N.proposal_ids
              proposal_codec proposals_prefix x.0 x.1 l m h)
          rows l m h)

  -- The votes do not depend on the set of the voters.
  votes_over :
      (rows : List (Ballot × Vote)) (set : Map StakeCredential (Unit {0})) (l : Map Ballot Vote)
      → (over (add_vote_to K G Q) rows (set, l)).1
        ≡ over (λ (x : Ballot × Vote) l. insert Q.ballot_order x.0 x.1 l) rows l
  unfolding over add_vote_to
  votes_over [] set l = refl
  votes_over (x ∷ rows) set l = votes_over rows _ (insert Q.ballot_order x.0 x.1 l)

  pub add_to_votes-Agrees :
      (rows : List (Ballot × Vote)) (l : Map Ballot Vote) (m : Votes R K)
      → Agrees Q.ballot_order l m
      → Agrees Q.ballot_order (add_to_votes K G Q rows l).1 (votes_added R K rows m)
  unfolding add_to_votes
  add_to_votes-Agrees rows l m h = rw (votes_over rows [] l) (
      over-Agrees Q.ballot_order M.ballots R ballot_codec N.ballots vote_codec votes_prefix _ _
        (λ x l m h.
          insert-Agrees Q.ballot_order M.ballots R ballot_codec N.ballots vote_codec votes_prefix
            x.0 x.1 l m h)
        rows l m h)

  add_pool-Agrees :
      (x : PoolParams × (Pointer × ℕ)) (l : Map PoolId PoolRow) (m : Pools R K)
      → Agrees Q.pool_id_order l m
      → Agrees Q.pool_id_order
          (add_pool_to K G Q x l)
          (with_pool R K (pool_id x.0) (pool_row R K x.0 x.1.0 x.1.1 (m (pool_id x.0))) m)
  unfolding add_pool_to
  add_pool-Agrees x l m h =
      let p = pool_id x.0 in
      elim (Option-cases (m p)) [
        | inl e ↦
            rw (h.at_key p ∙ e, e, add_pool_to)
              (insert-Agrees Q.pool_id_order M.pool_ids R pool_id_codec N.pool_ids pool_codec
                pools_prefix p (new_pool_row x.1.0 x.0) l m h)
        | inr (row, e) ↦
            rw (h.at_key p ∙ e, e, add_pool_to)
              (subst
                (λ o.
                  Agrees Q.pool_id_order (modify Q.pool_id_order (scheduled (some x.0, x.1.1)) p l)
                    (updated R pool_id_codec pool_codec pools_prefix p
                      (modified Q.pool_id_order M.pool_ids (scheduled (some x.0, x.1.1)) o) m))
                e
                (modify-Agrees Q.pool_id_order M.pool_ids R pool_id_codec N.pool_ids pool_codec
                  pools_prefix (scheduled (some x.0, x.1.1)) p l m h))
      ]

  pub add_to_pools-Agrees :
      (rows : List (PoolParams × (Pointer × ℕ))) (l : Map PoolId PoolRow) (m : Pools R K)
      → Agrees Q.pool_id_order l m
      → Agrees Q.pool_id_order (add_to_pools K G Q rows l) (pools_added R K rows m)
  unfolding add_to_pools
  add_to_pools-Agrees rows l m h =
      over-Agrees Q.pool_id_order M.pool_ids R pool_id_codec N.pool_ids pool_codec pools_prefix _ _
        add_pool-Agrees rows l m h

  retired-modified :
      (epoch : ℕ) (o : Option PoolRow)
      → modified Q.pool_id_order M.pool_ids (scheduled (none, epoch)) o ≡ retired R K epoch o
  retired-modified epoch none = refl
  retired-modified epoch (some row) = refl

  pub remove_from_pools-Agrees :
      (rows : List (PoolId × ℕ)) (l : Map PoolId PoolRow) (m : Pools R K)
      → Agrees Q.pool_id_order l m
      → Agrees Q.pool_id_order (remove_from_pools K G Q rows l) (pools_removed R K rows m)
  unfolding remove_from_pools
  remove_from_pools-Agrees rows l m h =
      over-Agrees Q.pool_id_order M.pool_ids R pool_id_codec N.pool_ids pool_codec pools_prefix _ _
        (λ x l m h.
          subst
            (λ o.
              Agrees Q.pool_id_order (modify Q.pool_id_order (scheduled (none, x.1)) x.0 l)
                (updated R pool_id_codec pool_codec pools_prefix x.0 o m))
            (retired-modified x.1 (m x.0))
            (modify-Agrees Q.pool_id_order M.pool_ids R pool_id_codec N.pool_ids pool_codec
              pools_prefix (scheduled (none, x.1)) x.0 l m h))
        rows l m h
