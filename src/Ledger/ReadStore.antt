-- ===== src/Ledger/ReadStore.antt =====
-- The iterators and the lending methods of the ledger store, one for each column:
-- `impl_ReadStore_body` and the `with_` methods of rust/patches/amaru-stores/src/rocksdb/mod.rs.
use amaru_wear.Prelude.{
  ℕ, ◌≡◌, subst, ◌∙◌, Option, none, some, List, length, ok, ◌>>=◌, ◌>>◌, pure, then_ok,
}
use amaru_wear.Bytes.{Bytes}
use amaru_wear.RocksDb.{RocksDb, IsLawful, IsReliable}
use amaru_wear.Ledger.{
  Codec, IsCodec, LedgerKernel, StakeCredential, DRep, Account, DRepRow, CcMember, LedgerExec,
  utxo_prefix, slots_prefix, pools_prefix, accounts_prefix, dreps_prefix, proposals_prefix,
  cc_members_prefix, votes_prefix,
}
use amaru_wear.Ledger.Column.{Rows, Holds}
use amaru_wear.Ledger.Column.Strays.{IsColumn, IsTidy, IsColumn-IsTidy}
use amaru_wear.Ledger.Delegations.{prefix_len, add_delegations}
use amaru_wear.Ledger.Entries.{get_pots, put_pots}
use amaru_wear.Ledger.Iteration.{
  Visit, visited, IterBorrow, IsIterBorrow, iter, with_prefix_iterator,
}
use amaru_wear.Ledger.Iteration.Rows.{row_of, IsAscending, iter_lem}
use amaru_wear.Ledger.Iteration.Visits.{with_prefix_iterator_lem}

module _ (R : RocksDb) (K : LedgerKernel) where
  open K use {
    Pool, Pointer, Anchor, PoolId, PoolRow, SlotValue, ProposalId, Proposal, Input, Output, Ballot,
    Vote, Pots, credential_codec, account_codec, drep_codec, cc_member_codec, pool_id_codec,
    pool_codec, slot_codec, slot_value_codec, proposal_id_codec, proposal_codec, input_codec,
    output_codec, ballot_codec, vote_codec,
  }

  unfoldable pub iter_utxos : LedgerExec R (List (Input × Output))
  iter_utxos = iter R input_codec output_codec utxo_prefix

  unfoldable pub iter_accounts : LedgerExec R (List (StakeCredential × Account Pool Pointer))
  iter_accounts = iter R credential_codec account_codec accounts_prefix

  unfoldable pub iter_block_issuers : LedgerExec R (List (ℕ × SlotValue))
  iter_block_issuers = iter R slot_codec slot_value_codec slots_prefix

  unfoldable pub iter_pools : LedgerExec R (List (PoolId × PoolRow))
  iter_pools = iter R pool_id_codec pool_codec pools_prefix

  unfoldable pub iter_dreps : LedgerExec R (List (StakeCredential × DRepRow Pointer Anchor))
  iter_dreps = iter R credential_codec drep_codec dreps_prefix

  unfoldable pub iter_proposals : LedgerExec R (List (ProposalId × Proposal))
  iter_proposals = iter R proposal_id_codec proposal_codec proposals_prefix

  unfoldable pub iter_cc_members : LedgerExec R (List (StakeCredential × CcMember))
  iter_cc_members = iter R credential_codec cc_member_codec cc_members_prefix

  unfoldable pub iter_votes : LedgerExec R (List (Ballot × Vote))
  iter_votes = iter R ballot_codec vote_codec votes_prefix

  unfoldable pub add_drep_delegations :
      List (StakeCredential × (DRep × Pointer)) → LedgerExec R (Unit {0})
  add_drep_delegations delegations = add_delegations R K delegations

  -- The pots are written where they were borrowed to change.
  unfoldable pub put_if_borrowed : Option Pots → LedgerExec R (Unit {0})
  put_if_borrowed none = pure tt
  put_if_borrowed (some pots) = put_pots R K pots

  unfoldable pub with_pots : (Pots → Option Pots) → LedgerExec R (Unit {0})
  with_pots visit = get_pots R K >>= λ pots. put_if_borrowed (visit pots)

  module _ (I : IterBorrow) where
    unfoldable pub with_utxo : Visit Input Output → LedgerExec R (Unit {0})
    with_utxo visit = with_prefix_iterator R input_codec output_codec I utxo_prefix visit

    unfoldable pub with_pools : Visit PoolId PoolRow → LedgerExec R (Unit {0})
    with_pools visit = with_prefix_iterator R pool_id_codec pool_codec I pools_prefix visit

    unfoldable pub with_accounts :
        Visit StakeCredential (Account Pool Pointer) → LedgerExec R (Unit {0})
    with_accounts visit =
        with_prefix_iterator R credential_codec account_codec I accounts_prefix visit

    unfoldable pub with_block_issuers : Visit ℕ SlotValue → LedgerExec R (Unit {0})
    with_block_issuers visit =
        with_prefix_iterator R slot_codec slot_value_codec I slots_prefix visit

    unfoldable pub with_dreps :
        Visit StakeCredential (DRepRow Pointer Anchor) → LedgerExec R (Unit {0})
    with_dreps visit = with_prefix_iterator R credential_codec drep_codec I dreps_prefix visit

    unfoldable pub with_proposals : Visit ProposalId Proposal → LedgerExec R (Unit {0})
    with_proposals visit =
        with_prefix_iterator R proposal_id_codec proposal_codec I proposals_prefix visit

    unfoldable pub with_cc_members : Visit StakeCredential CcMember → LedgerExec R (Unit {0})
    with_cc_members visit =
        with_prefix_iterator R credential_codec cc_member_codec I cc_members_prefix visit

module _ (R : RocksDb) {A B : Type 0} (CA : Codec A) (CB : Codec B) (prefix : Bytes)
    (I : IterBorrow) (borrow : IsIterBorrow I) (sound : IsReliable R) (L : IsLawful R)
    (NA : IsCodec CA) (NB : IsCodec CB) (width : length prefix ≡ prefix_len) where
  -- After the rows of a column were lent out, the iterator yields what the visits have left, each
  -- row once, in the order of the keys' bytes.
  pub iter-with_prefix_iterator :
      (visit : Visit A B) (m : Rows R CA CB prefix) (d : R.Db)
      → Holds R CA CB prefix m d
      → IsColumn R CA CB prefix d
      → (rows : List (A × B)) × (d' : R.Db) × ((with_prefix_iterator R CA CB I prefix visit
              >> iter R CA CB prefix)
            d
          ≡ (ok rows, d'))
        × IsAscending R CA CB prefix rows
        × ((a : A) → row_of R CA CB prefix a rows ≡ visited visit a (m a))
  iter-with_prefix_iterator visit m d h column =
      let ((d₁, done, h₁, frame), tidy) =
        with_prefix_iterator_lem R CA CB prefix I borrow sound L NA NB width visit m d h column in
      let column₁ : IsColumn R CA CB prefix d₁ =
        IsColumn-IsTidy R CA CB prefix d d₁ column
          (subst (λ z. IsTidy R CA CB prefix d z.1) done tidy) in
      let (rows, yields, ascending, same_rows) =
        iter_lem R CA CB prefix NA NB width sound L _ d₁ h₁ column₁ in
      (rows, d₁, then_ok _ (iter R CA CB prefix) d done ∙ yields, ascending, same_rows)
