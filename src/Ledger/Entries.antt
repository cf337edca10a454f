-- ===== src/Ledger/Entries.antt =====
-- Columns without changes in place: slots.rs, pots.rs, proposals.rs, utxo.rs and votes.rs of
-- rust/patches/amaru-stores/src/rocksdb/ledger/columns.
pub mod Laws
pub mod Votes
use amaru_wear.Prelude.{
  ℕ, ◌+◌, Option, none, some, List, [], ◌∷◌, Result, Exec, ◌>>=◌, ◌>>◌, pure, for_each,
}
use amaru_wear.Bytes.{Bytes}
use amaru_wear.RocksDb.{RocksDb, delete}
use amaru_wear.Ledger.{
  LedgerKernel, StakeCredential, addr_keyhash, script_hash, Voter, drep_key, drep_script,
  committee_key, committee_script, stake_pool_key, internal, LedgerExec, pots_prefix,
  proposals_prefix, slots_prefix, utxo_prefix, votes_prefix, as_key, get_row, put_row,
}

module _ (R : RocksDb) (K : LedgerKernel) where
  open K use {
    Pots, default_pots, pots_codec, SlotValue, slot_codec, slot_value_codec, ProposalId, Proposal,
    proposal_id_codec, proposal_codec, Input, Output, input_codec, output_codec, Ballot, Vote,
    voter, ballot_codec, vote_codec,
  }

  unfoldable pub get_slot : ℕ → LedgerExec R (Option SlotValue)
  get_slot slot = get_row R slot_value_codec (as_key slot_codec slots_prefix slot)

  unfoldable pub put_slot : ℕ → SlotValue → LedgerExec R (Unit {0})
  put_slot slot value = put_row R slot_value_codec (as_key slot_codec slots_prefix slot) value

  -- `unwrap_or_default()`
  unfoldable pub or_default : Option Pots → Pots
  or_default none = default_pots
  or_default (some pots) = pots

  unfoldable pub get_pots : LedgerExec R Pots
  get_pots = get_row R pots_codec pots_prefix >>= λ row. pure (or_default row)

  unfoldable pub put_pots : Pots → LedgerExec R (Unit {0})
  put_pots row = put_row R pots_codec pots_prefix row

  -- The loop of `proposals::add`, with the number of rows so far.
  unfoldable pub add_proposals_from : ℕ → List (ProposalId × Proposal) → LedgerExec R ℕ
  add_proposals_from n [] = pure n
  add_proposals_from n ((id, proposal) ∷ rows) =
      put_row R proposal_codec (as_key proposal_id_codec proposals_prefix id) proposal
      >> add_proposals_from (n + 1) rows

  unfoldable pub add_proposals : List (ProposalId × Proposal) → LedgerExec R ℕ
  add_proposals rows = add_proposals_from 0 rows

  unfoldable pub remove_proposals : List ProposalId → LedgerExec R (Unit {0})
  remove_proposals rows =
      for_each rows (λ id. delete R internal (as_key proposal_id_codec proposals_prefix id))

  unfoldable pub get_output : Input → LedgerExec R (Option Output)
  get_output input = get_row R output_codec (as_key input_codec utxo_prefix input)

  unfoldable pub add_outputs : List (Input × Output) → LedgerExec R (Unit {0})
  add_outputs rows =
      for_each rows
        (λ (x : Input × Output). put_row R output_codec (as_key input_codec utxo_prefix x.0) x.1)

  unfoldable pub remove_outputs : List Input → LedgerExec R (Unit {0})
  remove_outputs rows =
      for_each rows (λ input. delete R internal (as_key input_codec utxo_prefix input))

  -- The credential of a voter that is a drep.
  unfoldable pub voting_drep : Voter → Option StakeCredential
  voting_drep (drep_key hash) = some (addr_keyhash hash)
  voting_drep (drep_script hash) = some (script_hash hash)
  voting_drep (committee_key hash) = none
  voting_drep (committee_script hash) = none
  voting_drep (stake_pool_key hash) = none

  -- A set of credentials is the list of its elements.
  unfoldable pub insert_optional :
      Option StakeCredential → List StakeCredential → List StakeCredential
  insert_optional none dreps = dreps
  insert_optional (some drep) dreps = drep ∷ dreps

  -- The loop of `votes::add`, with the dreps so far.
  unfoldable pub add_votes_from :
      List StakeCredential → List (Ballot × Vote) → LedgerExec R (List StakeCredential)
  add_votes_from dreps [] = pure dreps
  add_votes_from dreps ((ballot, vote) ∷ rows) =
      put_row R vote_codec (as_key ballot_codec votes_prefix ballot) vote
      >> add_votes_from (insert_optional (voting_drep (voter ballot)) dreps) rows

  unfoldable pub add_votes : List (Ballot × Vote) → LedgerExec R (List StakeCredential)
  add_votes rows = add_votes_from [] rows
