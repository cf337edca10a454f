-- ===== src/InMemory.antt =====
-- The store in memory, rust/patches/amaru-stores/src/in_memory/mod.rs: its maps and what is read.
pub mod Columns
pub mod Context
pub mod Agreement
use amaru_wear.Prelude.{
  ℕ, ◌≡◌, Bool, Option, none, some, List, [], ◌∷◌, ltb, Result, ok, err, panic, Exec, lift, pure,
}
use amaru_wear.Text.{Text, codes}
use amaru_wear.Map.{Ordered, Map, get}
use amaru_wear.Ledger.{
  LedgerKernel, LedgerError, internal, StakeCredential, Account, DRepRow, CcMember,
}
use amaru_wear.Ledger.Governance.{GovernanceKernel}

-- The orders of the key types and the values of a new store, from the crates `amaru_kernel` and
-- `amaru_ledger`.
pub record MemoryKernel (K : LedgerKernel) (G : GovernanceKernel K) : Type 0 where
  pub input_order : Ordered K.Input
  pub credential_order : Ordered StakeCredential
  pub pool_id_order : Ordered K.PoolId
  pub proposal_id_order : Ordered K.ProposalId
  pub ballot_order : Ordered K.Ballot
  pub origin : G.Point
  pub no_confidence : G.CommitteeStatus
  pub no_roots : G.ProposalsRoots

-- The order of `Slot`, a number.
abbrev pub slot_order : Ordered ℕ
slot_order = record { before = ltb }

module _ (K : LedgerKernel) (G : GovernanceKernel K) where
  open K use {
    Pool, Pointer, Anchor, PoolId, PoolRow, SlotValue, ProposalId, Proposal, Input, Output, Ballot,
    Vote, Pots, Progress,
  }
  open G use {Point, ProtocolParameters, CommitteeStatus, Constitution, ProposalsRoots, EraHistory}

  pub record MemoryStore : Type 0 where
    pub tip : Option Point
    pub epoch_progress : Option Progress
    pub utxos : Map Input Output
    pub accounts : Map StakeCredential (Account Pool Pointer)
    pub pools : Map PoolId PoolRow
    pub pots : Pots
    pub slots : Map ℕ SlotValue
    pub dreps : Map StakeCredential (DRepRow Pointer Anchor)
    pub proposals : Map ProposalId Proposal
    pub cc_members : Map StakeCredential CcMember
    pub votes : Map Ballot Vote
    pub protocol_parameters : ProtocolParameters
    pub constitutional_committee : CommitteeStatus
    pub era_history : EraHistory

  abbrev pub MemoryExec : Type 0 → Type 0
  MemoryExec A = Exec MemoryStore (LedgerError Text) A

  module _ (Q : MemoryKernel K G) where
    unfoldable pub new_store : EraHistory → ProtocolParameters → MemoryStore
    new_store era_history protocol_parameters = record {
      tip = some Q.origin;
      epoch_progress = none;
      utxos = [];
      accounts = [];
      pools = [];
      pots = K.default_pots;
      slots = [];
      dreps = [];
      proposals = [];
      cc_members = [];
      votes = [];
      protocol_parameters = protocol_parameters;
      constitutional_committee = Q.no_confidence;
      era_history = era_history;
    }

    unfoldable pub read_tip : MemoryExec Point
    read_tip s = elim s.tip [
      | none ↦ (err (internal (codes "tip not yet set")), s)
      | some point ↦ (ok point, s)
    ]

    unfoldable pub read_protocol_parameters : MemoryExec ProtocolParameters
    read_protocol_parameters s = (ok s.protocol_parameters, s)

    unfoldable pub read_proposals_roots : MemoryExec ProposalsRoots
    read_proposals_roots = pure Q.no_roots

    unfoldable pub read_constitutional_committee : MemoryExec CommitteeStatus
    read_constitutional_committee s = (ok s.constitutional_committee, s)

    -- `unimplemented!`
    unfoldable pub read_constitution : MemoryExec Constitution
    read_constitution = lift panic

    unfoldable pub read_governance_activity : MemoryExec ℕ
    read_governance_activity = pure 0

    unfoldable pub read_account : StakeCredential → MemoryExec (Option (Account Pool Pointer))
    read_account credential s = (ok (get Q.credential_order credential s.accounts), s)

    unfoldable pub read_pool : PoolId → MemoryExec (Option PoolRow)
    read_pool pool s = (ok (get Q.pool_id_order pool s.pools), s)

    unfoldable pub read_utxo : Input → MemoryExec (Option Output)
    read_utxo input s = (ok (get Q.input_order input s.utxos), s)

    unfoldable pub read_pots : MemoryExec Pots
    read_pots s = (ok s.pots, s)

    unfoldable pub list_utxos : MemoryExec (List (Input × Output))
    list_utxos s = (ok s.utxos, s)

    unfoldable pub list_block_issuers : MemoryExec (List (ℕ × SlotValue))
    list_block_issuers s = (ok s.slots, s)

    unfoldable pub list_pools : MemoryExec (List (PoolId × PoolRow))
    list_pools s = (ok s.pools, s)

    unfoldable pub list_accounts : MemoryExec (List (StakeCredential × Account Pool Pointer))
    list_accounts s = (ok s.accounts, s)

    unfoldable pub list_dreps : MemoryExec (List (StakeCredential × DRepRow Pointer Anchor))
    list_dreps s = (ok s.dreps, s)

    unfoldable pub list_proposals : MemoryExec (List (ProposalId × Proposal))
    list_proposals s = (ok s.proposals, s)

    unfoldable pub list_cc_members : MemoryExec (List (StakeCredential × CcMember))
    list_cc_members s = (ok s.cc_members, s)

    -- `std::iter::empty()`, whatever the votes are.
    unfoldable pub list_votes : MemoryExec (List (Ballot × Vote))
    list_votes = pure []
