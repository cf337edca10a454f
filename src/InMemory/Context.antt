-- ===== src/InMemory/Context.antt =====
-- The store in memory, rust/patches/amaru-stores/src/in_memory/mod.rs: its transactions, which work
-- on the store itself, `save`, and what is not implemented.
use amaru_wear.Prelude.{
  ℕ, ◌+◌, ◌%◌, ◌^◌, Bool, true, false, Option, none, some, List, [], ◌∷◌, leb, panic, pure, raise,
  lift, ok, if◌then◌else◌,
}
use amaru_wear.Text.{codes}
use amaru_wear.Map.{Ordered, Map, get, insert, modify, collect}
use amaru_wear.Ledger.{LedgerKernel, StakeCredential, DRep, Account, DRepRow, CcMember, internal}
use amaru_wear.Ledger.Transactions.{same_optional}
use amaru_wear.Ledger.Iteration.{Visit, left}
use amaru_wear.Ledger.Governance.{GovernanceKernel}
use amaru_wear.Ledger.Save.{Additions, Removals, Delta}
use amaru_wear.InMemory.{MemoryKernel, slot_order, MemoryStore, MemoryExec, new_store}
use amaru_wear.InMemory.Columns.{
  add_to_accounts, reset_rewards, remove_from_accounts, add_to_dreps, remove_from_dreps,
  add_to_pools, remove_from_pools, add_to_proposals, add_to_members, remove_from_members,
  add_to_utxos, remove_from_utxos, add_to_votes,
}

-- The row that is left at a key, if any, before the others.
abbrev pub keep_left : {A B : Type 0} → A → Option B → List (A × B) → List (A × B)
keep_left k none rest = rest
keep_left k (some v) rest = (k, v) ∷ rest

-- Each entry is lent in its turn; the rows that are left, with their keys.
unfoldable pub lend : {A B : Type 0} → Visit A B → List (A × B) → List (A × B)
lend visit [] = []
lend visit ((k, v) ∷ l) = keep_left k (left v (visit k v)) (lend visit l)

unfoldable pub with_column : {A B : Type 0} → Ordered A → Visit A B → Map A B → Map A B
with_column O visit column = collect O (lend visit column)

-- `*new <= current`, for two points that have a slot.
unfoldable pub already_saved : Option ℕ → Option ℕ → Bool
already_saved (some new) (some current) = leb new current
already_saved (some new) none = false
already_saved none current = false

module _ (K : LedgerKernel) (G : GovernanceKernel K) (Q : MemoryKernel K G) where
  open K use {
    Pool, Pointer, Anchor, PoolId, PoolRow, SlotValue, ProposalId, Proposal, Input, Output, Pots,
    Progress,
  }
  open G use {
    Point, specific_slot, ProtocolParameters, CommitteeStatus, Constitution, ProposalsRoots,
    new_slot_row,
  }

  -- A change of the store that cannot fail.
  abbrev pub change : (MemoryStore K G → MemoryStore K G) → MemoryExec K G (Unit {0})
  change f s = (ok tt, f s)

  unfoldable pub commit_memory : MemoryExec K G (Unit {0})
  commit_memory = pure tt

  unfoldable pub rollback_memory : MemoryExec K G (Unit {0})
  rollback_memory = pure tt

  unfoldable pub try_memory_transition : Option Progress → Option Progress → MemoryExec K G Bool
  try_memory_transition from to s =
      if same_optional K s.epoch_progress from
      then (ok true, record s { epoch_progress = to })
      else (ok false, s)

  -- The sum is in 64 bits.
  unfoldable pub refund_account : StakeCredential → ℕ → MemoryExec K G ℕ
  refund_account credential deposit s = elim (get Q.credential_order credential s.accounts) [
    | none ↦ (ok deposit, s)
    | some account ↦ (
      ok 0,
      record s {
        accounts =
            modify Q.credential_order
              (λ row. record row { rewards = (row.rewards + deposit) % 2 ^ 64 }) credential
              s.accounts;
      },
    )
  ]

  unfoldable pub set_memory_parameters : ProtocolParameters → MemoryExec K G (Unit {0})
  set_memory_parameters parameters = change λ s. record s { protocol_parameters = parameters }

  -- The status alone: the members that are added and removed are not looked at.
  unfoldable pub update_committee_status :
      CommitteeStatus
      → List (StakeCredential × ℕ)
      → List StakeCredential
      → MemoryExec K G (Unit {0})
  update_committee_status status added removed =
      change λ s. record s { constitutional_committee = status }

  -- `unimplemented!`, five times.
  unfoldable pub set_memory_roots : ProposalsRoots → MemoryExec K G (Unit {0})
  set_memory_roots roots = lift panic

  unfoldable pub set_memory_constitution : Constitution → MemoryExec K G (Unit {0})
  set_memory_constitution constitution = lift panic

  unfoldable pub set_memory_activity : ℕ → MemoryExec K G (Unit {0})
  set_memory_activity activity = lift panic

  unfoldable pub remove_memory_proposals : List ProposalId → MemoryExec K G (Unit {0})
  remove_memory_proposals proposals = lift panic

  unfoldable pub add_memory_delegations :
      List (StakeCredential × (DRep × Pointer)) → MemoryExec K G (Unit {0})
  add_memory_delegations delegations = lift panic

  unfoldable pub slot_of_memory : Option Point → Option ℕ
  slot_of_memory none = none
  slot_of_memory (some point) = specific_slot point

  -- A row for the slot, where there are a slot and an issuer.
  unfoldable pub with_issuer : Option ℕ → Option PoolId → MemoryStore K G → MemoryStore K G
  with_issuer (some slot) (some issuer) s = record s {
    slots = insert slot_order slot (new_slot_row issuer) s.slots;
  }
  with_issuer (some slot) none s = s
  with_issuer none issuer s = s

  unfoldable pub add_to_memory : Additions K → MemoryStore K G → MemoryStore K G
  add_to_memory add s = record s {
    utxos = add_to_utxos K G Q add.utxo s.utxos;
    pools = add_to_pools K G Q add.pools s.pools;
    dreps = add_to_dreps K G Q add.dreps s.dreps;
    accounts = add_to_accounts K G Q add.accounts s.accounts;
    cc_members = add_to_members K G Q add.cc_members s.cc_members;
    proposals = add_to_proposals K G Q add.proposals s.proposals;
    votes = (add_to_votes K G Q add.votes s.votes).1;
  }

  unfoldable pub remove_from_memory :
      List StakeCredential → Removals K → MemoryStore K G → MemoryStore K G
  remove_from_memory withdrawals remove s = record s {
    utxos = remove_from_utxos K G Q remove.utxo s.utxos;
    pools = remove_from_pools K G Q remove.pools s.pools;
    accounts =
        remove_from_accounts K G Q remove.accounts (reset_rewards K G Q withdrawals s.accounts);
    dreps = remove_from_dreps K G Q remove.dreps s.dreps;
    cc_members = remove_from_members K G Q remove.cc_members s.cc_members;
  }

  unfoldable pub save_to_memory : Delta K G → MemoryExec K G (Unit {0})
  save_to_memory delta s =
      if already_saved (specific_slot delta.point) (slot_of_memory s.tip) then (ok tt, s) else (
        ok tt,
        remove_from_memory delta.withdrawals delta.remove (
            add_to_memory delta.add (
              with_issuer (specific_slot delta.point) delta.issuer
                (record s { tip = some delta.point }))),
      )

  unfoldable pub lent_pots : Option Pots → MemoryStore K G → MemoryStore K G
  lent_pots none s = s
  lent_pots (some pots) s = record s { pots = pots }

  unfoldable pub lend_pots : (Pots → Option Pots) → MemoryExec K G (Unit {0})
  lend_pots visit = change λ s. lent_pots (visit s.pots) s

  unfoldable pub lend_pools : Visit PoolId PoolRow → MemoryExec K G (Unit {0})
  lend_pools visit = change λ s. record s { pools = with_column Q.pool_id_order visit s.pools }

  unfoldable pub lend_accounts :
      Visit StakeCredential (Account Pool Pointer) → MemoryExec K G (Unit {0})
  lend_accounts visit =
      change λ s. record s { accounts = with_column Q.credential_order visit s.accounts }

  unfoldable pub lend_block_issuers : Visit ℕ SlotValue → MemoryExec K G (Unit {0})
  lend_block_issuers visit = change λ s. record s { slots = with_column slot_order visit s.slots }

  unfoldable pub lend_utxo : Visit Input Output → MemoryExec K G (Unit {0})
  lend_utxo visit = change λ s. record s { utxos = with_column Q.input_order visit s.utxos }

  unfoldable pub lend_dreps :
      Visit StakeCredential (DRepRow Pointer Anchor) → MemoryExec K G (Unit {0})
  lend_dreps visit = change λ s. record s { dreps = with_column Q.credential_order visit s.dreps }

  unfoldable pub lend_proposals : Visit ProposalId Proposal → MemoryExec K G (Unit {0})
  lend_proposals visit =
      change λ s. record s { proposals = with_column Q.proposal_id_order visit s.proposals }

  unfoldable pub lend_cc_members : Visit StakeCredential CcMember → MemoryExec K G (Unit {0})
  lend_cc_members visit =
      change λ s. record s { cc_members = with_column Q.credential_order visit s.cc_members }

  unfoldable pub next_memory_snapshot : ℕ → MemoryExec K G (Unit {0})
  next_memory_snapshot epoch =
      raise (internal (codes "next_snapshot not yet implemented on MemoryStore"))

  -- The one epoch that a store in memory has a snapshot of, whatever it holds.
  unfoldable pub memory_snapshots : MemoryExec K G (List ℕ)
  memory_snapshots = pure (3 ∷ [])

  unfoldable pub snapshot_epoch : MemoryStore K G → ℕ
  snapshot_epoch s = 10

  -- A new store, with the history and the parameters of this one.
  unfoldable pub memory_for_epoch : ℕ → MemoryExec K G (MemoryStore K G)
  memory_for_epoch epoch s = (ok (new_store K G Q s.era_history s.protocol_parameters), s)

  unfoldable pub prune_memory : ℕ → MemoryExec K G (Unit {0})
  prune_memory minimum_epoch = pure tt
