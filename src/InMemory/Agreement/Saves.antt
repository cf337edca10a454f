-- ===== src/InMemory/Agreement/Saves.antt =====
-- `save` of rust/patches/amaru-stores/src/in_memory/mod.rs beside that of rocksdb/mod.rs.
use amaru_wear.Prelude.{
  ℕ, ◌≡◌, refl, sym, ap, ◌∙◌, false, Option, none, some, List, [], length, arith, ok, if◌then◌else◌,
}
use amaru_wear.RocksDb.{RocksDb, IsLawful, IsReliable}
use amaru_wear.Map.{IsOrdered}
use amaru_wear.Ledger.{LedgerKernel, IsLedgerKernel, StakeCredential, slots_prefix}
use amaru_wear.Ledger.Accounts.Later.{MayRegister}
use amaru_wear.Ledger.Entries.Votes.{voters}
use amaru_wear.Ledger.DReps.Loops.{dreps_added}
use amaru_wear.Ledger.Iteration.{IterBorrow, IsIterBorrow}
use amaru_wear.Ledger.Governance.{GovernanceKernel, IsGovernanceKernel, tip_key, tip}
use amaru_wear.Ledger.Save.{Additions, Removals, Delta, already_known, slot_of_tip, save}
use amaru_wear.Ledger.Save.View.{View, HoldsView}
use amaru_wear.Ledger.Save.Columns.{added, removed}
use amaru_wear.Ledger.Save.Flush.{flushes, flushed}
use amaru_wear.Ledger.Save.Tip.{stored_tip, knows}
use amaru_wear.Ledger.Save.Laws.{issued, validity, saved, save_lem}
use amaru_wear.InMemory.{MemoryKernel, MemoryStore, slot_order, read_tip}
use amaru_wear.InMemory.Context.{
  already_saved, slot_of_memory, with_issuer, add_to_memory, remove_from_memory, save_to_memory,
}
use amaru_wear.InMemory.Agreement.{Agrees, insert-Agrees}
use amaru_wear.InMemory.Agreement.Columns.{
  IsMemoryKernel, add_to_utxos-Agrees, remove_from_utxos-Agrees, add_to_proposals-Agrees,
  add_to_votes-Agrees, add_to_pools-Agrees, remove_from_pools-Agrees,
}
use amaru_wear.InMemory.Agreement.DReps.{
  AgreesOnDReps, add_to_dreps-AgreesOnDReps, remove_from_dreps-AgreesOnDReps,
}
use amaru_wear.InMemory.Agreement.DReps.Validity.{renewed-AgreesOnDReps, flushed-AgreesOnDReps}

slot_order-IsOrdered : IsOrdered slot_order
slot_order-IsOrdered = record {
  irrefl = λ a. ground arith;
  trans = λ a b c h j. ground arith;
  total = λ a b h j. ground arith;
}

module _ (R : RocksDb) (K : LedgerKernel) (G : GovernanceKernel K) (Q : MemoryKernel K G) where
  open R use {Db, content}
  open K use {PoolId, up_to_version_9, slot_codec, slot_value_codec}
  open G use {
    Point, specific_slot, slot_or_default, ProtocolParameters, protocol_version, EraHistory,
    slot_to_epoch, new_slot_row,
  }

  -- The store in memory has the rows of the columns, but for the accounts, the committee, and the
  -- validity of the dreps.
  pub record AgreesOnView (v : View R K G) (s : MemoryStore K G) : Type 0 where
    pub outputs : Agrees Q.input_order s.utxos v.outputs
    pub pools : Agrees Q.pool_id_order s.pools v.pools
    pub dreps : AgreesOnDReps R K G Q s.dreps v.dreps
    pub proposals : Agrees Q.proposal_id_order s.proposals v.proposals
    pub votes : Agrees Q.ballot_order s.votes v.votes
    pub slots : Agrees slot_order s.slots v.slots

  already_saved_known :
      (new current : Option ℕ) → already_saved new current ≡ already_known R K G false new current
  unfolding already_saved already_known
  already_saved_known (some new) (some current) = ground arith
  already_saved_known (some new) none = refl
  already_saved_known none current = refl

  slot_of_memory_tip : (tip : Option Point) → slot_of_memory K G Q tip ≡ slot_of_tip R K G tip
  unfolding slot_of_memory slot_of_tip
  slot_of_memory_tip none = refl
  slot_of_memory_tip (some point) = refl

  module _ (N : IsLedgerKernel K) (M : IsMemoryKernel Q) where
    with_issuer-AgreesOnView :
        (slot : ℕ) (issuer : Option PoolId) (point : Point) (v : View R K G) (s : MemoryStore K G)
        → AgreesOnView v s
        → AgreesOnView
            (issued R K G slot issuer v)
            (with_issuer K G Q (some slot) issuer (record s { tip = some point }))
    unfolding with_issuer
    with_issuer-AgreesOnView slot none point v s h = record {
      outputs = h.outputs;
      pools = h.pools;
      dreps = h.dreps;
      proposals = h.proposals;
      votes = h.votes;
      slots = h.slots;
    }
    with_issuer-AgreesOnView slot (some issuer) point v s h = record {
      outputs = h.outputs;
      pools = h.pools;
      dreps = h.dreps;
      proposals = h.proposals;
      votes = h.votes;
      slots =
          insert-Agrees slot_order slot_order-IsOrdered R slot_codec N.slots slot_value_codec
            slots_prefix slot (new_slot_row issuer) s.slots v.slots h.slots;
    }

    add_to_memory-AgreesOnView :
        (valid : ℕ) (add : Additions K) (v : View R K G) (s : MemoryStore K G)
        → AgreesOnView v s
        → AgreesOnView (added R K G valid add v) (add_to_memory K G Q add s)
    unfolding add_to_memory
    add_to_memory-AgreesOnView valid add v s h = record {
      outputs = add_to_utxos-Agrees R K G Q N M add.utxo s.utxos v.outputs h.outputs;
      pools = add_to_pools-Agrees R K G Q N M add.pools s.pools v.pools h.pools;
      dreps =
          renewed-AgreesOnDReps R K G Q valid (voters R K [] add.votes) _
            (dreps_added R K valid add.dreps v.dreps)
            (add_to_dreps-AgreesOnDReps R K G Q N M valid add.dreps s.dreps v.dreps h.dreps);
      proposals =
          add_to_proposals-Agrees R K G Q N M add.proposals s.proposals v.proposals h.proposals;
      votes = add_to_votes-Agrees R K G Q N M add.votes s.votes v.votes h.votes;
      slots = h.slots;
    }

    remove_from_memory-AgreesOnView :
        (withdrawals : List StakeCredential) (remove : Removals K) (v : View R K G)
        (s : MemoryStore K G)
        → AgreesOnView v s
        → AgreesOnView
            (removed R K G withdrawals remove v)
            (remove_from_memory K G Q withdrawals remove s)
    unfolding remove_from_memory
    remove_from_memory-AgreesOnView withdrawals remove v s h = record {
      outputs = remove_from_utxos-Agrees R K G Q N M remove.utxo s.utxos v.outputs h.outputs;
      pools = remove_from_pools-Agrees R K G Q N M remove.pools s.pools v.pools h.pools;
      dreps = remove_from_dreps-AgreesOnDReps R K G Q N M remove.dreps s.dreps v.dreps h.dreps;
      proposals = h.proposals;
      votes = h.votes;
      slots = h.slots;
    }

    flushed-AgreesOnView :
        (dormant current_epoch count : ℕ) (v : View R K G) (s : MemoryStore K G)
        → AgreesOnView v s
        → AgreesOnView (flushed R K G dormant current_epoch count v) s
    flushed-AgreesOnView dormant current_epoch count v s h = record {
      outputs = h.outputs;
      pools = h.pools;
      dreps = flushed-AgreesOnDReps R K G Q dormant current_epoch count s.dreps v.dreps h.dreps;
      proposals = h.proposals;
      votes = h.votes;
      slots = h.slots;
    }

    tip-remove_from_memory :
        (withdrawals : List StakeCredential) (remove : Removals K) (add : Additions K)
        (slot issuer : _) (s : MemoryStore K G)
        → (remove_from_memory K G Q withdrawals remove
            (add_to_memory K G Q add (with_issuer K G Q slot issuer s))).tip
          ≡ s.tip
    unfolding remove_from_memory add_to_memory with_issuer
    tip-remove_from_memory withdrawals remove add (some slot) (some issuer) s = refl
    tip-remove_from_memory withdrawals remove add (some slot) none s = refl
    tip-remove_from_memory withdrawals remove add none issuer s = refl

    module _ (sound : IsReliable R) (L : IsLawful R) (NG : IsGovernanceKernel G) (I : IterBorrow)
        (borrow : IsIterBorrow I) where
      -- From protocol version 10 on, two stores that agree, one in memory and one in the database,
      -- save a new block of a slot in a known epoch, whose accounts may be registered, alike: both
      -- succeed, have the block's point as their tip, and agree again on the outputs, the pools, the
      -- proposals, the votes, the slots and, but for their validity, the dreps.
      pub save-save_to_memory :
          (era_history : EraHistory) (parameters : ProtocolParameters)
          (dormant current_epoch slot : ℕ) (delta : Delta K G) (v : View R K G) (d : Db)
          (s : MemoryStore K G)
          → HoldsView R K G v d
          → AgreesOnView v s
          → stored_tip R K G (content d tip_key) ≡ s.tip
          → knows R K G false delta d ≡ false
          → specific_slot delta.point ≡ some slot
          → slot_or_default delta.point ≡ slot
          → slot_to_epoch era_history slot slot ≡ some current_epoch
          → up_to_version_9 (protocol_version parameters) ≡ false
          → MayRegister R K v.accounts delta.add.accounts
          → (d' : Db) × (s' : MemoryStore K G) × (save R K G I false era_history parameters dormant
                delta d
              ≡ (
                ok (if flushes R K G dormant (length delta.add.proposals) then 0 else dormant),
                d',
              ))
            × (save_to_memory K G Q delta s ≡ (ok tt, s'))
            × HoldsView R K G (saved R K G current_epoch parameters dormant delta v) d'
            × AgreesOnView (saved R K G current_epoch parameters dormant delta v) s'
            × (tip R K G d' ≡ (ok delta.point, d'))
            × (read_tip K G Q s' ≡ (ok delta.point, s'))
      unfolding save_to_memory read_tip
      save-save_to_memory era_history parameters dormant current_epoch slot delta v d s h agrees
            same_tip new is_slot default_slot known later may =
          let (d', run, holds, point, activity, frame) =
            save_lem R K G sound L N NG I borrow false era_history parameters dormant current_epoch
              delta v d new (rw default_slot known) later may h in
          let valid = validity R K G current_epoch parameters dormant in
          let s₁ =
            with_issuer K G Q (some slot) delta.issuer (record s { tip = some delta.point }) in
          let s₂ = add_to_memory K G Q delta.add s₁ in
          let s' = remove_from_memory K G Q delta.withdrawals delta.remove s₂ in
          let v₁ = issued R K G slot delta.issuer v in
          let v₂ = added R K G valid delta.add v₁ in
          let v₃ = removed R K G delta.withdrawals delta.remove v₂ in
          let unknown : already_saved (specific_slot delta.point) (slot_of_memory K G Q s.tip)
              ≡ false =
            already_saved_known (specific_slot delta.point) (slot_of_memory K G Q s.tip)
            ∙ ap (already_known R K G false (specific_slot delta.point))
                (slot_of_memory_tip s.tip ∙ ap (slot_of_tip R K G) (sym same_tip))
            ∙ new in
          let now : s'.tip ≡ some delta.point =
            tip-remove_from_memory delta.withdrawals delta.remove delta.add (some slot) delta.issuer
              (record s { tip = some delta.point }) in
          (
            d',
            s',
            run,
            rw (unknown, is_slot) refl,
            holds,
            rw default_slot (
                flushed-AgreesOnView dormant current_epoch (length delta.add.proposals) v₃ s' (
                  remove_from_memory-AgreesOnView delta.withdrawals delta.remove v₂ s₂ (
                    add_to_memory-AgreesOnView valid delta.add v₁ s₁
                      (with_issuer-AgreesOnView slot delta.issuer delta.point v s agrees)))),
            point,
            rw now refl,
          )
