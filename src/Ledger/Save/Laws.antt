-- ===== src/Ledger/Save/Laws.antt =====
-- `save` of a new block: what it does to the store.
use amaru_wear.Prelude.{
  ℕ, ◌≡◌, refl, sym, subst, ◌∙◌, Bool, false, Option, none, some, length, ok, if◌then◌else◌,
  bind_ok, then_ok, lift,
}
use amaru_wear.Bytes.{Bytes, same, starts_with}
use amaru_wear.RocksDb.{RocksDb, IsLawful, IsReliable, put_ok}
use amaru_wear.Ledger.{LedgerKernel, IsLedgerKernel, internal, slots_prefix, put_row}
use amaru_wear.Ledger.Column.{updated, put_row-Makes}
use amaru_wear.Ledger.Accounts.Later.{MayRegister}
use amaru_wear.Ledger.Entries.{put_slot}
use amaru_wear.Ledger.Iteration.{IterBorrow, IsIterBorrow}
use amaru_wear.Ledger.Governance.{
  GovernanceKernel, IsGovernanceKernel, tip_key, governance_activity_key, tip,
}
use amaru_wear.Ledger.Governance.Laws.{get_or_bail-some}
use amaru_wear.Ledger.Save.{Delta, tip_ok, put_issuer, add_columns, remove_columns, save_new, save}
use amaru_wear.Ledger.Save.View.{View, HoldsView, IsOutside, Refines, Refines-pure}
use amaru_wear.Ledger.Save.Frames.Governance.{Refines-slots}
use amaru_wear.Ledger.Save.Columns.{added, removed, add_columns-Refines, remove_columns-Refines}
use amaru_wear.Ledger.Save.Flush.{flushes, flushed, HoldsView-setting, flush_dormant_lem}
use amaru_wear.Ledger.Save.Tip.{knows, epoch_at-some, tip_ok_lem}

tip-IsOutside : IsOutside tip_key
unfolding starts_with
tip-IsOutside = record {
  outputs = refl;
  pools = refl;
  accounts = refl;
  dreps = refl;
  members = refl;
  proposals = refl;
  votes = refl;
  slots = refl;
}

activity-IsOutside : IsOutside governance_activity_key
unfolding starts_with
activity-IsOutside = record {
  outputs = refl;
  pools = refl;
  accounts = refl;
  dreps = refl;
  members = refl;
  proposals = refl;
  votes = refl;
  slots = refl;
}

module _ (R : RocksDb) (K : LedgerKernel) (G : GovernanceKernel K) where
  open R use {Db, content, write}
  open K use {PoolId, up_to_version_9, slot_codec, slot_value_codec}
  open G use {
    Point, specific_slot, slot_or_default, point_codec, ProtocolParameters, protocol_version,
    drep_expiry, EraHistory, slot_to_epoch, add_epochs, sub_epochs, new_slot_row, activity_codec,
  }

  abbrev pub issued : ℕ → Option PoolId → View R K G → View R K G
  issued slot none v = v
  issued slot (some issuer) v = record v {
    slots =
        updated R slot_codec slot_value_codec slots_prefix slot (some (new_slot_row issuer))
          v.slots;
  }

  -- The validity that registrations, updates and votes give to a drep.
  abbrev pub validity : ℕ → ProtocolParameters → ℕ → ℕ
  validity current_epoch parameters dormant =
      sub_epochs (add_epochs current_epoch (drep_expiry parameters)) dormant

  -- The columns after `save`: additions, removals, and the flush of the dormant epochs.
  abbrev pub saved : ℕ → ProtocolParameters → ℕ → Delta K G → View R K G → View R K G
  saved current_epoch parameters dormant delta v =
      flushed R K G dormant current_epoch (length delta.add.proposals) (
        removed R K G delta.withdrawals delta.remove (
          added R K G (validity current_epoch parameters dormant) delta.add
            (issued (slot_or_default delta.point) delta.issuer v)))

  accounts-issued :
      (slot : ℕ) (issuer : Option PoolId) (v : View R K G)
      → (issued slot issuer v).accounts ≡ v.accounts
  accounts-issued slot none v = refl
  accounts-issued slot (some issuer) v = refl

  module _ (sound : IsReliable R) (L : IsLawful R) where
    module _ (N : IsLedgerKernel K) (NG : IsGovernanceKernel G) (I : IterBorrow)
        (borrow : IsIterBorrow I) where
      put_issuer-Refines :
          (slot : ℕ) (issuer : Option PoolId) (v : View R K G)
          → Refines R K G (put_issuer R K G slot issuer) v tt (issued slot issuer v)
      unfolding put_issuer put_slot
      put_issuer-Refines slot none v = Refines-pure R K G tt v
      put_issuer-Refines slot (some issuer) v =
          Refines-slots R K G (put_slot R K slot (new_slot_row issuer)) v tt _ (
            put_row-Makes R slot_codec slot_value_codec slots_prefix sound L N.slot_values slot
              (new_slot_row issuer) v.slots)

      -- From protocol version 10 on, `save` of a new block in a known epoch, whose accounts may be
      -- registered, succeeds: the columns are changed as said, the tip is the block's point, the
      -- dormant epochs are 0 in the result and in the store if they are flushed and else stay, and
      -- no other key changes.
      pub save_lem :
          (incremental_save : Bool) (era_history : EraHistory) (parameters : ProtocolParameters)
          (dormant current_epoch : ℕ) (delta : Delta K G) (v : View R K G) (d : Db)
          → knows R K G incremental_save delta d ≡ false
          → slot_to_epoch era_history (slot_or_default delta.point) (slot_or_default delta.point)
            ≡ some current_epoch
          → up_to_version_9 (protocol_version parameters) ≡ false
          → MayRegister R K v.accounts delta.add.accounts
          → HoldsView R K G v d
          → (d' : Db) × (save R K G I incremental_save era_history parameters dormant delta d ≡ (
            ok (if flushes R K G dormant (length delta.add.proposals) then 0 else dormant),
            d',
          ))
            × HoldsView R K G (saved current_epoch parameters dormant delta v) d'
            × (tip R K G d' ≡ (ok delta.point, d'))
            × (content d' governance_activity_key ≡ (
                if flushes R K G dormant (length delta.add.proposals)
                then some (activity_codec.encode 0)
                else content d governance_activity_key))
            × ((j : Bytes)
                → IsOutside j
                → same tip_key j ≡ false
                → same governance_activity_key j ≡ false
                → content d' j ≡ content d j)
      unfolding save save_new put_row tip
      save_lem incremental_save era_history parameters dormant current_epoch delta v d new known
            later may h =
          let version = protocol_version parameters in
          let slot = slot_or_default delta.point in
          let bytes = point_codec.encode delta.point in
          let valid = validity current_epoch parameters dormant in
          let count = length delta.add.proposals in
          let d₁ = write d tip_key bytes in
          let h₁ = HoldsView-setting R K G sound L _ bytes v d h in
          let (d₂, issuing, h₂, f₂) = put_issuer-Refines slot delta.issuer v d₁ h₁ in
          let may₂ : MayRegister R K (issued slot delta.issuer v).accounts delta.add.accounts =
            subst (λ m. MayRegister R K m delta.add.accounts)
              (sym (accounts-issued slot delta.issuer v)) may in
          let (d₃, adding, h₃, f₃) =
            add_columns-Refines R K G sound L N version later valid delta.add
              (issued slot delta.issuer v) may₂ d₂ h₂ in
          let (d₄, removing, h₄, f₄) =
            remove_columns-Refines R K G sound L N version later delta.withdrawals delta.remove _ d₃
              h₃ in
          let (d₅, flushing, h₅, activity, f₅) =
            flush_dormant_lem R K G sound L N I borrow dormant current_epoch count _ d₄ h₄ in
          let columns : (j : Bytes) → IsOutside j → content d₄ j ≡ content d₁ j =
            λ j o. f₄ j o ∙ f₃ j o ∙ f₂ j o in
          let kept_activity : content d₄ governance_activity_key
              ≡ content d governance_activity_key =
            columns governance_activity_key activity-IsOutside
            ∙ L.content-write d tip_key bytes governance_activity_key
            ∙ (unfold same in refl) in
          (
            d₅,
            bind_ok (tip_ok R K G) _ d (tip_ok_lem R K G sound L d)
                ∙ rw new (
                    then_ok (put_row R point_codec tip_key delta.point) _ d
                      (put_ok R internal sound tip_key bytes d)
                    ∙ rw (epoch_at-some R K G era_history slot current_epoch known) (
                        bind_ok (lift (ok current_epoch)) _ d₁ refl
                        ∙ then_ok (put_issuer R K G slot delta.issuer) _ d₁ issuing
                        ∙ bind_ok (add_columns R K G version valid delta.add) _ d₂ adding
                        ∙ then_ok (remove_columns R K G version delta.withdrawals delta.remove) _ d₃
                            removing
                        ∙ flushing)),
            h₅,
            get_or_bail-some R sound point_codec NG.points tip_key delta.point d₅ (
                f₅ tip_key tip-IsOutside (unfold same in refl)
                ∙ columns tip_key tip-IsOutside
                ∙ L.content-write d tip_key bytes tip_key
                ∙ (unfold same in refl)),
            activity ∙ rw kept_activity refl,
            λ j o t a. f₅ j o a ∙ columns j o ∙ L.content-write d tip_key bytes j ∙ rw t refl,
          )
