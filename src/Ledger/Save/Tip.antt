-- ===== src/Ledger/Save/Tip.antt =====
-- When `save` does not reach the columns: a block that is known, and a slot outside the history.
use amaru_wear.Prelude.{
  ℕ, ◌≡◌, ◌≤◌, le→leb, refl, ap, ◌∙◌, Bool, false, Option, none, some, ok, err, ◌>>=◌, bind_ok,
  bind_result, lift, Option-cases, inl, inr,
}
use amaru_wear.Bytes.{Bytes}
use amaru_wear.RocksDb.{RocksDb, IsLawful, IsReliable, get, get_ok}
use amaru_wear.Ledger.{LedgerKernel, internal, outside_history}
use amaru_wear.Ledger.Iteration.{IterBorrow}
use amaru_wear.Ledger.Governance.{
  GovernanceKernel, tip_key, decode_or_undecodable, get_single, or_missing, get_or_bail, tip,
}
use amaru_wear.Ledger.Save.{Delta, found_tip, tip_ok, already_known, slot_of_tip, epoch_at, save}

module _ (R : RocksDb) (K : LedgerKernel) (G : GovernanceKernel K) where
  open R use {Db, content, write}
  open K use {PoolId, up_to_version_9, slot_codec, slot_value_codec}
  open G use {
    Point, specific_slot, slot_or_default, point_codec, ProtocolParameters, protocol_version,
    drep_expiry, EraHistory, slot_to_epoch, add_epochs, sub_epochs, new_slot_row, activity_codec,
  }

  -- The tip, if there is one that can be decoded.
  abbrev pub stored_tip : Option Bytes → Option Point
  stored_tip none = none
  stored_tip (some bytes) = point_codec.decode bytes

  -- Whether the store has the point of the changes already.
  abbrev pub knows : Bool → Delta K G → Db → Bool
  knows incremental_save delta d =
      already_known R K G incremental_save (specific_slot delta.point)
        (slot_of_tip R K G (stored_tip (content d tip_key)))

  pub epoch_at-none :
      (era_history : EraHistory) (slot : ℕ)
      → slot_to_epoch era_history slot slot ≡ none
      → epoch_at R K G era_history slot ≡ err outside_history
  unfolding epoch_at
  epoch_at-none era_history slot e = rw (e, epoch_at) refl

  pub epoch_at-some :
      (era_history : EraHistory) (slot epoch : ℕ)
      → slot_to_epoch era_history slot slot ≡ some epoch
      → epoch_at R K G era_history slot ≡ ok epoch
  unfolding epoch_at
  epoch_at-some era_history slot epoch e = rw (e, epoch_at) refl

  module _ (sound : IsReliable R) (L : IsLawful R) where
    stored_single :
        (d : Db)
        → get_single R point_codec tip_key d
          ≡ (decode_or_undecodable R point_codec (content d tip_key), d)
    unfolding get_single
    stored_single d = bind_ok (get R internal tip_key) _ d (get_ok R internal sound tip_key d)

    found :
        (o : Option Bytes) (d : Db)
        → found_tip R K G
            (bind_result
              (decode_or_undecodable R point_codec o)
              (λ value. lift (or_missing R point_codec tip_key value))
              d).0
          ≡ ok (stored_tip o)
    unfolding decode_or_undecodable or_missing bind_result found_tip
    found none d = refl
    found (some bytes) d = elim (Option-cases (point_codec.decode bytes)) [
      | inl e ↦ rw (e, decode_or_undecodable) refl
      | inr (point, e) ↦ rw (e, decode_or_undecodable) refl
    ]

    pub tip_ok_lem : (d : Db) → tip_ok R K G d ≡ (ok (stored_tip (content d tip_key)), d)
    unfolding tip_ok tip get_or_bail ◌>>=◌
    tip_ok_lem d = rw (stored_single d) (ap (λ r. (r, d)) (found (content d tip_key) d))

    -- Unless the store is filled incrementally, a block whose slot is that of the stored tip or
    -- earlier is not saved again: nothing is written, and the dormant epochs stay.
    pub save_known :
        (I : IterBorrow) (era_history : EraHistory) (parameters : ProtocolParameters) (dormant : ℕ)
        (delta : Delta K G) (d : Db) (bytes : Bytes) (point : Point) (current new : ℕ)
        → content d tip_key ≡ some bytes
        → point_codec.decode bytes ≡ some point
        → specific_slot point ≡ some current
        → specific_slot delta.point ≡ some new
        → new ≤ current
        → save R K G I false era_history parameters dormant delta d ≡ (ok dormant, d)
    unfolding save already_known slot_of_tip
    save_known I era_history parameters dormant delta d bytes point current new at_tip decoded
          current_slot new_slot bound =
        bind_ok (tip_ok R K G) _ d (tip_ok_lem d)
        ∙ rw (at_tip, decoded, current_slot, new_slot, le→leb new current bound) refl
