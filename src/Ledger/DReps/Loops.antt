-- ===== src/Ledger/DReps/Loops.antt =====
-- The loops of `add`, `set_valid_until` and `remove` from protocol version 10 on: what they make of
-- the dreps, and that they add no key but those of dreps.
use amaru_wear.Prelude.{ℕ, ◌≡◌, refl, false, Option, none, some, List, ok, ◌>>=◌, then_ok}
use amaru_wear.RocksDb.{RocksDb, IsLawful, IsReliable}
use amaru_wear.Ledger.{
  LedgerKernel, IsLedgerKernel, StakeCredential, Resettable, DRepRow, DRepRegistration, LedgerExec,
  dreps_prefix,
}
use amaru_wear.Ledger.Column.{steps, for_each-Makes, writes}
use amaru_wear.Ledger.Column.Strays.{IsTidy, alter-IsTidy, for_each-IsTidy}
use amaru_wear.Ledger.Delegations.{get_drep}
use amaru_wear.Ledger.DReps.{
  registered_drep, add_drep, add_dreps, set_valid_until_of, set_valid_until, unbind_delegators,
  mark_deregistered, remove_drep, remove_dreps,
}
use amaru_wear.Ledger.DReps.Laws.{
  DReps, HoldsDReps, MakesDReps, altered_drep, with_valid_until, with_deregistration, with_anchor,
  add_drep_makes, set_valid_until_of_makes, remove_drep_lem,
}

module _ (R : RocksDb) (K : LedgerKernel) where
  open R use {Db}
  open K use {Pointer, Anchor, ProtocolVersion, up_to_version_9, credential_codec, drep_codec}

  -- The new keys are those of dreps.
  abbrev pub IsTidyDReps : Db → Db → Type 0
  IsTidyDReps d d' = IsTidy R credential_codec drep_codec dreps_prefix d d'

  -- The dreps after `add` of a list.
  abbrev pub dreps_added :
      ℕ
      → List (StakeCredential × (Resettable Anchor × Option (DRepRegistration Pointer)))
      → DReps R K
      → DReps R K
  dreps_added epoch =
      steps R credential_codec drep_codec dreps_prefix
        (λ (x : StakeCredential × (Resettable Anchor × Option (DRepRegistration Pointer))) m.
          altered_drep R K (λ o. with_anchor R K x.1.0 (registered_drep R K epoch x.1.1 o)) x.0 m)

  -- The dreps after `remove` of a list.
  abbrev pub dreps_removed : List (StakeCredential × Pointer) → DReps R K → DReps R K
  dreps_removed =
      steps R credential_codec drep_codec dreps_prefix
        (λ (x : StakeCredential × Pointer) m. altered_drep R K (with_deregistration R K x.1) x.0 m)

  module _ (sound : IsReliable R) (L : IsLawful R) (N : IsLedgerKernel K) where
    alter-IsTidyDReps :
        (g : Option (DRepRow Pointer Anchor) → Option (DRepRow Pointer Anchor))
        (a : StakeCredential) (k : Option (DRepRow Pointer Anchor) → LedgerExec R (Unit {0}))
        → ((d : Db) → k none d ≡ writes R credential_codec drep_codec dreps_prefix a (g none) d)
        → ((row : DRepRow Pointer Anchor) (d : Db)
            → k (some row) d ≡ writes R credential_codec drep_codec dreps_prefix a (g (some row)) d)
        → (m : DReps R K) (d : Db) → HoldsDReps R K m d
        → IsTidyDReps d ((get_drep R K a >>= k) d).1
    unfolding get_drep
    alter-IsTidyDReps g a k absent present m d h =
        alter-IsTidy R credential_codec drep_codec dreps_prefix sound L N.dreps g a k absent present
          m d h

    add_drep_tidy :
        (epoch : ℕ) (x : StakeCredential × (Resettable Anchor × Option (DRepRegistration Pointer)))
        (m : DReps R K) (d : Db)
        → HoldsDReps R K m d
        → IsTidyDReps d (add_drep R K epoch x d).1
    unfolding add_drep registered_drep
    add_drep_tidy epoch (c, (anchor, none)) m d h =
        alter-IsTidyDReps (λ o. with_anchor R K anchor (registered_drep R K epoch none o)) c _
          (λ d'. refl) (λ row d'. refl) m d h
    add_drep_tidy epoch (c, (anchor, some r)) m d h =
        alter-IsTidyDReps (λ o. with_anchor R K anchor (registered_drep R K epoch (some r) o)) c _
          (λ d'. refl) (λ row d'. refl) m d h

    add_drep_made :
        (epoch : ℕ) (x : StakeCredential × (Resettable Anchor × Option (DRepRegistration Pointer)))
        (m : DReps R K) (d : Db)
        → HoldsDReps R K m d
        → MakesDReps R K (add_drep R K epoch x) d tt (
            altered_drep R K (λ o. with_anchor R K x.1.0 (registered_drep R K epoch x.1.1 o)) x.0 m)
    add_drep_made epoch (c, (anchor, registration)) m d h =
        add_drep_makes R K sound L N epoch c anchor registration m d h

    pub add_dreps_made :
        (epoch : ℕ)
        (rows : List (StakeCredential × (Resettable Anchor × Option (DRepRegistration Pointer))))
        (m : DReps R K) (d : Db)
        → HoldsDReps R K m d
        → MakesDReps R K (add_dreps R K epoch rows) d tt (dreps_added epoch rows m)
          × IsTidyDReps d (add_dreps R K epoch rows d).1
    unfolding add_dreps
    add_dreps_made epoch rows m d h = (
      for_each-Makes R credential_codec drep_codec dreps_prefix _ (add_drep R K epoch)
          (add_drep_made epoch) rows m d h,
      for_each-IsTidy R credential_codec drep_codec dreps_prefix sound L _ (add_drep R K epoch)
          (add_drep_made epoch) (add_drep_tidy epoch) rows m d h,
    )

    set_valid_until_of_tidy :
        (epoch : ℕ) (a : StakeCredential) (m : DReps R K) (d : Db)
        → HoldsDReps R K m d
        → IsTidyDReps d (set_valid_until_of R K epoch a d).1
    unfolding set_valid_until_of
    set_valid_until_of_tidy epoch a m d h =
        alter-IsTidyDReps (with_valid_until R K epoch) a _ (λ d'. refl) (λ row d'. refl) m d h

    pub set_valid_until_tidy :
        (credentials : List StakeCredential) (epoch : ℕ) (m : DReps R K) (d : Db)
        → HoldsDReps R K m d
        → IsTidyDReps d (set_valid_until R K credentials epoch d).1
    unfolding set_valid_until
    set_valid_until_tidy credentials epoch m d h =
        for_each-IsTidy R credential_codec drep_codec dreps_prefix sound L _
          (set_valid_until_of R K epoch) (set_valid_until_of_makes R K sound L N epoch)
          (set_valid_until_of_tidy epoch) credentials m d h

    mark_deregistered_tidy :
        (a : StakeCredential) (pointer : Pointer) (m : DReps R K) (d : Db)
        → HoldsDReps R K m d
        → IsTidyDReps d (mark_deregistered R K (a, pointer) d).1
    unfolding mark_deregistered
    mark_deregistered_tidy a pointer m d h =
        alter-IsTidyDReps (with_deregistration R K pointer) a _ (λ d'. refl) (λ row d'. refl) m d h

    module _ (version : ProtocolVersion) (later : up_to_version_9 version ≡ false) where
      remove_drep_made :
          (x : StakeCredential × Pointer) (m : DReps R K) (d : Db)
          → HoldsDReps R K m d
          → MakesDReps R K
              (remove_drep R K version x)
              d
              tt
              (altered_drep R K (with_deregistration R K x.1) x.0 m)
      remove_drep_made (a, pointer) m d h =
          remove_drep_lem R K sound L N version a pointer m d later h

      remove_drep_tidy :
          (x : StakeCredential × Pointer) (m : DReps R K) (d : Db)
          → HoldsDReps R K m d
          → IsTidyDReps d (remove_drep R K version x d).1
      unfolding remove_drep unbind_delegators
      remove_drep_tidy (a, pointer) m d h =
          let unbound : unbind_delegators R K version a pointer d ≡ (ok tt, d) = rw later refl in
          rw
            (then_ok (unbind_delegators R K version a pointer) (mark_deregistered R K (a, pointer))
              d unbound)
            (mark_deregistered_tidy a pointer m d h)

      pub remove_dreps_made :
          (rows : List (StakeCredential × Pointer)) (m : DReps R K) (d : Db)
          → HoldsDReps R K m d
          → MakesDReps R K (remove_dreps R K version rows) d tt (dreps_removed rows m)
            × IsTidyDReps d (remove_dreps R K version rows d).1
      unfolding remove_dreps
      remove_dreps_made rows m d h = (
        for_each-Makes R credential_codec drep_codec dreps_prefix _ (remove_drep R K version)
            remove_drep_made rows m d h,
        for_each-IsTidy R credential_codec drep_codec dreps_prefix sound L _
            (remove_drep R K version) remove_drep_made remove_drep_tidy rows m d h,
      )
