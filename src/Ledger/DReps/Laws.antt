-- ===== src/Ledger/DReps/Laws.antt =====
-- What the operations on dreps do to the map from credentials to dreps.
use amaru_wear.Prelude.{
  ℕ, ◌≡◌, refl, ◌∙◌, false, Option, none, some, Option-cases, Bool-cases, inl, inr, List, [], arith,
  Result, ok, if◌then◌else◌, ◌>>=◌, bind_ok, then_ok,
}
use amaru_wear.Bytes.{same}
use amaru_wear.RocksDb.{RocksDb, IsLawful, IsReliable, put_ok}
use amaru_wear.Ledger.{
  LedgerKernel, IsLedgerKernel, StakeCredential, Resettable, DRepRow, DRepRegistration, LedgerExec,
  LedgerError, internal, dreps_prefix,
}
use amaru_wear.Ledger.Changes.{after_change, set_or_reset_lem}
use amaru_wear.Ledger.Column.{
  Holds, Holds-same, Makes, get_row_ok, for_each-Makes, altered, kept, writes, alter-Makes,
}
use amaru_wear.Ledger.Column.Loops.{listed, steps-altered}
use amaru_wear.Ledger.Delegations.{get_drep, unregistered_since, add_delegation_to, new_key}
use amaru_wear.Ledger.DReps.{
  registered_drep, add_drep, set_valid_until_of, set_valid_until, unbind_delegators,
  mark_deregistered, remove_drep,
}

module _ (R : RocksDb) (K : LedgerKernel) where
  open R use {Db}
  open K use {
    Pointer, Anchor, ProtocolVersion, up_to_version_9, set_or_reset, credential_codec, drep_codec,
  }

  abbrev pub DReps : Type 0
  DReps = StakeCredential → Option (DRepRow Pointer Anchor)

  abbrev pub HoldsDReps : DReps → Db → Type 0
  HoldsDReps m d = Holds R credential_codec drep_codec dreps_prefix m d

  abbrev pub MakesDReps : {X : Type 0} → LedgerExec R X → Db → X → DReps → Type 0
  MakesDReps action d x m = Makes R credential_codec drep_codec dreps_prefix action d x m

  abbrev pub altered_drep :
      (Option (DRepRow Pointer Anchor) → Option (DRepRow Pointer Anchor))
      → StakeCredential
      → DReps
      → DReps
  altered_drep g a m = altered R credential_codec drep_codec dreps_prefix g a m

  abbrev pub with_valid_until :
      ℕ → Option (DRepRow Pointer Anchor) → Option (DRepRow Pointer Anchor)
  with_valid_until epoch none = none
  with_valid_until epoch (some row) = some (record row { valid_until = epoch })

  abbrev pub with_deregistration :
      Pointer → Option (DRepRow Pointer Anchor) → Option (DRepRow Pointer Anchor)
  with_deregistration pointer none = none
  with_deregistration pointer (some row) =
      some (record row { previous_deregistration = some pointer })

  -- The row after a registration or an update, with its anchor changed.
  abbrev pub with_anchor :
      Resettable Anchor → Option (DRepRow Pointer Anchor) → Option (DRepRow Pointer Anchor)
  with_anchor anchor none = none
  with_anchor anchor (some row) = some (record row { anchor = (set_or_reset anchor row.anchor).0 })

  -- What a registration, or an update of a drep that is known, has to make of the drep's row.
  unfoldable pub drep_after :
      ℕ
      → Resettable Anchor
      → Option (DRepRegistration Pointer)
      → Option (DRepRow Pointer Anchor)
      → Option (DRepRow Pointer Anchor)
  drep_after epoch anchor none none = none
  drep_after epoch anchor none (some row) = some (record {
    deposit = row.deposit;
    registered_at = row.registered_at;
    valid_until = epoch;
    anchor = after_change anchor row.anchor;
    previous_deregistration = row.previous_deregistration;
  })
  drep_after epoch anchor (some r) none = some (record {
    deposit = r.deposit;
    registered_at = r.registered_at;
    valid_until = r.valid_until;
    anchor = after_change anchor none;
    previous_deregistration = none;
  })
  drep_after epoch anchor (some r) (some row) = some (record {
    deposit = r.deposit;
    registered_at = r.registered_at;
    valid_until = r.valid_until;
    anchor = after_change anchor row.anchor;
    previous_deregistration = row.previous_deregistration;
  })

  module _ (sound : IsReliable R) (L : IsLawful R) (N : IsLedgerKernel K) where
    alter_drep :
        (g : Option (DRepRow Pointer Anchor) → Option (DRepRow Pointer Anchor))
        (a : StakeCredential) (k : Option (DRepRow Pointer Anchor) → LedgerExec R (Unit {0}))
        → ((d : Db) → k none d ≡ writes R credential_codec drep_codec dreps_prefix a (g none) d)
        → ((row : DRepRow Pointer Anchor) (d : Db)
            → k (some row) d ≡ writes R credential_codec drep_codec dreps_prefix a (g (some row)) d)
        → (m : DReps) (d : Db) → HoldsDReps m d
        → MakesDReps (get_drep R K a >>= k) d tt (altered_drep g a m)
    unfolding get_drep
    alter_drep g a k absent present m d h =
        alter-Makes R credential_codec drep_codec dreps_prefix sound L N.credentials N.dreps g a k
          absent present m d h

    pub add_drep_makes :
        (epoch : ℕ) (c : StakeCredential) (anchor : Resettable Anchor)
        (registration : Option (DRepRegistration Pointer)) (m : DReps) (d : Db)
        → HoldsDReps m d
        → MakesDReps
            (add_drep R K epoch (c, (anchor, registration)))
            d
            tt
            (altered_drep (λ o. with_anchor anchor (registered_drep R K epoch registration o)) c m)
    unfolding add_drep registered_drep
    add_drep_makes epoch c anchor none m d h =
        alter_drep (λ o. with_anchor anchor (registered_drep R K epoch none o)) c _ (λ d'. refl)
          (λ row d'. refl) m d h
    add_drep_makes epoch c anchor (some r) m d h =
        alter_drep (λ o. with_anchor anchor (registered_drep R K epoch (some r) o)) c _ (λ d'. refl)
          (λ row d'. refl) m d h

    drep_after-kept :
        (epoch : ℕ) (anchor : Resettable Anchor) (registration : Option (DRepRegistration Pointer))
        (o : Option (DRepRow Pointer Anchor))
        → kept R credential_codec drep_codec dreps_prefix
            (with_anchor anchor (registered_drep R K epoch registration o))
            o
          ≡ drep_after epoch anchor registration o
    unfolding registered_drep drep_after
    drep_after-kept epoch anchor none none = refl
    drep_after-kept epoch anchor none (some row) = rw (set_or_reset_lem K N anchor row.anchor) refl
    drep_after-kept epoch anchor (some r) none = rw (set_or_reset_lem K N anchor none) refl
    drep_after-kept epoch anchor (some r) (some row) =
        rw (set_or_reset_lem K N anchor row.anchor) refl

    -- `add` of a drep: a registration sets deposit, start and validity, also of a drep that is
    -- known, which keeps its last deregistration; an update of a known drep sets its validity and
    -- keeps the rest; the anchor is set, cleared or kept in each case; an update of an unknown drep
    -- writes nothing. No other drep and no other column changes.
    pub add_drep_lem :
        (epoch : ℕ) (c : StakeCredential) (anchor : Resettable Anchor)
        (registration : Option (DRepRegistration Pointer)) (m : DReps) (d : Db)
        → HoldsDReps m d
        → MakesDReps (add_drep R K epoch (c, (anchor, registration))) d tt (λ a.
          if same (credential_codec.encode c) (credential_codec.encode a)
          then drep_after epoch anchor registration (m a)
          else m a)
    add_drep_lem epoch c anchor registration m d h =
        let (d', done, h', frame) = add_drep_makes epoch c anchor registration m d h in
        (
          d',
          done,
          Holds-same R credential_codec drep_codec dreps_prefix _ _ d'
              (λ a. rw (drep_after-kept epoch anchor registration (m a)) refl) h',
          frame,
        )

    pub set_valid_until_of_makes :
        (epoch : ℕ) (a : StakeCredential) (m : DReps) (d : Db)
        → HoldsDReps m d
        → MakesDReps
            (set_valid_until_of R K epoch a)
            d
            tt
            (altered_drep (with_valid_until epoch) a m)
    unfolding set_valid_until_of
    set_valid_until_of_makes epoch a m d h =
        alter_drep (with_valid_until epoch) a _ (λ d'. refl) (λ row d'. refl) m d h

    twice :
        (epoch : ℕ) (o : Option (DRepRow Pointer Anchor))
        → let now = kept R credential_codec drep_codec dreps_prefix (with_valid_until epoch o) o in
          kept R credential_codec drep_codec dreps_prefix (with_valid_until epoch now) now ≡ now
    twice epoch none = refl
    twice epoch (some row) = refl

    -- `set_valid_until` gives every listed drep that is known the new epoch, and changes nothing
    -- else.
    pub set_valid_until_lem :
        (credentials : List StakeCredential) (epoch : ℕ) (m : DReps) (d : Db)
        → HoldsDReps m d
        → MakesDReps (set_valid_until R K credentials epoch) d tt (λ c.
          if listed R credential_codec drep_codec dreps_prefix c credentials
          then with_valid_until epoch (m c)
          else m c)
    unfolding set_valid_until
    set_valid_until_lem credentials epoch m d h =
        let (d', done, h', frame) =
          for_each-Makes R credential_codec drep_codec dreps_prefix
            (altered_drep (with_valid_until epoch)) (set_valid_until_of R K epoch)
            (set_valid_until_of_makes epoch) credentials m d h in
        (
          d',
          done,
          Holds-same R credential_codec drep_codec dreps_prefix _ _ d'
              (λ c.
                steps-altered R credential_codec drep_codec dreps_prefix (with_valid_until epoch)
                  (twice epoch) credentials m c
                ∙ ground arith)
              h',
          frame,
        )

    pub mark_deregistered_makes :
        (a : StakeCredential) (pointer : Pointer) (m : DReps) (d : Db)
        → HoldsDReps m d
        → MakesDReps
            (mark_deregistered R K (a, pointer))
            d
            tt
            (altered_drep (with_deregistration pointer) a m)
    unfolding mark_deregistered
    mark_deregistered_makes a pointer m d h =
        alter_drep (with_deregistration pointer) a _ (λ d'. refl) (λ row d'. refl) m d h

    -- From protocol version 10 on, `remove` of a drep keeps its row and records when it
    -- unregistered; accounts that delegate to it are not touched.
    pub remove_drep_lem :
        (version : ProtocolVersion) (a : StakeCredential) (pointer : Pointer) (m : DReps) (d : Db)
        → up_to_version_9 version ≡ false
        → HoldsDReps m d
        → MakesDReps
            (remove_drep R K version (a, pointer))
            d
            tt
            (altered_drep (with_deregistration pointer) a m)
    unfolding remove_drep unbind_delegators
    remove_drep_lem version a pointer m d later h =
        let (d', done, h', frame) = mark_deregistered_makes a pointer m d h in
        (
          d',
          then_ok (unbind_delegators R K version a pointer) _ d (rw later refl) ∙ done,
          h',
          frame,
        )

    -- A delegation to a drep is recorded exactly if the drep is known and has not unregistered
    -- since.
    pub add_delegation_lem :
        (delegator drep : StakeCredential) (since : Pointer) (m : DReps) (d : Db)
        → HoldsDReps m d
        → add_delegation_to R K delegator drep since d
          ≡ elim (m drep) as (λ _. Result (LedgerError R.Error) (Unit {0}) × Db) [
            | none ↦ (ok tt, d)
            | some row ↦ (
              ok tt,
              if unregistered_since R K since row
                  then d
                  else R.write d (new_key R K drep delegator) [],
            )
          ]
    unfolding add_delegation_to get_drep
    add_delegation_lem delegator drep since m d h =
        bind_ok (get_drep R K drep) _ d
          (get_row_ok R credential_codec drep_codec dreps_prefix sound L N.dreps drep m d h)
        ∙ elim (Option-cases (m drep)) [
          | inl e ↦ rw e refl
          | inr (row, e) ↦ elim (Bool-cases (unregistered_since R K since row)) [
            | inl q ↦ rw (e, q) refl
            | inr q ↦ rw (e, q) (put_ok R internal sound (new_key R K drep delegator) [] d)
          ]
        ]
