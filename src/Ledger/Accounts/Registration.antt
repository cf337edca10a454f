-- ===== src/Ledger/Accounts/Registration.antt =====
-- `add`: registration and delegation of an account, branch by branch.
use amaru_wear.Prelude.{
  ◌≡◌, ◌≢◌, ◌↔◌, ◌⊎◌, refl, ◌∙◌, true, false, Option, none, some, Option-cases, Bool-cases, inl,
  inr, [], arith, ok, panic, if◌then◌else◌, pure, bind_ok, then_ok,
}
use amaru_wear.Bytes.{Bytes, same, same_iff, starts_with}
use amaru_wear.RocksDb.{RocksDb, IsLawful, IsReliable, delete_ok}
use amaru_wear.Ledger.{
  AccountValue, LedgerKernel, IsLedgerKernel, StakeCredential, addr_keyhash, script_hash, DRep, key,
  script, abstain, no_confidence, Resettable, internal, accounts_prefix, dreps_delegations_prefix,
  as_key,
}
use amaru_wear.Ledger.Changes.{replaced-none, or_before, set_or_reset_lem}
use amaru_wear.Ledger.Accounts.Changed.{
  new_account, account_after, drep_before, delegates_to_none, is_predefined_lem, reported, records,
  forgotten,
}
use amaru_wear.Ledger.Column.{updated, get_row_ok, put_row-Makes}
use amaru_wear.Ledger.Delegations.{drep_credential, delegation_prefix, new_key, remove_delegation}
use amaru_wear.Ledger.Accounts.{
  Row, get_account, put_account, delegated, registered, past_delegation, add_account,
}
use amaru_wear.Ledger.Accounts.Laws.{Accounts, HoldsAccounts}

module _ (R : RocksDb) (K : LedgerKernel) where
  open R use {Db, content}
  open K use {Pool, Pointer, ProtocolVersion, up_to_version_9, credential_codec, account_codec}

  abbrev with_previous :
      Option (DRep × Pointer) → Option (Row R K) → Option (Row R K × Option (DRep × Pointer))
  with_previous previous none = none
  with_previous previous (some row) = some (row, previous)

  starts_with-new_key :
      (drep c : StakeCredential) → starts_with dreps_delegations_prefix (new_key R K drep c) ≡ true
  unfolding new_key delegation_prefix starts_with
  starts_with-new_key drep c = refl

  not_a_delegation :
      (a : StakeCredential)
      → starts_with dreps_delegations_prefix (as_key credential_codec accounts_prefix a) ≡ false
  unfolding as_key starts_with
  not_a_delegation a = refl

  apart :
      (drep c a : StakeCredential)
      → same (new_key R K drep c) (as_key credential_codec accounts_prefix a) ≡ false
  apart drep c a = ground (
    arith,
    same_iff (new_key R K drep c) (as_key credential_codec accounts_prefix a),
    starts_with-new_key drep c,
    not_a_delegation a,
  )

  -- The key of a delegation is no account's.
  not_recorded :
      (drep : DRep) (c a : StakeCredential)
      → records R K drep c (as_key credential_codec accounts_prefix a) ≡ false
  unfolding records
  not_recorded (key hash) c a = apart (addr_keyhash hash) c a
  not_recorded (script hash) c a = apart (script_hash hash) c a
  not_recorded abstain c a = refl
  not_recorded no_confidence c a = refl

  not_forgotten :
      (version : ProtocolVersion) (c : StakeCredential) (drep : Resettable (DRep × Pointer))
      (previous : Option (DRep × Pointer)) (a : StakeCredential)
      → forgotten R K version c drep previous (as_key credential_codec accounts_prefix a) ≡ false
  unfolding forgotten
  not_forgotten version c drep none a = refl
  not_forgotten version c drep (some (previous, since)) a =
      ground (arith, not_recorded previous c a)

  registered-none :
      (r : AccountValue K.Pool K.Pointer) (o : Option (Row R K))
      → (registered R K r o ≡ none) ↔ ((o ≡ none) × (r.deposit ≡ none))
  unfolding registered
  registered-none r none = ground arith
  registered-none r (some row) = ground arith

  module _ (sound : IsReliable R) (L : IsLawful R) (N : IsLedgerKernel K) where
    erased :
        (credential c : StakeCredential) (d : Db) (j : Bytes)
        → content (R.erase d (new_key R K credential c)) j
          ≡ (if same (new_key R K credential c) j then none else content d j)
    erased credential c d j = L.content-erase d (new_key R K credential c) j

    -- The removal of a past delegation.
    remove_delegation_lem :
        (drep : DRep) (c : StakeCredential) (d : Db)
        → (d' : Db) × (remove_delegation R K drep c d ≡ (ok tt, d'))
          × ((j : Bytes) → content d' j ≡ (if records R K drep c j then none else content d j))
    unfolding remove_delegation drep_credential records
    remove_delegation_lem (key hash) c d =
        (_, delete_ok R internal sound _ d, erased (addr_keyhash hash) c d)
    remove_delegation_lem (script hash) c d =
        (_, delete_ok R internal sound _ d, erased (script_hash hash) c d)
    remove_delegation_lem abstain c d = (d, refl, λ j. refl)
    remove_delegation_lem no_confidence c d = (d, refl, λ j. refl)

    past_delegation_lem :
        (version : ProtocolVersion) (c : StakeCredential) (r : AccountValue K.Pool K.Pointer)
        (previous : Option (DRep × Pointer)) (d : Db)
        → (d' : Db) × (past_delegation R K version c r previous d
            ≡ (ok (reported R K version c r.drep previous), d'))
          × ((j : Bytes)
              → content d' j
                ≡ (if forgotten R K version c r.drep previous j then none else content d j))
    unfolding past_delegation reported forgotten
    past_delegation_lem version c r none d = (d, refl, λ j. refl)
    past_delegation_lem version c r (some (drep, since)) d =
        elim (Bool-cases (up_to_version_9 version)) [
          | inl v ↦
              rw (is_predefined_lem R K r.drep) (elim (Bool-cases (delegates_to_none R K r.drep)) [
                | inl q ↦
                    let (d', done, frame) = remove_delegation_lem drep c d in
                    (
                      d',
                      rw (v, q) (then_ok (remove_delegation R K drep c) (pure []) d done),
                      λ j. rw (v, q) (frame j),
                    )
                | inr q ↦ (d, rw (v, q) refl, λ j. rw (v, q) refl)
              ])
          | inr v ↦ (d, rw v refl, λ j. rw v refl)
        ]

    registered_lem :
        (r : AccountValue K.Pool K.Pointer) (o : Option (Row R K))
        → registered R K r o ≡ with_previous (drep_before R K r o) (account_after R K r o)
    unfolding registered delegated account_after drep_before or_before
    registered_lem r none = elim (Option-cases r.deposit) [
      | inl e ↦ rw e refl
      | inr (deposit, e) ↦
          rw
            (
              e,
              set_or_reset_lem K N r.pool none,
              set_or_reset_lem K N r.drep none,
              replaced-none r.drep,
            )
            refl
    ]
    registered_lem r (some row) = elim (Option-cases r.deposit) [
      | inl e ↦
          rw (e, set_or_reset_lem K N r.pool row.pool, set_or_reset_lem K N r.drep row.drep) refl
      | inr (deposit, e) ↦
          rw (e, set_or_reset_lem K N r.pool row.pool, set_or_reset_lem K N r.drep row.drep) refl
    ]

    add_account_writes :
        (version : ProtocolVersion) (c : StakeCredential) (r : AccountValue K.Pool K.Pointer)
        (m : Accounts R K) (d : Db) (row : Row R K) (previous : Option (DRep × Pointer))
        → HoldsAccounts R K m d
        → registered R K r (m c) ≡ some (row, previous)
        → (d' : Db) × (add_account R K version c r d
            ≡ (ok (reported R K version c r.drep previous), d'))
          × HoldsAccounts R K
              (updated R credential_codec account_codec accounts_prefix c (some row) m)
              d'
          × ((j : Bytes)
              → starts_with accounts_prefix j ≡ false
              → content d' j
                ≡ (if forgotten R K version c r.drep previous j then none else content d j))
    unfolding add_account get_account
    add_account_writes version c r m d row previous h allowed =
        let (d₁, done, h₁, frame₁) =
          put_row-Makes R credential_codec account_codec accounts_prefix sound L N.accounts c row m
            d h in
        let (d₂, rest, frame₂) = past_delegation_lem version c r previous d₁ in
        (
          d₂,
          bind_ok (get_account R K c) _ d (
                get_row_ok R credential_codec account_codec accounts_prefix sound L N.accounts c m d
                  h)
              ∙ rw allowed (
                  then_ok (put_account R K c row) (past_delegation R K version c r previous) d done
                  ∙ rest),
          record {
            at_key = λ a.
                frame₂ (as_key credential_codec accounts_prefix a)
                ∙ rw (not_forgotten version c r.drep previous a) (h₁.at_key a);
          },
          λ j other. frame₂ j ∙ rw (frame₁ j other) refl,
        )

    account_after-some :
        (r : AccountValue K.Pool K.Pointer) (o : Option (Row R K))
        → (o ≢ none) ⊎ (r.deposit ≢ none)
        → (row : Row R K) × (account_after R K r o ≡ some row)
    unfolding account_after
    account_after-some r none may = elim (Option-cases r.deposit) [
      | inl e ↦ ground arith
      | inr (deposit, e) ↦ (new_account R K r deposit, rw e refl)
    ]
    account_after-some r (some row) may = (_, refl)

    -- `add` of a credential that has an account, or with a deposit: pool and drep are set, cleared
    -- or kept, the deposit is the one given or else kept, the rewards of an account stay and those
    -- of a new one are the given ones. Up to protocol version 9 the drep that is replaced is
    -- reported, unless the new one is a predefined drep: then the key of the delegation to the
    -- replaced one is removed. No other account and no other key changes.
    pub add_account_lem :
        (version : ProtocolVersion) (c : StakeCredential) (r : AccountValue K.Pool K.Pointer)
        (m : Accounts R K) (d : Db)
        → HoldsAccounts R K m d
        → (m c ≢ none) ⊎ (r.deposit ≢ none)
        → (d' : Db) × (add_account R K version c r d
            ≡ (ok (reported R K version c r.drep (drep_before R K r (m c))), d'))
          × HoldsAccounts R K
              (updated R credential_codec account_codec accounts_prefix c
                (account_after R K r (m c))
                m)
              d'
          × ((j : Bytes)
              → starts_with accounts_prefix j ≡ false
              → content d' j ≡ (
                  if forgotten R K version c r.drep (drep_before R K r (m c)) j
                  then none
                  else content d j))
    add_account_lem version c r m d h may =
        let (row, e) = account_after-some r (m c) may in
        rw e (
          add_account_writes version c r m d row (drep_before R K r (m c)) h
            (registered_lem r (m c) ∙ rw e refl))

    -- `add` panics, and writes nothing, exactly if the account does not exist and no deposit is given.
    pub add_account_panic :
        (version : ProtocolVersion) (c : StakeCredential) (r : AccountValue K.Pool K.Pointer)
        (m : Accounts R K) (d : Db)
        → HoldsAccounts R K m d
        → (add_account R K version c r d ≡ (panic, d)) ↔ ((m c ≡ none) × (r.deposit ≡ none))
    unfolding add_account get_account
    add_account_panic version c r m d h =
        let read = bind_ok (get_account R K c) _ d (
          get_row_ok R credential_codec account_codec accounts_prefix sound L N.accounts c m d h) in
        elim (Option-cases (registered R K r (m c))) [
          | inl e ↦ (λ _. (registered-none r (m c)).0 e, λ _. read ∙ rw e refl)
          | inr ((row, previous), e) ↦
              let (d', done, h', frame) = add_account_writes version c r m d row previous h e in
              (λ q. ground (arith, done), λ q. ground (arith, (registered-none r (m c)).1 q))
        ]
