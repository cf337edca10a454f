-- ===== src/Ledger/Accounts/Later.antt =====
-- `add` of accounts from protocol version 10 on, where no past delegation is kept.
use amaru_wear.Prelude.{
  ◌≡◌, ◌≢◌, refl, subst, sym, ◌∙◌, false, Option, none, some, Option-cases, Bool-cases, inl, inr,
  List, [], ◌∷◌, arith, ok, All, bind_ok, then_ok,
}
use amaru_wear.Bytes.{same}
use amaru_wear.RocksDb.{RocksDb, IsLawful, IsReliable}
use amaru_wear.Ledger.{
  AccountValue, LedgerKernel, IsLedgerKernel, StakeCredential, DRep, accounts_prefix,
}
use amaru_wear.Ledger.Column.{updated, steps, get_row_ok, put_row-Makes}
use amaru_wear.Ledger.Accounts.{
  Row, get_account, put_account, registered, past_delegation, add_account, add_accounts,
}
use amaru_wear.Ledger.Accounts.Laws.{Accounts, HoldsAccounts, MakesAccounts}

module _ (R : RocksDb) (K : LedgerKernel) where
  open R use {Db}
  open K use {Pointer, ProtocolVersion, up_to_version_9, credential_codec, account_codec}

  -- The row that `add` writes, if it may.
  abbrev pub registered_row : AccountValue K.Pool K.Pointer → Option (Row R K) → Option (Row R K)
  registered_row r o = elim (registered R K r o) [ none ↦ none | some (row, previous) ↦ some row ]

  -- The accounts after `add` of a list.
  abbrev pub accounts_added :
      List (StakeCredential × AccountValue K.Pool K.Pointer) → Accounts R K → Accounts R K
  accounts_added =
      steps R credential_codec account_codec accounts_prefix
        (λ (x : StakeCredential × AccountValue K.Pool K.Pointer) m.
          updated R credential_codec account_codec accounts_prefix x.0 (registered_row x.1 (m x.0))
            m)

  -- Each credential has an account already, or comes with a deposit.
  abbrev pub MayRegister :
      Accounts R K → List (StakeCredential × AccountValue K.Pool K.Pointer) → Type 0
  MayRegister m rows =
      All
        (λ (x : StakeCredential × AccountValue K.Pool K.Pointer). registered R K x.1 (m x.0) ≢ none)
        rows

  registered-ne-none :
      (r : AccountValue K.Pool K.Pointer) (o : Option (Row R K))
      → o ≢ none
      → registered R K r o ≢ none
  unfolding registered
  registered-ne-none r none n e = n refl
  registered-ne-none r (some row) n e = ground (arith, e)

  MayRegister-updated :
      (m : Accounts R K) (c : StakeCredential) (row : Row R K)
      (rows : List (StakeCredential × AccountValue K.Pool K.Pointer))
      → MayRegister m rows
      → MayRegister (updated R credential_codec account_codec accounts_prefix c (some row) m) rows
  MayRegister-updated m c row [] h = tt
  MayRegister-updated m c row (x ∷ rows) h = (
    elim (Bool-cases (same (credential_codec.encode c) (credential_codec.encode x.0))) [
      | inl e ↦ rw e (registered-ne-none x.1 (some row) (λ q. cc))
      | inr e ↦ rw e h.0
    ],
    MayRegister-updated m c row rows h.1,
  )

  module _ (sound : IsReliable R) (L : IsLawful R) (N : IsLedgerKernel K)
      (version : ProtocolVersion) (later : up_to_version_9 version ≡ false) where
    no_past_delegation :
        (c : StakeCredential) (r : AccountValue K.Pool K.Pointer)
        (previous : Option (DRep × Pointer)) (d : Db)
        → past_delegation R K version c r previous d ≡ (ok [], d)
    unfolding past_delegation
    no_past_delegation c r none d = refl
    no_past_delegation c r (some previous) d = rw later refl

    add_account_later :
        (c : StakeCredential) (r : AccountValue K.Pool K.Pointer) (m : Accounts R K) (d : Db)
        → HoldsAccounts R K m d
        → registered R K r (m c) ≢ none
        → (row : Row R K) × (registered_row r (m c) ≡ some row)
          × MakesAccounts R K
              (add_account R K version c r)
              d
              []
              (updated R credential_codec account_codec accounts_prefix c (some row) m)
    unfolding add_account get_account
    add_account_later c r m d h may = elim (Option-cases (registered R K r (m c))) [
      | inl e ↦ absurd (may e)
      | inr ((row, previous), e) ↦
          let (d', done, h', frame) =
            put_row-Makes R credential_codec account_codec accounts_prefix sound L N.accounts c row
              m d h in
          (
            row,
            rw (e, registered_row) refl,
            (
              d',
              bind_ok (get_account R K c) _ d (
                    get_row_ok R credential_codec account_codec accounts_prefix sound L N.accounts c
                      m d h)
                  ∙ rw e (
                      then_ok (put_account R K c row) (past_delegation R K version c r previous) d
                        done
                      ∙ no_past_delegation c r previous d'),
              h',
              frame,
            ),
          )
    ]

    -- From protocol version 10 on, `add` of accounts that may be registered writes, one after the
    -- other, the row that the changes give, reports no past delegation and changes nothing else.
    pub add_accounts_later :
        (rows : List (StakeCredential × AccountValue K.Pool K.Pointer)) (m : Accounts R K) (d : Db)
        → HoldsAccounts R K m d
        → MayRegister m rows
        → MakesAccounts R K (add_accounts R K version rows) d [] (accounts_added rows m)
    unfolding add_accounts steps
    add_accounts_later [] m d h may = (d, refl, h, λ j other. refl)
    add_accounts_later ((c, r) ∷ rows) m d h may =
        let (row, is_row, (d₁, done, h₁, frame₁)) = add_account_later c r m d h may.0 in
        let (d₂, rest, h₂, frame₂) =
          add_accounts_later rows
            (updated R credential_codec account_codec accounts_prefix c (some row) m) d₁ h₁
            (MayRegister-updated m c row rows may.1) in
        (
          d₂,
          bind_ok (add_account R K version c r) _ d done
              ∙ bind_ok (add_accounts R K version rows) _ d₁ rest,
          subst
              (λ o.
                HoldsAccounts R K
                  (accounts_added rows
                    (updated R credential_codec account_codec accounts_prefix c o m))
                  d₂)
              (sym is_row) h₂,
          λ j other. frame₂ j other ∙ frame₁ j other,
        )
