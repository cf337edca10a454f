-- ===== src/Ledger/Accounts/Laws.antt =====
-- What the operations on accounts do to the map from credentials to accounts.
use amaru_wear.Prelude.{
  ℕ, ◌≡◌, refl, ◌∙◌, Bool, Option, none, some, Option-cases, ◌⊎◌, inl, inr, List, arith, ok,
  if◌then◌else◌, ◌>>=◌, bind_ok, then_ok,
}
use amaru_wear.RocksDb.{RocksDb, IsLawful, IsReliable, delete}
use amaru_wear.Ledger.{
  LedgerKernel, IsLedgerKernel, StakeCredential, LedgerExec, internal, accounts_prefix,
}
use amaru_wear.Ledger.Column.{
  updated, Holds, Holds-same, Makes, get_row_ok, put_row-Makes, delete-Makes, for_each-Makes,
  altered, kept, writes, alter-Makes,
}
use amaru_wear.Ledger.Column.Loops.{listed, steps-removed, steps-altered}
use amaru_wear.Ledger.Accounts.{
  Row, account_key, get_account, reset_row, reset_many, set_account, remove_accounts,
}

module _ (R : RocksDb) (K : LedgerKernel) where
  open R use {Db}
  open K use {credential_codec, account_codec}

  abbrev pub Accounts : Type 0
  Accounts = StakeCredential → Option (Row R K)

  -- The accounts that a database holds, and what an action makes of them.
  abbrev pub HoldsAccounts : Accounts → Db → Type 0
  HoldsAccounts m d = Holds R credential_codec account_codec accounts_prefix m d

  abbrev pub MakesAccounts : {X : Type 0} → LedgerExec R X → Db → X → Accounts → Type 0
  MakesAccounts action d x m = Makes R credential_codec account_codec accounts_prefix action d x m

  abbrev pub is_listed : StakeCredential → List StakeCredential → Bool
  is_listed = listed R credential_codec account_codec accounts_prefix

  abbrev pub mapped : (Row R K → Row R K) → Option (Row R K) → Option (Row R K)
  mapped f none = none
  mapped f (some row) = some (f row)

  abbrev pub without_rewards : Row R K → Row R K
  without_rewards row = record row { rewards = 0 }

  module _ (sound : IsReliable R) (L : IsLawful R) (N : IsLedgerKernel K) where
    pub alter :
        (g : Option (Row R K) → Option (Row R K)) (a : StakeCredential)
        (k : Option (Row R K) → LedgerExec R (Unit {0}))
        → ((d : Db)
            → k none d ≡ writes R credential_codec account_codec accounts_prefix a (g none) d)
        → ((row : Row R K) (d : Db)
            → k (some row) d
              ≡ writes R credential_codec account_codec accounts_prefix a (g (some row)) d)
        → (m : Accounts) (d : Db) → HoldsAccounts m d
        → MakesAccounts
            (get_account R K a >>= k)
            d
            tt
            (altered R credential_codec account_codec accounts_prefix g a m)
    unfolding get_account
    alter g a k absent present m d h =
        alter-Makes R credential_codec account_codec accounts_prefix sound L N.credentials
          N.accounts g a k absent present m d h

    twice :
        (o : Option (Row R K))
        → let now =
            kept R credential_codec account_codec accounts_prefix (mapped without_rewards o) o in
          kept R credential_codec account_codec accounts_prefix (mapped without_rewards now) now
          ≡ now
    twice none = refl
    twice (some row) = refl

    reset_row_makes :
        (a : StakeCredential) (m : Accounts) (d : Db)
        → HoldsAccounts m d
        → MakesAccounts
            (reset_row R K a)
            d
            tt
            (altered R credential_codec account_codec accounts_prefix (mapped without_rewards) a m)
    unfolding reset_row
    reset_row_makes a m d h = alter (mapped without_rewards) a _ (λ d'. refl) (λ row d'. refl) m d h

    -- `reset_many` sets the rewards of every listed account to zero, creates no account, and changes
    -- neither another account nor another column.
    pub reset_many_lem :
        (rows : List StakeCredential) (m : Accounts) (d : Db)
        → HoldsAccounts m d
        → MakesAccounts
            (reset_many R K rows)
            d
            tt
            (λ c. if is_listed c rows then mapped without_rewards (m c) else m c)
    unfolding reset_many
    reset_many_lem rows m d h =
        let (d', done, h', frame) =
          for_each-Makes R credential_codec account_codec accounts_prefix
            (altered R credential_codec account_codec accounts_prefix (mapped without_rewards))
            (reset_row R K) reset_row_makes rows m d h in
        (
          d',
          done,
          Holds-same R credential_codec account_codec accounts_prefix _ _ d'
              (λ c.
                steps-altered R credential_codec account_codec accounts_prefix
                  (mapped without_rewards) twice rows m c
                ∙ ground arith)
              h',
          frame,
        )

    -- `remove` deletes every listed account, and nothing else.
    pub remove_accounts_lem :
        (rows : List StakeCredential) (m : Accounts) (d : Db)
        → HoldsAccounts m d
        → MakesAccounts
            (remove_accounts R K rows)
            d
            tt
            (λ c. if is_listed c rows then none else m c)
    unfolding remove_accounts
    remove_accounts_lem rows m d h =
        let (d', done, h', frame) =
          for_each-Makes R credential_codec account_codec accounts_prefix
            (λ a m. updated R credential_codec account_codec accounts_prefix a none m)
            (λ a. delete R internal (account_key R K a))
            (delete-Makes R credential_codec account_codec accounts_prefix sound L N.accounts) rows
            m d h in
        (
          d',
          done,
          Holds-same R credential_codec account_codec accounts_prefix _ _ d'
              (steps-removed R credential_codec account_codec accounts_prefix rows m) h',
          frame,
        )

    -- `set` changes the rewards of an existing account by the function and returns 0; for an account
    -- that does not exist it writes nothing and returns what the account would have got.
    pub set_account_lem :
        (c : StakeCredential) (with_rewards : ℕ → ℕ) (m : Accounts) (d : Db)
        → HoldsAccounts m d
        → ((m c ≡ none) × (set_account R K c with_rewards d ≡ (ok (with_rewards 0), d)))
          ⊎ ((row : Row R K) × (m c ≡ some row)
              × MakesAccounts (set_account R K c with_rewards) d 0 (
                  updated R credential_codec account_codec accounts_prefix c
                    (some (record row { rewards = with_rewards row.rewards }))
                    m))
    unfolding set_account get_account
    set_account_lem c with_rewards m d h =
        let read = bind_ok (get_account R K c) _ d (
          get_row_ok R credential_codec account_codec accounts_prefix sound L N.accounts c m d h) in
        elim (Option-cases (m c)) [
          | inl e ↦ inl (e, read ∙ rw e refl)
          | inr (row, e) ↦
              let (d', done, h', frame) =
                put_row-Makes R credential_codec account_codec accounts_prefix sound L N.accounts c
                  (record row { rewards = with_rewards row.rewards }) m d h in
              inr (row, e, (d', read ∙ rw e (then_ok _ _ d done), h', frame))
        ]
