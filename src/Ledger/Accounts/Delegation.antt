-- ===== src/Ledger/Accounts/Delegation.antt =====
-- `reset_delegation`: which accounts lose their drep.
use amaru_wear.Prelude.{
  ◌≡◌, refl, ◌∙◌, Bool, false, ◌&&◌, ◌||◌, not, Option, none, some, Option-cases, Bool-cases, inl,
  inr, List, [], ◌∷◌, arith, if◌then◌else◌,
}
use amaru_wear.Bytes.{same}
use amaru_wear.RocksDb.{RocksDb, IsLawful, IsReliable}
use amaru_wear.Ledger.{LedgerKernel, IsLedgerKernel, StakeCredential, DRep, accounts_prefix}
use amaru_wear.Ledger.Column.{Holds-same, steps, for_each-Makes, altered}
use amaru_wear.Ledger.Accounts.{Row, delegated_after, reset_delegation_row, reset_delegation}
use amaru_wear.Ledger.Accounts.Laws.{Accounts, HoldsAccounts, MakesAccounts, alter}

module _ (R : RocksDb) (K : LedgerKernel) where
  open K use {Pointer, later, credential_codec, account_codec}

  abbrev pub without_drep : Row R K → Row R K
  without_drep row = record row { drep = none }

  -- Whether a delegation was made later than a point in the chain.
  unfoldable pub outlasts : Pointer → Option (DRep × Pointer) → Bool
  outlasts p none = false
  outlasts p (some (drep, since)) = later since p

  delegated_after-outlasts :
      (p : Pointer) (row : Row R K) → delegated_after R K p row ≡ outlasts p row.drep
  unfolding delegated_after outlasts
  delegated_after-outlasts p row = elim (Option-cases row.drep) [
    | inl e ↦ rw e refl
    | inr ((drep, since), e) ↦ rw e refl
  ]

  -- Whether one of the drep's unregistrations that concern a credential ends the row's delegation.
  unfoldable pub ended : StakeCredential → Row R K → List (StakeCredential × Pointer) → Bool
  ended c row [] = false
  ended c row ((a, unregistered_at) ∷ rows) =
      (same (credential_codec.encode a) (credential_codec.encode c)
        && not (outlasts unregistered_at row.drep))
      || ended c row rows

  abbrev pub after_reset :
      List (StakeCredential × Pointer) → StakeCredential → Option (Row R K) → Option (Row R K)
  after_reset rows c none = none
  after_reset rows c (some row) = some (if ended c row rows then without_drep row else row)

  -- The write of one row: none if the account has delegated again.
  abbrev cleared : Pointer → Option (Row R K) → Option (Row R K)
  cleared p none = none
  cleared p (some row) = if outlasts p row.drep then none else some (without_drep row)

  abbrev clear : StakeCredential × Pointer → Accounts R K → Accounts R K
  clear x m = altered R credential_codec account_codec accounts_prefix (cleared x.1) x.0 m

  -- Without a drep there is no delegation to keep.
  no_drep : (p : Pointer) (row : Row R K) → outlasts p (without_drep row).drep ≡ false
  unfolding outlasts
  no_drep p row = refl

  ended_twice :
      (rows : List (StakeCredential × Pointer)) (c : StakeCredential) (row : Row R K)
      → after_reset rows c (some (without_drep row)) ≡ some (without_drep row)
  ended_twice rows c row = ground arith

  steps-clear :
      (rows : List (StakeCredential × Pointer)) (m : Accounts R K) (c : StakeCredential)
      → steps R credential_codec account_codec accounts_prefix clear rows m c
        ≡ after_reset rows c (m c)
  unfolding steps ended
  steps-clear [] m c = elim (Option-cases (m c)) [ inl e ↦ rw e refl | inr (row, e) ↦ rw e refl ]
  steps-clear ((a, p) ∷ rows) m c =
      steps-clear rows (clear (a, p) m) c ∙ elim (Option-cases (m c)) [
        | inl e ↦
            rw e (elim (Bool-cases (same (credential_codec.encode a) (credential_codec.encode c))) [
              | inl s ↦ rw s refl
              | inr s ↦ rw s refl
            ])
        | inr (row, e) ↦
            rw e (elim (Bool-cases (same (credential_codec.encode a) (credential_codec.encode c))) [
              | inl s ↦ elim (Bool-cases (outlasts p row.drep)) [
                | inl q ↦ rw (s, q) refl
                | inr q ↦ rw (s, q) (ended_twice rows c row)
              ]
              | inr s ↦ rw s refl
            ])
      ]

  module _ (sound : IsReliable R) (L : IsLawful R) (N : IsLedgerKernel K) where
    reset_delegation_row_makes :
        (x : StakeCredential × Pointer) (m : Accounts R K) (d : R.Db)
        → HoldsAccounts R K m d
        → MakesAccounts R K (reset_delegation_row R K x) d tt (clear x m)
    unfolding reset_delegation_row
    reset_delegation_row_makes (a, p) m d h =
        alter R K sound L N (cleared p) a _ (λ d'. refl)
          (λ row d'.
            rw (delegated_after-outlasts p row)
              (elim (Bool-cases (outlasts p row.drep)) [ inl q ↦ rw q refl | inr q ↦ rw q refl ]))
          m d h

    -- After `reset_delegation` an account is without a drep if one of the listed unregistrations
    -- concerns it and its delegation is not later than that; all else is as before.
    pub reset_delegation_lem :
        (rows : List (StakeCredential × Pointer)) (m : Accounts R K) (d : R.Db)
        → HoldsAccounts R K m d
        → MakesAccounts R K (reset_delegation R K rows) d tt (λ c. after_reset rows c (m c))
    unfolding reset_delegation
    reset_delegation_lem rows m d h =
        let (d', done, h', frame) =
          for_each-Makes R credential_codec account_codec accounts_prefix clear
            (reset_delegation_row R K) reset_delegation_row_makes rows m d h in
        (
          d',
          done,
          Holds-same R credential_codec account_codec accounts_prefix _ _ d' (steps-clear rows m)
              h',
          frame,
        )
