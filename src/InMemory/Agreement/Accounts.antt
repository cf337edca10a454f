-- ===== src/InMemory/Agreement/Accounts.antt =====
-- The accounts of the store in memory, rust/patches/amaru-stores/src/in_memory/ledger/columns/accounts.rs
-- and `refund` of in_memory/mod.rs, beside those of the ledger store.
use amaru_wear.Prelude.{
  ℕ, ◌+◌, ◌%◌, ◌^◌, ◌<◌, ◌≡◌, refl, subst, ap, ◌∙◌, Option, none, some, arith, ok, Option-cases,
  inl, inr,
}
use amaru_wear.RocksDb.{RocksDb, IsLawful, IsReliable}
use amaru_wear.Map.{modify}
use amaru_wear.Map.Laws.{modified}
use amaru_wear.Ledger.{
  LedgerKernel, IsLedgerKernel, StakeCredential, DRep, Account, AccountValue, accounts_prefix,
}
use amaru_wear.Ledger.Column.{updated}
use amaru_wear.Ledger.Accounts.{registered, delegated}
use amaru_wear.Ledger.Accounts.Laws.{Accounts, HoldsAccounts, set_account_lem}
use amaru_wear.Ledger.Governance.{GovernanceKernel}
use amaru_wear.Ledger.Transactions.{refund}
use amaru_wear.InMemory.{MemoryKernel, MemoryStore}
use amaru_wear.InMemory.Columns.{or_kept, or_new_account, account_row}
use amaru_wear.InMemory.Context.{refund_account}
use amaru_wear.InMemory.Agreement.{Agrees, modify-Agrees}
use amaru_wear.InMemory.Agreement.Columns.{IsMemoryKernel}

module _ (R : RocksDb) (K : LedgerKernel) (G : GovernanceKernel K) (Q : MemoryKernel K G) where
  open R use {Db}
  open K use {Pool, Pointer, credential_codec, account_codec}

  -- An account that does not exist yet has, in memory, its deposit where the ledger store has its
  -- rewards, and its rewards where that has the deposit; what it delegates to is the same.
  pub account_row-registered :
      (value : AccountValue Pool Pointer) (row : Account Pool Pointer)
      (previous : Option (DRep × Pointer))
      → registered R K value none ≡ some (row, previous)
      → account_row K G Q value none ≡ record row { deposit = row.rewards; rewards = row.deposit }
  unfolding registered delegated account_row or_new_account or_kept
  account_row-registered value row previous h = elim (Option-cases value.deposit) [
    | inl e ↦ let gone : registered R K value none ≡ none = rw (e, registered) refl in cc
    | inr (deposit, e) ↦
        let new =
          delegated R K value
            (record { pool = none; drep = none; deposit = deposit; rewards = value.rewards }) in
        let is_new : registered R K value none ≡ some new = rw (e, registered) refl in
        let one : new.0 ≡ row = cc in
        subst
          (λ (row : Account Pool Pointer).
            account_row K G Q value none
            ≡ record row { deposit = row.rewards; rewards = row.deposit })
          one (rw (e, or_kept) refl)
  ]

  abbrev paid : ℕ → Account Pool Pointer → Account Pool Pointer
  paid deposit row = record row { rewards = (row.rewards + deposit) % 2 ^ 64 }

  module _ (sound : IsReliable R) (L : IsLawful R) (N : IsLedgerKernel K)
      (M : IsMemoryKernel Q) where
    -- A refund of less than 2 ^ 64 to two stores whose accounts agree returns the same from both,
    -- and leaves accounts that agree.
    pub refund-refund_account :
        (credential : StakeCredential) (deposit : ℕ) (m : Accounts R K) (d : Db)
        (s : MemoryStore K G)
        → deposit < 2 ^ 64
        → HoldsAccounts R K m d
        → Agrees Q.credential_order s.accounts m
        → (left : ℕ) × (m' : Accounts R K) × (d' : Db) × (s' : MemoryStore K G) × (refund R K
              credential deposit d
            ≡ (ok left, d'))
          × (refund_account K G Q credential deposit s ≡ (ok left, s'))
          × HoldsAccounts R K m' d'
          × Agrees Q.credential_order s'.accounts m'
    unfolding refund refund_account
    refund-refund_account credential deposit m d s small h agrees =
        elim (set_account_lem R K sound L N credential (λ balance. (balance + deposit) % 2 ^ 64) m d
          h) [
            | inl (e, run) ↦ (
              deposit,
              m,
              d,
              s,
              run ∙ ap (λ n. (ok n, d)) (omega arith),
              rw (agrees.at_key credential ∙ e, refund_account) refl,
              h,
              agrees,
            )
            | inr (row, e, (d', run, h', frame)) ↦
                let s' = record s {
                  accounts = modify Q.credential_order (paid deposit) credential s.accounts;
                } in
                (
                  0,
                  _,
                  d',
                  s',
                  run,
                  rw (agrees.at_key credential ∙ e, refund_account) refl,
                  h',
                  subst
                      (λ o. Agrees Q.credential_order s'.accounts (
                        updated R credential_codec account_codec accounts_prefix credential
                          (modified Q.credential_order M.credentials (paid deposit) o) m))
                      e
                      (modify-Agrees Q.credential_order M.credentials R credential_codec
                        N.credentials account_codec accounts_prefix (paid deposit) credential
                        s.accounts m agrees),
                )
          ]
