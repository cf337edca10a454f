-- ===== src/Ledger/Tests/Accounts.antt =====
-- The theorems on accounts and dreps, on stores with one row.
use amaru_wear.Prelude.{
  ℕ, ◌≡◌, refl, true, false, Bool-cases, inl, inr, Option, none, some, [], ◌∷◌, ok, if◌then◌else◌,
}
use amaru_wear.Bytes.{Bytes, same, starts_with}
use amaru_wear.RocksDb.{lookup}
use amaru_wear.RocksDb.Memory.{Entries, memory, memory-IsReliable, memory-IsLawful}
use amaru_wear.Ledger.{
  AccountValue, StakeCredential, addr_keyhash, key, abstain, set, unchanged, Account, DRepRow,
  accounts_prefix, dreps_prefix, as_key,
}
use amaru_wear.Ledger.Column.{updated}
use amaru_wear.Ledger.Delegations.{into_next_prefix, new_key}
use amaru_wear.Ledger.Delegations.Range.{into_next_prefix_lem, into_next_prefix_too_far}
use amaru_wear.Ledger.Accounts.{reset_delegation, add_account}
use amaru_wear.Ledger.Accounts.Laws.{HoldsAccounts, MakesAccounts}
use amaru_wear.Ledger.Accounts.Delegation.{after_reset, reset_delegation_lem}
use amaru_wear.Ledger.Accounts.Registration.{add_account_lem}
use amaru_wear.Ledger.Changes.{after_change, replaced, or_before}
use amaru_wear.Ledger.Accounts.Changed.{
  account_after, drep_before, delegates_to_none, reported, records, forgotten,
}
use amaru_wear.Ledger.DReps.{add_drep}
use amaru_wear.Ledger.DReps.Laws.{HoldsDReps, MakesDReps, drep_after, add_drep_lem}
use amaru_wear.Bytes.{before}
use amaru_wear.Ledger.Tests.{
  ledger_kernel, ledger_kernel-IsLedgerKernel, account_bytes, credential_bytes, drep_row_bytes,
}

abbrev alice : StakeCredential
alice = addr_keyhash (1 ∷ [])

abbrev pub account : Account ℕ ℕ
account = record { pool = some 7; drep = some (key (9 ∷ []), 4); deposit = 2; rewards = 5 }

abbrev pub one_account : StakeCredential → Option (Account ℕ ℕ)
one_account c = if same (credential_bytes alice) (credential_bytes c) then some account else none

abbrev pub account_store : Entries
account_store =
    (as_key ledger_kernel.credential_codec accounts_prefix alice, account_bytes account) ∷ []

pub account_store-Holds : HoldsAccounts memory ledger_kernel one_account account_store
unfolding lookup as_key same
account_store-Holds = record {
  at_key = λ a. elim (Bool-cases (same (credential_bytes alice) (credential_bytes a))) [
    | inl e ↦ rw e refl
    | inr e ↦ rw e refl
  ];
}

reset_delegation_example :
    MakesAccounts memory ledger_kernel
      (reset_delegation memory ledger_kernel ((alice, 6) ∷ []))
      account_store
      tt
      (λ c. after_reset memory ledger_kernel ((alice, 6) ∷ []) c (one_account c))
reset_delegation_example =
    reset_delegation_lem memory ledger_kernel memory-IsReliable memory-IsLawful
      ledger_kernel-IsLedgerKernel ((alice, 6) ∷ []) one_account account_store account_store-Holds

abbrev abstains : AccountValue ℕ ℕ
abstains = record { pool = unchanged; drep = set (abstain, 8); deposit = some 3; rewards = 0 }

abbrev abstaining : Account ℕ ℕ
abstaining = record { pool = some 7; drep = some (abstain, 8); deposit = 3; rewards = 5 }

add_account_example :
    (d' : Entries) × (add_account memory ledger_kernel 9 alice abstains account_store ≡ (ok [], d'))
    × HoldsAccounts memory ledger_kernel
        (updated memory ledger_kernel.credential_codec ledger_kernel.account_codec accounts_prefix
          alice
          (some abstaining)
          one_account)
        d'
    × ((j : Bytes)
        → starts_with accounts_prefix j ≡ false
        → lookup j d' ≡ (
            if same (new_key memory ledger_kernel (addr_keyhash (9 ∷ [])) alice) j
            then none
            else lookup j account_store))
unfolding same account_after drep_before or_before after_change replaced reported forgotten records
    delegates_to_none
add_account_example =
    add_account_lem memory ledger_kernel memory-IsReliable memory-IsLawful
      ledger_kernel-IsLedgerKernel 9 alice abstains one_account account_store account_store-Holds
      (inr (λ e. cc))

abbrev known_drep : DRepRow ℕ ℕ
known_drep = record {
  deposit = 3;
  registered_at = 1;
  valid_until = 20;
  anchor = none;
  previous_deregistration = some 6;
}

abbrev one_drep : StakeCredential → Option (DRepRow ℕ ℕ)
one_drep c = if same (credential_bytes alice) (credential_bytes c) then some known_drep else none

abbrev drep_store : Entries
drep_store =
    (as_key ledger_kernel.credential_codec dreps_prefix alice, drep_row_bytes known_drep) ∷ []

drep_store-Holds : HoldsDReps memory ledger_kernel one_drep drep_store
unfolding lookup as_key same
drep_store-Holds = record {
  at_key = λ a. elim (Bool-cases (same (credential_bytes alice) (credential_bytes a))) [
    | inl e ↦ rw e refl
    | inr e ↦ rw e refl
  ];
}

add_drep_example :
    MakesDReps memory ledger_kernel
      (add_drep memory ledger_kernel 30 (alice, (set 5, none)))
      drep_store
      tt
      (λ a.
        if same (credential_bytes alice) (credential_bytes a)
        then drep_after memory ledger_kernel 30 (set 5) none (one_drep a)
        else one_drep a)
add_drep_example =
    add_drep_lem memory ledger_kernel memory-IsReliable memory-IsLawful ledger_kernel-IsLedgerKernel
      30 alice (set 5) none one_drep drep_store drep_store-Holds

into_next_prefix_example :
    before (18 ∷ 69 ∷ 7 ∷ []) (into_next_prefix (18 ∷ 69 ∷ []))
    ≡ starts_with (18 ∷ 69 ∷ []) (18 ∷ 69 ∷ 7 ∷ [])
unfolding before
into_next_prefix_example = into_next_prefix_lem (18 ∷ 69 ∷ []) (18 ∷ 69 ∷ 7 ∷ []) refl refl

into_next_prefix_too_far_example :
    (before (into_next_prefix (18 ∷ 69 ∷ [])) (18 ∷ 69 ∷ 255 ∷ []) ≡ false)
    × (before (into_next_prefix (18 ∷ 69 ∷ [])) (into_next_prefix (18 ∷ 69 ∷ 255 ∷ [])) ≡ true)
    × (starts_with (18 ∷ 69 ∷ 255 ∷ []) (into_next_prefix (18 ∷ 69 ∷ [])) ≡ false)
into_next_prefix_too_far_example = into_next_prefix_too_far (18 ∷ 69 ∷ []) refl
