-- ===== src/Ledger/Tests/Removal.antt =====
-- The removal of a drep that has one delegator, up to protocol version 9.
use amaru_wear.Prelude.{
  ◌≡◌, refl, sym, true, false, Bool-cases, inl, inr, Option, none, some, [], ◌∷◌, ok, if◌then◌else◌,
  ℕ, arith,
}
use amaru_wear.Bytes.{Bytes, same, same→eq, starts_with}
use amaru_wear.RocksDb.{lookup}
use amaru_wear.RocksDb.Memory.{Entries, memory, memory-IsReliable, memory-IsLawful}
use amaru_wear.Ledger.{
  StakeCredential, addr_keyhash, key, Account, DRepRow, accounts_prefix, dreps_prefix, as_key,
}
use amaru_wear.Ledger.Accounts.Laws.{HoldsAccounts}
use amaru_wear.Ledger.Delegations.{delegation_prefix, new_key}
use amaru_wear.Ledger.Delegations.Range.{EndsBelow}
use amaru_wear.Ledger.Delegations.Drop.{IsDelegations, is_recorded}
use amaru_wear.Ledger.DReps.{remove_drep}
use amaru_wear.Ledger.DReps.Laws.{HoldsDReps, altered_drep, with_deregistration}
use amaru_wear.Ledger.DReps.Removal.{unbound, remove_drep_v9}
use amaru_wear.Ledger.Tests.{
  ledger_kernel, ledger_kernel-IsLedgerKernel, account_bytes, credential_bytes, drep_row_bytes,
}

abbrev alice : StakeCredential
alice = addr_keyhash (1 ∷ [])

abbrev bob : StakeCredential
bob = addr_keyhash (2 ∷ [])

abbrev account : Account ℕ ℕ
account = record { pool = none; drep = some (key (1 ∷ []), 4); deposit = 2; rewards = 5 }

abbrev one_drep : DRepRow ℕ ℕ
one_drep = record {
  deposit = 3;
  registered_at = 1;
  valid_until = 20;
  anchor = none;
  previous_deregistration = none;
}

abbrev accounts : StakeCredential → Option (Account ℕ ℕ)
accounts c = if same (credential_bytes bob) (credential_bytes c) then some account else none

abbrev dreps : StakeCredential → Option (DRepRow ℕ ℕ)
dreps c = if same (credential_bytes alice) (credential_bytes c) then some one_drep else none

abbrev store : Entries
store =
    (new_key memory ledger_kernel alice bob, [])
    ∷ (as_key ledger_kernel.credential_codec dreps_prefix alice, drep_row_bytes one_drep)
    ∷ (as_key ledger_kernel.credential_codec accounts_prefix bob, account_bytes account)
    ∷ []

store-HoldsAccounts : HoldsAccounts memory ledger_kernel accounts store
unfolding lookup as_key same new_key delegation_prefix
store-HoldsAccounts = record {
  at_key = λ a. elim (Bool-cases (same (credential_bytes bob) (credential_bytes a))) [
    | inl e ↦ rw e refl
    | inr e ↦ rw e refl
  ];
}

store-HoldsDReps : HoldsDReps memory ledger_kernel dreps store
unfolding lookup as_key same new_key delegation_prefix
store-HoldsDReps = record {
  at_key = λ a. elim (Bool-cases (same (credential_bytes alice) (credential_bytes a))) [
    | inl e ↦ rw e refl
    | inr e ↦ rw e refl
  ];
}

no_other :
    (j : Bytes) (c : StakeCredential) (prefix : Bytes)
    → starts_with
        (delegation_prefix memory ledger_kernel alice)
        (as_key ledger_kernel.credential_codec prefix c)
      ≡ false
    → starts_with (delegation_prefix memory ledger_kernel alice) j ≡ true
    → same (as_key ledger_kernel.credential_codec prefix c) j ≡ false
no_other j c prefix apart under =
    ground (arith, same→eq (as_key ledger_kernel.credential_codec prefix c) j)

drep_apart :
    starts_with
      (delegation_prefix memory ledger_kernel alice)
      (as_key ledger_kernel.credential_codec dreps_prefix alice)
    ≡ false
unfolding delegation_prefix as_key starts_with
drep_apart = refl

account_apart :
    starts_with
      (delegation_prefix memory ledger_kernel alice)
      (as_key ledger_kernel.credential_codec accounts_prefix bob)
    ≡ false
unfolding delegation_prefix as_key starts_with
account_apart = refl

store-IsDelegations : IsDelegations memory ledger_kernel alice store
unfolding lookup
store-IsDelegations = record {
  at_delegation = λ j under found.
      elim (Bool-cases (same (new_key memory ledger_kernel alice bob) j)) [
        | inl e ↦ (bob, sym (same→eq _ j e))
        | inr e ↦ absurd (
            found (
              rw
                (
                  e,
                  no_other j alice dreps_prefix drep_apart under,
                  no_other j bob accounts_prefix account_apart under,
                )
                refl))
      ];
}

alice-EndsBelow : EndsBelow (delegation_prefix memory ledger_kernel alice)
unfolding delegation_prefix
alice-EndsBelow = refl

remove_drep_v9_example :
    (d' : Entries) × (remove_drep memory ledger_kernel 9 (alice, 8) store ≡ (ok tt, d'))
    × HoldsDReps memory ledger_kernel
        (altered_drep memory ledger_kernel (with_deregistration memory ledger_kernel 8) alice dreps)
        d'
    × HoldsAccounts memory ledger_kernel
        (λ c.
          unbound memory ledger_kernel
            (is_recorded memory ledger_kernel (lookup (new_key memory ledger_kernel alice c) store))
            8
            (accounts c))
        d'
    × ((c : StakeCredential) → lookup (new_key memory ledger_kernel alice c) d' ≡ none)
    × ((j : Bytes)
        → starts_with accounts_prefix j ≡ false
        → starts_with dreps_prefix j ≡ false
        → lookup j d' ≡ (
            if starts_with (delegation_prefix memory ledger_kernel alice) j
            then none
            else lookup j store))
remove_drep_v9_example =
    remove_drep_v9 memory ledger_kernel memory-IsReliable memory-IsLawful
      ledger_kernel-IsLedgerKernel 9 alice 8 dreps accounts store refl alice-EndsBelow
      store-IsDelegations store-HoldsDReps store-HoldsAccounts
