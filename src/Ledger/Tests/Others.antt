-- ===== src/Ledger/Tests/Others.antt =====
-- The theorems on the other columns, on an empty store and one with a pool.
use amaru_wear.Prelude.{
  List, ℕ, ◌≡◌, refl, sym, false, Bool-cases, inl, inr, Option, none, some, [], ◌∷◌, ok,
  if◌then◌else◌, ◌>>◌,
}
use amaru_wear.Bytes.{same→eq, starts_with, Bytes, same}
use amaru_wear.RocksDb.{lookup}
use amaru_wear.RocksDb.Memory.{Entries, memory, memory-IsReliable, memory-IsLawful}
use amaru_wear.Ledger.{
  StakeCredential, addr_keyhash, cc_members_prefix, pools_prefix, utxo_prefix, as_key,
}
use amaru_wear.Ledger.Column.{Holds, kept}
use amaru_wear.Ledger.Pools.{HoldsPools}
use amaru_wear.Ledger.Entries.{get_output, add_outputs, remove_outputs}
use amaru_wear.Ledger.Entries.Laws.{HoldsOutputs, spent, produced, utxo_lem}
use amaru_wear.Ledger.Delegations.{delegation_prefix, new_key, drop_drep}
use amaru_wear.Ledger.Delegations.Range.{EndsBelow}
use amaru_wear.Ledger.Delegations.Drop.{IsDelegations, listed_delegator, is_recorded, drop_drep_lem}
use amaru_wear.Ledger.Tests.{ledger_kernel, ledger_kernel-IsLedgerKernel}

abbrev empty : Entries
empty = []

no_members :
    Holds memory ledger_kernel.credential_codec ledger_kernel.cc_member_codec cc_members_prefix
      (λ c. none)
      empty
unfolding lookup
no_members = record { at_key = λ a. refl }

abbrev pool_store : Entries
pool_store = (as_key ledger_kernel.pool_id_codec pools_prefix 3, 3 ∷ 11 ∷ []) ∷ []

abbrev one_pool : ℕ → Option Bytes
one_pool n = if same (3 ∷ []) (n ∷ []) then some (3 ∷ 11 ∷ []) else none

pool_store-Holds : HoldsPools memory ledger_kernel one_pool pool_store
unfolding lookup as_key same
pool_store-Holds = record {
  at_key =
      λ a. elim (Bool-cases (same (3 ∷ []) (a ∷ []))) [ inl e ↦ rw e refl | inr e ↦ rw e refl ];
}

no_outputs : HoldsOutputs memory ledger_kernel (λ i. none) empty
unfolding lookup
no_outputs = record { at_key = λ a. refl }

utxo_example :
    (d' : Entries) × ((add_outputs memory ledger_kernel ((1, 10) ∷ (2, 20) ∷ [])
          >> remove_outputs memory ledger_kernel (1 ∷ []))
        empty
      ≡ (ok tt, d'))
    × ((i : ℕ)
        → get_output memory ledger_kernel i d' ≡ (
          ok (
              if spent memory ledger_kernel i (1 ∷ [])
              then none
              else kept memory ledger_kernel.input_codec ledger_kernel.output_codec utxo_prefix
                  (produced memory ledger_kernel i ((1, 10) ∷ (2, 20) ∷ []))
                  none),
          d',
        ))
    × ((j : Bytes) → starts_with utxo_prefix j ≡ false → lookup j d' ≡ lookup j empty)
utxo_example =
    utxo_lem memory ledger_kernel memory-IsReliable memory-IsLawful ledger_kernel-IsLedgerKernel
      ((1, 10) ∷ (2, 20) ∷ []) (1 ∷ []) (λ i. none) empty no_outputs

abbrev alice : StakeCredential
alice = addr_keyhash (1 ∷ [])

abbrev bob : StakeCredential
bob = addr_keyhash (2 ∷ [])

abbrev delegation_store : Entries
delegation_store = (new_key memory ledger_kernel alice bob, []) ∷ []

delegation_store-IsDelegations : IsDelegations memory ledger_kernel alice delegation_store
unfolding lookup
delegation_store-IsDelegations = record {
  at_delegation = λ j under found.
      elim (Bool-cases (same (new_key memory ledger_kernel alice bob) j)) [
        | inl e ↦ (bob, sym (same→eq _ j e))
        | inr e ↦ absurd (found (rw e refl))
      ];
}

alice-EndsBelow : EndsBelow (delegation_prefix memory ledger_kernel alice)
unfolding delegation_prefix
alice-EndsBelow = refl

drop_drep_example :
    (cs : List StakeCredential) × (d' : Entries) × (drop_drep memory ledger_kernel alice
        delegation_store
      ≡ (ok cs, d'))
    × ((c : StakeCredential)
        → listed_delegator memory ledger_kernel c cs
          ≡ is_recorded memory ledger_kernel
              (lookup (new_key memory ledger_kernel alice c) delegation_store))
    × ((j : Bytes)
        → lookup j d' ≡ (
            if starts_with (delegation_prefix memory ledger_kernel alice) j
            then none
            else lookup j delegation_store))
drop_drep_example =
    drop_drep_lem memory ledger_kernel memory-IsReliable memory-IsLawful
      ledger_kernel-IsLedgerKernel alice delegation_store alice-EndsBelow
      delegation_store-IsDelegations
