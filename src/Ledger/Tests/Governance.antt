-- ===== src/Ledger/Tests/Governance.antt =====
-- The theorems on single values, on the committee and on iteration at concrete stores.
use amaru_wear.Prelude.{
  ℕ, ◌≡◌, refl, sym, false, Bool-cases, inl, inr, Option, none, some, List, [], ◌∷◌, ok, ◌>>◌,
  if◌then◌else◌,
}
use amaru_wear.Bytes.{Bytes, same, same→eq, starts_with}
use amaru_wear.RocksDb.{lookup}
use amaru_wear.RocksDb.Memory.{Entries, memory, memory-IsReliable, memory-IsLawful}
use amaru_wear.Ledger.{StakeCredential, addr_keyhash, cc_members_prefix, proposals_prefix, as_key}
use amaru_wear.Ledger.Column.{Holds, Makes}
use amaru_wear.Ledger.Column.Loops.{listed, latest_value}
use amaru_wear.Ledger.Column.Strays.{IsColumn, IsTidy}
use amaru_wear.Ledger.Iteration.{visited, iter, with_prefix_iterator}
use amaru_wear.Ledger.Iteration.Rows.{row_of, IsAscending}
use amaru_wear.Ledger.Iteration.Visits.{with_prefix_iterator_lem}
use amaru_wear.Ledger.ReadStore.{iter-with_prefix_iterator}
use amaru_wear.Ledger.Governance.{
  tip_key, protocol_parameters_key, committee_key, constitution_key, proposals_roots_key,
  governance_activity_key, protocol_parameters, constitutional_committee, constitution,
  proposals_roots, governance_activity, set_protocol_parameters, set_proposals_roots,
  set_constitution, set_governance_activity, update_constitutional_committee,
}
use amaru_wear.Ledger.Governance.Laws.{settings_lem}
use amaru_wear.Ledger.Governance.Committee.{
  HoldsMembers, member_after, update_constitutional_committee_lem,
}
use amaru_wear.Ledger.Tests.{number, number-IsCodec, ledger_kernel, ledger_kernel-IsLedgerKernel}
use amaru_wear.Ledger.Tests.Kernels.{
  governance_kernel, governance_kernel-IsGovernanceKernel, iter_borrow, iter_borrow-IsIterBorrow,
}

abbrev empty : Entries
empty = []

abbrev old_settings : Entries
old_settings = (constitution_key, 4 ∷ []) ∷ (tip_key, 7 ∷ []) ∷ []

settings_example :
    (d' : Entries) × ((set_protocol_parameters memory ledger_kernel governance_kernel 10
          >> set_proposals_roots memory ledger_kernel governance_kernel 1
          >> set_constitution memory ledger_kernel governance_kernel 5
          >> set_governance_activity memory ledger_kernel governance_kernel 2)
        old_settings
      ≡ (ok tt, d'))
    × (protocol_parameters memory ledger_kernel governance_kernel d' ≡ (ok 10, d'))
    × (proposals_roots memory ledger_kernel governance_kernel d' ≡ (ok 1, d'))
    × (constitution memory ledger_kernel governance_kernel d' ≡ (ok 5, d'))
    × (governance_activity memory ledger_kernel governance_kernel d' ≡ (ok 2, d'))
    × ((j : Bytes)
        → same protocol_parameters_key j ≡ false
        → same proposals_roots_key j ≡ false
        → same constitution_key j ≡ false
        → same governance_activity_key j ≡ false
        → lookup j d' ≡ lookup j old_settings)
settings_example =
    settings_lem memory memory-IsReliable ledger_kernel governance_kernel
      governance_kernel-IsGovernanceKernel memory-IsLawful 10 1 5 2 old_settings

abbrev alice : StakeCredential
alice = addr_keyhash (1 ∷ [])

abbrev bob : StakeCredential
bob = addr_keyhash (2 ∷ [])

no_members : HoldsMembers memory ledger_kernel governance_kernel (λ c. none) empty
unfolding lookup
no_members = record { at_key = λ a. refl }

update_constitutional_committee_example :
    (d' : Entries) × (update_constitutional_committee memory ledger_kernel governance_kernel 1
        ((alice, 70) ∷ [])
        (alice ∷ bob ∷ [])
        empty
      ≡ (ok tt, d'))
    × (constitutional_committee memory ledger_kernel governance_kernel d' ≡ (ok 1, d'))
    × HoldsMembers memory ledger_kernel governance_kernel
        (λ c.
          member_after memory ledger_kernel governance_kernel
            (latest_value memory ledger_kernel.credential_codec ledger_kernel.cc_member_codec
              cc_members_prefix c
              ((alice, 70) ∷ []))
            (listed memory ledger_kernel.credential_codec ledger_kernel.cc_member_codec
              cc_members_prefix c
              (alice ∷ bob ∷ []))
            none)
        d'
    × ((j : Bytes)
        → starts_with cc_members_prefix j ≡ false
        → same committee_key j ≡ false
        → lookup j d' ≡ lookup j empty)
update_constitutional_committee_example =
    update_constitutional_committee_lem memory ledger_kernel governance_kernel memory-IsReliable
      memory-IsLawful ledger_kernel-IsLedgerKernel governance_kernel-IsGovernanceKernel 1
      ((alice, 70) ∷ []) (alice ∷ bob ∷ []) (λ c. none) empty no_members

abbrev pub two_proposals : Entries
two_proposals =
    (as_key number proposals_prefix 5, 50 ∷ []) ∷ (as_key number proposals_prefix 3, 30 ∷ []) ∷ []

abbrev pub proposals : ℕ → Option ℕ
proposals n =
    if same (5 ∷ []) (n ∷ []) then some 50 else if same (3 ∷ []) (n ∷ []) then some 30 else none

pub two_proposals-Holds : Holds memory number number proposals_prefix proposals two_proposals
unfolding lookup as_key same
two_proposals-Holds = record {
  at_key = λ a. elim (Bool-cases (same (5 ∷ []) (a ∷ []))) [
    | inl e ↦ rw e refl
    | inr e ↦
        rw e (elim (Bool-cases (same (3 ∷ []) (a ∷ []))) [ inl q ↦ rw q refl | inr q ↦ rw q refl ])
  ];
}

pub two_proposals-IsColumn : IsColumn memory number number proposals_prefix two_proposals
unfolding lookup
two_proposals-IsColumn = record {
  at_row = λ j under found. elim (Bool-cases (same (as_key number proposals_prefix 5) j)) [
    | inl e ↦ (5, sym (same→eq _ j e))
    | inr e ↦ elim (Bool-cases (same (as_key number proposals_prefix 3) j)) [
      | inl q ↦ (3, sym (same→eq _ j q))
      | inr q ↦ absurd (found (rw (e, q) refl))
    ]
  ];
}

-- Proposal 3 is removed, and the other one changed.
abbrev pub enact : ℕ → ℕ → Option (Option ℕ)
enact id row = if same (3 ∷ []) (id ∷ []) then some none else some (some 51)

with_prefix_iterator_example :
    Makes memory number number proposals_prefix
      (with_prefix_iterator memory number number iter_borrow proposals_prefix enact)
      two_proposals
      tt
      (λ a. visited enact a (proposals a))
    × IsTidy memory number number proposals_prefix two_proposals
        (with_prefix_iterator memory number number iter_borrow proposals_prefix enact
          two_proposals).1
with_prefix_iterator_example =
    with_prefix_iterator_lem memory number number proposals_prefix iter_borrow
      iter_borrow-IsIterBorrow memory-IsReliable memory-IsLawful number-IsCodec number-IsCodec refl
      enact proposals two_proposals two_proposals-Holds two_proposals-IsColumn

iter-with_prefix_iterator_example :
    (rows : List (ℕ × ℕ)) × (d' : Entries) × ((with_prefix_iterator memory number number iter_borrow
            proposals_prefix enact
          >> iter memory number number proposals_prefix)
        two_proposals
      ≡ (ok rows, d'))
    × IsAscending memory number number proposals_prefix rows
    × ((a : ℕ)
        → row_of memory number number proposals_prefix a rows ≡ visited enact a (proposals a))
iter-with_prefix_iterator_example =
    iter-with_prefix_iterator memory number number proposals_prefix iter_borrow
      iter_borrow-IsIterBorrow memory-IsReliable memory-IsLawful number-IsCodec number-IsCodec refl
      enact proposals two_proposals two_proposals-Holds two_proposals-IsColumn
