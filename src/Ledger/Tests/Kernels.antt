-- ===== src/Ledger/Tests/Kernels.antt =====
-- A governance kernel and an iterator crate for the tests.
use amaru_wear.Prelude.{
  ℕ, zero, suc, ◌+◌, ◌-◌, ◌/◌, refl, Option, none, some, List, [], ◌∷◌, ltb, drop, if◌then◌else◌,
}
use amaru_wear.Bytes.{Bytes}
use amaru_wear.Ledger.{Codec}
use amaru_wear.Ledger.Delegations.{prefix_len}
use amaru_wear.Ledger.Iteration.{Visit, IterBorrow, IsIterBorrow, with_update}
use amaru_wear.Ledger.Governance.{GovernanceKernel, IsGovernanceKernel}
use amaru_wear.Ledger.Tests.{number, number-IsCodec, ledger_kernel}

abbrev pub slot_of_point : ℕ → Option ℕ
slot_of_point zero = none
slot_of_point (suc slot) = some slot

-- Epochs of 100 slots, for 1000 slots.
abbrev pub governance_kernel : GovernanceKernel ledger_kernel
governance_kernel = record {
  Point = ℕ;
  specific_slot = slot_of_point;
  slot_or_default = λ point. point - 1;
  point_codec = number;
  ProtocolParameters = ℕ;
  parameters_codec = number;
  protocol_version = λ version. version;
  drep_expiry = λ version. 20;
  EraHistory = ℕ;
  slot_to_epoch = λ horizon slot tip. if ltb slot horizon then some (slot / 100) else none;
  add_epochs = λ a b. a + b;
  sub_epochs = λ a b. a - b;
  new_slot_row = λ pool. pool;
  CommitteeStatus = ℕ;
  committee_codec = number;
  Constitution = ℕ;
  constitution_codec = number;
  ProposalsRoots = ℕ;
  roots_codec = number;
  activity_codec = number;
}

pub governance_kernel-IsGovernanceKernel : IsGovernanceKernel governance_kernel
governance_kernel-IsGovernanceKernel = record {
  points = number-IsCodec;
  parameters = number-IsCodec;
  committees = number-IsCodec;
  constitutions = number-IsCodec;
  roots = number-IsCodec;
  activities = number-IsCodec;
}

-- The answer for one entry and the answer for the rest.
abbrev with_entry :
    {A B : Type 0}
    → Visit A B
    → Bytes
    → Option A
    → Option B
    → Option (List (Bytes × Option B))
    → Option (List (Bytes × Option B))
with_entry visit k (some a) (some b) (some rest) = some (with_update k (visit a b) rest)
with_entry visit k (some a) (some b) none = none
with_entry visit k (some a) none rest = none
with_entry visit k none b rest = none

unfoldable pub updates_of :
    {A B : Type 0}
    → Codec A
    → Codec B
    → Visit A B
    → List (Bytes × Bytes)
    → Option (List (Bytes × Option B))
updates_of CA CB visit [] = some []
updates_of CA CB visit ((k, v) ∷ l) =
    with_entry visit k (CA.decode (drop prefix_len k)) (CB.decode v) (updates_of CA CB visit l)

abbrev pub iter_borrow : IterBorrow
iter_borrow = record { updates = updates_of }

pub iter_borrow-IsIterBorrow : IsIterBorrow iter_borrow
unfolding updates_of
iter_borrow-IsIterBorrow = record {
  updates_end = λ CA CB visit. refl;
  updates_entry = λ CA CB visit k v l a b rest at_k at_v at_rest. rw (at_k, at_v, at_rest) refl;
}
