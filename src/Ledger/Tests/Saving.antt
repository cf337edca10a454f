-- ===== src/Ledger/Tests/Saving.antt =====
-- `save` at concrete stores: a store with a block, and a new block that registers an account and a
-- drep, spends an output, and ends three dormant epochs with a proposal.
use amaru_wear.Prelude.{ℕ, ◌≡◌, refl, false, true, none, some, [], ◌∷◌, ok, arith}
use amaru_wear.Bytes.{Bytes, same, starts_with}
use amaru_wear.RocksDb.{lookup}
use amaru_wear.RocksDb.Memory.{Entries, memory, memory-IsReliable, memory-IsLawful}
use amaru_wear.Ledger.{StakeCredential, addr_keyhash, set, unchanged, dreps_prefix, as_key}
use amaru_wear.Ledger.Accounts.{registered}
use amaru_wear.Ledger.Accounts.Later.{MayRegister}
use amaru_wear.Ledger.Governance.{tip_key, governance_activity_key, tip}
use amaru_wear.Ledger.Save.{Delta, already_known, slot_of_tip, save}
use amaru_wear.Ledger.Save.View.{View, HoldsView, IsOutside}
use amaru_wear.Ledger.Save.Tip.{save_known}
use amaru_wear.Ledger.Save.Laws.{saved, save_lem}
use amaru_wear.Ledger.Tests.{single, ledger_kernel, ledger_kernel-IsLedgerKernel}
use amaru_wear.Ledger.Tests.Kernels.{
  governance_kernel, governance_kernel-IsGovernanceKernel, iter_borrow, iter_borrow-IsIterBorrow,
}

abbrev pub alice : StakeCredential
alice = addr_keyhash (1 ∷ [])

-- The tip is the point of slot 6.
abbrev pub store : Entries
store = (tip_key, 7 ∷ []) ∷ []

-- A block at a point.
abbrev pub block : ℕ → Delta ledger_kernel governance_kernel
block point = record {
  point = point;
  issuer = some 3;
  add = record {
    utxo = (1, 10) ∷ (2, 20) ∷ [];
    pools = (3, (12, 5)) ∷ [];
    accounts =
        (alice, record { pool = set 3; drep = unchanged; deposit = some 2; rewards = 0 }) ∷ [];
    dreps =
        (alice, (set 8, some (record { deposit = 5; registered_at = 12; valid_until = 25 }))) ∷ [];
    cc_members = [];
    proposals = (4, 40) ∷ [];
    votes = (1, 1) ∷ [];
  };
  remove = record { utxo = 1 ∷ []; pools = []; accounts = []; dreps = []; cc_members = [] };
  withdrawals = alice ∷ [];
}

abbrev pub nothing : View memory ledger_kernel governance_kernel
nothing = record {
  outputs = λ c. none;
  pools = λ c. none;
  accounts = λ c. none;
  dreps = λ c. none;
  members = λ c. none;
  proposals = λ c. none;
  votes = λ c. none;
  slots = λ c. none;
}

-- The key of the tip is no drep's.
no_drep : (j : Bytes) → starts_with dreps_prefix j ≡ true → lookup j store ≡ none
unfolding lookup same starts_with
no_drep [] under = refl
no_drep (a ∷ j) under = ground arith

pub store-HoldsView : HoldsView memory ledger_kernel governance_kernel nothing store
unfolding lookup as_key same starts_with
store-HoldsView = record {
  outputs = record { at_key = λ a. refl };
  pools = record { at_key = λ a. refl };
  accounts = record { at_key = λ a. refl };
  dreps = record { at_key = λ a. refl };
  members = record { at_key = λ a. refl };
  proposals = record { at_key = λ a. refl };
  votes = record { at_key = λ a. refl };
  slots = record { at_key = λ a. refl };
  drep_keys = record { at_row = λ j under found. absurd (found (no_drep j under)) };
}

tip_stored : lookup tip_key store ≡ some (7 ∷ [])
unfolding lookup same
tip_stored = refl

save_known_example :
    save memory ledger_kernel governance_kernel iter_borrow false 1000 10 3 (block 7) store
    ≡ (ok 3, store)
save_known_example =
    save_known memory ledger_kernel governance_kernel memory-IsReliable memory-IsLawful iter_borrow
      1000 10 3 (block 7) store (7 ∷ []) 7 6 6 tip_stored (unfold single in refl) refl refl
      (omega arith)

pub alice-MayRegister : MayRegister memory ledger_kernel (λ c. none) (block 301).add.accounts
unfolding registered
alice-MayRegister = (λ e. cc, tt)

save_example :
    (d' : Entries) × (save memory ledger_kernel governance_kernel iter_borrow false 1000 10 3
        (block 301)
        store
      ≡ (ok 0, d'))
    × HoldsView memory ledger_kernel governance_kernel
        (saved memory ledger_kernel governance_kernel 3 10 3 (block 301) nothing)
        d'
    × (tip memory ledger_kernel governance_kernel d' ≡ (ok 301, d'))
    × (lookup governance_activity_key d' ≡ some (0 ∷ []))
    × ((j : Bytes)
        → IsOutside j
        → same tip_key j ≡ false
        → same governance_activity_key j ≡ false
        → lookup j d' ≡ lookup j store)
save_example =
    save_lem memory ledger_kernel governance_kernel memory-IsReliable memory-IsLawful
      ledger_kernel-IsLedgerKernel governance_kernel-IsGovernanceKernel iter_borrow
      iter_borrow-IsIterBorrow false 1000 10 3 3 (block 301) nothing store
      (unfold lookup same already_known slot_of_tip single in refl) refl refl alice-MayRegister
      store-HoldsView
