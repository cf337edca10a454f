-- ===== src/Ledger/Tests/Memory.antt =====
-- The store in memory beside the ledger store, at concrete stores.
use amaru_wear.Prelude.{
  ℕ, ◌≡◌, refl, sym, ap, ◌∙◌, false, none, some, List, [], ◌∷◌, arith, ltb, ok,
}
use amaru_wear.Bytes.{before, same, same→eq}
use amaru_wear.Bytes.Order.{before_irrefl, before_trans, before_total}
use amaru_wear.RocksDb.{lookup}
use amaru_wear.RocksDb.Memory.{Entries, memory, memory-IsReliable, memory-IsLawful}
use amaru_wear.Map.{Ordered, IsOrdered, get, insert}
use amaru_wear.Ledger.{
  StakeCredential, set, unchanged, AccountValue, accounts_prefix, proposals_prefix,
}
use amaru_wear.Ledger.Accounts.{registered, delegated}
use amaru_wear.Ledger.Accounts.Laws.{Accounts, HoldsAccounts}
use amaru_wear.Ledger.Column.{Rows, Holds}
use amaru_wear.Ledger.Governance.{tip}
use amaru_wear.Ledger.Iteration.{visited, with_prefix_iterator}
use amaru_wear.Ledger.Save.{already_known, slot_of_tip, save}
use amaru_wear.Ledger.Save.View.{HoldsView}
use amaru_wear.Ledger.Save.Laws.{saved}
use amaru_wear.Ledger.Transactions.{refund}
use amaru_wear.InMemory.{MemoryKernel, MemoryStore, new_store, read_tip}
use amaru_wear.InMemory.Columns.{account_row}
use amaru_wear.InMemory.Context.{with_column, refund_account, save_to_memory}
use amaru_wear.InMemory.Agreement.{Agrees, nothing-Agrees, insert-Agrees, same_key-same}
use amaru_wear.InMemory.Agreement.Columns.{IsMemoryKernel}
use amaru_wear.InMemory.Agreement.Saves.{AgreesOnView, save-save_to_memory}
use amaru_wear.InMemory.Agreement.Lending.{with_prefix_iterator-with_column}
use amaru_wear.InMemory.Agreement.Accounts.{account_row-registered, refund-refund_account}
use amaru_wear.Ledger.Tests.{
  single, number, number-IsCodec, credential_bytes, change, ledger_kernel,
  ledger_kernel-IsLedgerKernel,
}
use amaru_wear.Ledger.Tests.Kernels.{
  governance_kernel, governance_kernel-IsGovernanceKernel, iter_borrow, iter_borrow-IsIterBorrow,
}
use amaru_wear.Ledger.Tests.Governance.{
  two_proposals, proposals, two_proposals-Holds, two_proposals-IsColumn, enact,
}
use amaru_wear.Ledger.Tests.Accounts.{account, one_account, account_store, account_store-Holds}
use amaru_wear.Ledger.Tests.Saving.{
  alice, store, block, nothing, store-HoldsView, alice-MayRegister,
}

abbrev number_order : Ordered ℕ
number_order = record { before = ltb }

number_order-IsOrdered : IsOrdered number_order
number_order-IsOrdered = record {
  irrefl = λ a. ground arith;
  trans = λ a b c h j. ground arith;
  total = λ a b h j. ground arith;
}

abbrev bytes_order : Ordered StakeCredential
bytes_order = record { before = λ a b. before (credential_bytes a) (credential_bytes b) }

bytes_order-IsOrdered : IsOrdered bytes_order
bytes_order-IsOrdered = record {
  irrefl = λ a. before_irrefl (credential_bytes a);
  trans =
      λ a b c h j. before_trans (credential_bytes a) (credential_bytes b) (credential_bytes c) h j;
  total = λ a b h j.
      let e =
        same→eq (credential_bytes a) (credential_bytes b)
          (before_total (credential_bytes a) (credential_bytes b) h j) in
      let one : some a ≡ some b =
        sym (ledger_kernel-IsLedgerKernel.credentials a)
        ∙ ap ledger_kernel.credential_codec.decode e
        ∙ ledger_kernel-IsLedgerKernel.credentials b in
      cc;
}

abbrev memory_kernel : MemoryKernel ledger_kernel governance_kernel
memory_kernel = record {
  input_order = number_order;
  credential_order = bytes_order;
  pool_id_order = number_order;
  proposal_id_order = number_order;
  ballot_order = number_order;
  origin = 0;
  no_confidence = 0;
  no_roots = 0;
}

memory_kernel-IsMemoryKernel : IsMemoryKernel memory_kernel
memory_kernel-IsMemoryKernel = record {
  inputs = number_order-IsOrdered;
  credentials = bytes_order-IsOrdered;
  pool_ids = number_order-IsOrdered;
  proposal_ids = number_order-IsOrdered;
  ballots = number_order-IsOrdered;
}

abbrev two_in_memory : List (ℕ × ℕ)
two_in_memory = (3, 30) ∷ (5, 50) ∷ []

two_in_memory-Agrees : Agrees number_order two_in_memory proposals
unfolding insert
two_in_memory-Agrees =
    insert-Agrees number_order number_order-IsOrdered memory number number-IsCodec number
      proposals_prefix 5 50 ((3, 30) ∷ []) _
      (insert-Agrees number_order number_order-IsOrdered memory number number-IsCodec number
        proposals_prefix 3 30 [] (λ a. none) (nothing-Agrees number_order))

with_prefix_iterator-with_column_example :
    (m' : Rows memory number number proposals_prefix) × (d' : Entries) × (with_prefix_iterator
        memory number number iter_borrow proposals_prefix enact two_proposals
      ≡ (ok tt, d'))
    × Holds memory number number proposals_prefix m' d'
    × Agrees number_order (with_column number_order enact two_in_memory) m'
    × ((a : ℕ) → m' a ≡ visited enact a (proposals a))
with_prefix_iterator-with_column_example =
    with_prefix_iterator-with_column memory number number proposals_prefix iter_borrow
      iter_borrow-IsIterBorrow memory-IsReliable memory-IsLawful number-IsCodec number-IsCodec refl
      number_order number_order-IsOrdered enact two_in_memory proposals two_proposals
      two_in_memory-Agrees two_proposals-Holds two_proposals-IsColumn

abbrev registration : AccountValue ℕ ℕ
registration = record { pool = set 3; drep = unchanged; deposit = some 2; rewards = 7 }

account_row_example :
    account_row ledger_kernel governance_kernel memory_kernel registration none
    ≡ record { pool = some 3; drep = none; deposit = 7; rewards = 2 }
account_row_example =
    account_row-registered memory ledger_kernel governance_kernel memory_kernel registration
      (record { pool = some 3; drep = none; deposit = 2; rewards = 7 }) none
      (unfold registered delegated change in refl)

-- The tip of this store is the point of slot 6.
abbrev memory_store : MemoryStore ledger_kernel governance_kernel
memory_store = record (new_store ledger_kernel governance_kernel memory_kernel 1000 10) {
  tip = some 7;
}

memory_store-AgreesOnView :
    AgreesOnView memory ledger_kernel governance_kernel memory_kernel nothing memory_store
unfolding get new_store
memory_store-AgreesOnView = record {
  outputs = nothing-Agrees number_order;
  pools = nothing-Agrees number_order;
  dreps = record { keys = tt; at_key = λ c. refl };
  proposals = nothing-Agrees number_order;
  votes = nothing-Agrees number_order;
  slots = nothing-Agrees number_order;
}

save-save_to_memory_example :
    (d' : Entries) × (s' : MemoryStore ledger_kernel governance_kernel) × (save memory ledger_kernel
        governance_kernel iter_borrow false 1000 10 3
        (block 301)
        store
      ≡ (ok 0, d'))
    × (save_to_memory ledger_kernel governance_kernel memory_kernel (block 301) memory_store
        ≡ (ok tt, s'))
    × HoldsView memory ledger_kernel governance_kernel
        (saved memory ledger_kernel governance_kernel 3 10 3 (block 301) nothing)
        d'
    × AgreesOnView memory ledger_kernel governance_kernel memory_kernel
        (saved memory ledger_kernel governance_kernel 3 10 3 (block 301) nothing)
        s'
    × (tip memory ledger_kernel governance_kernel d' ≡ (ok 301, d'))
    × (read_tip ledger_kernel governance_kernel memory_kernel s' ≡ (ok 301, s'))
save-save_to_memory_example =
    save-save_to_memory memory ledger_kernel governance_kernel memory_kernel
      ledger_kernel-IsLedgerKernel memory_kernel-IsMemoryKernel memory-IsReliable memory-IsLawful
      governance_kernel-IsGovernanceKernel iter_borrow iter_borrow-IsIterBorrow 1000 10 3 3 300
      (block 301) nothing store memory_store store-HoldsView memory_store-AgreesOnView
      (unfold lookup same single new_store in refl)
      (unfold lookup same already_known slot_of_tip single in refl) refl refl refl refl
      alice-MayRegister

abbrev with_account : MemoryStore ledger_kernel governance_kernel
with_account = record memory_store { accounts = (alice, account) ∷ [] }

with_account-Agrees : Agrees bytes_order with_account.accounts one_account
unfolding get
with_account-Agrees = record {
  keys = (tt, tt);
  at_key = λ c.
      rw
        (same_key-same bytes_order bytes_order-IsOrdered memory ledger_kernel.credential_codec
          ledger_kernel-IsLedgerKernel.credentials ledger_kernel.account_codec accounts_prefix alice
          c)
        refl;
}

refund-refund_account_example :
    (left : ℕ) × (m' : Accounts memory ledger_kernel) × (d' : Entries) × (s' : MemoryStore
      ledger_kernel governance_kernel)
    × (refund memory ledger_kernel alice 5 account_store ≡ (ok left, d'))
    × (refund_account ledger_kernel governance_kernel memory_kernel alice 5 with_account
        ≡ (ok left, s'))
    × HoldsAccounts memory ledger_kernel m' d'
    × Agrees bytes_order s'.accounts m'
refund-refund_account_example =
    refund-refund_account memory ledger_kernel governance_kernel memory_kernel memory-IsReliable
      memory-IsLawful ledger_kernel-IsLedgerKernel memory_kernel-IsMemoryKernel alice 5 one_account
      account_store with_account (omega arith) account_store-Holds with_account-Agrees
