-- ===== src/Ledger/Tests/Store.antt =====
-- The theorems on snapshots and transactions at concrete inputs.
use amaru_wear.Prelude.{
  ℕ, ◌-◌, ◌≡◌, ◌≢◌, ◌⊎◌, ◌==◌, refl, ap, true, false, Option, none, some, List, [], ◌∷◌, ok, panic,
  if◌then◌else◌,
}
use amaru_wear.Bytes.{Bytes, same, starts_with}
use amaru_wear.Text.{Text, codes, parse_u64, contains, find}
use amaru_wear.RocksDb.{lookup}
use amaru_wear.RocksDb.Memory.{Entries, memory, memory-IsReliable, memory-IsLawful}
use amaru_wear.Ledger.{progress_key}
use amaru_wear.Ledger.Snapshots.{
  split_continuous, split_from, push_number, continues, last, epochs, prune,
}
use amaru_wear.Ledger.Snapshots.Laws.{concat, are_ranges, split_continuous_lem}
use amaru_wear.Ledger.Snapshots.Prune.{at_least, prune_lem}
use amaru_wear.Ledger.Snapshots.Next.{
  Files, no_files, file, folder, copy_entries, copy_dir_recursive, StoreDirectory, Disk,
  refuses_links, next_snapshot, for_epoch,
}
use amaru_wear.Ledger.Snapshots.Taking.{IsDisk, for_epoch-next_snapshot, next_snapshot-refused}
use amaru_wear.Ledger.Transactions.{
  Host, create_transaction, commit_transaction, rollback_transaction, try_epoch_transition,
}
use amaru_wear.Ledger.Transactions.Laws.{transaction_lem, try_epoch_transition_lem}
use amaru_wear.Ledger.Tests.{ledger_kernel, ledger_kernel-IsLedgerKernel}

abbrev numbers : List ℕ
numbers = 1 ∷ 2 ∷ 3 ∷ 5 ∷ 6 ∷ 8 ∷ []

split_numbers : split_continuous numbers ≡ (1 ∷ 2 ∷ 3 ∷ []) ∷ (5 ∷ 6 ∷ []) ∷ (8 ∷ []) ∷ []
unfolding split_continuous split_from push_number continues last
split_numbers = refl

split_continuous_example :
    (concat (split_continuous numbers) ≡ numbers) × (are_ranges (split_continuous numbers) ≡ true)
split_continuous_example = split_continuous_lem numbers

abbrev files : List Text
files = codes "163" ∷ codes "live" ∷ codes "164" ∷ codes "165" ∷ []

prune_example :
    (at_least (165 - 1) (epochs parse_u64 (prune parse_u64 (λ name. true) 1 165 files).1)
      ≡ at_least (165 - 1) (epochs parse_u64 files))
    × ((prune parse_u64 (λ name. true) 1 165 files).0 ≡ ok tt
        → epochs parse_u64 (prune parse_u64 (λ name. true) 1 165 files).1
          ≡ at_least (165 - 1) (epochs parse_u64 files))
prune_example = prune_lem parse_u64 (λ name. true) 1 165 files

abbrev host : Host memory
host = record { db = []; ongoing = false }

transaction_example :
    (h' : Host memory) × (create_transaction memory host ≡ (ok host.db, h'))
    × ((create_transaction memory h').0 ≡ panic)
    × ((commit_transaction memory ((1 ∷ [], 2 ∷ []) ∷ []) h').1
        ≡ record { db = (1 ∷ [], 2 ∷ []) ∷ []; ongoing = false })
    × ((rollback_transaction memory ((1 ∷ [], 2 ∷ []) ∷ []) h').1 ≡ host)
transaction_example = transaction_lem memory host ((1 ∷ [], 2 ∷ []) ∷ []) refl

abbrev progress_store : Entries
progress_store = (progress_key, 1 ∷ []) ∷ []

stored : lookup progress_key progress_store ≡ some (1 ∷ [])
unfolding lookup same
stored = refl

abbrev expected : Option ℕ
expected = some 1

try_epoch_transition_example :
    ((expected ≡ some 1)
      × ((d' : Entries) × (try_epoch_transition memory ledger_kernel
              (some 1)
              (some 2)
              progress_store
            ≡ (ok true, d'))
          × ((j : Bytes)
              → lookup j d'
                ≡ (if same progress_key j then some (2 ∷ []) else lookup j progress_store))))
    ⊎ ((expected ≢ some 1)
        × (try_epoch_transition memory ledger_kernel (some 1) (some 2) progress_store
            ≡ (ok false, progress_store)))
try_epoch_transition_example =
    try_epoch_transition_lem memory ledger_kernel memory-IsReliable memory-IsLawful
      ledger_kernel-IsLedgerKernel (some 1) (some 1) (some 2) progress_store stored

-- A database is kept in one file for each entry.
unfoldable files_of : Entries → Files
files_of [] = no_files
files_of ((k, v) ∷ d) = file k v (files_of d)

unfoldable loaded_from : Files → Entries
loaded_from no_files = []
loaded_from (file k v files) = (k, v) ∷ loaded_from files
loaded_from (folder name inner files) = loaded_from files

loaded_from-files_of : (d : Entries) → loaded_from (files_of d) ≡ d
unfolding loaded_from files_of
loaded_from-files_of [] = refl
loaded_from-files_of (e ∷ d) = ap (◌∷◌ e) (loaded_from-files_of d)

-- Hard links are refused on this disk, and everything else works.
abbrev android : Disk memory
android = record {
  opening = λ d. none;
  missing_database = codes "does not exist";
  removal = λ epoch. none;
  checkpoint = λ d epoch. some (codes "IO error: link file: Permission denied");
  message = λ e. e;
  flush = λ d. none;
  creation = λ epoch. none;
  files = files_of;
  loaded = loaded_from;
  faults = λ epoch. record {
    creating = λ path. none;
    reading_dir = λ path. none;
    copying = λ path. none;
  };
}

-- A live database, and an older snapshot of epoch 5.
abbrev directory : StoreDirectory Entries
directory = record {
  live = (1 ∷ [], 2 ∷ []) ∷ [];
  snapshot = λ e. if e == 5 then some [] else none;
}

android-IsDisk : IsDisk memory android
android-IsDisk = record { loads = loaded_from-files_of }

copied : (copy_dir_recursive (android.faults 5) (android.files directory.live)).0 ≡ none
unfolding copy_dir_recursive copy_entries files_of
copied = refl

refused : refuses_links memory android (codes "IO error: link file: Permission denied") ≡ true
unfolding refuses_links contains find starts_with
refused = refl

taken : (next_snapshot memory android 5 directory).0 ≡ ok tt
taken =
    next_snapshot-refused memory android android-IsDisk 5 directory
      (codes "IO error: link file: Permission denied") refl refused refl refl refl copied

for_epoch_example :
    (for_epoch memory android 5 (next_snapshot memory android 5 directory).1).0
    ≡ ok (record { epoch = 5; db = (1 ∷ [], 2 ∷ []) ∷ [] })
for_epoch_example = for_epoch-next_snapshot memory android android-IsDisk 5 directory taken refl
