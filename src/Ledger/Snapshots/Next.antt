-- ===== src/Ledger/Snapshots/Next.antt =====
-- Opening the ledger store and taking a snapshot of it: `RocksDB::new` and `empty`, `next_snapshot`,
-- `copy_snapshot_to_path` and `for_epoch_with` of rust/patches/amaru-stores/src/rocksdb/mod.rs.
use amaru_wear.Prelude.{
  ℕ, Bool, true, false, ◌||◌, ◌==◌, Option, none, some, List, [], ◌∷◌, ok, err, panic, out_of_fuel,
  Exec, ◌>>◌, if◌then◌else◌,
}
use amaru_wear.Text.{Text, codes, contains}
use amaru_wear.Bytes.{Bytes}
use amaru_wear.RocksDb.{RocksDb}
use amaru_wear.Ledger.Snapshots.{OpenError, assert_sufficient_snapshots}

-- The files of a directory.
pub data Files : Type 0 where
  no_files : Files
  file : Text → Bytes → Files → Files
  folder : Text → Files → Files → Files

-- Which operations on a path fail, with their texts; a path is the list of its parts from the last
-- one on.
pub record Faults : Type 0 where
  pub creating : List Text → Option Text
  pub reading_dir : List Text → Option Text
  pub copying : List Text → Option Text

-- The loop of `copy_dir_recursive` over the entries of a directory that it has created: the error
-- that ends it, if any, and what has been copied.
unfoldable pub copy_entries : Faults → List Text → Files → Option Text × Files
copy_entries F path no_files = (none, no_files)
copy_entries F path (file name content entries) =
    let rest = copy_entries F path entries in
    elim (F.copying (name ∷ path)) [
      | some e ↦ (some e, no_files)
      | none ↦ (rest.0, file name content rest.1)
    ]
copy_entries F path (folder name inner entries) =
    let below = copy_entries F (name ∷ path) inner in
    let rest = copy_entries F path entries in
    elim (F.creating (name ∷ path)) [
      | some e ↦ (some e, no_files)
      | none ↦ elim (F.reading_dir (name ∷ path)) [
        | some e ↦ (some e, folder name no_files no_files)
        | none ↦ elim below.0 [
          | some e ↦ (some e, folder name below.1 no_files)
          | none ↦ (rest.0, folder name below.1 rest.1)
        ]
      ]
    ]

unfoldable pub copy_dir_recursive : Faults → Files → Option Text × Files
copy_dir_recursive F files = elim (F.creating []) [
  | some e ↦ (some e, no_files)
  | none ↦ elim (F.reading_dir []) [ some e ↦ (some e, no_files) | none ↦ copy_entries F [] files ]
]

-- The directory of the store: the live database, and those of past epochs.
pub record StoreDirectory (Db : Type 0) : Type 0 where
  pub live : Db
  pub snapshot : ℕ → Option Db

-- `StoreError::Open` and, with their texts, `StoreError::Internal`.
pub data SnapshotError (E : Type 0) : Type 0 where
  not_sufficient : OpenError → SnapshotError E
  not_opened checkpoint_failed not_flushed : E → SnapshotError E
  not_created not_copied : Text → SnapshotError E
  not_removed : SnapshotError E

-- What the file system and RocksDB answer: `none` is success. A directory that cannot be removed
-- leaves something. `files` are those of a database that is flushed, and `loaded` is the database in
-- a directory.
pub record Disk (R : RocksDb) : Type 0 where
  pub opening : R.Db → Option R.Error
  pub missing_database : R.Error
  pub removal : ℕ → Option (Option R.Db)
  pub checkpoint : R.Db → ℕ → Option R.Error
  pub message : R.Error → Text
  pub flush : R.Db → Option R.Error
  pub creation : ℕ → Option Text
  pub files : R.Db → Files
  pub loaded : Files → R.Db
  pub faults : ℕ → Faults

-- `RocksDB`, as far as its methods read it.
pub record Opened (Db : Type 0) : Type 0 where
  pub db : Db
  pub incremental_save : Bool

-- A snapshot is opened with its epoch.
pub record SnapshotOf (Db : Type 0) : Type 0 where
  pub epoch : ℕ
  pub db : Db

module _ (R : RocksDb) (D : Disk R) where
  open R use {Db, Error}

  abbrev pub SnapshotExec : Type 0 → Type 0
  SnapshotExec A = Exec (StoreDirectory Db) (SnapshotError Error) A

  unfoldable pub open_live : Bool → SnapshotExec (Opened Db)
  open_live incremental_save s = elim (D.opening s.live) [
    | none ↦ (ok (record { db = s.live; incremental_save = incremental_save }), s)
    | some e ↦ (err (not_opened e), s)
  ]

  -- `assert_sufficient_snapshots(&dir)?`, by the names of the files.
  unfoldable pub open_ledger : (Text → Option ℕ) → List Text → SnapshotExec (Opened Db)
  open_ledger parse files s = elim (assert_sufficient_snapshots parse files) [
    | ok _ ↦ open_live false s
    | err e ↦ (err (not_sufficient e), s)
    | panic ↦ (panic, s)
    | out_of_fuel ↦ (out_of_fuel, s)
  ]

  unfoldable pub open_empty : SnapshotExec (Opened Db)
  open_empty = open_live true

  -- The directory of an epoch, replaced.
  abbrev pub with_snapshot : ℕ → Option Db → StoreDirectory Db → StoreDirectory Db
  with_snapshot epoch db s = record {
    live = s.live;
    snapshot = λ e. if e == epoch then db else s.snapshot e;
  }

  -- `if path.exists() { fs::remove_dir_all(&path)? }`
  unfoldable pub remove_existing : ℕ → SnapshotExec (Unit {0})
  remove_existing epoch s = elim (s.snapshot epoch) [
    | none ↦ (ok tt, s)
    | some db ↦ elim (D.removal epoch) [
      | none ↦ (ok tt, with_snapshot epoch none s)
      | some left ↦ (err not_removed, with_snapshot epoch left s)
    ]
  ]

  unfoldable pub copy_snapshot_to_path : ℕ → SnapshotExec (Unit {0})
  copy_snapshot_to_path epoch s = elim (D.flush s.live) [
    | some e ↦ (err (not_flushed e), s)
    | none ↦ elim (D.creation epoch) [
      | some e ↦ (err (not_created e), s)
      | none ↦
          let copy = copy_dir_recursive (D.faults epoch) (D.files s.live) in
          let s' = with_snapshot epoch (some (D.loaded copy.1)) s in
          elim copy.0 [ some e ↦ (err (not_copied e), s') | none ↦ (ok tt, s') ]
    ]
  ]

  -- A checkpoint makes hard links, which some systems refuse.
  unfoldable pub refuses_links : Text → Bool
  refuses_links text =
      contains (codes "Permission denied") text || contains (codes "link file") text

  unfoldable pub checkpoint_or_copy : ℕ → SnapshotExec (Unit {0})
  checkpoint_or_copy epoch s = elim (D.checkpoint s.live epoch) [
    | none ↦ (ok tt, with_snapshot epoch (some s.live) s)
    | some e ↦
        if refuses_links (D.message e)
        then copy_snapshot_to_path epoch s
        else (err (checkpoint_failed e), s)
  ]

  unfoldable pub next_snapshot : ℕ → SnapshotExec (Unit {0})
  next_snapshot epoch = remove_existing epoch >> checkpoint_or_copy epoch

  -- The database of the epoch is not created if it is missing.
  unfoldable pub for_epoch : ℕ → SnapshotExec (SnapshotOf Db)
  for_epoch epoch s = elim (s.snapshot epoch) [
    | none ↦ (err (not_opened D.missing_database), s)
    | some db ↦ elim (D.opening db) [
      | none ↦ (ok (record { epoch = epoch; db = db }), s)
      | some e ↦ (err (not_opened e), s)
    ]
  ]
