-- ===== src/Chain/Version.antt =====
-- The version of the chain store and its migrations, rocksdb/consensus/migration.rs, and how
-- `RocksDBStore` in rocksdb/consensus/mod.rs opens a store.
pub mod Ancestry
pub mod Laws
pub mod Migrate
use amaru_wear.Prelude.{
  ℕ, zero, suc, ◌+◌, ◌-◌, ◌*◌, ◌/◌, ◌%◌, Bool, true, false, Option, none, some, List, [], ◌∷◌, ◌++◌,
  ◌==◌, ltb, not, length, get_elem?, Result, ok, err, panic, out_of_fuel, Exec, ◌>>=◌, ◌>>◌, pure,
  raise, lift, bind_result, if◌then◌else◌,
}
use amaru_wear.Bytes.{Bytes}
use amaru_wear.RocksDb.{RocksDb, get, put, reading}
use amaru_wear.Chain.{
  Kernel, Point, StoreError, open_error, incompatible_versions, rocksdb_error, directory_not_empty,
  invalid_version_length, best_chain_prefix,
}
use amaru_wear.Chain.Read.{peek, hash_from, load_header}
use amaru_wear.Chain.Write.{ChainExec, write_failed, db_put, store_chain_point}

abbrev pub chain_db_version : ℕ
chain_db_version = 2

-- __VERSION__
abbrev pub version_key : Bytes
version_key = 0x5f ∷ 0x5f ∷ 0x56 ∷ 0x45 ∷ 0x52 ∷ 0x53 ∷ 0x49 ∷ 0x4f ∷ 0x4e ∷ 0x5f ∷ 0x5f ∷ []

-- The version that the stored bytes stand for. Bytes are below 256, so `|` is `+` here.
unfoldable pub version_of : {E : Type 0} → Option Bytes → Result (StoreError E) ℕ
version_of none = ok 0
version_of (some (v0 ∷ v1 ∷ [])) = ok (v0 * 256 + v1)
version_of (some v) = err (open_error (invalid_version_length (length v)))

module _ (R : RocksDb) (K : Kernel) where
  open R use {Db, Error}

  abbrev pub open_failed : Error → StoreError Error
  open_failed e = open_error (rocksdb_error e)

  unfoldable pub get_version : ChainExec R K ℕ
  get_version = do raw ← get R open_failed version_key; lift (version_of raw)

  unfoldable pub set_version : ChainExec R K (Unit {0})
  set_version =
      db_put R K version_key (((chain_db_version / 256) % 256) ∷ (chain_db_version % 256) ∷ [])

  unfoldable pub check_db_version : ChainExec R K (Unit {0})
  check_db_version = do
    stored ← get_version
    if not (stored == chain_db_version)
        then raise (incompatible_versions stored chain_db_version)
        else pure tt

  unfoldable pub migrate_to_v1 : ChainExec R K (Unit {0})
  migrate_to_v1 = db_put R K version_key (0 ∷ 1 ∷ [])

  -- `get_best_chain_hash` of migration.rs has no default.
  unfoldable pub best_chain_hash : Db → Option Bytes
  unfolding peek hash_from
  best_chain_hash d = elim (peek R K best_chain_prefix d) [ none ↦ none | some b ↦ hash_from b ]

  -- `match header.parent()`: on with the parent, or the end of the loop.
  unfoldable pub to_parent :
      Option Bytes → (Bytes → ChainExec R K (Unit {0})) → ChainExec R K (Unit {0})
  to_parent none rest = pure tt
  to_parent (some g) rest = rest g

  -- The `while let` loop of `migrate_to_v2`: from a hash back along the parents.
  unfoldable pub walk_back : ℕ → Bytes → ChainExec R K (Unit {0})
  walk_back zero hash d = (out_of_fuel, d)
  walk_back (suc fuel) hash d = elim (load_header R K hash d) [
    | none ↦ (ok tt, d)
    | some h ↦
        (store_chain_point R K (K.point h) >> to_parent (K.parent h) (λ g. walk_back fuel g)) d
  ]

  unfoldable pub rebuild_chain : ℕ → ChainExec R K (Unit {0})
  rebuild_chain fuel d = elim (best_chain_hash d) [
    | none ↦ (ok tt, d)
    | some hash ↦ walk_back fuel hash d
  ]

  -- The version is written first, outside a transaction, and the points after it.
  unfoldable pub migrate_to_v2 : ℕ → ChainExec R K (Unit {0})
  migrate_to_v2 fuel = db_put R K version_key (0 ∷ 2 ∷ []) >> rebuild_chain fuel

  unfoldable pub migrations : ℕ → List (ChainExec R K (Unit {0}))
  migrations fuel = migrate_to_v1 ∷ migrate_to_v2 fuel ∷ []

  -- `MIGRATIONS[n](db)?`
  unfoldable pub migration : ℕ → ℕ → ChainExec R K (Unit {0})
  unfolding migrations
  migration fuel n d = elim (get_elem? (migrations fuel) n) [ none ↦ (panic, d) | some m ↦ m d ]

  -- `for n in version..CHAIN_DB_VERSION`, with the rounds that are left.
  unfoldable pub migrate_rounds : ℕ → ℕ → ℕ → ChainExec R K (Unit {0})
  migrate_rounds fuel zero n = pure tt
  migrate_rounds fuel (suc rounds) n = migration fuel n >> migrate_rounds fuel rounds (n + 1)

  unfoldable pub migrate_db : ℕ → ChainExec R K (ℕ × ℕ)
  migrate_db fuel = do
    version ← get_version
    migrate_rounds fuel (chain_db_version - version) version
    pure (version, chain_db_version)

  -- The directory of a store: the number of its files, if it can be read, and what opening gives,
  -- with `create_if_missing` off or on.
  pub record Directory : Type 0 where
    pub files : Option ℕ
    pub open_db : Bool → Result (StoreError Error) Db

  -- What opening yields, as far as a later step on it succeeds.
  unfoldable pub finish :
      {A : Type 0} → Result (StoreError Error) Db → ChainExec R K A → Result (StoreError Error) Db
  finish (err e) step = err e
  finish panic step = panic
  finish out_of_fuel step = out_of_fuel
  finish (ok d) step = elim (step d).0 [
    | ok a ↦ ok (step d).1
    | err e ↦ err e
    | panic ↦ panic
    | out_of_fuel ↦ out_of_fuel
  ]

  -- `RocksDBStore::open`
  unfoldable pub open_store : Directory → Result (StoreError Error) Db
  open_store dir = finish (dir.open_db false) check_db_version

  -- `RocksDBStore::create`
  unfoldable pub create_store : Directory → Result (StoreError Error) Db
  create_store dir = elim dir.files [
    | none ↦ finish (dir.open_db true) set_version
    | some n ↦
        if ltb 0 n
        then err (open_error directory_not_empty)
        else finish (dir.open_db true) set_version
  ]

  -- `RocksDBStore::open_and_migrate`
  unfoldable pub open_and_migrate : ℕ → Directory → Result (StoreError Error) Db
  open_and_migrate fuel dir = finish (dir.open_db true) (migrate_db fuel)
