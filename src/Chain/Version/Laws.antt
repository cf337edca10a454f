-- ===== src/Chain/Version/Laws.antt =====
-- What opening a chain store checks, and what a new store is.
use amaru_wear.Prelude.{
  ℕ, ◌-◌, ◌≤◌, ◌≡◌, refl, ◌∙◌, true, false, some, [], ◌∷◌, arith, ◌==◌, ok, err, bind_ok, then_ok,
  if◌then◌else◌,
}
use amaru_wear.Bytes.{same_refl}
use amaru_wear.RocksDb.{RocksDb, IsLawful, IsReliable, get, get_ok, put_ok}
use amaru_wear.Chain.{Kernel, IsKernel, incompatible_versions}
use amaru_wear.Chain.Write.{write_failed}
use amaru_wear.Chain.Version

-- The version of a database whose version entry is well formed.
abbrev pub HasVersion : (R : RocksDb) → R.Db → ℕ → Type 0
HasVersion R d v = Version.version_of {E = R.Error} (R.content d Version.version_key) ≡ ok v

module _ (R : RocksDb) (K : Kernel) (sound : IsReliable R) (L : IsLawful R) (N : IsKernel K) where
  open R use {Db, content, write}

  pub get_version_ok : (d : Db) (v : ℕ) → HasVersion R d v → Version.get_version R K d ≡ (ok v, d)
  unfolding Version.get_version
  get_version_ok d v h =
      bind_ok (get R (Version.open_failed R K) Version.version_key) _ d
        (get_ok R (Version.open_failed R K) sound Version.version_key d)
      ∙ rw h

  -- `open` accepts a database exactly if its version is the current one; nothing is written.
  pub check_db_version_lem :
      (d : Db) (v : ℕ)
      → HasVersion R d v
      → Version.check_db_version R K d ≡ (
        if v == Version.chain_db_version
            then ok tt
            else err (incompatible_versions v Version.chain_db_version),
        d,
      )
  unfolding Version.check_db_version
  check_db_version_lem d v h =
      bind_ok (Version.get_version R K) _ d (get_version_ok d v h) ∙ ground arith

  no_rounds :
      (fuel v : ℕ) (d : Db)
      → Version.chain_db_version ≤ v
      → Version.migrate_rounds R K fuel (Version.chain_db_version - v) v d ≡ (ok tt, d)
  unfolding Version.migrate_rounds
  no_rounds fuel v d le =
      let e : Version.chain_db_version - v ≡ 0 = omega arith in rw (e, Version.migrate_rounds)

  -- A database of the current version, or of a newer one, is left as it is.
  pub migrate_db_newer :
      (fuel : ℕ) (d : Db) (v : ℕ)
      → HasVersion R d v
      → Version.chain_db_version ≤ v
      → Version.migrate_db R K fuel d ≡ (ok (v, Version.chain_db_version), d)
  unfolding Version.migrate_db
  migrate_db_newer fuel d v h le =
      bind_ok (Version.get_version R K) _ d (get_version_ok d v h)
      ∙ then_ok (Version.migrate_rounds R K fuel (Version.chain_db_version - v) v) _ d
          (no_rounds fuel v d le)

  -- A new store has the current version: `create` on an empty directory yields a database that
  -- `open` accepts unchanged.
  pub open_store-create_store :
      (dir : Version.Directory R K) (d : Db)
      → dir.files ≡ some 0
      → dir.open_db true ≡ ok d
      → (d' : Db) × (Version.create_store R K dir ≡ ok d')
        × ((again : Version.Directory R K)
            → again.open_db false ≡ ok d'
            → Version.open_store R K again ≡ ok d')
  unfolding Version.create_store Version.open_store Version.finish Version.set_version
      Version.version_of
  open_store-create_store dir d empty opened =
      let d' = write d Version.version_key (0 ∷ 2 ∷ []) in
      let set : Version.set_version R K d ≡ (ok tt, d') =
        put_ok R (write_failed R K) sound Version.version_key (0 ∷ 2 ∷ []) d in
      let e : content d' Version.version_key ≡ some (0 ∷ 2 ∷ []) =
        L.content-write d Version.version_key (0 ∷ 2 ∷ []) Version.version_key
        ∙ rw (same_refl Version.version_key) in
      (
        d',
        ground (arith, empty, opened, set),
        λ again reopened. ground (arith, reopened, check_db_version_lem d' 2 (rw e refl)),
      )
