-- ===== src/Chain/Version/Migrate.antt =====
-- `migrate_db` on a store of an older version: it ends, sets the version and rebuilds the index of
-- the best chain.
use amaru_wear.Prelude.{
  ℕ, zero, suc, ◌<◌, ◌≡◌, refl, ◌∙◌, false, some, List, [], ◌∷◌, arith, length, ok, ◌>>◌, pure,
  bind_ok, then_ok, All,
}
use amaru_wear.Bytes.{Bytes, same, starts_with, same_refl}
use amaru_wear.RocksDb.{RocksDb, IsLawful, IsReliable, put_ok, reading}
use amaru_wear.Chain.{Kernel, IsKernel, best_chain_prefix, chain_key}
use amaru_wear.Chain.Version.Ancestry.{
  IsBestChain, IsDescending, write_points, slot_of, walk_back_lem, IsAncestry-write,
  content-write_points, content-write_points_other,
}
use amaru_wear.Chain.Write.{write_failed, db_put}
use amaru_wear.Chain.Version
use amaru_wear.Chain.Version.Laws.{HasVersion, get_version_ok}

module _ (R : RocksDb) (K : Kernel) (sound : IsReliable R) (L : IsLawful R) (N : IsKernel K) where
  open R use {Db, content, write}

  not_points :
      (hs : List K.Header)
      → All (λ h. same (chain_key (slot_of R K h)) Version.version_key ≡ false) hs
  unfolding same chain_key
  not_points [] = tt
  not_points (h ∷ hs) = (refl, not_points hs)

  module _ (fuel : ℕ) (g : Bytes) (hs : List K.Header) (lt : length hs < fuel) where
    migrated : Db → Db
    migrated d = write_points R K hs (write d Version.version_key (0 ∷ 2 ∷ []))

    IsBestChain-version :
        (d : Db) (v : Bytes)
        → IsBestChain R K g hs d
        → IsBestChain R K g hs (write d Version.version_key v)
    unfolding same starts_with
    IsBestChain-version d v b = record {
      tip = L.content-write d Version.version_key v best_chain_prefix ∙ b.tip;
      size = b.size;
      ancestry = IsAncestry-write R K sound L N hs d Version.version_key v g refl b.ancestry;
    }

    rebuild_chain_ok :
        (d : Db)
        → IsBestChain R K g hs d
        → Version.rebuild_chain R K fuel d ≡ (ok tt, write_points R K hs d)
    unfolding Version.rebuild_chain Version.best_chain_hash
    rebuild_chain_ok d b = ground (
      arith,
      sound d (reading best_chain_prefix),
      b.tip,
      b.size,
      walk_back_lem R K sound L N hs fuel g d b.ancestry lt,
    )

    migrate_to_v2_ok :
        (d : Db) → IsBestChain R K g hs d → Version.migrate_to_v2 R K fuel d ≡ (ok tt, migrated d)
    unfolding Version.migrate_to_v2 migrated
    migrate_to_v2_ok d b =
        then_ok (db_put R K Version.version_key (0 ∷ 2 ∷ [])) (Version.rebuild_chain R K fuel) d
          (put_ok R (write_failed R K) sound _ _ d)
        ∙ rebuild_chain_ok _ (IsBestChain-version d (0 ∷ 2 ∷ []) b)

    migrated-HasVersion : (d : Db) → HasVersion R (migrated d) 2
    migrated-HasVersion d =
        let d' = write d Version.version_key (0 ∷ 2 ∷ []) in
        let e : content (migrated d) Version.version_key ≡ some (0 ∷ 2 ∷ []) =
          unfold migrated in
          content-write_points_other R K sound L N hs d' Version.version_key (not_points hs)
          ∙ L.content-write d Version.version_key (0 ∷ 2 ∷ []) Version.version_key
          ∙ rw (same_refl Version.version_key) in
        rw e (unfold Version.version_of in refl)

    rounds_from_1 :
        (d : Db)
        → IsBestChain R K g hs d
        → Version.migrate_rounds R K fuel 1 1 d ≡ (ok tt, migrated d)
    unfolding Version.migrate_rounds Version.migration
    rounds_from_1 d b = then_ok (Version.migration R K fuel 1) (pure tt) d (migrate_to_v2_ok d b)

    rounds_from_0 :
        (d : Db)
        → IsBestChain R K g hs d
        → Version.migrate_rounds R K fuel 2 0 d
          ≡ (ok tt, migrated (write d Version.version_key (0 ∷ 1 ∷ [])))
    unfolding Version.migrate_rounds Version.migration Version.migrate_to_v1
    rounds_from_0 d b =
        then_ok (Version.migration R K fuel 0) (Version.migration R K fuel 1 >> pure tt) d
          (put_ok R (write_failed R K) sound Version.version_key (0 ∷ 1 ∷ []) d)
        ∙ rounds_from_1 _ (IsBestChain-version d (0 ∷ 1 ∷ []) b)

    -- The points of a best chain are on the index after its headers were walked.
    indexed :
        (d : Db)
        → IsDescending R K hs
        → All
            (λ h.
              content (migrated d) (chain_key (slot_of R K h)) ≡ some (K.hash_of_point (K.point h)))
            hs
    unfolding migrated
    indexed d desc = content-write_points R K sound L N hs _ desc

    -- Migrating a store of version 0 or 1, whose best chain is `hs` from its tip `g` back, each
    -- header at a strictly later slot than all the headers behind it, ends and succeeds once the
    -- fuel is above the length of the chain. The store then has the current version, and the index of the best chain holds the hash of each header's point at its slot.
    pub migrate_db_lem :
        (d : Db) (v : ℕ)
        → HasVersion R d v
        → v < Version.chain_db_version
        → IsBestChain R K g hs d
        → IsDescending R K hs
        → (d' : Db) × (Version.migrate_db R K fuel d ≡ (ok (v, Version.chain_db_version), d'))
          × HasVersion R d' Version.chain_db_version
          × All
              (λ h. content d' (chain_key (slot_of R K h)) ≡ some (K.hash_of_point (K.point h)))
              hs
    unfolding Version.migrate_db
    migrate_db_lem d zero h small b desc =
        let d0 = write d Version.version_key (0 ∷ 1 ∷ []) in
        (
          migrated d0,
          bind_ok (Version.get_version R K) _ d (get_version_ok R K sound L N d 0 h)
              ∙ then_ok (Version.migrate_rounds R K fuel 2 0) (pure (0, Version.chain_db_version)) d
                  (rounds_from_0 d b),
          migrated-HasVersion d0,
          indexed d0 desc,
        )
    migrate_db_lem d (suc zero) h small b desc = (
      migrated d,
      bind_ok (Version.get_version R K) _ d (get_version_ok R K sound L N d 1 h)
          ∙ then_ok (Version.migrate_rounds R K fuel 1 1) (pure (1, Version.chain_db_version)) d
              (rounds_from_1 d b),
      migrated-HasVersion d,
      indexed d desc,
    )
    migrate_db_lem d (suc (suc v)) h small b desc = absurd (omega arith)
