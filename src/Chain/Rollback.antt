-- ===== src/Chain/Rollback.antt =====
-- `rollback_chain`: what it deletes, what it keeps, and when it fails.
use amaru_wear.Prelude.{
  ℕ, ◌+◌, ◌<◌, ◌≡◌, ◌∙◌, false, ◌&&◌, not, none, some, List, [], ◌∷◌, arith, ltb, length, ok,
  bind_ok, then_ok, if◌then◌else◌,
}
use amaru_wear.Bytes.{Bytes, before, starts_with}
use amaru_wear.RocksDb.{
  RocksDb, IsLawful, IsReliable, delete, iterate, delete_ok, iterate_ok, in_transaction_ok,
}
use amaru_wear.RocksDb.Prefix.{within_prefix, lookup-prefix_scan, erase_all, content-erase_all}
use amaru_wear.Chain.{Kernel, IsKernel, Point, chain_prefix, chain_key, next_slot, u64_size}
use amaru_wear.Chain.Keys.{before-chain_key, starts_with-chain_key}
use amaru_wear.Chain.Read.{load_from_best_chain}
use amaru_wear.Chain.Write.{write_failed, read_failed, delete_entries, delete_after, rollback_chain}

module _ (R : RocksDb) (K : Kernel) (sound : IsReliable R) (L : IsLawful R) (N : IsKernel K) where
  open R use {Db, Error, content, scan}

  -- The entries of the best chain from a slot on.
  abbrev pub points_from : ℕ → Db → List (Bytes × Bytes)
  points_from slot d = within_prefix chain_prefix (scan d (chain_key slot))

  delete_entries_ok :
      (count : ℕ) (l : List (Bytes × Bytes)) (d : Db)
      → delete_entries R K count l d ≡ (ok (count + length l), erase_all R L l d)
  unfolding delete_entries erase_all
  delete_entries_ok count [] d = ground arith
  delete_entries_ok count (e ∷ l) d =
      then_ok (delete R (write_failed R K) e.0) (delete_entries R K (count + 1) l) d
        (delete_ok R (write_failed R K) sound e.0 d)
      ∙ delete_entries_ok (count + 1) l (R.erase d e.0)
      ∙ ground arith

  delete_after_ok :
      (slot : ℕ) (d : Db)
      → delete_after R K slot d
        ≡ (ok (length (points_from slot d)), erase_all R L (points_from slot d) d)
  unfolding delete_after
  delete_after_ok slot d =
      bind_ok (iterate R (read_failed R K) (chain_key slot))
        (λ entries. delete_entries R K 0 (within_prefix chain_prefix entries)) d
        (iterate_ok R (read_failed R K) sound (chain_key slot) d)
      ∙ delete_entries_ok 0 (points_from slot d) d
      ∙ ground arith

  pub rollback_chain_ok :
      (p : Point) (d : Db) (h : Bytes)
      → load_from_best_chain R K p d ≡ some h
      → let l = points_from (next_slot (K.slot_or_default p)) d in
        rollback_chain R K p d ≡ (ok (length l), erase_all R L l d)
  unfolding rollback_chain
  rollback_chain_ok p d h found =
      rw (found, rollback_chain)
        (in_transaction_ok R (write_failed R K) sound (delete_after R K _) d (delete_after_ok _ d))

  -- The entries that go are those of the best chain from the slot on.
  content-points_from :
      (slot : ℕ) (d : Db) (j : Bytes)
      → content (erase_all R L (points_from slot d) d) j ≡ (
          if starts_with chain_prefix j && not (before j (chain_key slot))
          then none
          else content d j)
  content-points_from slot d j =
      content-erase_all R L (points_from slot d) d j
      ∙ ground (
        arith,
        lookup-prefix_scan R L d chain_prefix (chain_key slot) j (starts_with-chain_key slot),
      )

  -- A rollback to a point on the best chain, below the greatest slot, succeeds: every later point
  -- of the chain is gone, each point up to it is as before, and so is every entry of another kind.
  pub rollback_chain_lem :
      (p : Point) (d : Db) (h : Bytes)
      → load_from_best_chain R K p d ≡ some h
      → K.slot_or_default p + 1 < u64_size
      → (n : ℕ) × (d' : Db) × (rollback_chain R K p d ≡ (ok n, d'))
        × ((t : ℕ)
            → t < u64_size
            → content d' (chain_key t)
              ≡ (if ltb (K.slot_or_default p) t then none else content d (chain_key t)))
        × ((j : Bytes) → starts_with chain_prefix j ≡ false → content d' j ≡ content d j)
  unfolding next_slot
  rollback_chain_lem p d h found small =
      let s = K.slot_or_default p in
      let e : next_slot s ≡ s + 1 = ground arith in
      (
        length (points_from (next_slot s) d),
        erase_all R L (points_from (next_slot s) d) d,
        rollback_chain_ok p d h found,
        λ t ht.
            content-points_from (next_slot s) d (chain_key t)
            ∙ rw e (ground (arith, starts_with-chain_key t, before-chain_key t (s + 1) ht small)),
        λ j other. content-points_from (next_slot s) d j ∙ rw other,
      )
