-- ===== src/Ledger/Pools/Loops.antt =====
-- The loops of `add` and `remove` of pools.
use amaru_wear.Prelude.{ℕ, ◌≡◌, refl, sym, ap, ◌∙◌, Option, none, some, List, Bool-cases, inl, inr}
use amaru_wear.Bytes.{same}
use amaru_wear.RocksDb.{RocksDb, IsLawful, IsReliable}
use amaru_wear.Ledger.{LedgerKernel, IsLedgerKernel, pools_prefix}
use amaru_wear.Ledger.Column.{updated, steps, for_each-Makes, Holds-same, same_key}
use amaru_wear.Ledger.Pools.{
  add_pool, add_pools, remove_pool, remove_pools, Pools, HoldsPools, MakesPools, with_pool,
  pool_row, add_pool_lem, remove_pool_lem,
}

module _ (R : RocksDb) (K : LedgerKernel) where
  open R use {Db}
  open K use {Pointer, PoolId, PoolParams, PoolRow, pool_id, scheduled, pool_id_codec, pool_codec}

  abbrev add_to : PoolParams × (Pointer × ℕ) → Pools R K → Pools R K
  add_to x m = with_pool R K (pool_id x.0) (pool_row R K x.0 x.1.0 x.1.1 (m (pool_id x.0))) m

  abbrev pub retired : ℕ → Option PoolRow → Option PoolRow
  retired epoch none = none
  retired epoch (some row) = some (scheduled (none, epoch) row)

  abbrev retire_in : PoolId × ℕ → Pools R K → Pools R K
  retire_in x m = updated R pool_id_codec pool_codec pools_prefix x.0 (retired x.1 (m x.0)) m

  -- The pools after `add` and after `remove` of a list.
  abbrev pub pools_added : List (PoolParams × (Pointer × ℕ)) → Pools R K → Pools R K
  pools_added = steps R pool_id_codec pool_codec pools_prefix add_to

  abbrev pub pools_removed : List (PoolId × ℕ) → Pools R K → Pools R K
  pools_removed = steps R pool_id_codec pool_codec pools_prefix retire_in

  module _ (sound : IsReliable R) (L : IsLawful R) (N : IsLedgerKernel K) where
    add_pool_made :
        (x : PoolParams × (Pointer × ℕ)) (m : Pools R K) (d : Db)
        → HoldsPools R K m d
        → MakesPools R K (add_pool R K x) d tt (add_to x m)
    add_pool_made (params, (registered_at, epoch)) m d h =
        add_pool_lem R K sound L N params registered_at epoch m d h

    pub add_pools_made :
        (rows : List (PoolParams × (Pointer × ℕ))) (m : Pools R K) (d : Db)
        → HoldsPools R K m d
        → MakesPools R K (add_pools R K rows) d tt (pools_added rows m)
    unfolding add_pools
    add_pools_made rows m d h =
        for_each-Makes R pool_id_codec pool_codec pools_prefix add_to (add_pool R K) add_pool_made
          rows m d h

    unknown_stays :
        (pool : PoolId) (epoch : ℕ) (m : Pools R K)
        → m pool ≡ none
        → (c : PoolId) → m c ≡ retire_in (pool, epoch) m c
    unknown_stays pool epoch m e c =
        elim (Bool-cases (same (pool_id_codec.encode pool) (pool_id_codec.encode c))) [
          | inl s ↦
              let p : pool ≡ c =
                same_key R pool_id_codec pool_codec pools_prefix sound L N.pool_ids N.pools pool c
                  s in
              rw (s, e) (ap m (sym p) ∙ e)
          | inr s ↦ rw s refl
        ]

    remove_pool_made :
        (x : PoolId × ℕ) (m : Pools R K) (d : Db)
        → HoldsPools R K m d
        → MakesPools R K (remove_pool R K x) d tt (retire_in x m)
    remove_pool_made (pool, epoch) m d h = elim (remove_pool_lem R K sound L N pool epoch m d h) [
      | inl (unknown, done) ↦ (
        d,
        done,
        Holds-same R pool_id_codec pool_codec pools_prefix m _ d
            (unknown_stays pool epoch m unknown) h,
        λ j other. refl,
      )
      | inr (row, known, made) ↦ rw known made
    ]

    pub remove_pools_made :
        (rows : List (PoolId × ℕ)) (m : Pools R K) (d : Db)
        → HoldsPools R K m d
        → MakesPools R K (remove_pools R K rows) d tt (pools_removed rows m)
    unfolding remove_pools
    remove_pools_made rows m d h =
        for_each-Makes R pool_id_codec pool_codec pools_prefix retire_in (remove_pool R K)
          remove_pool_made rows m d h
