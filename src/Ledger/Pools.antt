-- ===== src/Ledger/Pools.antt =====
-- The stake pools, rust/patches/amaru-stores/src/rocksdb/ledger/columns/pools.rs.
pub mod Loops
use amaru_wear.Prelude.{
  ℕ, ◌≡◌, refl, ◌∙◌, Option, none, some, List, ok, ◌>>=◌, pure, for_each, bind_ok, Option-cases,
  inl, inr, ◌⊎◌,
}
use amaru_wear.Bytes.{Bytes}
use amaru_wear.RocksDb.{RocksDb, IsLawful, IsReliable, get, put, get_ok}
use amaru_wear.Ledger.{
  LedgerKernel, IsLedgerKernel, internal, LedgerExec, pools_prefix, as_key, get_row, put_row,
}
use amaru_wear.Ledger.Column.{Rows, Holds, Makes, encoded, updated, put_row-Makes}

module _ (R : RocksDb) (K : LedgerKernel) where
  open K use {
    Pointer, PoolId, PoolParams, PoolRow, pool_id, new_pool_row, extend, scheduled, pool_id_codec,
    pool_codec,
  }

  abbrev pub pool_key : PoolId → Bytes
  pool_key = as_key pool_id_codec pools_prefix

  unfoldable pub get_pool : PoolId → LedgerExec R (Option PoolRow)
  get_pool pool = get_row R pool_codec (pool_key pool)

  -- The first parameters of a pool are its row; later ones are added to the row's bytes.
  unfoldable pub pool_bytes : PoolParams → Pointer → ℕ → Option Bytes → Bytes
  pool_bytes params registered_at epoch none = pool_codec.encode (new_pool_row registered_at params)
  pool_bytes params registered_at epoch (some existing) = extend existing (some params, epoch)

  unfoldable pub add_pool : PoolParams × (Pointer × ℕ) → LedgerExec R (Unit {0})
  add_pool (params, (registered_at, epoch)) = do
    existing ← get R internal (pool_key (pool_id params))
    put R internal (pool_key (pool_id params)) (pool_bytes params registered_at epoch existing)

  unfoldable pub add_pools : List (PoolParams × (Pointer × ℕ)) → LedgerExec R (Unit {0})
  add_pools rows = for_each rows add_pool

  -- A pool is not deleted: its removal is an empty update at an epoch.
  unfoldable pub retire : PoolId → ℕ → Option Bytes → LedgerExec R (Unit {0})
  retire pool epoch none = pure tt
  retire pool epoch (some existing) = put R internal (pool_key pool) (extend existing (none, epoch))

  unfoldable pub remove_pool : PoolId × ℕ → LedgerExec R (Unit {0})
  remove_pool (pool, epoch) = do
    existing ← get R internal (pool_key pool)
    retire pool epoch existing

  unfoldable pub remove_pools : List (PoolId × ℕ) → LedgerExec R (Unit {0})
  remove_pools rows = for_each rows remove_pool

  abbrev pub Pools : Type 0
  Pools = Rows R pool_id_codec pool_codec pools_prefix

  abbrev pub HoldsPools : Pools → R.Db → Type 0
  HoldsPools m d = Holds R pool_id_codec pool_codec pools_prefix m d

  abbrev pub MakesPools : {X : Type 0} → LedgerExec R X → R.Db → X → Pools → Type 0
  MakesPools action d x m = Makes R pool_id_codec pool_codec pools_prefix action d x m

  abbrev pub with_pool : PoolId → PoolRow → Pools → Pools
  with_pool pool row m = updated R pool_id_codec pool_codec pools_prefix pool (some row) m

  -- The row after `add`.
  abbrev pub pool_row : PoolParams → Pointer → ℕ → Option PoolRow → PoolRow
  pool_row params registered_at epoch none = new_pool_row registered_at params
  pool_row params registered_at epoch (some row) = scheduled (some params, epoch) row

  module _ (sound : IsReliable R) (L : IsLawful R) (N : IsLedgerKernel K) where
    pool_bytes-encoded :
        (params : PoolParams) (registered_at : Pointer) (epoch : ℕ) (o : Option PoolRow)
        → pool_bytes params registered_at epoch (encoded R pool_id_codec pool_codec pools_prefix o)
          ≡ pool_codec.encode (pool_row params registered_at epoch o)
    unfolding pool_bytes
    pool_bytes-encoded params registered_at epoch none = refl
    pool_bytes-encoded params registered_at epoch (some row) =
        N.extend_scheduled (some params, epoch) row

    -- `add` creates the row of a new pool at once, and schedules the parameters of a known one for
    -- the epoch; no other pool and no other column changes.
    pub add_pool_lem :
        (params : PoolParams) (registered_at : Pointer) (epoch : ℕ) (m : Pools) (d : R.Db)
        → HoldsPools m d
        → MakesPools (add_pool (params, (registered_at, epoch))) d tt (
            with_pool (pool_id params) (pool_row params registered_at epoch (m (pool_id params))) m)
    unfolding add_pool put_row
    add_pool_lem params registered_at epoch m d h =
        let k = pool_key (pool_id params) in
        let row = pool_row params registered_at epoch (m (pool_id params)) in
        let (d', done, h', frame) =
          put_row-Makes R pool_id_codec pool_codec pools_prefix sound L N.pools (pool_id params) row
            m d h in
        (
          d',
          bind_ok (get R internal k) _ d (get_ok R internal sound k d)
              ∙ rw
                  (
                    h.at_key (pool_id params),
                    pool_bytes-encoded params registered_at epoch (m (pool_id params)),
                  )
                  done,
          h',
          frame,
        )

    -- `remove` schedules the retirement of a known pool, whose row stays, and does nothing for an
    -- unknown one.
    pub remove_pool_lem :
        (pool : PoolId) (epoch : ℕ) (m : Pools) (d : R.Db)
        → HoldsPools m d
        → ((m pool ≡ none) × (remove_pool (pool, epoch) d ≡ (ok tt, d)))
          ⊎ ((row : PoolRow) × (m pool ≡ some row)
              × MakesPools
                  (remove_pool (pool, epoch))
                  d
                  tt
                  (with_pool pool (scheduled (none, epoch) row) m))
    unfolding remove_pool retire put_row
    remove_pool_lem pool epoch m d h =
        let read =
          bind_ok (get R internal (pool_key pool)) (retire pool epoch) d
            (get_ok R internal sound (pool_key pool) d) in
        elim (Option-cases (m pool)) [
          | inl e ↦ inl (e, read ∙ rw (h.at_key pool, e) refl)
          | inr (row, e) ↦
              let (d', done, h', frame) =
                put_row-Makes R pool_id_codec pool_codec pools_prefix sound L N.pools pool
                  (scheduled (none, epoch) row) m d h in
              inr (
                row,
                e,
                (
                  d',
                  read ∙ rw (h.at_key pool, e, N.extend_scheduled (none, epoch) row) done,
                  h',
                  frame,
                ),
              )
        ]
