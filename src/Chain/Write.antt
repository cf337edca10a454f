-- ===== src/Chain/Write.antt =====
-- `ChainStore` of rocksdb/consensus/mod.rs: the writes of the chain store.
use amaru_wear.Prelude.{
  ℕ, ◌+◌, Option, none, some, List, [], ◌∷◌, ◌++◌, err, Exec, ◌>>=◌, ◌>>◌, pure,
}
use amaru_wear.Bytes.{Bytes}
use amaru_wear.RocksDb.{RocksDb, put, delete, iterate, in_transaction}
use amaru_wear.RocksDb.Prefix.{within_prefix}
use amaru_wear.Chain.{
  Kernel, Point, StoreError, write_error, read_error, rocksdb_error, not_on_best_chain,
  anchor_prefix, best_chain_prefix, block_prefix, chain_prefix, header_prefix, nonces_prefix,
  chain_key, child_key, next_slot,
}
use amaru_wear.Chain.Read.{load_from_best_chain}

module _ (R : RocksDb) (K : Kernel) where
  open R use {Db, Error}
  open K use {
    Header, Nonces, hash, parent, slot_or_default, hash_of_point, header_to_cbor, nonces_to_cbor,
  }

  abbrev pub ChainExec : Type 0 → Type 0
  ChainExec A = Exec Db (StoreError Error) A

  -- `map_err(|e| StoreError::WriteError { .. })`
  abbrev pub write_failed : Error → StoreError Error
  write_failed e = write_error (rocksdb_error e)

  abbrev pub read_failed : Error → StoreError Error
  read_failed e = read_error (rocksdb_error e)

  abbrev pub db_put : Bytes → Bytes → ChainExec (Unit {0})
  db_put = put R write_failed

  -- `with_transaction`: commits if the body returns `Ok`, and rolls back otherwise.
  abbrev pub with_transaction : {A : Type 0} → ChainExec A → ChainExec A
  with_transaction = in_transaction R write_failed

  unfoldable pub store_chain_point : Point → ChainExec (Unit {0})
  store_chain_point p = db_put (chain_key (slot_or_default p)) (hash_of_point p)

  -- The link from the parent, if the header has one.
  unfoldable pub put_link : Option Bytes → Bytes → ChainExec (Unit {0})
  put_link none child = pure tt
  put_link (some parent) child = db_put (child_key parent child) []

  unfoldable pub store_header_in_tx : Header → ChainExec (Unit {0})
  store_header_in_tx h = do
    put_link (parent h) (hash h)
    db_put (header_prefix ++ hash h) (header_to_cbor h)

  unfoldable pub store_header : Header → ChainExec (Unit {0})
  store_header h = with_transaction (store_header_in_tx h)

  unfoldable pub put_nonces : Bytes → Nonces → ChainExec (Unit {0})
  put_nonces header nonces = db_put (nonces_prefix ++ header) (nonces_to_cbor nonces)

  unfoldable pub store_block : Bytes → Bytes → ChainExec (Unit {0})
  store_block h block = db_put (block_prefix ++ h) block

  unfoldable pub set_anchor_hash : Bytes → ChainExec (Unit {0})
  set_anchor_hash h = db_put anchor_prefix h

  unfoldable pub set_best_chain_hash : Bytes → ChainExec (Unit {0})
  set_best_chain_hash h = db_put best_chain_prefix h

  unfoldable pub roll_forward_chain : Point → ChainExec (Unit {0})
  roll_forward_chain = store_chain_point

  -- The loop of `rollback_chain`: deletes each entry, and counts.
  unfoldable pub delete_entries : ℕ → List (Bytes × Bytes) → ChainExec ℕ
  delete_entries count [] = pure count
  delete_entries count (e ∷ l) = delete R write_failed e.0 >> delete_entries (count + 1) l

  unfoldable pub delete_after : ℕ → ChainExec ℕ
  delete_after slot = do
    entries ← iterate R read_failed (chain_key slot)
    delete_entries 0 (within_prefix chain_prefix entries)

  unfoldable pub rollback_chain : Point → ChainExec ℕ
  rollback_chain p d = elim (load_from_best_chain R K p d) [
    | none ↦ (err (read_error (not_on_best_chain p)), d)
    | some h ↦ with_transaction (delete_after (next_slot (slot_or_default p))) d
  ]
