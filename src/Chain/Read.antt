-- ===== src/Chain/Read.antt =====
-- `ReadOnlyChainStore` of rocksdb/consensus/mod.rs: the reads of the chain store. A read that fails
-- is mostly taken for an absent entry, and a malformed key panics.
use amaru_wear.Prelude.{
  ◌+◌, Bool, true, false, Option, none, some, List, [], ◌∷◌, ◌++◌, ◌==◌, length, take, drop, Result,
  ok, err, panic, out_of_fuel, if◌then◌else◌,
}
use amaru_wear.Bytes.{Bytes, same, from_be_bytes}
use amaru_wear.RocksDb.{RocksDb, reading, iterating}
use amaru_wear.RocksDb.Prefix.{within_prefix}
use amaru_wear.Chain.{
  Kernel, Point, specific, StoreError, read_error, rocksdb_error, not_found, header_hash_size,
  consensus_prefix_len, anchor_prefix, best_chain_prefix, block_prefix, child_prefix, header_prefix,
  nonces_prefix, chain_key, next_slot,
}

-- The bytes of a hash, if they have its length.
unfoldable pub hash_from : Bytes → Option Bytes
hash_from b = if length b == header_hash_size then some b else none

-- The child's hash in a key of the parent's children: `copy_from_slice` panics on another length.
unfoldable pub child_of_key : {E : Type 0} → Bytes → Result E Bytes
child_of_key key =
    let child = drop (consensus_prefix_len + header_hash_size) key in
    if length child == header_hash_size then ok child else panic

-- The loop of `get_children` over the entries of the iterator.
unfoldable pub collect_children : {E : Type 0} → List (Bytes × Bytes) → Result E (List Bytes)
collect_children [] = ok []
collect_children (e ∷ l) = elim (child_of_key e.0) [
  | ok child ↦ elim (collect_children l) [
    | ok rest ↦ ok (child ∷ rest)
    | err x ↦ err x
    | panic ↦ panic
    | out_of_fuel ↦ out_of_fuel
  ]
  | err x ↦ err x
  | panic ↦ panic
  | out_of_fuel ↦ out_of_fuel
]

-- The first entry that the iterator of `next_best_chain` yields, as a point.
unfoldable pub point_of_entry : {E : Type 0} → List (Bytes × Bytes) → Result E (Option Point)
point_of_entry [] = ok none
point_of_entry ((k, v) ∷ l) =
    let slot_bytes = take 8 (drop consensus_prefix_len k) in
    if length slot_bytes == 8
    then ok (
        if length v == header_hash_size then some (specific (from_be_bytes slot_bytes) v) else none)
    else panic

module _ (R : RocksDb) (K : Kernel) where
  open R use {Db, Error, fault, content, scan}
  open K use {
    Header, Nonces, slot_or_default, hash_of_point, origin_hash, header_from_cbor, nonces_from_cbor,
  }

  -- `db.get_pinned(key).ok().flatten()`
  unfoldable pub peek : Bytes → Db → Option Bytes
  peek k d = elim (fault d (reading k)) [ none ↦ content d k | some e ↦ none ]

  unfoldable pub load_header : Bytes → Db → Option Header
  load_header hash d = elim (peek (header_prefix ++ hash) d) [
    | none ↦ none
    | some b ↦ header_from_cbor b
  ]

  unfoldable pub get_children : Bytes → Db → Result (StoreError Error) (List Bytes)
  get_children hash d =
      let prefix = child_prefix ++ hash in
      elim (fault d (iterating prefix)) [
        | none ↦ collect_children (within_prefix prefix (scan d prefix))
        | some e ↦ panic
      ]

  -- The hash at a key, or the origin's.
  unfoldable pub hash_at : Bytes → Db → Bytes
  unfolding hash_from peek
  hash_at key d = elim (peek key d) [
    | none ↦ origin_hash
    | some b ↦ elim (hash_from b) [ none ↦ origin_hash | some h ↦ h ]
  ]

  unfoldable pub get_anchor_hash : Db → Bytes
  unfolding hash_at
  get_anchor_hash = hash_at anchor_prefix

  unfoldable pub get_best_chain_hash : Db → Bytes
  unfolding hash_at
  get_best_chain_hash = hash_at best_chain_prefix

  unfoldable pub has_header : Bytes → Db → Bool
  unfolding peek
  has_header hash d = elim (peek (header_prefix ++ hash) d) [ none ↦ false | some b ↦ true ]

  unfoldable pub get_nonces : Bytes → Db → Option Nonces
  unfolding peek
  get_nonces header d = elim (peek (nonces_prefix ++ header) d) [
    | none ↦ none
    | some b ↦ nonces_from_cbor b
  ]

  unfoldable pub load_block : Bytes → Db → Result (StoreError Error) Bytes
  load_block hash d = elim (fault d (reading (block_prefix ++ hash))) [
    | some e ↦ err (read_error (rocksdb_error e))
    | none ↦ elim (content d (block_prefix ++ hash)) [ none ↦ err (not_found hash) | some b ↦ ok b ]
  ]

  unfoldable pub load_from_best_chain : Point → Db → Option Bytes
  unfolding peek hash_from
  load_from_best_chain p d = elim (peek (chain_key (slot_or_default p)) d) [
    | none ↦ none
    | some b ↦ elim (hash_from b) [
      | none ↦ none
      | some h ↦ if same h (hash_of_point p) then some h else none
    ]
  ]

  -- The iterator has no bound: after the last point of the chain it goes on to other keys.
  unfoldable pub next_best_chain : Point → Db → Result (StoreError Error) (Option Point)
  next_best_chain p d =
      let start = chain_key (next_slot (slot_or_default p)) in
      elim (fault d (iterating start)) [ none ↦ point_of_entry (scan d start) | some e ↦ ok none ]
