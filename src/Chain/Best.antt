-- ===== src/Chain/Best.antt =====
-- The best chain as an index from slots to hashes: `roll_forward_chain`, `load_from_best_chain` and
-- `next_best_chain`.
use amaru_wear.Prelude.{
  ℕ, ◌+◌, ◌<◌, ◌≡◌, sym, ◌∙◌, true, false, Bool-cases, inl, inr, none, some, List, [], ◌∷◌, arith,
  ltb, ◌==◌, length, take, drop, ok, if◌then◌else◌, take_of_length,
}
use amaru_wear.Bytes.{Bytes, same, before, starts_with, be_bytes, same→eq, same_refl}
use amaru_wear.Bytes.Endian.{length-be_bytes, be_value-be_bytes}
use amaru_wear.RocksDb.{RocksDb, IsLawful, IsReliable, IsSorted, lookup, reading, iterating, put_ok}
use amaru_wear.RocksDb.Prefix.{starts_with_convex, lookup_above}
use amaru_wear.Chain.{
  Kernel, IsKernel, Point, specific, chain_prefix, chain_key, next_slot, next_slot_lem, u64_size,
  header_hash_size,
}
use amaru_wear.Chain.Keys.{same-chain_key, before-chain_key, starts_with-chain_key}
use amaru_wear.Chain.Read.{peek, load_from_best_chain, point_of_entry, next_best_chain}
use amaru_wear.Chain.Write.{write_failed, store_chain_point, roll_forward_chain}

slot_bytes-chain_key : (t : ℕ) → take 8 (drop 5 (chain_key t)) ≡ be_bytes 8 t
unfolding chain_key
slot_bytes-chain_key t = take_of_length 8 (be_bytes 8 t) (length-be_bytes 8 t)

-- An entry of the best chain gives back its slot and its hash.
point_of_chain_entry :
    {E : Type 0} (t : ℕ) (h : Bytes) (l : List (Bytes × Bytes))
    → t < u64_size
    → length h ≡ header_hash_size
    → point_of_entry {E = E} ((chain_key t, h) ∷ l) ≡ ok (some (specific t h))
unfolding point_of_entry
point_of_chain_entry t h l small size =
    rw (slot_bytes-chain_key t, length-be_bytes 8 t, be_value-be_bytes 8 t small, size)

module _ (R : RocksDb) where
  open R use {Db, content, scan}

  -- Every key under the prefix is that of a slot, and holds a hash.
  pub record IsChain (d : Db) : Type 0 where
    pub at_slot :
        (j v : Bytes)
        → starts_with chain_prefix j ≡ true
        → content d j ≡ some v
        → (t : ℕ) × (t < u64_size) × (j ≡ chain_key t) × (length v ≡ header_hash_size)

  IsChain-size :
      (d : Db) (t : ℕ) (h : Bytes)
      → IsChain d
      → content d (chain_key t) ≡ some h
      → length h ≡ header_hash_size
  IsChain-size d t h chain e = (chain.at_slot (chain_key t) h (starts_with-chain_key t) e).3

  module _ (K : Kernel) (sound : IsReliable R) (L : IsLawful R) (N : IsKernel K) where
    pub peek_ok : (k : Bytes) (d : Db) → peek R K k d ≡ content d k
    unfolding peek
    peek_ok k d = rw (sound d (reading k), peek)

    pub store_chain_point_ok :
        (p : Point) (d : Db)
        → store_chain_point R K p d
          ≡ (ok tt, R.write d (chain_key (K.slot_or_default p)) (K.hash_of_point p))
    unfolding store_chain_point
    store_chain_point_ok p d = put_ok R (write_failed R K) sound _ _ d

    pub roll_forward_chain_ok :
        (p : Point) (d : Db)
        → roll_forward_chain R K p d
          ≡ (ok tt, R.write d (chain_key (K.slot_or_default p)) (K.hash_of_point p))
    unfolding roll_forward_chain
    roll_forward_chain_ok p d = store_chain_point_ok p d

    -- Rolling the chain forward to a point succeeds and sets the entry of its slot and no other: a
    -- point of that slot is then on the best chain exactly if it has the new hash.
    pub load_from_best_chain-roll_forward_chain :
        (p q : Point) (d : Db)
        → (d' : Db) × (roll_forward_chain R K p d ≡ (ok tt, d'))
          × (load_from_best_chain R K q d' ≡ (
              if K.slot_or_default p == K.slot_or_default q
              then (if same (K.hash_of_point p) (K.hash_of_point q)
                  then some (K.hash_of_point p)
                  else none)
              else load_from_best_chain R K q d))
    unfolding load_from_best_chain
    load_from_best_chain-roll_forward_chain p q d = (
      R.write d (chain_key (K.slot_or_default p)) (K.hash_of_point p),
      roll_forward_chain_ok p d,
      ground (
        arith,
        sound d (reading (chain_key (K.slot_or_default q))),
        sound (R.write d (chain_key (K.slot_or_default p)) (K.hash_of_point p))
            (reading (chain_key (K.slot_or_default q))),
        L.content-write d (chain_key (K.slot_or_default p)) (K.hash_of_point p)
            (chain_key (K.slot_or_default q)),
        same-chain_key (K.slot_or_default p) (K.slot_or_default q) (N.slot-lt p) (N.slot-lt q),
        N.length-hash_of_point p,
      ),
    )

    -- The entry with the least key that an iterator finds.
    first_entry :
        {E : Type 0} (t : ℕ) (h : Bytes) (l : List (Bytes × Bytes))
        → IsSorted l
        → t < u64_size
        → length h ≡ header_hash_size
        → lookup (chain_key t) l ≡ some h
        → ((j v : Bytes) → lookup j l ≡ some v → before j (chain_key t) ≡ true → ⊥)
        → point_of_entry {E = E} l ≡ ok (some (specific t h))
    unfolding lookup
    first_entry t h [] sorted small size found least = ground arith
    first_entry t h ((k, v) ∷ l) sorted small size found least =
        elim (Bool-cases (same k (chain_key t))) [
          | inl e ↦
              let p : k ≡ chain_key t = same→eq k (chain_key t) e in
              let q : v ≡ h = ground (arith, found) in
              rw (p, q) (point_of_chain_entry t h l small size)
          | inr e ↦ elim (Bool-cases (before k (chain_key t))) [
            | inl b ↦ absurd (least k v (ground (arith, same_refl k)) b)
            | inr b ↦ ground (arith, lookup_above (chain_key t) k l sorted.0 b)
          ]
        ]

    -- Between two neighbouring points of the chain there is no entry of any kind.
    no_entry_between :
        (d : Db) (s t : ℕ)
        → IsChain d
        → s < t
        → t < u64_size
        → ((u : ℕ) → s < u → u < t → content d (chain_key u) ≡ none)
        → (j v : Bytes) → lookup j (scan d (chain_key (s + 1))) ≡ some v
        → before j (chain_key t) ≡ true
        → ⊥
    no_entry_between d s t chain after small none_between j v found b =
        let start = chain_key (s + 1) in
        let looked = L.lookup-scan d start j in
        let from_start : before j start ≡ false = ground (arith, looked) in
        let here : content d j ≡ some v = ground (arith, looked) in
        let inside : starts_with chain_prefix j ≡ true =
          starts_with_convex chain_prefix start j (chain_key t) (starts_with-chain_key (s + 1))
            (starts_with-chain_key t) from_start b in
        let (u, hu, e, size) = chain.at_slot j v inside here in
        let at_u : content d (chain_key u) ≡ some v = rw (← e) here in
        let lo : before (chain_key u) start ≡ false = rw (← e) from_start in
        let hi : before (chain_key u) (chain_key t) ≡ true = rw (← e) b in
        let lo' : ltb u (s + 1) ≡ false = sym (before-chain_key u (s + 1) hu (omega arith)) ∙ lo in
        let hi' : ltb u t ≡ true = sym (before-chain_key u t hu small) ∙ hi in
        let above : s < u = ground (arith, lo') in
        let below : u < t = ground (arith, hi') in cc (at_u, none_between u above below)

    -- `next_best_chain` of a point is the nearest later point: where the chain has a point at slot
    -- t, after the point's slot, and none in between, it returns that point.
    pub next_best_chain_lem :
        (p : Point) (d : Db) (t : ℕ) (h : Bytes)
        → IsChain d
        → K.slot_or_default p < t
        → t < u64_size
        → content d (chain_key t) ≡ some h
        → ((u : ℕ) → K.slot_or_default p < u → u < t → content d (chain_key u) ≡ none)
        → next_best_chain R K p d ≡ ok (some (specific t h))
    unfolding next_best_chain
    next_best_chain_lem p d t h chain after small at_t none_between =
        let s = K.slot_or_default p in
        let start = chain_key (s + 1) in
        let not_before : before (chain_key t) start ≡ false =
          before-chain_key t (s + 1) small (omega arith) ∙ ground arith in
        rw (sound d (iterating (chain_key (next_slot s))), next_best_chain)
          (rw (next_slot_lem s (omega arith)) (
            first_entry t h (scan d start) (L.scan-IsSorted d start) small
              (IsChain-size d t h chain at_t)
              (L.lookup-scan d start (chain_key t) ∙ rw (not_before, at_t))
              (no_entry_between d s t chain after small none_between)))
