-- ===== src/Chain/Version/Ancestry.antt =====
-- The loop of `migrate_to_v2`: it ends, and writes the point of each header from the tip of the best
-- chain back to the last one that is stored.
use amaru_wear.Prelude.{
  ℕ, zero, suc, ◌<◌, ◌≡◌, refl, ◌∙◌, false, Option, none, some, List, [], ◌∷◌, ◌++◌, arith, length,
  ok, then_ok, All,
}
use amaru_wear.Bytes.{Bytes, same, starts_with, same_iff, same_refl}
use amaru_wear.RocksDb.{RocksDb, IsLawful, IsReliable}
use amaru_wear.Chain.{
  Kernel, IsKernel, best_chain_prefix, chain_key, header_hash_size, header_prefix, u64_size,
}
use amaru_wear.Chain.Keys.{same-chain_key}
use amaru_wear.Bytes.Order.{starts_with-append}
use amaru_wear.Chain.Read.{load_header}
use amaru_wear.Chain.Write.{store_chain_point}
use amaru_wear.Chain.Best.{peek_ok, store_chain_point_ok}
use amaru_wear.Chain.Version.{walk_back, to_parent}

not_header_key : (s : ℕ) → starts_with header_prefix (chain_key s) ≡ false
unfolding starts_with chain_key
not_header_key s = refl

module _ (R : RocksDb) (K : Kernel) where
  open R use {Db, content, write}
  open K use {Header}

  abbrev pub slot_of : Header → ℕ
  slot_of h = K.slot_or_default (K.point h)

  -- Where a chain of headers goes on from a parent: nowhere, or to the parent.
  abbrev pub Continues : (Bytes → Type 0) → List Header → Option Bytes → Type 0
  Continues A hs none = hs ≡ []
  Continues A hs (some p) = A p

  Continues-map :
      (A B : Bytes → Type 0) (hs : List Header) (o : Option Bytes)
      → ((p : Bytes) → A p → B p)
      → Continues A hs o
      → Continues B hs o
  Continues-map A B hs none f c = c
  Continues-map A B hs (some p) f c = f p c

  -- The stored headers from a hash on, by their parents, up to one that has no parent or whose
  -- parent is not stored.
  abbrev pub IsAncestry : Db → Bytes → List Header → Type 0
  IsAncestry d g [] = load_header R K g d ≡ none
  IsAncestry d g (h ∷ hs) =
      (load_header R K g d ≡ some h) × Continues (λ p. IsAncestry d p hs) hs (K.parent h)

  -- A store whose best chain is the given headers, from its tip back.
  pub record IsBestChain (g : Bytes) (hs : List Header) (d : Db) : Type 0 where
    pub tip : content d best_chain_prefix ≡ some g
    pub size : length g ≡ header_hash_size
    pub ancestry : IsAncestry d g hs

  -- Each header is at a later slot than those after it.
  abbrev pub IsDescending : List Header → Type 0
  IsDescending [] = Unit {0}
  IsDescending (h ∷ hs) = All (λ k. slot_of k < slot_of h) hs × IsDescending hs

  pub write_points : List Header → Db → Db
  write_points [] d = d
  write_points (h ∷ hs) d =
      write_points hs (write d (chain_key (slot_of h)) (K.hash_of_point (K.point h)))

  module _ (sound : IsReliable R) (L : IsLawful R) (N : IsKernel K) where
    pub load_header-write :
        (d : Db) (k v g : Bytes)
        → starts_with header_prefix k ≡ false
        → load_header R K g (write d k v) ≡ load_header R K g d
    unfolding load_header
    load_header-write d k v g other = ground (
      arith,
      peek_ok R K sound L N (header_prefix ++ g) (write d k v),
      peek_ok R K sound L N (header_prefix ++ g) d,
      L.content-write d k v (header_prefix ++ g),
      same_iff k (header_prefix ++ g),
      starts_with-append header_prefix g,
    )

    pub IsAncestry-write :
        (hs : List Header) (d : Db) (k v g : Bytes)
        → starts_with header_prefix k ≡ false
        → IsAncestry d g hs
        → IsAncestry (write d k v) g hs
    IsAncestry-write [] d k v g other a = load_header-write d k v g other ∙ a
    IsAncestry-write (h ∷ hs) d k v g other a = (
      load_header-write d k v g other ∙ a.0,
      Continues-map (λ p. IsAncestry d p hs) (λ p. IsAncestry (write d k v) p hs) hs (K.parent h)
          (λ p b. IsAncestry-write hs d k v p other b) a.1,
    )

    to_parent_ok :
        (o : Option Bytes) (hs : List Header) (fuel : ℕ) (d : Db)
        → Continues (λ p. IsAncestry d p hs) hs o
        → ((p : Bytes) → IsAncestry d p hs → walk_back R K fuel p d ≡ (ok tt, write_points hs d))
        → to_parent R K o (λ p. walk_back R K fuel p) d ≡ (ok tt, write_points hs d)
    unfolding to_parent write_points
    to_parent_ok none hs fuel d e f = rw e
    to_parent_ok (some p) hs fuel d a f = f p a

    -- With more fuel than headers the loop ends.
    pub walk_back_lem :
        (hs : List Header) (fuel : ℕ) (g : Bytes) (d : Db)
        → IsAncestry d g hs
        → length hs < fuel
        → walk_back R K fuel g d ≡ (ok tt, write_points hs d)
    unfolding walk_back write_points
    walk_back_lem hs zero g d a lt = absurd (omega arith)
    walk_back_lem [] (suc fuel) g d a lt = rw (a, walk_back)
    walk_back_lem (h ∷ hs) (suc fuel) g d a lt =
        let d' = write d (chain_key (slot_of h)) (K.hash_of_point (K.point h)) in
        rw (a.0, walk_back)
          (then_ok (store_chain_point R K (K.point h))
              (to_parent R K (K.parent h) (λ p. walk_back R K fuel p)) d
              (store_chain_point_ok R K sound L N (K.point h) d)
            ∙ to_parent_ok (K.parent h) hs fuel d'
                (Continues-map (λ p. IsAncestry d p hs) (λ p. IsAncestry d' p hs) hs (K.parent h)
                  (λ p b. IsAncestry-write hs d _ _ p (not_header_key _) b) a.1)
                (λ p b. walk_back_lem hs fuel p d' b (omega arith)))

    pub content-write_points_other :
        (hs : List Header) (d : Db) (j : Bytes)
        → All (λ h. same (chain_key (slot_of h)) j ≡ false) hs
        → content (write_points hs d) j ≡ content d j
    unfolding write_points
    content-write_points_other [] d j others = refl
    content-write_points_other (h ∷ hs) d j others =
        content-write_points_other hs _ j others.1
        ∙ L.content-write d (chain_key (slot_of h)) (K.hash_of_point (K.point h)) j
        ∙ rw others.0

    others :
        (hs : List Header) (t : ℕ)
        → t < u64_size
        → All (λ k. slot_of k < t) hs
        → All (λ k. same (chain_key (slot_of k)) (chain_key t) ≡ false) hs
    others [] t ht below = tt
    others (k ∷ hs) t ht below = (
      same-chain_key (slot_of k) t (N.slot-lt _) ht ∙ ground (arith, below.0),
      others hs t ht below.1,
    )

    pub content-write_points :
        (hs : List Header) (d : Db)
        → IsDescending hs
        → All
            (λ h.
              content (write_points hs d) (chain_key (slot_of h))
              ≡ some (K.hash_of_point (K.point h)))
            hs
    unfolding write_points
    content-write_points [] d desc = tt
    content-write_points (h ∷ hs) d desc = (
      content-write_points_other hs _ (chain_key (slot_of h))
            (others hs (slot_of h) (N.slot-lt _) desc.0)
          ∙ L.content-write d _ _ (chain_key (slot_of h))
          ∙ rw (same_refl (chain_key (slot_of h))),
      content-write_points hs _ desc.1,
    )
