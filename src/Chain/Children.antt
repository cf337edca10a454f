-- ===== src/Chain/Children.antt =====
-- The children of a header: `store_header` writes the link from the parent beside the header, and
-- `get_children` reads the links back.
use amaru_wear.Prelude.{
  ◌≡◌, ◌≢◌, refl, sym, ap, ◌∙◌, Bool, true, false, ◌||◌, Option-cases, inl, inr, Option, none, some,
  List, [], ◌∷◌, ◌++◌, arith, length, ok, All, drop_of_length,
}
use amaru_wear.Bytes.{Bytes, same, before, starts_with}
use amaru_wear.Bytes.Order.{
  same-append_left, starts_with-append, before-append_self, starts_with_refl, starts_with_left,
  starts_with_first, starts_with-append_left,
}
use amaru_wear.RocksDb.{RocksDb, IsLawful, IsReliable, lookup, iterating}
use amaru_wear.RocksDb.Prefix.{within_prefix, lookup-prefix_scan, All-found}
use amaru_wear.Chain.{Kernel, IsKernel, StoreError, child_prefix, child_key, header_hash_size}
use amaru_wear.Chain.Read.{child_of_key, collect_children, get_children}

unfoldable pub elem : Bytes → List Bytes → Bool
elem c [] = false
elem c (a ∷ l) = same a c || elem c l

abbrev pub is_some {ℓ} : {A : Type ℓ} → Option A → Bool
is_some none = false
is_some (some a) = true

child_of_child_key :
    {E : Type 0} (p c : Bytes)
    → length p ≡ header_hash_size
    → length c ≡ header_hash_size
    → child_of_key {E = E} (child_key p c) ≡ ok c
unfolding child_of_key child_key
child_of_child_key p c hp hc = rw (drop_of_length 32 p c hp, hc)

pub same-child_key : (p a c : Bytes) → same (child_key p a) (child_key p c) ≡ same a c
unfolding child_key
same-child_key p a c = same-append_left child_prefix _ _ ∙ same-append_left p a c

starts_with-child_key : (p c : Bytes) → starts_with (child_prefix ++ p) (child_key p c) ≡ true
unfolding child_key
starts_with-child_key p c = starts_with-append (child_prefix ++ p) c

before-child_key : (p c : Bytes) → before (child_key p c) (child_prefix ++ p) ≡ false
unfolding child_key
before-child_key p c = before-append_self (child_prefix ++ p) c

module _ (p : Bytes) (hp : length p ≡ header_hash_size) where
  -- Every entry is a link from the parent.
  abbrev AllChildren : List (Bytes × Bytes) → Type 0
  AllChildren =
      All
        (λ (e : Bytes × Bytes). (c : Bytes) × (length c ≡ header_hash_size) × (e.0 ≡ child_key p c))

  collect_children_lem :
      {E : Type 0} (l : List (Bytes × Bytes))
      → AllChildren l
      → (cs : List Bytes) × (collect_children {E = E} l ≡ ok cs)
        × ((c : Bytes) → elem c cs ≡ is_some (lookup (child_key p c) l))
  unfolding collect_children elem lookup
  collect_children_lem [] h = ([], refl, λ c. refl)
  collect_children_lem {E} (e ∷ l) h =
      let (a, ha, at_a) = h.0 in
      let (cs, collected, found) = collect_children_lem {E = E} l h.1 in
      (
        a ∷ cs,
        rw (at_a, child_of_child_key {E = E} p a hp ha, collect_children)
            (rw (collected, collect_children)),
        λ c. rw at_a (rw (same-child_key p a c) (ground (arith, found c))),
      )

module _ (R : RocksDb) where
  open R use {Db, content, scan}

  -- Every key under the prefix links two hashes.
  pub record IsFamily (d : Db) : Type 0 where
    pub at_link :
        (j v : Bytes)
        → starts_with child_prefix j ≡ true
        → content d j ≡ some v
        → (p : Bytes) × (c : Bytes) × (length p ≡ header_hash_size)
          × (length c ≡ header_hash_size)
          × (j ≡ child_key p c)

  module _ (K : Kernel) (sound : IsReliable R) (L : IsLawful R) (N : IsKernel K) where
    link_from :
        (d : Db) (p j : Bytes)
        → length p ≡ header_hash_size
        → IsFamily d
        → lookup j (within_prefix (child_prefix ++ p) (scan d (child_prefix ++ p))) ≢ none
        → (c : Bytes) × (length c ≡ header_hash_size) × (j ≡ child_key p c)
    unfolding child_key
    link_from d p j hp family found =
        let q = child_prefix ++ p in
        let looked = lookup-prefix_scan R L d q q j (starts_with_refl q) in
        elim (Option-cases (content d j)) [
          | inl e ↦ absurd (found (ground (arith, looked)))
          | inr (v, e) ↦
              let under : starts_with q j ≡ true = ground (arith, looked) in
              let (p', c, hp', hc, at_j) =
                family.at_link j v (starts_with_left child_prefix p j under) e in
              let same_parent : p ≡ p' =
                starts_with_first p p' c (hp ∙ sym hp')
                  (sym (starts_with-append_left child_prefix p (p' ++ c)) ∙ rw at_j at under) in
              (c, hc, rw same_parent at_j)
        ]

    links :
        (d : Db) (p : Bytes) (hp : length p ≡ header_hash_size)
        → IsFamily d
        → (l : List (Bytes × Bytes))
        → All
            (λ (e : Bytes × Bytes).
              lookup e.0 (within_prefix (child_prefix ++ p) (scan d (child_prefix ++ p))) ≢ none)
            l
        → AllChildren p hp l
    links d p hp family [] h = tt
    links d p hp family (e ∷ l) h = (link_from d p e.0 hp family h.0, links d p hp family l h.1)

    -- `get_children` lists exactly the hashes that a link from the parent leads to.
    pub get_children_lem :
        (d : Db) (p : Bytes)
        → length p ≡ header_hash_size
        → IsFamily d
        → (cs : List Bytes) × (get_children R K p d ≡ ok cs)
          × ((c : Bytes) → elem c cs ≡ is_some (content d (child_key p c)))
    unfolding get_children
    get_children_lem d p hp family =
        let q = child_prefix ++ p in
        let l = within_prefix q (scan d q) in
        let (cs, collected, found) =
          collect_children_lem p hp {E = StoreError R.Error} l
            (links d p hp family l (All-found l)) in
        (
          cs,
          rw (sound d (iterating q), get_children) collected,
          λ c.
              found c
              ∙ ap is_some (
                  lookup-prefix_scan R L d q q (child_key p c) (starts_with_refl q)
                  ∙ rw (starts_with-child_key p c, before-child_key p c)),
        )
