-- ===== src/Chain/Diagnostics/Laws.antt =====
-- `load_parents_children` beside `get_children`, the two reads of the links.
use amaru_wear.Prelude.{
  ◌≡◌, ◌≢◌, refl, sym, ap, subst, ◌∙◌, true, false, ◌||◌, ◌&&◌, Bool-cases, Option-cases, inl, inr,
  none, List, [], ◌∷◌, ◌++◌, arith, length, ok, All, take, drop_of_length, take_of_length,
  take_append,
}
use amaru_wear.Bytes.{Bytes, before, same, starts_with, same→eq}
use amaru_wear.Bytes.Order.{
  same-append_left, same-append_ne, starts_with-append, before-append_self, starts_with_refl,
}
use amaru_wear.RocksDb.{RocksDb, IsLawful, IsReliable, lookup, iterating}
use amaru_wear.RocksDb.Prefix.{within_prefix, lookup-prefix_scan, All-found}
use amaru_wear.Chain.{Kernel, IsKernel, child_prefix, child_key, header_hash_size}
use amaru_wear.Chain.Children.{IsFamily, elem, is_some, get_children_lem}
use amaru_wear.Chain.Diagnostics.{
  link_of_key, Grouping, no_groups, push_link, finished, group_links, iterate_prefix,
  load_parents_children,
}
use amaru_wear.Chain.Read.{get_children}
use amaru_wear.Chain.Diagnostics.Links.{
  linked, IsGrouped, linked-push_link, IsGrouped-push_link, push_link-has_parent,
}

same-links :
    (q a p c : Bytes)
    → length q ≡ header_hash_size
    → length p ≡ header_hash_size
    → same (child_key q a) (child_key p c) ≡ (same q p && same a c)
unfolding child_key
same-links q a p c hq hp =
    same-append_left child_prefix (q ++ a) (p ++ c) ∙ elim (Bool-cases (same q p)) [
      | inl e ↦
          rw e (
            subst (λ z. same (q ++ a) (z ++ c) ≡ same a c) (same→eq q p e) (same-append_left q a c))
      | inr e ↦ rw e (same-append_ne q p a c (hq ∙ sym hp) e)
    ]

-- Every key of the entries links two hashes.
abbrev AllLinks : List (Bytes × Bytes) → Type 0
AllLinks = All (λ (e : Bytes × Bytes).
    (q : Bytes) × (a : Bytes) × (length q ≡ header_hash_size)
    × (length a ≡ header_hash_size)
    × (e.0 ≡ child_key q a))

link_of_child_key :
    {E : Type 0} (q a : Bytes)
    → length q ≡ header_hash_size
    → length a ≡ header_hash_size
    → link_of_key {E = E} (child_key q a) ≡ ok (q, a)
unfolding link_of_key child_key
link_of_child_key q a hq ha =
    rw
      (
        subst (λ n. take n (q ++ a) ≡ q) hq (take_append q a),
        drop_of_length 32 q a hq,
        take_of_length 32 a ha,
        ha,
      )
      refl

under_child_prefix : (p c : Bytes) → starts_with child_prefix (child_key p c) ≡ true
unfolding child_key
under_child_prefix p c = starts_with-append child_prefix (p ++ c)

before-child_prefix : (p c : Bytes) → before (child_key p c) child_prefix ≡ false
unfolding child_key
before-child_prefix p c = before-append_self child_prefix (p ++ c)

group_links_lem :
    {E : Type 0} (l : List (Bytes × Bytes)) (g : Grouping)
    → AllLinks l
    → (g.current_parent ≡ none → (g.groups ≡ []) × (g.current_children ≡ []))
    → IsGrouped (finished g)
    → (groups : List (Bytes × List Bytes)) × (group_links {E = E} g l ≡ ok groups)
      × IsGrouped groups
      × ((p c : Bytes)
          → length p ≡ header_hash_size
          → linked p c groups ≡ (linked p c (finished g) || is_some (lookup (child_key p c) l)))
unfolding group_links lookup
group_links_lem [] g h new grouped = (finished g, refl, grouped, λ p c hp. ground arith)
group_links_lem {E} (e ∷ l) g h new grouped =
    let (q, a, hq, ha, at_link) = h.0 in
    let g' = push_link (q, a) g in
    let (groups, done, is_grouped, found) =
      group_links_lem {E = E} l g' h.1
        (λ n. absurd (push_link-has_parent q a g.groups g.current_parent g.current_children n))
        (IsGrouped-push_link q a g.groups g.current_parent g.current_children (λ n. (new n).0)
          grouped) in
    (
      groups,
      rw (at_link, link_of_child_key {E = E} q a hq ha, group_links) done,
      is_grouped,
      λ p c hp.
          found p c hp
          ∙ rw
              (
                linked-push_link q a p c g.groups g.current_parent g.current_children
                    (λ n. (new n).1),
                at_link,
                same-links q a p c hq hp,
              )
              (ground arith),
    )

module _ (R : RocksDb) (K : Kernel) (sound : IsReliable R) (L : IsLawful R) where
  open R use {Db, content, scan}

  all_links :
      (d : Db)
      → IsFamily R d
      → (l : List (Bytes × Bytes))
      → All
          (λ (e : Bytes × Bytes).
            lookup e.0 (within_prefix child_prefix (scan d child_prefix)) ≢ none)
          l
      → AllLinks l
  all_links d family [] h = tt
  all_links d family (e ∷ l) h = (
    (let looked =
          lookup-prefix_scan R L d child_prefix child_prefix e.0 (starts_with_refl child_prefix) in
        elim (Option-cases (content d e.0)) [
          | inl n ↦ absurd (h.0 (ground (arith, looked)))
          | inr (v, n) ↦ family.at_link e.0 v (ground (arith, looked, h.0)) n
        ]),
    all_links d family l h.1,
  )

  -- The groups have the links of the store.
  load_parents_children_lem :
      (d : Db)
      → IsFamily R d
      → (groups : List (Bytes × List Bytes)) × (load_parents_children R K d ≡ ok groups)
        × IsGrouped groups
        × ((p c : Bytes)
            → length p ≡ header_hash_size
            → linked p c groups ≡ is_some (content d (child_key p c)))
  unfolding load_parents_children iterate_prefix finished linked
  load_parents_children_lem d family =
      let l = within_prefix child_prefix (scan d child_prefix) in
      let (groups, done, grouped, found) =
        group_links_lem {E = R.Error} l no_groups (all_links d family l (All-found l))
          (λ e. (refl, refl)) tt in
      (
        groups,
        rw (sound d (iterating child_prefix), iterate_prefix) done,
        grouped,
        λ p c hp.
            found p c hp
            ∙ ap is_some (
                lookup-prefix_scan R L d child_prefix child_prefix (child_key p c)
                  (starts_with_refl child_prefix)
                ∙ rw (under_child_prefix p c, before-child_prefix p c) refl),
      )

  module _ (N : IsKernel K) where
    -- `load_parents_children` and `get_children` agree: the links of the store are grouped by their
    -- parents, no group is empty, two groups of one parent do not follow each other, and a group of
    -- a parent has a child exactly if `get_children` of the parent lists it.
    pub load_parents_children-get_children :
        (d : Db)
        → IsFamily R d
        → (groups : List (Bytes × List Bytes)) × (load_parents_children R K d ≡ ok groups)
          × IsGrouped groups
          × ((p : Bytes)
              → length p ≡ header_hash_size
              → (children : List Bytes) × (get_children R K p d ≡ ok children)
                × ((c : Bytes) → linked p c groups ≡ elem c children))
    load_parents_children-get_children d family =
        let (groups, done, grouped, found) = load_parents_children_lem d family in
        (
          groups,
          done,
          grouped,
          λ p hp.
              let (children, read, listed) = get_children_lem R K sound L N d p hp family in
              (children, read, λ c. found p c hp ∙ sym (listed c)),
        )
