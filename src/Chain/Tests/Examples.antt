-- ===== src/Chain/Tests/Examples.antt =====
-- The theorems on the chain store, on a store of two points and three headers.
use amaru_wear.Prelude.{
  ℕ, ◌<◌, ◌≡◌, refl, sym, false, ◌&&◌, ◌||◌, none, some, List, [], ◌∷◌, arith, ltb, ◌==◌, length,
  ok, if◌then◌else◌, Bool-cases, inl, inr,
}
use amaru_wear.Bytes.{Bytes, be_bytes, same, same→eq, starts_with}
use amaru_wear.Bytes.Endian.{length-be_bytes}
use amaru_wear.RocksDb.{lookup}
use amaru_wear.RocksDb.Memory.{Entries, memory, memory-IsReliable, memory-IsLawful}
use amaru_wear.Chain.{specific, chain_key, child_key, chain_prefix, u64_size, header_hash_size}
use amaru_wear.Chain.Keys.{same-chain_key}
use amaru_wear.Chain.Read.{
  load_from_best_chain, load_header, get_children, next_best_chain, peek, hash_from,
}
use amaru_wear.Chain.Write.{rollback_chain, roll_forward_chain, store_header}
use amaru_wear.Chain.Rollback.{rollback_chain_lem}
use amaru_wear.Chain.Best.{IsChain, load_from_best_chain-roll_forward_chain, next_best_chain_lem}
use amaru_wear.Chain.Children.{IsFamily, elem}
use amaru_wear.Chain.Diagnostics.{load_parents_children}
use amaru_wear.Chain.Diagnostics.Links.{linked, IsGrouped}
use amaru_wear.Chain.Diagnostics.Laws.{load_parents_children-get_children}
use amaru_wear.Chain.Headers.{load_header-store_header, get_children-store_header, is_parent}
use amaru_wear.Chain.Tests.{
  Header, name_hash, hash_of, parent_of, kernel, kernel-IsKernel, slot_of_point, hash_of_specific,
}

-- The best chain has the hashes of the names 1 and 2 at the slots 5 and 7.
abbrev two_points : Entries
two_points = (chain_key 7, name_hash 2) ∷ (chain_key 5, name_hash 1) ∷ []

on_chain :
    load_from_best_chain memory kernel (specific 5 (name_hash 1)) two_points ≡ some (name_hash 1)
unfolding load_from_best_chain peek hash_from slot_of_point hash_of_specific lookup same chain_key
    be_bytes
on_chain = refl

rollback_chain_example :
    (n : ℕ) × (d' : Entries) × (rollback_chain memory kernel (specific 5 (name_hash 1)) two_points
      ≡ (ok n, d'))
    × ((t : ℕ)
        → t < u64_size
        → lookup (chain_key t) d' ≡ (
            if ltb (slot_of_point (specific 5 (name_hash 1))) t
            then none
            else lookup (chain_key t) two_points))
    × ((j : Bytes) → starts_with chain_prefix j ≡ false → lookup j d' ≡ lookup j two_points)
unfolding slot_of_point
rollback_chain_example =
    rollback_chain_lem memory kernel memory-IsReliable memory-IsLawful kernel-IsKernel
      (specific 5 (name_hash 1)) two_points (name_hash 1) on_chain (omega arith)

roll_forward_chain_example :
    (d' : Entries) × (roll_forward_chain memory kernel (specific 9 (name_hash 3)) two_points
      ≡ (ok tt, d'))
    × (load_from_best_chain memory kernel (specific 5 (name_hash 1)) d' ≡ (
        if slot_of_point (specific 9 (name_hash 3)) == slot_of_point (specific 5 (name_hash 1))
        then (if same
              (hash_of_specific (specific 9 (name_hash 3)))
              (hash_of_specific (specific 5 (name_hash 1)))
            then some (hash_of_specific (specific 9 (name_hash 3)))
            else none)
        else load_from_best_chain memory kernel (specific 5 (name_hash 1)) two_points))
roll_forward_chain_example =
    load_from_best_chain-roll_forward_chain memory kernel memory-IsReliable memory-IsLawful
      kernel-IsKernel (specific 9 (name_hash 3)) (specific 5 (name_hash 1)) two_points

two_points-IsChain : IsChain memory two_points
unfolding lookup
two_points-IsChain = record {
  at_slot = λ j v under found. elim (Bool-cases (same (chain_key 7) j)) [
    | inl e ↦ (7, omega arith, sym (same→eq _ j e), ground (arith, length-be_bytes 32 2))
    | inr e ↦ elim (Bool-cases (same (chain_key 5) j)) [
      | inl e' ↦ (5, omega arith, sym (same→eq _ j e'), ground (arith, length-be_bytes 32 1))
      | inr e' ↦ absurd (ground arith)
    ]
  ];
}

none_at_6 :
    (u : ℕ)
    → slot_of_point (specific 5 (name_hash 1)) < u
    → u < 7
    → lookup (chain_key u) two_points ≡ none
unfolding lookup slot_of_point
none_at_6 u lo hi = ground (
  arith,
  same-chain_key 7 u (omega arith) (omega arith),
  same-chain_key 5 u (omega arith) (omega arith),
)

next_best_chain_example :
    next_best_chain memory kernel (specific 5 (name_hash 1)) two_points
    ≡ ok (some (specific 7 (name_hash 2)))
unfolding slot_of_point lookup same chain_key be_bytes
next_best_chain_example =
    next_best_chain_lem memory kernel memory-IsReliable memory-IsLawful kernel-IsKernel
      (specific 5 (name_hash 1)) two_points 7 (name_hash 2) two_points-IsChain (omega arith)
      (omega arith) refl none_at_6

-- The header 1 is the parent of the headers 2 and 3; the links of both are stored.
abbrev first : Header
first = record { slot = 5; name = 1; parent = none }

abbrev second : Header
second = record { slot = 7; name = 2; parent = some 1 }

abbrev third : Header
third = record { slot = 9; name = 3; parent = some 1 }

abbrev one_link : Entries
one_link = (child_key (name_hash 1) (name_hash 2), []) ∷ []

one_link-IsFamily : IsFamily memory one_link
unfolding lookup
one_link-IsFamily = record {
  at_link = λ j v under found. elim (Bool-cases (same (child_key (name_hash 1) (name_hash 2)) j)) [
    | inl e ↦
        (name_hash 1, name_hash 2, length-be_bytes 32 1, length-be_bytes 32 2, sym (same→eq _ j e))
    | inr e ↦ absurd (ground arith)
  ];
}

load_parents_children_example :
    (groups : List (Bytes × List Bytes)) × (load_parents_children memory kernel one_link
      ≡ ok groups)
    × IsGrouped groups
    × ((p : Bytes)
        → length p ≡ header_hash_size
        → (children : List Bytes) × (get_children memory kernel p one_link ≡ ok children)
          × ((c : Bytes) → linked p c groups ≡ elem c children))
load_parents_children_example =
    load_parents_children-get_children memory kernel memory-IsReliable memory-IsLawful
      kernel-IsKernel one_link one_link-IsFamily

parent_size : (q : Bytes) → parent_of third ≡ some q → length q ≡ header_hash_size
parent_size q e = ground (arith, length-be_bytes 32 1)

load_header_example :
    (d' : Entries) × (store_header memory kernel second one_link ≡ (ok tt, d'))
    × (load_header memory kernel (name_hash 2) d' ≡ (
        if same (hash_of second) (name_hash 2)
        then some second
        else load_header memory kernel (name_hash 2) one_link))
load_header_example =
    load_header-store_header memory kernel memory-IsReliable memory-IsLawful kernel-IsKernel second
      one_link (name_hash 2)

get_children_example :
    (d' : Entries) × (cs : List Bytes) × (cs' : List Bytes) × (store_header memory kernel third
        one_link
      ≡ (ok tt, d'))
    × (get_children memory kernel (name_hash 1) one_link ≡ ok cs)
    × (get_children memory kernel (name_hash 1) d' ≡ ok cs')
    × ((c : Bytes)
        → elem c cs'
          ≡ (elem c cs || (is_parent (name_hash 1) (parent_of third) && same (hash_of third) c)))
    × IsFamily memory d'
get_children_example =
    get_children-store_header memory kernel memory-IsReliable memory-IsLawful kernel-IsKernel third
      one_link (name_hash 1) (length-be_bytes 32 1) parent_size one_link-IsFamily
