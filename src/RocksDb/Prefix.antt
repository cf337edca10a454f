-- ===== src/RocksDb/Prefix.antt =====
-- Iteration over the keys with a common prefix, and deletion of what an iteration yields.
use amaru_wear.Prelude.{
  ◌≡◌, refl, ◌∙◌, true, false, ◌≢◌, none, some, List, [], ◌∷◌, arith, Bool-cases, inl, inr,
  take_while, All, if◌then◌else◌,
}
use amaru_wear.Bytes.{Bytes, before, starts_with, same_iff, same_refl}
use amaru_wear.RocksDb.{RocksDb, IsLawful, IsSorted, lookup}

-- `opts.set_iterate_range(PrefixRange(prefix))` over an iterator that starts at such a key.
unfoldable pub within_prefix : Bytes → List (Bytes × Bytes) → List (Bytes × Bytes)
unfolding take_while
within_prefix prefix = take_while (λ e. starts_with prefix e.0)

-- Between two keys with a prefix there are only keys with the prefix.
pub starts_with_convex :
    (p x y z : Bytes)
    → starts_with p x ≡ true
    → starts_with p z ≡ true
    → before y x ≡ false
    → before y z ≡ true
    → starts_with p y ≡ true
unfolding starts_with before
starts_with_convex [] x y z hx hz l u = refl
starts_with_convex (a ∷ p) [] y z hx hz l u = ground arith
starts_with_convex (a ∷ p) (b ∷ x) y [] hx hz l u = ground arith
starts_with_convex (a ∷ p) (b ∷ x) [] (c ∷ z) hx hz l u = ground arith
starts_with_convex (a ∷ p) (b ∷ x) (e ∷ y) (c ∷ z) hx hz l u =
    ground (arith, starts_with_convex p x y z)

-- Above a key that is greater than every key of a list nothing is found.
pub lookup_above :
    (j a : Bytes) (l : List (Bytes × Bytes))
    → All (λ (f : Bytes × Bytes). before a f.0 ≡ true) l
    → before a j ≡ false
    → lookup j l ≡ none
unfolding lookup
lookup_above j a [] h n = refl
lookup_above j a ((k, v) ∷ l) h n = ground (arith, h.0, same_iff k j, lookup_above j a l h.1 n)

lookup_beyond :
    (p start a j : Bytes) (l : List (Bytes × Bytes))
    → starts_with p start ≡ true
    → starts_with p a ≡ false
    → before a start ≡ false
    → All (λ (f : Bytes × Bytes). before a f.0 ≡ true) l
    → starts_with p j ≡ true
    → lookup j l ≡ none
lookup_beyond p start a j l hs ha la h hj = elim (Bool-cases (before a j)) [
  | inl b ↦ ground (arith, starts_with_convex p start a j hs hj la b)
  | inr b ↦ lookup_above j a l h b
]

-- In order, the entries with the prefix are the first ones.
pub lookup-within_prefix :
    (p start j : Bytes) (l : List (Bytes × Bytes))
    → starts_with p start ≡ true
    → IsSorted l
    → All (λ (f : Bytes × Bytes). before f.0 start ≡ false) l
    → lookup j (within_prefix p l) ≡ (if starts_with p j then lookup j l else none)
unfolding within_prefix lookup
lookup-within_prefix p start j [] hs s a = ground arith
lookup-within_prefix p start j ((k, v) ∷ l) hs s a =
    let ih = lookup-within_prefix p start j l hs s.1 a.1 in
    ground (
      arith,
      ih,
      same_iff k j,
      λ (e : starts_with p k ≡ false). lookup_beyond p start k j l hs e a.0 s.0,
    )

-- Every listed key is found.
All-found-cons :
    (e : Bytes × Bytes) (m l : List (Bytes × Bytes))
    → All (λ (f : Bytes × Bytes). lookup f.0 m ≢ none) l
    → All (λ (f : Bytes × Bytes). lookup f.0 (e ∷ m) ≢ none) l
unfolding lookup
All-found-cons e m [] h = tt
All-found-cons e m (f ∷ l) h = (ground (arith, h.0), All-found-cons e m l h.1)

pub All-found : (l : List (Bytes × Bytes)) → All (λ (f : Bytes × Bytes). lookup f.0 l ≢ none) l
unfolding lookup
All-found [] = tt
All-found (e ∷ l) = (ground (arith, same_refl e.0), All-found-cons e l l (All-found l))

module _ (R : RocksDb) (L : IsLawful R) where
  open R use {Db, content, scan, erase}

  at_or_after :
      (d : Db) (start : Bytes) (l : List (Bytes × Bytes))
      → All (λ (f : Bytes × Bytes). lookup f.0 (scan d start) ≢ none) l
      → All (λ (f : Bytes × Bytes). before f.0 start ≡ false) l
  at_or_after d start [] h = tt
  at_or_after d start (f ∷ l) h = (
    elim (Bool-cases (before f.0 start)) [
      | inl b ↦ absurd (h.0 (L.lookup-scan d start f.0 ∙ rw b))
      | inr b ↦ b
    ],
    at_or_after d start l h.1,
  )

  pub scan_at_or_after :
      (d : Db) (start : Bytes)
      → All (λ (f : Bytes × Bytes). before f.0 start ≡ false) (scan d start)
  scan_at_or_after d start = at_or_after d start (scan d start) (All-found (scan d start))

  -- What the iteration over a prefix finds.
  pub lookup-prefix_scan :
      (d : Db) (p start j : Bytes)
      → starts_with p start ≡ true
      → lookup j (within_prefix p (scan d start))
        ≡ (if starts_with p j then (if before j start then none else content d j) else none)
  lookup-prefix_scan d p start j h =
      lookup-within_prefix p start j (scan d start) h (L.scan-IsSorted d start)
        (scan_at_or_after d start)
      ∙ rw (L.lookup-scan d start j)

  -- The database without the listed keys.
  unfoldable pub erase_all : List (Bytes × Bytes) → Db → Db
  erase_all [] d = d
  erase_all (e ∷ l) d = erase_all l (erase d e.0)

  pub content-erase_all :
      (l : List (Bytes × Bytes)) (d : Db) (j : Bytes)
      → content (erase_all l d) j ≡ elim (lookup j l) [ none ↦ content d j | some v ↦ none ]
  unfolding erase_all lookup
  content-erase_all [] d j = refl
  content-erase_all (e ∷ l) d j =
      content-erase_all l (erase d e.0) j ∙ ground (arith, L.content-erase d e.0 j)
