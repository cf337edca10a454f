-- ===== src/Ledger/Delegations/Range.antt =====
-- `into_next_prefix`: when its result bounds the keys with a prefix, and when it does not.
use amaru_wear.Prelude.{
  ℕ, ◌+◌, ◌≡◌, refl, true, false, none, some, [], ◌∷◌, ◌++◌, arith, ◌==◌, Option-cases, inl, inr,
}
use amaru_wear.Bytes.{Bytes, before, starts_with}
use amaru_wear.Ledger.Delegations.{bump, into_next_prefix}

-- The last byte is not 0xFF.
abbrev pub EndsBelow : Bytes → Type 0
EndsBelow [] = ⊥
EndsBelow (b ∷ []) = (b == 255) ≡ false
EndsBelow (b ∷ c ∷ p) = EndsBelow (c ∷ p)

-- The keys from a prefix on and below the next one are those that start with the prefix.
abbrev Bounds : Bytes → Bytes → Type 0
Bounds p next = (x : Bytes) → before x p ≡ false → before x next ≡ starts_with p x

Bounds-last : (b : ℕ) → Bounds (b ∷ []) ((b + 1) ∷ [])
unfolding before starts_with
Bounds-last b [] from = ground arith
Bounds-last b (a ∷ x) from = ground arith

Bounds-cons : (b : ℕ) (p next : Bytes) → Bounds p next → Bounds (b ∷ p) (b ∷ next)
unfolding before starts_with
Bounds-cons b p next inner [] from = ground arith
Bounds-cons b p next inner (a ∷ x) from = ground (arith, inner x)

bump_lem : (p : Bytes) → EndsBelow p → (next : Bytes) × (bump p ≡ some next) × Bounds p next
unfolding bump
bump_lem [] h = absurd h
bump_lem (b ∷ []) h = ((b + 1) ∷ [], ground (arith, h), Bounds-last b)
bump_lem (b ∷ c ∷ p) h =
    let (next, bumped, inner) = bump_lem (c ∷ p) h in
    (b ∷ next, rw (bumped, bump), Bounds-cons b (c ∷ p) next inner)

-- The keys from a prefix on and below `into_next_prefix` of it are those that start with the
-- prefix, if its last byte is not 0xFF.
pub into_next_prefix_lem :
    (p x : Bytes)
    → EndsBelow p
    → before x p ≡ false
    → before x (into_next_prefix p) ≡ starts_with p x
unfolding into_next_prefix
into_next_prefix_lem p x h from =
    let (next, bumped, bounds) = bump_lem p h in rw (bumped, into_next_prefix) (bounds x from)

bump-none : (p : Bytes) → bump p ≡ none → bump (p ++ 255 ∷ []) ≡ none
unfolding bump
bump-none [] e = refl
bump-none (b ∷ p) e = elim (Option-cases (bump p)) [
  | inl q ↦ ground (arith, q, bump-none p q)
  | inr (n, q) ↦ ground (arith, q)
]

bump-append : (p next : Bytes) → bump p ≡ some next → bump (p ++ 255 ∷ []) ≡ some (next ++ 255 ∷ [])
unfolding bump
bump-append [] next e = ground arith
bump-append (b ∷ p) next e = elim (Option-cases (bump p)) [
  | inl q ↦ ground (arith, q, bump-none p q)
  | inr (n, q) ↦ ground (arith, q, bump-append p n q)
]

-- The next prefix is greater, and not by its length.
bump_greater :
    (p next : Bytes)
    → bump p ≡ some next
    → (before next (p ++ 255 ∷ []) ≡ false) × (starts_with (p ++ 255 ∷ []) next ≡ false)
unfolding bump before starts_with
bump_greater [] next e = ground arith
bump_greater (b ∷ p) next e = elim (Option-cases (bump p)) [
  | inl q ↦ ground (arith, q)
  | inr (n, q) ↦ ground (arith, q, bump_greater p n q)
]

before-longer : (x : Bytes) (b : ℕ) → before x (x ++ b ∷ []) ≡ true
unfolding before
before-longer [] b = refl
before-longer (a ∷ x) b = ground (arith, before-longer x b)

-- For a prefix that ends in 0xFF the bound is too far: the next prefix of its beginning lies below
-- it, and does not start with the prefix.
pub into_next_prefix_too_far :
    (p : Bytes)
    → EndsBelow p
    → let x = into_next_prefix p in
      let q = p ++ 255 ∷ [] in
      (before x q ≡ false) × (before x (into_next_prefix q) ≡ true) × (starts_with q x ≡ false)
unfolding into_next_prefix
into_next_prefix_too_far p h =
    let (next, bumped, bounds) = bump_lem p h in
    let (from, apart) = bump_greater p next bumped in
    rw (bumped, bump-append p next bumped, into_next_prefix) (from, before-longer next 255, apart)
