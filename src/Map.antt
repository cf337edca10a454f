-- ===== src/Map.antt =====
-- `BTreeMap` of the standard library, as the store in memory uses it: entries in the order of their
-- keys, each key once.
pub mod Laws
use amaru_wear.Prelude.{
  ◌≡◌, Bool, true, false, not, ◌&&◌, Option, none, some, List, [], ◌∷◌, All, if◌then◌else◌,
}

-- The order of a key type: `Ord`.
pub record Ordered (A : Type 0) : Type 0 where
  pub before : A → A → Bool

pub record IsOrdered {A : Type 0} (O : Ordered A) : Type 0 where
  pub irrefl : (a : A) → O.before a a ≡ false
  pub trans : (a b c : A) → O.before a b ≡ true → O.before b c ≡ true → O.before a c ≡ true
  pub total : (a b : A) → O.before a b ≡ false → O.before b a ≡ false → a ≡ b

abbrev pub Map : Type 0 → Type 0 → Type 0
Map A B = List (A × B)

-- `Ordering::Equal`
unfoldable pub same_key : {A : Type 0} → Ordered A → A → A → Bool
same_key O a b = not (O.before a b) && not (O.before b a)

module _ {A B : Type 0} (O : Ordered A) where
  open O use {before}

  -- Every later key is greater.
  abbrev pub IsMap : Map A B → Type 0
  IsMap [] = Unit
  IsMap (e ∷ l) = All (λ (f : A × B). before e.0 f.0 ≡ true) l × IsMap l

  unfoldable pub get : A → Map A B → Option B
  get a [] = none
  get a ((k, v) ∷ l) = if same_key O k a then some v else get a l

  unfoldable pub insert : A → B → Map A B → Map A B
  insert a b [] = (a, b) ∷ []
  insert a b ((k, v) ∷ l) =
      let rest = insert a b l in
      if before a k then (a, b) ∷ (k, v) ∷ l else if before k a then (k, v) ∷ rest else (k, b) ∷ l

  unfoldable pub remove : A → Map A B → Map A B
  remove a [] = []
  remove a ((k, v) ∷ l) = let rest = remove a l in if same_key O k a then rest else (k, v) ∷ rest

  -- `if let Some(row) = map.get_mut(a) { *row = f(*row) }`
  unfoldable pub modify : (B → B) → A → Map A B → Map A B
  modify f a [] = []
  modify f a ((k, v) ∷ l) =
      let rest = modify f a l in if same_key O k a then (k, f v) ∷ l else (k, v) ∷ rest

  -- `collect()`, entry by entry.
  unfoldable pub collect_into : Map A B → List (A × B) → Map A B
  collect_into m [] = m
  collect_into m ((k, v) ∷ l) = collect_into (insert k v m) l

  unfoldable pub collect : List (A × B) → Map A B
  collect l = collect_into [] l
