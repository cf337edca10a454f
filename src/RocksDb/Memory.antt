-- ===== src/RocksDb/Memory.antt =====
-- A database in memory that meets the interface: the entries in the order of writing, the newest
-- first. It shows that `IsLawful` and `IsReliable` can hold, and the tests run on it.
use amaru_wear.Prelude.{
  ◌≡◌, refl, true, false, none, some, List, [], ◌∷◌, arith, Bool-cases, inl, inr, All, sym, ◌∙◌,
  subst, if◌then◌else◌,
}
use amaru_wear.Bytes.{Bytes, same, before, same→eq, same_iff}
use amaru_wear.Bytes.Order.{before_trans, before_total}
use amaru_wear.RocksDb.{RocksDb, IsLawful, IsReliable, IsSorted, lookup}

abbrev pub Entries : Type 0
Entries = List (Bytes × Bytes)

unfoldable pub without : Bytes → Entries → Entries
without k [] = []
without k ((j, w) ∷ l) = let rest = without k l in if same k j then rest else (j, w) ∷ rest

-- The place of a key among sorted entries.
unfoldable pub insert : Bytes → Bytes → Entries → Entries
insert k v [] = (k, v) ∷ []
insert k v ((j, w) ∷ l) =
    let rest = insert k v l in
    if same k j then (k, v) ∷ l else if before k j then (k, v) ∷ (j, w) ∷ l else (j, w) ∷ rest

unfoldable pub sorted : Entries → Entries
sorted [] = []
sorted ((k, v) ∷ l) = insert k v (sorted l)

unfoldable pub from : Bytes → Entries → Entries
from start [] = []
from start ((k, v) ∷ l) = let rest = from start l in if before k start then rest else (k, v) ∷ rest

abbrev pub memory : RocksDb
memory = record {
  Db = Entries;
  Error = Bytes;
  fault = λ d a. none;
  content = λ d k. lookup k d;
  write = λ d k v. (k, v) ∷ d;
  erase = λ d k. without k d;
  scan = λ d start. from start (sorted d);
}

lookup-without :
    (k j : Bytes) (l : Entries) → lookup j (without k l) ≡ (if same k j then none else lookup j l)
unfolding lookup without
lookup-without k j [] = ground arith
lookup-without k j ((i, w) ∷ l) =
    ground (arith, lookup-without k j l, same_iff k i, same_iff i j, same_iff k j)

lookup-insert :
    (k v j : Bytes) (l : Entries)
    → lookup j (insert k v l) ≡ (if same k j then some v else lookup j l)
unfolding lookup insert
lookup-insert k v j [] = refl
lookup-insert k v j ((i, w) ∷ l) =
    ground (arith, lookup-insert k v j l, same_iff k i, same_iff i j, same_iff k j)

lookup-sorted : (j : Bytes) (l : Entries) → lookup j (sorted l) ≡ lookup j l
unfolding lookup sorted
lookup-sorted j [] = refl
lookup-sorted j ((k, v) ∷ l) = lookup-insert k v j (sorted l) ∙ rw (lookup-sorted j l)

lookup-from :
    (start j : Bytes) (l : Entries)
    → lookup j (from start l) ≡ (if before j start then none else lookup j l)
unfolding lookup from
lookup-from start j [] = ground arith
lookup-from start j ((k, v) ∷ l) = ground (arith, lookup-from start j l, same_iff k j)

-- Of two different keys that are not in order one way, the other is.
later : (k j : Bytes) → same k j ≡ false → before k j ≡ false → before j k ≡ true
later k j e b = elim (Bool-cases (before j k)) [ inl p ↦ p | inr p ↦ cc (before_total k j b p) ]

All-insert :
    (a k v : Bytes) (l : Entries)
    → before a k ≡ true
    → All (λ (f : Bytes × Bytes). before a f.0 ≡ true) l
    → All (λ (f : Bytes × Bytes). before a f.0 ≡ true) (insert k v l)
unfolding insert
All-insert a k v [] h hs = (h, tt)
All-insert a k v ((j, w) ∷ l) h hs = elim (Bool-cases (same k j)) [
  | inl e ↦ rw e (h, hs.1)
  | inr e ↦ rw e (elim (Bool-cases (before k j)) [
    | inl b ↦ rw b (h, hs)
    | inr b ↦ rw b (hs.0, All-insert a k v l h hs.1)
  ])
]

All-trans :
    (a k : Bytes) (l : Entries)
    → before a k ≡ true
    → All (λ (f : Bytes × Bytes). before k f.0 ≡ true) l
    → All (λ (f : Bytes × Bytes). before a f.0 ≡ true) l
All-trans a k [] h hs = tt
All-trans a k ((j, w) ∷ l) h hs = (before_trans a k j h hs.0, All-trans a k l h hs.1)

insert-IsSorted : (k v : Bytes) (l : Entries) → IsSorted l → IsSorted (insert k v l)
unfolding insert
insert-IsSorted k v [] h = (tt, tt)
insert-IsSorted k v ((j, w) ∷ l) h = elim (Bool-cases (same k j)) [
  | inl e ↦ rw e (
    subst (λ z. All (λ (f : Bytes × Bytes). before z f.0 ≡ true) l) (sym (same→eq k j e)) h.0,
    h.1,
  )
  | inr e ↦ rw e (elim (Bool-cases (before k j)) [
    | inl b ↦ rw b ((b, All-trans k j l b h.0), h)
    | inr b ↦ rw b (All-insert j k v l (later k j e b) h.0, insert-IsSorted k v l h.1)
  ])
]

sorted-IsSorted : (l : Entries) → IsSorted (sorted l)
unfolding sorted
sorted-IsSorted [] = tt
sorted-IsSorted ((k, v) ∷ l) = insert-IsSorted k v (sorted l) (sorted-IsSorted l)

All-from :
    (a start : Bytes) (l : Entries)
    → All (λ (f : Bytes × Bytes). before a f.0 ≡ true) l
    → All (λ (f : Bytes × Bytes). before a f.0 ≡ true) (from start l)
unfolding from
All-from a start [] h = tt
All-from a start ((k, v) ∷ l) h = elim (Bool-cases (before k start)) [
  | inl e ↦ rw e (All-from a start l h.1)
  | inr e ↦ rw e (h.0, All-from a start l h.1)
]

from-IsSorted : (start : Bytes) (l : Entries) → IsSorted l → IsSorted (from start l)
unfolding from
from-IsSorted start [] h = tt
from-IsSorted start ((k, v) ∷ l) h = elim (Bool-cases (before k start)) [
  | inl e ↦ rw e (from-IsSorted start l h.1)
  | inr e ↦ rw e (All-from k start l h.0, from-IsSorted start l h.1)
]

pub memory-IsReliable : IsReliable memory
memory-IsReliable d a = refl

pub memory-IsLawful : IsLawful memory
unfolding lookup
memory-IsLawful = record {
  content-write = λ d k v j. refl;
  content-erase = λ d k j. lookup-without k j d;
  lookup-scan = λ d start j. lookup-from start j (sorted d) ∙ rw (lookup-sorted j d);
  scan-IsSorted = λ d start. from-IsSorted start (sorted d) (sorted-IsSorted d);
}
