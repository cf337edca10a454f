-- ===== src/Ledger/Iteration/Laws.antt =====
-- The entries of a column in the order of their keys, and what lending them out changes.
use amaru_wear.Prelude.{
  ◌≡◌, refl, ◌∙◌, true, false, Option, none, some, List, [], ◌∷◌, arith, All, take_while,
  Option-cases, inl, inr, sym, subst, if◌then◌else◌,
}
use amaru_wear.Bytes.{Bytes, before, starts_with, same_iff, same_refl}
use amaru_wear.Bytes.Order.{before_irrefl, starts_with_refl, starts_with-append}
use amaru_wear.RocksDb.{RocksDb, IsLawful, IsSorted, lookup}
use amaru_wear.RocksDb.Prefix.{within_prefix, lookup-prefix_scan}
use amaru_wear.Ledger.{Codec, as_key}
use amaru_wear.Ledger.Column.{Rows, encoded, Holds}
use amaru_wear.Ledger.Column.Strays.{IsColumn}
use amaru_wear.Ledger.Delegations.Drop.{not_before}

All-within_prefix :
    (P : Bytes × Bytes → Type 0) (p : Bytes) (l : List (Bytes × Bytes))
    → All P l
    → All P (within_prefix p l)
unfolding within_prefix take_while
All-within_prefix P p [] h = tt
All-within_prefix P p (e ∷ l) h =
    let rest = All-within_prefix P p l h.1 in
    elim (starts_with p e.0)
      as (λ b.
        All P
          (elim b as (λ _. List (Bytes × Bytes)) [ true ↦ e ∷ within_prefix p l | false ↦ [] ])) [
            | true ↦ (h.0, rest)
            | false ↦ tt
          ]

within_prefix-IsSorted :
    (p : Bytes) (l : List (Bytes × Bytes)) → IsSorted l → IsSorted (within_prefix p l)
unfolding within_prefix take_while
within_prefix-IsSorted p [] h = tt
within_prefix-IsSorted p (e ∷ l) h =
    let above = All-within_prefix (λ f. before e.0 f.0 ≡ true) p l h.0 in
    let rest = within_prefix-IsSorted p l h.1 in
    elim (starts_with p e.0)
      as (λ b.
        IsSorted
          (elim b as (λ _. List (Bytes × Bytes)) [ true ↦ e ∷ within_prefix p l | false ↦ [] ])) [
            | true ↦ (above, rest)
            | false ↦ tt
          ]

-- Keys in order are found with their own values.
All-own-cons :
    (e : Bytes × Bytes) (m l : List (Bytes × Bytes))
    → All (λ (f : Bytes × Bytes). before e.0 f.0 ≡ true) l
    → All (λ (f : Bytes × Bytes). lookup f.0 m ≡ some f.1) l
    → All (λ (f : Bytes × Bytes). lookup f.0 (e ∷ m) ≡ some f.1) l
unfolding lookup
All-own-cons e m [] above h = tt
All-own-cons e m (f ∷ l) above h = (
  ground (arith, h.0, above.0, same_iff e.0 f.0, before_irrefl f.0),
  All-own-cons e m l above.1 h.1,
)

All-own :
    (l : List (Bytes × Bytes)) → IsSorted l → All (λ (f : Bytes × Bytes). lookup f.0 l ≡ some f.1) l
unfolding lookup
All-own [] h = tt
All-own (e ∷ l) h = (rw (same_refl e.0) refl, All-own-cons e l l h.0 (All-own l h.1))

module _ (R : RocksDb) {A B : Type 0} (CA : Codec A) (CB : Codec B) (prefix : Bytes) where
  open R use {Db, content, scan}

  -- The entries of the column, as an iterator over its prefix yields them.
  unfoldable pub entries_of : Db → List (Bytes × Bytes)
  entries_of d = within_prefix prefix (scan d prefix)

  -- An entry is a row of the map.
  abbrev pub IsRow : Rows R CA CB prefix → Bytes × Bytes → Type 0
  IsRow m e = (a : A) × (b : B) × (e.0 ≡ as_key CA prefix a) × (e.1 ≡ CB.encode b) × (m a ≡ some b)

  module _ (L : IsLawful R) where
    pub entries-IsSorted : (d : Db) → IsSorted (entries_of d)
    unfolding entries_of
    entries-IsSorted d = within_prefix-IsSorted prefix (scan d prefix) (L.scan-IsSorted d prefix)

    pub lookup-entries :
        (d : Db) (j : Bytes)
        → lookup j (entries_of d) ≡ (if starts_with prefix j then content d j else none)
    unfolding entries_of
    lookup-entries d j = ground (
      arith,
      lookup-prefix_scan R L d prefix prefix j (starts_with_refl prefix),
      not_before prefix j,
    )

    entry-IsRow :
        (m : Rows R CA CB prefix) (d : Db) (e : Bytes × Bytes)
        → Holds R CA CB prefix m d
        → IsColumn R CA CB prefix d
        → lookup e.0 (entries_of d) ≡ some e.1
        → IsRow m e
    entry-IsRow m d e h column found =
        let looked = lookup-entries d e.0 in
        let there : content d e.0 ≡ some e.1 = ground (arith, looked) in
        let under : starts_with prefix e.0 ≡ true = ground (arith, looked) in
        let (a, at_a) = column.at_row e.0 under (λ q. ground (arith, there)) in
        let held : encoded R CA CB prefix (m a) ≡ some e.1 =
          sym (h.at_key a) ∙ subst (λ z. content d z ≡ some e.1) at_a there in
        elim (Option-cases (m a)) [
          | inl q ↦ absurd (
              let w : ◌≡◌ {A = Option Bytes} none (some e.1) =
                subst (λ z. encoded R CA CB prefix z ≡ some e.1) q held in
              cc)
          | inr (b, q) ↦ (
            a,
            b,
            at_a,
            (let w : ◌≡◌ {A = Option Bytes} (some (CB.encode b)) (some e.1) =
                  subst (λ z. encoded R CA CB prefix z ≡ some e.1) q held in
                cc),
            q,
          )
        ]

    rows-IsRow :
        (m : Rows R CA CB prefix) (d : Db) (l : List (Bytes × Bytes))
        → Holds R CA CB prefix m d
        → IsColumn R CA CB prefix d
        → All (λ (e : Bytes × Bytes). lookup e.0 (entries_of d) ≡ some e.1) l
        → All (IsRow m) l
    rows-IsRow m d [] h column own = tt
    rows-IsRow m d (e ∷ l) h column own =
        (entry-IsRow m d e h column own.0, rows-IsRow m d l h column own.1)

    -- The entries of a column are rows of the map that it holds.
    pub entries-IsRow :
        (m : Rows R CA CB prefix) (d : Db)
        → Holds R CA CB prefix m d
        → IsColumn R CA CB prefix d
        → All (IsRow m) (entries_of d)
    entries-IsRow m d h column =
        rows-IsRow m d (entries_of d) h column (All-own (entries_of d) (entries-IsSorted d))

    -- A row of the map is among the entries.
    pub lookup-entries_row :
        (m : Rows R CA CB prefix) (d : Db) (a : A)
        → Holds R CA CB prefix m d
        → lookup (as_key CA prefix a) (entries_of d) ≡ encoded R CA CB prefix (m a)
    unfolding as_key
    lookup-entries_row m d a h =
        lookup-entries d (as_key CA prefix a)
        ∙ rw (starts_with-append prefix (CA.encode a)) (h.at_key a)
