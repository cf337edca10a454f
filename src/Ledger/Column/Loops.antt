-- ===== src/Ledger/Column/Loops.antt =====
-- What loops over keys do to a column, without the order of the loop.
use amaru_wear.Prelude.{
  ◌≡◌, refl, ap, ◌∙◌, Bool, false, ◌||◌, Option, none, some, List, [], ◌∷◌, arith, if◌then◌else◌,
  Bool-cases, Option-cases, inl, inr,
}
use amaru_wear.Bytes.{Bytes, same}
use amaru_wear.RocksDb.{RocksDb}
use amaru_wear.Ledger.{Codec}
use amaru_wear.Ledger.Column.{Rows, updated, kept, altered, steps}

module _ (R : RocksDb) {A B : Type 0} (CA : Codec A) (CB : Codec B) (prefix : Bytes) where
  unfoldable pub listed : A → List A → Bool
  listed c [] = false
  listed c (a ∷ rows) = same (CA.encode a) (CA.encode c) || listed c rows

  -- Removing each listed row.
  pub steps-removed :
      (rows : List A) (m : Rows R CA CB prefix) (c : A)
      → steps R CA CB prefix (λ a m. updated R CA CB prefix a none m) rows m c
        ≡ (if listed c rows then none else m c)
  unfolding steps listed
  steps-removed [] m c = refl
  steps-removed (a ∷ rows) m c =
      steps-removed rows (updated R CA CB prefix a none m) c ∙ ground arith

  -- Changing each listed row, where a second change of a row adds nothing.
  pub steps-altered :
      (g : Option B → Option B)
      → ((o : Option B)
          → kept R CA CB prefix (g (kept R CA CB prefix (g o) o)) (kept R CA CB prefix (g o) o)
            ≡ kept R CA CB prefix (g o) o)
      → (rows : List A) (m : Rows R CA CB prefix) (c : A)
      → steps R CA CB prefix (altered R CA CB prefix g) rows m c
        ≡ (if listed c rows then kept R CA CB prefix (g (m c)) (m c) else m c)
  unfolding steps listed
  steps-altered g twice [] m c = refl
  steps-altered g twice (a ∷ rows) m c =
      steps-altered g twice rows (altered R CA CB prefix g a m) c
      ∙ elim (Bool-cases (same (CA.encode a) (CA.encode c))) [
        | inl e ↦ elim (Bool-cases (listed c rows)) [
          | inl q ↦ rw (e, q) (twice (m c))
          | inr q ↦ rw (e, q)
        ]
        | inr e ↦ rw e refl
      ]

  -- The last of the listed rows of a key.
  unfoldable pub latest : A → List (A × B) → Option B
  latest c [] = none
  latest c ((a, b) ∷ rows) =
      kept R CA CB prefix (latest c rows)
        (if same (CA.encode a) (CA.encode c) then some b else none)

  pub steps-added :
      (rows : List (A × B)) (m : Rows R CA CB prefix) (c : A)
      → steps R CA CB prefix (λ (x : A × B) m. updated R CA CB prefix x.0 (some x.1) m) rows m c
        ≡ kept R CA CB prefix (latest c rows) (m c)
  unfolding steps latest
  steps-added [] m c = refl
  steps-added ((a, b) ∷ rows) m c =
      steps-added rows (updated R CA CB prefix a (some b) m) c
      ∙ elim (Option-cases (latest c rows)) [
        | inl e ↦ rw e (elim (Bool-cases (same (CA.encode a) (CA.encode c))) [
          | inl s ↦ rw s refl
          | inr s ↦ rw s refl
        ])
        | inr (l, e) ↦ rw e refl
      ]

  -- The last value that is listed for a key.
  unfoldable pub latest_value : {V : Type 0} → A → List (A × V) → Option V
  latest_value c [] = none
  latest_value c ((a, v) ∷ rows) = elim (latest_value c rows) [
    | none ↦ if same (CA.encode a) (CA.encode c) then some v else none
    | some later ↦ some later
  ]

  abbrev pub overwritten : {V : Type 0} → (V → Option B → B) → Option V → Option B → Option B
  overwritten g none o = o
  overwritten g (some v) o = some (g v o)

  -- Writing each listed row, where a row depends on what is there, and the last write of a row on
  -- nothing that the others change.
  pub steps-overwritten :
      {V : Type 0} (g : V → Option B → B)
      → ((v w : V) (o : Option B) → g w (some (g v o)) ≡ g w o)
      → (rows : List (A × V)) (m : Rows R CA CB prefix) (c : A)
      → steps R CA CB prefix
          (λ (x : A × V) m. altered R CA CB prefix (λ o. some (g x.1 o)) x.0 m)
          rows
          m
          c
        ≡ overwritten g (latest_value c rows) (m c)
  unfolding steps latest_value
  steps-overwritten g last [] m c = refl
  steps-overwritten g last ((a, v) ∷ rows) m c =
      steps-overwritten g last rows (altered R CA CB prefix (λ o. some (g v o)) a m) c
      ∙ elim (Option-cases (latest_value c rows)) [
        | inl e ↦ rw e (elim (Bool-cases (same (CA.encode a) (CA.encode c))) [
          | inl s ↦ rw s refl
          | inr s ↦ rw s refl
        ])
        | inr (w, e) ↦ rw e (elim (Bool-cases (same (CA.encode a) (CA.encode c))) [
          | inl s ↦ rw s (ap some (last v w (m c)))
          | inr s ↦ rw s refl
        ])
      ]
