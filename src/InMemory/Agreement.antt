-- ===== src/InMemory/Agreement.antt =====
-- When a map of the store in memory, rust/patches/amaru-stores/src/in_memory, has the rows of a
-- column of the ledger store, and that it stays so.
pub mod Columns
pub mod DReps
pub mod Saves
pub mod Accounts
pub mod Lending
use amaru_wear.Prelude.{
  ◌≡◌, ◌↔◌, refl, sym, subst, ap, ◌∙◌, Bool, true, false, Option, none, some, List, [], ◌∷◌, arith,
  All, if◌then◌else◌, Bool-cases, Option-cases, inl, inr,
}
use amaru_wear.Bytes.{Bytes, same, same→eq, same_refl}
use amaru_wear.RocksDb.{RocksDb}
use amaru_wear.Map.{Ordered, IsOrdered, Map, same_key, IsMap, get, insert, remove, modify, collect}
use amaru_wear.Map.Laws.{
  same_key→eq, same_key_refl, get-insert, get-remove, modified, get-modify, get-collect, get_below,
  insert-IsMap, remove-IsMap, modify-IsMap, collect-IsMap,
}
use amaru_wear.Ledger.{Codec, IsCodec}
use amaru_wear.Ledger.Column.{Rows, updated, steps}
use amaru_wear.Ledger.Iteration.{Visit, left, visited}
use amaru_wear.InMemory.Columns.{over}
use amaru_wear.InMemory.Context.{keep_left, lend, with_column}

-- The map is in order, and finds the rows.
pub record Agrees {A B : Type 0} (O : Ordered A) (l : Map A B) (m : A → Option B) : Type 0 where
  pub keys : IsMap O l
  pub at_key : (a : A) → get O a l ≡ m a

pub nothing-Agrees : {A B : Type 0} (O : Ordered A) → Agrees {A = A} {B = B} O [] (λ a. none)
unfolding get
nothing-Agrees O = record { keys = tt; at_key = λ a. refl }

-- Two loops keep a relation if their steps do.
pub over-steps :
    (R : RocksDb) {A B : Type 0} (CA : Codec A) (CB : Codec B) (prefix : Bytes)
    (P : Map A B → Rows R CA CB prefix → Type 0) {X : Type 0} (change : X → Map A B → Map A B)
    (step : X → Rows R CA CB prefix → Rows R CA CB prefix)
    → ((x : X) (l : Map A B) (m : Rows R CA CB prefix) → P l m → P (change x l) (step x m))
    → (xs : List X) (l : Map A B) (m : Rows R CA CB prefix) → P l m
    → P (over change xs l) (steps R CA CB prefix step xs m)
unfolding over steps
over-steps R CA CB prefix P change step one [] l m h = h
over-steps R CA CB prefix P change step one (x ∷ xs) l m h =
    over-steps R CA CB prefix P change step one xs (change x l) (step x m) (one x l m h)

module _ {A B : Type 0} (O : Ordered A) (o : IsOrdered O) where
  module _ (R : RocksDb) (CA : Codec A) (NA : IsCodec CA) (CB : Codec B) (prefix : Bytes) where
    codec_injective : (a b : A) → CA.encode a ≡ CA.encode b → a ≡ b
    codec_injective a b e = let one : some a ≡ some b = sym (NA a) ∙ ap CA.decode e ∙ NA b in cc

    -- Two keys are one in the map exactly if their bytes are.
    pub same_key-same : (a b : A) → same_key O a b ≡ same (CA.encode a) (CA.encode b)
    same_key-same a b = elim (Bool-cases (same_key O a b)) [
      | inl e ↦
          e
          ∙ subst (λ z. true ≡ same (CA.encode a) (CA.encode z)) (same_key→eq O o a b e)
              (sym (same_refl (CA.encode a)))
      | inr e ↦ elim (Bool-cases (same (CA.encode a) (CA.encode b))) [
        | inl s ↦
            let one = codec_injective a b (same→eq (CA.encode a) (CA.encode b) s) in
            let key : same_key O a b ≡ true =
              subst (λ z. same_key O a z ≡ true) one (same_key_refl O o a) in
            cc
        | inr s ↦ e ∙ sym s
      ]
    ]

    pub insert-Agrees :
        (a : A) (b : B) (l : Map A B) (m : Rows R CA CB prefix)
        → Agrees O l m
        → Agrees O (insert O a b l) (updated R CA CB prefix a (some b) m)
    insert-Agrees a b l m h = record {
      keys = insert-IsMap O o a b l h.keys;
      at_key = λ c. get-insert O o a c b l ∙ rw (same_key-same a c, h.at_key c) refl;
    }

    pub remove-Agrees :
        (a : A) (l : Map A B) (m : Rows R CA CB prefix)
        → Agrees O l m
        → Agrees O (remove O a l) (updated R CA CB prefix a none m)
    remove-Agrees a l m h = record {
      keys = remove-IsMap O o a l h.keys;
      at_key = λ c. get-remove O o a c l ∙ rw (same_key-same a c, h.at_key c) refl;
    }

    pub modify-Agrees :
        (f : B → B) (a : A) (l : Map A B) (m : Rows R CA CB prefix)
        → Agrees O l m
        → Agrees O (modify O f a l) (updated R CA CB prefix a (modified O o f (m a)) m)
    modify-Agrees f a l m h = record {
      keys = modify-IsMap O o f a l h.keys;
      at_key = λ c. get-modify O o f a c l ∙ elim (Bool-cases (same_key O a c)) [
        | inl e ↦
            rw (e, sym (same_key-same a c) ∙ e, h.at_key c)
              (ap (λ z. modified O o f (m z)) (sym (same_key→eq O o a c e)))
        | inr e ↦ rw (e, sym (same_key-same a c) ∙ e, h.at_key c) refl
      ];
    }

    pub over-Agrees :
        {X : Type 0} (change : X → Map A B → Map A B)
        (step : X → Rows R CA CB prefix → Rows R CA CB prefix)
        → ((x : X) (l : Map A B) (m : Rows R CA CB prefix)
            → Agrees O l m
            → Agrees O (change x l) (step x m))
        → (xs : List X) (l : Map A B) (m : Rows R CA CB prefix) → Agrees O l m
        → Agrees O (over change xs l) (steps R CA CB prefix step xs m)
    over-Agrees change step = over-steps R CA CB prefix (Agrees O) change step

  -- A map that has the rows of one function has those of an equal one.
  pub Agrees-same :
      (l : Map A B) (m m' : A → Option B) → ((a : A) → m a ≡ m' a) → Agrees O l m → Agrees O l m'
  Agrees-same l m m' e h = record { keys = h.keys; at_key = λ a. h.at_key a ∙ e a }

  keep_left-below :
      (a k : A) (r : Option B) (l : Map A B)
      → O.before a k ≡ true
      → All (λ (f : A × B). O.before a f.0 ≡ true) l
      → All (λ (f : A × B). O.before a f.0 ≡ true) (keep_left k r l)
  keep_left-below a k none l h hs = hs
  keep_left-below a k (some v) l h hs = (h, hs)

  lend-below :
      (a : A) (visit : Visit A B) (l : Map A B)
      → All (λ (f : A × B). O.before a f.0 ≡ true) l
      → All (λ (f : A × B). O.before a f.0 ≡ true) (lend visit l)
  unfolding lend
  lend-below a visit [] h = tt
  lend-below a visit ((k, v) ∷ l) h =
      keep_left-below a k (left v (visit k v)) (lend visit l) h.0 (lend-below a visit l h.1)

  keep_left-IsMap :
      (k : A) (r : Option B) (l : Map A B)
      → All (λ (f : A × B). O.before k f.0 ≡ true) l
      → IsMap O l
      → IsMap O (keep_left k r l)
  keep_left-IsMap k none l hs h = h
  keep_left-IsMap k (some v) l hs h = (hs, h)

  lend-IsMap : (visit : Visit A B) (l : Map A B) → IsMap O l → IsMap O (lend visit l)
  unfolding lend
  lend-IsMap visit [] h = tt
  lend-IsMap visit ((k, v) ∷ l) h =
      keep_left-IsMap k (left v (visit k v)) (lend visit l) (lend-below k visit l h.0)
        (lend-IsMap visit l h.1)

  get-keep_left :
      (c k : A) (r : Option B) (l : Map A B)
      → get O c (keep_left k r l)
        ≡ elim r [ none ↦ get O c l | some v ↦ if same_key O k c then some v else get O c l ]
  unfolding get
  get-keep_left c k none l = refl
  get-keep_left c k (some v) l = refl

  get-lend :
      (visit : Visit A B) (l : Map A B) (c : A)
      → IsMap O l
      → get O c (lend visit l) ≡ visited visit c (get O c l)
  unfolding lend get
  get-lend visit [] c h = refl
  get-lend visit ((k, v) ∷ l) c h =
      get-keep_left c k (left v (visit k v)) (lend visit l) ∙ elim (Bool-cases (same_key O k c)) [
        | inl e ↦
            let one = same_key→eq O o k c e in
            let gone : get O c (lend visit l) ≡ none =
              subst (λ z. get O z (lend visit l) ≡ none) one
                (get_below O o k (lend visit l) (lend-below k visit l h.0)) in
            elim (Option-cases (left v (visit k v))) [
              | inl n ↦ rw (n, e, gone) (sym (subst (λ z. left v (visit z v) ≡ none) one n))
              | inr (w, n) ↦ rw (n, e) (sym (subst (λ z. left v (visit z v) ≡ some w) one n))
            ]
        | inr e ↦ elim (Option-cases (left v (visit k v))) [
          | inl n ↦ rw (n, e) (get-lend visit l c h.1)
          | inr (w, n) ↦ rw (n, e) (get-lend visit l c h.1)
        ]
      ]

  -- `with_column` leaves a map, and at each key what the visit leaves there.
  pub with_column-Agrees :
      (visit : Visit A B) (l : Map A B) (m : A → Option B)
      → Agrees O l m
      → Agrees O (with_column O visit l) (λ a. visited visit a (m a))
  unfolding with_column
  with_column-Agrees visit l m h = record {
    keys = collect-IsMap O o (lend visit l);
    at_key = λ c.
        get-collect O o c (lend visit l) (lend-IsMap visit l h.keys)
        ∙ get-lend visit l c h.keys
        ∙ ap (visited visit c) (h.at_key c);
  }
