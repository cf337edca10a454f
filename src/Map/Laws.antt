-- ===== src/Map/Laws.antt =====
-- What is found in a map after each operation.
use amaru_wear.Prelude.{
  ◌≡◌, ◌↔◌, refl, subst, ◌∙◌, true, false, Option, none, some, [], ◌∷◌, arith, All, if◌then◌else◌,
  Bool-cases, Option-cases, inl, inr,
}
use amaru_wear.Map.{
  Ordered, IsOrdered, Map, same_key, IsMap, get, insert, remove, modify, collect_into, collect,
}

module _ {A : Type 0} (O : Ordered A) (o : IsOrdered O) where
  pub same_key→eq : (a b : A) → same_key O a b ≡ true → a ≡ b
  unfolding same_key
  same_key→eq a b h = o.total a b (ground arith) (ground arith)

  pub same_key_refl : (a : A) → same_key O a a ≡ true
  unfolding same_key
  same_key_refl a = rw (o.irrefl a) refl

  pub same_key_iff : (a b : A) → (same_key O a b ≡ true) ↔ (a ≡ b)
  same_key_iff a b = (same_key→eq a b, λ e. subst (λ z. same_key O a z ≡ true) e (same_key_refl a))

  before_other : (a b : A) → O.before a b ≡ true → same_key O a b ≡ false
  unfolding same_key
  before_other a b h = rw h refl

  after_other : (a b : A) → O.before b a ≡ true → same_key O a b ≡ false
  unfolding same_key
  after_other a b h = ground arith

  equal_key : (a b : A) → O.before a b ≡ false → O.before b a ≡ false → same_key O a b ≡ true
  unfolding same_key
  equal_key a b h j = rw (h, j) refl

  module _ {B : Type 0} where
    -- What a key is found to be after an insertion.
    pub get-insert :
        (a c : A) (b : B) (l : Map A B)
        → get O c (insert O a b l) ≡ (if same_key O a c then some b else get O c l)
    unfolding get insert
    get-insert a c b [] = refl
    get-insert a c b ((k, v) ∷ l) = ground (
      arith,
      get-insert a c b l,
      same_key_iff a c,
      same_key_iff k c,
      same_key_iff a k,
      before_other a k,
      after_other a k,
      equal_key a k,
    )

    pub get-remove :
        (a c : A) (l : Map A B)
        → get O c (remove O a l) ≡ (if same_key O a c then none else get O c l)
    unfolding get remove
    get-remove a c [] = ground arith
    get-remove a c ((k, v) ∷ l) =
        ground (arith, get-remove a c l, same_key_iff a c, same_key_iff k c, same_key_iff k a)

    -- The row of a key, changed.
    abbrev pub modified : (B → B) → Option B → Option B
    modified f none = none
    modified f (some b) = some (f b)

    pub get-modify :
        (f : B → B) (a c : A) (l : Map A B)
        → get O c (modify O f a l) ≡ (if same_key O a c then modified f (get O c l) else get O c l)
    unfolding get modify
    get-modify f a c [] = ground arith
    get-modify f a c ((k, v) ∷ l) =
        ground (arith, get-modify f a c l, same_key_iff a c, same_key_iff k c, same_key_iff k a)

    -- Below every key of a map nothing is found.
    pub get_below :
        (a : A) (l : Map A B) → All (λ (f : A × B). O.before a f.0 ≡ true) l → get O a l ≡ none
    unfolding get
    get_below a [] h = refl
    get_below a ((k, v) ∷ l) h = rw (after_other k a h.0) (get_below a l h.1)

    abbrev pub or_else : Option B → Option B → Option B
    or_else none old = old
    or_else (some new) old = some new

    get-collect_into :
        (c : A) (m l : Map A B)
        → IsMap O l
        → get O c (collect_into O m l) ≡ or_else (get O c l) (get O c m)
    unfolding collect_into get
    get-collect_into c m [] h = refl
    get-collect_into c m ((k, v) ∷ l) h =
        get-collect_into c (insert O k v m) l h.1 ∙ elim (Bool-cases (same_key O k c)) [
          | inl e ↦
              let gone : get O c l ≡ none =
                subst (λ z. get O z l ≡ none) (same_key→eq k c e) (get_below k l h.0) in
              rw (gone, get-insert k c v m, e) refl
          | inr e ↦ rw (e, get-insert k c v m, e) refl
        ]

    -- Collecting entries in order finds each of them.
    pub get-collect : (c : A) (l : Map A B) → IsMap O l → get O c (collect O l) ≡ get O c l
    unfolding collect
    get-collect c l h = get-collect_into c [] l h ∙ elim (Option-cases (get O c l)) [
      | inl e ↦ rw e (unfold get in refl)
      | inr (b, e) ↦ rw e refl
    ]

    All-insert :
        (a k : A) (v : B) (l : Map A B)
        → O.before a k ≡ true
        → All (λ (f : A × B). O.before a f.0 ≡ true) l
        → All (λ (f : A × B). O.before a f.0 ≡ true) (insert O k v l)
    unfolding insert
    All-insert a k v [] h hs = (h, tt)
    All-insert a k v ((j, w) ∷ l) h hs = elim (Bool-cases (O.before k j)) [
      | inl b ↦ rw b (h, hs)
      | inr b ↦ rw b (elim (Bool-cases (O.before j k)) [
        | inl c ↦ rw c (hs.0, All-insert a k v l h hs.1)
        | inr c ↦ rw c hs
      ])
    ]

    All-trans :
        (a k : A) (l : Map A B)
        → O.before a k ≡ true
        → All (λ (f : A × B). O.before k f.0 ≡ true) l
        → All (λ (f : A × B). O.before a f.0 ≡ true) l
    All-trans a k [] h hs = tt
    All-trans a k (e ∷ l) h hs = (o.trans a k e.0 h hs.0, All-trans a k l h hs.1)

    -- An insertion keeps the order of the keys.
    pub insert-IsMap : (k : A) (v : B) (l : Map A B) → IsMap O l → IsMap O (insert O k v l)
    unfolding insert
    insert-IsMap k v [] h = (tt, tt)
    insert-IsMap k v ((j, w) ∷ l) h = elim (Bool-cases (O.before k j)) [
      | inl b ↦ rw b ((b, All-trans k j l b h.0), h)
      | inr b ↦ rw b (elim (Bool-cases (O.before j k)) [
        | inl c ↦ rw c (All-insert j k v l c h.0, insert-IsMap k v l h.1)
        | inr c ↦ rw c h
      ])
    ]

    All-remove :
        (a k : A) (l : Map A B)
        → All (λ (f : A × B). O.before a f.0 ≡ true) l
        → All (λ (f : A × B). O.before a f.0 ≡ true) (remove O k l)
    unfolding remove
    All-remove a k [] h = tt
    All-remove a k ((j, w) ∷ l) h = elim (Bool-cases (same_key O j k)) [
      | inl e ↦ rw e (All-remove a k l h.1)
      | inr e ↦ rw e (h.0, All-remove a k l h.1)
    ]

    pub remove-IsMap : (k : A) (l : Map A B) → IsMap O l → IsMap O (remove O k l)
    unfolding remove
    remove-IsMap k [] h = tt
    remove-IsMap k ((j, w) ∷ l) h = elim (Bool-cases (same_key O j k)) [
      | inl e ↦ rw e (remove-IsMap k l h.1)
      | inr e ↦ rw e (All-remove j k l h.0, remove-IsMap k l h.1)
    ]

    All-modify :
        (f : B → B) (a k : A) (l : Map A B)
        → All (λ (f : A × B). O.before a f.0 ≡ true) l
        → All (λ (f : A × B). O.before a f.0 ≡ true) (modify O f k l)
    unfolding modify
    All-modify f a k [] h = tt
    All-modify f a k ((j, w) ∷ l) h = elim (Bool-cases (same_key O j k)) [
      | inl e ↦ rw e h
      | inr e ↦ rw e (h.0, All-modify f a k l h.1)
    ]

    pub modify-IsMap : (f : B → B) (k : A) (l : Map A B) → IsMap O l → IsMap O (modify O f k l)
    unfolding modify
    modify-IsMap f k [] h = tt
    modify-IsMap f k ((j, w) ∷ l) h = elim (Bool-cases (same_key O j k)) [
      | inl e ↦ rw e h
      | inr e ↦ rw e (All-modify f j k l h.0, modify-IsMap f k l h.1)
    ]

    collect_into-IsMap : (m l : Map A B) → IsMap O m → IsMap O (collect_into O m l)
    unfolding collect_into
    collect_into-IsMap m [] h = h
    collect_into-IsMap m ((k, v) ∷ l) h =
        collect_into-IsMap (insert O k v m) l (insert-IsMap k v m h)

    -- What is collected is a map, in whatever order it comes.
    pub collect-IsMap : (l : Map A B) → IsMap O (collect O l)
    unfolding collect
    collect-IsMap l = collect_into-IsMap [] l tt
