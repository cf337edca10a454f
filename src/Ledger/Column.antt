-- ===== src/Ledger/Column.antt =====
-- A column of the ledger store as a map from keys to rows: what its reads and writes do to the map,
-- and that they leave every other column alone.
pub mod Loops
pub mod Strays
use amaru_wear.Prelude.{
  ℕ, ◌≡◌, ◌≢◌, refl, sym, ap, ◌∙◌, Bool, true, false, Option, none, some, List, [], ◌∷◌, ◌++◌,
  arith, Result, ok, if◌then◌else◌, ◌>>=◌, ◌>>◌, bind_ok, pure, subst, Bool-cases, Option-cases,
  inl, inr, then_ok, for_each, bind_result,
}
use amaru_wear.Bytes.{Bytes, same, starts_with, same_iff, same→eq, same_refl}
use amaru_wear.Bytes.Order.{same-append_left, starts_with-append}
use amaru_wear.RocksDb.{RocksDb, IsLawful, IsReliable, get, put, delete, get_ok, put_ok, delete_ok}
use amaru_wear.Ledger.{
  Codec, IsCodec, LedgerError, internal, as_key, unsafe_decode, decode_optional, LedgerExec,
  get_row, put_row,
}

module _ (R : RocksDb) {A B : Type 0} (CA : Codec A) (CB : Codec B) (prefix : Bytes) where
  open R use {Db, content}

  abbrev pub Rows : Type 0
  Rows = A → Option B

  -- The map with another row at a key.
  abbrev pub updated : A → Option B → Rows → Rows
  updated a o m = λ a'. if same (CA.encode a) (CA.encode a') then o else m a'

  abbrev pub encoded : Option B → Option Bytes
  encoded none = none
  encoded (some b) = some (CB.encode b)

  -- The column holds exactly the rows of the map, encoded.
  pub record Holds (m : Rows) (d : Db) : Type 0 where
    pub at_key : (a : A) → content d (as_key CA prefix a) ≡ encoded (m a)

  -- Nothing outside the column has changed.
  abbrev pub Frame : Db → Db → Type 0
  Frame d d' = (j : Bytes) → starts_with prefix j ≡ false → content d' j ≡ content d j

  -- An action that succeeds, with the column as the map says and the rest as before.
  abbrev pub Makes : {X : Type 0} → LedgerExec R X → Db → X → Rows → Type 0
  Makes action d x m = (d' : Db) × (action d ≡ (ok x, d')) × Holds m d' × Frame d d'

  module _ (sound : IsReliable R) (L : IsLawful R) (NB : IsCodec CB) where
    decoded : (o : Option B) → decode_optional {E = LedgerError R.Error} CB (encoded o) ≡ ok o
    unfolding decode_optional unsafe_decode
    decoded none = refl
    decoded (some b) = rw (NB b, decode_optional)

    pub get_row_at :
        (k : Bytes) (o : Option B) (d : Db) → content d k ≡ encoded o → get_row R CB k d ≡ (ok o, d)
    unfolding get_row
    get_row_at k o d e =
        bind_ok (get R internal k) _ d (get_ok R internal sound k d) ∙ rw (e, decoded o)

    pub get_row_ok :
        (a : A) (m : Rows) (d : Db)
        → Holds m d
        → get_row R CB (as_key CA prefix a) d ≡ (ok (m a), d)
    get_row_ok a m d h = get_row_at (as_key CA prefix a) (m a) d (h.at_key a)

    same-as_key :
        (a b : A)
        → same (as_key CA prefix a) (as_key CA prefix b) ≡ same (CA.encode a) (CA.encode b)
    unfolding as_key
    same-as_key a b = same-append_left prefix (CA.encode a) (CA.encode b)

    starts_with-as_key : (a : A) → starts_with prefix (as_key CA prefix a) ≡ true
    unfolding as_key
    starts_with-as_key a = starts_with-append prefix (CA.encode a)

    pub put_row-Makes :
        (a : A) (b : B) (m : Rows) (d : Db)
        → Holds m d
        → Makes (put_row R CB (as_key CA prefix a) b) d tt (updated a (some b) m)
    unfolding put_row
    put_row-Makes a b m d h =
        let k = as_key CA prefix a in
        let v = CB.encode b in
        (
          R.write d k v,
          put_ok R internal sound k v d,
          record {
            at_key = λ a'.
                L.content-write d k v (as_key CA prefix a')
                ∙ ground (arith, same-as_key a a', h.at_key a');
          },
          λ j other. L.content-write d k v j ∙ ground (arith, same_iff k j, starts_with-as_key a),
        )

    pub delete-Makes :
        (a : A) (m : Rows) (d : Db)
        → Holds m d
        → Makes (delete R internal (as_key CA prefix a)) d tt (updated a none m)
    delete-Makes a m d h =
        let k = as_key CA prefix a in
        (
          R.erase d k,
          delete_ok R internal sound k d,
          record {
            at_key = λ a'.
                L.content-erase d k (as_key CA prefix a')
                ∙ ground (arith, same-as_key a a', h.at_key a');
          },
          λ j other. L.content-erase d k j ∙ ground (arith, same_iff k j, starts_with-as_key a),
        )

  unfoldable pub steps : {X : Type 0} → (X → Rows → Rows) → List X → Rows → Rows
  steps step [] m = m
  steps step (x ∷ xs) m = steps step xs (step x m)

  -- A loop whose body makes a step makes all of them.
  pub for_each-Makes :
      {X : Type 0} (step : X → Rows → Rows) (body : X → LedgerExec R (Unit {0}))
      → ((x : X) (m : Rows) (d : Db) → Holds m d → Makes (body x) d tt (step x m))
      → (xs : List X) (m : Rows) (d : Db) → Holds m d
      → Makes (for_each xs body) d tt (steps step xs m)
  unfolding for_each steps
  for_each-Makes step body one [] m d h = (d, refl, h, λ j other. refl)
  for_each-Makes step body one (x ∷ xs) m d h =
      let (d₁, done, h₁, frame₁) = one x m d h in
      let (d₂, rest, h₂, frame₂) = for_each-Makes step body one xs (step x m) d₁ h₁ in
      (
        d₂,
        then_ok (body x) (for_each xs body) d done ∙ rest,
        h₂,
        λ j other. frame₂ j other ∙ frame₁ j other,
      )

  -- The row of a key that is not written stays.
  pub Holds-same : (m m' : Rows) (d : Db) → ((a : A) → m a ≡ m' a) → Holds m d → Holds m' d
  Holds-same m m' d e h = record { at_key = λ a. h.at_key a ∙ ap encoded (e a) }

  -- The write of a row that is computed from the one at a key, if it is.
  abbrev pub writes : A → Option B → LedgerExec R (Unit {0})
  writes a none = pure tt
  writes a (some b) = put_row R CB (as_key CA prefix a) b

  -- The row that a change leaves: the new one, if there is one.
  abbrev pub kept : Option B → Option B → Option B
  kept none old = old
  kept (some new) old = some new

  abbrev pub altered : (Option B → Option B) → A → Rows → Rows
  altered g a m = λ c. if same (CA.encode a) (CA.encode c) then kept (g (m c)) (m c) else m c

  module _ (sound : IsReliable R) (L : IsLawful R) (NA : IsCodec CA) (NB : IsCodec CB) where
    pub same_key : (a b : A) → same (CA.encode a) (CA.encode b) ≡ true → a ≡ b
    same_key a b e = ground (arith, same→eq _ _ e, NA a, NA b)

    updated-altered :
        (g : Option B → Option B) (a : A) (m : Rows) (b : B)
        → g (m a) ≡ some b
        → (c : A) → updated a (some b) m c ≡ altered g a m c
    updated-altered g a m b e c = elim (Bool-cases (same (CA.encode a) (CA.encode c))) [
      | inl s ↦
          let p : a ≡ c = same_key a c s in
          rw s (subst (λ z. some b ≡ kept (g (m z)) (m z)) p (rw e refl))
      | inr s ↦ rw s refl
    ]

    unaltered :
        (g : Option B → Option B) (a : A) (m : Rows)
        → g (m a) ≡ none
        → (c : A) → m c ≡ altered g a m c
    unaltered g a m e c = elim (Bool-cases (same (CA.encode a) (CA.encode c))) [
      | inl s ↦
          let p : a ≡ c = same_key a c s in
          rw s (subst (λ z. m z ≡ kept (g (m z)) (m z)) p (rw e refl))
      | inr s ↦ rw s refl
    ]

    cases :
        (g : Option B → Option B) (a : A) (k : Option B → LedgerExec R (Unit {0}))
        → ((d : Db) → k none d ≡ writes a (g none) d)
        → ((b : B) (d : Db) → k (some b) d ≡ writes a (g (some b)) d)
        → (o : Option B) (d : Db) → k o d ≡ writes a (g o) d
    cases g a k absent present none = absent
    cases g a k absent present (some b) = present b

    -- A read of a row, and a write that depends on it.
    pub alter-Makes :
        (g : Option B → Option B) (a : A) (k : Option B → LedgerExec R (Unit {0}))
        → ((d : Db) → k none d ≡ writes a (g none) d)
        → ((b : B) (d : Db) → k (some b) d ≡ writes a (g (some b)) d)
        → (m : Rows) (d : Db) → Holds m d
        → Makes (get_row R CB (as_key CA prefix a) >>= k) d tt (altered g a m)
    alter-Makes g a k absent present m d h =
        let agree = cases g a k absent present in
        let read =
          bind_ok (get_row R CB (as_key CA prefix a)) k d (get_row_ok sound L NB a m d h) in
        elim (Option-cases (g (m a))) [
          | inl e ↦ (
            d,
            read ∙ agree (m a) d ∙ rw e refl,
            Holds-same m (altered g a m) d (unaltered g a m e) h,
            λ j other. refl,
          )
          | inr (b, e) ↦
              let (d', done, h', frame) = put_row-Makes sound L NB a b m d h in
              (
                d',
                read ∙ agree (m a) d ∙ rw e done,
                Holds-same (updated a (some b) m) (altered g a m) d' (updated-altered g a m b e) h',
                frame,
              )
        ]
