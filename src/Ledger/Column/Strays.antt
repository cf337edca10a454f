-- ===== src/Ledger/Column/Strays.antt =====
-- Writes to a column leave no key in it that is not a row's.
use amaru_wear.Prelude.{
  ◌≡◌, ◌≢◌, sym, subst, ◌∙◌, ◌⊎◌, inl, inr, Option, none, some, List, [], ◌∷◌, true, Bool-cases,
  Option-cases, ◌>>=◌, for_each, bind_ok, then_ok,
}
use amaru_wear.Bytes.{Bytes, same, same→eq, starts_with}
use amaru_wear.RocksDb.{RocksDb, IsLawful, IsReliable, put_ok}
use amaru_wear.Ledger.{Codec, IsCodec, internal, as_key, LedgerExec, get_row, put_row}
use amaru_wear.Ledger.Column.{Rows, Holds, Makes, get_row_ok, writes}

module _ (R : RocksDb) {A B : Type 0} (CA : Codec A) (CB : Codec B) (prefix : Bytes) where
  open R use {Db, content, write}

  -- Every key with the prefix is that of a row.
  pub record IsColumn (d : Db) : Type 0 where
    pub at_row :
        (j : Bytes)
        → starts_with prefix j ≡ true
        → content d j ≢ none
        → (a : A) × (j ≡ as_key CA prefix a)

  -- The keys that are new are those of rows.
  pub record IsTidy (d d' : Db) : Type 0 where
    pub new_key_of :
        (j : Bytes)
        → content d' j ≢ none
        → (content d j ≢ none) ⊎ ((a : A) × (j ≡ as_key CA prefix a))

  pub IsColumn-IsTidy : (d d' : Db) → IsColumn d → IsTidy d d' → IsColumn d'
  IsColumn-IsTidy d d' column tidy = record {
    at_row = λ j under found. elim (tidy.new_key_of j found) [
      | inl old ↦ column.at_row j under old
      | inr row ↦ row
    ];
  }

  pub IsColumn-same :
      (d d' : Db)
      → ((j : Bytes) → starts_with prefix j ≡ true → content d' j ≡ content d j)
      → IsColumn d
      → IsColumn d'
  IsColumn-same d d' stays column = record {
    at_row = λ j under found. column.at_row j under (λ e. found (stays j under ∙ e));
  }

  pub IsTidy-refl : (d : Db) → IsTidy d d
  IsTidy-refl d = record { new_key_of = λ j found. inl found }

  pub IsTidy-trans : (d d₁ d₂ : Db) → IsTidy d d₁ → IsTidy d₁ d₂ → IsTidy d d₂
  IsTidy-trans d d₁ d₂ first second = record {
    new_key_of = λ j found. elim (second.new_key_of j found) [
      | inl old ↦ first.new_key_of j old
      | inr row ↦ inr row
    ];
  }

  module _ (sound : IsReliable R) (L : IsLawful R) where
    write-IsTidy : (a : A) (v : Bytes) (d : Db) → IsTidy d (write d (as_key CA prefix a) v)
    write-IsTidy a v d = record {
      new_key_of = λ j found. elim (Bool-cases (same (as_key CA prefix a) j)) [
        | inl e ↦ inr (a, sym (same→eq (as_key CA prefix a) j e))
        | inr e ↦ inl (λ q. found (L.content-write d (as_key CA prefix a) v j ∙ rw e q))
      ];
    }

    writes-IsTidy : (a : A) (o : Option B) (d : Db) → IsTidy d (writes R CA CB prefix a o d).1
    unfolding put_row
    writes-IsTidy a none d = IsTidy-refl d
    writes-IsTidy a (some b) d =
        rw (put_ok R internal sound (as_key CA prefix a) (CB.encode b) d)
          (write-IsTidy a (CB.encode b) d)

    -- A read of a row, and a write of it that depends on it.
    pub alter-IsTidy :
        IsCodec CB
        → (g : Option B → Option B) (a : A) (k : Option B → LedgerExec R (Unit {0}))
        → ((d : Db) → k none d ≡ writes R CA CB prefix a (g none) d)
        → ((b : B) (d : Db) → k (some b) d ≡ writes R CA CB prefix a (g (some b)) d)
        → (m : Rows R CA CB prefix) (d : Db) → Holds R CA CB prefix m d
        → IsTidy d ((get_row R CB (as_key CA prefix a) >>= k) d).1
    alter-IsTidy NB g a k absent present m d h =
        rw
          (bind_ok (get_row R CB (as_key CA prefix a)) k d
            (get_row_ok R CA CB prefix sound L NB a m d h))
          (elim (Option-cases (m a)) [
            | inl e ↦ rw (e, absent d) (writes-IsTidy a (g none) d)
            | inr (b, e) ↦ rw (e, present b d) (writes-IsTidy a (g (some b)) d)
          ])

    pub for_each-IsTidy :
        {X : Type 0} (step : X → Rows R CA CB prefix → Rows R CA CB prefix)
        (body : X → LedgerExec R (Unit {0}))
        → ((x : X) (m : Rows R CA CB prefix) (d : Db)
            → Holds R CA CB prefix m d
            → Makes R CA CB prefix (body x) d tt (step x m))
        → ((x : X) (m : Rows R CA CB prefix) (d : Db)
            → Holds R CA CB prefix m d
            → IsTidy d (body x d).1)
        → (xs : List X) (m : Rows R CA CB prefix) (d : Db) → Holds R CA CB prefix m d
        → IsTidy d (for_each xs body d).1
    unfolding for_each
    for_each-IsTidy step body one tidy [] m d h = IsTidy-refl d
    for_each-IsTidy step body one tidy (x ∷ xs) m d h =
        let (d₁, done, h₁, frame₁) = one x m d h in
        let first : IsTidy d d₁ = subst (λ z. IsTidy d z.1) done (tidy x m d h) in
        subst (λ z. IsTidy d z.1) (sym (then_ok (body x) (for_each xs body) d done))
          (IsTidy-trans d d₁ (for_each xs body d₁).1 first
            (for_each-IsTidy step body one tidy xs (step x m) d₁ h₁))
