-- ===== src/Ledger/Iteration/Visits.antt =====
-- `with_prefix_iterator`: the column after its rows were lent out to be changed.
use amaru_wear.Prelude.{
  ◌≡◌, refl, sym, ap, subst, ◌∙◌, true, false, Option, none, some, List, [], ◌∷◌, arith, length, ok,
  All, drop, for_each, if◌then◌else◌, Bool-cases, Option-cases, inl, inr, bind_ok, then_ok,
}
use amaru_wear.Bytes.{Bytes, same, before, starts_with, same→eq}
use amaru_wear.Bytes.Order.{before_irrefl}
use amaru_wear.RocksDb.{
  RocksDb, IsLawful, IsReliable, IsSorted, iterating, lookup, put_ok, delete_ok,
}
use amaru_wear.RocksDb.Prefix.{lookup_above}
use amaru_wear.Ledger.{Codec, IsCodec, internal, as_key}
use amaru_wear.Ledger.Column.{Rows, encoded, Holds, Makes}
use amaru_wear.Ledger.Column.Strays.{IsColumn, IsTidy}
use amaru_wear.Ledger.Delegations.{prefix_len}
use amaru_wear.Ledger.Iteration.{
  Visit, left, visited, IterBorrow, IsIterBorrow, with_update, prefix_entries, write_update,
  write_updates, with_prefix_iterator,
}
use amaru_wear.Ledger.Iteration.Laws.{
  IsRow, entries_of, entries-IsSorted, entries-IsRow, lookup-entries, lookup-entries_row,
}
use amaru_wear.Ledger.Iteration.Rows.{drop-as_key}

module _ (R : RocksDb) {A B : Type 0} (CA : Codec A) (CB : Codec B) (prefix : Bytes) where
  open R use {Db, content, write, erase}

  -- What the updates of a visited entry make of the bytes at its key.
  abbrev changed : Option (Option B) → Option Bytes → Option Bytes
  changed none old = old
  changed (some o) old = encoded R CA CB prefix o

  -- The bytes at a key after the visits to the entries: those of the row that is left.
  record AfterVisits (visit : Visit A B) (l : List (Bytes × Bytes)) (d d' : Db) : Type 0 where
    untouched : (j : Bytes) → lookup j l ≡ none → content d' j ≡ content d j
    touched :
        (a : A) (b : B)
        → lookup (as_key CA prefix a) l ≡ some (CB.encode b)
        → content d' (as_key CA prefix a) ≡ changed (visit a b) (content d (as_key CA prefix a))

  module _ (I : IterBorrow) (borrow : IsIterBorrow I) (sound : IsReliable R) (L : IsLawful R)
      (NA : IsCodec CA) (NB : IsCodec CB) (width : length prefix ≡ prefix_len) where
    write_update_lem :
        (k : Bytes) (o : Option B) (d : Db)
        → (d' : Db) × (write_update R CA CB (k, o) d ≡ (ok tt, d'))
          × ((j : Bytes)
              → content d' j ≡ (if same k j then encoded R CA CB prefix o else content d j))
    unfolding write_update
    write_update_lem k none d =
        (erase d k, delete_ok R internal sound k d, λ j. L.content-erase d k j)
    write_update_lem k (some v) d = (
      write d k (CB.encode v),
      put_ok R internal sound k (CB.encode v) d,
      λ j. L.content-write d k (CB.encode v) j,
    )

    -- The first entry's update, if there is one, and then those of the rest.
    first_update :
        (k : Bytes) (u : Option (Option B)) (d : Db)
        → (d₁ : Db) × ((rest : List (Bytes × Option B))
            → for_each (with_update k u rest) (write_update R CA CB) d
              ≡ for_each rest (write_update R CA CB) d₁)
          × ((j : Bytes)
              → content d₁ j ≡ (if same k j then changed u (content d j) else content d j))
    unfolding for_each
    first_update k none d = (d, λ rest. refl, λ j. ground arith)
    first_update k (some o) d =
        let (d₁, done, now) = write_update_lem k o d in
        (
          d₁,
          λ rest.
              then_ok (write_update R CA CB (k, o)) (for_each rest (write_update R CA CB)) d done,
          now,
        )

    key_injective : (a a' : A) → as_key CA prefix a ≡ as_key CA prefix a' → a ≡ a'
    key_injective a a' e =
        let p : CA.decode (drop prefix_len (as_key CA prefix a')) ≡ some a =
          subst (λ z. CA.decode (drop prefix_len z) ≡ some a) e
            (drop-as_key R CA CB prefix NA NB width a) in
        let q = drop-as_key R CA CB prefix NA NB width a' in cc

    -- A visit to the first entry and, in the database that it leaves, visits to the rest.
    after_first :
        (visit : Visit A B) (k v : Bytes) (l : List (Bytes × Bytes)) (d d₁ d' : Db) (a : A) (b : B)
        → k ≡ as_key CA prefix a
        → v ≡ CB.encode b
        → All (λ (f : Bytes × Bytes). before k f.0 ≡ true) l
        → ((j : Bytes)
            → content d₁ j ≡ (if same k j then changed (visit a b) (content d j) else content d j))
        → AfterVisits visit l d₁ d'
        → AfterVisits visit ((k, v) ∷ l) d d'
    unfolding lookup
    after_first visit k v l d d₁ d' a b at_k is_b above now after = record {
      untouched = λ j e. ground (arith, after.untouched j, now j);
      touched = λ a' b' e.
          let key = as_key CA prefix a' in
          elim (Bool-cases (same k key)) [
            | inl s ↦
                let k_is : k ≡ key = same→eq k key s in
                let a_is : a ≡ a' = key_injective a a' (sym at_k ∙ k_is) in
                let found : ◌≡◌ {A = Option Bytes} (some v) (some (CB.encode b')) = rw s at e in
                let p : CB.decode (CB.encode b') ≡ some b =
                  let q : CB.encode b ≡ CB.encode b' = cc in
                  subst (λ z. CB.decode z ≡ some b) q (NB b) in
                let r = NB b' in
                let b_is : b ≡ b' = cc in
                let gone : lookup key l ≡ none =
                  lookup_above key k l above
                    (subst (λ z. before k z ≡ false) k_is (before_irrefl k)) in
                after.untouched key gone ∙ now key ∙ rw (s, a_is, b_is) refl
            | inr s ↦
                let found : lookup key l ≡ some (CB.encode b') = rw s at e in
                after.touched a' b' found ∙ ap (changed (visit a' b')) (now key ∙ rw s refl)
          ];
    }

    visits :
        (visit : Visit A B) (m : Rows R CA CB prefix) (l : List (Bytes × Bytes)) (d : Db)
        → All (IsRow R CA CB prefix m) l
        → IsSorted l
        → (us : List (Bytes × Option B)) × (d' : Db) × (I.updates CA CB visit l ≡ some us)
          × (for_each us (write_update R CA CB) d ≡ (ok tt, d'))
          × AfterVisits visit l d d'
    unfolding for_each lookup
    visits visit m [] d rows s = (
      [],
      d,
      borrow.updates_end CA CB visit,
      refl,
      record { untouched = λ j e. refl; touched = λ a b e. cc },
    )
    visits visit m ((k, v) ∷ l) d rows s =
        let (a, b, at_k, is_b, held) = rows.0 in
        let (d₁, run, now) = first_update k (visit a b) d in
        let (us, d', upd, loop, after) = visits visit m l d₁ rows.1 s.1 in
        (
          with_update k (visit a b) us,
          d',
          borrow.updates_entry CA CB visit k v l a b us
              (subst (λ z. CA.decode (drop prefix_len z) ≡ some a) (sym at_k)
                (drop-as_key R CA CB prefix NA NB width a))
              (subst (λ z. CB.decode z ≡ some b) (sym is_b) (NB b)) upd,
          run us ∙ loop,
          after_first visit k v l d d₁ d' a b at_k is_b s.0 now after,
        )

    kept_or_left :
        (b : B) (u : Option (Option B))
        → changed u (some (CB.encode b)) ≡ encoded R CA CB prefix (left b u)
    kept_or_left b none = refl
    kept_or_left b (some o) = refl

    left_by :
        (m : Rows R CA CB prefix) (visit : Visit A B) (d d' : Db) (a : A)
        → Holds R CA CB prefix m d
        → AfterVisits visit (entries_of R CA CB prefix d) d d'
        → content d' (as_key CA prefix a) ≡ encoded R CA CB prefix (visited visit a (m a))
    left_by m visit d d' a h after =
        let key = as_key CA prefix a in
        let looked = lookup-entries_row R CA CB prefix L m d a h in
        elim (Option-cases (m a)) [
          | inl e ↦ after.untouched key (looked ∙ rw e refl) ∙ h.at_key a ∙ rw e refl
          | inr (b, e) ↦
              after.touched a b (looked ∙ rw e refl)
              ∙ ap (changed (visit a b)) (h.at_key a ∙ rw e refl)
              ∙ kept_or_left b (visit a b)
              ∙ rw e refl
        ]

    left-IsTidy :
        (visit : Visit A B) (d d' : Db)
        → AfterVisits visit (entries_of R CA CB prefix d) d d'
        → IsTidy R CA CB prefix d d'
    left-IsTidy visit d d' after = record {
      new_key_of = λ j found.
          let looked = lookup-entries R CA CB prefix L d j in
          inl (λ gone. found (
            after.untouched j (
              looked
              ∙ elim (Bool-cases (starts_with prefix j)) [ inl s ↦ rw s gone | inr s ↦ rw s refl ])
            ∙ gone));
    }

    -- `with_prefix_iterator` lends each row of the column once: afterwards the column holds for
    -- each key what its visit has left, a row that was not borrowed as it was and no new ones, and
    -- no other column has changed.
    pub with_prefix_iterator_lem :
        (visit : Visit A B) (m : Rows R CA CB prefix) (d : Db)
        → Holds R CA CB prefix m d
        → IsColumn R CA CB prefix d
        → Makes R CA CB prefix
            (with_prefix_iterator R CA CB I prefix visit)
            d
            tt
            (λ a. visited visit a (m a))
          × IsTidy R CA CB prefix d (with_prefix_iterator R CA CB I prefix visit d).1
    unfolding with_prefix_iterator prefix_entries write_updates entries_of
    with_prefix_iterator_lem visit m d h column =
        let l = entries_of R CA CB prefix d in
        let (us, d', upd, loop, after) =
          visits visit m l d (entries-IsRow R CA CB prefix L m d h column)
            (entries-IsSorted R CA CB prefix L d) in
        let read : prefix_entries R CA CB prefix d ≡ (ok l, d) =
          rw (sound d (iterating prefix), prefix_entries) refl in
        let run : with_prefix_iterator R CA CB I prefix visit d ≡ (ok tt, d') =
          bind_ok (prefix_entries R CA CB prefix) _ d read ∙ rw upd loop in
        (
          (
            d',
            run,
            record { at_key = λ a. left_by m visit d d' a h after },
            λ j other. after.untouched j (lookup-entries R CA CB prefix L d j ∙ rw other refl),
          ),
          subst (λ z. IsTidy R CA CB prefix d z.1) (sym run) (left-IsTidy visit d d' after),
        )
