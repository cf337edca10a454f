-- ===== src/Ledger/Iteration/Rows.antt =====
-- `iter`: the rows of a column, each once, in the order of their keys.
use amaru_wear.Prelude.{
  ◌≡◌, refl, sym, ap, subst, ◌∙◌, true, Option, none, some, List, [], ◌∷◌, arith, length, ok, All,
  drop, drop_of_length, if◌then◌else◌, Bool-cases, inl, inr,
}
use amaru_wear.Bytes.{Bytes, same, before}
use amaru_wear.Bytes.Order.{before-append_left, same-append_left}
use amaru_wear.RocksDb.{RocksDb, IsLawful, IsReliable, IsSorted, iterating, lookup}
use amaru_wear.Ledger.{Codec, IsCodec, as_key}
use amaru_wear.Ledger.Column.{Rows, encoded, Holds}
use amaru_wear.Ledger.Column.Strays.{IsColumn}
use amaru_wear.Ledger.Delegations.{prefix_len}
use amaru_wear.Ledger.Iteration.{readable, decode_entry, decode_entries, iter}
use amaru_wear.Ledger.Iteration.Laws.{
  IsRow, entries_of, entries-IsSorted, entries-IsRow, lookup-entries_row,
}

module _ (R : RocksDb) {A B : Type 0} (CA : Codec A) (CB : Codec B) (prefix : Bytes) where
  open R use {Db}

  -- The row of a key among the rows of an iterator.
  unfoldable pub row_of : A → List (A × B) → Option B
  row_of a [] = none
  row_of a ((k, v) ∷ rows) = if same (CA.encode k) (CA.encode a) then some v else row_of a rows

  -- Every later key is greater, as bytes.
  abbrev pub IsAscending : List (A × B) → Type 0
  IsAscending [] = Unit
  IsAscending ((k, v) ∷ rows) =
      All (λ (row : A × B). before (CA.encode k) (CA.encode row.0) ≡ true) rows × IsAscending rows

  -- The entries are the rows, encoded.
  abbrev Encode : List (Bytes × Bytes) → List (A × B) → Type 0
  Encode [] [] = Unit
  Encode [] (row ∷ rows) = ⊥
  Encode (e ∷ l) [] = ⊥
  Encode (e ∷ l) ((k, v) ∷ rows) = (e.0 ≡ as_key CA prefix k) × (e.1 ≡ CB.encode v) × Encode l rows

  row_of-lookup :
      (a : A) (l : List (Bytes × Bytes)) (rows : List (A × B))
      → Encode l rows
      → encoded R CA CB prefix (row_of a rows) ≡ lookup (as_key CA prefix a) l
  unfolding row_of lookup as_key
  row_of-lookup a [] [] h = refl
  row_of-lookup a [] (row ∷ rows) h = absurd h
  row_of-lookup a (e ∷ l) [] h = absurd h
  row_of-lookup a (e ∷ l) ((k, v) ∷ rows) h =
      rw (h.0, same-append_left prefix (CA.encode k) (CA.encode a))
        (elim (Bool-cases (same (CA.encode k) (CA.encode a))) [
          | inl s ↦ rw s (rw h.1 refl)
          | inr s ↦ rw s (row_of-lookup a l rows h.2)
        ])

  above :
      (k : A) (l : List (Bytes × Bytes)) (rows : List (A × B))
      → Encode l rows
      → All (λ (f : Bytes × Bytes). before (as_key CA prefix k) f.0 ≡ true) l
      → All (λ (row : A × B). before (CA.encode k) (CA.encode row.0) ≡ true) rows
  unfolding as_key
  above k [] [] h all = tt
  above k [] (row ∷ rows) h all = absurd h
  above k (e ∷ l) [] h all = absurd h
  above k (e ∷ l) ((k', v) ∷ rows) h all = (
    sym (before-append_left prefix (CA.encode k) (CA.encode k')) ∙ (rw h.0 at all.0),
    above k l rows h.2 all.1,
  )

  Encode-IsAscending :
      (l : List (Bytes × Bytes)) (rows : List (A × B))
      → Encode l rows
      → IsSorted l
      → IsAscending rows
  Encode-IsAscending [] [] h s = tt
  Encode-IsAscending [] (row ∷ rows) h s = absurd h
  Encode-IsAscending (e ∷ l) [] h s = absurd h
  Encode-IsAscending (e ∷ l) ((k, v) ∷ rows) h s =
      (above k l rows h.2 (rw h.0 at s.0), Encode-IsAscending l rows h.2 s.1)

  readable_all : IsReliable R → (d : Db) (l : List (Bytes × Bytes)) → readable R CA CB d l ≡ l
  unfolding readable
  readable_all sound d [] = refl
  readable_all sound d (e ∷ l) =
      rw (sound d (iterating e.0), readable) (ap (◌∷◌ e) (readable_all sound d l))

  module _ (NA : IsCodec CA) (NB : IsCodec CB) (width : length prefix ≡ prefix_len) where
    pub drop-as_key : (a : A) → CA.decode (drop prefix_len (as_key CA prefix a)) ≡ some a
    unfolding as_key
    drop-as_key a = rw (drop_of_length prefix_len prefix (CA.encode a) width) (NA a)

    decode_row :
        (m : Rows R CA CB prefix) (e : Bytes × Bytes) (h : IsRow R CA CB prefix m e)
        → decode_entry R CA CB e ≡ ok (h.0, h.1)
    unfolding decode_entry
    decode_row m (k, v) h =
        let at_k : CA.decode (drop prefix_len k) ≡ some h.0 =
          subst (λ z. CA.decode (drop prefix_len z) ≡ some h.0) (sym h.2) (drop-as_key h.0) in
        let at_v : CB.decode v ≡ some h.1 =
          subst (λ z. CB.decode z ≡ some h.1) (sym h.3) (NB h.1) in
        ground (arith, at_k, at_v)

    decode-Encode :
        (m : Rows R CA CB prefix) (l : List (Bytes × Bytes))
        → All (IsRow R CA CB prefix m) l
        → (rows : List (A × B)) × (decode_entries R CA CB l ≡ ok rows) × Encode l rows
    unfolding decode_entries
    decode-Encode m [] h = ([], refl, tt)
    decode-Encode m (e ∷ l) h =
        let (a, b, at_a, is_b, held) = h.0 in
        let (rows, done, encode) = decode-Encode m l h.1 in
        ((a, b) ∷ rows, rw (decode_row m e h.0, done) refl, (at_a, is_b, encode))

    encoded_injective :
        (o p : Option B) → encoded R CA CB prefix o ≡ encoded R CA CB prefix p → o ≡ p
    encoded_injective none none e = refl
    encoded_injective none (some b) e = cc
    encoded_injective (some a) none e = cc
    encoded_injective (some a) (some b) e =
        let q : CB.encode a ≡ CB.encode b = cc in sym (NB a) ∙ rw q (NB b)

    -- `iter` of a column yields the rows that the column holds, each once, in the order of their
    -- keys' bytes, and writes nothing.
    pub iter_lem :
        IsReliable R
        → IsLawful R
        → (m : Rows R CA CB prefix) (d : Db) → Holds R CA CB prefix m d
        → IsColumn R CA CB prefix d
        → (rows : List (A × B)) × (iter R CA CB prefix d ≡ (ok rows, d))
          × IsAscending rows
          × ((a : A) → row_of a rows ≡ m a)
    unfolding iter entries_of
    iter_lem sound L m d h column =
        let l = entries_of R CA CB prefix d in
        let (rows, done, encode) =
          decode-Encode m l (entries-IsRow R CA CB prefix L m d h column) in
        (
          rows,
          rw (readable_all sound d l) (rw done refl),
          Encode-IsAscending l rows encode (entries-IsSorted R CA CB prefix L d),
          λ a.
              encoded_injective (row_of a rows) (m a)
                (row_of-lookup a l rows encode ∙ lookup-entries_row R CA CB prefix L m d a h),
        )
