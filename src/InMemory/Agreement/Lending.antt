-- ===== src/InMemory/Agreement/Lending.antt =====
-- Lending the rows of a column, `with_column` of rust/patches/amaru-stores/src/in_memory/mod.rs and
-- `with_prefix_iterator` of rocksdb/mod.rs.
use amaru_wear.Prelude.{◌≡◌, refl, length, ok}
use amaru_wear.Bytes.{Bytes}
use amaru_wear.RocksDb.{RocksDb, IsLawful, IsReliable}
use amaru_wear.Map.{Ordered, IsOrdered, Map}
use amaru_wear.Ledger.{Codec, IsCodec}
use amaru_wear.Ledger.Delegations.{prefix_len}
use amaru_wear.Ledger.Column.{Rows, Holds}
use amaru_wear.Ledger.Column.Strays.{IsColumn}
use amaru_wear.Ledger.Iteration.{Visit, visited, IterBorrow, IsIterBorrow, with_prefix_iterator}
use amaru_wear.Ledger.Iteration.Visits.{with_prefix_iterator_lem}
use amaru_wear.InMemory.Context.{with_column}
use amaru_wear.InMemory.Agreement.{Agrees, with_column-Agrees}

module _ (R : RocksDb) {A B : Type 0} (CA : Codec A) (CB : Codec B) (prefix : Bytes)
    (I : IterBorrow) (borrow : IsIterBorrow I) (sound : IsReliable R) (L : IsLawful R)
    (NA : IsCodec CA) (NB : IsCodec CB) (width : length prefix ≡ prefix_len) (O : Ordered A)
    (o : IsOrdered O) where
  -- The rows of a column are lent alike by the two stores: a map in memory that has the rows of the
  -- column in the database has them again after both have lent them to the same visits.
  pub with_prefix_iterator-with_column :
      (visit : Visit A B) (l : Map A B) (m : Rows R CA CB prefix) (d : R.Db)
      → Agrees O l m
      → Holds R CA CB prefix m d
      → IsColumn R CA CB prefix d
      → (m' : Rows R CA CB prefix) × (d' : R.Db) × (with_prefix_iterator R CA CB I prefix visit d
          ≡ (ok tt, d'))
        × Holds R CA CB prefix m' d'
        × Agrees O (with_column O visit l) m'
        × ((a : A) → m' a ≡ visited visit a (m a))
  with_prefix_iterator-with_column visit l m d agrees h column =
      let ((d', done, h', frame), tidy) =
        with_prefix_iterator_lem R CA CB prefix I borrow sound L NA NB width visit m d h column in
      (_, d', done, h', with_column-Agrees O o visit l m agrees, λ a. refl)
