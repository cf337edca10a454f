-- ===== src/Ledger/Iteration.antt =====
-- The iterators over a column: `iter` and `with_prefix_iterator` of
-- rust/patches/amaru-stores/src/rocksdb/mod.rs.
pub mod Laws
pub mod Rows
pub mod Visits
use amaru_wear.Prelude.{
  ℕ, Option, none, some, List, [], ◌∷◌, ◌≡◌, Result, ok, err, panic, out_of_fuel, ◌>>=◌, lift,
  for_each, drop,
}
use amaru_wear.Bytes.{Bytes}
use amaru_wear.RocksDb.{RocksDb, iterating, put, delete}
use amaru_wear.RocksDb.Prefix.{within_prefix}
use amaru_wear.Ledger.{Codec, LedgerError, internal, LedgerExec}
use amaru_wear.Ledger.Delegations.{prefix_len}

-- What a caller does to an entry that it is lent: nothing, or it leaves a row or none.
abbrev pub Visit : Type 0 → Type 0 → Type 0
Visit A B = A → B → Option (Option B)

-- The row that a visit leaves.
abbrev pub left : {B : Type 0} → B → Option (Option B) → Option B
left b none = some b
left b (some o) = o

abbrev pub visited : {A B : Type 0} → Visit A B → A → Option B → Option B
visited visit a none = none
visited visit a (some b) = left b (visit a b)

-- The crate `amaru_iter_borrow`: the entries that the callers of an iterator have borrowed to change,
-- with what they leave; there is no answer where an entry cannot be decoded.
pub record IterBorrow : Type 1 where
  pub updates :
      {A B : Type 0}
      → Codec A
      → Codec B
      → Visit A B
      → List (Bytes × Bytes)
      → Option (List (Bytes × Option B))

abbrev pub with_update :
    {B : Type 0} → Bytes → Option (Option B) → List (Bytes × Option B) → List (Bytes × Option B)
with_update k none rest = rest
with_update k (some left) rest = (k, left) ∷ rest

-- An entry that decodes is lent, in its turn, and is an update if it was borrowed to change.
pub record IsIterBorrow (I : IterBorrow) : Type 1 where
  pub updates_end :
      {A B : Type 0} (CA : Codec A) (CB : Codec B) (visit : Visit A B)
      → I.updates CA CB visit [] ≡ some []
  pub updates_entry :
      {A B : Type 0} (CA : Codec A) (CB : Codec B) (visit : Visit A B) (k v : Bytes)
      (l : List (Bytes × Bytes)) (a : A) (b : B) (rest : List (Bytes × Option B))
      → CA.decode (drop prefix_len k) ≡ some a
      → CB.decode v ≡ some b
      → I.updates CA CB visit l ≡ some rest
      → I.updates CA CB visit ((k, v) ∷ l) ≡ some (with_update k (visit a b) rest)

module _ (R : RocksDb) {A B : Type 0} (CA : Codec A) (CB : Codec B) where
  open R use {Db, Error, fault, scan}

  -- A raw iterator that fails is not valid any more, and yields no further item.
  unfoldable pub readable : Db → List (Bytes × Bytes) → List (Bytes × Bytes)
  readable d [] = []
  readable d (e ∷ l) =
      let rest = readable d l in elim (fault d (iterating e.0)) [ none ↦ e ∷ rest | some f ↦ [] ]

  -- The key after the prefix, and the value: `panic!` where one is no value.
  unfoldable pub decode_entry : Bytes × Bytes → Result (LedgerError Error) (A × B)
  decode_entry e = elim (CA.decode (drop prefix_len e.0)) [
    | none ↦ panic
    | some k ↦ elim (CB.decode e.1) [ none ↦ panic | some v ↦ ok (k, v) ]
  ]

  abbrev pub with_row :
      Result (LedgerError Error) (A × B)
      → Result (LedgerError Error) (List (A × B))
      → Result (LedgerError Error) (List (A × B))
  with_row (ok row) (ok rows) = ok (row ∷ rows)
  with_row (ok row) (err error) = err error
  with_row (ok row) panic = panic
  with_row (ok row) out_of_fuel = out_of_fuel
  with_row (err error) rows = err error
  with_row panic rows = panic
  with_row out_of_fuel rows = out_of_fuel

  unfoldable pub decode_entries : List (Bytes × Bytes) → Result (LedgerError Error) (List (A × B))
  decode_entries [] = ok []
  decode_entries (e ∷ l) = with_row (decode_entry e) (decode_entries l)

  -- All items of the iterator.
  unfoldable pub iter : Bytes → LedgerExec R (List (A × B))
  iter prefix d = (decode_entries (readable d (within_prefix prefix (scan d prefix))), d)

  -- `item.unwrap_or_else(|e| panic!(..))`
  unfoldable pub prefix_entries : Bytes → LedgerExec R (List (Bytes × Bytes))
  prefix_entries prefix d = elim (fault d (iterating prefix)) [
    | none ↦ (ok (within_prefix prefix (scan d prefix)), d)
    | some f ↦ (panic, d)
  ]

  unfoldable pub write_update : Bytes × Option B → LedgerExec R (Unit {0})
  write_update (k, none) = delete R internal k
  write_update (k, some v) = put R internal k (CB.encode v)

  unfoldable pub write_updates : Option (List (Bytes × Option B)) → LedgerExec R (Unit {0})
  write_updates none = lift panic
  write_updates (some updates) = for_each updates write_update

  unfoldable pub with_prefix_iterator : IterBorrow → Bytes → Visit A B → LedgerExec R (Unit {0})
  with_prefix_iterator I prefix visit =
      prefix_entries prefix >>= λ entries. write_updates (I.updates CA CB visit entries)
