-- ===== src/RocksDb.antt =====
-- RocksDB as the stores use it, an interface and no implementation: a database maps byte strings
-- to byte strings, an iterator walks the entries from a key on in the order of the keys, and every
-- access may fail. The crate `rocksdb` is not part of the repository, so the database is a
-- parameter and `IsLawful` is what its documentation promises.
pub mod Memory
pub mod Prefix
use amaru_wear.Prelude.{
  ℕ, ◌≡◌, refl, Bool, true, Option, none, some, List, [], ◌∷◌, Result, ok, err, panic, out_of_fuel,
  Exec, All, if◌then◌else◌,
}
use amaru_wear.Bytes.{Bytes, same, before}

pub data Access : Type 0 where
  reading writing deleting iterating : Bytes → Access
  committing rolling_back : Access

pub record RocksDb : Type 1 where
  pub Db : Type 0
  pub Error : Type 0
  pub fault : Db → Access → Option Error
  pub content : Db → Bytes → Option Bytes
  pub write : Db → Bytes → Bytes → Db
  pub erase : Db → Bytes → Db
  pub scan : Db → Bytes → List (Bytes × Bytes)

unfoldable pub lookup : Bytes → List (Bytes × Bytes) → Option Bytes
lookup j [] = none
lookup j ((k, v) ∷ l) = if same k j then some v else lookup j l

-- Every later key is greater.
abbrev pub IsSorted : List (Bytes × Bytes) → Type 0
IsSorted [] = Unit
IsSorted (e ∷ l) = All (λ f. before e.0 f.0 ≡ true) l × IsSorted l

pub record IsLawful (R : RocksDb) : Type 0 where
  pub content-write :
      (d : R.Db) (k v j : Bytes)
      → R.content (R.write d k v) j ≡ (if same k j then some v else R.content d j)
  pub content-erase :
      (d : R.Db) (k j : Bytes)
      → R.content (R.erase d k) j ≡ (if same k j then none else R.content d j)
  pub lookup-scan :
      (d : R.Db) (start j : Bytes)
      → lookup j (R.scan d start) ≡ (if before j start then none else R.content d j)
  pub scan-IsSorted : (d : R.Db) (start : Bytes) → IsSorted (R.scan d start)

-- No access fails: the medium is sound, and no other transaction conflicts.
abbrev pub IsReliable : RocksDb → Type 0
IsReliable R = (d : R.Db) (a : Access) → R.fault d a ≡ none

-- The outcome of an access, under the error that the caller makes of a failure.
unfoldable pub answer : {F E A : Type 0} → Option F → (F → E) → A → Result E A
answer none wrap a = ok a
answer (some f) wrap a = err (wrap f)

module _ (R : RocksDb) where
  open R use {Db, Error, fault, content, write, erase, scan}

  module _ {E : Type 0} (wrap : Error → E) where
    unfoldable pub get : Bytes → Exec Db E (Option Bytes)
    unfolding answer
    get k d = (answer (fault d (reading k)) wrap (content d k), d)

    unfoldable pub put : Bytes → Bytes → Exec Db E (Unit {0})
    put k v d = elim (fault d (writing k)) [
      | none ↦ (ok tt, write d k v)
      | some f ↦ (err (wrap f), d)
    ]

    unfoldable pub delete : Bytes → Exec Db E (Unit {0})
    delete k d = elim (fault d (deleting k)) [
      | none ↦ (ok tt, erase d k)
      | some f ↦ (err (wrap f), d)
    ]

    -- The entries that an iterator from `start` yields.
    unfoldable pub iterate : Bytes → Exec Db E (List (Bytes × Bytes))
    unfolding answer
    iterate start d = (answer (fault d (iterating start)) wrap (scan d start), d)

    -- A transaction works on a copy: a commit publishes it, and an error or a failed commit
    -- leaves the database as it was.
    unfoldable pub commit : {A : Type 0} → Db → Result E A × Db → Result E A × Db
    commit before_tx (ok a, tx) = elim (fault tx committing) [
      | none ↦ (ok a, tx)
      | some f ↦ (err (wrap f), before_tx)
    ]
    commit before_tx (err e, tx) = (err e, before_tx)
    commit before_tx (panic, tx) = (panic, before_tx)
    commit before_tx (out_of_fuel, tx) = (out_of_fuel, before_tx)

    unfoldable pub in_transaction : {A : Type 0} → Exec Db E A → Exec Db E A
    unfolding commit
    in_transaction body d = commit d (body d)

    module _ (sound : IsReliable R) where
      pub get_ok : (k : Bytes) (d : Db) → get k d ≡ (ok (content d k), d)
      unfolding get
      get_ok k d = rw (sound d (reading k))

      pub put_ok : (k v : Bytes) (d : Db) → put k v d ≡ (ok tt, write d k v)
      unfolding put
      put_ok k v d = rw (sound d (writing k), put)

      pub delete_ok : (k : Bytes) (d : Db) → delete k d ≡ (ok tt, erase d k)
      unfolding delete
      delete_ok k d = rw (sound d (deleting k), delete)

      pub iterate_ok : (start : Bytes) (d : Db) → iterate start d ≡ (ok (scan d start), d)
      unfolding iterate
      iterate_ok start d = rw (sound d (iterating start))

      pub in_transaction_ok :
          {A : Type 0} (body : Exec Db E A) (d : Db) {a : A} {d' : Db}
          → body d ≡ (ok a, d')
          → in_transaction body d ≡ (ok a, d')
      unfolding in_transaction
      in_transaction_ok body d {a} {d'} h = rw h (rw (sound d' committing, commit))

    -- A transaction whose body fails changes nothing, whatever the body wrote.
    pub in_transaction_err :
        {A : Type 0} (body : Exec Db E A) (d d' : Db) {e : E}
        → body d ≡ (err e, d')
        → in_transaction body d ≡ (err e, d)
    unfolding in_transaction
    in_transaction_err body d d' h = rw h
