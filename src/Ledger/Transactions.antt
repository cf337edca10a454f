-- ===== src/Ledger/Transactions.antt =====
-- The transactions of the ledger store: rust/patches/amaru-stores/src/rocksdb/transaction.rs, and
-- `create_transaction`, `commit`, `rollback`, `try_epoch_transition` and `refund` of rocksdb/mod.rs.
pub mod Laws
use amaru_wear.Prelude.{
  ℕ, ◌+◌, ◌%◌, ◌^◌, Bool, true, false, not, Option, none, some, List, [], ◌∷◌, Result, ok, err,
  panic, out_of_fuel, Exec, ◌>>=◌, ◌>>◌, pure, lift, if◌then◌else◌,
}
use amaru_wear.Bytes.{Bytes}
use amaru_wear.RocksDb.{RocksDb, committing, rolling_back, get, put, delete}
use amaru_wear.Ledger.{
  Codec, LedgerKernel, StakeCredential, LedgerError, internal, undecodable, LedgerExec,
  progress_key,
}
use amaru_wear.Ledger.Accounts.{set_account}

-- `self.get() == value`
unfoldable pub same_flag : Bool → Bool → Bool
same_flag true b = b
same_flag false b = not b

module _ (K : LedgerKernel) where
  open K use {Progress, same_progress}

  -- `previous_progress != from`
  unfoldable pub same_optional : Option Progress → Option Progress → Bool
  same_optional none none = true
  same_optional (some a) (some b) = same_progress a b
  same_optional a b = false

module _ (R : RocksDb) where
  open R use {Db, Error, fault}

  -- The store: the database, and the flag of the transaction that is under way.
  pub record Host : Type 0 where
    pub db : Db
    pub ongoing : Bool

  abbrev pub HostExec : Type 0 → Type 0
  HostExec A = Exec Host (LedgerError Error) A

  -- `OngoingTransaction::set` panics if the flag has the value.
  unfoldable pub set_ongoing : Bool → HostExec (Unit {0})
  set_ongoing value h =
      if same_flag h.ongoing value then (panic, h) else (ok tt, record h { ongoing = value })

  -- The transaction works on a copy of the database.
  unfoldable pub create_transaction : HostExec Db
  create_transaction h = if h.ongoing then (panic, h) else (set_ongoing true >> pure h.db) h

  unfoldable pub transaction_ended : HostExec (Unit {0})
  transaction_ended = set_ongoing false

  -- `commit` and `rollback` end the transaction also where they fail.
  unfoldable pub commit_transaction : Db → HostExec (Unit {0})
  commit_transaction tx h = elim (fault tx committing) [
    | none ↦ transaction_ended (record h { db = tx })
    | some f ↦ (transaction_ended >> lift (err (internal f))) h
  ]

  unfoldable pub rollback_transaction : Db → HostExec (Unit {0})
  rollback_transaction tx h = elim (fault tx rolling_back) [
    | none ↦ transaction_ended h
    | some f ↦ (transaction_ended >> lift (err (internal f))) h
  ]

  module _ (K : LedgerKernel) where
    open K use {Progress, progress_codec}

    -- `.map(|bytes| cbor::decode(&bytes)).transpose().map_err(StoreError::Undecodable)?`
    unfoldable pub decode_progress : Option Bytes → Result (LedgerError Error) (Option Progress)
    decode_progress none = ok none
    decode_progress (some bytes) = elim (progress_codec.decode bytes) [
      | none ↦ err undecodable
      | some progress ↦ ok (some progress)
    ]

    unfoldable pub write_progress : Option Progress → LedgerExec R (Unit {0})
    write_progress none = delete R internal progress_key
    write_progress (some to) = put R internal progress_key (progress_codec.encode to)

    unfoldable pub try_epoch_transition : Option Progress → Option Progress → LedgerExec R Bool
    try_epoch_transition from to = do
      bytes ← get R internal progress_key
      previous ← lift (decode_progress bytes)
      if same_optional K previous from then (write_progress to >> pure true) else pure false

    -- The sum is in 64 bits.
    unfoldable pub refund : StakeCredential → ℕ → LedgerExec R ℕ
    refund credential deposit = set_account R K credential (λ balance. (balance + deposit) % 2 ^ 64)
