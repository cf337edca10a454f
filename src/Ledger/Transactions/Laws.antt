-- ===== src/Ledger/Transactions/Laws.antt =====
-- One transaction at a time, and the compare-and-swap of the epoch transition.
use amaru_wear.Prelude.{
  ◌≡◌, ◌≢◌, ◌⊎◌, ◌↔◌, arith, refl, sym, ap, ◌∙◌, Bool, true, false, Option, none, some,
  Option-cases, Bool-cases, inl, inr, ok, panic, if◌then◌else◌, ◌>>=◌, ◌>>◌, bind_ok, then_ok, pure,
  bind_result,
}
use amaru_wear.Bytes.{Bytes, same}
use amaru_wear.RocksDb.{
  RocksDb, IsLawful, IsReliable, committing, rolling_back, get, get_ok, put_ok, delete_ok,
}
use amaru_wear.Ledger.{LedgerKernel, IsLedgerKernel, internal, progress_key}
use amaru_wear.Ledger.Transactions.{
  same_flag, Host, set_ongoing, create_transaction, transaction_ended, commit_transaction,
  rollback_transaction, same_optional, decode_progress, write_progress, try_epoch_transition,
}

module _ (R : RocksDb) where
  open R use {Db, fault, content}

  -- What a transaction's end leaves: no transaction under way, and the database as it was or, for a
  -- commit that succeeds, as the transaction has it.
  pub transaction_lem :
      (h : Host R) (tx : Db)
      → h.ongoing ≡ false
      → (h' : Host R) × (create_transaction R h ≡ (ok h.db, h'))
        × ((create_transaction R h').0 ≡ panic)
        × ((commit_transaction R tx h').1 ≡ record {
          db = elim (fault tx committing) as (λ _. Db) [ none ↦ tx | some f ↦ h.db ];
          ongoing = false;
        })
        × ((rollback_transaction R tx h').1 ≡ h)
  unfolding create_transaction set_ongoing transaction_ended commit_transaction rollback_transaction
      same_flag ◌>>◌
  transaction_lem h tx free = (
    record { db = h.db; ongoing = true },
    rw free refl,
    refl,
    elim (Option-cases (fault tx committing)) [
      | inl e ↦ rw (e, commit_transaction) refl
      | inr (f, e) ↦ rw (e, commit_transaction) (unfold ◌>>=◌ bind_result in refl)
    ],
    elim (Option-cases (fault tx rolling_back)) [
      | inl e ↦
          rw (e, rollback_transaction)
            (ap (λ (b : Bool). record { db = h.db; ongoing = b }) (sym free))
      | inr (f, e) ↦
          rw (e, rollback_transaction)
            (unfold ◌>>=◌ bind_result in
              ap (λ (b : Bool). record { db = h.db; ongoing = b }) (sym free))
    ],
  )

  module _ (K : LedgerKernel) (sound : IsReliable R) (L : IsLawful R) (N : IsLedgerKernel K) where
    open K use {Progress, progress_codec}

    abbrev pub encoded_progress : Option Progress → Option Bytes
    encoded_progress none = none
    encoded_progress (some p) = some (progress_codec.encode p)

    decode_progress-encoded :
        (o : Option Progress) → decode_progress R K (encoded_progress o) ≡ ok o
    unfolding decode_progress
    decode_progress-encoded none = refl
    decode_progress-encoded (some p) = rw (N.progress p) refl

    write_progress_lem :
        (to : Option Progress) (d : Db)
        → (d' : Db) × (write_progress R K to d ≡ (ok tt, d'))
          × ((j : Bytes)
              → content d' j ≡ (if same progress_key j then encoded_progress to else content d j))
    unfolding write_progress
    write_progress_lem none d = (
      R.erase d progress_key,
      delete_ok R internal sound progress_key d,
      λ j. L.content-erase d progress_key j,
    )
    write_progress_lem (some p) d = (
      R.write d progress_key (progress_codec.encode p),
      put_ok R internal sound progress_key (progress_codec.encode p) d,
      λ j. L.content-write d progress_key (progress_codec.encode p) j,
    )

    same_optional_lem : (a b : Option Progress) → (same_optional K a b ≡ true) ↔ (a ≡ b)
    unfolding same_optional
    same_optional_lem none none = (λ e. refl, λ e. refl)
    same_optional_lem none (some q) = ground arith
    same_optional_lem (some p) none = ground arith
    same_optional_lem (some p) (some q) =
        let (to, from) = N.progress_equal p q in (λ e. ap some (to e), λ e. from (ground arith))

    -- The epoch's progress is compared and swapped: if it equals the expected one it becomes the new
    -- one, which is kept or removed, else nothing changes, and the result says which.
    pub try_epoch_transition_lem :
        (previous from to : Option Progress) (d : Db)
        → content d progress_key ≡ encoded_progress previous
        → ((previous ≡ from)
            × ((d' : Db) × (try_epoch_transition R K from to d ≡ (ok true, d'))
                × ((j : Bytes)
                    → content d' j
                      ≡ (if same progress_key j then encoded_progress to else content d j))))
          ⊎ ((previous ≢ from) × (try_epoch_transition R K from to d ≡ (ok false, d)))
    unfolding try_epoch_transition
    try_epoch_transition_lem previous from to d stored =
        let read =
          bind_ok (get R internal progress_key) _ d (get_ok R internal sound progress_key d) in
        elim (Bool-cases (same_optional K previous from)) [
          | inl e ↦
              let (d', done, now) = write_progress_lem to d in
              inl (
                (same_optional_lem previous from).0 e,
                (
                  d',
                  read
                      ∙ rw (stored, decode_progress-encoded previous)
                          (bind_ok _ _ d refl
                            ∙ rw e (then_ok (write_progress R K to) (pure true) d done)),
                  now,
                ),
              )
          | inr e ↦ inr (
            λ q. ground (arith, (same_optional_lem previous from).1 q),
            read ∙ rw (stored, decode_progress-encoded previous) (bind_ok _ _ d refl ∙ rw e refl),
          )
        ]
