-- ===== src/Ledger/Snapshots/Taking.antt =====
-- What `next_snapshot` leaves, and that `for_epoch` opens it.
use amaru_wear.Prelude.{
  ℕ, ◌≡◌, ◌⊎◌, refl, ap, ◌∙◌, true, false, ◌==◌, none, some, List, [], ◌∷◌, Result, ok, err, arith,
  Bool-cases, Option-cases, inl, inr, then_ok, then_err,
}
use amaru_wear.RocksDb.{RocksDb}
use amaru_wear.Text.{Text}
use amaru_wear.Ledger.Snapshots.Next.{
  Files, no_files, file, folder, Faults, copy_entries, copy_dir_recursive, StoreDirectory, Disk,
  SnapshotError, with_snapshot, remove_existing, copy_snapshot_to_path, refuses_links,
  checkpoint_or_copy, next_snapshot, for_epoch, not_removed,
}

-- A copy without an error is complete.
copy_entries_complete :
    (F : Faults) (path : List Text) (files : Files)
    → (copy_entries F path files).0 ≡ none
    → (copy_entries F path files).1 ≡ files
unfolding copy_entries
copy_entries_complete F path no_files done = refl
copy_entries_complete F path (file name content entries) done =
    ground (arith, done, copy_entries_complete F path entries)
copy_entries_complete F path (folder name inner entries) done =
    ground (
      arith,
      done,
      copy_entries_complete F (name ∷ path) inner,
      copy_entries_complete F path entries,
    )

copy_dir_recursive_complete :
    (F : Faults) (files : Files)
    → (copy_dir_recursive F files).0 ≡ none
    → (copy_dir_recursive F files).1 ≡ files
unfolding copy_dir_recursive
copy_dir_recursive_complete F files done = ground (arith, done, copy_entries_complete F [] files)

module _ (R : RocksDb) (D : Disk R) where
  open R use {Db, Error}

  -- The files of a database load as the database.
  pub record IsDisk : Type 0 where
    pub loads : (db : Db) → D.loaded (D.files db) ≡ db

  -- The live database and the snapshots of other epochs are as before, and after a success the
  -- snapshot of the epoch is the live database.
  abbrev pub Takes :
      ℕ → StoreDirectory Db → Result (SnapshotError Error) (Unit {0}) × StoreDirectory Db → Type 0
  Takes epoch s r =
      (r.1.live ≡ s.live)
      × ((e : ℕ) → (e == epoch) ≡ false → r.1.snapshot e ≡ s.snapshot e)
      × (r.0 ≡ ok tt → r.1.snapshot epoch ≡ some s.live)

  own_epoch : (epoch : ℕ) → (epoch == epoch) ≡ true
  own_epoch epoch = ground arith

  module _ (loading : IsDisk) where
    copy-Takes :
        (epoch : ℕ) (s : StoreDirectory Db) → Takes epoch s (copy_snapshot_to_path R D epoch s)
    unfolding copy_snapshot_to_path
    copy-Takes epoch s = elim (Option-cases (D.flush s.live)) [
      | inr (x, f) ↦ rw (f, copy_snapshot_to_path) (refl, λ e other. refl, λ done. cc)
      | inl f ↦ elim (Option-cases (D.creation epoch)) [
        | inr (x, c) ↦ rw (f, c, copy_snapshot_to_path) (refl, λ e other. refl, λ done. cc)
        | inl c ↦ elim (Option-cases (copy_dir_recursive (D.faults epoch) (D.files s.live)).0) [
          | inr (x, p) ↦
              rw (f, c, p, copy_snapshot_to_path) (refl, λ e other. rw other refl, λ done. cc)
          | inl p ↦
              rw (f, c, p, copy_snapshot_to_path)
                (
                  refl,
                  λ e other. rw other refl,
                  λ done. rw (own_epoch epoch) (
                      ap some (
                        ap D.loaded
                          (copy_dir_recursive_complete (D.faults epoch) (D.files s.live) p)
                        ∙ loading.loads s.live)),
                )
        ]
      ]
    ]

    checkpoint_or_copy-Takes :
        (epoch : ℕ) (s : StoreDirectory Db) → Takes epoch s (checkpoint_or_copy R D epoch s)
    unfolding checkpoint_or_copy
    checkpoint_or_copy-Takes epoch s = elim (Option-cases (D.checkpoint s.live epoch)) [
      | inl c ↦
          rw (c, checkpoint_or_copy)
            (refl, λ e other. rw other refl, λ done. rw (own_epoch epoch) refl)
      | inr (x, c) ↦ elim (Bool-cases (refuses_links R D (D.message x))) [
        | inl b ↦ rw (c, checkpoint_or_copy) (rw b (copy-Takes epoch s))
        | inr b ↦ rw (c, checkpoint_or_copy) (rw b (refl, λ e other. refl, λ done. cc))
      ]
    ]

    -- The removal of an old snapshot of the epoch, which may fail.
    remove_existing_lem :
        (epoch : ℕ) (s : StoreDirectory Db)
        → (s₁ : StoreDirectory Db) × ((remove_existing R D epoch s ≡ (ok tt, s₁))
            ⊎ (remove_existing R D epoch s ≡ (err not_removed, s₁)))
          × (s₁.live ≡ s.live)
          × ((e : ℕ) → (e == epoch) ≡ false → s₁.snapshot e ≡ s.snapshot e)
    unfolding remove_existing
    remove_existing_lem epoch s = elim (Option-cases (s.snapshot epoch)) [
      | inl n ↦ (s, inl (rw (n, remove_existing) refl), refl, λ e other. refl)
      | inr (db, n) ↦ elim (Option-cases (D.removal epoch)) [
        | inl r ↦ (
          with_snapshot R D epoch none s,
          inl (rw (n, r, remove_existing) refl),
          refl,
          λ e other. rw other refl,
        )
        | inr (left, r) ↦ (
          with_snapshot R D epoch left s,
          inr (rw (n, r, remove_existing) refl),
          refl,
          λ e other. rw other refl,
        )
      ]
    ]

    pub next_snapshot-Takes :
        (epoch : ℕ) (s : StoreDirectory Db) → Takes epoch s (next_snapshot R D epoch s)
    unfolding next_snapshot
    next_snapshot-Takes epoch s =
        let (s₁, removed, live, others) = remove_existing_lem epoch s in
        elim removed [
          | inl done ↦
              let (live₁, others₁, taken) = checkpoint_or_copy-Takes epoch s₁ in
              rw (then_ok (remove_existing R D epoch) (checkpoint_or_copy R D epoch) s done) (
                live₁ ∙ live,
                λ e other. others₁ e other ∙ others e other,
                λ ok. taken ok ∙ ap some live,
              )
          | inr failed ↦
              rw (then_err (remove_existing R D epoch) (checkpoint_or_copy R D epoch) s failed)
                (live, others, λ done. cc)
        ]

    -- A snapshot that was taken, of a database that can be opened, is opened for its epoch.
    pub for_epoch-next_snapshot :
        (epoch : ℕ) (s : StoreDirectory Db)
        → (next_snapshot R D epoch s).0 ≡ ok tt
        → D.opening s.live ≡ none
        → (for_epoch R D epoch (next_snapshot R D epoch s).1).0
          ≡ ok (record { epoch = epoch; db = s.live })
    unfolding for_epoch
    for_epoch-next_snapshot epoch s done opens =
        rw ((next_snapshot-Takes epoch s).2 done, opens, for_epoch) refl

    copied :
        (epoch : ℕ) (s : StoreDirectory Db) (refusal : Error)
        → D.checkpoint s.live epoch ≡ some refusal
        → refuses_links R D (D.message refusal) ≡ true
        → D.flush s.live ≡ none
        → D.creation epoch ≡ none
        → (copy_dir_recursive (D.faults epoch) (D.files s.live)).0 ≡ none
        → (checkpoint_or_copy R D epoch s).0 ≡ ok tt
    unfolding checkpoint_or_copy copy_snapshot_to_path
    copied epoch s refusal c b f k p =
        rw (c, b, checkpoint_or_copy) (rw (f, k, p, copy_snapshot_to_path) refl)

    -- Where hard links are refused, and an old snapshot of the epoch can be removed, the copy takes the
    -- snapshot: it succeeds if the database can be flushed and its files be copied.
    pub next_snapshot-refused :
        (epoch : ℕ) (s : StoreDirectory Db) (refusal : Error)
        → D.checkpoint s.live epoch ≡ some refusal
        → refuses_links R D (D.message refusal) ≡ true
        → D.removal epoch ≡ none
        → D.flush s.live ≡ none
        → D.creation epoch ≡ none
        → (copy_dir_recursive (D.faults epoch) (D.files s.live)).0 ≡ none
        → (next_snapshot R D epoch s).0 ≡ ok tt
    unfolding next_snapshot remove_existing
    next_snapshot-refused epoch s refusal c b r f k p = elim (Option-cases (s.snapshot epoch)) [
      | inl n ↦
          let removed : remove_existing R D epoch s ≡ (ok tt, s) = rw (n, remove_existing) refl in
          rw (then_ok (remove_existing R D epoch) (checkpoint_or_copy R D epoch) s removed)
            (copied epoch s refusal c b f k p)
      | inr (db, n) ↦
          let s₁ = with_snapshot R D epoch none s in
          let removed : remove_existing R D epoch s ≡ (ok tt, s₁) =
            rw (n, r, remove_existing) refl in
          rw (then_ok (remove_existing R D epoch) (checkpoint_or_copy R D epoch) s removed)
            (copied epoch s₁ refusal c b f k p)
    ]
