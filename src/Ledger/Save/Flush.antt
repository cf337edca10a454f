-- ===== src/Ledger/Save/Flush.antt =====
-- The flush of the dormant epochs, and the writes of single values beside the columns.
use amaru_wear.Prelude.{
  ℕ, ◌≡◌, refl, subst, ◌∙◌, Bool, true, false, ◌&&◌, none, some, [], ◌∷◌, ltb, ok, if◌then◌else◌,
  then_ok, Bool-cases, Option-cases, inl, inr, arith, fun_ext,
}
use amaru_wear.Bytes.{Bytes, same, starts_with}
use amaru_wear.RocksDb.{RocksDb, IsLawful, IsReliable, put_ok}
use amaru_wear.Ledger.{
  LedgerKernel, IsLedgerKernel, internal, StakeCredential, dreps_prefix, as_key, put_row,
}
use amaru_wear.Ledger.Column.Strays.{IsColumn-same}
use amaru_wear.Ledger.DReps.Laws.{DReps}
use amaru_wear.Ledger.Iteration.{visited, IterBorrow, IsIterBorrow, with_prefix_iterator}
use amaru_wear.Ledger.Iteration.Visits.{with_prefix_iterator_lem}
use amaru_wear.Ledger.Governance.{
  GovernanceKernel, governance_activity_key, set_governance_activity,
}
use amaru_wear.Ledger.ReadStore.{with_dreps}
use amaru_wear.Ledger.Save.{with_dormant, flush_dormant}
use amaru_wear.Ledger.Save.View.{stays, View, HoldsView, IsOutside, Refines}
use amaru_wear.Ledger.Save.Frames.{Refines-dreps}

-- A drep's key does not begin like the key of a single value.
drep_no_setting : (k j : Bytes) → starts_with dreps_prefix j ≡ true → same (b'@' ∷ k) j ≡ false
unfolding starts_with same
drep_no_setting k [] h = refl
drep_no_setting k (a ∷ j) h = ground arith

module _ (R : RocksDb) (K : LedgerKernel) (G : GovernanceKernel K) where
  open R use {Db, content, write}
  open K use {Pointer, Anchor, credential_codec, drep_codec}
  open G use {activity_codec}

  -- The dreps with the dormant epochs added.
  abbrev pub extended : ℕ → ℕ → DReps R K → DReps R K
  extended dormant current_epoch m = λ c. elim (m c) [
    | none ↦ none
    | some row ↦ some (with_dormant R K G dormant current_epoch row)
  ]

  -- Whether there is something to flush.
  abbrev pub flushes : ℕ → ℕ → Bool
  flushes dormant proposals_count = ltb 0 dormant && ltb 0 proposals_count

  abbrev pub flushed : ℕ → ℕ → ℕ → View R K G → View R K G
  flushed dormant current_epoch proposals_count v = record v {
    dreps =
        if flushes dormant proposals_count then extended dormant current_epoch v.dreps else v.dreps;
  }

  module _ (sound : IsReliable R) (L : IsLawful R) where
    -- The key of a single value begins with an `@`, that of a row does not.
    pub HoldsView-setting :
        (k bytes : Bytes) (v : View R K G) (d : Db)
        → HoldsView R K G v d
        → HoldsView R K G v (write d (b'@' ∷ k) bytes)
    unfolding as_key same
    HoldsView-setting k bytes v d h = record {
      outputs = stays R h.outputs (λ a. L.content-write d (b'@' ∷ k) bytes _);
      pools = stays R h.pools (λ a. L.content-write d (b'@' ∷ k) bytes _);
      accounts = stays R h.accounts (λ a. L.content-write d (b'@' ∷ k) bytes _);
      dreps = stays R h.dreps (λ a. L.content-write d (b'@' ∷ k) bytes _);
      members = stays R h.members (λ a. L.content-write d (b'@' ∷ k) bytes _);
      proposals = stays R h.proposals (λ a. L.content-write d (b'@' ∷ k) bytes _);
      votes = stays R h.votes (λ a. L.content-write d (b'@' ∷ k) bytes _);
      slots = stays R h.slots (λ a. L.content-write d (b'@' ∷ k) bytes _);
      drep_keys =
          IsColumn-same R credential_codec drep_codec dreps_prefix d (write d (b'@' ∷ k) bytes)
            (λ j under. L.content-write d (b'@' ∷ k) bytes j ∙ rw (drep_no_setting k j under) refl)
            h.drep_keys;
    }

    module _ (N : IsLedgerKernel K) (I : IterBorrow) (borrow : IsIterBorrow I)
        (dormant current_epoch : ℕ) where
      visited-extended :
          (m : DReps R K) (c : StakeCredential)
          → visited
              (λ credential row. some (some (with_dormant R K G dormant current_epoch row)))
              c
              (m c)
            ≡ extended dormant current_epoch m c
      visited-extended m c = elim (Option-cases (m c)) [
        | inl e ↦ rw (e, extended) refl
        | inr (row, e) ↦ rw (e, extended) refl
      ]

      extend_dreps-Refines :
          (v : View R K G)
          → Refines R K G
              (with_prefix_iterator R credential_codec drep_codec I dreps_prefix
                (λ credential row. some (some (with_dormant R K G dormant current_epoch row))))
              v
              tt
              (record v { dreps = extended dormant current_epoch v.dreps })
      extend_dreps-Refines v =
          subst
            (λ (m : DReps R K).
              Refines R K G
                (with_prefix_iterator R credential_codec drep_codec I dreps_prefix
                  (λ credential row. some (some (with_dormant R K G dormant current_epoch row))))
                v tt (record v { dreps = m }))
            (fun_ext (visited-extended v.dreps))
            (Refines-dreps R K G _ v tt _ (
              with_prefix_iterator_lem R credential_codec drep_codec dreps_prefix I borrow sound L
                N.credentials N.dreps refl
                (λ credential row. some (some (with_dormant R K G dormant current_epoch row)))
                v.dreps))

      -- If there are dormant epochs and a proposal is seen, the validity of every drep that has not
      -- expired all the same grows by the dormant epochs, and their number becomes 0, in the store
      -- and in the result; else nothing is written. No other column or value changes.
      pub flush_dormant_lem :
          (proposals_count : ℕ) (v : View R K G) (d : Db)
          → HoldsView R K G v d
          → (d' : Db) × (flush_dormant R K G I dormant current_epoch proposals_count d
              ≡ (ok (if flushes dormant proposals_count then 0 else dormant), d'))
            × HoldsView R K G (flushed dormant current_epoch proposals_count v) d'
            × (content d' governance_activity_key ≡ (
                if flushes dormant proposals_count
                then some (activity_codec.encode 0)
                else content d governance_activity_key))
            × ((j : Bytes)
                → IsOutside j
                → same governance_activity_key j ≡ false
                → content d' j ≡ content d j)
      unfolding flush_dormant with_dreps set_governance_activity put_row
      flush_dormant_lem proposals_count v d h =
          elim (Bool-cases (flushes dormant proposals_count)) [
            | inl e ↦
                let (d₁, done, h₁, frame₁) = extend_dreps-Refines v d h in
                let bytes = activity_codec.encode 0 in
                let d₂ = write d₁ governance_activity_key bytes in
                rw e (
                  d₂,
                  then_ok _ _ d (
                      then_ok _ (set_governance_activity R K G 0) d done
                      ∙ put_ok R internal sound governance_activity_key bytes d₁),
                  HoldsView-setting _ bytes _ d₁ h₁,
                  L.content-write d₁ governance_activity_key bytes governance_activity_key
                      ∙ (unfold same in refl),
                  λ j o key.
                      L.content-write d₁ governance_activity_key bytes j ∙ rw key (frame₁ j o),
                )
            | inr e ↦ rw e (d, refl, h, refl, λ j o key. refl)
          ]
