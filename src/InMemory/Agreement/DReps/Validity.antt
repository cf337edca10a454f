-- ===== src/InMemory/Agreement/DReps/Validity.antt =====
-- What the ledger store renews, the validity of dreps, is no matter for the agreement.
use amaru_wear.Prelude.{
  ℕ, ◌≡◌, refl, ◌∙◌, Option, none, some, List, Bool-cases, inl, inr, leb, if◌then◌else◌,
}
use amaru_wear.RocksDb.{RocksDb}
use amaru_wear.Map.{Map}
use amaru_wear.Ledger.{LedgerKernel, StakeCredential, DRepRow, dreps_prefix}
use amaru_wear.Ledger.Column.Loops.{listed}
use amaru_wear.Ledger.DReps.Laws.{DReps, with_valid_until}
use amaru_wear.Ledger.Governance.{GovernanceKernel}
use amaru_wear.Ledger.Save.{with_dormant}
use amaru_wear.Ledger.Save.Columns.{renewed}
use amaru_wear.Ledger.Save.Flush.{extended, flushes}
use amaru_wear.InMemory.{MemoryKernel}
use amaru_wear.InMemory.Agreement.DReps.{lasting, AgreesOnDReps}

module _ (R : RocksDb) (K : LedgerKernel) (G : GovernanceKernel K) (Q : MemoryKernel K G) where
  open K use {Pointer, Anchor, set_or_reset, credential_codec, drep_codec}
  open G use {add_epochs}

  -- The dreps agree with any whose rows are the same but for their validity.
  AgreesOnDReps-lasting :
      (l : Map StakeCredential (DRepRow Pointer Anchor)) (m m' : DReps R K)
      → ((c : StakeCredential) → lasting (m c) ≡ lasting (m' c))
      → AgreesOnDReps R K G Q l m
      → AgreesOnDReps R K G Q l m'
  AgreesOnDReps-lasting l m m' e h = record { keys = h.keys; at_key = λ c. h.at_key c ∙ e c }

  with_valid_until-lasting :
      (validity : ℕ) (o : Option (DRepRow Pointer Anchor))
      → lasting o ≡ lasting (with_valid_until R K validity o)
  with_valid_until-lasting validity none = refl
  with_valid_until-lasting validity (some row) = refl

  pub renewed-AgreesOnDReps :
      (validity : ℕ) (dreps : List StakeCredential)
      (l : Map StakeCredential (DRepRow Pointer Anchor)) (m : DReps R K)
      → AgreesOnDReps R K G Q l m
      → AgreesOnDReps R K G Q l (renewed R K G validity dreps m)
  renewed-AgreesOnDReps validity dreps l m h =
      AgreesOnDReps-lasting l m _
        (λ c. elim (Bool-cases (listed R credential_codec drep_codec dreps_prefix c dreps)) [
          | inl e ↦ rw e (with_valid_until-lasting validity (m c))
          | inr e ↦ rw e refl
        ])
        h

  extended_row-lasting :
      (dormant current_epoch : ℕ) (o : Option (DRepRow Pointer Anchor))
      → lasting o
        ≡ lasting (elim o [
          | none ↦ none
          | some row ↦ some (with_dormant R K G dormant current_epoch row)
        ])
  unfolding with_dormant
  extended_row-lasting dormant current_epoch none = refl
  extended_row-lasting dormant current_epoch (some row) =
      elim (Bool-cases (leb current_epoch (add_epochs row.valid_until dormant))) [
        | inl e ↦ rw e refl
        | inr e ↦ rw e refl
      ]

  pub flushed-AgreesOnDReps :
      (dormant current_epoch count : ℕ) (l : Map StakeCredential (DRepRow Pointer Anchor))
      (m : DReps R K)
      → AgreesOnDReps R K G Q l m
      → AgreesOnDReps R K G Q l
          (if flushes R K G dormant count then extended R K G dormant current_epoch m else m)
  flushed-AgreesOnDReps dormant current_epoch count l m h =
      elim (Bool-cases (flushes R K G dormant count)) [
        | inl e ↦
            rw e (
              AgreesOnDReps-lasting l m _ (λ c. extended_row-lasting dormant current_epoch (m c)) h)
        | inr e ↦ rw e h
      ]
