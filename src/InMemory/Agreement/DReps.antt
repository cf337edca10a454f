-- ===== src/InMemory/Agreement/DReps.antt =====
-- The dreps of rust/patches/amaru-stores/src/in_memory/ledger/columns/dreps.rs beside those of the
-- ledger store's column: the rows agree but for their validity, which only the ledger store renews.
pub mod Validity
use amaru_wear.Prelude.{
  ℕ, ◌≡◌, refl, sym, ap, ◌∙◌, Option, none, some, List, Option-cases, Bool-cases, inl, inr, leb,
  if◌then◌else◌,
}
use amaru_wear.Bytes.{same}
use amaru_wear.RocksDb.{RocksDb}
use amaru_wear.Map.{Map, IsMap, same_key, get, insert}
use amaru_wear.Map.Laws.{same_key→eq, get-insert, modified, get-modify, insert-IsMap, modify-IsMap}
use amaru_wear.Ledger.{
  LedgerKernel, IsLedgerKernel, StakeCredential, Resettable, DRepRow, DRepRegistration,
  dreps_prefix,
}
use amaru_wear.Ledger.Column.{kept}
use amaru_wear.Ledger.Column.Loops.{listed}
use amaru_wear.Ledger.DReps.{registered_drep}
use amaru_wear.Ledger.DReps.Laws.{
  DReps, altered_drep, with_valid_until, with_deregistration, with_anchor,
}
use amaru_wear.Ledger.DReps.Loops.{dreps_added, dreps_removed}
use amaru_wear.Ledger.Governance.{GovernanceKernel}
use amaru_wear.Ledger.Save.{with_dormant}
use amaru_wear.Ledger.Save.Columns.{renewed}
use amaru_wear.Ledger.Save.Flush.{extended, flushes}
use amaru_wear.InMemory.{MemoryKernel}
use amaru_wear.InMemory.Columns.{
  drep_row, with_new_anchor, add_drep_to, add_to_dreps, remove_from_dreps,
}
use amaru_wear.InMemory.Agreement.{same_key-same, over-steps}
use amaru_wear.InMemory.Agreement.Columns.{IsMemoryKernel}

-- A row without its validity.
abbrev pub lasting :
    {Pointer Anchor : Type 0} → Option (DRepRow Pointer Anchor) → Option (DRepRow Pointer Anchor)
lasting none = none
lasting (some row) = some (record row { valid_until = 0 })

module _ (R : RocksDb) (K : LedgerKernel) (G : GovernanceKernel K) (Q : MemoryKernel K G) where
  open K use {Pointer, Anchor, set_or_reset, credential_codec, drep_codec}
  open G use {add_epochs}

  pub record AgreesOnDReps (l : Map StakeCredential (DRepRow Pointer Anchor)) (m : DReps R K)
      : Type 0 where
    pub keys : IsMap Q.credential_order l
    pub at_key : (c : StakeCredential) → lasting (get Q.credential_order c l) ≡ lasting (m c)

  -- The row that `add` leaves.
  abbrev memory_row :
      Resettable Anchor
      → Option (DRepRegistration Pointer)
      → Option (DRepRow Pointer Anchor)
      → Option (DRepRow Pointer Anchor)
  memory_row anchor registration o =
      kept R credential_codec drep_codec dreps_prefix
        (with_anchor R K anchor (drep_row K G Q registration o)) o

  memory_row-lasting :
      (anchor : Resettable Anchor) (registration : Option (DRepRegistration Pointer))
      (o : Option (DRepRow Pointer Anchor))
      → lasting (memory_row anchor registration o)
        ≡ lasting (memory_row anchor registration (lasting o))
  unfolding drep_row
  memory_row-lasting anchor (some r) (some row) = refl
  memory_row-lasting anchor none (some row) = refl
  memory_row-lasting anchor (some r) none = refl
  memory_row-lasting anchor none none = refl

  ledger_row-lasting :
      (epoch : ℕ) (anchor : Resettable Anchor) (registration : Option (DRepRegistration Pointer))
      (o : Option (DRepRow Pointer Anchor))
      → lasting (
          kept R credential_codec drep_codec dreps_prefix
            (with_anchor R K anchor (registered_drep R K epoch registration o))
            o)
        ≡ lasting (memory_row anchor registration (lasting o))
  unfolding drep_row registered_drep
  ledger_row-lasting epoch anchor (some r) (some row) = refl
  ledger_row-lasting epoch anchor none (some row) = refl
  ledger_row-lasting epoch anchor (some r) none = refl
  ledger_row-lasting epoch anchor none none = refl

  deregistration-lasting :
      (pointer : Pointer) (o : Option (DRepRow Pointer Anchor))
      → lasting
          (kept R credential_codec drep_codec dreps_prefix (with_deregistration R K pointer o) o)
        ≡ lasting (with_deregistration R K pointer (lasting o))
  deregistration-lasting pointer none = refl
  deregistration-lasting pointer (some row) = refl

  module _ (N : IsLedgerKernel K) (M : IsMemoryKernel Q) where
    key_bytes :
        (a c : StakeCredential)
        → same_key Q.credential_order a c
          ≡ same (credential_codec.encode a) (credential_codec.encode c)
    key_bytes =
        same_key-same Q.credential_order M.credentials R credential_codec N.credentials drep_codec
          dreps_prefix

    get-write :
        (anchor : Resettable Anchor) (r : Option (DRepRow Pointer Anchor)) (a c : StakeCredential)
        (l : Map StakeCredential (DRepRow Pointer Anchor))
        → get Q.credential_order c (elim r [
          | none ↦ l
          | some row ↦ insert Q.credential_order a (with_new_anchor K G Q anchor row) l
        ])
          ≡ (if same_key Q.credential_order a c
              then kept R credential_codec drep_codec dreps_prefix
                  (with_anchor R K anchor r)
                  (get Q.credential_order c l)
              else get Q.credential_order c l)
    get-write anchor none a c l = elim (Bool-cases (same_key Q.credential_order a c)) [
      | inl e ↦ rw e refl
      | inr e ↦ rw e refl
    ]
    get-write anchor (some row) a c l = get-insert Q.credential_order M.credentials a c _ l

    -- What `add` leaves at a key.
    get-add_drep_to :
        (x : StakeCredential × (Resettable Anchor × Option (DRepRegistration Pointer)))
        (l : Map StakeCredential (DRepRow Pointer Anchor)) (c : StakeCredential)
        → get Q.credential_order c (add_drep_to K G Q x l) ≡ (
            if same_key Q.credential_order x.0 c
            then memory_row x.1.0 x.1.1 (get Q.credential_order c l)
            else get Q.credential_order c l)
    unfolding add_drep_to
    get-add_drep_to x l c =
        get-write x.1.0 (drep_row K G Q x.1.1 (get Q.credential_order x.0 l)) x.0 c l
        ∙ elim (Bool-cases (same_key Q.credential_order x.0 c)) [
          | inl e ↦ rw e (
              ap
                (λ z.
                  kept R credential_codec drep_codec dreps_prefix
                    (with_anchor R K x.1.0 (drep_row K G Q x.1.1 (get Q.credential_order z l)))
                    (get Q.credential_order c l))
                (same_key→eq Q.credential_order M.credentials x.0 c e))
          | inr e ↦ rw e refl
        ]

    add_drep_to-IsMap :
        (x : StakeCredential × (Resettable Anchor × Option (DRepRegistration Pointer)))
        (l : Map StakeCredential (DRepRow Pointer Anchor))
        → IsMap Q.credential_order l
        → IsMap Q.credential_order (add_drep_to K G Q x l)
    unfolding add_drep_to
    add_drep_to-IsMap x l h =
        elim (Option-cases (drep_row K G Q x.1.1 (get Q.credential_order x.0 l))) [
          | inl e ↦ rw (e, add_drep_to) h
          | inr (row, e) ↦
              rw (e, add_drep_to) (insert-IsMap Q.credential_order M.credentials x.0 _ l h)
        ]

    add_drep_to-AgreesOnDReps :
        (epoch : ℕ) (x : StakeCredential × (Resettable Anchor × Option (DRepRegistration Pointer)))
        (l : Map StakeCredential (DRepRow Pointer Anchor)) (m : DReps R K)
        → AgreesOnDReps l m
        → AgreesOnDReps (add_drep_to K G Q x l) (
            altered_drep R K (λ o. with_anchor R K x.1.0 (registered_drep R K epoch x.1.1 o)) x.0 m)
    add_drep_to-AgreesOnDReps epoch x l m h = record {
      keys = add_drep_to-IsMap x l h.keys;
      at_key = λ c.
          ap lasting (get-add_drep_to x l c)
          ∙ elim (Bool-cases (same_key Q.credential_order x.0 c)) [
            | inl e ↦
                rw (e, sym (key_bytes x.0 c) ∙ e)
                  (memory_row-lasting x.1.0 x.1.1 (get Q.credential_order c l)
                    ∙ ap (λ o. lasting (memory_row x.1.0 x.1.1 o)) (h.at_key c)
                    ∙ sym (ledger_row-lasting epoch x.1.0 x.1.1 (m c)))
            | inr e ↦ rw (e, sym (key_bytes x.0 c) ∙ e) (h.at_key c)
          ];
    }

    pub add_to_dreps-AgreesOnDReps :
        (epoch : ℕ)
        (rows : List (StakeCredential × (Resettable Anchor × Option (DRepRegistration Pointer))))
        (l : Map StakeCredential (DRepRow Pointer Anchor)) (m : DReps R K)
        → AgreesOnDReps l m
        → AgreesOnDReps (add_to_dreps K G Q rows l) (dreps_added R K epoch rows m)
    unfolding add_to_dreps
    add_to_dreps-AgreesOnDReps epoch rows l m h =
        over-steps R credential_codec drep_codec dreps_prefix AgreesOnDReps (add_drep_to K G Q) _
          (add_drep_to-AgreesOnDReps epoch) rows l m h

    modified-lasting :
        (pointer : Pointer) (o : Option (DRepRow Pointer Anchor))
        → lasting (
            modified Q.credential_order M.credentials
              (λ (row : DRepRow Pointer Anchor). record row {
                previous_deregistration = some pointer;
              })
              o)
          ≡ lasting (with_deregistration R K pointer (lasting o))
    modified-lasting pointer none = refl
    modified-lasting pointer (some row) = refl

    pub remove_from_dreps-AgreesOnDReps :
        (rows : List (StakeCredential × Pointer)) (l : Map StakeCredential (DRepRow Pointer Anchor))
        (m : DReps R K)
        → AgreesOnDReps l m
        → AgreesOnDReps (remove_from_dreps K G Q rows l) (dreps_removed R K rows m)
    unfolding remove_from_dreps
    remove_from_dreps-AgreesOnDReps rows l m h =
        over-steps R credential_codec drep_codec dreps_prefix AgreesOnDReps _ _
          (λ x l m h. record {
            keys = modify-IsMap Q.credential_order M.credentials _ x.0 l h.keys;
            at_key = λ c.
                ap lasting (get-modify Q.credential_order M.credentials _ x.0 c l)
                ∙ elim (Bool-cases (same_key Q.credential_order x.0 c)) [
                  | inl e ↦
                      rw (e, sym (key_bytes x.0 c) ∙ e)
                        (modified-lasting x.1 (get Q.credential_order c l)
                          ∙ ap (λ o. lasting (with_deregistration R K x.1 o)) (h.at_key c)
                          ∙ sym (deregistration-lasting x.1 (m c)))
                  | inr e ↦ rw (e, sym (key_bytes x.0 c) ∙ e) (h.at_key c)
                ];
          })
          rows l m h
