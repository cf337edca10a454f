-- ===== src/Ledger/Governance/Committee.antt =====
-- `update_constitutional_committee`: its status, and the members that are added and removed.
use amaru_wear.Prelude.{
  ℕ, ◌≡◌, refl, ap, subst, fun_ext, Option-cases, ◌∙◌, Bool, true, false, Option, none, some, List,
  [], ◌∷◌, map, ok, ◌>>◌, then_ok, Exec, for_each, Bool-cases, inl, inr,
}
use amaru_wear.Bytes.{Bytes, same, starts_with}
use amaru_wear.RocksDb.{RocksDb, IsLawful, IsReliable, put_ok}
use amaru_wear.Ledger.{
  LedgerKernel, IsLedgerKernel, internal, StakeCredential, Resettable, set, reset, unchanged,
  CcMember, cc_members_prefix, as_key, put_row,
}
use amaru_wear.Ledger.Column.{Holds, Holds-same, Makes, altered, steps, for_each-Makes}
use amaru_wear.Ledger.Column.Loops.{listed, latest_value, steps-altered, steps-overwritten}
use amaru_wear.Ledger.CcMembers.{
  or_unknown, changed_member, upsert_member, upsert_members, upsert_member_lem,
}
use amaru_wear.Ledger.Governance.{
  GovernanceKernel, IsGovernanceKernel, committee_key, constitutional_committee,
  update_constitutional_committee,
}
use amaru_wear.Ledger.Governance.Laws.{get_or_bail-some}

for_each-map :
    {S E A B : Type 0} (f : A → B) (body : B → Exec S E (Unit {0})) (xs : List A)
    → for_each (map f xs) body ≡ for_each xs (λ x. body (f x))
unfolding for_each
for_each-map f body [] = refl
for_each-map f body (x ∷ xs) = ap (λ rest. body (f x) >> rest) (for_each-map f body xs)

module _ (R : RocksDb) (K : LedgerKernel) (G : GovernanceKernel K) where
  open R use {Db, content, write}
  open K use {credential_codec, cc_member_codec}
  open G use {CommitteeStatus, committee_codec}

  abbrev pub Members : Type 0
  Members = StakeCredential → Option CcMember

  abbrev pub HoldsMembers : Members → Db → Type 0
  HoldsMembers m d = Holds R credential_codec cc_member_codec cc_members_prefix m d

  -- A member with its hot credential, or one that is made up without one, and an end of its term.
  abbrev pub with_term : Option ℕ → Option CcMember → CcMember
  with_term until o = record {
    hot_credential = (or_unknown R K o).hot_credential;
    valid_until = until;
  }

  -- The member after an update: the last term that is added, else none if it is removed.
  abbrev pub member_after : Option ℕ → Bool → Option CcMember → Option CcMember
  member_after (some epoch) removed o = some (with_term (some epoch) o)
  member_after none true o = some (with_term none o)
  member_after none false o = o

  module _ (sound : IsReliable R) (L : IsLawful R) (N : IsLedgerKernel K)
      (NG : IsGovernanceKernel G) where
    changed-reset :
        (o : Option CcMember)
        → changed_member R K unchanged reset (or_unknown R K o) ≡ with_term none o
    unfolding changed_member
    changed-reset o =
        rw
          (
            N.unchanged_keeps (or_unknown R K o).hot_credential,
            N.reset_clears (or_unknown R K o).valid_until,
          )
          refl

    changed-set :
        (epoch : ℕ) (o : Option CcMember)
        → changed_member R K unchanged (set epoch) (or_unknown R K o) ≡ with_term (some epoch) o
    unfolding changed_member
    changed-set epoch o =
        rw
          (
            N.unchanged_keeps (or_unknown R K o).hot_credential,
            N.set_replaces epoch (or_unknown R K o).valid_until,
          )
          refl

    upserts :
        {X : Type 0} (key_of : X → StakeCredential) (until : X → Resettable ℕ) (term : X → Option ℕ)
        (xs : List X)
        → ((x : X) (o : Option CcMember)
            → changed_member R K unchanged (until x) (or_unknown R K o) ≡ with_term (term x) o)
        → (m : Members) (d : Db) → HoldsMembers m d
        → Makes R credential_codec cc_member_codec cc_members_prefix
            (upsert_members R K (map (λ x. (key_of x, (unchanged, until x))) xs))
            d
            tt
            (steps R credential_codec cc_member_codec cc_members_prefix
              (λ x m.
                altered R credential_codec cc_member_codec cc_members_prefix
                  (λ o. some (with_term (term x) o))
                  (key_of x)
                  m)
              xs
              m)
    unfolding upsert_members
    upserts {X} key_of until term xs same_term m d h =
        rw (for_each-map (λ x. (key_of x, (unchanged, until x))) (upsert_member R K) xs) (
          for_each-Makes R credential_codec cc_member_codec cc_members_prefix
            (λ x m.
              altered R credential_codec cc_member_codec cc_members_prefix
                (λ o. some (with_term (term x) o)) (key_of x) m)
            (λ x. upsert_member R K (key_of x, (unchanged, until x)))
            (λ x m d h.
              subst
                (λ (g : Option CcMember → Option CcMember).
                  Makes R credential_codec cc_member_codec cc_members_prefix
                    (upsert_member R K (key_of x, (unchanged, until x))) d tt
                    (altered R credential_codec cc_member_codec cc_members_prefix g (key_of x) m))
                (fun_ext (λ o. ap some (same_term x o)))
                (upsert_member_lem R K sound L N (key_of x) unchanged (until x) m d h))
            xs m d h)

    removed_then_added :
        (added : List (StakeCredential × ℕ)) (removed : List StakeCredential) (m : Members)
        (c : StakeCredential)
        → steps R credential_codec cc_member_codec cc_members_prefix
            (λ (x : StakeCredential × ℕ) m.
              altered R credential_codec cc_member_codec cc_members_prefix
                (λ o. some (with_term (some x.1) o))
                x.0
                m)
            added
            (steps R credential_codec cc_member_codec cc_members_prefix
              (λ x m.
                altered R credential_codec cc_member_codec cc_members_prefix
                  (λ o. some (with_term none o))
                  x
                  m)
              removed
              m)
            c
          ≡ member_after
              (latest_value R credential_codec cc_member_codec cc_members_prefix c added)
              (listed R credential_codec cc_member_codec cc_members_prefix c removed)
              (m c)
    unfolding or_unknown
    removed_then_added added removed m c =
        steps-overwritten R credential_codec cc_member_codec cc_members_prefix
          (λ (epoch : ℕ) o. with_term (some epoch) o) (λ v w o. refl) added _ c
        ∙ rw
            (steps-altered R credential_codec cc_member_codec cc_members_prefix
              (λ o. some (with_term none o)) (λ o. refl) removed m c)
            (elim (Option-cases
              (latest_value R credential_codec cc_member_codec cc_members_prefix c added)) [
                | inl e ↦
                    rw e
                      (elim (Bool-cases
                        (listed R credential_codec cc_member_codec cc_members_prefix c removed)) [
                          | inl q ↦ rw q refl
                          | inr q ↦ rw q refl
                        ])
                | inr (epoch, e) ↦
                    rw e
                      (elim (Bool-cases
                        (listed R credential_codec cc_member_codec cc_members_prefix c removed)) [
                          | inl q ↦ rw q refl
                          | inr q ↦ rw q refl
                        ])
              ])

    -- `update_constitutional_committee` succeeds: the status is the new one, a member that is added
    -- has the last term that it is added with, also if it is removed as well, and one that is only
    -- removed has none, each with the hot credential that it had; a credential that was no member
    -- becomes one in both cases. All else is as before.
    pub update_constitutional_committee_lem :
        (status : CommitteeStatus) (added : List (StakeCredential × ℕ))
        (removed : List StakeCredential) (m : Members) (d : Db)
        → HoldsMembers m d
        → (d' : Db) × (update_constitutional_committee R K G status added removed d ≡ (ok tt, d'))
          × (constitutional_committee R K G d' ≡ (ok status, d'))
          × HoldsMembers
              (λ c.
                member_after
                  (latest_value R credential_codec cc_member_codec cc_members_prefix c added)
                  (listed R credential_codec cc_member_codec cc_members_prefix c removed)
                  (m c))
              d'
          × ((j : Bytes)
              → starts_with cc_members_prefix j ≡ false
              → same committee_key j ≡ false
              → content d' j ≡ content d j)
    unfolding update_constitutional_committee put_row constitutional_committee
    update_constitutional_committee_lem status added removed m d h =
        let d₁ = write d committee_key (committee_codec.encode status) in
        let h₁ : HoldsMembers m d₁ = record {
          at_key = λ a.
              L.content-write d committee_key (committee_codec.encode status)
                (as_key credential_codec cc_members_prefix a)
              ∙ (unfold as_key same in h.at_key a);
        } in
        let (d₂, removals, h₂, frame₂) =
          upserts (λ c. c) (λ c. reset) (λ c. none) removed (λ c o. changed-reset o) m d₁ h₁ in
        let (d₃, additions, h₃, frame₃) =
          upserts (λ (x : StakeCredential × ℕ). x.0) (λ x. set x.1) (λ x. some x.1) added
            (λ x o. changed-set x.1 o) _ d₂ h₂ in
        let now : (j : Bytes)
            → starts_with cc_members_prefix j ≡ false
            → content d₃ j ≡ content d₁ j =
          λ j other. frame₃ j other ∙ frame₂ j other in
        (
          d₃,
          then_ok _ _ d (
                then_ok (put_row R committee_codec committee_key status) _ d
                  (put_ok R internal sound committee_key (committee_codec.encode status) d)
                ∙ removals)
              ∙ additions,
          get_or_bail-some R sound committee_codec NG.committees committee_key status d₃ (
              now committee_key (unfold starts_with in refl)
              ∙ L.content-write d committee_key (committee_codec.encode status) committee_key
              ∙ (unfold same in refl)),
          Holds-same R credential_codec cc_member_codec cc_members_prefix _ _ d₃
              (removed_then_added added removed m) h₃,
          λ j other key.
              now j other
              ∙ L.content-write d committee_key (committee_codec.encode status) j
              ∙ rw key refl,
        )
