-- ===== src/Ledger/Delegations/Drop.antt =====
-- `drop`: the delegators that a drep ever had, and the removal of their delegations.
use amaru_wear.Prelude.{
  ◌≡◌, ◌≢◌, refl, ap, ◌∙◌, Bool, true, false, ◌||◌, Option, none, some, ℕ, zero, suc, List, [], ◌∷◌,
  arith, length, ok, All, take, drop, take_while, drop_append, bind_ok, then_ok, pure, lift,
  for_each, if◌then◌else◌,
}
use amaru_wear.Bytes.{Bytes, same, before, starts_with}
use amaru_wear.Bytes.Order.{
  starts_with_refl, starts_with-append, same-append_left, before-append_self,
}
use amaru_wear.RocksDb.{
  RocksDb, IsLawful, IsReliable, lookup, delete, iterate, delete_ok, iterate_ok,
}
use amaru_wear.RocksDb.Prefix.{
  within_prefix, scan_at_or_after, lookup-prefix_scan, All-found, erase_all, content-erase_all,
}
use amaru_wear.Ledger.{LedgerKernel, IsLedgerKernel, internal, StakeCredential}
use amaru_wear.Ledger.Delegations.{
  prefix_len, delegation_prefix, new_key, in_range, decode_delegators, drop_drep,
}
use amaru_wear.Ledger.Delegations.Range.{EndsBelow, into_next_prefix_lem}

starts_with-take : (n : ℕ) (p x : Bytes) → starts_with p x ≡ true → starts_with (take n p) x ≡ true
unfolding starts_with
starts_with-take zero p x h = refl
starts_with-take (suc n) [] x h = refl
starts_with-take (suc n) (a ∷ p) [] h = ground arith
starts_with-take (suc n) (a ∷ p) (b ∷ x) h = ground (arith, starts_with-take n p x)

-- A key with a prefix does not come before it.
pub not_before : (p x : Bytes) → starts_with p x ≡ true → before x p ≡ false
unfolding starts_with before
not_before [] x h = refl
not_before (a ∷ p) [] h = ground arith
not_before (a ∷ p) (b ∷ x) h = ground (arith, not_before p x)

module _ (R : RocksDb) (K : LedgerKernel) where
  open R use {Db, content, scan}
  open K use {credential_codec}

  unfoldable pub listed_delegator : StakeCredential → List StakeCredential → Bool
  listed_delegator c [] = false
  listed_delegator c (a ∷ l) =
      same (credential_codec.encode a) (credential_codec.encode c) || listed_delegator c l

  unfoldable pub is_recorded : Option Bytes → Bool
  is_recorded none = false
  is_recorded (some v) = true

  -- Every key under the prefix of the drep is that of a delegation to it.
  pub record IsDelegations (drep : StakeCredential) (d : Db) : Type 0 where
    pub at_delegation :
        (j : Bytes)
        → starts_with (delegation_prefix R K drep) j ≡ true
        → content d j ≢ none
        → (c : StakeCredential) × (j ≡ new_key R K drep c)

  same-new_key :
      (drep a c : StakeCredential)
      → same (new_key R K drep a) (new_key R K drep c)
        ≡ same (credential_codec.encode a) (credential_codec.encode c)
  unfolding new_key
  same-new_key drep a c = same-append_left (delegation_prefix R K drep) _ _

  in_range_prefix :
      (drep : StakeCredential) (l : List (Bytes × Bytes))
      → EndsBelow (delegation_prefix R K drep)
      → All (λ (e : Bytes × Bytes). before e.0 (delegation_prefix R K drep) ≡ false) l
      → in_range R K drep l ≡ within_prefix (delegation_prefix R K drep) l
  unfolding in_range within_prefix take_while
  in_range_prefix drep [] h a = refl
  in_range_prefix drep (e ∷ l) h a =
      let p = delegation_prefix R K drep in
      ground (
        arith,
        a.0,
        into_next_prefix_lem p e.0 h,
        starts_with-take prefix_len p e.0,
        in_range_prefix drep l h a.1,
      )

  module _ (sound : IsReliable R) (L : IsLawful R) (N : IsLedgerKernel K) where
    decoded_delegators :
        (drep : StakeCredential) (l : List (Bytes × Bytes))
        → All (λ (e : Bytes × Bytes). (c : StakeCredential) × (e.0 ≡ new_key R K drep c)) l
        → (cs : List StakeCredential) × (decode_delegators R K drep l ≡ ok cs)
          × ((c : StakeCredential)
              → listed_delegator c cs ≡ is_recorded (lookup (new_key R K drep c) l))
    unfolding decode_delegators listed_delegator is_recorded lookup
    decoded_delegators drep [] h = ([], refl, λ c. refl)
    decoded_delegators drep (e ∷ l) h =
        let (a, at_a) = h.0 in
        let (cs, decoded, found) = decoded_delegators drep l h.1 in
        let cut : drop (length (delegation_prefix R K drep)) e.0 ≡ credential_codec.encode a =
          rw at_a (
            unfold new_key in
            drop_append (delegation_prefix R K drep) (credential_codec.encode a)) in
        (
          a ∷ cs,
          rw (cut, N.credentials a, decoded, decode_delegators) refl,
          λ c. rw at_a (rw (same-new_key drep a c) (ground (arith, found c))),
        )

    erased :
        (l : List (Bytes × Bytes)) (d : Db)
        → for_each l (λ (e : Bytes × Bytes). delete R internal e.0) d ≡ (ok tt, erase_all R L l d)
    unfolding for_each erase_all
    erased [] d = refl
    erased (e ∷ l) d =
        then_ok (delete R internal e.0) (for_each l (λ (f : Bytes × Bytes). delete R internal f.0))
          d (delete_ok R internal sound e.0 d)
        ∙ erased l (R.erase d e.0)

    link :
        (drep : StakeCredential) (d : Db) (j : Bytes)
        → IsDelegations drep d
        → lookup j
            (within_prefix (delegation_prefix R K drep) (scan d (delegation_prefix R K drep)))
          ≢ none
        → (c : StakeCredential) × (j ≡ new_key R K drep c)
    link drep d j delegations found =
        let p = delegation_prefix R K drep in
        let looked = lookup-prefix_scan R L d p p j (starts_with_refl p) in
        delegations.at_delegation j (ground (arith, looked)) (λ e. found (ground (arith, looked)))

    links :
        (drep : StakeCredential) (d : Db) (l : List (Bytes × Bytes))
        → IsDelegations drep d
        → All
            (λ (e : Bytes × Bytes).
              lookup e.0
                (within_prefix (delegation_prefix R K drep) (scan d (delegation_prefix R K drep)))
              ≢ none)
            l
        → All (λ (e : Bytes × Bytes). (c : StakeCredential) × (e.0 ≡ new_key R K drep c)) l
    links drep d [] delegations h = tt
    links drep d (e ∷ l) delegations h =
        (link drep d e.0 delegations h.0, links drep d l delegations h.1)

    starts_with-new_key :
        (drep c : StakeCredential)
        → starts_with (delegation_prefix R K drep) (new_key R K drep c) ≡ true
    unfolding new_key
    starts_with-new_key drep c = starts_with-append (delegation_prefix R K drep) _

    before-new_key :
        (drep c : StakeCredential)
        → before (new_key R K drep c) (delegation_prefix R K drep) ≡ false
    unfolding new_key
    before-new_key drep c = before-append_self (delegation_prefix R K drep) _

    -- `drop` of a drep whose prefix does not end in 0xFF removes every delegation to the drep, and
    -- nothing else, and returns the delegators that were recorded.
    pub drop_drep_lem :
        (drep : StakeCredential) (d : Db)
        → EndsBelow (delegation_prefix R K drep)
        → IsDelegations drep d
        → (cs : List StakeCredential) × (d' : Db) × (drop_drep R K drep d ≡ (ok cs, d'))
          × ((c : StakeCredential)
              → listed_delegator c cs ≡ is_recorded (content d (new_key R K drep c)))
          × ((j : Bytes)
              → content d' j
                ≡ (if starts_with (delegation_prefix R K drep) j then none else content d j))
    unfolding drop_drep
    drop_drep_lem drep d h delegations =
        let p = delegation_prefix R K drep in
        let w = within_prefix p (scan d p) in
        let e : in_range R K drep (scan d p) ≡ w =
          in_range_prefix drep (scan d p) h (scan_at_or_after R L d p) in
        let (cs, decoded, found) =
          decoded_delegators drep w (links drep d w delegations (All-found w)) in
        (
          cs,
          erase_all R L w d,
          bind_ok (iterate R internal p) _ d (iterate_ok R internal sound p d)
              ∙ rw (e, decoded)
                  (bind_ok (lift (ok cs)) _ d refl
                    ∙ then_ok (for_each w (λ (f : Bytes × Bytes). delete R internal f.0)) (pure cs)
                        d (erased w d)),
          λ c.
              found c
              ∙ ap is_recorded (
                  lookup-prefix_scan R L d p p (new_key R K drep c) (starts_with_refl p)
                  ∙ rw (starts_with-new_key drep c, before-new_key drep c) refl),
          λ j.
              content-erase_all R L w d j
              ∙ ground (arith, lookup-prefix_scan R L d p p j (starts_with_refl p), not_before p j),
        )
