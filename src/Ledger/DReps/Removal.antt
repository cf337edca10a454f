-- ===== src/Ledger/DReps/Removal.antt =====
-- `remove` of a drep up to protocol version 9, over three columns.
use amaru_wear.Prelude.{
  ◌≡◌, refl, ap, ◌∙◌, Bool, true, false, ◌&&◌, not, Option, none, some, List, [], ◌∷◌, arith, ok,
  bind_ok, then_ok, map, if◌then◌else◌,
}
use amaru_wear.Bytes.{Bytes, starts_with}
use amaru_wear.Bytes.Order.{starts_with-append}
use amaru_wear.RocksDb.{RocksDb, IsLawful, IsReliable}
use amaru_wear.Ledger.{
  Codec, LedgerKernel, IsLedgerKernel, StakeCredential, accounts_prefix, dreps_prefix, as_key,
}
use amaru_wear.Ledger.Column.{Rows, Holds, encoded}
use amaru_wear.Ledger.Accounts.{Row}
use amaru_wear.Ledger.Accounts.Laws.{Accounts, HoldsAccounts}
use amaru_wear.Ledger.Accounts.Delegation.{
  outlasts, ended, after_reset, without_drep, reset_delegation_lem,
}
use amaru_wear.Ledger.Delegations.{delegation_prefix, new_key, drop_drep}
use amaru_wear.Ledger.Delegations.Range.{EndsBelow}
use amaru_wear.Ledger.Delegations.Drop.{IsDelegations, listed_delegator, is_recorded, drop_drep_lem}
use amaru_wear.Ledger.DReps.{unbind_delegators, mark_deregistered, remove_drep}
use amaru_wear.Ledger.DReps.Laws.{
  DReps, HoldsDReps, altered_drep, with_deregistration, mark_deregistered_makes,
}

module _ (R : RocksDb) (K : LedgerKernel) where
  open R use {Db, content}
  open K use {
    Pointer, ProtocolVersion, up_to_version_9, credential_codec, account_codec, drep_codec,
  }

  Holds-same_content :
      {A B : Type 0} (CA : Codec A) (CB : Codec B) (prefix : Bytes) (m : Rows R CA CB prefix)
      (d d' : Db)
      → ((a : A) → content d' (as_key CA prefix a) ≡ content d (as_key CA prefix a))
      → Holds R CA CB prefix m d
      → Holds R CA CB prefix m d'
  Holds-same_content CA CB prefix m d d' e h = record { at_key = λ a. e a ∙ h.at_key a }

  account_key_apart :
      (drep a : StakeCredential)
      → starts_with (delegation_prefix R K drep) (as_key credential_codec accounts_prefix a) ≡ false
  unfolding delegation_prefix as_key starts_with
  account_key_apart drep a = refl

  drep_key_apart :
      (drep a : StakeCredential)
      → starts_with (delegation_prefix R K drep) (as_key credential_codec dreps_prefix a) ≡ false
  unfolding delegation_prefix as_key starts_with
  drep_key_apart drep a = refl

  drep_key_no_account :
      (a : StakeCredential)
      → starts_with accounts_prefix (as_key credential_codec dreps_prefix a) ≡ false
  unfolding as_key starts_with
  drep_key_no_account a = refl

  account_key_no_drep :
      (a : StakeCredential)
      → starts_with dreps_prefix (as_key credential_codec accounts_prefix a) ≡ false
  unfolding as_key starts_with
  account_key_no_drep a = refl

  delegation_key_no_account :
      (drep c : StakeCredential) → starts_with accounts_prefix (new_key R K drep c) ≡ false
  unfolding new_key delegation_prefix starts_with
  delegation_key_no_account drep c = refl

  delegation_key_no_drep :
      (drep c : StakeCredential) → starts_with dreps_prefix (new_key R K drep c) ≡ false
  unfolding new_key delegation_prefix starts_with
  delegation_key_no_drep drep c = refl

  starts_with-new_key :
      (drep c : StakeCredential)
      → starts_with (delegation_prefix R K drep) (new_key R K drep c) ≡ true
  unfolding new_key
  starts_with-new_key drep c =
      starts_with-append (delegation_prefix R K drep) (credential_codec.encode c)

  -- One pointer for all delegators.
  ended-map :
      (c : StakeCredential) (row : Row R K) (pointer : Pointer) (cs : List StakeCredential)
      → ended R K c row (map (λ d. (d, pointer)) cs)
        ≡ (listed_delegator R K c cs && not (outlasts R K pointer row.drep))
  unfolding ended listed_delegator
  ended-map c row pointer [] = refl
  ended-map c row pointer (a ∷ cs) = ground (arith, ended-map c row pointer cs)

  -- An account after the unregistration of a drep that it may once have delegated to.
  abbrev pub unbound : Bool → Pointer → Option (Row R K) → Option (Row R K)
  unbound recorded pointer none = none
  unbound recorded pointer (some row) =
      some (if recorded && not (outlasts R K pointer row.drep) then without_drep R K row else row)

  after_reset-map :
      (c : StakeCredential) (pointer : Pointer) (cs : List StakeCredential) (o : Option (Row R K))
      → after_reset R K (map (λ d. (d, pointer)) cs) c o
        ≡ unbound (listed_delegator R K c cs) pointer o
  after_reset-map c pointer cs none = refl
  after_reset-map c pointer cs (some row) = rw (ended-map c row pointer cs) refl

  module _ (sound : IsReliable R) (L : IsLawful R) (N : IsLedgerKernel K) where
    -- Up to protocol version 9, `remove` of a drep whose prefix does not end in 0xFF records when it
    -- unregistered, leaves no key of its delegations, leaves without a drep every account that was
    -- recorded as its delegator, unless the account's delegation is later than the unregistration,
    -- and changes no other account, drep or key.
    pub remove_drep_v9 :
        (version : ProtocolVersion) (drep : StakeCredential) (pointer : Pointer) (dreps : DReps R K)
        (accounts : Accounts R K) (d : Db)
        → up_to_version_9 version ≡ true
        → EndsBelow (delegation_prefix R K drep)
        → IsDelegations R K drep d
        → HoldsDReps R K dreps d
        → HoldsAccounts R K accounts d
        → (d' : Db) × (remove_drep R K version (drep, pointer) d ≡ (ok tt, d'))
          × HoldsDReps R K (altered_drep R K (with_deregistration R K pointer) drep dreps) d'
          × HoldsAccounts R K
              (λ c. unbound (is_recorded R K (content d (new_key R K drep c))) pointer (accounts c))
              d'
          × ((c : StakeCredential) → content d' (new_key R K drep c) ≡ none)
          × ((j : Bytes)
              → starts_with accounts_prefix j ≡ false
              → starts_with dreps_prefix j ≡ false
              → content d' j
                ≡ (if starts_with (delegation_prefix R K drep) j then none else content d j))
    unfolding remove_drep unbind_delegators
    remove_drep_v9 version drep pointer dreps accounts d v9 h delegations hd ha =
        let (cs, d₁, dropped, recorded, now) = drop_drep_lem R K sound L N drep d h delegations in
        let ha₁ =
          Holds-same_content credential_codec account_codec accounts_prefix accounts d d₁
            (λ a.
              now (as_key credential_codec accounts_prefix a) ∙ rw (account_key_apart drep a) refl)
            ha in
        let hd₁ =
          Holds-same_content credential_codec drep_codec dreps_prefix dreps d d₁
            (λ a. now (as_key credential_codec dreps_prefix a) ∙ rw (drep_key_apart drep a) refl)
            hd in
        let rows = map (λ (c : StakeCredential). (c, pointer)) cs in
        let (d₂, cleared, ha₂, frame₂) = reset_delegation_lem R K sound L N rows accounts d₁ ha₁ in
        let hd₂ =
          Holds-same_content credential_codec drep_codec dreps_prefix dreps d₁ d₂
            (λ a. frame₂ (as_key credential_codec dreps_prefix a) (drep_key_no_account a)) hd₁ in
        let (d₃, marked, hd₃, frame₃) =
          mark_deregistered_makes R K sound L N drep pointer dreps d₂ hd₂ in
        (
          d₃,
          then_ok (unbind_delegators R K version drep pointer)
                (mark_deregistered R K (drep, pointer)) d
                (rw v9 (bind_ok (drop_drep R K drep) _ d dropped ∙ cleared))
              ∙ marked,
          hd₃,
          record {
            at_key = λ c.
                frame₃ (as_key credential_codec accounts_prefix c) (account_key_no_drep c)
                ∙ ha₂.at_key c
                ∙ ap (encoded R credential_codec account_codec accounts_prefix) (
                    after_reset-map c pointer cs (accounts c)
                    ∙ ap (λ b. unbound b pointer (accounts c)) (recorded c));
          },
          λ c.
              frame₃ (new_key R K drep c) (delegation_key_no_drep drep c)
              ∙ frame₂ (new_key R K drep c) (delegation_key_no_account drep c)
              ∙ now (new_key R K drep c)
              ∙ rw (starts_with-new_key drep c) refl,
          λ j no_account no_drep. frame₃ j no_drep ∙ frame₂ j no_account ∙ now j,
        )
