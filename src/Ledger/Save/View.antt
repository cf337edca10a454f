-- ===== src/Ledger/Save/View.antt =====
-- The ledger store as its columns' maps, and actions as changes of the maps.
use amaru_wear.Prelude.{
  ℕ, ◌≡◌, refl, ◌∙◌, Bool, true, false, not, Option, [], ◌∷◌, arith, ok, ◌==◌, ◌>>=◌, ◌>>◌, bind_ok,
  then_ok, lift,
}
use amaru_wear.Bytes.{Bytes, starts_with}
use amaru_wear.RocksDb.{RocksDb}
use amaru_wear.Ledger.{
  Codec, LedgerKernel, LedgerExec, utxo_prefix, pools_prefix, accounts_prefix, dreps_prefix,
  cc_members_prefix, proposals_prefix, votes_prefix, slots_prefix, as_key,
}
use amaru_wear.Ledger.Column.{Rows, Holds}
use amaru_wear.Ledger.Column.Strays.{IsColumn}
use amaru_wear.Ledger.Accounts.Laws.{Accounts, HoldsAccounts}
use amaru_wear.Ledger.DReps.Laws.{DReps, HoldsDReps}
use amaru_wear.Ledger.Pools.{Pools, HoldsPools}
use amaru_wear.Ledger.Entries.Laws.{Outputs, HoldsOutputs, Proposals, HoldsProposals}
use amaru_wear.Ledger.Entries.Votes.{Votes, HoldsVotes}
use amaru_wear.Ledger.Governance.{GovernanceKernel}
use amaru_wear.Ledger.Governance.Committee.{Members, HoldsMembers}

abbrev pub begins_otherwise : Bytes → Bool
begins_otherwise [] = false
begins_otherwise (b ∷ p) = not (b == 100)

-- A drep's key is no key of a column that begins otherwise.
pub not_a_drep :
    (p j : Bytes)
    → begins_otherwise p ≡ true
    → starts_with dreps_prefix j ≡ true
    → starts_with p j ≡ false
unfolding starts_with
not_a_drep [] j e h = cc
not_a_drep (b ∷ p) [] e h = refl
not_a_drep (b ∷ p) (a ∷ j) e h = ground arith

-- A key of none of the columns.
pub record IsOutside (j : Bytes) : Type 0 where
  pub outputs : starts_with utxo_prefix j ≡ false
  pub pools : starts_with pools_prefix j ≡ false
  pub accounts : starts_with accounts_prefix j ≡ false
  pub dreps : starts_with dreps_prefix j ≡ false
  pub members : starts_with cc_members_prefix j ≡ false
  pub proposals : starts_with proposals_prefix j ≡ false
  pub votes : starts_with votes_prefix j ≡ false
  pub slots : starts_with slots_prefix j ≡ false

module _ (R : RocksDb) where
  open R use {Db, content}

  -- A column that an action leaves alone.
  pub stays :
      {A B : Type 0} {CA : Codec A} {CB : Codec B} {prefix : Bytes} {m : Rows R CA CB prefix}
      {d d' : Db}
      → Holds R CA CB prefix m d
      → ((a : A) → content d' (as_key CA prefix a) ≡ content d (as_key CA prefix a))
      → Holds R CA CB prefix m d'
  stays h same = record { at_key = λ a. same a ∙ h.at_key a }

  module _ (K : LedgerKernel) (G : GovernanceKernel K) where
    open K use {
      SlotValue, credential_codec, account_codec, drep_codec, cc_member_codec, pool_id_codec,
      pool_codec, slot_codec, slot_value_codec, proposal_id_codec, proposal_codec, input_codec,
      output_codec, ballot_codec, vote_codec,
    }

    abbrev pub Slots : Type 0
    Slots = ℕ → Option SlotValue

    abbrev pub HoldsSlots : Slots → Db → Type 0
    HoldsSlots m d = Holds R slot_codec slot_value_codec slots_prefix m d

    -- The columns that a block changes.
    pub record View : Type 0 where
      pub outputs : Outputs R K
      pub pools : Pools R K
      pub accounts : Accounts R K
      pub dreps : DReps R K
      pub members : Members R K G
      pub proposals : Proposals R K
      pub votes : Votes R K
      pub slots : Slots

    -- Each column holds the rows of its map, and the dreps' column no other keys.
    pub record HoldsView (v : View) (d : Db) : Type 0 where
      pub outputs : HoldsOutputs R K v.outputs d
      pub pools : HoldsPools R K v.pools d
      pub accounts : HoldsAccounts R K v.accounts d
      pub dreps : HoldsDReps R K v.dreps d
      pub members : HoldsMembers R K G v.members d
      pub proposals : HoldsProposals R K v.proposals d
      pub votes : HoldsVotes R K v.votes d
      pub slots : HoldsSlots v.slots d
      pub drep_keys : IsColumn R credential_codec drep_codec dreps_prefix d

    -- An action that succeeds, changes the maps as said, and no other key.
    abbrev pub Refines : {X : Type 0} → LedgerExec R X → View → X → View → Type 0
    Refines action v x v' =
        (d : Db)
        → HoldsView v d
        → (d' : Db) × (action d ≡ (ok x, d'))
          × HoldsView v' d'
          × ((j : Bytes) → IsOutside j → content d' j ≡ content d j)

    pub Refines-then :
        {X : Type 0} (a : LedgerExec R (Unit {0})) (b : LedgerExec R X) {v v' v'' : View} {x : X}
        → Refines a v tt v'
        → Refines b v' x v''
        → Refines (a >> b) v x v''
    Refines-then a b first second d h =
        let (d₁, done, h₁, frame₁) = first d h in
        let (d₂, rest, h₂, frame₂) = second d₁ h₁ in
        (d₂, then_ok a b d done ∙ rest, h₂, λ j o. frame₂ j o ∙ frame₁ j o)

    pub Refines-bind :
        {X Y : Type 0} (a : LedgerExec R X) (f : X → LedgerExec R Y) {v v' v'' : View} {x : X}
        {y : Y}
        → Refines a v x v'
        → Refines (f x) v' y v''
        → Refines (a >>= f) v y v''
    Refines-bind a f first second d h =
        let (d₁, done, h₁, frame₁) = first d h in
        let (d₂, rest, h₂, frame₂) = second d₁ h₁ in
        (d₂, bind_ok a f d done ∙ rest, h₂, λ j o. frame₂ j o ∙ frame₁ j o)

    -- A value that is at hand.
    pub Refines-pure : {X : Type 0} (x : X) (v : View) → Refines (lift (ok x)) v x v
    Refines-pure x v d h = (d, refl, h, λ j o. refl)
