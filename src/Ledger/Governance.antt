-- ===== src/Ledger/Governance.antt =====
-- The single values of the ledger store, and the committee: `get`, `get_or_bail`, the reads of
-- `impl_ReadStore_body` and the setters of rust/patches/amaru-stores/src/rocksdb/mod.rs.
pub mod Laws
pub mod Committee
use amaru_wear.Prelude.{
  ℕ, ◌≡◌, Bool, Option, none, some, List, [], ◌∷◌, map, Result, ok, err, ◌>>=◌, ◌>>◌, pure, lift,
}
use amaru_wear.Bytes.{Bytes}
use amaru_wear.RocksDb.{RocksDb, get, put}
use amaru_wear.Ledger.{
  Codec, IsCodec, LedgerKernel, LedgerError, internal, undecodable, missing, StakeCredential, set,
  reset, unchanged, LedgerExec, put_row,
}
use amaru_wear.Ledger.CcMembers.{upsert_members}

abbrev pub tip_key : Bytes
tip_key = b'@' ∷ b't' ∷ b'i' ∷ b'p' ∷ []

abbrev pub protocol_parameters_key : Bytes
protocol_parameters_key =
    b'@' ∷ b'p' ∷ b'r' ∷ b'o' ∷ b't' ∷ b'o' ∷ b'c' ∷ b'o' ∷ b'l' ∷ b'-' ∷ b'p' ∷ b'a' ∷ b'r' ∷ b'a'
    ∷ b'm' ∷ b'e' ∷ b't' ∷ b'e' ∷ b'r' ∷ b's' ∷ []

abbrev pub committee_key : Bytes
committee_key =
    b'@' ∷ b'c' ∷ b'o' ∷ b'n' ∷ b's' ∷ b't' ∷ b'i' ∷ b't' ∷ b'u' ∷ b't' ∷ b'i' ∷ b'o' ∷ b'n' ∷ b'a'
    ∷ b'l' ∷ b'-' ∷ b'c' ∷ b'o' ∷ b'm' ∷ b'm' ∷ b'i' ∷ b't' ∷ b't' ∷ b'e' ∷ b'e' ∷ []

abbrev pub constitution_key : Bytes
constitution_key =
    b'@' ∷ b'c' ∷ b'o' ∷ b'n' ∷ b's' ∷ b't' ∷ b'i' ∷ b't' ∷ b'u' ∷ b't' ∷ b'i' ∷ b'o' ∷ b'n' ∷ []

abbrev pub proposals_roots_key : Bytes
proposals_roots_key =
    b'@' ∷ b'p' ∷ b'r' ∷ b'o' ∷ b'p' ∷ b'o' ∷ b's' ∷ b'a' ∷ b'l' ∷ b's' ∷ b'-' ∷ b'r' ∷ b'o' ∷ b'o'
    ∷ b't' ∷ b's' ∷ []

abbrev pub governance_activity_key : Bytes
governance_activity_key =
    b'@' ∷ b'g' ∷ b'o' ∷ b'v' ∷ b'e' ∷ b'r' ∷ b'n' ∷ b'a' ∷ b'n' ∷ b'c' ∷ b'e' ∷ b'-' ∷ b'a' ∷ b'c'
    ∷ b't' ∷ b'i' ∷ b'v' ∷ b'i' ∷ b't' ∷ b'y' ∷ []

-- What the crates `amaru_kernel`, `amaru_ledger` and `amaru_slot_arithmetic` give to the store: a
-- point is `Point::Specific` of a slot or the origin, and the governance activity is the number of
-- dormant epochs. An epoch and a number are added and subtracted by the crate's operators.
pub record GovernanceKernel (K : LedgerKernel) : Type 1 where
  pub Point : Type 0
  pub specific_slot : Point → Option ℕ
  pub slot_or_default : Point → ℕ
  pub point_codec : Codec Point
  pub ProtocolParameters : Type 0
  pub parameters_codec : Codec ProtocolParameters
  pub protocol_version : ProtocolParameters → K.ProtocolVersion
  pub drep_expiry : ProtocolParameters → ℕ
  pub EraHistory : Type 0
  pub slot_to_epoch : EraHistory → ℕ → ℕ → Option ℕ
  pub add_epochs : ℕ → ℕ → ℕ
  pub sub_epochs : ℕ → ℕ → ℕ
  pub new_slot_row : K.PoolId → K.SlotValue
  pub CommitteeStatus : Type 0
  pub committee_codec : Codec CommitteeStatus
  pub Constitution : Type 0
  pub constitution_codec : Codec Constitution
  pub ProposalsRoots : Type 0
  pub roots_codec : Codec ProposalsRoots
  pub activity_codec : Codec ℕ

pub record IsGovernanceKernel {K : LedgerKernel} (G : GovernanceKernel K) : Type 0 where
  pub points : IsCodec G.point_codec
  pub parameters : IsCodec G.parameters_codec
  pub committees : IsCodec G.committee_codec
  pub constitutions : IsCodec G.constitution_codec
  pub roots : IsCodec G.roots_codec
  pub activities : IsCodec G.activity_codec

module _ (R : RocksDb) where
  open R use {Error}

  module _ {A : Type 0} (C : Codec A) where
    -- `.map(cbor::decode).transpose().map_err(StoreError::Undecodable)`
    unfoldable pub decode_or_undecodable : Option Bytes → Result (LedgerError Error) (Option A)
    decode_or_undecodable none = ok none
    decode_or_undecodable (some bytes) = elim (C.decode bytes) [
      | none ↦ err undecodable
      | some value ↦ ok (some value)
    ]

    unfoldable pub get_single : Bytes → LedgerExec R (Option A)
    get_single k = get R internal k >>= λ bytes. lift (decode_or_undecodable bytes)

    -- `ok_or(StoreError::missing(key))`
    unfoldable pub or_missing : Bytes → Option A → Result (LedgerError Error) A
    or_missing k none = err (missing k)
    or_missing k (some value) = ok value

    unfoldable pub get_or_bail : Bytes → LedgerExec R A
    get_or_bail k = get_single k >>= λ value. lift (or_missing k value)

  module _ (K : LedgerKernel) (G : GovernanceKernel K) where
    open G use {
      Point, point_codec, ProtocolParameters, parameters_codec, CommitteeStatus, committee_codec,
      Constitution, constitution_codec, ProposalsRoots, roots_codec, activity_codec,
    }

    unfoldable pub tip : LedgerExec R Point
    tip = get_or_bail point_codec tip_key

    unfoldable pub protocol_parameters : LedgerExec R ProtocolParameters
    protocol_parameters = get_or_bail parameters_codec protocol_parameters_key

    unfoldable pub constitutional_committee : LedgerExec R CommitteeStatus
    constitutional_committee = get_or_bail committee_codec committee_key

    unfoldable pub constitution : LedgerExec R Constitution
    constitution = get_or_bail constitution_codec constitution_key

    unfoldable pub proposals_roots : LedgerExec R ProposalsRoots
    proposals_roots = get_or_bail roots_codec proposals_roots_key

    -- `unwrap_or_else(|| GovernanceActivity { consecutive_dormant_epochs: 0 })`
    unfoldable pub or_inactive : Option ℕ → ℕ
    or_inactive none = 0
    or_inactive (some dormant_epochs) = dormant_epochs

    unfoldable pub governance_activity : LedgerExec R ℕ
    governance_activity = get_single activity_codec governance_activity_key >>= λ activity.
        pure (or_inactive activity)

    unfoldable pub set_protocol_parameters : ProtocolParameters → LedgerExec R (Unit {0})
    set_protocol_parameters = put_row R parameters_codec protocol_parameters_key

    unfoldable pub set_proposals_roots : ProposalsRoots → LedgerExec R (Unit {0})
    set_proposals_roots = put_row R roots_codec proposals_roots_key

    unfoldable pub set_constitution : Constitution → LedgerExec R (Unit {0})
    set_constitution = put_row R constitution_codec constitution_key

    unfoldable pub set_governance_activity : ℕ → LedgerExec R (Unit {0})
    set_governance_activity = put_row R activity_codec governance_activity_key

    -- The sets and maps of the arguments are the lists of their entries.
    unfoldable pub update_constitutional_committee :
        CommitteeStatus
        → List (StakeCredential × ℕ)
        → List StakeCredential
        → LedgerExec R (Unit {0})
    update_constitutional_committee status added removed =
        put_row R committee_codec committee_key status
        >> upsert_members R K (map (λ cold. (cold, (unchanged, reset))) removed)
        >> upsert_members R K (map (λ (x : StakeCredential × ℕ). (x.0, (unchanged, set x.1))) added)
