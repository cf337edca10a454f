-- ===== src/Ledger.antt =====
-- The ledger store, rust/patches/amaru-stores/src/rocksdb/ledger/columns and common.rs: keys and
-- values as bytes, and the rows that the columns hold.
pub mod Changes
pub mod Column
pub mod Delegations
pub mod Accounts
pub mod DReps
pub mod CcMembers
pub mod Pools
pub mod Entries
pub mod Iteration
pub mod Governance
pub mod Save
pub mod ReadStore
pub mod Snapshots
pub mod Transactions
mod Tests
use amaru_wear.Prelude.{
  ℕ, ◌≡◌, ◌↔◌, length, Bool, true, Option, none, some, List, [], ◌∷◌, ◌++◌, Result, ok, err, panic,
  out_of_fuel, Exec, ◌>>=◌, lift,
}
use amaru_wear.Bytes.{Bytes}
use amaru_wear.RocksDb.{RocksDb, get, put, delete}

-- The CBOR encoding of a type: `cbor::encode` and `cbor::decode`.
pub record Codec (A : Type 0) : Type 0 where
  pub encode : A → Bytes
  pub decode : Bytes → Option A

abbrev pub IsCodec : {A : Type 0} → Codec A → Type 0
IsCodec C = (a : _) → C.decode (C.encode a) ≡ some a

-- `StoreError::Internal`, the one error of the columns, `StoreError::Undecodable`, the error of
-- `StoreError::missing`, by the key, and an error of the era history.
pub data LedgerError (E : Type 0) : Type 0 where
  internal : E → LedgerError E
  missing : Bytes → LedgerError E
  outside_history : LedgerError E
  undecodable : LedgerError E

-- `StakeCredential` and `DRep` of the crate `amaru_kernel`, by the constructors that the code uses.
pub data StakeCredential : Type 0 where
  addr_keyhash script_hash : Bytes → StakeCredential

pub data DRep : Type 0 where
  key script : Bytes → DRep
  abstain no_confidence : DRep

-- `Resettable` of the crate `amaru_ledger`: a change of an optional field.
pub data Resettable (A : Type 0) : Type 0 where
  set : A → Resettable A
  reset unchanged : Resettable A

-- A row of the accounts: what an account delegates to, its deposit and its rewards.
pub record Account (Pool Pointer : Type 0) : Type 0 where
  pub pool : Option Pool
  pub drep : Option (DRep × Pointer)
  pub deposit : ℕ
  pub rewards : ℕ

-- What `accounts::add` is given for a credential: its value is a tuple of these in order.
pub record AccountValue (Pool Pointer : Type 0) : Type 0 where
  pub pool : Resettable Pool
  pub drep : Resettable (DRep × Pointer)
  pub deposit : Option ℕ
  pub rewards : ℕ

pub record DRepRow (Pointer Anchor : Type 0) : Type 0 where
  pub deposit : ℕ
  pub registered_at : Pointer
  pub valid_until : ℕ
  pub anchor : Option Anchor
  pub previous_deregistration : Option Pointer

pub record DRepRegistration (Pointer : Type 0) : Type 0 where
  pub deposit : ℕ
  pub registered_at : Pointer
  pub valid_until : ℕ

pub record CcMember : Type 0 where
  pub hot_credential : Option StakeCredential
  pub valid_until : Option ℕ

-- `Voter` of the crate `amaru_kernel`.
pub data Voter : Type 0 where
  drep_key drep_script committee_key committee_script stake_pool_key : Bytes → Voter

-- What the crates `amaru_kernel` and `amaru_ledger` give. `extend` adds an update of a pool to the
-- bytes of its row, and `scheduled` is what that does to the row.
pub record LedgerKernel : Type 1 where
  pub Pool : Type 0
  pub Pointer : Type 0
  pub Anchor : Type 0
  pub ProtocolVersion : Type 0
  pub later : Pointer → Pointer → Bool
  pub up_to_version_9 : ProtocolVersion → Bool
  pub set_or_reset : {A : Type 0} → Resettable A → Option A → Option A × Option A
  pub credential_codec : Codec StakeCredential
  pub account_codec : Codec (Account Pool Pointer)
  pub drep_codec : Codec (DRepRow Pointer Anchor)
  pub cc_member_codec : Codec CcMember
  pub PoolId : Type 0
  pub PoolParams : Type 0
  pub PoolRow : Type 0
  pub pool_id : PoolParams → PoolId
  pub new_pool_row : Pointer → PoolParams → PoolRow
  pub extend : Bytes → Option PoolParams × ℕ → Bytes
  pub scheduled : Option PoolParams × ℕ → PoolRow → PoolRow
  pub pool_id_codec : Codec PoolId
  pub pool_codec : Codec PoolRow
  pub Pots : Type 0
  pub default_pots : Pots
  pub pots_codec : Codec Pots
  pub SlotValue : Type 0
  pub slot_codec : Codec ℕ
  pub slot_value_codec : Codec SlotValue
  pub ProposalId : Type 0
  pub Proposal : Type 0
  pub proposal_id_codec : Codec ProposalId
  pub proposal_codec : Codec Proposal
  pub Input : Type 0
  pub Output : Type 0
  pub input_codec : Codec Input
  pub output_codec : Codec Output
  pub Ballot : Type 0
  pub Vote : Type 0
  pub voter : Ballot → Voter
  pub ballot_codec : Codec Ballot
  pub vote_codec : Codec Vote
  pub Progress : Type 0
  pub same_progress : Progress → Progress → Bool
  pub progress_codec : Codec Progress

-- `set_or_reset` changes the field and returns what it replaced, and progress is compared by value.
pub record IsLedgerKernel (K : LedgerKernel) : Type 1 where
  pub set_replaces : {A : Type 0} (a : A) (o : Option A) → K.set_or_reset (set a) o ≡ (some a, o)
  pub reset_clears : {A : Type 0} (o : Option A) → K.set_or_reset reset o ≡ (none, o)
  pub unchanged_keeps : {A : Type 0} (o : Option A) → K.set_or_reset unchanged o ≡ (o, none)
  pub credentials : IsCodec K.credential_codec
  pub accounts : IsCodec K.account_codec
  pub dreps : IsCodec K.drep_codec
  pub cc_members : IsCodec K.cc_member_codec
  pub pool_ids : IsCodec K.pool_id_codec
  pub pools : IsCodec K.pool_codec
  pub extend_scheduled :
      (u : Option K.PoolParams × ℕ) (row : K.PoolRow)
      → K.extend (K.pool_codec.encode row) u ≡ K.pool_codec.encode (K.scheduled u row)
  pub pots : IsCodec K.pots_codec
  pub slots : IsCodec K.slot_codec
  pub slot_values : IsCodec K.slot_value_codec
  pub proposal_ids : IsCodec K.proposal_id_codec
  pub proposals : IsCodec K.proposal_codec
  pub inputs : IsCodec K.input_codec
  pub outputs : IsCodec K.output_codec
  pub ballots : IsCodec K.ballot_codec
  pub votes : IsCodec K.vote_codec
  pub progress : IsCodec K.progress_codec
  pub progress_equal : (a b : K.Progress) → (K.same_progress a b ≡ true) ↔ (a ≡ b)

abbrev pub accounts_prefix : Bytes
accounts_prefix = b'a' ∷ b'c' ∷ b'c' ∷ b't' ∷ []

abbrev pub dreps_prefix : Bytes
dreps_prefix = b'd' ∷ b'r' ∷ b'e' ∷ b'p' ∷ []

abbrev pub dreps_delegations_prefix : Bytes
dreps_delegations_prefix = b'd' ∷ b'l' ∷ b'g' ∷ []

abbrev pub cc_members_prefix : Bytes
cc_members_prefix = b'C' ∷ b'O' ∷ b'M' ∷ b'M' ∷ []

abbrev pub pools_prefix : Bytes
pools_prefix = b'p' ∷ b'o' ∷ b'o' ∷ b'l' ∷ []

abbrev pub pots_prefix : Bytes
pots_prefix = b'p' ∷ b'o' ∷ b't' ∷ b's' ∷ []

-- `KEY_PROGRESS`
abbrev pub progress_key : Bytes
progress_key = b'@' ∷ b'p' ∷ b'r' ∷ b'o' ∷ b'g' ∷ b'r' ∷ b'e' ∷ b's' ∷ b's' ∷ []

abbrev pub proposals_prefix : Bytes
proposals_prefix = b'p' ∷ b'r' ∷ b'o' ∷ b'p' ∷ []

abbrev pub slots_prefix : Bytes
slots_prefix = b's' ∷ b'l' ∷ b'o' ∷ b't' ∷ []

abbrev pub utxo_prefix : Bytes
utxo_prefix = b'u' ∷ b't' ∷ b'x' ∷ b'o' ∷ []

abbrev pub votes_prefix : Bytes
votes_prefix = b'v' ∷ b'o' ∷ b't' ∷ b'e' ∷ []

-- A key of a column: its prefix and the encoded key. Two columns are the same to a database if
-- their prefixes are.
unfoldable pub as_key : {A : Type 0} → Codec A → Bytes → A → Bytes
as_key C prefix a = prefix ++ C.encode a

-- `unsafe_decode` panics on bytes that are no value.
unfoldable pub unsafe_decode : {E A : Type 0} → Codec A → Bytes → Result E A
unsafe_decode C bytes = elim (C.decode bytes) [ none ↦ panic | some a ↦ ok a ]

unfoldable pub decode_optional : {E A : Type 0} → Codec A → Option Bytes → Result E (Option A)
unfolding unsafe_decode
decode_optional C none = ok none
decode_optional {E} C (some bytes) = elim (unsafe_decode {E = E} C bytes) [
  | ok a ↦ ok (some a)
  | err e ↦ err e
  | panic ↦ panic
  | out_of_fuel ↦ out_of_fuel
]

module _ (R : RocksDb) where
  abbrev pub LedgerExec : Type 0 → Type 0
  LedgerExec A = Exec R.Db (LedgerError R.Error) A

  module _ {A : Type 0} (C : Codec A) where
    -- `db.get_pinned(key)?.map(|d| unsafe_decode::<Row>(&d))`
    unfoldable pub get_row : Bytes → LedgerExec (Option A)
    get_row k = get R internal k >>= λ bytes. lift (decode_optional C bytes)

    -- `db.put(key, as_value(row))?`
    unfoldable pub put_row : Bytes → A → LedgerExec (Unit {0})
    put_row k row = put R internal k (C.encode row)
