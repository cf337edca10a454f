-- ===== src/Ledger/Delegations.antt =====
-- Past and present delegations to a drep, rust/patches/amaru-stores/src/rocksdb/ledger/columns/
-- dreps_delegations.rs, with `dreps::get`.
pub mod Range
pub mod Drop
use amaru_wear.Prelude.{
  ℕ, ◌+◌, Bool, true, false, ◌&&◌, Option, none, some, List, [], ◌∷◌, ◌++◌, ◌==◌, Result, ok, err,
  panic, out_of_fuel, if◌then◌else◌, Exec, ◌>>=◌, ◌>>◌, pure, lift, for_each, length, take, drop,
  take_while, map,
}
use amaru_wear.Bytes.{Bytes, before, starts_with}
use amaru_wear.RocksDb.{RocksDb, put, delete, iterate}
use amaru_wear.Ledger.{
  LedgerKernel, LedgerError, StakeCredential, addr_keyhash, script_hash, DRep, key, script, abstain,
  no_confidence, DRepRow, LedgerExec, internal, dreps_prefix, dreps_delegations_prefix, as_key,
  get_row, unsafe_decode,
}

-- The loop from the end adds one to the last byte that is not 0xFF, if there is one.
unfoldable pub bump : Bytes → Option Bytes
bump [] = none
bump (b ∷ bytes) =
    let rest = bump bytes in
    elim rest [
      | none ↦ if b == 255 then none else some ((b + 1) ∷ bytes)
      | some next ↦ some (b ∷ next)
    ]

-- The bytes after the one that is increased are kept as they are.
unfoldable pub into_next_prefix : Bytes → Bytes
into_next_prefix bytes = elim (bump bytes) [ none ↦ bytes | some next ↦ next ]

-- The credential of a drep that can be registered.
unfoldable pub drep_credential : DRep → Option StakeCredential
drep_credential (key hash) = some (addr_keyhash hash)
drep_credential (script hash) = some (script_hash hash)
drep_credential abstain = none
drep_credential no_confidence = none

abbrev pub prefix_len : ℕ
prefix_len = 4

module _ (R : RocksDb) (K : LedgerKernel) where
  open K use {Pointer, Anchor, later, credential_codec, drep_codec}

  abbrev pub drep_key : StakeCredential → Bytes
  drep_key = as_key credential_codec dreps_prefix

  -- `dreps::get`
  unfoldable pub get_drep : StakeCredential → LedgerExec R (Option (DRepRow Pointer Anchor))
  get_drep credential = get_row R drep_codec (drep_key credential)

  unfoldable pub delegation_prefix : StakeCredential → Bytes
  delegation_prefix drep = dreps_delegations_prefix ++ credential_codec.encode drep

  unfoldable pub new_key : StakeCredential → StakeCredential → Bytes
  new_key drep delegator = delegation_prefix drep ++ credential_codec.encode delegator

  -- Whether the drep has unregistered since the delegation was made.
  unfoldable pub unregistered_since : Pointer → DRepRow Pointer Anchor → Bool
  unregistered_since delegator_since row = elim row.previous_deregistration [
    | none ↦ false
    | some previous ↦ later previous delegator_since
  ]

  unfoldable pub add_delegation_to :
      StakeCredential → StakeCredential → Pointer → LedgerExec R (Unit {0})
  add_delegation_to delegator drep delegator_since = do
    found ← get_drep drep
    elim found [
      | none ↦ pure tt
      | some row ↦
          if unregistered_since delegator_since row
          then pure tt
          else put R internal (new_key drep delegator) []
    ]

  unfoldable pub add_delegation : StakeCredential × (DRep × Pointer) → LedgerExec R (Unit {0})
  add_delegation (delegator, (drep, delegator_since)) = elim (drep_credential drep) [
    | none ↦ pure tt
    | some credential ↦ add_delegation_to delegator credential delegator_since
  ]

  unfoldable pub add_delegations :
      List (StakeCredential × (DRep × Pointer)) → LedgerExec R (Unit {0})
  add_delegations rows = for_each rows add_delegation

  unfoldable pub remove_delegation : DRep → StakeCredential → LedgerExec R (Unit {0})
  remove_delegation drep delegator = elim (drep_credential drep) [
    | none ↦ pure tt
    | some credential ↦ delete R internal (new_key credential delegator)
  ]

  -- The keys that the iterator of `iter_drep` yields: up to the bound, and within the first bytes
  -- that the database's prefix extractor looks at.
  unfoldable pub in_range : StakeCredential → List (Bytes × Bytes) → List (Bytes × Bytes)
  in_range drep entries =
      let prefix = delegation_prefix drep in
      take_while
        (λ (e : Bytes × Bytes).
          before e.0 (into_next_prefix prefix) && starts_with (take prefix_len prefix) e.0)
        entries

  -- The delegator is what follows the prefix in the key.
  unfoldable pub decode_delegators :
      StakeCredential → List (Bytes × Bytes) → Result (LedgerError R.Error) (List StakeCredential)
  decode_delegators drep [] = ok []
  decode_delegators drep (e ∷ entries) =
      let rest = decode_delegators drep entries in
      elim (credential_codec.decode (drop (length (delegation_prefix drep)) e.0)) [
        | none ↦ panic
        | some delegator ↦ elim rest [
          | ok delegators ↦ ok (delegator ∷ delegators)
          | err error ↦ err error
          | panic ↦ panic
          | out_of_fuel ↦ out_of_fuel
        ]
      ]

  -- `dreps_delegations::drop`: the delegators, a set, are listed in the order of their keys.
  unfoldable pub drop_drep : StakeCredential → LedgerExec R (List StakeCredential)
  drop_drep drep = do
    entries ← iterate R internal (delegation_prefix drep)
    delegators ← lift (decode_delegators drep (in_range drep entries))
    for_each (in_range drep entries) (λ (e : Bytes × Bytes). delete R internal e.0)
    pure delegators
