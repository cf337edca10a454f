-- ===== src/Ledger/CcMembers.antt =====
-- The committee, rust/patches/amaru-stores/src/rocksdb/ledger/columns/cc_members.rs.
use amaru_wear.Prelude.{ℕ, refl, Option, none, some, List, ◌>>=◌, for_each}
use amaru_wear.Bytes.{Bytes}
use amaru_wear.RocksDb.{RocksDb, IsLawful, IsReliable}
use amaru_wear.Ledger.{
  LedgerKernel, IsLedgerKernel, StakeCredential, Resettable, CcMember, LedgerExec,
  cc_members_prefix, as_key, get_row, put_row,
}
use amaru_wear.Ledger.Column.{Rows, Holds, Makes, altered, alter-Makes}

module _ (R : RocksDb) (K : LedgerKernel) where
  open K use {set_or_reset, credential_codec, cc_member_codec}

  abbrev pub cc_member_key : StakeCredential → Bytes
  cc_member_key = as_key credential_codec cc_members_prefix

  abbrev pub unknown_member : CcMember
  unknown_member = record { hot_credential = none; valid_until = none }

  unfoldable pub or_unknown : Option CcMember → CcMember
  or_unknown none = unknown_member
  or_unknown (some row) = row

  unfoldable pub changed_member : Resettable StakeCredential → Resettable ℕ → CcMember → CcMember
  changed_member hot until row = record {
    hot_credential = (set_or_reset hot row.hot_credential).0;
    valid_until = (set_or_reset until row.valid_until).0;
  }

  unfoldable pub upsert_member :
      StakeCredential × (Resettable StakeCredential × Resettable ℕ) → LedgerExec R (Unit {0})
  upsert_member (cold, (hot, until)) = do
    existing ← get_row R cc_member_codec (cc_member_key cold)
    put_row R cc_member_codec (cc_member_key cold) (changed_member hot until (or_unknown existing))

  unfoldable pub upsert_members :
      List (StakeCredential × (Resettable StakeCredential × Resettable ℕ)) → LedgerExec R (Unit {0})
  upsert_members rows = for_each rows upsert_member

  -- `upsert` changes the two fields of a member, or of one without either where it is unknown, and
  -- touches no other member and no other column.
  pub upsert_member_lem :
      IsReliable R
      → IsLawful R
      → IsLedgerKernel K
      → (cold : StakeCredential) (hot : Resettable StakeCredential) (until : Resettable ℕ)
        (m : Rows R credential_codec cc_member_codec cc_members_prefix) (d : R.Db)
      → Holds R credential_codec cc_member_codec cc_members_prefix m d
      → Makes R credential_codec cc_member_codec cc_members_prefix
          (upsert_member (cold, (hot, until)))
          d
          tt
          (altered R credential_codec cc_member_codec cc_members_prefix
            (λ o. some (changed_member hot until (or_unknown o)))
            cold
            m)
  unfolding upsert_member
  upsert_member_lem sound L N cold hot until m d h =
      alter-Makes R credential_codec cc_member_codec cc_members_prefix sound L N.credentials
        N.cc_members (λ o. some (changed_member hot until (or_unknown o))) cold _ (λ d'. refl)
        (λ row d'. refl) m d h
