-- ===== src/Ledger/Tests.antt =====
-- A ledger kernel in which every encoding is a list of numbers.
mod Accounts
mod Others
mod Store
mod Removal
mod Kernels
mod Governance
mod Saving
mod Memory
use amaru_wear.Prelude.{
  ℕ, zero, suc, ◌≡◌, refl, Bool, true, false, Option, none, some, List, [], ◌∷◌, ltb, leb, ◌==◌,
  arith,
}
use amaru_wear.Bytes.{Bytes}
use amaru_wear.Ledger.{
  Codec, IsCodec, StakeCredential, addr_keyhash, script_hash, DRep, key, script, abstain,
  no_confidence, Resettable, set, reset, unchanged, Account, DRepRow, CcMember, Voter, drep_key,
  LedgerKernel, IsLedgerKernel,
}

unfoldable pub single : Bytes → Option ℕ
single (n ∷ []) = some n
single bytes = none

abbrev pub number : Codec ℕ
number = record { encode = λ n. n ∷ []; decode = single }

unfoldable pub option_of : ℕ → ℕ → Option ℕ
option_of zero n = none
option_of (suc tag) n = some n

abbrev pub tag_of : Option ℕ → ℕ
tag_of none = 0
tag_of (some n) = 1

abbrev pub payload : Option ℕ → ℕ
payload none = 0
payload (some n) = n

option_of-tag_of : (o : Option ℕ) → option_of (tag_of o) (payload o) ≡ o
unfolding option_of
option_of-tag_of none = refl
option_of-tag_of (some n) = refl

abbrev pub credential_bytes : StakeCredential → Bytes
credential_bytes (addr_keyhash hash) = 0 ∷ hash
credential_bytes (script_hash hash) = 1 ∷ hash

unfoldable pub credential_from : Bytes → Option StakeCredential
credential_from (zero ∷ hash) = some (addr_keyhash hash)
credential_from (suc zero ∷ hash) = some (script_hash hash)
credential_from bytes = none

abbrev pub drep_bytes : Option (DRep × ℕ) → Bytes
drep_bytes none = []
drep_bytes (some (key hash, since)) = since ∷ 0 ∷ hash
drep_bytes (some (script hash, since)) = since ∷ 1 ∷ hash
drep_bytes (some (abstain, since)) = since ∷ 2 ∷ []
drep_bytes (some (no_confidence, since)) = since ∷ 3 ∷ []

unfoldable pub drep_from : Bytes → Option (DRep × ℕ)
drep_from (since ∷ zero ∷ hash) = some (key hash, since)
drep_from (since ∷ suc zero ∷ hash) = some (script hash, since)
drep_from (since ∷ suc (suc zero) ∷ bytes) = some (abstain, since)
drep_from (since ∷ suc (suc (suc tag)) ∷ bytes) = some (no_confidence, since)
drep_from bytes = none

abbrev pub account_bytes : Account ℕ ℕ → Bytes
account_bytes row =
    row.deposit ∷ row.rewards ∷ tag_of row.pool ∷ payload row.pool ∷ drep_bytes row.drep

unfoldable pub account_from : Bytes → Option (Account ℕ ℕ)
account_from (deposit ∷ rewards ∷ tag ∷ pool ∷ bytes) = some (record {
  pool = option_of tag pool;
  drep = drep_from bytes;
  deposit = deposit;
  rewards = rewards;
})
account_from bytes = none

abbrev pub drep_row_bytes : DRepRow ℕ ℕ → Bytes
drep_row_bytes row =
    row.deposit
    ∷ row.registered_at
    ∷ row.valid_until
    ∷ tag_of row.anchor
    ∷ payload row.anchor
    ∷ tag_of row.previous_deregistration
    ∷ payload row.previous_deregistration
    ∷ []

unfoldable pub drep_row_from : Bytes → Option (DRepRow ℕ ℕ)
drep_row_from (deposit ∷ start ∷ end ∷ t ∷ a ∷ u ∷ b ∷ []) = some (record {
  deposit = deposit;
  registered_at = start;
  valid_until = end;
  anchor = option_of t a;
  previous_deregistration = option_of u b;
})
drep_row_from bytes = none

abbrev pub hot_bytes : Option StakeCredential → Bytes
hot_bytes none = []
hot_bytes (some c) = credential_bytes c

abbrev pub member_bytes : CcMember → Bytes
member_bytes row = tag_of row.valid_until ∷ payload row.valid_until ∷ hot_bytes row.hot_credential

unfoldable pub member_from : Bytes → Option CcMember
member_from (tag ∷ until ∷ bytes) =
    some (record { hot_credential = credential_from bytes; valid_until = option_of tag until })
member_from bytes = none

unfoldable pub change : {A : Type 0} → Resettable A → Option A → Option A × Option A
change (set a) o = (some a, o)
change reset o = (none, o)
change unchanged o = (o, none)

abbrev pub extended : Bytes → Option ℕ × ℕ → Bytes
extended bytes (none, epoch) = 0 ∷ epoch ∷ bytes
extended bytes (some params, epoch) = 1 ∷ params ∷ epoch ∷ bytes

abbrev pub ledger_kernel : LedgerKernel
ledger_kernel = record {
  Pool = ℕ;
  Pointer = ℕ;
  Anchor = ℕ;
  ProtocolVersion = ℕ;
  later = λ a b. ltb b a;
  up_to_version_9 = λ v. leb v 9;
  set_or_reset = change;
  credential_codec = record { encode = credential_bytes; decode = credential_from };
  account_codec = record { encode = account_bytes; decode = account_from };
  drep_codec = record { encode = drep_row_bytes; decode = drep_row_from };
  cc_member_codec = record { encode = member_bytes; decode = member_from };
  PoolId = ℕ;
  PoolParams = ℕ;
  PoolRow = Bytes;
  pool_id = λ params. params;
  new_pool_row = λ pointer params. params ∷ pointer ∷ [];
  extend = extended;
  scheduled = λ u row. extended row u;
  pool_id_codec = number;
  pool_codec = record { encode = λ row. row; decode = λ bytes. some bytes };
  Pots = ℕ;
  default_pots = 0;
  pots_codec = number;
  SlotValue = ℕ;
  slot_codec = number;
  slot_value_codec = number;
  ProposalId = ℕ;
  Proposal = ℕ;
  proposal_id_codec = number;
  proposal_codec = number;
  Input = ℕ;
  Output = ℕ;
  input_codec = number;
  output_codec = number;
  Ballot = ℕ;
  Vote = ℕ;
  voter = λ ballot. drep_key (ballot ∷ []);
  ballot_codec = number;
  vote_codec = number;
  Progress = ℕ;
  same_progress = λ a b. a == b;
  progress_codec = number;
}

pub number-IsCodec : IsCodec number
unfolding single
number-IsCodec n = refl

credential-IsCodec : (c : StakeCredential) → credential_from (credential_bytes c) ≡ some c
unfolding credential_from
credential-IsCodec (addr_keyhash hash) = refl
credential-IsCodec (script_hash hash) = refl

drep-IsCodec : (o : Option (DRep × ℕ)) → drep_from (drep_bytes o) ≡ o
unfolding drep_from
drep-IsCodec none = refl
drep-IsCodec (some (key hash, since)) = refl
drep-IsCodec (some (script hash, since)) = refl
drep-IsCodec (some (abstain, since)) = refl
drep-IsCodec (some (no_confidence, since)) = refl

hot-IsCodec : (o : Option StakeCredential) → credential_from (hot_bytes o) ≡ o
unfolding credential_from
hot-IsCodec none = refl
hot-IsCodec (some (addr_keyhash hash)) = refl
hot-IsCodec (some (script_hash hash)) = refl

pub ledger_kernel-IsLedgerKernel : IsLedgerKernel ledger_kernel
unfolding change account_from drep_row_from member_from
ledger_kernel-IsLedgerKernel = record {
  set_replaces = λ a o. refl;
  reset_clears = λ o. refl;
  unchanged_keeps = λ o. refl;
  credentials = credential-IsCodec;
  accounts = λ row. rw (option_of-tag_of row.pool, drep-IsCodec row.drep);
  dreps = λ row. rw (option_of-tag_of row.anchor, option_of-tag_of row.previous_deregistration);
  cc_members = λ row. rw (option_of-tag_of row.valid_until, hot-IsCodec row.hot_credential);
  pool_ids = number-IsCodec;
  pools = λ row. refl;
  extend_scheduled = λ u row. refl;
  pots = number-IsCodec;
  slots = number-IsCodec;
  slot_values = number-IsCodec;
  proposal_ids = number-IsCodec;
  proposals = number-IsCodec;
  inputs = number-IsCodec;
  outputs = number-IsCodec;
  ballots = number-IsCodec;
  votes = number-IsCodec;
  progress = number-IsCodec;
  progress_equal = λ a b. ground arith;
}
