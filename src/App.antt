-- ===== src/App.antt =====
-- The state that the native library of the watch app shares between its threads: models.rs and
-- state.rs of rust/src.
pub mod Trace
pub mod Node
pub mod Network
mod Tests
use amaru_wear.Prelude.{ℕ, Bool, true, false, Option, none, some, if◌then◌else◌}
use amaru_wear.Text.{Text}

pub record TipInfo : Type 0 where
  pub slot : ℕ
  pub block_hash : Text
  pub block_number : ℕ
  pub epoch : ℕ
  pub is_syncing : Bool

pub data SyncStatus : Type 0 where
  not_started bootstrapping downloading_snapshots importing_snapshots syncing caught_up : SyncStatus

-- A `Mutex`, which a panic of its holder poisons: `lock()` then fails.
pub record Mutex {ℓ} (A : Type ℓ) : Type ℓ where
  pub value : A
  pub poisoned : Bool

module _ {ℓ} {A : Type ℓ} where
  -- `m.lock().map(|mut v| *v = a)`, its error dropped
  unfoldable pub store : A → Mutex A → Mutex A
  store a m = if m.poisoned then m else record m { value = a }

  abbrev pub unlocked : A → Mutex A
  unlocked a = record { value = a; poisoned = false }

pub record Shared : Type 0 where
  pub latest_tip : Mutex (Option TipInfo)
  pub sync_status : Mutex SyncStatus

unfoldable pub get_latest_tip : Shared → Option TipInfo
get_latest_tip s = if s.latest_tip.poisoned then none else s.latest_tip.value

unfoldable pub get_sync_status : Shared → SyncStatus
get_sync_status s = if s.sync_status.poisoned then not_started else s.sync_status.value

unfoldable pub set_sync_status : SyncStatus → Shared → Shared
unfolding store
set_sync_status status s = record s { sync_status = store status s.sync_status }

-- `let _ = LATEST_TIP.lock().map(|mut t| *t = Some(tip));`
unfoldable pub set_latest_tip : TipInfo → Shared → Shared
unfolding store
set_latest_tip tip s = record s { latest_tip = store (some tip) s.latest_tip }
