-- ===== src/App/Node.antt =====
-- Starting and stopping the node: `start_node`, `stop_node` and `get_latest_tip_json` of
-- rust/src/jni_impl.rs, with the entry points of rust/src/lib.rs.
pub mod Laws
use amaru_wear.Prelude.{
  ℕ, Bool, true, false, Option, none, some, List, [], ◌∷◌, ◌++◌, Result, ok, err, panic, Exec,
  if◌then◌else◌,
}
use amaru_wear.Bytes.{same}
use amaru_wear.Text.{Text, codes, Unicode}
use amaru_wear.App.{
  TipInfo, SyncStatus, Mutex, Shared, not_started, bootstrapping, downloading_snapshots,
  importing_snapshots, syncing, caught_up, get_sync_status,
}

-- The error codes of the entry points are negative.
pub data ℤ : Type 0 where
  pos : ℕ → ℤ
  negsuc : ℕ → ℤ

-- `NetworkName` of the crate `amaru_kernel`.
pub data NetworkName : Type 0 where
  mainnet preprod preview : NetworkName
  testnet : ℕ → NetworkName

-- The threads that the library spawns. Each network thread owns a handle of its runtime, and none
-- of them is ever joined.
pub data Thread : Type 0 where
  amaru_network : NetworkName → Text → Thread
  trace_poller : Thread

-- `RUNTIME` holds a handle of the runtime while a node is started. The threads are those that the
-- library has spawned so far, the latest first, whether or not they have ended since.
pub record NodeState : Type 0 where
  pub runtime : Mutex (Option (Unit {0}))
  pub spawned : List Thread

-- Whether the operating system gives a runtime and each of the two threads.
pub record System : Type 0 where
  pub runtime_starts : Bool
  pub network_spawns : Bool
  pub poller_spawns : Bool

-- `match network.to_lowercase().as_str()`, and the match itself.
unfoldable pub match_name : Text → Option NetworkName
match_name name =
    if same name (codes "mainnet")
    then some mainnet
    else if same name (codes "preprod")
    then some preprod
    else if same name (codes "preview")
    then some preview
    else none

unfoldable pub network_name : Unicode → Text → Option NetworkName
network_name U network = match_name (U.to_lowercase network)

-- `spawn(..).unwrap()` of both threads, once the runtime is stored.
unfoldable pub spawn_threads : System → NetworkName → Text → NodeState → Result ⊥ ℤ × NodeState
spawn_threads os network dir s =
    if os.network_spawns
    then (let s' = record s { spawned = amaru_network network dir ∷ s.spawned } in
        if os.poller_spawns
        then (ok (pos 0), record s' { spawned = trace_poller ∷ s'.spawned })
        else (panic, s'))
    else (panic, s)

-- The runtime is checked and set under one lock.
unfoldable pub start_on : System → NetworkName → Text → NodeState → Result ⊥ ℤ × NodeState
start_on os network dir s =
    if s.runtime.poisoned then (ok (negsuc 4), s) else elim s.runtime.value [
      | some _ ↦ (ok (negsuc 5), s)
      | none ↦
          if os.runtime_starts
          then spawn_threads os network dir
              (record s { runtime = record { value = some tt; poisoned = false } })
          else (ok (negsuc 3), s)
    ]

unfoldable pub start_node : Unicode → System → Text → Text → NodeState → Result ⊥ ℤ × NodeState
start_node U os network data_dir s = elim (network_name U network) [
  | none ↦ (ok (negsuc 2), s)
  | some name ↦ start_on os name data_dir s
]

-- The runtime's handle is taken out of `RUNTIME` and dropped.
unfoldable pub stop_node : NodeState → ℤ × NodeState
stop_node s = if s.runtime.poisoned then (negsuc 0, s) else elim s.runtime.value [
  | some _ ↦ (pos 0, record s { runtime = record { value = none; poisoned = false } })
  | none ↦ (negsuc 0, s)
]

-- The object that `get_latest_tip_json` hands over as text.
pub record Response : Type 0 where
  pub status : Text
  pub slot : ℕ
  pub epoch : ℕ
  pub block_hash : Text
  pub block_number : ℕ
  pub is_syncing : Bool

-- `format!("{:?}", status)`
unfoldable pub debug : SyncStatus → Text
debug not_started = codes "NotStarted"
debug bootstrapping = codes "Bootstrapping"
debug downloading_snapshots = codes "DownloadingSnapshots"
debug importing_snapshots = codes "ImportingSnapshots"
debug syncing = codes "Syncing"
debug caught_up = codes "CaughtUp"

unfoldable pub get_latest_tip_json : Shared → Response
unfolding debug get_sync_status
get_latest_tip_json s =
    let status = get_sync_status s in
    if s.latest_tip.poisoned
    then record {
      status = codes "Error";
      slot = 0;
      epoch = 0;
      block_hash = codes "error";
      block_number = 0;
      is_syncing = true;
    }
    else elim s.latest_tip.value [
      | some tip ↦ record {
        status = debug status;
        slot = tip.slot;
        epoch = tip.epoch;
        block_hash = tip.block_hash;
        block_number = tip.block_number;
        is_syncing = tip.is_syncing;
      }
      | none ↦ record {
        status = debug status;
        slot = 0;
        epoch = 0;
        block_hash = codes "pending";
        block_number = 0;
        is_syncing = true;
      }
    ]

-- `env.get_string(..).map(..).unwrap_or_default()` on both arguments.
unfoldable pub java_start_node :
    Unicode → System → Option Text → Option Text → NodeState → Result ⊥ ℤ × NodeState
java_start_node U os network data_dir = start_node U os (default network) (default data_dir)
  where
    default : Option Text → Text
    default none = []
    default (some t) = t
