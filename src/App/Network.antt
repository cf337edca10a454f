-- ===== src/App/Network.antt =====
-- The network thread that `start_node` of rust/src/jni_impl.rs spawns, and rust/src/amaru.rs: the
-- directories, the bootstrap from snapshots and the run of the node.
pub mod Laws
use amaru_wear.Prelude.{
  ℕ, Bool, true, false, ◌&&◌, Option, none, some, List, [], ◌∷◌, ◌++◌, if◌then◌else◌,
}
use amaru_wear.Bytes.{same}
use amaru_wear.Text.{Text, codes}
use amaru_wear.App.{Shared, bootstrapping, syncing, set_sync_status}
use amaru_wear.App.Node.{NetworkName, mainnet, preprod, preview, testnet}

-- `StoreType` of the crate `amaru`, for the store that the code chooses.
pub data StoreType : Type 0 where
  rocks_db : Text → StoreType

-- The fields of `Config` that the code sets: the others keep their defaults.
pub record Config : Type 0 where
  pub upstream_peers : List Text
  pub ledger_store : StoreType
  pub chain_store : StoreType
  pub migrate_chain_db : Bool
  pub listen_address : Text

-- What the thread asks of the operating system and of the crate `amaru`.
pub data Effect : Type 0 where
  create_dir_all : Text → Effect
  exists : Text → Effect
  set_current_dir : Text → Effect
  bootstrap : NetworkName → Text → Text → Effect
  build_and_run_network : Config → Effect

-- What is outside the thread: whether an effect succeeds, after the effects before it, the latest
-- first, and what the thread that polls the traces makes of the shared state by the time an effect
-- has ended, the effect included.
pub record Outside : Type 0 where
  pub succeeds : List Effect → Effect → Bool
  pub poller : List Effect → Shared → Shared

pub record World : Type 0 where
  pub effects : List Effect
  pub shared : Shared

unfoldable pub perform : Outside → Effect → World → Bool × World
perform O e w =
    let effects = e ∷ w.effects in
    (O.succeeds w.effects e, record { effects = effects; shared = O.poller effects w.shared })

-- `base.join(name)` for a relative name.
unfoldable pub join : Text → Text → Text
join [] name = name
join (c ∷ []) name = if same (c ∷ []) (codes "/") then c ∷ name else c ∷ (codes "/" ++ name)
join (c ∷ d ∷ base) name = c ∷ join (d ∷ base) name

unfoldable pub get_peers_for_network : NetworkName → List Text
get_peers_for_network mainnet = codes "relays.cardano-mainnet.iohk.io:3001" ∷ []
get_peers_for_network preprod = codes "preprod-node.play.dev.cardano.org:3001" ∷ []
get_peers_for_network preview =
    codes "preview-node.play.dev.cardano.org:3001"
    ∷ codes "relays.cardano-preview.iohkdev.io:3001"
    ∷ []
get_peers_for_network (testnet magic) = []

unfoldable pub config : NetworkName → Text → Text → Config
config network ledger_dir chain_dir = record {
  upstream_peers = get_peers_for_network network;
  ledger_store = rocks_db ledger_dir;
  chain_store = rocks_db chain_dir;
  migrate_chain_db = true;
  listen_address = codes "0.0.0.0:0";
}

-- A failure to create the first directory returns before the second is tried.
unfoldable pub setup_amaru_config : Outside → NetworkName → Text → World → Option Config × World
setup_amaru_config O network data_dir w =
    let ledger_dir = join data_dir (codes "ledger.db") in
    let chain_dir = join data_dir (codes "chain.db") in
    let (created, w₁) = perform O (create_dir_all ledger_dir) w in
    if created
    then (let (created', w₂) = perform O (create_dir_all chain_dir) w₁ in
        if created' then (some (config network ledger_dir chain_dir), w₂) else (none, w₂))
    else (none, w₁)

-- Errors of these steps are logged, and the thread goes on.
unfoldable pub attempt : Outside → Effect → World → World
attempt O e w = (perform O e w).1

-- Without a `CURRENT` file in the ledger's directory, the node is bootstrapped from snapshots.
unfoldable pub bootstrap_if_needed : Outside → NetworkName → Text → World → World
bootstrap_if_needed O network app_dir w =
    let ledger_dir = join app_dir (codes "ledger.db") in
    let chain_dir = join app_dir (codes "chain.db") in
    let (present, w₁) = perform O (exists (join ledger_dir (codes "CURRENT"))) w in
    if present
    then w₁
    else attempt O (bootstrap network ledger_dir chain_dir) (attempt O (set_current_dir app_dir) w₁)

-- The rest of the thread, once the set-up has given a configuration, or has not.
unfoldable pub run_configured : Outside → Option Config × World → World
run_configured O (none, w) = w
run_configured O (some c, w) =
    attempt O (build_and_run_network c) (record w { shared = set_sync_status syncing w.shared })

unfoldable pub run_network : Outside → NetworkName → Text → World → World
run_network O network app_dir w = run_configured O (setup_amaru_config O network app_dir w)

-- The body of the thread: what it leaves when the node has ended, or could not start.
unfoldable pub network_thread : Outside → NetworkName → Text → World → World
network_thread O network app_dir w =
    let w₀ = record w { shared = set_sync_status bootstrapping w.shared } in
    let w₁ = attempt O (create_dir_all (join app_dir (codes "ledger.db"))) w₀ in
    let w₂ = attempt O (create_dir_all (join app_dir (codes "chain.db"))) w₁ in
    run_network O network app_dir (bootstrap_if_needed O network app_dir w₂)
