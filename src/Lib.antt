-- ===== src/Lib.antt =====
-- Verification of amaru-wear, a Cardano node for watches: the native library under rust/src, and the
-- stores of the node, rust/patches/amaru-stores, a fork that the build compiles in place of the
-- original.
--
-- The app starts the node and polls it (rust/src/lib.rs, jni_impl.rs). A node runs in a network
-- thread, which keeps its headers in a chain store (rust/patches/amaru-stores/src/rocksdb/consensus),
-- and the state of the ledger in another (rocksdb/ledger beside it), one column for each kind of row.
-- A second thread reads the node's trace events and keeps the tip and the status that the app shows.
--
-- The files:
-- - Prelude: the names that all modules share, tests on numbers, results (`ok`, `err`, `panic`,
--   `out_of_fuel`), and computations that read and write a state.
-- - Bytes: byte strings and their order; Bytes.Endian: `to_be_bytes` and `from_be_bytes`.
-- - Text: text as a list of code points, and the functions of `str` that the app uses.
-- - RocksDb: the database as an interface: what a database holds, what each access does, when it
--   fails, and what a transaction is. RocksDb.Memory meets the interface, RocksDb.Prefix is about the
--   entries under a prefix.
-- - App: models.rs and state.rs. App.Trace: `process_trace_event` of jni_impl.rs. App.Node:
--   `start_node`, `stop_node` and `get_latest_tip_json`. App.Network: the body of the network thread,
--   with amaru.rs; the thread that polls the traces writes the shared state while it runs.
-- - Chain: the keys and errors of the chain store (util.rs, mod.rs). Chain.Read: the methods of
--   `ReadOnlyChainStore`. Chain.Write: those of `ChainStore`. Chain.Diagnostics: those of
--   `DiagnosticChainStore`. Chain.Version: migration.rs and the ways to open a store. Chain.Rollback,
--   Chain.Best, Chain.Children and Chain.Headers are about them, as are the modules below
--   Chain.Version and Chain.Diagnostics.
-- - Ledger: common.rs and the rows of the columns under rocksdb/ledger/columns. Ledger.Column: a column
--   as a map from keys to rows. Ledger.Changes: what a change of an optional field has to do.
--   Ledger.Accounts, Ledger.DReps, Ledger.Delegations, Ledger.CcMembers
--   and Ledger.Pools: the files of those names (dreps_delegations.rs for Ledger.Delegations);
--   Ledger.Entries: slots.rs, pots.rs, proposals.rs, utxo.rs and votes.rs. Where a name of the source
--   stands for a function in several files, the model adds the row's kind: `add_account`, `add_drep`.
--   Ledger.Iteration: `iter` and `with_prefix_iterator` of rocksdb/mod.rs. Ledger.ReadStore: its reads
--   and its lending of columns. Ledger.Governance: its single values and the committee. Ledger.Save:
--   its `save`, with the columns as maps in Ledger.Save.View. Ledger.Snapshots and
--   Ledger.Transactions: other parts of rocksdb/mod.rs, with transaction.rs; Ledger.Snapshots.Next:
--   opening the store, and snapshots.
-- - Map: `BTreeMap` of the standard library.
-- - InMemory: the store in memory, in_memory/mod.rs beside rocksdb, and its reads. InMemory.Columns:
--   the files under in_memory/ledger/columns. InMemory.Context: its transactions and `save`. A name
--   that the ledger store has as well is changed: `read_tip` is `tip`, `list_pools` is `iter_pools`,
--   `lend_pools` is `with_pools`, `add_to_pools` is `pools::add`. InMemory.Agreement and the modules
--   below it compare the two stores.
-- - App.Tests, Chain.Tests and Ledger.Tests: concrete environments, and the theorems at concrete inputs.
--
-- A function of the source has its name here. A method that may fail is a function from the database
-- to a result and the database after it: an error keeps what was written before it, unless a
-- transaction rolls it back. Bytes are natural numbers, as are slots; the sum that gives the slot
-- after a point's wraps at 2 ^ 64.
--
-- What other crates give is a parameter: `RocksDb`, with the laws `IsLawful` and, where no access
-- fails, `IsReliable`; `Kernel`, for headers, points and their encodings, with the laws `IsKernel`;
-- `LedgerKernel`, for the rows of the ledger, their encodings, `set_or_reset` and the
-- equality of epoch progress, with `IsLedgerKernel`;
-- `GovernanceKernel`, for points, epochs and the single values, with `IsGovernanceKernel`; `IterBorrow`,
-- for the crate that collects what is borrowed, with `IsIterBorrow`; `MemoryKernel`, for the orders of
-- the keys, with `IsMemoryKernel`; `Json`; `Unicode`; `System` and `Outside` for the operating system,
-- the crate `amaru` and what comes in from the traces; `Disk` and `Faults` for what the file system does for the snapshots, with `IsDisk`.
--
-- The loop of `migrate_to_v2` follows the parents of the stored headers, and has no bound in the
-- source: it runs on fuel here, and fuel above the number of the headers is enough.
--
-- Not modelled: the logger, tracing, the conversion of strings at the Java border, and the read-only
-- forms of the two stores, which only open a database (rocksdb/mod.rs, consensus/mod.rs). What the
-- governance activity holds after an error of `save` is not modelled either: it is a result here, which
-- an error has none of.
pub mod Prelude
pub mod Bytes
pub mod Text
pub mod RocksDb
pub mod Chain
pub mod Ledger
pub mod Map
pub mod InMemory
pub mod App
