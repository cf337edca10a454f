-- ===== src/Chain.antt =====
-- The chain store, rust/patches/amaru-stores/src/rocksdb/consensus: what it stores, its errors and
-- its keys (util.rs, and the key layout of mod.rs).
pub mod Keys
pub mod Read
pub mod Write
pub mod Rollback
pub mod Best
pub mod Children
pub mod Diagnostics
pub mod Headers
pub mod Version
mod Tests
use amaru_wear.Prelude.{
  ℕ, ◌+◌, ◌%◌, ◌^◌, ◌<◌, ◌≡◌, Option, some, List, [], ◌∷◌, ◌++◌, length, arith,
}
use amaru_wear.Bytes.{Bytes, be_bytes}

-- `Point`, with the constructors that the source uses.
pub data Point : Type 0 where
  origin : Point
  specific : ℕ → Bytes → Point

-- What the crate `amaru_kernel` gives: headers, nonces, points and their CBOR encodings.
pub record Kernel : Type 1 where
  pub Header : Type 0
  pub Nonces : Type 0
  pub hash : Header → Bytes
  pub parent : Header → Option Bytes
  pub point : Header → Point
  pub slot_or_default : Point → ℕ
  pub hash_of_point : Point → Bytes
  pub origin_hash : Bytes
  pub header_to_cbor : Header → Bytes
  pub header_from_cbor : Bytes → Option Header
  pub nonces_to_cbor : Nonces → Bytes
  pub nonces_from_cbor : Bytes → Option Nonces

abbrev pub header_hash_size : ℕ
header_hash_size = 32

abbrev pub u64_size : ℕ
u64_size = 256 ^ 8

pub record IsKernel (K : Kernel) : Type 0 where
  pub header_round_trip : (h : K.Header) → K.header_from_cbor (K.header_to_cbor h) ≡ some h
  pub nonces_round_trip : (n : K.Nonces) → K.nonces_from_cbor (K.nonces_to_cbor n) ≡ some n
  pub length-hash : (h : K.Header) → length (K.hash h) ≡ header_hash_size
  pub slot_of_specific : (s : ℕ) (h : Bytes) → s < u64_size → K.slot_or_default (specific s h) ≡ s
  pub hash_of_specific :
      (s : ℕ) (h : Bytes) → length h ≡ header_hash_size → K.hash_of_point (specific s h) ≡ h
  pub slot-lt : (p : Point) → K.slot_or_default p < u64_size
  pub length-hash_of_point : (p : Point) → length (K.hash_of_point p) ≡ header_hash_size

-- The text of an error: RocksDB's, or one of the store's own.
pub data Message (E : Type 0) : Type 0 where
  rocksdb_error : E → Message E
  not_on_best_chain : Point → Message E
  directory_not_empty : Message E
  invalid_version_length : ℕ → Message E

pub data StoreError (E : Type 0) : Type 0 where
  write_error read_error open_error : Message E → StoreError E
  not_found : Bytes → StoreError E
  incompatible_versions : ℕ → ℕ → StoreError E

abbrev pub consensus_prefix_len : ℕ
consensus_prefix_len = 5

abbrev pub anchor_prefix : Bytes
anchor_prefix = b'a' ∷ b'n' ∷ b'c' ∷ b'h' ∷ b'o' ∷ []

abbrev pub best_chain_prefix : Bytes
best_chain_prefix = b'b' ∷ b'e' ∷ b's' ∷ b't' ∷ b'_' ∷ []

abbrev pub block_prefix : Bytes
block_prefix = b'b' ∷ b'l' ∷ b'o' ∷ b'c' ∷ b'k' ∷ []

abbrev pub chain_prefix : Bytes
chain_prefix = b'c' ∷ b'h' ∷ b'a' ∷ b'i' ∷ b'n' ∷ []

abbrev pub child_prefix : Bytes
child_prefix = b'c' ∷ b'h' ∷ b'i' ∷ b'l' ∷ b'd' ∷ []

abbrev pub header_prefix : Bytes
header_prefix = b'h' ∷ b'e' ∷ b'a' ∷ b'd' ∷ b'e' ∷ []

abbrev pub nonces_prefix : Bytes
nonces_prefix = b'n' ∷ b'o' ∷ b'n' ∷ b'c' ∷ b'e' ∷ []

-- [&CHAIN_PREFIX[..], &slot.to_be_bytes()].concat()
unfoldable pub chain_key : ℕ → Bytes
chain_key slot = chain_prefix ++ be_bytes 8 slot

-- [&CHILD_PREFIX[..], &parent[..], &child[..]].concat()
unfoldable pub child_key : Bytes → Bytes → Bytes
child_key parent child = child_prefix ++ parent ++ child

-- The slot after a point's, in 64 bits: the release build has no overflow checks.
unfoldable pub next_slot : ℕ → ℕ
next_slot slot = (slot + 1) % u64_size

pub next_slot_lem : (s : ℕ) → s + 1 < u64_size → next_slot s ≡ s + 1
unfolding next_slot
next_slot_lem s h = ground arith
