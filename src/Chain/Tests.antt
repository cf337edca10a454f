-- ===== src/Chain/Tests.antt =====
-- A kernel and stores in memory: the theorems on the chain store at concrete inputs.
mod Examples
mod Versions
use amaru_wear.Prelude.{
  ℕ, ◌^◌, ◌<◌, ◌≡◌, refl, Bool, true, false, ◌&&◌, ◌||◌, Option, none, some, List, [], ◌∷◌, ◌++◌,
  arith, ltb, ◌==◌, length, Result, ok, err, All, if◌then◌else◌, Bool-cases, inl, inr, map,
}
use amaru_wear.Bytes.{Bytes, be_bytes, same, starts_with}
use amaru_wear.Bytes.Endian.{length-be_bytes}
use amaru_wear.RocksDb.{lookup}
use amaru_wear.RocksDb.Memory.{Entries, memory, memory-IsReliable, memory-IsLawful}
use amaru_wear.Chain.{
  Kernel, IsKernel, Point, origin, specific, chain_key, child_key, header_prefix, chain_prefix,
  best_chain_prefix, child_prefix, u64_size, header_hash_size,
}
use amaru_wear.Chain.Read.{load_from_best_chain, load_header, get_children}
use amaru_wear.Chain.Write.{rollback_chain, roll_forward_chain, store_header}

pub record Header : Type 0 where
  pub slot : ℕ
  pub name : ℕ
  pub parent : Option ℕ

abbrev pub name_hash : ℕ → Bytes
name_hash n = be_bytes 32 n

abbrev pub hash_of : Header → Bytes
hash_of h = name_hash h.name

abbrev pub parent_of : Header → Option Bytes
parent_of h = elim h.parent [ none ↦ none | some n ↦ some (name_hash n) ]

abbrev pub to_cbor : Header → Bytes
to_cbor h = h.slot ∷ h.name ∷ elim h.parent [ none ↦ [] | some n ↦ n ∷ [] ]

unfoldable pub from_cbor : Bytes → Option Header
from_cbor (s ∷ n ∷ []) = some (record { slot = s; name = n; parent = none })
from_cbor (s ∷ n ∷ p ∷ []) = some (record { slot = s; name = n; parent = some p })
from_cbor bytes = none

unfoldable pub number_from : Bytes → Option ℕ
number_from (n ∷ []) = some n
number_from bytes = none

unfoldable pub slot_of_point : Point → ℕ
slot_of_point origin = 0
slot_of_point (specific s h) = if ltb s u64_size then s else 0

unfoldable pub hash_of_specific : Point → Bytes
hash_of_specific origin = name_hash 0
hash_of_specific (specific s h) = if length h == header_hash_size then h else name_hash 0

abbrev pub kernel : Kernel
kernel = record {
  Header = Header;
  Nonces = ℕ;
  hash = hash_of;
  parent = parent_of;
  point = λ h. specific h.slot (hash_of h);
  slot_or_default = slot_of_point;
  hash_of_point = hash_of_specific;
  origin_hash = name_hash 0;
  header_to_cbor = to_cbor;
  header_from_cbor = from_cbor;
  nonces_to_cbor = λ n. n ∷ [];
  nonces_from_cbor = number_from;
}

from_cbor-to_cbor :
    (s n : ℕ) (p : Option ℕ)
    → from_cbor (to_cbor (record { slot = s; name = n; parent = p }))
      ≡ some (record { slot = s; name = n; parent = p })
unfolding from_cbor
from_cbor-to_cbor s n none = refl
from_cbor-to_cbor s n (some p) = refl

slot_of_point-lt : (p : Point) → slot_of_point p < u64_size
unfolding slot_of_point
slot_of_point-lt origin = omega arith
slot_of_point-lt (specific s h) = ground arith

length-hash_of_specific : (p : Point) → length (hash_of_specific p) ≡ header_hash_size
unfolding hash_of_specific
length-hash_of_specific origin = length-be_bytes 32 0
length-hash_of_specific (specific s h) = ground (arith, length-be_bytes 32 0)

pub kernel-IsKernel : IsKernel kernel
unfolding slot_of_point hash_of_specific number_from
kernel-IsKernel = record {
  header_round_trip = λ h. from_cbor-to_cbor h.slot h.name h.parent;
  nonces_round_trip = λ n. refl;
  length-hash = λ h. length-be_bytes 32 h.name;
  slot_of_specific = λ s h lt. ground arith;
  hash_of_specific = λ s h l. ground arith;
  slot-lt = slot_of_point-lt;
  length-hash_of_point = length-hash_of_specific;
}
