-- ===== src/Chain/Tests/Versions.antt =====
-- The theorems on the version of a chain store, on stores of the versions 0 to 3.
use amaru_wear.Prelude.{ℕ, ◌≡◌, refl, [], ◌∷◌, ◌++◌, none, some, false, arith, ok, All}
use amaru_wear.Bytes.{be_bytes, same}
use amaru_wear.RocksDb.{lookup}
use amaru_wear.RocksDb.Memory.{Entries, memory, memory-IsReliable, memory-IsLawful}
use amaru_wear.Chain.{header_prefix, best_chain_prefix, chain_key}
use amaru_wear.Chain.Read.{load_header, peek}
use amaru_wear.Chain.Version
use amaru_wear.Chain.Version.Ancestry.{IsBestChain, IsDescending, slot_of}
use amaru_wear.Chain.Version.Laws.{HasVersion, migrate_db_newer, open_store-create_store}
use amaru_wear.Chain.Version.Migrate.{migrate_db_lem}
use amaru_wear.Chain.Tests.{
  Header, name_hash, to_cbor, from_cbor, kernel, kernel-IsKernel, slot_of_point, hash_of_specific,
}

abbrev of_version : ℕ → Entries
of_version v = (Version.version_key, 0 ∷ v ∷ []) ∷ []

migrate_db_newer_example :
    Version.migrate_db memory kernel 0 (of_version 3)
    ≡ (ok (3, Version.chain_db_version), of_version 3)
unfolding same lookup Version.version_of
migrate_db_newer_example =
    migrate_db_newer memory kernel memory-IsReliable memory-IsLawful kernel-IsKernel 0
      (of_version 3) 3 refl (omega arith)

abbrev empty_directory : Version.Directory memory kernel
empty_directory = record { files = some 0; open_db = λ create. ok [] }

open_store_example :
    (d' : Entries) × (Version.create_store memory kernel empty_directory ≡ ok d')
    × ((again : Version.Directory memory kernel)
        → again.open_db false ≡ ok d'
        → Version.open_store memory kernel again ≡ ok d')
open_store_example =
    open_store-create_store memory kernel memory-IsReliable memory-IsLawful kernel-IsKernel
      empty_directory [] refl refl

-- A best chain of two headers, in a store without a version.
abbrev first : Header
first = record { slot = 5; name = 1; parent = none }

abbrev second : Header
second = record { slot = 7; name = 2; parent = some 1 }

abbrev two_headers : Entries
two_headers =
    (best_chain_prefix, name_hash 2)
    ∷ (header_prefix ++ name_hash 1, to_cbor first)
    ∷ (header_prefix ++ name_hash 2, to_cbor second)
    ∷ []

two_headers-IsBestChain : IsBestChain memory kernel (name_hash 2) (second ∷ first ∷ []) two_headers
unfolding load_header peek lookup same be_bytes from_cbor
two_headers-IsBestChain = record { tip = refl; size = refl; ancestry = (refl, (refl, refl)) }

two_headers-IsDescending : IsDescending memory kernel (second ∷ first ∷ [])
unfolding slot_of_point
two_headers-IsDescending = ((omega arith, tt), (tt, tt))

migrate_db_example :
    (d' : Entries) × (Version.migrate_db memory kernel 3 two_headers
      ≡ (ok (0, Version.chain_db_version), d'))
    × HasVersion memory d' Version.chain_db_version
    × All
        (λ (h : Header).
          lookup (chain_key (slot_of memory kernel h)) d'
          ≡ some (hash_of_specific (kernel.point h)))
        (second ∷ first ∷ [])
unfolding same lookup Version.version_of be_bytes
migrate_db_example =
    migrate_db_lem memory kernel memory-IsReliable memory-IsLawful kernel-IsKernel 3 (name_hash 2)
      (second ∷ first ∷ []) (omega arith) two_headers 0 refl (omega arith) two_headers-IsBestChain
      two_headers-IsDescending
