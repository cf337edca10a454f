-- ===== src/Chain/Diagnostics.antt =====
-- `DiagnosticChainStore` of rust/patches/amaru-stores/src/rocksdb/consensus/mod.rs: the reads of all
-- headers, nonces, blocks and links.
pub mod Links
pub mod Laws
use amaru_wear.Prelude.{
  ◌+◌, Option, none, some, List, [], ◌∷◌, ◌++◌, ◌==◌, length, take, drop, Result, ok, err, panic,
  out_of_fuel, if◌then◌else◌,
}
use amaru_wear.Bytes.{Bytes, same}
use amaru_wear.RocksDb.{RocksDb, iterating}
use amaru_wear.RocksDb.Prefix.{within_prefix}
use amaru_wear.Chain.{
  Kernel, header_hash_size, consensus_prefix_len, block_prefix, child_prefix, header_prefix,
  nonces_prefix,
}

-- The parent and the child in a key `[CHILD_PREFIX][parent][child]`: a shorter key panics.
unfoldable pub link_of_key : {E : Type 0} → Bytes → Result E (Bytes × Bytes)
link_of_key key =
    let parent = take header_hash_size (drop consensus_prefix_len key) in
    let child = take header_hash_size (drop (consensus_prefix_len + header_hash_size) key) in
    if length child == header_hash_size then ok (parent, child) else panic

-- The variables of the loop of `load_parents_children`.
pub record Grouping : Type 0 where
  pub groups : List (Bytes × List Bytes)
  pub current_parent : Option Bytes
  pub current_children : List Bytes

abbrev pub no_groups : Grouping
no_groups = record { groups = []; current_parent = none; current_children = [] }

unfoldable pub push_link : Bytes × Bytes → Grouping → Grouping
push_link (parent, child) g = elim g.current_parent [
  | none ↦ record {
    groups = g.groups;
    current_parent = some parent;
    current_children = g.current_children ++ child ∷ [];
  }
  | some p ↦
      if same p parent
      then record {
        groups = g.groups;
        current_parent = some p;
        current_children = g.current_children ++ child ∷ [];
      }
      else record {
        groups = g.groups ++ (p, g.current_children) ∷ [];
        current_parent = some parent;
        current_children = child ∷ [];
      }
]

-- The groups after the loop.
unfoldable pub finished : Grouping → List (Bytes × List Bytes)
finished g = elim g.current_parent [
  | none ↦ g.groups
  | some p ↦ g.groups ++ (p, g.current_children) ∷ []
]

unfoldable pub group_links :
    {E : Type 0} → Grouping → List (Bytes × Bytes) → Result E (List (Bytes × List Bytes))
group_links g [] = ok (finished g)
group_links {E} g (e ∷ l) = elim (link_of_key {E = E} e.0) [
  | ok link ↦ group_links (push_link link g) l
  | err x ↦ err x
  | panic ↦ panic
  | out_of_fuel ↦ out_of_fuel
]

-- `Hash::from` of a slice panics on another length.
unfoldable pub hash_of_key : {E : Type 0} → Bytes → Result E Bytes
hash_of_key key =
    let hash = drop consensus_prefix_len key in
    if length hash == header_hash_size then ok hash else panic

-- The pair, in front of the others.
unfoldable pub with_pair :
    {E A : Type 0} → Bytes → Option A → Result E (List (Bytes × A)) → Result E (List (Bytes × A))
with_pair hash none rest = rest
with_pair hash (some a) (ok pairs) = ok ((hash, a) ∷ pairs)
with_pair hash (some a) (err x) = err x
with_pair hash (some a) panic = panic
with_pair hash (some a) out_of_fuel = out_of_fuel

-- The hash of each key with its value, where the value can be read.
unfoldable pub collect_pairs :
    {E A : Type 0} → (Bytes → Option A) → List (Bytes × Bytes) → Result E (List (Bytes × A))
collect_pairs read [] = ok []
collect_pairs {E} read (e ∷ l) =
    let rest = collect_pairs {E = E} read l in
    elim (hash_of_key {E = E} e.0) [
      | ok hash ↦ with_pair hash (read e.1) rest
      | err x ↦ err x
      | panic ↦ panic
      | out_of_fuel ↦ out_of_fuel
    ]

unfoldable pub filter_map : {A B : Type 0} → (A → Option B) → List A → List B
filter_map f [] = []
filter_map f (a ∷ l) = let rest = filter_map f l in elim (f a) [ none ↦ rest | some b ↦ b ∷ rest ]

module _ (R : RocksDb) (K : Kernel) where
  open R use {Db, Error, fault, scan}
  open K use {Header, Nonces, header_from_cbor, nonces_from_cbor}

  -- `prefix_iterator(prefix)`: `open_for_readonly` sets no prefix extractor, so the iteration
  -- begins at the prefix and goes on to the end of the database.
  unfoldable pub prefix_iterator :
      {A : Type 0} → Bytes → (List (Bytes × Bytes) → Result Error A) → Db → Result Error A
  prefix_iterator prefix body d = elim (fault d (iterating prefix)) [
    | none ↦ body (scan d prefix)
    | some e ↦ panic
  ]

  -- `iterator_opt` within the range of a prefix. `panic!` at an iteration that fails.
  unfoldable pub iterate_prefix :
      {A : Type 0} → Bytes → (List (Bytes × Bytes) → Result Error A) → Db → Result Error A
  iterate_prefix prefix body d = elim (fault d (iterating prefix)) [
    | none ↦ body (within_prefix prefix (scan d prefix))
    | some e ↦ panic
  ]

  unfoldable pub load_headers : Db → Result Error (List Header)
  load_headers =
      prefix_iterator header_prefix
        λ l. ok (filter_map (λ (e : Bytes × Bytes). header_from_cbor e.1) l)

  unfoldable pub load_nonces : Db → Result Error (List (Bytes × Nonces))
  load_nonces = prefix_iterator nonces_prefix (collect_pairs nonces_from_cbor)

  unfoldable pub load_blocks : Db → Result Error (List (Bytes × Bytes))
  load_blocks = iterate_prefix block_prefix (collect_pairs some)

  unfoldable pub load_parents_children : Db → Result Error (List (Bytes × List Bytes))
  load_parents_children = iterate_prefix child_prefix (group_links no_groups)
