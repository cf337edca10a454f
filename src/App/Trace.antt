-- ===== src/App/Trace.antt =====
-- `process_trace_event` of rust/src/jni_impl.rs: what a trace event of the node does to the shared
-- state. What is only logged is left out, with the slice of a hash that panics within a character.
pub mod Laws
pub mod Names
use amaru_wear.Prelude.{
  ℕ, ◌+◌, ◌/◌, Bool, true, false, ◌&&◌, ◌||◌, not, Option, none, some, List, [], ◌∷◌, ◌++◌, take,
  drop, get_elem?, if◌then◌else◌,
}
use amaru_wear.Bytes.{same}
use amaru_wear.Text.{Text, codes, Unicode, find, contains, position, split, parse_u64}
use amaru_wear.App.{
  TipInfo, SyncStatus, Shared, downloading_snapshots, importing_snapshots, syncing, caught_up,
  set_sync_status, set_latest_tip,
}

-- The values of the crate `serde_json`, by the accessors that the code uses.
pub record Json : Type 1 where
  pub Value : Type 0
  pub Object : Type 0
  pub get : Value → Text → Option Value
  pub as_str : Value → Option Text
  pub as_u64 : Value → Option ℕ
  pub as_object : Value → Option Object
  pub get_field : Object → Text → Option Value

-- `o.and_then(f)`
infixl 5 ◌>?◌
abbrev pub ◌>?◌ {ℓ κ} : {A : Type ℓ} {B : Type κ} → Option A → (A → Option B) → Option B
none >? f = none
some a >? f = f a

-- `o.unwrap_or(a)`
abbrev pub unwrap_or {ℓ} : {A : Type ℓ} → A → Option A → A
unwrap_or a none = a
unwrap_or a (some b) = b

-- The tip at a slot: the block number and the epoch are estimates from the slot.
abbrev pub tip_at : ℕ → Text → Bool → TipInfo
tip_at slot hash is_syncing = record {
  slot = slot;
  block_hash = hash;
  block_number = slot / 20;
  epoch = slot / 432000;
  is_syncing = is_syncing;
}

-- The text between the quotes after `hash: `.
unfoldable pub extract_hash_from_name : Text → Text
extract_hash_from_name name = elim (find (codes "hash: \"") name) [
  | none ↦ []
  | some hash_idx ↦
      let rest = drop (hash_idx + 7) name in
      elim (find (codes "\"") rest) [ none ↦ [] | some hash_end ↦ take hash_end rest ]
]

-- The slot in the name of a `forward_chain` event: the numeric characters after `slot: `, if
-- another character follows them.
unfoldable pub extract_slot_from_name : Unicode → Text → Option ℕ
extract_slot_from_name U name = find (codes "slot: ") name >? λ slot_idx.
    let slot_str = drop (slot_idx + 6) name in
    position (λ c. not (U.is_numeric c)) slot_str >? λ end_idx. parse_u64 (take end_idx slot_str)

module _ (J : Json) where
  open J use {Value, get, as_str, as_u64, as_object, get_field}

  unfoldable pub name_of : Value → Text
  name_of line = unwrap_or [] (get line (codes "name") >? as_str)

  unfoldable pub extract_point_slot : Value → Option ℕ
  extract_point_slot line =
      get line (codes "point") >? as_str >? (λ s. get_elem? (split b'.' s) 0) >? parse_u64

  unfoldable pub extract_point_hash : Value → Text
  extract_point_hash line =
      unwrap_or [] (get line (codes "point") >? as_str >? λ s. get_elem? (split b'.' s) 1)

  -- The `tip` object of a `starting` event.
  unfoldable pub starting_tip : Value → Option TipInfo
  starting_tip line = get line (codes "tip") >? as_object >? λ tip_obj.
      (get_field tip_obj (codes "slot") >? as_u64) >? λ slot.
      (get_field tip_obj (codes "hash") >? as_str) >? λ hash. some (tip_at slot hash true)

  -- The first `match name`: the bootstrap events.
  unfoldable pub update_status : Text → Shared → Shared
  update_status name s =
      if same name (codes "Downloading snapshot")
      then set_sync_status downloading_snapshots s
      else if same name (codes "Importing snapshots") || same name (codes "Importing snapshot")
      then set_sync_status importing_snapshots s
      else if same name (codes "Imported snapshots")
      then set_sync_status syncing s
      else s

  unfoldable pub on_starting : Value → Shared → Shared
  on_starting line s = elim (starting_tip line) [ none ↦ s | some tip ↦ set_latest_tip tip s ]

  unfoldable pub on_caught_up : Value → Shared → Shared
  on_caught_up line s = elim (extract_point_slot line) [
    | none ↦ s
    | some slot ↦
        set_sync_status caught_up (set_latest_tip (tip_at slot (extract_point_hash line) false) s)
  ]

  unfoldable pub on_syncing : Value → Shared → Shared
  on_syncing line s = elim (extract_point_slot line) [
    | none ↦ s
    | some slot ↦ set_latest_tip (tip_at slot (extract_point_hash line) true) s
  ]

  unfoldable pub on_forward : Unicode → Text → Shared → Shared
  on_forward U name s = elim (extract_slot_from_name U name) [
    | none ↦ s
    | some slot ↦ set_latest_tip (tip_at slot (extract_hash_from_name name) true) s
  ]

  -- The second `match name`: the tip.
  unfoldable pub update_tip : Unicode → Value → Text → Shared → Shared
  update_tip U line name s =
      if same name (codes "starting")
      then on_starting line s
      else if same name (codes "track_peers.caught_up.new_tip")
      then on_caught_up line s
      else if same name (codes "track_peers.syncing.new_tip")
      then on_syncing line s
      else if contains (codes "forward_chain") name && contains (codes "Forward(BlockHeader") name
      then on_forward U name s
      else s

  unfoldable pub process_trace_event : Unicode → Value → Shared → Shared
  process_trace_event U line s =
      let name = name_of line in update_tip U line name (update_status name s)

  -- The poller: every line that the collector gives, in order.
  unfoldable pub process_trace_events : Unicode → List Value → Shared → Shared
  process_trace_events U [] s = s
  process_trace_events U (line ∷ lines) s =
      process_trace_events U lines (process_trace_event U line s)
