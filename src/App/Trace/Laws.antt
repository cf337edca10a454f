-- ===== src/App/Trace/Laws.antt =====
-- What the shared state holds after trace events.
use amaru_wear.Prelude.{
  ◌/◌, ◌<◌, ◌≡◌, ◌≢◌, refl, Bool, true, false, Bool-cases, inl, inr, Option, none, some, List, [],
  ◌∷◌, ◌++◌, arith, if◌then◌else◌,
}
use amaru_wear.Bytes.{same}
use amaru_wear.Text.{Text, codes, Unicode, split, u64_limit}
use amaru_wear.Text.Laws.{
  value, IsDigits, Without, parse_u64_lem, split_once-append, split_once_whole, digits-Without,
}
use amaru_wear.App.{TipInfo, Shared, Mutex, caught_up, set_sync_status, set_latest_tip, store}
use amaru_wear.App.Trace.{
  Json, tip_at, name_of, extract_point_slot, extract_point_hash, extract_slot_from_name,
  starting_tip, update_status, update_tip, on_starting, on_caught_up, on_syncing, on_forward,
  process_trace_event, process_trace_events, ◌>?◌,
}

-- A tip whose block number and epoch are those of its slot.
abbrev pub Estimated : Option TipInfo → Type 0
Estimated none = Unit
Estimated (some t) = (t.block_number ≡ t.slot / 20) × (t.epoch ≡ t.slot / 432000)

store-Estimated :
    (t : TipInfo) (m : Mutex (Option TipInfo))
    → Estimated (some t)
    → Estimated m.value
    → Estimated (store (some t) m).value
unfolding store
store-Estimated t m ht hm = elim (Bool-cases m.poisoned) [ inl e ↦ rw e hm | inr e ↦ rw e ht ]

if-Estimated :
    (b : Bool) (s t : Shared)
    → Estimated s.latest_tip.value
    → Estimated t.latest_tip.value
    → Estimated (if b then s else t).latest_tip.value
if-Estimated true s t hs ht = hs
if-Estimated false s t hs ht = ht

-- An optional slot becomes a tip, or changes nothing.
option-Estimated {ℓ} :
    {A : Type ℓ} (o : Option A) (f : A → Shared) (s : Shared)
    → Estimated s.latest_tip.value
    → ((a : A) → o ≡ some a → Estimated (f a).latest_tip.value)
    → Estimated (elim o as (λ _. Shared) [ none ↦ s | some a ↦ f a ]).latest_tip.value
option-Estimated none f s hs hf = hs
option-Estimated (some a) f s hs hf = hf a refl

bind-Estimated {ℓ} :
    {A : Type ℓ} (o : Option A) (f : A → Option TipInfo)
    → ((a : A) → Estimated (f a))
    → Estimated (o >? f)
bind-Estimated none f h = tt
bind-Estimated (some a) f h = h a

module _ (J : Json) (U : Unicode) where
  starting_tip-Estimated : (line : J.Value) → Estimated (starting_tip J line)
  unfolding starting_tip
  starting_tip-Estimated line =
      bind-Estimated (J.get line (codes "tip") >? J.as_object) _ λ tip_obj.
        bind-Estimated (J.get_field tip_obj (codes "slot") >? J.as_u64) _ λ slot.
          bind-Estimated (J.get_field tip_obj (codes "hash") >? J.as_str) _ λ hash. (refl, refl)

  update_tip-Estimated :
      (line : J.Value) (name : Text) (s : Shared)
      → Estimated s.latest_tip.value
      → Estimated (update_tip J U line name s).latest_tip.value
  unfolding update_tip on_starting on_caught_up on_syncing on_forward set_latest_tip set_sync_status
  update_tip-Estimated line name s h =
      if-Estimated (same name (codes "starting")) _ _
        (option-Estimated (starting_tip J line) _ s h
          λ t e. store-Estimated t s.latest_tip (rw e at (starting_tip-Estimated line)) h)
        (if-Estimated (same name (codes "track_peers.caught_up.new_tip")) _ _
          (option-Estimated (extract_point_slot J line) _ s h
            λ slot _. store-Estimated _ s.latest_tip (refl, refl) h)
          (if-Estimated (same name (codes "track_peers.syncing.new_tip")) _ _
            (option-Estimated (extract_point_slot J line) _ s h
              λ slot _. store-Estimated _ s.latest_tip (refl, refl) h)
            (if-Estimated _ _ s
              (option-Estimated (extract_slot_from_name U name) _ s h
                λ slot _. store-Estimated _ s.latest_tip (refl, refl) h)
              h)))

  update_status_keeps_tip :
      (name : Text) (s : Shared) → (update_status J name s).latest_tip ≡ s.latest_tip
  unfolding update_status set_sync_status
  update_status_keeps_tip name s = ground arith

  event-Estimated :
      (line : J.Value) (s : Shared)
      → Estimated s.latest_tip.value
      → Estimated (process_trace_event J U line s).latest_tip.value
  unfolding process_trace_event
  event-Estimated line s h =
      update_tip-Estimated line (name_of J line) (update_status J (name_of J line) s)
        (rw (update_status_keeps_tip (name_of J line) s) h)

  -- Whatever events arrive, in whatever order, the tip that the app shows has the block number
  -- slot / 20 and the epoch slot / 432000 of its slot.
  pub events-Estimated :
      (lines : List J.Value) (s : Shared)
      → Estimated s.latest_tip.value
      → Estimated (process_trace_events J U lines s).latest_tip.value
  unfolding process_trace_events
  events-Estimated [] s h = h
  events-Estimated (line ∷ lines) s h =
      events-Estimated lines (process_trace_event J U line s) (event-Estimated line s h)

  module _ (line point : J.Value) (digits hash : Text) where
    -- The event's point is the text `digits.hash`.
    pub record HasPoint : Type 0 where
      pub pointed : J.get line (codes "point") ≡ some point
      pub text : J.as_str point ≡ some (digits ++ b'.' ∷ hash)
      pub some_digits : digits ≢ []
      pub all_digits : IsDigits digits
      pub in_range : value 0 digits < u64_limit
      pub no_dot : Without b'.' hash

    extract_point_slot_lem : HasPoint → extract_point_slot J line ≡ some (value 0 digits)
    unfolding extract_point_slot split
    extract_point_slot_lem h =
        rw
          (
            h.pointed,
            h.text,
            split_once-append b'.' digits hash (digits-Without digits h.all_digits),
          )
          (parse_u64_lem digits h.some_digits h.all_digits h.in_range)

    extract_point_hash_lem : HasPoint → extract_point_hash J line ≡ hash
    unfolding extract_point_hash split
    extract_point_hash_lem h = rw (
      h.pointed,
      h.text,
      split_once-append b'.' digits hash (digits-Without digits h.all_digits),
      split_once_whole b'.' hash h.no_dot,
    )

  -- The name of an event, if it has one as a text.
  abbrev pub HasName : J.Value → Text → Type 0
  HasName line name = (J.get line (codes "name") >? J.as_str) ≡ some name

  -- A `caught_up` event of the point `digits.hash` sets the tip of that slot and hash, not syncing,
  -- and the status to caught up, as long as no lock is poisoned.
  pub caught_up_event :
      (line point : J.Value) (digits hash : Text) (s : Shared)
      → HasName line (codes "track_peers.caught_up.new_tip")
      → HasPoint line point digits hash
      → s.latest_tip.poisoned ≡ false
      → s.sync_status.poisoned ≡ false
      → let s' = process_trace_event J U line s in
        (s'.latest_tip.value ≡ some (tip_at (value 0 digits) hash false))
        × (s'.sync_status.value ≡ caught_up)
  unfolding process_trace_event name_of update_status update_tip on_caught_up set_sync_status
      set_latest_tip store same
  caught_up_event line point digits hash s named h free free' = rw named (
      ground (
        arith,
        extract_point_slot_lem line point digits hash h,
        extract_point_hash_lem line point digits hash h,
      ))

  -- A `syncing` event of the point `digits.hash` sets the tip of that slot and hash, syncing, and
  -- leaves the status as it is, also where it says caught up.
  pub syncing_event :
      (line point : J.Value) (digits hash : Text) (s : Shared)
      → HasName line (codes "track_peers.syncing.new_tip")
      → HasPoint line point digits hash
      → s.latest_tip.poisoned ≡ false
      → let s' = process_trace_event J U line s in
        (s'.latest_tip.value ≡ some (tip_at (value 0 digits) hash true))
        × (s'.sync_status ≡ s.sync_status)
  unfolding process_trace_event name_of update_status update_tip on_syncing set_sync_status
      set_latest_tip store same
  syncing_event line point digits hash s named h free = rw named (
      ground (
        arith,
        extract_point_slot_lem line point digits hash h,
        extract_point_hash_lem line point digits hash h,
      ))

  -- The status becomes caught up by one kind of event alone: a `caught_up` event whose point has a
  -- slot.
  pub caught_up_only :
      (line : J.Value) (s : Shared)
      → s.sync_status.value ≢ caught_up
      → (process_trace_event J U line s).sync_status.value ≡ caught_up
      → (same (name_of J line) (codes "track_peers.caught_up.new_tip") ≡ true)
        × (extract_point_slot J line ≢ none)
  unfolding process_trace_event update_status update_tip on_starting on_caught_up on_syncing
      on_forward set_sync_status set_latest_tip store
  caught_up_only line s before after = ground arith
