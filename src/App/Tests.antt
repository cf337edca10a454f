-- ===== src/App/Tests.antt =====
-- A JSON value type, an ASCII table and a shared state: the theorems on the app at concrete inputs.
mod Nodes
use amaru_wear.Prelude.{
  ℕ, suc, ◌+◌, ◌/◌, ◌<◌, ◌≡◌, ◌≢◌, ◌↔◌, ◌⊎◌, refl, Bool, true, false, Option, none, some, List, [],
  ◌∷◌, ◌++◌, arith, ltb, All, map, if◌then◌else◌, Result, ok,
}
use amaru_wear.Bytes.{same, starts_with}
use amaru_wear.Text.{Text, codes, Unicode, IsUnicode, is_digit, ascii_lower, u64_limit}
use amaru_wear.Text.Laws.{value, IsDigits, Without, NoMatch}
use amaru_wear.App.{
  TipInfo, SyncStatus, not_started, bootstrapping, syncing, caught_up, Shared, unlocked,
  get_sync_status,
}
use amaru_wear.App.Trace.{
  Json, tip_at, name_of, extract_point_slot, extract_hash_from_name, extract_slot_from_name,
  process_trace_event, process_trace_events,
}
use amaru_wear.App.Trace.Names.{extract_hash_from_name_lem, extract_slot_from_name_lem}
use amaru_wear.App.Trace.Laws.{
  Estimated, events-Estimated, HasPoint, HasName, caught_up_event, syncing_event, caught_up_only,
}

abbrev pub ascii : Unicode
ascii = record { to_lowercase = map ascii_lower; is_numeric = is_digit }

pub ascii-IsUnicode : IsUnicode ascii
ascii-IsUnicode = record { lower_ascii = λ t h. refl; numeric_ascii = λ c h. refl }

-- A value: a text, a number, or the fields of an object.
data Value : Type 0 where
  text : Text → Value
  number : ℕ → Value
  no_field : Value
  field : Text → Value → Value → Value

unfoldable field_of : Value → Text → Option Value
field_of (field name v rest) key =
    let other = field_of rest key in if same name key then some v else other
field_of v key = none

unfoldable text_of : Value → Option Text
text_of (text t) = some t
text_of v = none

unfoldable number_of : Value → Option ℕ
number_of (number n) = some n
number_of v = none

abbrev json : Json
json = record {
  Value = Value;
  Object = Value;
  get = field_of;
  as_str = text_of;
  as_u64 = number_of;
  as_object = λ v. some v;
  get_field = field_of;
}

abbrev pub fresh : Shared
fresh = record { latest_tip = unlocked none; sync_status = unlocked not_started }

abbrev event : Text → Value
event name =
    field (codes "name") (text name) (field (codes "point") (text (codes "42.ab")) no_field)

abbrev caught_up_line : Value
caught_up_line = event (codes "track_peers.caught_up.new_tip")

abbrev syncing_line : Value
syncing_line = event (codes "track_peers.syncing.new_tip")

events-Estimated_example :
    Estimated
      (process_trace_events json ascii (syncing_line ∷ caught_up_line ∷ []) fresh).latest_tip.value
events-Estimated_example = events-Estimated json ascii (syncing_line ∷ caught_up_line ∷ []) fresh tt

has_point :
    (name : Text)
    → HasPoint json ascii (event name) (text (codes "42.ab")) (codes "42") (codes "ab")
unfolding field_of text_of same value
has_point name = record {
  pointed = refl;
  text = refl;
  some_digits = λ e. ground arith;
  all_digits = (refl, (refl, tt));
  in_range = omega arith;
  no_dot = (refl, (refl, tt));
}

has_name : (name : Text) → HasName json ascii (event name) name
unfolding field_of text_of same
has_name name = refl

abbrev was_caught_up : Shared
was_caught_up = record { latest_tip = unlocked none; sync_status = unlocked caught_up }

not_caught_up : not_started ≢ caught_up
not_caught_up e = ground arith

caught_up_only_example :
    (same (name_of json caught_up_line) (codes "track_peers.caught_up.new_tip") ≡ true)
    × (extract_point_slot json caught_up_line ≢ none)
caught_up_only_example =
    caught_up_only json ascii caught_up_line fresh not_caught_up
      (caught_up_event json ascii caught_up_line (text (codes "42.ab")) (codes "42") (codes "ab")
        fresh (has_name (codes "track_peers.caught_up.new_tip"))
        (has_point (codes "track_peers.caught_up.new_tip")) refl refl).1

no_hash_before :
    NoMatch (codes "hash: \"") (codes "{ ") (codes "hash: \"" ++ (codes "ab" ++ b'"' ∷ codes ", "))
unfolding starts_with
no_hash_before = (refl, (refl, tt))

no_slot_before :
    NoMatch (codes "slot: ") (codes "{ ") (codes "slot: " ++ (codes "42" ++ b',' ∷ codes " "))
unfolding starts_with
no_slot_before = (refl, (refl, tt))
