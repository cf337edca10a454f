-- ===== src/App/Trace/Names.antt =====
-- The slot and the hash that stand in the name of a `forward_chain` event.
use amaru_wear.Prelude.{
  ℕ, ◌<◌, ◌≡◌, ◌≢◌, ap, false, not, some, [], ◌∷◌, ◌++◌, arith, All, take_append, drop_append_add,
}
use amaru_wear.Text.{Text, codes, Unicode, IsUnicode, u64_limit}
use amaru_wear.Text.Laws.{
  value, IsDigits, Without, NoMatch, parse_u64_lem, find_first, find_quote, position_lem,
}
use amaru_wear.App.Trace.{extract_hash_from_name, extract_slot_from_name}

-- The hash of a block header in an event's name: what stands between the quotes after the first
-- `hash: "`.
pub extract_hash_from_name_lem :
    (before hash after : Text)
    → NoMatch (codes "hash: \"") before (codes "hash: \"" ++ (hash ++ b'"' ∷ after))
    → Without b'"' hash
    → extract_hash_from_name (before ++ (codes "hash: \"" ++ (hash ++ b'"' ∷ after))) ≡ hash
unfolding extract_hash_from_name
extract_hash_from_name_lem before hash after first no_quote =
    rw (find_first (codes "hash: \"") before (hash ++ b'"' ∷ after) first, extract_hash_from_name)
      (rw (drop_append_add before (codes "hash: \"" ++ (hash ++ b'"' ∷ after)) 7) (
        rw (find_quote b'"' hash after no_quote) (
          rw (drop_append_add before (codes "hash: \"" ++ (hash ++ b'"' ∷ after)) 7)
            (take_append hash (b'"' ∷ after)))))

numeric_digits :
    (U : Unicode)
    → IsUnicode U
    → (t : Text) → IsDigits t
    → All (λ a. not (U.is_numeric a) ≡ false) t
numeric_digits U V [] h = tt
numeric_digits U V (c ∷ t) h = (ground (arith, h.0, V.numeric_ascii c), numeric_digits U V t h.1)

-- The slot of a block header in an event's name: the digits after the first `slot: `, up to a
-- character that is not numeric.
pub extract_slot_from_name_lem :
    (U : Unicode) (before digits after : Text) (c : ℕ)
    → IsUnicode U
    → NoMatch (codes "slot: ") before (codes "slot: " ++ (digits ++ c ∷ after))
    → digits ≢ []
    → IsDigits digits
    → value 0 digits < u64_limit
    → U.is_numeric c ≡ false
    → extract_slot_from_name U (before ++ (codes "slot: " ++ (digits ++ c ∷ after)))
      ≡ some (value 0 digits)
unfolding extract_slot_from_name
extract_slot_from_name_lem U before digits after c V first ne ds small stop =
    rw (find_first (codes "slot: ") before (digits ++ c ∷ after) first) (
      rw (drop_append_add before (codes "slot: " ++ (digits ++ c ∷ after)) 6) (
        rw
          (position_lem (λ a. not (U.is_numeric a)) digits c after (numeric_digits U V digits ds)
            (ap not stop))
          (rw (take_append digits (c ∷ after)) (parse_u64_lem digits ne ds small))))
