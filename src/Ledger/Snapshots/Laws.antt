-- ===== src/Ledger/Snapshots/Laws.antt =====
-- The groups of `split_continuous`, when the snapshots suffice, and what `prune` removes.
use amaru_wear.Prelude.{
  ℕ, ◌+◌, ◌%◌, ◌^◌, ◌≡◌, refl, sym, ap, ◌∙◌, Bool, true, false, ◌&&◌, not, List, [], ◌∷◌, ◌++◌,
  arith, ◌==◌, Bool-cases, inl, inr,
}
use amaru_wear.Ledger.Snapshots.{last, continues, push_number, split_from, split_continuous}

unfoldable pub concat : List (List ℕ) → List ℕ
concat [] = []
concat (g ∷ groups) = g ++ concat groups

-- Each number of the group is one more than the one before it, and there is one.
unfoldable pub is_run : List ℕ → Bool
is_run [] = false
is_run (x ∷ []) = true
is_run (x ∷ y ∷ group) = (y == (x + 1) % 2 ^ 64) && is_run (y ∷ group)

-- Whether the second group begins with one more than the number that the first one ends with.
unfoldable pub starts_after : List ℕ → List ℕ → Bool
starts_after [] h = false
starts_after (x ∷ []) [] = false
starts_after (x ∷ []) (y ∷ h) = y == (x + 1) % 2 ^ 64
starts_after (x ∷ y ∷ g) h = starts_after (y ∷ g) h

-- Each group is a run, and none goes on with the next.
unfoldable pub are_ranges : List (List ℕ) → Bool
are_ranges [] = true
are_ranges (g ∷ []) = is_run g
are_ranges (g ∷ h ∷ groups) = is_run g && (not (starts_after g h) && are_ranges (h ∷ groups))

starts_after-continues : (g : List ℕ) (x : ℕ) (h : List ℕ) → starts_after g (x ∷ h) ≡ continues g x
unfolding starts_after continues last
starts_after-continues [] x h = refl
starts_after-continues (a ∷ []) x h = refl
starts_after-continues (a ∷ b ∷ g) x h = starts_after-continues (b ∷ g) x h

same_front : (g : List ℕ) (x : ℕ) (h h' : List ℕ) → starts_after g (x ∷ h) ≡ starts_after g (x ∷ h')
same_front g x h h' = starts_after-continues g x h ∙ sym (starts_after-continues g x h')

append_assoc : (x y z : List ℕ) → (x ++ y) ++ z ≡ x ++ (y ++ z)
append_assoc [] y z = refl
append_assoc (a ∷ x) y z = ap (◌∷◌ a) (append_assoc x y z)

append_nil : (x : List ℕ) → x ++ [] ≡ x
append_nil [] = refl
append_nil (a ∷ x) = ap (◌∷◌ a) (append_nil x)

concat-push_number :
    (groups : List (List ℕ)) (x : ℕ) → concat (push_number groups x) ≡ concat groups ++ x ∷ []
unfolding push_number concat
concat-push_number [] x = refl
concat-push_number (g ∷ []) x = elim (Bool-cases (continues g x)) [
  | inl c ↦ rw c (append_nil (g ++ x ∷ []) ∙ sym (ap (λ l. l ++ x ∷ []) (append_nil g)))
  | inr c ↦ rw c (sym (ap (λ l. l ++ x ∷ []) (append_nil g)))
]
concat-push_number (g ∷ h ∷ groups) x =
    ap (λ l. g ++ l) (concat-push_number (h ∷ groups) x)
    ∙ sym (append_assoc g (h ++ concat groups) (x ∷ []))

is_run-append :
    (g : List ℕ) (x : ℕ) → is_run g ≡ true → continues g x ≡ true → is_run (g ++ x ∷ []) ≡ true
unfolding is_run continues last
is_run-append [] x r c = ground arith
is_run-append (a ∷ []) x r c = ground arith
is_run-append (a ∷ b ∷ g) x r c = ground (arith, is_run-append (b ∷ g) x)

-- The group that a push leaves in front begins as the one before.
front :
    (h : List ℕ) (groups : List (List ℕ)) (x : ℕ)
    → is_run h ≡ true
    → (h' : List ℕ) × (rest : List (List ℕ)) × (push_number (h ∷ groups) x ≡ h' ∷ rest)
      × ((g : List ℕ) → starts_after g h' ≡ starts_after g h)
unfolding push_number is_run
front [] groups x r = ground arith
front (a ∷ h) [] x r = elim (Bool-cases (continues (a ∷ h) x)) [
  | inl c ↦ (a ∷ (h ++ x ∷ []), [], rw c refl, λ g. same_front g a _ _)
  | inr c ↦ (a ∷ h, (x ∷ []) ∷ [], rw c refl, λ g. refl)
]
front (a ∷ h) (k ∷ groups) x r = (a ∷ h, push_number (k ∷ groups) x, refl, λ g. refl)

first_run : (h : List ℕ) (groups : List (List ℕ)) → are_ranges (h ∷ groups) ≡ true → is_run h ≡ true
unfolding are_ranges
first_run h [] r = r
first_run h (k ∷ groups) r = ground arith

are_ranges-push_number :
    (groups : List (List ℕ)) (x : ℕ)
    → are_ranges groups ≡ true
    → are_ranges (push_number groups x) ≡ true
unfolding are_ranges push_number
are_ranges-push_number [] x r = unfold is_run in refl
are_ranges-push_number (g ∷ []) x r = elim (Bool-cases (continues g x)) [
  | inl c ↦ rw c (is_run-append g x r c)
  | inr c ↦ rw (c, r) (unfold is_run in rw (starts_after-continues g x [], c) refl)
]
are_ranges-push_number (g ∷ h ∷ groups) x r =
    let tail : are_ranges (h ∷ groups) ≡ true = ground arith in
    let (h', rest, pushed, same_start) = front h groups x (first_run h groups tail) in
    rw pushed (ground (arith, same_start g, are_ranges-push_number (h ∷ groups) x tail, pushed))

split_from_lem :
    (groups : List (List ℕ)) (input : List ℕ)
    → are_ranges groups ≡ true
    → (concat (split_from groups input) ≡ concat groups ++ input)
      × (are_ranges (split_from groups input) ≡ true)
unfolding split_from
split_from_lem groups [] r = (sym (append_nil (concat groups)), r)
split_from_lem groups (x ∷ input) r =
    let (whole, ranges) =
      split_from_lem (push_number groups x) input (are_ranges-push_number groups x r) in
    (
      whole
          ∙ ap (λ l. l ++ input) (concat-push_number groups x)
          ∙ append_assoc (concat groups) (x ∷ []) input,
      ranges,
    )

-- `split_continuous` cuts the list into runs of successive numbers, as long as they can be: put
-- together the groups are the list, each is a run, and none goes on with the next.
pub split_continuous_lem :
    (input : List ℕ)
    → (concat (split_continuous input) ≡ input) × (are_ranges (split_continuous input) ≡ true)
unfolding split_continuous concat are_ranges
split_continuous_lem input = split_from_lem [] input refl
