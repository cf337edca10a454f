-- ===== src/Chain/Diagnostics/Links.antt =====
-- `load_parents_children` groups the links of the store by their parents.
use amaru_wear.Prelude.{
  ◌≡◌, ◌≢◌, refl, ◌∙◌, Bool, false, ◌||◌, ◌&&◌, Bool-cases, inl, inr, Option, none, some, List, [],
  ◌∷◌, ◌++◌, arith,
}
use amaru_wear.Bytes.{Bytes, same, same→eq}
use amaru_wear.Chain.Children.{elem}
use amaru_wear.Chain.Diagnostics.{push_link, finished}

-- Whether a group of the parent has the child.
unfoldable pub linked : Bytes → Bytes → List (Bytes × List Bytes) → Bool
linked p c [] = false
linked p c (g ∷ groups) = same g.0 p && elem c g.1 || linked p c groups

-- Each group has a child, and the next one another parent.
abbrev pub IsGrouped : List (Bytes × List Bytes) → Type 0
IsGrouped [] = Unit
IsGrouped (g ∷ []) = g.1 ≢ []
IsGrouped (g ∷ h ∷ groups) = (g.1 ≢ []) × (same g.0 h.0 ≡ false) × IsGrouped (h ∷ groups)

elem_snoc : (c a : Bytes) (l : List Bytes) → elem c (l ++ a ∷ []) ≡ (elem c l || same a c)
unfolding elem
elem_snoc c a [] = ground arith
elem_snoc c a (b ∷ l) = ground (arith, elem_snoc c a l)

linked_snoc :
    (p c q : Bytes) (cs : List Bytes) (groups : List (Bytes × List Bytes))
    → linked p c (groups ++ (q, cs) ∷ []) ≡ (linked p c groups || same q p && elem c cs)
unfolding linked
linked_snoc p c q cs [] = ground arith
linked_snoc p c q cs (g ∷ groups) = ground (arith, linked_snoc p c q cs groups)

snoc-ne-nil : {A : Type 0} (l : List A) (a : A) → l ++ a ∷ [] ≢ []
snoc-ne-nil [] a e = cc
snoc-ne-nil (b ∷ l) a e = cc

-- One link more in the last group.
IsGrouped-more :
    (q : Bytes) (cs ds : List Bytes) (groups : List (Bytes × List Bytes))
    → ds ≢ []
    → IsGrouped (groups ++ (q, cs) ∷ [])
    → IsGrouped (groups ++ (q, ds) ∷ [])
IsGrouped-more q cs ds [] n h = n
IsGrouped-more q cs ds (g ∷ []) n h = (h.0, h.1, n)
IsGrouped-more q cs ds (g ∷ k ∷ groups) n h = (h.0, h.1, IsGrouped-more q cs ds (k ∷ groups) n h.2)

-- A new group.
IsGrouped-new :
    (p q : Bytes) (cs ds : List Bytes) (groups : List (Bytes × List Bytes))
    → ds ≢ []
    → same p q ≡ false
    → IsGrouped (groups ++ (p, cs) ∷ [])
    → IsGrouped ((groups ++ (p, cs) ∷ []) ++ (q, ds) ∷ [])
IsGrouped-new p q cs ds [] n e h = (h, e, n)
IsGrouped-new p q cs ds (g ∷ []) n e h = (h.0, h.1, (h.2, e, n))
IsGrouped-new p q cs ds (g ∷ k ∷ groups) n e h =
    (h.0, h.1, IsGrouped-new p q cs ds (k ∷ groups) n e h.2)

pub linked-push_link :
    (q a p c : Bytes) (groups : List (Bytes × List Bytes)) (current : Option Bytes)
    (cs : List Bytes)
    → (current ≡ none → cs ≡ [])
    → linked p c (
        finished (
          push_link
            (q, a)
            (record { groups = groups; current_parent = current; current_children = cs })))
      ≡ (linked p c
            (finished (record { groups = groups; current_parent = current; current_children = cs }))
          || same q p && same a c)
unfolding push_link finished elem
linked-push_link q a p c groups none cs none_yet =
    rw (none_yet refl) (linked_snoc p c q (a ∷ []) groups ∙ ground arith)
linked-push_link q a p c groups (some r) cs none_yet = elim (Bool-cases (same r q)) [
  | inl e ↦
      let one : r ≡ q = same→eq r q e in
      rw e (
        linked_snoc p c r (cs ++ a ∷ []) groups
        ∙ rw (elem_snoc c a cs, linked_snoc p c r cs groups, one) (ground arith))
  | inr e ↦ rw e (linked_snoc p c q (a ∷ []) (groups ++ (r, cs) ∷ []) ∙ ground arith)
]

pub IsGrouped-push_link :
    (q a : Bytes) (groups : List (Bytes × List Bytes)) (current : Option Bytes) (cs : List Bytes)
    → (current ≡ none → groups ≡ [])
    → IsGrouped
        (finished (record { groups = groups; current_parent = current; current_children = cs }))
    → IsGrouped (
        finished (
          push_link
            (q, a)
            (record { groups = groups; current_parent = current; current_children = cs })))
unfolding push_link finished
IsGrouped-push_link q a groups none cs none_yet h = rw (none_yet refl) (snoc-ne-nil cs a)
IsGrouped-push_link q a groups (some r) cs none_yet h = elim (Bool-cases (same r q)) [
  | inl e ↦ rw e (IsGrouped-more r cs (cs ++ a ∷ []) groups (snoc-ne-nil cs a) h)
  | inr e ↦ rw e (IsGrouped-new r q cs (a ∷ []) groups (λ n. cc) e h)
]

pub push_link-has_parent :
    (q a : Bytes) (groups : List (Bytes × List Bytes)) (current : Option Bytes) (cs : List Bytes)
    → (push_link
        (q, a)
        (record {
          groups = groups;
          current_parent = current;
          current_children = cs;
        })).current_parent
      ≢ none
unfolding push_link
push_link-has_parent q a groups none cs e = cc
push_link-has_parent q a groups (some r) cs e = ground (arith, e)
