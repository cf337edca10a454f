-- ===== src/Bytes/Order.antt =====
-- The order of byte strings, and what it says of keys with a common prefix.
use amaru_wear.Prelude.{
  ℕ, ◌≡◌, refl, true, false, ◌&&◌, [], ◌∷◌, ◌++◌, arith, ltb, length, if◌then◌else◌,
}
use amaru_wear.Bytes.{Bytes, same, before, starts_with}

pub before_irrefl : (x : Bytes) → before x x ≡ false
unfolding before
before_irrefl [] = refl
before_irrefl (a ∷ x) = ground (arith, before_irrefl x)

pub before_trans : (x y z : Bytes) → before x y ≡ true → before y z ≡ true → before x z ≡ true
unfolding before
before_trans [] [] z p q = ground arith
before_trans (a ∷ x) [] z p q = ground arith
before_trans [] (b ∷ y) [] p q = ground arith
before_trans [] (b ∷ y) (c ∷ z) p q = refl
before_trans (a ∷ x) (b ∷ y) [] p q = ground arith
before_trans (a ∷ x) (b ∷ y) (c ∷ z) p q = ground (arith, before_trans x y z)

-- Two different keys are ordered one way or the other.
pub before_total : (x y : Bytes) → before x y ≡ false → before y x ≡ false → same x y ≡ true
unfolding before same
before_total [] [] p q = refl
before_total (a ∷ x) [] p q = ground arith
before_total [] (b ∷ y) p q = ground arith
before_total (a ∷ x) (b ∷ y) p q = ground (arith, before_total x y)

pub before-append_left : (p x y : Bytes) → before (p ++ x) (p ++ y) ≡ before x y
unfolding before
before-append_left [] x y = refl
before-append_left (a ∷ p) x y = ground (arith, before-append_left p x y)

pub starts_with-append : (p x : Bytes) → starts_with p (p ++ x) ≡ true
unfolding starts_with
starts_with-append [] x = refl
starts_with-append (a ∷ p) x = ground (arith, starts_with-append p x)

pub same-append_left : (p x y : Bytes) → same (p ++ x) (p ++ y) ≡ same x y
unfolding same
same-append_left [] x y = refl
same-append_left (a ∷ p) x y = ground (arith, same-append_left p x y)

-- Keys under different prefixes of one length are different.
pub same-append_ne :
    (p q x y : Bytes) → length p ≡ length q → same p q ≡ false → same (p ++ x) (q ++ y) ≡ false
unfolding same
same-append_ne [] [] x y l h = ground arith
same-append_ne [] (b ∷ q) x y l h = absurd (omega arith)
same-append_ne (a ∷ p) [] x y l h = absurd (omega arith)
same-append_ne (a ∷ p) (b ∷ q) x y l h = ground (arith, same-append_ne p q x y)

-- Such keys are in the order of their prefixes.
pub before-append_ne :
    (p q x y : Bytes)
    → length p ≡ length q
    → same p q ≡ false
    → before (p ++ x) (q ++ y) ≡ before p q
unfolding same before
before-append_ne [] [] x y l h = ground arith
before-append_ne [] (b ∷ q) x y l h = absurd (omega arith)
before-append_ne (a ∷ p) [] x y l h = absurd (omega arith)
before-append_ne (a ∷ p) (b ∷ q) x y l h = ground (arith, before-append_ne p q x y)

-- One more byte at the end decides only between equal strings.
pub before-snoc :
    (p q : Bytes) (c d : ℕ)
    → length p ≡ length q
    → before (p ++ c ∷ []) (q ++ d ∷ []) ≡ (if same p q then ltb c d else before p q)
unfolding same before
before-snoc [] [] c d l = ground arith
before-snoc [] (b ∷ q) c d l = absurd (omega arith)
before-snoc (a ∷ p) [] c d l = absurd (omega arith)
before-snoc (a ∷ p) (b ∷ q) c d l = ground (arith, before-snoc p q c d)

pub starts_with_refl : (p : Bytes) → starts_with p p ≡ true
unfolding starts_with
starts_with_refl [] = refl
starts_with_refl (a ∷ p) = ground (arith, starts_with_refl p)

pub starts_with_left : (p q k : Bytes) → starts_with (p ++ q) k ≡ true → starts_with p k ≡ true
unfolding starts_with
starts_with_left [] q k h = refl
starts_with_left (a ∷ p) q [] h = ground arith
starts_with_left (a ∷ p) q (b ∷ k) h = ground (arith, starts_with_left p q k)

pub starts_with-append_left : (p q k : Bytes) → starts_with (p ++ q) (p ++ k) ≡ starts_with q k
unfolding starts_with
starts_with-append_left [] q k = refl
starts_with-append_left (a ∷ p) q k = ground (arith, starts_with-append_left p q k)

-- A prefix of the length of a string's first part is that part.
pub starts_with_first :
    (p q x : Bytes) → length p ≡ length q → starts_with p (q ++ x) ≡ true → p ≡ q
unfolding starts_with
starts_with_first [] [] x l h = refl
starts_with_first [] (b ∷ q) x l h = absurd (omega arith)
starts_with_first (a ∷ p) [] x l h = absurd (omega arith)
starts_with_first (a ∷ p) (b ∷ q) x l h = ground (arith, starts_with_first p q x)

pub before-append_self : (p x : Bytes) → before (p ++ x) p ≡ false
unfolding before
before-append_self [] x = refl
before-append_self (a ∷ p) x = ground (arith, before-append_self p x)

pub same-append :
    (p q x y : Bytes) → length p ≡ length q → same (p ++ x) (q ++ y) ≡ (same p q && same x y)
unfolding same
same-append [] [] x y l = ground arith
same-append [] (b ∷ q) x y l = absurd (omega arith)
same-append (a ∷ p) [] x y l = absurd (omega arith)
same-append (a ∷ p) (b ∷ q) x y l = ground (arith, same-append p q x y)
