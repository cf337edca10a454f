-- ===== src/Bytes.antt =====
-- Byte strings as the keys of a store: equality, the order in which RocksDB keeps keys, prefixes,
-- and `u64::to_be_bytes` / `u64::from_be_bytes`.
pub mod Order
pub mod Endian
use amaru_wear.Prelude.{
  ℕ, zero, suc, ◌+◌, ◌*◌, ◌/◌, ◌%◌, ◌≡◌, refl, ap, Bool, true, false, ◌&&◌, List, [], ◌∷◌, ◌++◌,
  arith, ltb, ◌==◌, ◌↔◌, subst, if◌then◌else◌,
}

abbrev pub Bytes : Type 0
Bytes = List ℕ

unfoldable pub same : Bytes → Bytes → Bool
same [] [] = true
same (a ∷ x) (b ∷ y) = a == b && same x y
same x y = false

-- The lexicographic order, in which a prefix comes first.
unfoldable pub before : Bytes → Bytes → Bool
before x [] = false
before [] (b ∷ y) = true
before (a ∷ x) (b ∷ y) = if a == b then before x y else ltb a b

unfoldable pub starts_with : Bytes → Bytes → Bool
starts_with [] k = true
starts_with (a ∷ p) [] = false
starts_with (a ∷ p) (b ∷ k) = a == b && starts_with p k

-- `to_be_bytes` of an integer of `n` bytes, the most significant byte first.
unfoldable pub be_bytes : ℕ → ℕ → Bytes
be_bytes zero x = []
be_bytes (suc n) x = be_bytes n (x / 256) ++ (x % 256) ∷ []

unfoldable pub be_value : ℕ → Bytes → ℕ
be_value acc [] = acc
be_value acc (b ∷ x) = be_value (acc * 256 + b) x

abbrev pub from_be_bytes : Bytes → ℕ
from_be_bytes = be_value 0

pub same_refl : (x : Bytes) → same x x ≡ true
unfolding same
same_refl [] = refl
same_refl (a ∷ x) = ground (arith, same_refl x)

pub same→eq : (x y : Bytes) → same x y ≡ true → x ≡ y
unfolding same
same→eq [] [] h = refl
same→eq (a ∷ x) (b ∷ y) h = ground (arith, same→eq x y)
same→eq [] (b ∷ y) h = ground arith
same→eq (a ∷ x) [] h = ground arith

pub same_sym : (x y : Bytes) → same x y ≡ same y x
unfolding same
same_sym [] [] = refl
same_sym (a ∷ x) (b ∷ y) = ground (arith, same_sym x y)
same_sym [] (b ∷ y) = refl
same_sym (a ∷ x) [] = refl

pub same_iff : (x y : Bytes) → (same x y ≡ true) ↔ (x ≡ y)
same_iff x y = (same→eq x y, λ e. subst (λ z. same x z ≡ true) e (same_refl x))
