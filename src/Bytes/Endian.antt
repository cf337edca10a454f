-- ===== src/Bytes/Endian.antt =====
-- Big-endian bytes: the round trip, and why RocksDB keeps slots in numeric order.
use native.Mathlib.Nat.{pow-suc}
use amaru_wear.Prelude.{
  ℕ, zero, suc, ◌+◌, ◌*◌, ◌/◌, ◌%◌, ◌^◌, ◌<◌, ◌≡◌, refl, sym, ◌∙◌, ap, inl, inr, Bool-cases, [],
  ◌∷◌, ◌++◌, arith, ltb, ◌==◌, length, length-append,
}
use amaru_wear.Bytes.{Bytes, same, before, be_bytes, be_value, from_be_bytes, same_refl, same→eq}
use amaru_wear.Bytes.Order.{before-snoc}

pub length-be_bytes : (n x : ℕ) → length (be_bytes n x) ≡ n
unfolding be_bytes
length-be_bytes zero x = refl
length-be_bytes (suc n) x =
    omega
      (arith, length-append (be_bytes n (x / 256)) ((x % 256) ∷ []), length-be_bytes n (x / 256))

be_value-append :
    (acc : ℕ) (x : Bytes) (b : ℕ) → be_value acc (x ++ b ∷ []) ≡ be_value acc x * 256 + b
unfolding be_value
be_value-append acc [] b = refl
be_value-append acc (a ∷ x) b = be_value-append (acc * 256 + a) x b

pub be_value-be_bytes : (n x : ℕ) → x < 256 ^ n → be_value 0 (be_bytes n x) ≡ x
unfolding be_bytes be_value
be_value-be_bytes zero x h = omega arith
be_value-be_bytes (suc n) x h = omega (
  arith,
  be_value-append 0 (be_bytes n (x / 256)) (x % 256),
  be_value-be_bytes n (x / 256) (omega (arith, pow-suc 256 n)),
)

pub same-be_bytes :
    (n x y : ℕ) → x < 256 ^ n → y < 256 ^ n → same (be_bytes n x) (be_bytes n y) ≡ (x == y)
same-be_bytes n x y hx hy = elim (Bool-cases (same (be_bytes n x) (be_bytes n y))) [
  | inl e ↦
      let p : x ≡ y =
        sym (be_value-be_bytes n x hx)
        ∙ ap from_be_bytes (same→eq _ _ e)
        ∙ be_value-be_bytes n y hy in
      rw e (ground arith)
  | inr e ↦ elim (Bool-cases (x == y)) [
    | inl q ↦
        let p : x ≡ y = ground arith in
        cc (ap (λ (z : ℕ). same (be_bytes n x) (be_bytes n z)) p, same_refl (be_bytes n x))
    | inr q ↦ rw (e, q)
  ]
]

pub before-be_bytes :
    (n x y : ℕ) → x < 256 ^ n → y < 256 ^ n → before (be_bytes n x) (be_bytes n y) ≡ ltb x y
unfolding be_bytes before
before-be_bytes zero x y hx hy = ground arith
before-be_bytes (suc n) x y hx hy =
    let hx' : x / 256 < 256 ^ n = omega (arith, pow-suc 256 n) in
    let hy' : y / 256 < 256 ^ n = omega (arith, pow-suc 256 n) in
    before-snoc (be_bytes n (x / 256)) (be_bytes n (y / 256)) (x % 256) (y % 256)
      (length-be_bytes n (x / 256) ∙ sym (length-be_bytes n (y / 256)))
    ∙ rw (same-be_bytes n _ _ hx' hy', before-be_bytes n _ _ hx' hy') (ground arith)
