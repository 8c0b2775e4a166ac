-- ===== src/Float/Laws.antt =====
-- Consequences of the order laws of `Float`, for any numbers that meet them.
use defect_sense.Prelude.{ℕ, zero, suc, ◌∙◌, ◌≤◌, ◌<◌, ◌^◌, ◌≡◌, refl, true, false, arith}
use defect_sense.Float.{
  Float, IsOrdered, ◌⊕◌, ◌⊖◌, ◌⊗◌, ◌≼◌, abs, is_zero, nought, unit, max_of, min_of,
}

module _ {N : Type 0} ⦃F : Float N⦄ (laws : IsOrdered N) where
  open laws use {le_refl, le_trans, le_total, lt-eq-not-le, mul_mono, sub_mono, mul_zero}

  pub le_of_lt : (x y : N) → F.lt x y ≡ true → x ≼ y
  le_of_lt x y h = ground (arith, lt-eq-not-le x y, le_total x y)

  pub le_of_not_lt : (x y : N) → F.lt x y ≡ false → y ≼ x
  le_of_not_lt x y h = ground (arith, lt-eq-not-le x y)

  pub lt_of_le_lt : (x y z : N) → x ≼ y → F.lt y z ≡ true → F.lt x z ≡ true
  lt_of_le_lt x y z h k = ground (arith, lt-eq-not-le x z, lt-eq-not-le y z, le_trans z x y)

  pub lt_of_lt_le : (x y z : N) → F.lt x y ≡ true → y ≼ z → F.lt x z ≡ true
  lt_of_lt_le x y z h k = ground (arith, lt-eq-not-le x z, lt-eq-not-le x y, le_trans y z x)

  pub min-le_left : (x y : N) → min_of x y ≼ x
  min-le_left x y = ground (arith, le_of_lt y x, le_refl x)

  pub min-le_right : (x y : N) → min_of x y ≼ y
  min-le_right x y = ground (arith, le_of_not_lt y x, le_refl y)

  pub le-min : (x y z : N) → z ≼ x → z ≼ y → z ≼ min_of x y
  le-min x y z h k = ground arith

  pub lt-min : (x y z : N) → F.lt z x ≡ true → F.lt z y ≡ true → F.lt z (min_of x y) ≡ true
  lt-min x y z h k = ground arith

  pub le-max_left : (x y : N) → x ≼ max_of x y
  le-max_left x y = ground (arith, le_of_lt x y, le_refl x)

  pub le-max_right : (x y : N) → y ≼ max_of x y
  le-max_right x y = ground (arith, le_of_not_lt x y, le_refl y)

  pub max-le : (x y z : N) → x ≼ z → y ≼ z → max_of x y ≼ z
  max-le x y z h k = ground arith

  pub nought-le-unit : ◌≼◌ {N = N} nought unit
  nought-le-unit = laws.decimal_le 0 1 0 (omega arith)

  -- A product of two values that are at least 0 is at least 0.
  pub mul-nonneg : (x y : N) → nought ≼ x → nought ≼ y → nought ≼ x ⊗ y
  mul-nonneg x y h k =
      le_trans _ _ _ (mul_zero x).1 (mul_mono x x nought y h (le_refl _) (le_refl x) k)

  pub add-nonneg : (x y : N) → nought ≼ x → nought ≼ y → nought ≼ x ⊕ y
  add-nonneg x y h k = le_trans _ _ _ (laws.add_zero nought).1 (laws.add_mono nought x nought y h k)

  -- A factor at most 1 does not make a product greater.
  pub mul-le_left : (x y : N) → nought ≼ x → nought ≼ y → y ≼ unit → x ⊗ y ≼ x
  mul-le_left x y h k l = le_trans _ _ _ (mul_mono x x y unit h k (le_refl x) l) (laws.mul_one x).0

  pub mul-le_right : (x y : N) → nought ≼ x → x ≼ unit → nought ≼ y → x ⊗ y ≼ y
  mul-le_right x y h l k = le_trans _ _ _ (mul_mono x unit y y h k l (le_refl y)) (laws.one_mul y).0

  pub sub-nonneg : (x y : N) → y ≼ x → nought ≼ x ⊖ y
  sub-nonneg x y h = le_trans _ _ _ (laws.sub_self y).1 (sub_mono y x y y h (le_refl y))

  pub sub-le : (x y : N) → nought ≼ y → x ⊖ y ≼ x
  sub-le x y h = le_trans _ _ _ (sub_mono x x y nought (le_refl x) h) (laws.sub_zero x).0

  zero_at : (k : ℕ) → nought ≡ F.decimal 0 k
  zero_at zero = refl
  zero_at (suc k) = zero_at k ∙ laws.decimal_shift 0 k

  pub decimal_nonneg : (m k : ℕ) → nought ≼ F.decimal m k
  decimal_nonneg m k = rw (zero_at k) (laws.decimal_le 0 m k (omega arith))

  pub decimal_pos : (m k : ℕ) → 0 < m → m < 10 ^ 9 → k ≤ 12 → F.lt nought (F.decimal m k) ≡ true
  decimal_pos m k pos small few = rw (zero_at k) (laws.decimal_lt 0 m k few pos small)

  -- A percentage as it is written in the code.
  pub percent-le-unit : (m : ℕ) → m ≤ 100 → F.decimal m 2 ≼ unit
  percent-le-unit m h =
      rw (laws.decimal_shift 1 0, laws.decimal_shift 10 1) (laws.decimal_le m 100 2 h)

  -- A positive number is not 0, and neither is one of positive size.
  pub positive_nonzero : (y : N) → F.lt nought y ≡ true → is_zero y ≡ false
  positive_nonzero y h = ground (arith, lt-eq-not-le nought y)

  pub sized_nonzero : (y : N) → F.lt nought (abs y) ≡ true → is_zero y ≡ false
  sized_nonzero y h = ground (arith, lt-eq-not-le nought y, lt-eq-not-le y nought)

  -- A count that is not 0.
  pub count_pos : (n : ℕ) → 0 < n → F.lt nought (F.decimal n 0) ≡ true
  count_pos n h =
      lt_of_lt_le nought unit (F.decimal n 0)
        (laws.decimal_lt 0 1 0 (omega arith) (omega arith) (omega arith))
        (laws.decimal_le 1 n 0 (omega arith))
