-- ===== src/Float/Fixed.antt =====
-- The laws can be met: integers that count in units of 1e-12, with products and quotients rounded towards
-- zero.
use defect_sense.Prelude.{ℕ, suc, zero, ◌*◌, ◌/◌, ◌^◌, ◌≤◌, ◌<◌, ◌≡◌, sym, ap, true, ◌⊎◌, arith}
use defect_sense.Prelude.Int.{ℤ, pos, negsuc, sub_ℕ, ◌+ℤ◌, ◌-ℤ◌, leb_ℤ, ltb_ℤ}
use native.Mathlib.Nat.{
  pow-succ', mul_assoc, mul-div-mul_left, le-div_iff_mul-le, div-mul-le_self, le_trans,
}
use defect_sense.Float.{Float, IsOrdered}

abbrev scale : ℕ
scale = 1_000_000_000_000

abbrev neg : ℤ → ℤ
neg (pos n) = sub_ℕ 0 n
neg (negsuc n) = pos (suc n)

abbrev mul : ℤ → ℤ → ℤ
mul (pos a) (pos b) = pos (a * b / scale)
mul (pos a) (negsuc b) = sub_ℕ 0 (a * suc b / scale)
mul (negsuc a) (pos b) = sub_ℕ 0 (suc a * b / scale)
mul (negsuc a) (negsuc b) = pos (suc a * suc b / scale)

abbrev div : ℤ → ℤ → ℤ
div (pos a) (pos b) = pos (a * scale / b)
div (pos a) (negsuc b) = sub_ℕ 0 (a * scale / suc b)
div (negsuc a) (pos b) = sub_ℕ 0 (suc a * scale / b)
div (negsuc a) (negsuc b) = pos (suc a * scale / suc b)

instance abbrev pub fixed : Float ℤ
fixed = record {
  decimal = λ m k. pos (m * scale / 10 ^ k);
  add = ◌+ℤ◌;
  sub = ◌-ℤ◌;
  mul = mul;
  div = div;
  le = leb_ℤ;
  lt = ltb_ℤ;
}

decimal_shift : (m k : ℕ) → m * scale / 10 ^ k ≡ 10 * m * scale / 10 ^ suc k
decimal_shift m k =
    rw (pow-succ' 10 k, mul_assoc 10 m scale)
      (sym (mul-div-mul_left (m * scale) (10 ^ k) (omega arith)))

pow-pos : (k : ℕ) → 0 < 10 ^ k
pow-pos zero = omega arith
pow-pos (suc k) = rw (pow-succ' 10 k) (omega (arith, pow-pos k))

div_mono : (a b k : ℕ) → 0 < k → a ≤ b → a / k ≤ b / k
div_mono a b k h le = (le-div_iff_mul-le h).1 (le_trans (div-mul-le_self a k) le)

decimal_lt : (m n k : ℕ) → k ≤ 12 → m < n → m * scale / 10 ^ k < n * scale / 10 ^ k
decimal_lt m n zero h lt = omega arith
decimal_lt m n (suc zero) h lt = omega arith
decimal_lt m n (suc (suc zero)) h lt = omega arith
decimal_lt m n (suc (suc (suc zero))) h lt = omega arith
decimal_lt m n (suc (suc (suc (suc zero)))) h lt = omega arith
decimal_lt m n (suc (suc (suc (suc (suc zero))))) h lt = omega arith
decimal_lt m n (suc (suc (suc (suc (suc (suc zero)))))) h lt = omega arith
decimal_lt m n (suc (suc (suc (suc (suc (suc (suc zero))))))) h lt = omega arith
decimal_lt m n (suc (suc (suc (suc (suc (suc (suc (suc zero)))))))) h lt = omega arith
decimal_lt m n (suc (suc (suc (suc (suc (suc (suc (suc (suc zero))))))))) h lt = omega arith
decimal_lt m n (suc (suc (suc (suc (suc (suc (suc (suc (suc (suc zero)))))))))) h lt = omega arith
decimal_lt m n (suc (suc (suc (suc (suc (suc (suc (suc (suc (suc (suc zero))))))))))) h lt =
    omega arith
decimal_lt m n (suc (suc (suc (suc (suc (suc (suc (suc (suc (suc (suc (suc zero)))))))))))) h lt =
    omega arith
decimal_lt m n (suc (suc (suc (suc (suc (suc (suc (suc (suc (suc (suc (suc (suc k))))))))))))) h
      lt =
    absurd (omega arith)

mul-le_mul : (a b c d : ℕ) → a ≤ b → c ≤ d → a * c ≤ b * d
mul-le_mul a b c d h k = grind arith

add_mono : (x y u v : ℤ) → leb_ℤ x y ≡ true → leb_ℤ u v ≡ true → leb_ℤ (x +ℤ u) (y +ℤ v) ≡ true
add_mono x y u v h k = ground arith

sub_mono : (x y u v : ℤ) → leb_ℤ x y ≡ true → leb_ℤ v u ≡ true → leb_ℤ (x -ℤ u) (y -ℤ v) ≡ true
sub_mono x y u v h k = ground arith

pos_le : (a b : ℕ) → a ≤ b → leb_ℤ (pos a) (pos b) ≡ true
pos_le a b h = ground arith

pos_lt : (a b : ℕ) → a < b → ltb_ℤ (pos a) (pos b) ≡ true
pos_lt a b h = ground arith

le_total : (x y : ℤ) → (leb_ℤ x y ≡ true) ⊎ (leb_ℤ y x ≡ true)
le_total x y = ground arith

-- Equal up to the order, in both directions.
abbrev Alike : ℤ → ℤ → Type 0
Alike x y = (leb_ℤ x y ≡ true) × (leb_ℤ y x ≡ true)

mul_zero : (x : ℤ) → Alike (mul x (pos 0)) (pos 0)
mul_zero (pos n) = ground arith
mul_zero (negsuc n) = ground arith

zero_mul : (x : ℤ) → Alike (mul (pos 0) x) (pos 0)
zero_mul (pos n) = ground arith
zero_mul (negsuc n) = ground arith

mul_one : (x : ℤ) → Alike (mul x (pos scale)) x
mul_one (pos n) = ground arith
mul_one (negsuc n) = ground arith

one_mul : (x : ℤ) → Alike (mul (pos scale) x) x
one_mul (pos n) = ground arith
one_mul (negsuc n) = ground arith

mul_mono :
    (x y u v : ℤ)
    → leb_ℤ (pos 0) x ≡ true
    → leb_ℤ (pos 0) u ≡ true
    → leb_ℤ x y ≡ true
    → leb_ℤ u v ≡ true
    → leb_ℤ (mul x u) (mul y v) ≡ true
mul_mono (pos a) (pos b) (pos c) (pos d) p q h k = pos_le _ _ (
    div_mono (a * c) (b * d) scale (omega arith) (mul-le_mul a b c d (ground arith) (ground arith)))
mul_mono x y u v p q h k = ground arith

pub fixed-IsOrdered : IsOrdered ℤ
fixed-IsOrdered = record {
  le_refl = λ x. ground arith;
  le_trans = λ x y z h k. ground arith;
  le_total = le_total;
  lt-eq-not-le = λ x y. ground arith;
  add_mono = add_mono;
  sub_mono = sub_mono;
  mul_mono = mul_mono;
  add_zero = λ x. ground arith;
  sub_zero = λ x. ground arith;
  sub_self = λ x. ground arith;
  mul_zero = mul_zero;
  zero_mul = zero_mul;
  mul_one = mul_one;
  one_mul = one_mul;
  div_nonneg = λ x y h k. ground arith;
  decimal_shift = λ m k. ap pos (decimal_shift m k);
  decimal_le =
      λ m n k h. pos_le _ _ (div_mono (m * scale) (n * scale) (10 ^ k) (pow-pos k) (omega arith));
  decimal_lt = λ m n k h lt _. pos_lt _ _ (decimal_lt m n k h lt);
}
