-- ===== src/Float.antt =====
-- Python's `float`, as far as the program uses it: an interface, since the language has no type of
-- the checker that stands for it. The laws are those of finite binary64 values, where the rounded
-- operations keep the order; `0.0` and `-0.0` compare alike, so a law that in ordinary arithmetic
-- is an equation is here an order in both directions.
pub mod Fixed
pub mod Laws
use defect_sense.Prelude.{
  ℕ, suc, ◌*◌, ◌^◌, ◌<◌, ◌≤◌, ◌≡◌, ◌⊎◌, Bool, true, not, Option, none, some, ◌&&◌, List,
  if◌then◌else◌,
}

-- `div` is the quotient by a divisor that is not 0, and says nothing of one that is. Where the code divides
-- by what it computes, the model says `divide`, below, which raises. `div` stands where the divisor is a
-- literal, a number of runs of which there are at least 2, a number of views of which there is one, or the
-- tolerance that score_features of signals.py has just found not to be 0.
-- `decimal m k` is the literal m / 10 ^ k; a whole number is `decimal n 0`.
pub record Float (N : Type 0) : Type 0 where
  pub decimal : ℕ → ℕ → N
  pub add : N → N → N
  pub sub : N → N → N
  pub mul : N → N → N
  pub div : N → N → N
  pub le : N → N → Bool
  pub lt : N → N → Bool

module _ {N : Type 0} ⦃F : Float N⦄ where
  infixl 65 ◌⊕◌ ◌⊖◌
  infixl 70 ◌⊗◌ ◌⊘◌
  infix 4 ◌≼◌
  abbrev pub ◌⊕◌ : N → N → N
  x ⊕ y = F.add x y

  abbrev pub ◌⊖◌ : N → N → N
  x ⊖ y = F.sub x y

  abbrev pub ◌⊗◌ : N → N → N
  x ⊗ y = F.mul x y

  abbrev pub ◌⊘◌ : N → N → N
  x ⊘ y = F.div x y

  abbrev pub ◌≼◌ : N → N → Type 0
  x ≼ y = F.le x y ≡ true

  abbrev pub nought : N
  nought = F.decimal 0 0

  abbrev pub unit : N
  unit = F.decimal 1 0

  -- max(x, y) and min(x, y): the first of two that compare alike
  abbrev pub max_of : N → N → N
  max_of x y = if F.lt x y then y else x

  abbrev pub min_of : N → N → N
  min_of x y = if F.lt y x then y else x

  -- abs(x)
  abbrev pub abs : N → N
  abs x = if F.lt x nought then nought ⊖ x else x

  -- x == 0.0
  abbrev pub is_zero : N → Bool
  is_zero x = F.le x nought && F.le nought x

  -- x / y, where `none` is ZeroDivisionError
  abbrev pub divide : N → N → Option N
  divide x y = if is_zero y then none else some (x ⊘ y)

-- What the development uses of the arithmetic.
pub record IsOrdered (N : Type 0) ⦃F : Float N⦄ : Type 0 where
  pub le_refl : (x : N) → x ≼ x
  pub le_trans : (x y z : N) → x ≼ y → y ≼ z → x ≼ z
  pub le_total : (x y : N) → (x ≼ y) ⊎ (y ≼ x)
  pub lt-eq-not-le : (x y : N) → F.lt x y ≡ not (F.le y x)
  pub add_mono : (x y u v : N) → x ≼ y → u ≼ v → x ⊕ u ≼ y ⊕ v
  pub sub_mono : (x y u v : N) → x ≼ y → v ≼ u → x ⊖ u ≼ y ⊖ v
  pub mul_mono : (x y u v : N) → nought ≼ x → nought ≼ u → x ≼ y → u ≼ v → x ⊗ u ≼ y ⊗ v
  pub add_zero : (x : N) → (x ⊕ nought ≼ x) × (x ≼ x ⊕ nought)
  pub sub_zero : (x : N) → (x ⊖ nought ≼ x) × (x ≼ x ⊖ nought)
  pub sub_self : (x : N) → (x ⊖ x ≼ nought) × (nought ≼ x ⊖ x)
  pub mul_zero : (x : N) → (x ⊗ nought ≼ nought) × (nought ≼ x ⊗ nought)
  pub zero_mul : (x : N) → (nought ⊗ x ≼ nought) × (nought ≼ nought ⊗ x)
  pub mul_one : (x : N) → (x ⊗ unit ≼ x) × (x ≼ x ⊗ unit)
  pub one_mul : (x : N) → (unit ⊗ x ≼ x) × (x ≼ unit ⊗ x)
  pub div_nonneg : (x y : N) → nought ≼ x → F.lt nought y ≡ true → nought ≼ x ⊘ y
  -- a literal is the number that it writes, rounded
  pub decimal_shift : (m k : ℕ) → F.decimal m k ≡ F.decimal (10 * m) (suc k)
  pub decimal_le : (m n k : ℕ) → m ≤ n → F.decimal m k ≼ F.decimal n k
  -- literals of few digits stay apart
  pub decimal_lt :
      (m n k : ℕ) → k ≤ 12 → m < n → n < 10 ^ 9 → F.lt (F.decimal m k) (F.decimal n k) ≡ true
