-- ===== src/BigNumber.antt =====
-- The `BigNumber` class of the package ethers, which common/numbers.ts computes with.
-- The package is not part of the repository: its operations are the fields of a record that the
-- model takes as a parameter. A BigNumber is read as the integer that it holds.
pub mod Reference
use iceth_plugin.Prelude.{
  ℕ, zero, suc, ◌+◌, ◌*◌, ◌/◌, ◌%◌, ◌^◌, ◌<◌, ◌≡◌, Bool, ◌&&◌, List, ℤ, pos, ◌+ℤ◌, ◌-ℤ◌, ◌*ℤ◌, mag,
  signed, is_neg, ltb_ℤ, leb_ℤ, ◌==◌, All, [], ◌∷◌, ◌-◌, ◌≤◌, neg,
}
use iceth_plugin.Errors.{Result, ok, err, numeric_fault}

-- The arguments that a BigNumber is made from: a text, an integral number, a fractional number (with
-- the text that `toFixed(9)` gives for it), or a BigNumber.
pub data BigNumberish : Type 0 where
  text : List ℕ → BigNumberish
  int : ℤ → BigNumberish
  fraction : List ℕ → BigNumberish
  big : ℤ → BigNumberish

pub record BigNumber : Type 0 where
  pub from : BigNumberish → Result ℤ
  pub add : ℤ → ℤ → ℤ
  pub sub : ℤ → ℤ → ℤ
  pub mul : ℤ → ℤ → ℤ
  pub div : ℤ → ℤ → Result ℤ
  pub modulo : ℤ → ℤ → Result ℤ
  pub pow : ℤ → ℤ → Result ℤ
  pub abs : ℤ → ℤ
  pub is_negative : ℤ → Bool
  pub lt : ℤ → ℤ → Bool
  pub lte : ℤ → ℤ → Bool
  pub gt : ℤ → ℤ → Bool
  pub gte : ℤ → ℤ → Bool
  pub eq : ℤ → ℤ → Bool
  pub is_zero : ℤ → Bool

-- The value of a list of decimal digits, most significant first.
abbrev pub digits_from : ℕ → List ℕ → ℕ
digits_from acc [] = acc
digits_from acc (d ∷ ds) = digits_from (acc * 10 + (d - b'0')) ds

abbrev pub IsDigit : ℕ → Type 0
IsDigit c = (b'0' ≤ c) × (c ≤ b'9')

-- The documented behaviour that the code relies on. `modulo` (the source's `mod`) is stated for non-negative numbers only.
pub record IsDocumented (B : BigNumber) : Type 0 where
  pub from_big : (z : ℤ) → B.from (big z) ≡ ok z
  pub from_int : (z : ℤ) → mag z < 2 ^ 53 → B.from (int z) ≡ ok z
  pub from_digits :
      (d : ℕ) (ds : List ℕ)
      → All IsDigit (d ∷ ds)
      → B.from (text (d ∷ ds)) ≡ ok (pos (digits_from 0 (d ∷ ds)))
  pub from_minus :
      (d : ℕ) (ds : List ℕ)
      → All IsDigit (d ∷ ds)
      → B.from (text (b'-' ∷ d ∷ ds)) ≡ ok (neg (digits_from 0 (d ∷ ds)))
  pub add_lem : (a b : ℤ) → B.add a b ≡ a +ℤ b
  pub sub_lem : (a b : ℤ) → B.sub a b ≡ a -ℤ b
  pub mul_lem : (a b : ℤ) → B.mul a b ≡ a *ℤ b
  pub div_lem : (a : ℤ) (n : ℕ) → B.div a (pos (suc n)) ≡ ok (signed a (mag a / suc n))
  pub div_zero : (a : ℤ) → B.div a (pos 0) ≡ err numeric_fault
  pub modulo_lem : (a n : ℕ) → B.modulo (pos a) (pos (suc n)) ≡ ok (pos (a % suc n))
  pub pow_lem : (a n : ℕ) → B.pow (pos a) (pos n) ≡ ok (pos (a ^ n))
  pub abs_lem : (a : ℤ) → B.abs a ≡ pos (mag a)
  pub is_negative_lem : (a : ℤ) → B.is_negative a ≡ is_neg a
  pub lt_lem : (a b : ℤ) → B.lt a b ≡ ltb_ℤ a b
  pub lte_lem : (a b : ℤ) → B.lte a b ≡ leb_ℤ a b
  pub gt_lem : (a b : ℤ) → B.gt a b ≡ ltb_ℤ b a
  pub gte_lem : (a b : ℤ) → B.gte a b ≡ leb_ℤ b a
  pub eq_lem : (a b : ℤ) → B.eq a b ≡ (leb_ℤ a b && leb_ℤ b a)
  pub is_zero_lem : (a : ℤ) → B.is_zero a ≡ (mag a == 0)

-- Division by any positive number.
pub div_of_pos :
    {B : BigNumber}
    → IsDocumented B
    → (a : ℤ) (n : ℕ) → 0 < n
    → B.div a (pos n) ≡ ok (signed a (mag a / n))
div_of_pos L a zero h = elim h [ ]
div_of_pos L a (suc n) h = L.div_lem a n
