-- ===== src/BigNumber/Reference.antt =====
-- A concrete BigNumber package, by which the theorems are run on examples.
use iceth_plugin.Prelude.{
  ℕ, zero, suc, ◌-◌, ◌/◌, ◌%◌, ◌^◌, ◌≡◌, refl, false, ◌&&◌, List, [], ◌∷◌, ℤ, pos, negsuc, ◌+ℤ◌,
  ◌-ℤ◌, ◌*ℤ◌, mag, signed, is_neg, ltb_ℤ, leb_ℤ, ◌==◌, neg, All, arith, if◌then◌else◌,
}
use iceth_plugin.Errors.{Result, ok, err, numeric_fault}
use iceth_plugin.BigNumber.{
  BigNumber, BigNumberish, text, int, fraction, big, digits_from, IsDocumented, IsDigit,
}

abbrev read_text : List ℕ → Result ℤ
read_text [] = err numeric_fault
read_text (c ∷ s) =
    if c == b'-' then ok (neg (digits_from 0 s)) else ok (pos (digits_from 0 (c ∷ s)))

abbrev read : BigNumberish → Result ℤ
read (text s) = read_text s
read (int z) = ok z
read (fraction s) = err numeric_fault
read (big z) = ok z

abbrev quotient : ℤ → ℤ → Result ℤ
quotient a (pos zero) = err numeric_fault
quotient a (pos (suc n)) = ok (signed a (mag a / suc n))
quotient a (negsuc n) = ok (pos 0 -ℤ signed a (mag a / suc n))

abbrev remainder : ℤ → ℤ → Result ℤ
remainder a (negsuc n) = err numeric_fault
remainder a (pos zero) = err numeric_fault
remainder (pos a) (pos (suc n)) = ok (pos (a % suc n))
remainder (negsuc a) (pos (suc n)) = ok (pos (n - a % suc n))

abbrev power : ℤ → ℤ → Result ℤ
power a (negsuc n) = err numeric_fault
power (negsuc a) (pos n) = err numeric_fault
power (pos a) (pos n) = ok (pos (a ^ n))

abbrev pub reference : BigNumber
reference = record {
  from = read;
  add = λ a b. a +ℤ b;
  sub = λ a b. a -ℤ b;
  mul = λ a b. a *ℤ b;
  div = quotient;
  modulo = remainder;
  pow = power;
  abs = λ a. pos (mag a);
  is_negative = is_neg;
  lt = ltb_ℤ;
  lte = leb_ℤ;
  gt = λ a b. ltb_ℤ b a;
  gte = λ a b. leb_ℤ b a;
  eq = λ a b. leb_ℤ a b && leb_ℤ b a;
  is_zero = λ a. mag a == 0;
}

not_minus : (d : ℕ) → IsDigit d → (d == b'-') ≡ false
not_minus d h = ground arith

read_digits :
    (d : ℕ) (ds : List ℕ)
    → All IsDigit (d ∷ ds)
    → read_text (d ∷ ds) ≡ ok (pos (digits_from 0 (d ∷ ds)))
read_digits d ds h = rw (not_minus d h.0)

pub reference-IsDocumented : IsDocumented reference
reference-IsDocumented = record {
  from_big = λ z. refl;
  from_int = λ z h. refl;
  from_digits = read_digits;
  from_minus = λ d ds h. refl;
  add_lem = λ a b. refl;
  sub_lem = λ a b. refl;
  mul_lem = λ a b. refl;
  div_lem = λ a n. refl;
  div_zero = λ a. refl;
  modulo_lem = λ a n. refl;
  pow_lem = λ a n. refl;
  abs_lem = λ a. refl;
  is_negative_lem = λ a. refl;
  lt_lem = λ a b. refl;
  lte_lem = λ a b. refl;
  gt_lem = λ a b. refl;
  gte_lem = λ a b. refl;
  eq_lem = λ a b. refl;
  is_zero_lem = λ a. refl;
}

-- Its remainder of a negative number is not negative.
pub reference-modulo_negative :
    (a n : ℕ) → reference.modulo (negsuc a) (pos (suc n)) ≡ ok (pos (n - a % suc n))
reference-modulo_negative a n = refl
