-- ===== src/Numbers.antt =====
-- common/numbers.ts, and the constants of common/constants.ts that it uses.
-- `shortString` formats by the locale's scientific notation and is left out.
pub mod Decimal
pub mod Grammar
pub mod Scientific
pub mod Quotients
pub mod FixedPoint
mod Tests
use iceth_plugin.Prelude.{
  ℕ, ◌^◌, Bool, true, false, Option, none, some, List, [], ◌∷◌, ℤ, pos, negsuc, sub_ℕ,
  if◌then◌else◌, length,
}
use iceth_plugin.Errors.{Result, ok, err, illegal_decimal_string, ◌>>=◌}
use iceth_plugin.BigNumber.{BigNumber, BigNumberish, text, int, fraction, big}
use iceth_plugin.Numbers.Decimal.{Sign, minus, Groups, match}

pub data RoundingMode : Type 0 where
  floor round ceil : RoundingMode

abbrev pub scale_decimals : ℕ
scale_decimals = 18

abbrev pub bn_scale_factor : ℤ
bn_scale_factor = pos (10 ^ 18)

abbrev sign_factor : Sign → ℤ
sign_factor minus = negsuc 0
sign_factor _ = pos 1

-- the text of the group `frac_part`, whose length is read
abbrev group_length : Option (List ℕ) → ℕ
group_length none = 0
group_length (some digits) = length digits

module _ (B : BigNumber) where
  open B use {
    from, add, sub, mul, div as quot, modulo, pow, abs, is_negative, is_zero, lt, lte, gt, gte, eq,
  }

  unfoldable pub pow10 : ℤ → Result ℤ
  pow10 exponent = do ten ← from (int (pos 10)); pow ten exponent

  -- A group that did not match stands for zero.
  abbrev from_group : Option (List ℕ) → Result ℤ
  from_group none = from (int (pos 0))
  from_group (some digits) = from (text digits)

  -- "zero" the fractional part by shifting it into the integral part
  unfoldable pub shift_fraction : ℤ → ℤ → ℤ → ℤ → ℕ → Result (ℤ × ℤ)
  unfolding pow10
  shift_fraction zero' int_part frac_part exponent shift_digits =
      if eq frac_part zero' then ok (int_part, exponent) else do
        shift ← pow10 (pos shift_digits)
        ok (add (mul int_part shift) frac_part, sub exponent (pos shift_digits))

  -- Shift the integral part left or right as the exponent requires.
  unfoldable pub shift_integer : ℤ → ℤ → ℤ → Result ℤ
  unfolding pow10
  shift_integer zero' int_part exponent =
      if gte exponent zero'
      then (do factor ← pow10 exponent; ok (mul int_part factor))
      else (do factor ← pow10 (abs exponent); quot int_part factor)

  unfoldable pub convert_groups : Groups → ℤ → Result ℤ
  unfolding shift_fraction shift_integer
  convert_groups g scale = do
    zero' ← from (int (pos 0))
    int_part ← from (text g.int_part)
    frac_part ← from_group g.frac_part
    exponent ← from_group g.exponent
    shifted ←
        shift_fraction zero' int_part frac_part (add exponent scale) (group_length g.frac_part)
    positive_output ← shift_integer zero' shifted.0 shifted.1
    ok (mul positive_output (sign_factor g.sign))

  abbrev convert_match : List ℕ → ℤ → Option Groups → Result ℤ
  convert_match s scale none = err (illegal_decimal_string s)
  convert_match s scale (some g) = convert_groups g scale

  unfoldable pub parse_scientific : List ℕ → ℤ → Result ℤ
  unfolding convert_groups
  parse_scientific s scale = convert_match s scale (match s)

  unfoldable pub bn : BigNumberish → Result ℤ
  unfolding parse_scientific
  bn (text s) = parse_scientific s (pos 0)
  bn x = from x

  unfoldable pub fp : BigNumberish → Result ℤ
  unfolding parse_scientific
  fp (text s) = parse_scientific s (pos scale_decimals)
  fp (fraction s) = parse_scientific s (pos scale_decimals)
  fp x = do n ← from x; ok (mul n bn_scale_factor)

  unfoldable pub to_bn_decimals : BigNumberish → ℕ → Result ℤ
  unfolding pow10
  to_bn_decimals x decimals = do
    n ← from x
    factor ← pow10 (sub_ℕ scale_decimals decimals)
    quot n factor

  -- What is added to the dividend's magnitude.
  unfoldable pub rounding_extra : ℤ → RoundingMode → Result ℤ
  rounding_extra y RoundingMode.ceil = ok (sub (abs y) (pos 1))
  rounding_extra y RoundingMode.round = quot (abs y) (pos 2)
  rounding_extra y RoundingMode.floor = from (int (pos 0))

  unfoldable pub div : ℤ → ℤ → RoundingMode → Result ℤ
  unfolding rounding_extra
  div x y rnd = do
    extra ← rounding_extra y rnd
    let toward = if is_negative x then mul extra (negsuc 0) else extra
    quot (add x toward) y

  unfoldable pub div_floor : ℤ → ℤ → Result ℤ
  unfolding div
  div_floor x y = div x y RoundingMode.floor

  unfoldable pub div_ceil : ℤ → ℤ → Result ℤ
  unfolding div
  div_ceil x y = div x y RoundingMode.ceil

  unfoldable pub near : ℤ → ℤ → ℤ → Bool
  near x y z = if lt x y then lte (sub y x) z else lte (sub x y) z

  unfoldable pub fp_floor : ℤ → Result ℤ
  fp_floor x = do
    m ← modulo x bn_scale_factor
    (if is_zero m
        then ok x
        else if is_negative x
        then ok (add (sub x m) bn_scale_factor)
        else ok (sub x m))

  unfoldable pub fp_round : ℤ → Result ℤ
  fp_round x = do
    m ← modulo x bn_scale_factor
    half ← quot bn_scale_factor (pos 2)
    let threshold = if is_negative x then half else sub half (pos 1)
    if gt m threshold then ok (add (sub x m) bn_scale_factor) else ok (sub x m)

  unfoldable pub fp_ceil : ℤ → Result ℤ
  fp_ceil x = do
    m ← modulo x bn_scale_factor
    (if is_zero m
        then ok x
        else if is_negative x
        then ok (sub x m)
        else ok (add (sub x m) bn_scale_factor))
