-- ===== src/Numbers/Tests.antt =====
-- Runs of common/numbers.ts on concrete numbers, and the theorems at concrete inputs.
use iceth_plugin.Prelude.{
  ℕ, ◌≡◌, ◌≤◌, refl, true, ◌↔◌, some, ℤ, pos, negsuc, signed, inl, ◌<ℤ◌, ◌*ℤ◌, ◌+ℤ◌, ◌-ℤ◌, codes,
  arith,
}
use iceth_plugin.Errors.{ok, err, illegal_decimal_string, ◌>>=◌}
use iceth_plugin.BigNumber.{text}
use iceth_plugin.BigNumber.Reference.{reference, reference-IsDocumented, reference-modulo_negative}
use iceth_plugin.Numbers.{
  RoundingMode, bn_scale_factor, bn, fp, to_bn_decimals, div, near, fp_floor, fp_round, fp_ceil,
}
use iceth_plugin.Numbers.Decimal.{minus, Groups, match}
use iceth_plugin.Numbers.Grammar.{IsGroups, render, match-render, render-match}
use iceth_plugin.Numbers.Scientific.{decimal_value, bn-fp-render, accepted-IsGroups}
use iceth_plugin.Numbers.Quotients.{IsRounded, dist, div-IsRounded, near_iff}
use iceth_plugin.Numbers.FixedPoint.{IsEuclidean, fp_in_mode-eq-div, fp_floor_negative}

run : Unit {0}
unfolding bn fp to_bn_decimals div near fp_floor fp_round fp_ceil match ◌*ℤ◌ ◌+ℤ◌ ◌-ℤ◌
run = tt

parse_tests :
    (bn reference (text (codes "1.4e2")) ≡ ok (pos 140))
    × (bn reference (text (codes "-2")) ≡ ok (negsuc 1))
    × (fp reference (text (codes "0.5")) ≡ ok (pos 500000000000000000))
    × (bn reference (text (codes "0.127e2")) ≡ ok (pos 12))
    × (fp reference (text (codes "1e6")) ≡ ok (pos 1000000000000000000000000))
    × (bn reference (text (codes ".5")) ≡ err (illegal_decimal_string (codes ".5")))
unfolding run
parse_tests = (refl, refl, refl, refl, refl, refl)

rounding_tests :
    (div reference (pos 7) (pos 2) RoundingMode.ceil ≡ ok (pos 4))
    × (div reference (negsuc 6) (pos 2) RoundingMode.round ≡ ok (negsuc 3))
    × (near reference (pos 3) (pos 5) (pos 2) ≡ true)
    × (fp_round reference (pos 500000000000000000) ≡ ok bn_scale_factor)
unfolding run
rounding_tests = (refl, refl, refl, refl)

-- -12.50e-1
abbrev twelve : Groups
twelve = record {
  sign = minus;
  int_part = codes "12";
  frac_part = some (codes "50");
  exponent = some (codes "-1");
}

twelve-IsGroups : IsGroups twelve
twelve-IsGroups = record {
  int_part = omega arith;
  frac_part = omega arith;
  exponent = (minus, codes "1", refl, omega arith);
}

match-render_example : match (render twelve) ≡ some twelve
match-render_example = match-render twelve twelve-IsGroups

render-match_example : (render twelve ≡ codes "-12.50e-1") × IsGroups twelve
unfolding match
render-match_example = render-match (codes "-12.50e-1") twelve refl

bn-fp-render_example :
    (bn reference (text (render twelve)) ≡ ok (decimal_value twelve (pos 0)))
    × (fp reference (text (render twelve)) ≡ ok (decimal_value twelve (pos 18)))
bn-fp-render_example =
    bn-fp-render reference reference-IsDocumented twelve twelve-IsGroups (omega arith)

accepted-IsGroups_example : (g : Groups) × (render g ≡ codes "1.4e2") × IsGroups g
accepted-IsGroups_example =
    accepted-IsGroups reference reference-IsDocumented (codes "1.4e2") (pos 140) (inl parse_tests.0)

div-IsRounded_example :
    (q : ℕ) × (div reference (negsuc 6) (pos 2) RoundingMode.ceil ≡ ok (signed (negsuc 6) q))
    × IsRounded RoundingMode.ceil 7 2 q
div-IsRounded_example =
    div-IsRounded reference reference-IsDocumented (negsuc 6) 2 RoundingMode.ceil (omega arith)

near_iff_example : (near reference (pos 3) (pos 5) (pos 2) ≡ true) ↔ (dist (pos 3) (pos 5) ≤ 2)
near_iff_example = near_iff reference reference-IsDocumented (pos 3) (pos 5) 2

reference-IsEuclidean : IsEuclidean reference
reference-IsEuclidean = record { modulo_negative = reference-modulo_negative }

fp_in_mode-eq-div_example : fp_ceil reference (negsuc 4) ≡ (
    div reference (negsuc 4) bn_scale_factor RoundingMode.ceil >>= λ q.
    ok (reference.mul q bn_scale_factor))
fp_in_mode-eq-div_example =
    fp_in_mode-eq-div reference reference-IsDocumented reference-IsEuclidean RoundingMode.ceil
      (negsuc 4)

fp_floor_negative_example : (r : ℤ) × (fp_floor reference (negsuc 4) ≡ ok r) × (negsuc 4 <ℤ r)
fp_floor_negative_example =
    fp_floor_negative reference reference-IsDocumented reference-IsEuclidean 4 (omega arith)
