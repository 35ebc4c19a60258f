-- ===== src/Numbers/FixedPoint.antt =====
-- `fpFloor`, `fpRound` and `fpCeil` of common/numbers.ts against `div` by the scale.
use native.Mathlib.Nat.{add-zero}
use iceth_plugin.Prelude.{
  ◌∙◌, sym, ℕ, suc, ◌+◌, ◌-◌, ◌/◌, ◌%◌, ◌^◌, ◌≡◌, ◌≢◌, ap, ℤ, pos, negsuc, ◌+ℤ◌, ◌-ℤ◌, ◌*ℤ◌, ◌<ℤ◌,
  mag, signed, arith,
}
use iceth_plugin.Errors.{Result, ok, ◌>>=◌}
use iceth_plugin.BigNumber.{BigNumber, IsDocumented}
use iceth_plugin.Numbers.{RoundingMode, bn_scale_factor, div, fp_floor, fp_round, fp_ceil}
use iceth_plugin.Numbers.Quotients.{extra_of, div_eq}

-- The remainder is never negative, of a negative number either.
pub record IsEuclidean (B : BigNumber) : Type 0 where
  pub modulo_negative : (a n : ℕ) → B.modulo (negsuc a) (pos (suc n)) ≡ ok (pos (n - a % suc n))

-- The remainder by the scale.
abbrev remainder : ℤ → ℕ
remainder (pos a) = a % 10 ^ 18
remainder (negsuc a) = 10 ^ 18 - 1 - a % 10 ^ 18

-- The function that rounds a fixed-point number in the mode.
abbrev pub fp_in_mode : BigNumber → RoundingMode → ℤ → Result ℤ
fp_in_mode B RoundingMode.floor = fp_floor B
fp_in_mode B RoundingMode.round = fp_round B
fp_in_mode B RoundingMode.ceil = fp_ceil B

module _ (B : BigNumber) (L : IsDocumented B) (E : IsEuclidean B) where
  modulo_scale : (x : ℤ) → B.modulo x bn_scale_factor ≡ ok (pos (remainder x))
  modulo_scale (pos a) = L.modulo_lem a (10 ^ 18 - 1)
  modulo_scale (negsuc a) = E.modulo_negative a (10 ^ 18 - 1)

  fp_floor_eq : (x : ℤ) → fp_floor B x ≡ ok (signed x (mag x / 10 ^ 18) *ℤ bn_scale_factor)
  unfolding fp_floor ◌*ℤ◌ ◌+ℤ◌ ◌-ℤ◌
  fp_floor_eq (pos a) =
      rw
        (
          modulo_scale (pos a),
          L.is_zero_lem (pos (a % 10 ^ 18)),
          L.is_negative_lem (pos a),
          L.sub_lem (pos a) (pos (a % 10 ^ 18)),
        )
        (ground arith)
  fp_floor_eq (negsuc a) =
      let r = 10 ^ 18 - 1 - a % 10 ^ 18 in
      rw
        (
          modulo_scale (negsuc a),
          L.is_zero_lem (pos r),
          L.is_negative_lem (negsuc a),
          L.sub_lem (negsuc a) (pos r),
          L.add_lem (negsuc a -ℤ pos r) bn_scale_factor,
        )
        (ground arith)

  fp_ceil_eq :
      (x : ℤ) → fp_ceil B x ≡ ok (signed x ((mag x + (10 ^ 18 - 1)) / 10 ^ 18) *ℤ bn_scale_factor)
  unfolding fp_ceil ◌*ℤ◌ ◌+ℤ◌ ◌-ℤ◌
  fp_ceil_eq (pos a) =
      let r = a % 10 ^ 18 in
      rw
        (
          modulo_scale (pos a),
          L.is_zero_lem (pos r),
          L.is_negative_lem (pos a),
          L.sub_lem (pos a) (pos r),
          L.add_lem (pos a -ℤ pos r) bn_scale_factor,
        )
        (ground arith)
  fp_ceil_eq (negsuc a) =
      let r = 10 ^ 18 - 1 - a % 10 ^ 18 in
      rw
        (
          modulo_scale (negsuc a),
          L.is_zero_lem (pos r),
          L.is_negative_lem (negsuc a),
          L.sub_lem (negsuc a) (pos r),
        )
        (ground arith)

  fp_round_eq :
      (x : ℤ) → fp_round B x ≡ ok (signed x ((mag x + 10 ^ 18 / 2) / 10 ^ 18) *ℤ bn_scale_factor)
  unfolding fp_round ◌*ℤ◌ ◌+ℤ◌ ◌-ℤ◌
  fp_round_eq (pos a) =
      let r = a % 10 ^ 18 in
      rw
        (
          modulo_scale (pos a),
          L.div_lem bn_scale_factor 1,
          L.is_negative_lem (pos a),
          L.sub_lem (pos (10 ^ 18 / 2)) (pos 1),
          L.gt_lem (pos r) (pos (10 ^ 18 / 2) -ℤ pos 1),
          L.sub_lem (pos a) (pos r),
          L.add_lem (pos a -ℤ pos r) bn_scale_factor,
        )
        (ground arith)
  fp_round_eq (negsuc a) =
      let r = 10 ^ 18 - 1 - a % 10 ^ 18 in
      rw
        (
          modulo_scale (negsuc a),
          L.div_lem bn_scale_factor 1,
          L.is_negative_lem (negsuc a),
          L.gt_lem (pos r) (pos (10 ^ 18 / 2)),
          L.sub_lem (negsuc a) (pos r),
          L.add_lem (negsuc a -ℤ pos r) bn_scale_factor,
        )
        (ground arith)

  fp_in_mode_eq :
      (rnd : RoundingMode) (x : ℤ)
      → fp_in_mode B rnd x
        ≡ ok (signed x ((mag x + extra_of rnd (10 ^ 18)) / 10 ^ 18) *ℤ bn_scale_factor)
  fp_in_mode_eq RoundingMode.floor x =
      fp_floor_eq x
      ∙ ap (λ m. ok (signed x (m / 10 ^ 18) *ℤ bn_scale_factor)) (sym (add-zero (mag x)))
  fp_in_mode_eq RoundingMode.round x = fp_round_eq x
  fp_in_mode_eq RoundingMode.ceil x = fp_ceil_eq x

  -- If the BigNumber package is as documented and its remainder is never negative, then fpFloor,
  -- fpRound and fpCeil of any number are the multiple of the scale that div by the scale in the
  -- same mode gives.
  pub fp_in_mode-eq-div :
      (rnd : RoundingMode) (x : ℤ)
      → fp_in_mode B rnd x ≡ (div B x bn_scale_factor rnd >>= λ q. ok (B.mul q bn_scale_factor))
  fp_in_mode-eq-div rnd x =
      let q = (mag x + extra_of rnd (10 ^ 18)) / 10 ^ 18 in
      rw (div_eq B L x (10 ^ 18 - 1) rnd, L.mul_lem (signed x q) bn_scale_factor)
        (fp_in_mode_eq rnd x)

  -- If the BigNumber package is as documented and its remainder is never negative, then fpFloor of
  -- a negative number that is no multiple of the scale is greater than the number.
  pub fp_floor_negative :
      (a : ℕ) → suc a % 10 ^ 18 ≢ 0 → (r : ℤ) × (fp_floor B (negsuc a) ≡ ok r) × (negsuc a <ℤ r)
  unfolding ◌*ℤ◌
  fp_floor_negative a h =
      (signed (negsuc a) (suc a / 10 ^ 18) *ℤ bn_scale_factor, fp_floor_eq (negsuc a), ground arith)
