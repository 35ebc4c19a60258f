-- ===== src/Numbers/Quotients.antt =====
-- What `div` and `near` of common/numbers.ts compute.
use native.Mathlib.Nat.{suc-add}
use iceth_plugin.Prelude.{
  ap, ◌∙◌, ℕ, zero, suc, ◌+◌, ◌-◌, ◌*◌, ◌/◌, ◌≤◌, ◌<◌, ◌≡◌, refl, true, ◌↔◌, ℤ, pos, negsuc, ◌+ℤ◌,
  ◌-ℤ◌, ◌*ℤ◌, mag, signed, neg, is_neg, arith, if◌then◌else◌,
}
use iceth_plugin.Errors.{ok}
use iceth_plugin.BigNumber.{BigNumber, IsDocumented}
use iceth_plugin.Numbers.{RoundingMode, rounding_extra, div, near}

-- What is added to the magnitude before the truncating division.
abbrev pub extra_of : RoundingMode → ℕ → ℕ
extra_of RoundingMode.floor n = 0
extra_of RoundingMode.round n = n / 2
extra_of RoundingMode.ceil n = n - 1

-- `q` is `m / n` rounded in the mode, a half rounded up; the numbers are magnitudes.
abbrev pub IsRounded : RoundingMode → ℕ → ℕ → ℕ → Type 0
IsRounded RoundingMode.floor m n q = (q * n ≤ m) × (m < (q + 1) * n)
IsRounded RoundingMode.round m n q = (2 * q * n ≤ 2 * m + n) × (2 * m < 2 * q * n + n)
IsRounded RoundingMode.ceil m n q = (m ≤ q * n) × (q * n < m + n)

-- |x - y|
abbrev pub dist : ℤ → ℤ → ℕ
dist x y = mag (x -ℤ y)

toward_sum :
    (x : ℤ) (e : ℕ) → x +ℤ (if is_neg x then pos e *ℤ negsuc 0 else pos e) ≡ signed x (mag x + e)
unfolding ◌+ℤ◌ ◌*ℤ◌
toward_sum (pos n) e = ground arith
toward_sum (negsuc n) e = ground arith

signed_suc : (x : ℤ) (e q : ℕ) → signed (signed x (mag x + e)) q ≡ signed x q
signed_suc (pos m) e q = refl
signed_suc (negsuc m) e q = ap (λ k. signed (neg k) q) (suc-add m e)

mag-signed : (x : ℤ) (n : ℕ) → mag (signed x n) ≡ n
mag-signed (pos m) n = omega arith
mag-signed (negsuc m) zero = refl
mag-signed (negsuc m) (suc n) = omega arith

div_rounds :
    (rnd : RoundingMode) (m n : ℕ) → IsRounded rnd m (suc n) ((m + extra_of rnd (suc n)) / suc n)
div_rounds RoundingMode.floor m n = grind arith
div_rounds RoundingMode.round m n = grind arith
div_rounds RoundingMode.ceil m n = grind arith

module _ (B : BigNumber) (L : IsDocumented B) where
  rounding_extra_lem :
      (n : ℕ) (rnd : RoundingMode)
      → rounding_extra B (pos (suc n)) rnd ≡ ok (pos (extra_of rnd (suc n)))
  unfolding rounding_extra ◌-ℤ◌
  rounding_extra_lem n RoundingMode.floor = L.from_int (pos 0) (omega arith)
  rounding_extra_lem n RoundingMode.round =
      ap (λ a. B.div a (pos 2)) (L.abs_lem (pos (suc n))) ∙ L.div_lem (pos (suc n)) 1
  rounding_extra_lem n RoundingMode.ceil =
      rw (L.abs_lem (pos (suc n)), L.sub_lem (pos (suc n)) (pos 1)) (ground arith)

  -- The sum that is divided keeps the sign of `x`.
  pub div_eq :
      (x : ℤ) (n : ℕ) (rnd : RoundingMode)
      → div B x (pos (suc n)) rnd ≡ ok (signed x ((mag x + extra_of rnd (suc n)) / suc n))
  unfolding div
  div_eq x n rnd =
      let e = extra_of rnd (suc n) in
      rw (
        rounding_extra_lem n rnd,
        L.is_negative_lem x,
        L.mul_lem (pos e) (negsuc 0),
        L.add_lem x (if is_neg x then pos e *ℤ negsuc 0 else pos e),
        toward_sum x e,
        L.div_lem (signed x (mag x + e)) n,
        signed_suc x e,
        mag-signed x (mag x + e),
      )

  -- If the BigNumber package is as documented and y is positive, then div x y rnd is the integer
  -- with the sign of x whose magnitude is |x| / y rounded in the mode: down, to the nearest with a
  -- half up, or up.
  pub div-IsRounded :
      (x : ℤ) (y : ℕ) (rnd : RoundingMode)
      → 0 < y
      → (q : ℕ) × (div B x (pos y) rnd ≡ ok (signed x q)) × IsRounded rnd (mag x) y q
  div-IsRounded x zero rnd h = elim h [ ]
  div-IsRounded x (suc n) rnd h =
      ((mag x + extra_of rnd (suc n)) / suc n, div_eq x n rnd, div_rounds rnd (mag x) n)

  -- If the BigNumber package is as documented, then near x y z is true for a natural z exactly if
  -- |x - y| is at most z, the bound included.
  pub near_iff : (x y : ℤ) (z : ℕ) → (near B x y (pos z) ≡ true) ↔ (dist x y ≤ z)
  unfolding near ◌-ℤ◌
  near_iff x y z =
      rw
        (
          L.lt_lem x y,
          L.sub_lem y x,
          L.sub_lem x y,
          L.lte_lem (y -ℤ x) (pos z),
          L.lte_lem (x -ℤ y) (pos z),
        )
        (ground arith)
