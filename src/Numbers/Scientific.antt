-- ===== src/Numbers/Scientific.antt =====
-- The value that `_parseScientific`, `bn` and `fp` of common/numbers.ts give to a text.
use native.Mathlib.Nat.{add-zero, pow-suc, mul-div-mul_right, one-le-pow}
use iceth_plugin.Prelude.{
  ℕ, zero, suc, ◌+◌, ◌-◌, ◌*◌, ◌/◌, ◌^◌, ◌≡◌, ◌≢◌, refl, ap, sym, ◌∙◌, ◌⊎◌, inl, inr, false, Option,
  none, some, List, [], ◌∷◌, ◌++◌, length, ℤ, pos, negsuc, ◌+ℤ◌, ◌-ℤ◌, ◌*ℤ◌, neg, ◌==◌, leb_ℤ, ◌&&◌,
  ap₂, eq_of_parts, -ℤ_parts, if◌then◌else◌, arith,
}
use iceth_plugin.Errors.{Result, ok, ◌>>=◌}
use iceth_plugin.BigNumber.{BigNumber, IsDocumented, div_of_pos, text, digits_from, IsDigit}
use iceth_plugin.Numbers.{
  pow10, from_group, group_length, shift_fraction, shift_integer, convert_groups, convert_match,
  parse_scientific, sign_factor, bn, fp,
}
use iceth_plugin.Numbers.Decimal.{Sign, minus, plus, unsigned, Groups, match}
use iceth_plugin.Numbers.Grammar.{
  IsGroups, IsNumber, IsExponent, Optionally, render, match-render, render-match,
}

-- m * 10 ^ e, its fractional digits cut off.
abbrev pub scaled : ℕ → ℤ → ℕ
scaled m (pos k) = m * 10 ^ k
scaled m (negsuc k) = m / 10 ^ suc k

pred_pos : (k : ℕ) → pos (suc k) -ℤ pos 1 ≡ pos k
unfolding ◌-ℤ◌
pred_pos k = ground arith

pred_negsuc : (k : ℕ) → negsuc k -ℤ pos 1 ≡ negsuc (suc k)
unfolding ◌-ℤ◌
pred_negsuc k = ground arith

scaled_step : (m : ℕ) (e : ℤ) → scaled (m * 10) (e -ℤ pos 1) ≡ scaled m e
unfolding ◌-ℤ◌
scaled_step m (pos zero) = ground arith
scaled_step m (pos (suc k)) = rw (pred_pos k) (rw (pow-suc 10 k) (omega arith))
scaled_step m (negsuc k) =
    rw (pred_negsuc k)
      (rw (pow-suc 10 (suc k)) (mul-div-mul_right {m = 10} m (10 ^ suc k) (omega arith)))

-- Moving the point by `f` places.
scaled_shift : (f m : ℕ) (e : ℤ) → scaled (m * 10 ^ f) (e -ℤ pos f) ≡ scaled m e
scaled_shift zero m e =
    ap₂ scaled (omega arith) (eq_of_parts _ _ (omega (arith, -ℤ_parts e (pos 0))))
scaled_shift (suc f) m e =
    ap₂ scaled (rw (pow-suc 10 f) (omega arith)) (
      eq_of_parts _ _ (
        omega (arith, -ℤ_parts e (pos (suc f)), -ℤ_parts e (pos f), -ℤ_parts (e -ℤ pos f) (pos 1))))
    ∙ (scaled_step (m * 10 ^ f) (e -ℤ pos f) ∙ scaled_shift f m e)

digits_from_acc :
    (acc : ℕ) (ds : List ℕ) → digits_from acc ds ≡ acc * 10 ^ length ds + digits_from 0 ds
digits_from_acc acc [] = omega arith
digits_from_acc acc (d ∷ ds) = rw (pow-suc 10 (length ds)) (
    omega
      (arith, digits_from_acc (acc * 10 + (d - b'0')) ds, digits_from_acc (0 * 10 + (d - b'0')) ds))

digits_from-append :
    (acc : ℕ) (xs ys : List ℕ) → digits_from acc (xs ++ ys) ≡ digits_from (digits_from acc xs) ys
digits_from-append acc [] ys = refl
digits_from-append acc (x ∷ xs) ys = digits_from-append (acc * 10 + (x - b'0')) xs ys

not_nonneg : (k : ℕ) → leb_ℤ (pos 0) (negsuc k) ≡ false
not_nonneg k = ground arith

not_zero : (k : ℕ) → (leb_ℤ (pos (suc k)) (pos 0) && leb_ℤ (pos 0) (pos (suc k))) ≡ false
not_zero k = ground arith

-- The digits behind the point.
abbrev pub digits_of : Option (List ℕ) → List ℕ
digits_of none = []
digits_of (some ds) = ds

-- The exponent is not written with a plus sign.
abbrev pub HasNoPlus : Option (List ℕ) → Type 0
HasNoPlus none = Unit
HasNoPlus (some []) = Unit
HasNoPlus (some (c ∷ t)) = c ≢ b'+'

abbrev pub exponent_value : Option (List ℕ) → ℤ
exponent_value none = pos 0
exponent_value (some []) = pos 0
exponent_value (some (c ∷ t)) =
    if c == b'-' then neg (digits_from 0 t) else pos (digits_from 0 (c ∷ t))

abbrev pub with_sign : Sign → ℕ → ℤ
with_sign minus m = neg m
with_sign _ m = pos m

-- The digits on both sides of the point are one number, with its point moved by the exponent and
-- the scale.
unfoldable pub decimal_value : Groups → ℤ → ℤ
decimal_value g scale =
    let f = digits_of g.frac_part in
    with_sign g.sign (
      scaled (digits_from 0 (g.int_part ++ f))
        (exponent_value g.exponent +ℤ scale -ℤ pos (length f)))

numerator_lem :
    (g : Groups)
    → digits_from 0 g.int_part * 10 ^ length (digits_of g.frac_part)
        + digits_from 0 (digits_of g.frac_part)
      ≡ digits_from 0 (g.int_part ++ digits_of g.frac_part)
numerator_lem g = sym (
    digits_from-append 0 g.int_part (digits_of g.frac_part)
    ∙ digits_from_acc (digits_from 0 g.int_part) (digits_of g.frac_part))

group_length_lem : (o : Option (List ℕ)) → group_length o ≡ length (digits_of o)
group_length_lem none = refl
group_length_lem (some ds) = refl

not_minus : (d : ℕ) → IsDigit d → (d == b'-') ≡ false
not_minus d h = ground arith

times_minus : (m : ℕ) → pos m *ℤ negsuc 0 ≡ neg m
unfolding ◌*ℤ◌
times_minus zero = ground arith
times_minus (suc m) = ground arith

module _ (B : BigNumber) (L : IsDocumented B) where
  pow10_lem : (k : ℕ) → pow10 B (pos k) ≡ ok (pos (10 ^ k))
  unfolding pow10
  pow10_lem k = rw (L.from_int (pos 10) (omega arith)) (L.pow_lem 10 k)

  shift_integer_lem : (m : ℕ) (e : ℤ) → shift_integer B (pos 0) (pos m) e ≡ ok (pos (scaled m e))
  unfolding shift_integer ◌*ℤ◌
  shift_integer_lem m (pos k) =
      rw (L.gte_lem (pos k) (pos 0), pow10_lem k, L.mul_lem (pos m) (pos (10 ^ k))) (ground arith)
  shift_integer_lem m (negsuc k) = rw (
    L.gte_lem (negsuc k) (pos 0),
    not_nonneg k,
    L.abs_lem (negsuc k),
    pow10_lem (suc k),
    div_of_pos L (pos m) (10 ^ suc k) (one-le-pow (suc k) 10 (omega arith)),
  )

  from_number : (ds : List ℕ) → IsNumber ds → B.from (text ds) ≡ ok (pos (digits_from 0 ds))
  from_number [] h = absurd h
  from_number (d ∷ ds) h = L.from_digits d ds h

  from_fraction :
      (f : Option (List ℕ))
      → Optionally IsNumber f
      → from_group B f ≡ ok (pos (digits_from 0 (digits_of f)))
  from_fraction none h = L.from_int (pos 0) (omega arith)
  from_fraction (some ds) h = from_number ds h

  shift_fraction_zero :
      (i : ℕ) (e : ℤ) (f : ℕ) → shift_fraction B (pos 0) (pos i) (pos 0) e f ≡ ok (pos i, e)
  unfolding shift_fraction
  shift_fraction_zero i e f = rw (L.eq_lem (pos 0) (pos 0))

  shift_fraction-suc :
      (i k : ℕ) (e : ℤ) (f : ℕ)
      → shift_fraction B (pos 0) (pos i) (pos (suc k)) e f
        ≡ ok (pos (i * 10 ^ f + suc k), e -ℤ pos f)
  unfolding shift_fraction ◌*ℤ◌ ◌+ℤ◌
  shift_fraction-suc i k e f =
      rw
        (
          L.eq_lem (pos (suc k)) (pos 0),
          not_zero k,
          pow10_lem f,
          L.mul_lem (pos i) (pos (10 ^ f)),
          L.add_lem (pos i *ℤ pos (10 ^ f)) (pos (suc k)),
          L.sub_lem e (pos f),
        )
        (ground arith)

  -- The two steps that shift the groups hand on the digits of both parts, scaled.
  shifts_lem :
      (i k : ℕ) (e : ℤ) (f : ℕ) (rest : ℤ → Result ℤ)
      → (shift_fraction B (pos 0) (pos i) (pos k) e f >>= λ shifted.
          shift_integer B (pos 0) shifted.0 shifted.1 >>= rest)
        ≡ rest (pos (scaled (i * 10 ^ f + k) (e -ℤ pos f)))
  shifts_lem i zero e f rest =
      rw (shift_fraction_zero i e f, shift_integer_lem i e)
        (ap (λ x. rest (pos x))
          (sym (scaled_shift f i e)
            ∙ ap (λ x. scaled x (e -ℤ pos f)) (sym (add-zero (i * 10 ^ f)))))
  shifts_lem i (suc k) e f rest =
      rw (shift_fraction-suc i k e f, shift_integer_lem (i * 10 ^ f + suc k) (e -ℤ pos f))

  from_exponent :
      (o : Option (List ℕ))
      → Optionally IsExponent o
      → HasNoPlus o
      → from_group B o ≡ ok (exponent_value o)
  from_exponent none h k = L.from_int (pos 0) (omega arith)
  from_exponent (some t) (sign, [], e, n) k = absurd n
  from_exponent (some t) (unsigned, d ∷ ds, e, n) k = rw (e, not_minus d n.0) (L.from_digits d ds n)
  from_exponent (some t) (plus, d ∷ ds, e, n) k = absurd ((rw e at k) refl)
  from_exponent (some t) (minus, d ∷ ds, e, n) k = rw e (L.from_minus d ds n)

  sign_lem : (sign : Sign) (m : ℕ) → B.mul (pos m) (sign_factor sign) ≡ with_sign sign m
  unfolding ◌*ℤ◌
  sign_lem unsigned m = rw (L.mul_lem (pos m) (pos 1)) (ground arith)
  sign_lem plus m = rw (L.mul_lem (pos m) (pos 1)) (ground arith)
  sign_lem minus m = rw (L.mul_lem (pos m) (negsuc 0)) (times_minus m)

  convert_groups_lem :
      (g : Groups) (scale : ℤ)
      → IsGroups g
      → HasNoPlus g.exponent
      → convert_groups B g scale ≡ ok (decimal_value g scale)
  unfolding convert_groups decimal_value
  convert_groups_lem g scale h k =
      let f = digits_of g.frac_part in
      rw
        (
          L.from_int (pos 0) (omega arith),
          from_number g.int_part h.int_part,
          from_fraction g.frac_part h.frac_part,
          from_exponent g.exponent h.exponent k,
          L.add_lem (exponent_value g.exponent) scale,
          group_length_lem g.frac_part,
        )
        (shifts_lem (digits_from 0 g.int_part) (digits_from 0 f)
            (exponent_value g.exponent +ℤ scale) (length f) (λ x. ok (B.mul x (sign_factor g.sign)))
          ∙ ap ok (
              sign_lem g.sign _
              ∙ ap
                  (λ x.
                    with_sign g.sign
                      (scaled x (exponent_value g.exponent +ℤ scale -ℤ pos (length f))))
                  (numerator_lem g)))

  -- `_parseScientific` of a well-formed text (without a plus sign before the exponent) is the value
  -- that the text denotes times 10 to the scale, its fractional digits cut off.
  pub parse_scientific-render :
      (g : Groups) (scale : ℤ)
      → IsGroups g
      → HasNoPlus g.exponent
      → parse_scientific B (render g) scale ≡ ok (decimal_value g scale)
  unfolding parse_scientific
  parse_scientific-render g scale h k =
      ap (convert_match B (render g) scale) (match-render g h) ∙ convert_groups_lem g scale h k

  -- If the BigNumber package is as documented, then for groups of the grammar whose exponent has no
  -- plus sign, bn of their text is the value that the text denotes with its fractional digits cut
  -- off, and fp is the value times 10^18 cut off in the same way.
  pub bn-fp-render :
      (g : Groups)
      → IsGroups g
      → HasNoPlus g.exponent
      → (bn B (text (render g)) ≡ ok (decimal_value g (pos 0)))
        × (fp B (text (render g)) ≡ ok (decimal_value g (pos 18)))
  unfolding bn fp
  bn-fp-render g h k =
      (parse_scientific-render g (pos 0) h k, parse_scientific-render g (pos 18) h k)

  convert_match-eq-ok :
      (s : List ℕ) (scale v : ℤ) (o : Option Groups)
      → convert_match B s scale o ≡ ok v
      → (g : Groups) × (o ≡ some g)
  convert_match-eq-ok s scale v none h = cc
  convert_match-eq-ok s scale v (some g) h = (g, refl)

  -- If the BigNumber package is as documented and bn or fp returns a number for a text, then the
  -- text is one of the grammar: an optional sign, digits, and optionally a fraction and an
  -- exponent.
  pub accepted-IsGroups :
      (s : List ℕ) (v : ℤ)
      → (bn B (text s) ≡ ok v) ⊎ (fp B (text s) ≡ ok v)
      → (g : Groups) × (render g ≡ s) × IsGroups g
  unfolding bn fp parse_scientific
  accepted-IsGroups s v (inl h) =
      let (g, e) = convert_match-eq-ok s (pos 0) v (match s) h in
      (g, (render-match s g e).0, (render-match s g e).1)
  accepted-IsGroups s v (inr h) =
      let (g, e) = convert_match-eq-ok s (pos 18) v (match s) h in
      (g, (render-match s g e).0, (render-match s g e).1)
