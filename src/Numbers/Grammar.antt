-- ===== src/Numbers/Grammar.antt =====
-- The texts that `_parseScientific` of common/numbers.ts accepts, and how they split into groups.
use iceth_plugin.Prelude.{
  Bool-cases, ==→eq, inl, inr, ℕ, ◌≡◌, refl, ap, sym, ◌∙◌, true, false, Option, none, some, List,
  [], ◌∷◌, ◌++◌, ◌==◌, All, append-nil, arith,
}
use iceth_plugin.BigNumber.{IsDigit}
use iceth_plugin.Numbers.Decimal.{
  Sign, unsigned, plus, minus, Groups, is_digit, take_sign, take_digits, take_fraction,
  take_exponent, sign_text, fraction_of, exponent_of, signed_digits, at_end, match_exponent,
  match_fraction, match_digits, match_signed, match,
}

-- \d+
abbrev pub IsNumber : List ℕ → Type 0
IsNumber [] = ⊥
IsNumber (d ∷ ds) = IsDigit d × All IsDigit ds

-- [+-]?\d+
abbrev pub IsExponent : List ℕ → Type 0
IsExponent t = (sign : Sign) × (ds : List ℕ) × (t ≡ sign_text sign ds) × IsNumber ds

abbrev pub Optionally {ℓ} : (List ℕ → Type ℓ) → Option (List ℕ) → Type ℓ
Optionally P none = Unit
Optionally P (some t) = P t

pub record IsGroups (g : Groups) : Type 0 where
  pub int_part : IsNumber g.int_part
  pub frac_part : Optionally IsNumber g.frac_part
  pub exponent : Optionally IsExponent g.exponent

abbrev pub fraction_text : Option (List ℕ) → List ℕ
fraction_text none = []
fraction_text (some ds) = b'.' ∷ ds

abbrev pub exponent_text : Option (List ℕ) → List ℕ
exponent_text none = []
exponent_text (some t) = b'e' ∷ t

-- The text that the groups were cut from.
unfoldable pub render : Groups → List ℕ
render g = sign_text g.sign (g.int_part ++ (fraction_text g.frac_part ++ exponent_text g.exponent))

abbrev NoDigit : List ℕ → Type 0
NoDigit [] = Unit
NoDigit (c ∷ s) = is_digit c ≡ false

is_digit_iff : (c : ℕ) → IsDigit c → is_digit c ≡ true
is_digit_iff c h = ground arith

take_digits-append : (ds s : List ℕ) → All IsDigit ds → NoDigit s → take_digits (ds ++ s) ≡ (ds, s)
take_digits-append [] [] h k = refl
take_digits-append [] (c ∷ s) h k = rw k
take_digits-append (d ∷ ds) s h k = rw (is_digit_iff d h.0, take_digits-append ds s h.1 k)

take_digits_sound :
    (s : List ℕ) → ((take_digits s).0 ++ (take_digits s).1 ≡ s) × All IsDigit (take_digits s).0
take_digits_sound [] = (refl, tt)
take_digits_sound (c ∷ s) = ground (arith, take_digits_sound s)

exponent_text-NoDigit : (o : Option (List ℕ)) → NoDigit (exponent_text o)
exponent_text-NoDigit none = tt
exponent_text-NoDigit (some t) = refl

fraction_text-NoDigit : (f o : Option (List ℕ)) → NoDigit (fraction_text f ++ exponent_text o)
fraction_text-NoDigit none o = exponent_text-NoDigit o
fraction_text-NoDigit (some t) o = refl

take_fraction-text :
    (f o : Option (List ℕ))
    → Optionally IsNumber f
    → take_fraction (fraction_text f ++ exponent_text o) ≡ (f, exponent_text o)
take_fraction-text none none h = refl
take_fraction-text none (some t) h = refl
take_fraction-text (some []) o h = absurd h
take_fraction-text (some (d ∷ ds)) o h =
    ap (fraction_of (b'.' ∷ d ∷ ds ++ exponent_text o))
      (take_digits-append (d ∷ ds) (exponent_text o) h (exponent_text-NoDigit o))

take_sign-text :
    (sign : Sign) (ds s : List ℕ)
    → IsNumber ds
    → take_sign (sign_text sign (ds ++ s)) ≡ (sign, ds ++ s)
take_sign-text unsigned [] s h = absurd h
take_sign-text unsigned (d ∷ ds) s h = ground arith
take_sign-text plus ds s h = refl
take_sign-text minus ds s h = refl

take_exponent-text :
    (o : Option (List ℕ)) → Optionally IsExponent o → take_exponent (exponent_text o) ≡ (o, [])
take_exponent-text none h = refl
take_exponent-text (some t) (sign, [], e, n) = absurd n
take_exponent-text (some t) (sign, d ∷ ds, e, n) =
    rw (e ∙ ap (sign_text sign) (sym (append-nil (d ∷ ds)))) (
      ap (signed_digits (b'e' ∷ sign_text sign ((d ∷ ds) ++ [])))
        (take_sign-text sign (d ∷ ds) [] n)
      ∙ (ap (exponent_of (b'e' ∷ sign_text sign ((d ∷ ds) ++ [])) sign)
            (take_digits-append (d ∷ ds) [] n tt)
          ∙ ap (λ x. (some (sign_text sign x), [])) (sym (append-nil (d ∷ ds)))))

take_fraction_sound :
    (s : List ℕ)
    → (fraction_text (take_fraction s).0 ++ (take_fraction s).1 ≡ s)
      × Optionally IsNumber (take_fraction s).0
take_fraction_sound [] = (refl, tt)
take_fraction_sound (c ∷ s) = ground (arith, take_digits_sound s)

take_sign_sound : (s : List ℕ) → sign_text (take_sign s).0 (take_sign s).1 ≡ s
take_sign_sound [] = refl
take_sign_sound (c ∷ s) = ground arith

sign_text-append : (sign : Sign) (ds s : List ℕ) → sign_text sign ds ++ s ≡ sign_text sign (ds ++ s)
sign_text-append unsigned ds s = refl
sign_text-append plus ds s = refl
sign_text-append minus ds s = refl

exponent_of_sound :
    (sign : Sign) (s t : List ℕ) (p : List ℕ × List ℕ)
    → p.0 ++ p.1 ≡ t
    → All IsDigit p.0
    → sign_text sign t ≡ s
    → (exponent_text (exponent_of (b'e' ∷ s) sign p).0 ++ (exponent_of (b'e' ∷ s) sign p).1
        ≡ b'e' ∷ s)
      × Optionally IsExponent (exponent_of (b'e' ∷ s) sign p).0
exponent_of_sound sign s t ([], rest) e h k = (refl, tt)
exponent_of_sound sign s t (d ∷ ds, rest) e h k = (
  ap (λ x. b'e' ∷ x) (sign_text-append sign (d ∷ ds) rest ∙ ap (sign_text sign) e ∙ k),
  (sign, d ∷ ds, refl, h),
)

take_exponent_sound :
    (s : List ℕ)
    → (exponent_text (take_exponent s).0 ++ (take_exponent s).1 ≡ s)
      × Optionally IsExponent (take_exponent s).0
take_exponent_sound [] = (refl, tt)
take_exponent_sound (c ∷ s) = elim (Bool-cases (c == b'e')) [
  | inl yes' ↦ rw (==→eq c b'e' yes') (
      exponent_of_sound (take_sign s).0 s (take_sign s).1 (take_digits (take_sign s).1)
        (take_digits_sound (take_sign s).1).0 (take_digits_sound (take_sign s).1).1
        (take_sign_sound s))
  | inr other ↦ rw other (refl, tt)
]

match_parts :
    (sign : Sign) (ds : List ℕ) (f o : Option (List ℕ))
    → IsNumber ds
    → Optionally IsNumber f
    → Optionally IsExponent o
    → match (sign_text sign (ds ++ (fraction_text f ++ exponent_text o)))
      ≡ some (record { sign = sign; int_part = ds; frac_part = f; exponent = o })
unfolding match
match_parts sign [] f o h k l = absurd h
match_parts sign (d ∷ ds) f o h k l =
    let rest = fraction_text f ++ exponent_text o in
    ap match_signed (take_sign-text sign (d ∷ ds) rest h)
    ∙ (ap (match_digits sign) (take_digits-append (d ∷ ds) rest h (fraction_text-NoDigit f o))
        ∙ (ap (match_fraction sign (d ∷ ds)) (take_fraction-text f o k)
            ∙ ap (match_exponent sign (d ∷ ds) f) (take_exponent-text o l)))

-- The text of well-formed groups is matched, and gives back the same groups.
pub match-render : (g : Groups) → IsGroups g → match (render g) ≡ some g
unfolding render
match-render g h =
    match_parts g.sign g.int_part g.frac_part g.exponent h.int_part h.frac_part h.exponent

at_end-eq-some :
    (g' : Groups) (u : List ℕ) (g : Groups) → at_end g' u ≡ some g → (u ≡ []) × (g' ≡ g)
at_end-eq-some g' [] g h = (refl, cc)
at_end-eq-some g' (_ ∷ _) g h = cc

match_digits-eq-some :
    (sign : Sign) (p : List ℕ × List ℕ) (g : Groups)
    → match_digits sign p ≡ some g
    → All IsDigit p.0
    → (sign_text sign (p.0 ++ p.1) ≡ render g) × IsGroups g
unfolding render
match_digits-eq-some sign ([], s) g h k = cc
match_digits-eq-some sign (d ∷ ds, s) g h k =
    let (e, f) = take_fraction_sound s in
    let t = (take_fraction s).1 in
    let (e', f') = take_exponent_sound t in
    let (empty, same) = at_end-eq-some _ (take_exponent t).1 g h in
    rw (← same) (
      ap (λ x. sign_text sign ((d ∷ ds) ++ x))
          (sym e
            ∙ ap (λ x. fraction_text (take_fraction s).0 ++ x)
                (sym e' ∙ (ap (λ x. exponent_text (take_exponent t).0 ++ x) empty ∙ append-nil _))),
      record { int_part = k; frac_part = f; exponent = f' },
    )

-- If a text is matched, then its groups are well formed and make up the text.
pub render-match : (s : List ℕ) (g : Groups) → match s ≡ some g → (render g ≡ s) × IsGroups g
unfolding match
render-match s g h =
    let t = (take_sign s).1 in
    let (e, digits) = take_digits_sound t in
    let (same, wf) = match_digits-eq-some (take_sign s).0 (take_digits t) g h digits in
    (sym same ∙ (ap (sign_text (take_sign s).0) e ∙ take_sign_sound s), wf)
