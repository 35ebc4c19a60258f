-- ===== src/Numbers/Decimal.antt =====
-- The regular expression of `_parseScientific` in common/numbers.ts, run on the codes of a text:
--   /^(?<sign>[+-]?)(?<int_part>\d+)(\.(?<frac_part>\d+))?(e(?<exponent>[+-]?\d+))?$/
-- The classes that may follow one another have no character in common, so the greedy match is the
-- only one and no backtracking is needed.
use iceth_plugin.Prelude.{
  ℕ, Bool, ◌&&◌, Option, none, some, List, [], ◌∷◌, leb, ◌==◌, if◌then◌else◌,
}

pub data Sign : Type 0 where
  unsigned plus minus : Sign

pub record Groups : Type 0 where
  pub sign : Sign
  pub int_part : List ℕ
  pub frac_part : Option (List ℕ)
  pub exponent : Option (List ℕ)

abbrev pub is_digit : ℕ → Bool
is_digit c = leb b'0' c && leb c b'9'

-- [+-]?
abbrev pub take_sign : List ℕ → Sign × List ℕ
take_sign [] = (unsigned, [])
take_sign (c ∷ s) =
    if c == b'+' then (plus, s) else if c == b'-' then (minus, s) else (unsigned, c ∷ s)

-- \d*
abbrev pub take_digits : List ℕ → List ℕ × List ℕ
take_digits [] = ([], [])
take_digits (c ∷ s) =
    let (ds, rest) = take_digits s in if is_digit c then (c ∷ ds, rest) else ([], c ∷ s)

-- The group, if digits were found, and what is left of the text `all`.
abbrev pub fraction_of : List ℕ → List ℕ × List ℕ → Option (List ℕ) × List ℕ
fraction_of all ([], rest) = (none, all)
fraction_of all (d ∷ ds, rest) = (some (d ∷ ds), rest)

-- (\.(?<frac_part>\d+))?
abbrev pub take_fraction : List ℕ → Option (List ℕ) × List ℕ
take_fraction [] = (none, [])
take_fraction (c ∷ s) = if c == b'.' then fraction_of (c ∷ s) (take_digits s) else (none, c ∷ s)

abbrev pub sign_text : Sign → List ℕ → List ℕ
sign_text unsigned ds = ds
sign_text plus ds = b'+' ∷ ds
sign_text minus ds = b'-' ∷ ds

abbrev pub exponent_of : List ℕ → Sign → List ℕ × List ℕ → Option (List ℕ) × List ℕ
exponent_of all sign ([], rest) = (none, all)
exponent_of all sign (d ∷ ds, rest) = (some (sign_text sign (d ∷ ds)), rest)

abbrev pub signed_digits : List ℕ → Sign × List ℕ → Option (List ℕ) × List ℕ
signed_digits all (sign, t) = exponent_of all sign (take_digits t)

-- (e(?<exponent>[+-]?\d+))?
abbrev pub take_exponent : List ℕ → Option (List ℕ) × List ℕ
take_exponent [] = (none, [])
take_exponent (c ∷ s) = if c == b'e' then signed_digits (c ∷ s) (take_sign s) else (none, c ∷ s)

-- $
abbrev pub at_end : Groups → List ℕ → Option Groups
at_end g [] = some g
at_end g (_ ∷ _) = none

abbrev pub match_exponent :
    Sign → List ℕ → Option (List ℕ) → Option (List ℕ) × List ℕ → Option Groups
match_exponent sign int_part frac_part (exponent, s) =
    at_end (record { sign = sign; int_part = int_part; frac_part = frac_part; exponent = exponent })
      s

abbrev pub match_fraction : Sign → List ℕ → Option (List ℕ) × List ℕ → Option Groups
match_fraction sign int_part (frac_part, s) =
    match_exponent sign int_part frac_part (take_exponent s)

-- The integral part has at least one digit.
abbrev pub match_digits : Sign → List ℕ × List ℕ → Option Groups
match_digits sign ([], s) = none
match_digits sign (d ∷ ds, s) = match_fraction sign (d ∷ ds) (take_fraction s)

abbrev pub match_signed : Sign × List ℕ → Option Groups
match_signed (sign, s) = match_digits sign (take_digits s)

unfoldable pub match : List ℕ → Option Groups
match s = match_signed (take_sign s)
