-- ===== src/Environment/Selecting.antt =====
-- Which variable `useEnv` of utils/env.ts takes from a list of keys.
use iceth_plugin.Prelude.{
  ap, String, ◌≡◌, ◌≢◌, ◌⊎◌, inl, inr, refl, false, Option, none, some, List, [], ◌∷◌, ◌++◌, All,
  arith, str_eq, eq_iff, Bool-cases,
}
use iceth_plugin.Dict.{Dict, get}
use iceth_plugin.Environment.{EnvVars, or_default, first_set, use_env}

-- A variable that is not set, or set to the empty text.
abbrev pub IsBlank : Dict String → String → Type 0
IsBlank env key = or_default (get key env) "" ≡ ""

-- The value stands under one of the keys, is not empty, and all keys before it are blank.
abbrev pub IsFirst : Dict String → List String → String → Type 0
IsFirst env keys value =
    (before : List String) × (key : String) × (after : List String) × (keys
      ≡ before ++ (key ∷ after))
    × All (IsBlank env) before
    × (get key env ≡ some value)
    × (value ≢ "")

-- What `first_set` found: nothing among blank keys, or the first that is not blank.
abbrev Found : Dict String → List String → Option String → Type 0
Found env keys none = All (IsBlank env) keys
Found env keys (some value) = IsFirst env keys value

Found-skip :
    (env : Dict String) (key : String) (keys : List String) (o : Option String)
    → IsBlank env key
    → Found env keys o
    → Found env (key ∷ keys) o
Found-skip env key keys none blank h = (blank, h)
Found-skip env key keys (some value) blank (before, k, after, e, b, found, set') =
    (key ∷ before, k, after, ap (λ l. key ∷ l) e, (blank, b), found, set')

Found-here :
    (env : Dict String) (key : String) (keys : List String) (o : Option String)
    → get key env ≡ o
    → str_eq (or_default o "") "" ≡ false
    → Found env (key ∷ keys) (some (or_default o ""))
Found-here env key keys none e set' = absurd (ground arith)
Found-here env key keys (some value) e set' =
    ([], key, keys, refl, tt, e, ground (arith, eq_iff value ""))

first_set-Found : (env : Dict String) (keys : List String) → Found env keys (first_set env keys)
unfolding first_set
first_set-Found env [] = tt
first_set-Found env (key ∷ keys) = elim (Bool-cases (str_eq (or_default (get key env) "") "")) [
  | inl blank ↦ rw blank (
      Found-skip env key keys (first_set env keys)
        (ground (arith, eq_iff (or_default (get key env) "") "")) (first_set-Found env keys))
  | inr set' ↦ rw set' (Found-here env key keys (get key env) refl set')
]

use_env_cases :
    (env : Dict String) (keys : List String) (value : String) (o : Option String)
    → Found env keys o
    → (All (IsBlank env) keys × (or_default o value ≡ value))
      ⊎ IsFirst env keys (or_default o value)
use_env_cases env keys value none h = inl (h, refl)
use_env_cases env keys value (some v) h = inr h

-- useEnv of a list of keys either gives the default, all of the keys being unset or empty, or the
-- text of the first key that is set and not empty.
pub use_env-many :
    (env : Dict String) (keys : List String) (value : String)
    → (All (IsBlank env) keys × (use_env env (EnvVars.many keys) value ≡ value))
      ⊎ IsFirst env keys (use_env env (EnvVars.many keys) value)
unfolding use_env
use_env-many env keys value =
    use_env_cases env keys value (first_set env keys) (first_set-Found env keys)
