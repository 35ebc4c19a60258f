-- ===== src/Dict.antt =====
-- A JavaScript object used as a map: text keys in the order of their insertion.
use text.Mathlib.TextPositions.{eq_refl}
use iceth_plugin.Prelude.{
  String, ◌≡◌, ◌≢◌, refl, Option, none, some, List, [], ◌∷◌, arith, str_eq, eq_iff, if◌then◌else◌,
}

abbrev pub Dict {ℓ} : Type ℓ → Type ℓ
Dict V = List (String × V)

module _ {ℓ} {V : Type ℓ} where
  -- d[k], with none for undefined
  unfoldable pub get : String → Dict V → Option V
  get k [] = none
  get k ((j, v) ∷ d) = if str_eq j k then some v else get k d

  -- d[k] = v
  unfoldable pub set : String → V → Dict V → Dict V
  set k v [] = (k, v) ∷ []
  set k v ((j, w) ∷ d) = if str_eq j k then (k, v) ∷ d else (j, w) ∷ set k v d

  pub get-set :
      (k j : String) (v : V) (d : Dict V)
      → get j (set k v d) ≡ (if str_eq k j then some v else get j d)
  unfolding get set
  get-set k j v [] = refl
  get-set k j v ((i, w) ∷ d) = ground (arith, eq_iff k j, eq_iff i k, eq_iff i j, get-set k j v d)

module _ {ℓ} {V : Type ℓ} where
  pub get-set_self : (k : String) (v : V) (d : Dict V) → get k (set k v d) ≡ some v
  get-set_self k v d = simp (get-set, eq_refl)

  pub get-set_ne : (k j : String) (v : V) (d : Dict V) → k ≢ j → get j (set k v d) ≡ get j d
  get-set_ne k j v d h = simp get-set (ground (arith, eq_iff k j))
