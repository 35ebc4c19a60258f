-- ===== src/Confirmation/Prices.antt =====
-- The prices that scripts/confirmation/1_confirm_assets.ts has checked where it returns.
use iceth_plugin.Prelude.{
  ℕ, ◌≤◌, ◌<◌, ◌/◌, ◌^◌, String, Bool, false, ◌||◌, ◌≡◌, refl, sym, subst, some, List, [], ◌∷◌, ℤ,
  pos, ◌+ℤ◌, ◌-ℤ◌, ◌*ℤ◌, mag, signed, All, arith, if◌then◌else◌, ltb_ℤ,
}
use iceth_plugin.BigNumber
use iceth_plugin.BigNumber.{IsDocumented, div_of_pos}
use iceth_plugin.Errors.{Error, ok, off}
use iceth_plugin.Numbers.Quotients.{dist}
use iceth_plugin.Runtime.{Hardhat, World, Script, pure, throw, lift, ◌>>=◌, view_number, view_price}
use iceth_plugin.Runtime.Contracts.{Value}
use iceth_plugin.Runtime.Ensures.{
  IsReadOnly, IsReadOnly-view_text, IsReadOnly-view_number, reading, returned,
}
use iceth_plugin.Deployment.Reading.{IsReadOnly-if}
use iceth_plugin.Phase3.Config.{bn_text}
use iceth_plugin.Numbers.Decimal.{match}
use iceth_plugin.Numbers.Scientific.{decimal_value}
use iceth_plugin.Phase3.Values.{bn_text_lem, power}
use iceth_plugin.Confirmation.{
  refuse_development, current_price, require_near, confirm_asset, peg_price, confirm_collateral,
  for_each,
}

-- The contract at the address answers with the number.
abbrev pub Answers : {H : Hardhat} → World H → String → String → ℤ → Type 0
Answers {H} w a method n = H.view_number w.chain (Value.text a) method ≡ some n

-- The price is no fallback, and the fallback price is off by a twentieth of it at most.
abbrev pub IsConfirmedAsset : {H : Hardhat} → World H → String → Type 0
IsConfirmedAsset {H} w a =
    (price : ℤ) × (fallback : ℤ) × (H.view_price w.chain (Value.text a) ≡ some (false, price))
    × Answers w a "fallbackPrice" fallback
    × (dist fallback price ≤ mag price / 20)

-- Of the product of the three rates, the part that is left of 36 decimals.
abbrev pub product_of : ℤ → ℤ → ℤ → ℤ
product_of r t p = signed (r *ℤ t *ℤ p) (mag (r *ℤ t *ℤ p) / 10 ^ 36)

-- The price is no fallback; the price that the pegs give and the fallback price are off by a hundredth
-- of it at most.
abbrev pub IsConfirmedCollateral : {H : Hardhat} → World H → String → Type 0
IsConfirmedCollateral {H} w c =
    (price : ℤ) × (fallback : ℤ) × (ref_per_tok : ℤ) × (target_per_ref : ℤ) × (price_per_target : ℤ)
    × (H.view_price w.chain (Value.text c) ≡ some (false, price))
    × Answers w c "refPerTok" ref_per_tok
    × Answers w c "targetPerRef" target_per_ref
    × Answers w c "pricePerTarget" price_per_target
    × (dist (product_of ref_per_tok target_per_ref price_per_target) price ≤ mag price / 100)
    × Answers w c "fallbackPrice" fallback
    × (dist fallback price ≤ mag price / 100)

unit_lem : (B : BigNumber.BigNumber) → IsDocumented B → bn_text B "1e36" ≡ ok (pos (10 ^ 36))
unfolding match decimal_value ◌+ℤ◌ ◌-ℤ◌
unit_lem B L = bn_text_lem B L "1e36" (power "36") refl (omega arith)

-- Where the bounds are not crossed.
between :
    (v p : ℤ) (q : ℕ)
    → ltb_ℤ v (p -ℤ signed p q) || ltb_ℤ (p +ℤ signed p q) v ≡ false
    → dist v p ≤ q
unfolding ◌+ℤ◌ ◌-ℤ◌
between v p q h = ground arith

module _ {H : Hardhat} where
  pub IsReadOnly-current_price : (a : String) → IsReadOnly (current_price {H = H} a)
  unfolding current_price
  IsReadOnly-current_price a = search (reading, IsReadOnly-if)

  pub IsReadOnly-require_near :
      (what : String) (p n v : ℤ) → IsReadOnly (require_near {H = H} what p n v)
  unfolding require_near
  IsReadOnly-require_near what p n v = search (reading, IsReadOnly-if)

  pub IsReadOnly-confirm_asset : (a : String) → IsReadOnly (confirm_asset {H = H} a)
  unfolding confirm_asset
  IsReadOnly-confirm_asset a = search (reading, IsReadOnly-current_price, IsReadOnly-require_near)

  IsReadOnly-peg_price : (a : String) → IsReadOnly (peg_price {H = H} a)
  unfolding peg_price
  IsReadOnly-peg_price a = search reading

  pub IsReadOnly-confirm_collateral : (c : String) → IsReadOnly (confirm_collateral {H = H} c)
  unfolding confirm_collateral
  IsReadOnly-confirm_collateral c =
      search (reading, IsReadOnly-current_price, IsReadOnly-peg_price, IsReadOnly-require_near)
        depth 20

  pub view_number-some :
      (a method : String) (n : ℤ) (w : World H)
      → view_number (Value.text a) method w ≡ (ok n, w)
      → Answers w a method n
  unfolding view_number
  view_number-some a method n w e = ground arith

  current_price-some :
      (a : String) (p : ℤ) (w : World H)
      → current_price a w ≡ (ok p, w)
      → H.view_price w.chain (Value.text a) ≡ some (false, p)
  unfolding current_price view_price
  current_price-some a p w e = ground arith

  pub IsReadOnly-refuse_development : IsReadOnly (refuse_development {H = H})
  unfolding refuse_development
  IsReadOnly-refuse_development = search (reading, IsReadOnly-if)

  pub ok-eq-ok : (w : World H) (a b : ℤ) → pure {H = H} a w ≡ pure b w → a ≡ b
  ok-eq-ok w a b e = cc

  pub guard-passed :
      (b : Bool) (x : Error) (w : World H)
      → (if b then throw {H = H} x else pure tt) w ≡ (ok tt, w)
      → b ≡ false
  guard-passed b x w e = ground arith

  pub for_each-All :
      (P : String → Type 0) (body : String → Script H (Unit {0})) (w : World H)
      → ((a : String) → IsReadOnly (body a))
      → ((a : String) → body a w ≡ (ok tt, w) → P a)
      → (l : List String) → for_each body l w ≡ (ok tt, w)
      → All P l
  unfolding for_each
  for_each-All P body w reads each [] e = tt
  for_each-All P body w reads each (a ∷ as') e =
      let (_, first', rest) = returned w (λ _. for_each body as') tt w (reads a) e in
      (each a first', for_each-All P body w reads each as' rest)

module _ {H : Hardhat} (L : IsDocumented H.ethers) where
  pub require_near-dist :
      (what : String) (price value : ℤ) (n : ℕ)
      → 0 < n
      → (w : World H) → require_near {H = H} what price (pos n) value w ≡ (ok tt, w)
      → dist value price ≤ mag price / n
  unfolding require_near
  require_near-dist what price value n positive w e = between value price (mag price / n) (
      guard-passed _ (off what) w (
        rw
          (
            div_of_pos L price n positive,
            L.sub_lem price (signed price (mag price / n)),
            L.add_lem price (signed price (mag price / n)),
            L.lt_lem value (price -ℤ signed price (mag price / n)),
            L.gt_lem value (price +ℤ signed price (mag price / n)),
          )
          at e))

  pub confirm_asset-IsConfirmedAsset :
      (a : String) (w : World H) → confirm_asset a w ≡ (ok tt, w) → IsConfirmedAsset w a
  unfolding confirm_asset
  confirm_asset-IsConfirmedAsset a w e =
      let (fallback, read, e₁) =
        returned w _ tt w (IsReadOnly-view_number (Value.text a) "fallbackPrice") e in
      let (price, current, e₂) = returned w _ tt w (IsReadOnly-current_price a) e₁ in
      (
        price,
        fallback,
        current_price-some a price w current,
        view_number-some a "fallbackPrice" fallback w read,
        require_near-dist "fallback price" price fallback 20 (omega arith) w e₂,
      )

  peg_price-product :
      (c : String) (product : ℤ) (w : World H)
      → peg_price c w ≡ (ok product, w)
      → (r : ℤ) × (t : ℤ) × (p : ℤ) × Answers w c "refPerTok" r
        × Answers w c "targetPerRef" t
        × Answers w c "pricePerTarget" p
        × (product_of r t p ≡ product)
  unfolding peg_price
  peg_price-product c product w e =
      let (r, read_r, e₁) =
        returned w _ product w (IsReadOnly-view_number (Value.text c) "refPerTok") e in
      let (t, read_t, e₂) =
        returned w _ product w (IsReadOnly-view_number (Value.text c) "targetPerRef") e₁ in
      let (p, read_p, e₃) =
        returned w _ product w (IsReadOnly-view_number (Value.text c) "pricePerTarget") e₂ in
      (
        r,
        t,
        p,
        view_number-some c "refPerTok" r w read_r,
        view_number-some c "targetPerRef" t w read_t,
        view_number-some c "pricePerTarget" p w read_p,
        divided r t p e₃,
      )
    where
      divided :
          (r t p : ℤ)
          → (lift {H = H} (bn_text H.ethers "1e36") >>= λ unit.
                lift {H = H} (H.ethers.div (H.ethers.mul (H.ethers.mul r t) p) unit))
              w
            ≡ (ok product, w)
          → product_of r t p ≡ product
      divided r t p h = ok-eq-ok w (product_of r t p) product (
          rw
            (
              unit_lem H.ethers L,
              L.mul_lem r t,
              L.mul_lem (r *ℤ t) p,
              div_of_pos L (r *ℤ t *ℤ p) (10 ^ 36) (omega arith),
            )
            at h)

  pub confirm_collateral-IsConfirmedCollateral :
      (c : String) (w : World H) → confirm_collateral c w ≡ (ok tt, w) → IsConfirmedCollateral w c
  unfolding confirm_collateral
  confirm_collateral-IsConfirmedCollateral c w e =
      let (erc20, read₁, e₁) = returned w _ tt w (IsReadOnly-view_text (Value.text c) "erc20") e in
      let (symbol, read₂, e₂) =
        returned w _ tt w (IsReadOnly-view_text (Value.text erc20) "symbol") e₁ in
      let (price, current, e₃) = returned w _ tt w (IsReadOnly-current_price c) e₂ in
      let (product, pegs, e₄) = returned w _ tt w (IsReadOnly-peg_price c) e₃ in
      let (_, near_peg, e₅) =
        returned w _ tt w (IsReadOnly-require_near "a peg" price (pos 100) product) e₄ in
      let (fallback, read, e₆) =
        returned w _ tt w (IsReadOnly-view_number (Value.text c) "fallbackPrice") e₅ in
      let (r, t, p, read_r, read_t, read_p, same) = peg_price-product c product w pegs in
      (
        price,
        fallback,
        r,
        t,
        p,
        current_price-some c price w current,
        read_r,
        read_t,
        read_p,
        subst (λ v. dist v price ≤ mag price / 100) (sym same)
            (require_near-dist "a peg" price product 100 (omega arith) w near_peg),
        view_number-some c "fallbackPrice" fallback w read,
        require_near-dist "a fallback price" price fallback 100 (omega arith) w e₆,
      )
