-- ===== src/Deployment/Validation.antt =====
-- The validations of scripts/deployment/utils.ts.
use iceth_plugin.Prelude.{
  ◌≢◌, eq_iff, subst, String, ◌≡◌, refl, Bool, true, false, ◌&&◌, Option, none, some, List, [], ◌∷◌,
  All, arith, if◌then◌else◌,
}
use iceth_plugin.Errors.{ok, not_found}
use iceth_plugin.Runtime.{Hardhat, World, Script, pure, throw}
use iceth_plugin.Runtime.Contracts.{IImplementations, IDeployments, IComponents, Component}
use iceth_plugin.Runtime.Ensures.{returned, IsReadOnly, IsReadOnly-bind, IsReadOnly-pure, reading}
use iceth_plugin.Runtime.Live.{HasCode}
use iceth_plugin.Deployment.{is_valid_contract, require_set, require_contract, any_empty}
use iceth_plugin.Deployment.Reading.{
  is_valid_contract-HasCode, require_contract-HasCode, IsReadOnly-if, IsReadOnly-is_valid_contract,
  IsReadOnly-require_set, IsReadOnly-require_contract,
}
use iceth_plugin.Deployment.Utils.{
  validate_prerequisites, all_valid, all_components, valid_components, validate_implementations,
  get_current_price,
}

module _ {H : Hardhat} where
  pub IsReadOnly-validate_prerequisites :
      (d : IDeployments) → IsReadOnly (validate_prerequisites {H = H} d)
  unfolding validate_prerequisites
  IsReadOnly-validate_prerequisites d =
      search (reading, IsReadOnly-require_set, IsReadOnly-require_contract)

  IsReadOnly-all_valid :
      (components : IComponents) (found : Bool) (cs : List Component)
      → IsReadOnly (all_valid {H = H} components found cs)
  unfolding all_valid
  IsReadOnly-all_valid components found [] = IsReadOnly-pure found
  IsReadOnly-all_valid components found (c ∷ cs) =
      IsReadOnly-bind (is_valid_contract (components c)) _
        (IsReadOnly-is_valid_contract (components c))
        (λ valid. IsReadOnly-all_valid components (found && valid) cs)

  IsReadOnly-valid_components :
      (components : IComponents) → IsReadOnly (valid_components {H = H} components)
  unfolding valid_components
  IsReadOnly-valid_components components = IsReadOnly-all_valid components true all_components

  pub IsReadOnly-validate_implementations :
      (d : IDeployments) → IsReadOnly (validate_implementations {H = H} d)
  unfolding validate_implementations
  IsReadOnly-validate_implementations d =
      search
        (
          reading, IsReadOnly-if, IsReadOnly-require_set, IsReadOnly-require_contract,
          IsReadOnly-valid_components,
        )
        depth 9

  pub IsReadOnly-get_current_price :
      (feed : Option String) → IsReadOnly (get_current_price {H = H} feed)
  unfolding get_current_price
  IsReadOnly-get_current_price none = search reading
  IsReadOnly-get_current_price (some feed) = search (reading, IsReadOnly-if) depth 9

-- The addresses of the implementations, in the order of their test.
abbrev pub implementation_addresses : IImplementations → List String
implementation_addresses i =
    i.main
    ∷ i.trade
    ∷ i.components Component.asset_registry
    ∷ i.components Component.backing_manager
    ∷ i.components Component.basket_handler
    ∷ i.components Component.broker
    ∷ i.components Component.distributor
    ∷ i.components Component.furnace
    ∷ i.components Component.r_token_trader
    ∷ i.components Component.rsr_trader
    ∷ i.components Component.r_token
    ∷ i.components Component.st_rsr
    ∷ []

any_empty-false : (l : List String) → All (λ a. a ≢ "") l → any_empty l ≡ false
any_empty-false [] h = refl
any_empty-false (a ∷ l) h = let e = any_empty-false l h.1 in ground (arith, eq_iff a "", h.0)

each : (P : Component → Type 0) (c : Component) → All P all_components → P c
each P Component.asset_registry h = h.0
each P Component.backing_manager h = h.1.0
each P Component.basket_handler h = h.1.1.0
each P Component.broker h = h.1.1.1.0
each P Component.distributor h = h.1.1.1.1.0
each P Component.furnace h = h.1.1.1.1.1.0
each P Component.rsr_trader h = h.1.1.1.1.1.1.0
each P Component.r_token_trader h = h.1.1.1.1.1.1.1.0
each P Component.r_token h = h.1.1.1.1.1.1.1.1.0
each P Component.st_rsr h = h.1.1.1.1.1.1.1.1.1.0

and-left : (a b : Bool) → a && b ≡ true → a ≡ true
and-left a b e = ground arith

and-right : (a b : Bool) → a && b ≡ true → b ≡ true
and-right a b e = ground arith

module _ {H : Hardhat} where
  all_valid-HasCode :
      (components : IComponents) (found : Bool) (cs : List Component) (w : World H)
      → all_valid components found cs w ≡ (ok true, w)
      → (found ≡ true) × All (λ c. HasCode H w.chain (components c)) cs
  unfolding all_valid
  all_valid-HasCode components found [] w e = (ground arith, tt)
  all_valid-HasCode components found (c ∷ cs) w e =
      let f : Bool → Script H Bool = λ valid. all_valid components (found && valid) cs in
      let (valid, looked_up, rest) =
        returned w f true w (IsReadOnly-is_valid_contract (components c)) e in
      let (both, others) = all_valid-HasCode components (found && valid) cs w rest in
      let is_valid =
        subst (λ b. is_valid_contract (components c) w ≡ (ok b, w)) (and-right found valid both)
          looked_up in
      (and-left found valid both, (is_valid_contract-HasCode (components c) w is_valid, others))

  if-returned :
      (valid : Bool) (w : World H)
      → (if valid then pure {H = H} tt else throw (not_found "components")) w ≡ (ok tt, w)
      → valid ≡ true
  if-returned true w e = refl
  if-returned false w e = absurd (ground arith)

  -- If validateImplementations returns, then main, trade and each of the ten components of the
  -- record have a contract with code.
  pub validate_implementations-HasCode :
      (d : IDeployments) (w : World H)
      → validate_implementations d w ≡ (ok tt, w)
      → HasCode H w.chain d.implementations.main
        × HasCode H w.chain d.implementations.trade
        × ((c : Component) → HasCode H w.chain (d.implementations.components c))
  unfolding validate_implementations valid_components
  validate_implementations-HasCode d w e =
      let i = d.implementations in
      let (_, set', e₁) = returned w _ tt w (IsReadOnly-require_set _ _) e in
      let (_, main', e₂) = returned w _ tt w (IsReadOnly-require_contract "Main" i.main) e₁ in
      let (_, trade', e₃) = returned w _ tt w (IsReadOnly-require_contract "Trade" i.trade) e₂ in
      let (valid, all', e₄) = returned w _ tt w (IsReadOnly-valid_components i.components) e₃ in
      let (_, live) =
        all_valid-HasCode i.components true all_components w
          (rw (if-returned valid w e₄) at all') in
      (
        require_contract-HasCode "Main" i.main w main',
        require_contract-HasCode "Trade" i.trade w trade',
        λ c. each (λ c. HasCode H w.chain (i.components c)) c live,
      )

module _ {H : Hardhat} where
  all_valid-true :
      (components : IComponents) (cs : List Component) (w : World H)
      → All (λ c. HasCode H w.chain (components c)) cs
      → all_valid components true cs w ≡ (ok true, w)
  unfolding all_valid is_valid_contract
  all_valid-true components [] w h = refl
  all_valid-true components (c ∷ cs) w h =
      let (code, found, is_code) = h.0 in rw (found, is_code) (all_valid-true components cs w h.1)

  require_set-passes :
      (what : String) (l : List String) (w : World H)
      → All (λ a. a ≢ "") l
      → require_set what l w ≡ (ok tt, w)
  unfolding require_set
  require_set-passes what l w h = rw (any_empty-false l h)

  require_contract-passes :
      (what a : String) (w : World H) → HasCode H w.chain a → require_contract what a w ≡ (ok tt, w)
  unfolding require_contract is_valid_contract
  require_contract-passes what a w (code, found, is_code) = rw (found, is_code)

  -- A record whose implementations are all set, each with a contract behind it, is let pass.
  pub validate_implementations-passes :
      (d : IDeployments) (w : World H)
      → All (λ a. a ≢ "") (implementation_addresses d.implementations)
      → HasCode H w.chain d.implementations.main
      → HasCode H w.chain d.implementations.trade
      → All (λ c. HasCode H w.chain (d.implementations.components c)) all_components
      → validate_implementations d w ≡ (ok tt, w)
  unfolding validate_implementations valid_components
  validate_implementations-passes d w set' main' trade' live = rw (
    require_set-passes "implementations" (implementation_addresses d.implementations) w set',
    require_contract-passes "Main" d.implementations.main w main',
    require_contract-passes "Trade" d.implementations.trade w trade',
    all_valid-true d.implementations.components all_components w live,
  )
