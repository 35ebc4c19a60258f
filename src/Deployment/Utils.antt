-- ===== src/Deployment/Utils.antt =====
-- The checks of scripts/deployment/utils.ts on what earlier scripts recorded, and the timeout.
use iceth_plugin.Prelude.{
  ℤ, pos, Option, none, some, String, Bool, true, ◌&&◌, List, [], ◌∷◌, ℕ, str_eq, if◌then◌else◌,
}
use iceth_plugin.Errors.{missing_address, not_found}
use iceth_plugin.BigNumber.{big, int}
use iceth_plugin.Numbers.{bn, fp}
use iceth_plugin.Runtime.{Hardhat, Script, pure, throw, lift, view_number, ◌>>=◌, ◌>>◌}
use iceth_plugin.Runtime.Contracts.{Value, IDeployments, IComponents, Component}
use iceth_plugin.Deployment.{require_set, require_contract, is_valid_contract}

-- The keys in the order in which the files list them.
abbrev pub all_components : List Component
all_components =
    Component.asset_registry ∷ Component.backing_manager ∷ Component.basket_handler
    ∷ Component.broker ∷ Component.distributor ∷ Component.furnace ∷ Component.rsr_trader
    ∷ Component.r_token_trader ∷ Component.r_token ∷ Component.st_rsr ∷ []

-- The seconds of a day on mainnet, a long timeout on the testnets.
unfoldable pub get_oracle_timeout : String → ℕ
get_oracle_timeout chain_id = if str_eq chain_id "1" then 86400 else 4294967296

module _ {H : Hardhat} where
  -- {tok}
  unfoldable pub get_current_price : Option String → Script H ℤ
  unfolding view_number
  get_current_price none = throw (missing_address "chainlink")
  get_current_price (some feed) = if str_eq feed "" then throw (missing_address "chainlink") else do
    answer ← view_number (Value.text feed) "latestAnswer"
    scaled ← lift (fp H.ethers (big answer))
    ten ← lift (bn H.ethers (int (pos 10)))
    decimals ← view_number (Value.text feed) "decimals"
    unit ← lift (H.ethers.pow ten decimals)
    lift (H.ethers.div scaled unit)

  unfoldable pub validate_prerequisites : IDeployments → Script H (Unit {0})
  validate_prerequisites d = do
    require_set "prerequisites"
        (d.prerequisites.gnosis_easy_auction ∷ d.prerequisites.rsr ∷ d.prerequisites.rsr_feed ∷ [])
    require_contract "RSR" d.prerequisites.rsr
    require_contract "RSR_FEED" d.prerequisites.rsr_feed
    require_contract "GNOSIS_EASY_AUCTION" d.prerequisites.gnosis_easy_auction

  -- Every component is looked up, also after one is found missing.
  unfoldable pub all_valid : IComponents → Bool → List Component → Script H Bool
  all_valid components found [] = pure found
  all_valid components found (c ∷ cs) = do
    valid ← is_valid_contract (components c)
    all_valid components (found && valid) cs

  unfoldable pub valid_components : IComponents → Script H Bool
  valid_components components = all_valid components true all_components

  unfoldable pub validate_implementations : IDeployments → Script H (Unit {0})
  validate_implementations d = do
    require_set "implementations" (
        d.implementations.main
        ∷ d.implementations.trade
        ∷ d.implementations.components Component.asset_registry
        ∷ d.implementations.components Component.backing_manager
        ∷ d.implementations.components Component.basket_handler
        ∷ d.implementations.components Component.broker
        ∷ d.implementations.components Component.distributor
        ∷ d.implementations.components Component.furnace
        ∷ d.implementations.components Component.r_token_trader
        ∷ d.implementations.components Component.rsr_trader
        ∷ d.implementations.components Component.r_token
        ∷ d.implementations.components Component.st_rsr
        ∷ [])
    require_contract "Main" d.implementations.main
    require_contract "Trade" d.implementations.trade
    valid ← valid_components d.implementations.components
    (if valid then pure tt else throw (not_found "components"))
