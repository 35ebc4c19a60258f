-- ===== src/Confirmation.antt =====
-- scripts/confirm.ts and scripts/confirmation/: the checks of what the deployment has recorded.
pub mod Reading
pub mod Prices
pub mod Establishing
use iceth_plugin.Prelude.{
  String, Bool, true, false, not, ◌||◌, Option, some, none, List, [], ◌∷◌, ℤ, pos, codes, str_eq,
  if◌then◌else◌,
}
use iceth_plugin.Errors.{
  development_chain, unpaused, short_timelock, misconfigured_oracle, off, wrong_document,
}
use iceth_plugin.Dict.{Dict, get}
use iceth_plugin.Configuration.{is_development_chain}
use iceth_plugin.Runtime.{
  Hardhat, Script, pure, throw, lift, ◌>>=◌, ◌>>◌, view_text, view_number, view_flag, view_price,
}
use iceth_plugin.Runtime.Contracts.{Value, IrTokenDeployments}
use iceth_plugin.Runtime.Live.{values}
use iceth_plugin.Deployment.{
  get_deployment_filename, get_asset_coll_deployment_filename, get_r_token_deployment_filename,
  get_chain_id, get_deployment_file, require_network_config,
}
use iceth_plugin.Deploy.{run_all}
use iceth_plugin.Phase2.Assets.{get_asset_coll_deployments}
use iceth_plugin.Phase3.Config.{r_token_name, bn_text}
use iceth_plugin.Phase3.Scripts.{get_r_token_deployments}

module _ {H : Hardhat} where
  -- if (developmentChains.includes(hre.network.name)) throw ...
  unfoldable pub refuse_development : Script H (Unit {0})
  refuse_development =
      if is_development_chain H.network_name then throw development_chain else pure tt

  -- if (isFallback) throw new Error('misconfigured oracle')
  unfoldable pub current_price : String → Script H ℤ
  current_price address = do
    price ← view_price (Value.text address)
    (if price.0 then throw misconfigured_oracle else pure price.1)

  -- The value is not off the price by more than the part that the divisor gives.
  unfoldable pub require_near : String → ℤ → ℤ → ℤ → Script H (Unit {0})
  require_near what price divisor value = do
    below ← lift (H.ethers.div price divisor)
    above ← lift (H.ethers.div price divisor)
    (if H.ethers.lt value (H.ethers.sub price below) || H.ethers.gt value (H.ethers.add price above)
        then throw (off what)
        else pure tt)

  unfoldable pub confirm_asset : String → Script H (Unit {0})
  confirm_asset a = do
    fallback ← view_number (Value.text a) "fallbackPrice"
    price ← current_price a
    require_near "fallback price" price (pos 20) fallback

  -- {UoA/tok} ~= {ref/tok} * {target/ref} * {UoA/target}
  unfoldable pub peg_price : String → Script H ℤ
  peg_price c = do
    ref_per_tok ← view_number (Value.text c) "refPerTok"
    target_per_ref ← view_number (Value.text c) "targetPerRef"
    price_per_target ← view_number (Value.text c) "pricePerTarget"
    unit ← lift (bn_text H.ethers "1e36")
    lift (
        H.ethers.div (H.ethers.mul (H.ethers.mul ref_per_tok target_per_ref) price_per_target) unit)

  unfoldable pub confirm_collateral : String → Script H (Unit {0})
  confirm_collateral c = do
    erc20 ← view_text (Value.text c) "erc20"
    symbol ← view_text (Value.text erc20) "symbol"
    price ← current_price c
    product ← peg_price c
    require_near "a peg" price (pos 100) product
    fallback ← view_number (Value.text c) "fallbackPrice"
    require_near "a fallback price" price (pos 100) fallback

  -- for (const a of addresses) { ... }
  unfoldable pub for_each : (String → Script H (Unit {0})) → List String → Script H (Unit {0})
  for_each body [] = pure tt
  for_each body (a ∷ as') = do body a; for_each body as'

  -- 1_confirm_assets.ts
  unfoldable pub confirm_assets : Script H (Unit {0})
  confirm_assets = do
    chain_id ← get_chain_id
    require_network_config chain_id
    refuse_development
    d ← get_asset_coll_deployments (get_asset_coll_deployment_filename chain_id)
    for_each confirm_asset (values d.assets [])
    for_each confirm_collateral (values d.collateral [])

  -- The checks on mainnet.
  unfoldable pub confirm_mainnet : IrTokenDeployments → Script H (Unit {0})
  confirm_mainnet d = do
    paused ← view_flag (Value.text d.main) "paused"
    (if paused then pure tt else throw unpaused)
    delay ← view_number (Value.text d.timelock) "getMinDelay"
    least ← lift (bn_text H.ethers "1e12")
    (if H.ethers.lt delay least then throw short_timelock else pure tt)

  -- 0_confirm_components.ts
  unfoldable pub confirm_components : Script H (Unit {0})
  confirm_components = do
    chain_id ← get_chain_id
    require_network_config chain_id
    refuse_development
    d ← get_r_token_deployments (get_r_token_deployment_filename chain_id r_token_name)
    (if str_eq chain_id "1" then confirm_mainnet d else pure tt)

  unfoldable pub confirm : Script H (Unit {0})
  confirm = do
    chain_id ← get_chain_id
    require_network_config chain_id
    refuse_development
    phase1_deployments ← get_deployment_file (get_deployment_filename chain_id)
    asset_deployments ← get_deployment_file (get_asset_coll_deployment_filename chain_id)
    run_all (confirm_components ∷ confirm_assets ∷ [])
