-- ===== src/Phase2/Collateral.antt =====
-- scripts/deployment/phase2-assets/2_deploy_collateral.ts: the blocks in their order.
pub mod Blocks
use Prim.Native.String
use iceth_plugin.Prelude.{
  String, Bool, Option, none, some, List, [], ◌∷◌, ℤ, pos, codes, if◌then◌else◌,
}
use iceth_plugin.BigNumber
use iceth_plugin.Dict.{get, set}
use iceth_plugin.Numbers.{fp, bn}
use iceth_plugin.Configuration.{INetworkConfig}
use iceth_plugin.Runtime.{
  Hardhat, Script, pure, throw, lift, ◌>>=◌, ◌>>◌, get_signer, view_text, view_number,
  deploy_contract, write_file,
}
use iceth_plugin.Runtime.Contracts
use iceth_plugin.Runtime.Contracts.{assets_collateral, IDeployments, IAssetCollDeployments, Value}
use iceth_plugin.Deployment.{
  get_deployment_filename, get_asset_coll_deployment_filename, get_chain_id, get_deployments,
  require_network_config,
}
use iceth_plugin.Deployment.Utils.{get_current_price, get_oracle_timeout}
use iceth_plugin.Tasks.{Params}
use iceth_plugin.Tasks.Collateral.{
  deploy_fiat_collateral, deploy_atoken_fiat_collateral, deploy_ctoken_fiat_collateral,
  deploy_ctoken_nonfiat_collateral, deploy_ctoken_selfreferential_collateral,
  deploy_nonfiat_collateral, deploy_selfreferential_collateral, deploy_eurfiat_collateral,
  deploy_iceth_collateral,
}
use iceth_plugin.Phase2.Assets.{of_option, get_asset_coll_deployments, require_phase1}
use iceth_plugin.Phase2.Collateral.Blocks.{
  Setting, Writing, deploy_fiat, deploy_atoken_fiat, deploy_ctoken_fiat, deploy_cwbtc, deploy_ceth,
  deploy_wbtc, deploy_weth, deploy_eurt, deploy_iceth,
}

module _ {H : Hardhat} where
  unfoldable pub deploy_fiats : Setting → IAssetCollDeployments → Script H IAssetCollDeployments
  deploy_fiats s d = do
    d ← deploy_fiat s Writing.write_before "DAI" d
    d ← deploy_fiat s Writing.write_before "USDC" d
    d ← deploy_fiat s Writing.write_before "USDT" d
    d ← deploy_fiat s Writing.write_before "USDP" d
    d ← deploy_fiat s Writing.no_write "TUSD" d
    deploy_fiat s Writing.write_before "BUSD" d

  unfoldable pub deploy_atokens : Setting → IAssetCollDeployments → Script H IAssetCollDeployments
  deploy_atokens s d = do
    d ← deploy_atoken_fiat s Writing.write_before "aDAI" "DAI" d
    d ← deploy_atoken_fiat s Writing.write_after "aUSDC" "USDC" d
    d ← deploy_atoken_fiat s Writing.write_after "aUSDT" "USDT" d
    d ← deploy_atoken_fiat s Writing.write_after "aBUSD" "BUSD" d
    deploy_atoken_fiat s Writing.write_after "aUSDP" "USDP" d

  unfoldable pub deploy_ctokens : Setting → IAssetCollDeployments → Script H IAssetCollDeployments
  deploy_ctokens s d = do
    d ← deploy_ctoken_fiat s "cDAI" "DAI" "1e28" d
    d ← deploy_ctoken_fiat s "cUSDC" "USDC" "1e16" d
    d ← deploy_ctoken_fiat s "cUSDT" "USDT" "1e16" d
    d ← deploy_ctoken_fiat s "cUSDP" "USDP" "1e28" d
    d ← deploy_cwbtc s d
    deploy_ceth s d

  unfoldable pub deploy_collateral : Script H (Unit {0})
  deploy_collateral = do
    burner ← get_signer
    chain_id ← get_chain_id
    config ← require_network_config chain_id
    require_phase1 (get_deployment_filename chain_id)
    phase1 ← get_deployments (get_deployment_filename chain_id)
    d ← get_asset_coll_deployments (get_asset_coll_deployment_filename chain_id)
    let s : Setting = record { chain_id = chain_id; config = config; phase1 = phase1 }
    d ← deploy_fiats s d
    d ← deploy_atokens s d
    d ← deploy_ctokens s d
    d ← deploy_wbtc s d
    d ← deploy_weth s d
    d ← deploy_eurt s d
    deploy_iceth s d
    pure tt
