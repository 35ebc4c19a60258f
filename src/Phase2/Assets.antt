-- ===== src/Phase2/Assets.antt =====
-- scripts/deployment/phase2-assets/0_setup_deployments.ts and 1_deploy_assets.ts
use iceth_plugin.Prelude.{String, Option, none, some, [], ◌∷◌, pos, codes, if◌then◌else◌}
use iceth_plugin.BigNumber
use iceth_plugin.Errors
use iceth_plugin.Dict.{get, set}
use iceth_plugin.Numbers.{fp}
use iceth_plugin.Configuration.{INetworkConfig}
use iceth_plugin.Runtime.{Hardhat, Script, pure, throw, lift, ◌>>=◌, ◌>>◌, get_signer, write_file}
use iceth_plugin.Runtime.Contracts.{
  Document, assets_collateral, IDeployments, IAssetCollDeployments, Value,
}
use iceth_plugin.Deployment.{
  get_deployment_filename, get_asset_coll_deployment_filename, get_chain_id, file_exists,
  get_deployment_file, get_deployments, require_network_config,
}
use iceth_plugin.Deployment.Utils.{get_current_price, get_oracle_timeout}
use iceth_plugin.Tasks.Assets.{deploy_asset}

-- What an object gives for a key; undefined if it is not there.
abbrev pub of_option : Option String → Value
of_option none = Value.undefined
of_option (some s) = Value.text s

module _ {H : Hardhat} where
  -- <IAssetCollDeployments>getDeploymentFile(file)
  abbrev as_asset_coll : String → Document → Script H IAssetCollDeployments
  as_asset_coll file (assets_collateral d) = pure d
  as_asset_coll file _ = throw (Errors.wrong_document file)

  unfoldable pub get_asset_coll_deployments : String → Script H IAssetCollDeployments
  unfolding get_deployment_file
  get_asset_coll_deployments file = do
    document ← get_deployment_file file
    as_asset_coll file document

  -- if (!fileExists(phase1File)) { throw ... }
  unfoldable pub require_phase1 : String → Script H (Unit {0})
  unfolding file_exists
  require_phase1 file = do
    exists ← file_exists file
    (if exists then pure tt else throw (Errors.file_missing file))

  unfoldable pub setup_asset_coll : Script H (Unit {0})
  setup_asset_coll = do
    chain_id ← get_chain_id
    require_network_config chain_id
    require_phase1 (get_deployment_filename chain_id)
    exists ← file_exists (get_asset_coll_deployment_filename chain_id)
    (if exists
        then throw (Errors.file_exists (get_asset_coll_deployment_filename chain_id))
        else pure tt)
    write_file (get_asset_coll_deployment_filename chain_id)
        (assets_collateral (record { assets = []; collateral = [] }))

  -- One asset: its feed gives the fallback price.
  unfoldable pub deploy_one_asset :
      String → INetworkConfig → IDeployments → String → String → Script H String
  deploy_one_asset chain_id config d feed token = do
    price ← get_current_price (get feed config.chainlink_feeds)
    volume ← lift (fp H.ethers (BigNumber.text (codes "1e6")))
    deploy_asset (
        ("fallbackPrice", Value.number price)
        ∷ ("priceFeed", of_option (get feed config.chainlink_feeds))
        ∷ ("tokenAddress", of_option (get token config.tokens))
        ∷ ("maxTradeVolume", Value.number volume)
        ∷ ("oracleTimeout", Value.number (pos (get_oracle_timeout chain_id)))
        ∷ ("oracleLib", Value.text d.oracle_lib)
        ∷ [])

  -- The file is written once, after both assets.
  unfoldable pub deploy_assets : Script H (Unit {0})
  deploy_assets = do
    burner ← get_signer
    chain_id ← get_chain_id
    config ← require_network_config chain_id
    require_phase1 (get_deployment_filename chain_id)
    phase1_deployment ← get_deployments (get_deployment_filename chain_id)
    d ← get_asset_coll_deployments (get_asset_coll_deployment_filename chain_id)
    stk_aave ← deploy_one_asset chain_id config phase1_deployment "AAVE" "stkAAVE"
    comp ← deploy_one_asset chain_id config phase1_deployment "COMP" "COMP"
    write_file (get_asset_coll_deployment_filename chain_id) (
        assets_collateral (record d { assets = set "COMP" comp (set "stkAAVE" stk_aave d.assets) }))
