-- ===== src/Phase1/Facades.antt =====
-- scripts/deployment/phase1-common/3_deploy_rsrAsset.ts to 7_deploy_facadeAct.ts
use iceth_plugin.Prelude.{String, some, [], ◌∷◌, pos, codes}
use iceth_plugin.BigNumber
use iceth_plugin.Numbers.{fp}
use iceth_plugin.Runtime.{
  Hardhat, Script, lift, ◌>>=◌, ◌>>◌, get_signer, deploy_contract, write_file,
}
use iceth_plugin.Runtime.Contracts.{Value, phase1}
use iceth_plugin.Deployment.{
  get_deployment_filename, get_chain_id, get_deployments, require_network_config, require_set,
  require_contract,
}
use iceth_plugin.Deployment.Utils.{get_current_price, get_oracle_timeout, validate_implementations}
use iceth_plugin.Tasks.Assets.{deploy_asset}
use iceth_plugin.Phase1.Setup.{plain}

abbrev pub zero_address : String
zero_address = "0x0000000000000000000000000000000000000000"

module _ {H : Hardhat} where
  unfoldable pub deploy_rsr_asset : Script H (Unit {0})
  deploy_rsr_asset = do
    burner ← get_signer
    chain_id ← get_chain_id
    require_network_config chain_id
    d ← get_deployments (get_deployment_filename chain_id)
    validate_implementations d
    price ← get_current_price (some d.prerequisites.rsr_feed)
    volume ← lift (fp H.ethers (BigNumber.text (codes "1e6")))
    rsr_asset ← deploy_asset (
        ("fallbackPrice", Value.number price)
        ∷ ("priceFeed", Value.text d.prerequisites.rsr_feed)
        ∷ ("tokenAddress", Value.text d.prerequisites.rsr)
        ∷ ("rewardToken", Value.text zero_address)
        ∷ ("maxTradeVolume", Value.number volume)
        ∷ ("oracleTimeout", Value.number (pos (get_oracle_timeout chain_id)))
        ∷ ("oracleLib", Value.text d.oracle_lib)
        ∷ [])
    write_file (get_deployment_filename chain_id) (phase1 (record d { rsr_asset = rsr_asset }))

  unfoldable pub deploy_facade : Script H (Unit {0})
  deploy_facade = do
    burner ← get_signer
    chain_id ← get_chain_id
    require_network_config chain_id
    d ← get_deployments (get_deployment_filename chain_id)
    validate_implementations d
    require_set "deployed contracts" (d.rsr_asset ∷ [])
    require_contract "RSR Asset" d.rsr_asset
    facade_read ← deploy_contract (plain "FacadeRead")
    write_file (get_deployment_filename chain_id) (phase1 (record d { facade_read = facade_read }))

  unfoldable pub deploy_deployer : Script H (Unit {0})
  deploy_deployer = do
    burner ← get_signer
    chain_id ← get_chain_id
    require_network_config chain_id
    d ← get_deployments (get_deployment_filename chain_id)
    validate_implementations d
    require_set "deployed contracts" (d.facade_read ∷ [])
    require_contract "Facade" d.facade_read
    deployer ← deploy_contract (record {
      contract = "DeployerP1";
      libraries = [];
      arguments =
          Value.text d.prerequisites.rsr
          ∷ Value.text d.prerequisites.gnosis_easy_auction
          ∷ Value.text d.rsr_asset
          ∷ Value.implementations d.implementations
          ∷ [];
    })
    write_file (get_deployment_filename chain_id) (phase1 (record d { deployer = deployer }))

  unfoldable pub deploy_facade_write : Script H (Unit {0})
  deploy_facade_write = do
    burner ← get_signer
    chain_id ← get_chain_id
    require_network_config chain_id
    d ← get_deployments (get_deployment_filename chain_id)
    validate_implementations d
    require_set "deployed contracts" (d.rsr_asset ∷ [])
    require_contract "RSR Asset" d.rsr_asset
    facade_write_lib ← deploy_contract (plain "FacadeWriteLib")
    facade_write ← deploy_contract (record {
      contract = "FacadeWrite";
      libraries = ("FacadeWriteLib", Value.text facade_write_lib) ∷ [];
      arguments = Value.text d.deployer ∷ [];
    })
    write_file (get_deployment_filename chain_id)
        (phase1 (record d { facade_write_lib = facade_write_lib; facade_write = facade_write }))

  unfoldable pub deploy_facade_act : Script H (Unit {0})
  deploy_facade_act = do
    burner ← get_signer
    chain_id ← get_chain_id
    require_network_config chain_id
    d ← get_deployments (get_deployment_filename chain_id)
    validate_implementations d
    require_set "deployed contracts" (d.rsr_asset ∷ [])
    require_contract "RSR Asset" d.rsr_asset
    facade_act ← deploy_contract (plain "FacadeAct")
    write_file (get_deployment_filename chain_id) (phase1 (record d { facade_act = facade_act }))
