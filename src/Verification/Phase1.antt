-- ===== src/Verification/Phase1.antt =====
-- scripts/verification/: 0_verify_libraries.ts to 5_verify_facadeWrite.ts
use iceth_plugin.Prelude.{String, List, [], ◌∷◌}
use iceth_plugin.Runtime.{Hardhat, Script, pure, ◌>>=◌, ◌>>◌, view_text, view_number}
use iceth_plugin.Runtime.Contracts.{Value, IDeployments, Component}
use iceth_plugin.Deployment.{get_deployment_filename, get_deployments}
use iceth_plugin.Verification.{verify_contract, begin}

-- The components that are verified, with the names of their contracts.
abbrev pub comp_infos : List (Component × String)
comp_infos =
    (Component.asset_registry, "contracts/p1/AssetRegistry.sol:AssetRegistryP1")
    ∷ (Component.backing_manager, "contracts/p1/BackingManager.sol:BackingManagerP1")
    ∷ (Component.basket_handler, "contracts/p1/BasketHandler.sol:BasketHandlerP1")
    ∷ (Component.broker, "contracts/p1/Broker.sol:BrokerP1")
    ∷ (Component.distributor, "contracts/p1/Distributor.sol:DistributorP1")
    ∷ (Component.furnace, "contracts/p1/Furnace.sol:FurnaceP1")
    ∷ (Component.rsr_trader, "contracts/p1/RevenueTrader.sol:RevenueTraderP1")
    ∷ (Component.r_token, "contracts/p1/RToken.sol:RTokenP1")
    ∷ (Component.st_rsr, "contracts/p1/StRSRVotes.sol:StRSRP1Votes")
    ∷ []

module _ {H : Hardhat} where
  unfoldable pub verify_libraries : Script H (Unit {0})
  verify_libraries = do
    chain_id ← begin
    d ← get_deployments (get_deployment_filename chain_id)
    verify_contract chain_id (Value.text d.trading_lib) []
        "contracts/p1/mixins/RecollateralizationLib.sol:RecollateralizationLibP1"
    verify_contract chain_id (Value.text d.rewardable_lib) []
        "contracts/p1/mixins/RewardableLib.sol:RewardableLibP1"
    verify_contract chain_id (Value.text d.permit_lib) [] "contracts/libraries/Permit.sol:PermitLib"
    verify_contract chain_id (Value.text d.oracle_lib) []
        "contracts/plugins/assets/OracleLib.sol:OracleLib"

  -- for (const cinf of compInfos) { ... }
  unfoldable pub verify_components :
      String → IDeployments → List (Component × String) → Script H (Unit {0})
  verify_components chain_id d [] = pure tt
  verify_components chain_id d ((name, contract) ∷ infos) = do
    verify_contract chain_id (Value.text (d.implementations.components name)) [] contract
    verify_components chain_id d infos

  unfoldable pub verify_implementations : Script H (Unit {0})
  verify_implementations = do
    chain_id ← begin
    d ← get_deployments (get_deployment_filename chain_id)
    verify_contract chain_id (Value.text d.implementations.main) [] "contracts/p1/Main.sol:MainP1"
    verify_contract chain_id (Value.text d.implementations.trade) []
        "contracts/plugins/trading/GnosisTrade.sol:GnosisTrade"
    verify_components chain_id d comp_infos

  unfoldable pub verify_rsr_asset : Script H (Unit {0})
  verify_rsr_asset = do
    chain_id ← begin
    d ← get_deployments (get_deployment_filename chain_id)
    price ← view_number (Value.text d.rsr_asset) "fallbackPrice"
    feed ← view_text (Value.text d.rsr_asset) "chainlinkFeed"
    erc20 ← view_text (Value.text d.rsr_asset) "erc20"
    volume ← view_number (Value.text d.rsr_asset) "maxTradeVolume"
    timeout ← view_number (Value.text d.rsr_asset) "oracleTimeout"
    verify_contract chain_id (Value.text d.rsr_asset)
        (Value.number price
          ∷ Value.text feed
          ∷ Value.text erc20
          ∷ Value.number volume
          ∷ Value.number timeout
          ∷ [])
        "contracts/plugins/assets/Asset.sol:Asset"

  unfoldable pub verify_deployer : Script H (Unit {0})
  verify_deployer = do
    chain_id ← begin
    d ← get_deployments (get_deployment_filename chain_id)
    verify_contract chain_id (Value.text d.deployer)
        (Value.text d.prerequisites.rsr
          ∷ Value.text d.prerequisites.gnosis_easy_auction
          ∷ Value.text d.rsr_asset
          ∷ Value.implementations d.implementations
          ∷ [])
        "contracts/p1/Deployer.sol:DeployerP1"

  unfoldable pub verify_facade : Script H (Unit {0})
  verify_facade = do
    chain_id ← begin
    d ← get_deployments (get_deployment_filename chain_id)
    verify_contract chain_id (Value.text d.facade_read) []
        "contracts/facade/FacadeRead.sol:FacadeRead"

  unfoldable pub verify_facade_write : Script H (Unit {0})
  verify_facade_write = do
    chain_id ← begin
    d ← get_deployments (get_deployment_filename chain_id)
    verify_contract chain_id (Value.text d.facade_write_lib) []
        "contracts/facade/lib/FacadeWriteLib.sol:FacadeWriteLib"
    verify_contract chain_id (Value.text d.facade_write) (Value.text d.deployer ∷ [])
        "contracts/facade/FacadeWrite.sol:FacadeWrite"
