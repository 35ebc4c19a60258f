-- ===== src/Phase1/Implementations.antt =====
-- scripts/deployment/phase1-common/2_deploy_implementations.ts
use iceth_plugin.Prelude.{String, [], ◌∷◌, ℕ, ◌==◌, if◌then◌else◌}
use iceth_plugin.Runtime.{
  Hardhat, Script, pure, ◌>>=◌, ◌>>◌, get_signer, deploy_contract, write_file,
}
use iceth_plugin.Runtime.Contracts.{Value, IDeployments, IComponents, Component, Creation, phase1}
use iceth_plugin.Deployment.{
  get_deployment_filename, get_chain_id, get_deployments, require_network_config, require_set,
  require_contract,
}
use iceth_plugin.Phase1.Setup.{plain}

abbrev pub index : Component → ℕ
index Component.asset_registry = 0
index Component.backing_manager = 1
index Component.basket_handler = 2
index Component.broker = 3
index Component.distributor = 4
index Component.furnace = 5
index Component.rsr_trader = 6
index Component.r_token_trader = 7
index Component.r_token = 8
index Component.st_rsr = 9

-- components[field] = address
abbrev pub set_component : IComponents → Component → String → IComponents
set_component components c address j = if index c == index j then address else components j

abbrev pub with_component : IDeployments → Component → String → IDeployments
with_component d c address = record d {
  implementations = record d.implementations {
    components = set_component d.implementations.components c address;
  };
}

module _ {H : Hardhat} where
  -- It changes the object in place: the caller goes on with the record that is returned here.
  unfoldable pub write_component_deployment :
      IDeployments → String → Component → String → Script H IDeployments
  write_component_deployment d file c address = do
    write_file file (phase1 (with_component d c address))
    pure (with_component d c address)

  -- One component: its contract is deployed, and its address is recorded.
  unfoldable pub deploy_component :
      String → Component → Creation → IDeployments → Script H IDeployments
  unfolding write_component_deployment
  deploy_component file c creation d = do
    address ← deploy_contract creation
    write_component_deployment d file c address

  -- The two revenue traders share one implementation.
  unfoldable pub deploy_traders : String → IDeployments → Script H IDeployments
  unfolding write_component_deployment
  deploy_traders file d = do
    address ← deploy_contract (record {
      contract = "RevenueTraderP1";
      libraries = ("RewardableLibP1", Value.text d.rewardable_lib) ∷ [];
      arguments = [];
    })
    d' ← write_component_deployment d file Component.rsr_trader address
    write_component_deployment d' file Component.r_token_trader address

  unfoldable pub deploy_main : String → IDeployments → Script H IDeployments
  deploy_main file d = do
    main ← deploy_contract (plain "MainP1")
    let d' = record d { implementations = record d.implementations { main = main } }
    write_file file (phase1 d')
    pure d'

  unfoldable pub deploy_trade : String → IDeployments → Script H IDeployments
  deploy_trade file d = do
    trade ← deploy_contract (plain "GnosisTrade")
    let d' = record d { implementations = record d.implementations { trade = trade } }
    write_file file (phase1 d')
    pure d'

  -- The nine contracts of the components, in the order of the script.
  unfoldable pub deploy_components : String → IDeployments → Script H IDeployments
  deploy_components file d = do
    d ← deploy_component file Component.asset_registry (plain "AssetRegistryP1") d
    d ←
        deploy_component file Component.backing_manager
          (record {
            contract = "BackingManagerP1";
            libraries =
                ("RewardableLibP1", Value.text d.rewardable_lib)
                ∷ ("RecollateralizationLibP1", Value.text d.trading_lib)
                ∷ [];
            arguments = [];
          })
          d
    d ← deploy_component file Component.basket_handler (plain "BasketHandlerP1") d
    d ← deploy_component file Component.broker (plain "BrokerP1") d
    d ← deploy_component file Component.distributor (plain "DistributorP1") d
    d ← deploy_component file Component.furnace (plain "FurnaceP1") d
    d ← deploy_traders file d
    d ←
        deploy_component file Component.r_token
          (record {
            contract = "RTokenP1";
            libraries =
                ("RewardableLibP1", Value.text d.rewardable_lib)
                ∷ ("PermitLib", Value.text d.permit_lib)
                ∷ [];
            arguments = [];
          })
          d
    deploy_component file Component.st_rsr
        (record {
          contract = "StRSRP1Votes";
          libraries = ("PermitLib", Value.text d.permit_lib) ∷ [];
          arguments = [];
        })
        d

  unfoldable pub deploy_implementations : Script H (Unit {0})
  deploy_implementations = do
    burner ← get_signer
    chain_id ← get_chain_id
    require_network_config chain_id
    d ← get_deployments (get_deployment_filename chain_id)
    require_set "pre-requisites" (d.trading_lib ∷ d.rewardable_lib ∷ [])
    require_contract "TradingLib" d.trading_lib
    require_contract "RewardableLib" d.rewardable_lib
    d ← deploy_main (get_deployment_filename chain_id) d
    d ← deploy_trade (get_deployment_filename chain_id) d
    deploy_components (get_deployment_filename chain_id) d
    pure tt
