-- ===== src/Tests/Guards.antt =====
-- The guards on the concrete network.
use iceth_plugin.Prelude.{String, ◌≡◌, refl, [], ◌∷◌}
use iceth_plugin.Dict.{get, set}
use iceth_plugin.Errors.{ok}
use iceth_plugin.Deployment.{require_network_config, file_exists}
use iceth_plugin.Runtime.{write_file}
use iceth_plugin.Configuration.{network_config}
use iceth_plugin.Phase1.Setup.{configured_contract}
use iceth_plugin.Configuration.{get_network_config}
use iceth_plugin.Runtime.{World}
use iceth_plugin.Runtime.Contracts.{Component, IDeployments, malformed}
use iceth_plugin.Runtime.Live.{HasCode}
use iceth_plugin.Deployment.{
  get_chain_id, get_deployment_filename, is_valid_contract, require_set, require_contract,
}
use iceth_plugin.Deployment.Utils.{validate_implementations, valid_components, all_valid}
use iceth_plugin.Deployment.Validation.{validate_implementations-HasCode}
use iceth_plugin.Tests.Reference.{local, start}
use iceth_plugin.Phase1.Setup.{initial_deployments, setup_deployments}
use iceth_plugin.Phase1.Starting.{
  Starts, StartsAssets, setup_deployments-Starts, setup_asset_coll-Starts,
}
use iceth_plugin.Runtime.Ensures.{Ensures}
use iceth_plugin.Phase2.Assets.{setup_asset_coll}

abbrev token : String
token = "0x320623b8E4fF03373931769A31Fc52A4E78B5d70"

-- A record whose implementations are all at one address.
abbrev everywhere : IDeployments
everywhere =
    record (initial_deployments
      (record { rsr = token; rsr_feed = token; gnosis_easy_auction = token })) {
        implementations = record { main = token; trade = token; components = λ c. token };
      }

validate_implementations-HasCode_example :
    HasCode local start.chain token
    × HasCode local start.chain token
    × ((c : Component) → HasCode local start.chain (everywhere.implementations.components c))
unfolding validate_implementations is_valid_contract require_set require_contract valid_components
    all_valid
validate_implementations-HasCode_example = validate_implementations-HasCode everywhere start refl

setup_deployments-Starts_example :
    Ensures start (setup_deployments {H = local}) (λ _ w'. Starts start w') (λ w'. w' ≡ start)
setup_deployments-Starts_example = setup_deployments-Starts start

-- The first phase is done.
abbrev deployed : World local
deployed = record start {
  files = ("./scripts/addresses/31337-tmp-deployments.json", malformed) ∷ [];
}

setup_asset_coll-Starts_example :
    Ensures deployed
      (setup_asset_coll {H = local})
      (λ _ w'. StartsAssets deployed w')
      (λ w'. w' ≡ deployed)
setup_asset_coll-Starts_example = setup_asset_coll-Starts deployed

-- The setup goes through on the concrete network.
setup_test : (setup_deployments start).0 ≡ ok tt
unfolding setup_deployments configured_contract require_network_config file_exists get_chain_id
    get_network_config network_config get get_deployment_filename require_contract is_valid_contract
    write_file set
setup_test = refl
