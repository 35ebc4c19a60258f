-- ===== src/Phase1/Setup.antt =====
-- scripts/deployment/phase1-common/0_setup_deployments.ts and 1_deploy_libraries.ts
use iceth_plugin.Prelude.{String, not, ◌&&◌, Option, none, some, [], str_eq, if◌then◌else◌}
use iceth_plugin.Errors.{Error}
use iceth_plugin.Dict.{get}
use iceth_plugin.Runtime.{
  Hardhat, Script, pure, throw, ◌>>=◌, ◌>>◌, get_signer, deploy_contract, write_file,
}
use iceth_plugin.Runtime.Contracts.{IPrerequisites, IDeployments, Creation, phase1}
use iceth_plugin.Deployment.{
  get_deployment_filename, get_chain_id, file_exists, get_deployments, require_network_config,
  require_contract,
}
use iceth_plugin.Deployment.Utils.{validate_prerequisites}

-- The record that the first script writes: nothing is deployed yet.
abbrev pub initial_deployments : IPrerequisites → IDeployments
initial_deployments prerequisites = record {
  prerequisites = prerequisites;
  rewardable_lib = "";
  oracle_lib = "";
  trading_lib = "";
  permit_lib = "";
  facade_read = "";
  facade_write_lib = "";
  facade_write = "";
  facade_act = "";
  deployer = "";
  rsr_asset = "";
  implementations = record { main = ""; trade = ""; components = λ c. "" };
}

-- A creation with no library and no argument.
abbrev pub plain : String → Creation
plain contract = record { contract = contract; libraries = []; arguments = [] }

module _ {H : Hardhat} where
  -- if (!address) { throw ... } else if (!(await isValidContract(hre, address))) { throw ... }
  unfoldable pub configured_contract : String → Option String → Script H String
  configured_contract what none = throw (Error.missing_address what)
  configured_contract what (some address) =
      if str_eq address ""
      then throw (Error.missing_address what)
      else do require_contract what address; pure address

  unfoldable pub setup_deployments : Script H (Unit {0})
  unfolding configured_contract
  setup_deployments = do
    chain_id ← get_chain_id
    config ← require_network_config chain_id
    exists ← file_exists (get_deployment_filename chain_id)
    (if not (str_eq chain_id "31337") && exists
        then throw (Error.file_exists (get_deployment_filename chain_id))
        else pure tt)
    rsr ← configured_contract "RSR" (get "RSR" config.tokens)
    rsr_feed ← configured_contract "RSR Feed" (get "RSR" config.chainlink_feeds)
    gnosis ← configured_contract "GNOSIS_EASY_AUCTION" config.gnosis_easy_auction
    write_file (get_deployment_filename chain_id) (
        phase1 (
          initial_deployments
            (record { rsr = rsr; rsr_feed = rsr_feed; gnosis_easy_auction = gnosis })))

  unfoldable pub deploy_libraries : Script H (Unit {0})
  deploy_libraries = do
    burner ← get_signer
    chain_id ← get_chain_id
    require_network_config chain_id
    d ← get_deployments (get_deployment_filename chain_id)
    validate_prerequisites d
    trading_lib ← deploy_contract (plain "RecollateralizationLibP1")
    rewardable_lib ← deploy_contract (plain "RewardableLibP1")
    permit_lib ← deploy_contract (plain "PermitLib")
    oracle_lib ← deploy_contract (plain "OracleLib")
    write_file (get_deployment_filename chain_id) (
        phase1 (record d {
          trading_lib = trading_lib;
          rewardable_lib = rewardable_lib;
          permit_lib = permit_lib;
          oracle_lib = oracle_lib;
        }))
