-- ===== src/Phase3/Scripts.antt =====
-- scripts/deployment/phase3-rtoken/0_setup_deployments.ts, 1_deploy_rtoken.ts and
-- 2_deploy_governance.ts
use iceth_plugin.Prelude.{
  String, true, not, ◌||◌, Option, none, some, List, [], ◌∷◌, ℤ, pos, str_eq, if◌then◌else◌,
}
use iceth_plugin.Errors
use iceth_plugin.Errors.{Result, ok, err}
use iceth_plugin.Dict.{Dict, get}
use iceth_plugin.Events.{expect_in_receipt, expect_in_indirect_receipt}
use iceth_plugin.Configuration.RToken.{IrTokenSetup}
use iceth_plugin.Runtime.{
  Hardhat, Script, pure, throw, lift, ◌>>=◌, ◌>>◌, get_signer, view_text, view_at, transact,
  write_file,
}
use iceth_plugin.Runtime.Contracts.{Document, r_token, IrTokenDeployments, Component, Value}
use iceth_plugin.Runtime.Requests.{Transaction}
use iceth_plugin.Deployment.{
  get_deployment_filename, get_asset_coll_deployment_filename, get_r_token_deployment_filename,
  get_chain_id, file_exists, get_deployment_file, get_deployments, require_network_config,
  require_contract, require_set,
}
use iceth_plugin.Deployment.Utils.{validate_prerequisites}
use iceth_plugin.Phase1.Facades.{zero_address}
use iceth_plugin.Phase2.Assets.{get_asset_coll_deployments}
use iceth_plugin.Phase3.Config.{r_token_name, get_r_token_config, fp_text, bn_text, bn_int}

-- The record that the first script writes: only the FacadeWrite is known.
abbrev pub initial_r_token : String → IrTokenDeployments
initial_r_token facade_write = record {
  facade_write = facade_write;
  main = "";
  components = λ c. "";
  r_token_asset = "";
  governance = "";
  timelock = "";
}

-- event.args.key, which may be undefined
abbrev pub argument : String → Option (Dict Value) → Result (Option Value)
argument key none = err Errors.type_error
argument key (some args) = ok (get key args)

-- A text that may be undefined, in a record that is written to a file.
abbrev pub text_of : Option Value → String
text_of (some (Value.text a)) = a
text_of _ = ""

-- What `main` has read from the network after the deployment.
abbrev pub components_of :
    String
    → String
    → String
    → String
    → String
    → String
    → String
    → String
    → String
    → String
    → Component
    → String
components_of registry backing basket broker_at distributor_at furnace_at token_trader trader token
      staked c =
    elim c [
      | Component.asset_registry ↦ registry
      | Component.backing_manager ↦ backing
      | Component.basket_handler ↦ basket
      | Component.broker ↦ broker_at
      | Component.distributor ↦ distributor_at
      | Component.furnace ↦ furnace_at
      | Component.rsr_trader ↦ trader
      | Component.r_token_trader ↦ token_trader
      | Component.r_token ↦ token
      | Component.st_rsr ↦ staked
    ]

unfoldable pub make_setup :
    String → String → List ℤ × ℤ × ℤ × ℤ → List String → List String → List String → IrTokenSetup
make_setup unit beneficiary (weights, diversity, r_token_dist, rsr_dist) assets basket backup =
    record {
      assets = assets;
      primary_basket = basket;
      weights = weights;
      backups =
          record { backup_unit = unit; diversity_factor = diversity; backup_collateral = backup }
          ∷ [];
      beneficiaries =
          record {
            beneficiary = beneficiary;
            rev_share = record { r_token_dist = r_token_dist; rsr_dist = rsr_dist };
          }
          ∷ [];
    }

module _ {H : Hardhat} where
  -- The address that an event names; `getContractAt` rejects a value that is no address.
  abbrev pub address_of : Option Value → Script H String
  address_of (some (Value.text a)) = pure a
  address_of _ = throw (Errors.rejected "getContractAt")

  -- <IRTokenDeployments>getDeploymentFile(file)
  abbrev as_r_token : String → Document → Script H IrTokenDeployments
  as_r_token file (r_token d) = pure d
  as_r_token file _ = throw (Errors.wrong_document file)

  unfoldable pub get_r_token_deployments : String → Script H IrTokenDeployments
  unfolding get_deployment_file
  get_r_token_deployments file = do document ← get_deployment_file file; as_r_token file document

  unfoldable pub setup_r_token : Script H (Unit {0})
  setup_r_token = do
    chain_id ← get_chain_id
    conf ← lift (get_r_token_config H.ethers chain_id r_token_name)
    require_network_config chain_id
    exists ← file_exists (get_r_token_deployment_filename chain_id r_token_name)
    (if exists
        then throw (Errors.file_exists (get_r_token_deployment_filename chain_id r_token_name))
        else pure tt)
    d ← get_deployments (get_deployment_filename chain_id)
    validate_prerequisites d
    require_set "FacadeWrite" (d.facade_write ∷ [])
    require_contract "FacadeWrite" d.facade_write
    write_file (get_r_token_deployment_filename chain_id r_token_name)
        (r_token (initial_r_token d.facade_write))

  -- isValidContract of an entry that may be undefined: `getCode` rejects what is no address.
  unfoldable pub validate_entry : String → Option String → Script H String
  validate_entry what none = throw (Errors.rejected "getCode")
  validate_entry what (some a) = do require_contract what a; pure a

  unfoldable pub validate_entries : String → List (Option String) → Script H (List String)
  unfolding validate_entry
  validate_entries what [] = pure []
  validate_entries what (o ∷ os) = do
    a ← validate_entry what o
    as' ← validate_entries what os
    pure (a ∷ as')

  -- The numbers of the setup.
  unfoldable pub setup_numbers : Script H (List ℤ × ℤ × ℤ × ℤ)
  setup_numbers = do
    w₁ ← lift (fp_text H.ethers "0.25")
    w₂ ← lift (fp_text H.ethers "0.25")
    w₃ ← lift (fp_text H.ethers "0.5")
    diversity ← lift (bn_int H.ethers (pos 1))
    r_token_dist ← lift (bn_text H.ethers "0")
    rsr_dist ← lift (bn_text H.ethers "0")
    pure (w₁ ∷ w₂ ∷ w₃ ∷ [], diversity, r_token_dist, rsr_dist)

  -- What the script asks the new contracts for, and the record that it writes.
  unfoldable pub read_r_token : IrTokenDeployments → String → Script H IrTokenDeployments
  read_r_token d main = do
    token ← view_text (Value.text main) "rToken"
    registry ← view_text (Value.text main) "assetRegistry"
    asset ← view_at (Value.text registry) "toAsset" (Value.text token)
    backing ← view_text (Value.text main) "backingManager"
    basket ← view_text (Value.text main) "basketHandler"
    broker_at ← view_text (Value.text main) "broker"
    distributor_at ← view_text (Value.text main) "distributor"
    furnace_at ← view_text (Value.text main) "furnace"
    token_trader ← view_text (Value.text main) "rTokenTrader"
    trader ← view_text (Value.text main) "rsrTrader"
    staked ← view_text (Value.text main) "stRSR"
    pure (record d {
      main = main;
      components =
          components_of registry backing basket broker_at distributor_at furnace_at token_trader
            trader token staked;
      r_token_asset = asset;
    })

  unfoldable pub deploy_r_token : Script H (Unit {0})
  deploy_r_token = do
    deployer ← get_signer
    chain_id ← get_chain_id
    conf ← lift (get_r_token_config H.ethers chain_id r_token_name)
    require_network_config chain_id
    d ← get_r_token_deployments (get_r_token_deployment_filename chain_id r_token_name)
    ac ← get_asset_coll_deployments (get_asset_coll_deployment_filename chain_id)
    numbers ← setup_numbers
    assets ← validate_entries "Asset" (get "stkAAVE" ac.assets ∷ get "COMP" ac.assets ∷ [])
    basket ←
        validate_entries "Collateral"
          (get "DAI" ac.collateral ∷ get "aDAI" ac.collateral ∷ get "cDAI" ac.collateral ∷ [])
    backup ← validate_entries "Collateral" (get "USDC" ac.collateral ∷ [])
    facade_deployer ← view_text (Value.text d.facade_write) "deployer"
    receipt ← transact "deployRToken" (Value.text d.facade_write) (
        Transaction.deploy_r_token conf.config
          (make_setup (H.format_bytes32 "USD") deployer numbers assets basket backup))
    event ←
        lift
          (expect_in_indirect_receipt H.chai receipt (H.parse_log "DeployerP1") "RTokenCreated" [])
    value ← lift (argument "main" event.args)
    main ← address_of value
    d' ← read_r_token d main
    write_file (get_r_token_deployment_filename chain_id r_token_name) (r_token d')

  -- The recorded addresses are those that the contracts give.
  unfoldable pub validate_r_token : IrTokenDeployments → Script H (Unit {0})
  validate_r_token d = do
    require_set "deployments"
        (d.main ∷ d.components Component.r_token ∷ d.components Component.st_rsr ∷ [])
    require_contract "Main" d.main
    require_contract "RToken" (d.components Component.r_token)
    require_contract "StRSR" (d.components Component.st_rsr)
    main ← view_text (Value.text (d.components Component.r_token)) "main"
    staked ← view_text (Value.text main) "stRSR"
    (if not (str_eq main d.main) || not (str_eq staked (d.components Component.st_rsr))
        then throw Errors.invalid_addresses
        else pure tt)

  unfoldable pub deploy_governance : Script H (Unit {0})
  deploy_governance = do
    deployer ← get_signer
    chain_id ← get_chain_id
    conf ← lift (get_r_token_config H.ethers chain_id r_token_name)
    require_network_config chain_id
    d ← get_r_token_deployments (get_r_token_deployment_filename chain_id r_token_name)
    validate_r_token d
    receipt ← transact "setupGovernance" (Value.text d.facade_write) (
        Transaction.setup_governance (Value.text (d.components Component.r_token)) true
          (not (str_eq chain_id "1")) conf.governance zero_address zero_address zero_address)
    event ← lift (expect_in_receipt H.chai receipt "GovernanceCreated" [])
    governance ← lift (argument "governance" event.args)
    timelock ← lift (argument "timelock" event.args)
    write_file (get_r_token_deployment_filename chain_id r_token_name)
        (r_token (record d { governance = text_of governance; timelock = text_of timelock }))
