-- ===== src/Tests/Services.antt =====
-- scripts/confirm.ts and scripts/verify_etherscan.ts on a concrete network.
use iceth_plugin.Prelude.{
  String, Bool, ◌≡◌, refl, true, false, some, List, [], ◌∷◌, ℤ, pos, str_eq, if◌then◌else◌,
}
use iceth_plugin.Errors.{ok}
use iceth_plugin.Dict.{get}
use iceth_plugin.BigNumber.Reference.{reference-IsDocumented}
use iceth_plugin.Configuration.{is_development_chain}
use iceth_plugin.Runtime.{Hardhat, World}
use iceth_plugin.Runtime.Contracts.{
  Value, phase1, r_token, assets_collateral, IDeployments, IrTokenDeployments,
}
use iceth_plugin.Runtime.Requests.{Verification, Page}
use iceth_plugin.Tests.Reference.{local}
use iceth_plugin.Prelude.{◌+ℤ◌, ◌-ℤ◌, ◌*ℤ◌}
use iceth_plugin.Numbers.{
  bn, pow10, convert_groups, parse_scientific, shift_fraction, shift_integer,
}
use iceth_plugin.Numbers.Decimal.{match}
use iceth_plugin.Configuration.{get_network_config, network_config}
use iceth_plugin.Runtime.{view_flag, view_number, view_text, view_price}
use iceth_plugin.Deploy.{run_all}
use iceth_plugin.Phase2.Assets.{get_asset_coll_deployments}
use iceth_plugin.Phase3.Config.{bn_text}
use iceth_plugin.Phase3.Scripts.{get_r_token_deployments}
use iceth_plugin.Deployment.{
  get_chain_id, require_network_config, get_deployment_file, get_deployment_filename,
  get_asset_coll_deployment_filename, get_r_token_deployment_filename,
}
use iceth_plugin.Confirmation.{
  refuse_development, confirm_components, confirm_mainnet, confirm_asset, confirm_assets,
  confirm_collateral, current_price, for_each, peg_price, require_near, confirm,
}
use iceth_plugin.Confirmation.Establishing.{
  ConfirmsPrices, ConfirmsMainnet, confirm-ConfirmsPrices, confirm-ConfirmsMainnet,
}
use iceth_plugin.Verification.{verify_contract}
use iceth_plugin.Verification.Running.{verify_etherscan}
use iceth_plugin.Verification.Keeping.{Reaches}
use iceth_plugin.Verification.Etherscan.{verify_etherscan-Reaches}
use iceth_plugin.Verification.Repeating.{
  IsRemembering, verify_contract-twice, verify_contract-continues,
}

abbrev answer_of : String → ℤ
answer_of name =
    if str_eq name "getMinDelay"
    then pos 140737488355328
    else if str_eq name "refPerTok"
    then pos 1000000000000000000
    else if str_eq name "targetPerRef"
    then pos 1000000000000000000
    else pos 100000000

abbrev known : List Verification → Bool
known [] = false
known (v ∷ l) = true

-- A network that is no development chain, and a service that knows the source after the first run.
abbrev mainnet : Hardhat
mainnet = record local {
  network_name = "mainnet";
  send = λ c m. some "1";
  view_number = λ c a name. some (answer_of name);
  get_page = λ l url. some (record { status = 200; result_status = "1"; has_source = known l });
}

abbrev recorded_phase1 : IDeployments
recorded_phase1 = record {
  prerequisites = record { rsr = "0xa0"; rsr_feed = "0xa1"; gnosis_easy_auction = "0xa2" };
  rewardable_lib = "0xa3";
  oracle_lib = "0xa4";
  trading_lib = "0xa5";
  permit_lib = "0xa6";
  facade_read = "0xa7";
  facade_write_lib = "0xa8";
  facade_write = "0xa9";
  facade_act = "0xaa";
  deployer = "0xab";
  rsr_asset = "0xac";
  implementations = record { main = "0xad"; trade = "0xae"; components = λ c. "0xaf" };
}

abbrev recorded_r_token : IrTokenDeployments
recorded_r_token = record {
  facade_write = "0xa9";
  main = "0xb0";
  components = λ c. "0xb1";
  r_token_asset = "0xb2";
  governance = "0xb3";
  timelock = "0xb4";
}

abbrev deployed : World mainnet
deployed = record {
  chain = [];
  files =
      ("./scripts/addresses/1-tmp-deployments.json", phase1 recorded_phase1)
      ∷ (
        "./scripts/addresses/1-tmp-assets-collateral.json",
        assets_collateral
            (record { assets = ("COMP", "0xc0") ∷ []; collateral = ("DAI", "0xc1") ∷ [] }),
      )
      ∷ ("./scripts/addresses/1-RTKN-tmp-deployments.json", r_token recorded_r_token)
      ∷ [];
  verifications = [];
}

on_mainnet : get_chain_id deployed ≡ (ok "1", deployed)
unfolding get_chain_id
on_mainnet = refl

confirmed : confirm deployed ≡ (ok tt, deployed)
unfolding confirm get_chain_id require_network_config get_network_config network_config
    refuse_development is_development_chain get_deployment_file get_deployment_filename
    get_asset_coll_deployment_filename get_r_token_deployment_filename run_all confirm_components
    get_r_token_deployments confirm_mainnet view_flag view_number view_text view_price bn_text bn
    confirm_asset confirm_assets confirm_collateral current_price for_each peg_price require_near
    get match convert_groups parse_scientific pow10 shift_fraction shift_integer
    get_asset_coll_deployments ◌+ℤ◌ ◌-ℤ◌ ◌*ℤ◌
confirmed = refl

confirm-ConfirmsPrices_example :
    (is_development_chain "mainnet" ≡ false) × ConfirmsPrices deployed "1"
confirm-ConfirmsPrices_example =
    confirm-ConfirmsPrices reference-IsDocumented deployed "1" on_mainnet confirmed

confirm-ConfirmsMainnet_example : ConfirmsMainnet deployed "1"
confirm-ConfirmsMainnet_example =
    confirm-ConfirmsMainnet reference-IsDocumented deployed on_mainnet confirmed

verify_etherscan-Reaches_example :
    Reaches deployed (verify_etherscan deployed).1
    × ((verify_etherscan deployed).1.chain ≡ deployed.chain)
    × ((verify_etherscan deployed).1.files ≡ deployed.files)
verify_etherscan-Reaches_example = verify_etherscan-Reaches deployed

mainnet-IsRemembering : IsRemembering mainnet
mainnet-IsRemembering = record { remembers = λ id request l page accepted asked. has_source asked }
  where
    has_source :
        {page : Page}
        → some (record { status = 200; result_status = "1"; has_source = true }) ≡ some page
        → page.has_source ≡ true
    has_source e = cc

verify_contract-twice_example :
    (verify_contract {H = mainnet} "1"
      (Value.text "0xa7")
      []
      "FacadeRead"
      (verify_contract "1" (Value.text "0xa7") [] "FacadeRead" deployed).1).1
    ≡ (verify_contract {H = mainnet} "1" (Value.text "0xa7") [] "FacadeRead" deployed).1
verify_contract-twice_example =
    verify_contract-twice {H = mainnet} "1" (Value.text "0xa7") [] "FacadeRead"
      mainnet-IsRemembering refl deployed

verify_contract-continues_example :
    (verify_contract {H = mainnet} "1" (Value.text "0xa7") [] "FacadeRead" deployed).0 ≡ ok tt
verify_contract-continues_example =
    verify_contract-continues {H = mainnet} "1" (Value.text "0xa7") [] "FacadeRead" deployed
      (record { status = 200; result_status = "1"; has_source = false }) refl refl
