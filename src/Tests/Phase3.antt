-- ===== src/Tests/Phase3.antt =====
-- The scripts of scripts/deployment/phase3-rtoken/ on a concrete network.
use iceth_plugin.Prelude.{◌≡◌, ◌⊎◌, inr, refl, [], ◌∷◌, arith}
use iceth_plugin.Errors.{Error, Result, ok, err}
use iceth_plugin.Errors
use iceth_plugin.Dict.{get, set}
use iceth_plugin.BigNumber.Reference.{reference, reference-IsDocumented}
use iceth_plugin.Runtime.{World}
use iceth_plugin.Runtime.Contracts.{
  phase1, r_token, assets_collateral, IrTokenDeployments, IAssetCollDeployments,
}
use iceth_plugin.Runtime.Ensures.{Ensures}
use iceth_plugin.Runtime.Live.{IsSound, IsSound-write}
use iceth_plugin.Tests.Reference.{local, start}
use iceth_plugin.Phase3.Config.{Entry, get_r_token_config}
use iceth_plugin.Phase3.Bounds.{
  IsWithinBounds, get_r_token_config-IsWithinBounds, get_r_token_config-ropsten,
}
use iceth_plugin.Deployment.{get_asset_coll_deployment_filename}
use iceth_plugin.Phase3.Scripts.{setup_r_token, deploy_r_token, deploy_governance}
use iceth_plugin.Phase1.Setup.{initial_deployments}
use iceth_plugin.Phase3.Starting.{StartsRToken, setup_r_token-Starts}
use iceth_plugin.Phase3.Asking.{AsksGovernance, SetsGovernance, AsksRToken, SetsRToken}
use iceth_plugin.Phase3.Telling.{TellsMain, TellsGovernance}
use iceth_plugin.Phase3.Updating.{
  SendsOne, Records, deploy_governance-SendsOne, deploy_r_token-SendsOne, deploy_r_token-Records,
  deploy_governance-Records,
}
use iceth_plugin.Phase3.Guarding.{
  ChainFile, r_token_file, HasParts, Agrees, deploy_r_token-HasParts, deploy_governance-Agrees,
}
use iceth_plugin.Configuration.{get_network_config, network_config}
use iceth_plugin.Phase3.Values.{r_token_config_lem, params_of, governance_of}

-- The contracts of the network answer a call with its name.
abbrev recorded_r_token : IrTokenDeployments
recorded_r_token = record {
  facade_write = "0xf0";
  main = "main";
  components = λ c. "stRSR";
  r_token_asset = "";
  governance = "";
  timelock = "";
}

abbrev recorded_parts : IAssetCollDeployments
recorded_parts = record {
  assets = ("stkAAVE", "0xa0") ∷ ("COMP", "0xa1") ∷ [];
  collateral = ("DAI", "0xa2") ∷ ("aDAI", "0xa3") ∷ ("cDAI", "0xa4") ∷ ("USDC", "0xa5") ∷ [];
}

abbrev bare : World local
bare = record {
  chain =
      "0xf0" ∷ "main" ∷ "stRSR" ∷ "0xa0" ∷ "0xa1" ∷ "0xa2" ∷ "0xa3" ∷ "0xa4" ∷ "0xa5" ∷ start.chain;
  files = [];
  verifications = [];
}

bare-IsSound : IsSound bare
unfolding get
bare-IsSound = record { at_file = λ file document e. absurd (ground arith) }

abbrev with_parts : World local
with_parts = record bare {
  files =
      set "./scripts/addresses/31337-tmp-assets-collateral.json" (assets_collateral recorded_parts)
        [];
}

with_parts-IsSound : IsSound with_parts
with_parts-IsSound =
    IsSound-write bare "./scripts/addresses/31337-tmp-assets-collateral.json"
      (assets_collateral recorded_parts)
      (
        inr ("0x6080", refl, refl),
        (
          inr ("0x6080", refl, refl),
          (
            inr ("0x6080", refl, refl),
            (
              inr ("0x6080", refl, refl),
              (inr ("0x6080", refl, refl), (inr ("0x6080", refl, refl), tt)),
            ),
          ),
        ),
      )
      bare-IsSound

abbrev ready : World local
ready = record with_parts {
  files =
      set "./scripts/addresses/31337-RTKN-tmp-deployments.json" (r_token recorded_r_token)
        with_parts.files;
}

ready-IsSound : IsSound ready
ready-IsSound =
    IsSound-write with_parts "./scripts/addresses/31337-RTKN-tmp-deployments.json"
      (r_token recorded_r_token) (inr ("0x6080", refl, refl)) with_parts-IsSound

deploy_r_token-HasParts_example :
    Ensures ready
      (deploy_r_token {H = local})
      (λ _ _.
        ChainFile ready get_asset_coll_deployment_filename assets_collateral
          (HasParts local ready.chain))
      (λ w'.
        (w' ≡ ready)
        ⊎ ChainFile ready get_asset_coll_deployment_filename assets_collateral
            (HasParts local ready.chain))
deploy_r_token-HasParts_example = deploy_r_token-HasParts ready

deploy_governance-Agrees_example :
    Ensures ready
      (deploy_governance {H = local})
      (λ _ _. ChainFile ready r_token_file r_token (Agrees local ready.chain))
      (λ w'. (w' ≡ ready) ⊎ ChainFile ready r_token_file r_token (Agrees local ready.chain))
deploy_governance-Agrees_example = deploy_governance-Agrees ready

abbrev local_entry : Entry
local_entry = record {
  config = record {
    name = "RToken";
    symbol = "RTKN";
    mandate = "mandate";
    params = params_of 14400;
  };
  governance = governance_of 7200 14400 345600;
}

local_entry-found : get_r_token_config reference "31337" "RTKN" ≡ ok local_entry
unfolding get_r_token_config get_network_config network_config get
local_entry-found = rw (r_token_config_lem reference reference-IsDocumented)

get_r_token_config-IsWithinBounds_example : IsWithinBounds local_entry.config.params
get_r_token_config-IsWithinBounds_example =
    get_r_token_config-IsWithinBounds reference reference-IsDocumented "31337" "RTKN" local_entry
      local_entry-found

get_r_token_config-ropsten_example : get_r_token_config reference "3" "RTKN" ≡ err Errors.type_error
get_r_token_config-ropsten_example =
    get_r_token_config-ropsten reference reference-IsDocumented "RTKN"

deploy_governance-SendsOne_example :
    Ensures ready
      (deploy_governance {H = local})
      (λ _ w'. SendsOne AsksGovernance SetsGovernance ready w')
      (λ w'. w'.files ≡ ready.files)
deploy_governance-SendsOne_example = deploy_governance-SendsOne ready

deploy_r_token-SendsOne_example :
    Ensures ready
      (deploy_r_token {H = local})
      (λ _ w'. SendsOne AsksRToken SetsRToken ready w')
      (λ w'. w'.files ≡ ready.files)
deploy_r_token-SendsOne_example = deploy_r_token-SendsOne ready

deploy_r_token-Records_example :
    Ensures ready
      (deploy_r_token {H = local})
      (λ _ w'. Records TellsMain ready w')
      (λ w'. w'.files ≡ ready.files)
deploy_r_token-Records_example = deploy_r_token-Records ready

deploy_governance-Records_example :
    Ensures ready
      (deploy_governance {H = local})
      (λ _ w'. Records TellsGovernance ready w')
      (λ w'. w'.files ≡ ready.files)
deploy_governance-Records_example = deploy_governance-Records ready

-- The first phase has recorded a FacadeWrite.
abbrev after_phase1 : World local
after_phase1 = record bare {
  files =
      (
        "./scripts/addresses/31337-tmp-deployments.json",
        phase1
            (record (initial_deployments
              (record { rsr = "0xa0"; rsr_feed = "0xa1"; gnosis_easy_auction = "0xa2" })) {
                facade_write = "0xf0";
              }),
      )
      ∷ [];
}

setup_r_token-Starts_example :
    Ensures after_phase1
      (setup_r_token {H = local})
      (λ _ w'. StartsRToken after_phase1 w')
      (λ w'. w' ≡ after_phase1)
setup_r_token-Starts_example = setup_r_token-Starts after_phase1
