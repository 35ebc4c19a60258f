-- ===== src/Tests/Wallets.antt =====
-- The tasks empty-wallet and mint-tokens, and the arguments of the collateral, on a concrete network.
use iceth_plugin.Prelude.{◌≡◌, ◌⊎◌, refl, [], ◌∷◌, ◌+ℤ◌, ◌-ℤ◌}
use iceth_plugin.Errors.{ok}
use iceth_plugin.BigNumber.Reference.{reference-IsDocumented}
use iceth_plugin.Numbers.{bn, fp}
use iceth_plugin.Numbers.Decimal.{match}
use iceth_plugin.Configuration.Localhost.{localhost}
use iceth_plugin.Runtime.Contracts.{Value, IAssetCollDeployments, IDeployments, assets_collateral}
use iceth_plugin.Runtime.Ensures.{Ensures}
use iceth_plugin.Tests.Reference.{local, start}
use iceth_plugin.Tasks.{Params, param}
use iceth_plugin.Tasks.Wallet.{empty_wallet, Emptied, empty_wallet-Emptied}
use iceth_plugin.Runtime.{World, submit, transact, view_text, view_number, get_signer, task_param}
use iceth_plugin.Deployment.{
  get_chain_id, require_network_config, get_asset_coll_deployment_filename, get_deployment_file,
}
use iceth_plugin.Configuration.{get_network_config, network_config}
use iceth_plugin.Dict.{get}
use iceth_plugin.Phase2.Assets.{get_asset_coll_deployments}
use iceth_plugin.Tasks.{require_params}
use iceth_plugin.Tasks.Minting.{mint_tokens, mint_each, mint_token, mint_static_atoken, sent}
use iceth_plugin.Tasks.Minted.{MintsFor, mint_tokens-MintsFor}
use iceth_plugin.Phase2.Collateral.Blocks.{Setting, threshold_params}
use iceth_plugin.Verification.Agreeing.{Block, deploy_block}
use iceth_plugin.Verification.Deployed.{Verifiable, recorded_of, deploy_block-Verifiable}
use iceth_plugin.Phase2.Collateral.Blocks.{deploy_fiat, store_collateral}
use iceth_plugin.Tasks.Collateral.{deploy_fiat_collateral}
use iceth_plugin.Runtime.{deploy_contract, write_file}
use iceth_plugin.Dict.{set}

abbrev to_recipient : Params
to_recipient = ("recipient", Value.text "0xb0") ∷ []

empty_wallet-Emptied_example :
    Ensures start
      (empty_wallet {H = local} to_recipient)
      (λ _ w'. Emptied start (param "recipient" to_recipient) w')
      (λ w'. (w' ≡ start) ⊎ Emptied start (param "recipient" to_recipient) w')
empty_wallet-Emptied_example = empty_wallet-Emptied reference-IsDocumented start to_recipient

abbrev to_address : Params
to_address = ("address", Value.text "0xb0") ∷ []

-- The aTokens' collateral is recorded.
abbrev minting : World local
minting = record start {
  files =
      (
        "./scripts/addresses/31337-tmp-assets-collateral.json",
        assets_collateral (record {
          assets = [];
          collateral =
              ("aDAI", "0xa1") ∷ ("aUSDC", "0xa2") ∷ ("aUSDT", "0xa3") ∷ ("aBUSD", "0xa4") ∷ [];
        }),
      )
      ∷ [];
}

mint_tokens-MintsFor_example :
    Ensures minting
      (mint_tokens {H = local} to_address)
      (λ _ w'. MintsFor (param "address" to_address) minting w')
      (λ w'. w'.files ≡ minting.files)
mint_tokens-MintsFor_example = mint_tokens-MintsFor to_address minting reference-IsDocumented

-- All of the tokens are minted.
mint_tokens_test : (mint_tokens {H = local} to_address minting).0 ≡ ok tt
unfolding mint_tokens mint_each mint_token mint_static_atoken sent submit transact view_text
    view_number get_signer get_chain_id require_network_config get_network_config network_config get
    get_asset_coll_deployments get_asset_coll_deployment_filename get_deployment_file require_params
    task_param param ◌+ℤ◌
mint_tokens_test = refl

abbrev no_deployments : IDeployments
no_deployments = record {
  prerequisites = record { rsr = ""; rsr_feed = ""; gnosis_easy_auction = "" };
  rewardable_lib = "";
  oracle_lib = "0xa4";
  trading_lib = "";
  permit_lib = "";
  facade_read = "";
  facade_write_lib = "";
  facade_write = "";
  facade_act = "";
  deployer = "";
  rsr_asset = "";
  implementations = record { main = ""; trade = ""; components = λ c. "" };
}

abbrev nothing : IAssetCollDeployments
nothing = record { assets = []; collateral = [] }

abbrev deploying : Setting
deploying = record { chain_id = "31337"; config = localhost; phase1 = no_deployments }

deploy_block-Verifiable_example :
    Ensures start
      (deploy_block {H = local} deploying Block.dai nothing)
      (λ _ w'. Verifiable (recorded_of deploying nothing) Block.dai start start w')
      (λ _. Unit {0})
deploy_block-Verifiable_example =
    deploy_block-Verifiable deploying nothing nothing start start Block.dai

-- The block returns.
deploy_block_test :
    (deploy_block {H = local} deploying Block.dai nothing start).0
    ≡ ok (record nothing { collateral = ("DAI", "0xa3") ∷ [] })
unfolding deploy_fiat threshold_params fp match ◌+ℤ◌ ◌-ℤ◌ bn deploy_fiat_collateral require_params
    task_param param get_signer get_chain_id deploy_contract store_collateral write_file set
deploy_block_test = refl
