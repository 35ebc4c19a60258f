-- ===== src/Tasks/Assets.antt =====
-- tasks/deployment/assets/deploy-asset.ts
use iceth_plugin.Prelude.{String, List, [], ◌∷◌}
use iceth_plugin.Runtime.{Hardhat, Script, ◌>>=◌, ◌>>◌, get_signer, deploy_contract}
use iceth_plugin.Deployment.{get_chain_id}
use iceth_plugin.Tasks.{Params, arguments, require_params}

abbrev pub asset_params : List String
asset_params =
    "fallbackPrice" ∷ "priceFeed" ∷ "tokenAddress" ∷ "maxTradeVolume" ∷ "oracleTimeout"
    ∷ "oracleLib" ∷ []

module _ {H : Hardhat} where
  unfoldable pub deploy_asset : Params → Script H String
  deploy_asset params = do
    require_params asset_params params
    deployer ← get_signer
    chain_id ← get_chain_id
    deploy_contract (record {
      contract = "Asset";
      libraries = [];
      arguments =
          arguments
            ("fallbackPrice" ∷ "priceFeed" ∷ "tokenAddress" ∷ "maxTradeVolume" ∷ "oracleTimeout"
              ∷ [])
            params;
    })
