-- ===== src/Tasks/Collateral.antt =====
-- tasks/deployment/collateral/: a task for each kind of collateral. The lists are the parameters that a
-- task declares; its action reads params by the names in its body.
use iceth_plugin.Prelude.{String, List, [], ◌∷◌, ◌++◌}
use iceth_plugin.Runtime.{
  Hardhat, Script, ◌>>=◌, ◌>>◌, get_signer, view_text, view_number, deploy_contract,
}
use iceth_plugin.Runtime.Contracts.{Value}
use iceth_plugin.Deployment.{get_chain_id}
use iceth_plugin.Tasks.{Params, param, arguments, require_params}

abbrev pub fiat_params : List String
fiat_params =
    "fallbackPrice" ∷ "priceFeed" ∷ "tokenAddress" ∷ "maxTradeVolume" ∷ "oracleTimeout"
    ∷ "targetName" ∷ "defaultThreshold" ∷ "delayUntilDefault" ∷ "oracleLib" ∷ []

abbrev pub atoken_fiat_params : List String
atoken_fiat_params =
    "fallbackPrice" ∷ "priceFeed" ∷ "staticAToken" ∷ "maxTradeVolume" ∷ "oracleTimeout"
    ∷ "targetName" ∷ "defaultThreshold" ∷ "delayUntilDefault" ∷ "oracleLib" ∷ []

abbrev pub ctoken_fiat_params : List String
ctoken_fiat_params =
    "fallbackPrice" ∷ "priceFeed" ∷ "cToken" ∷ "maxTradeVolume" ∷ "oracleTimeout" ∷ "targetName"
    ∷ "defaultThreshold" ∷ "delayUntilDefault" ∷ "comptroller" ∷ "oracleLib" ∷ []

abbrev pub ctoken_nonfiat_params : List String
ctoken_nonfiat_params =
    "fallbackPrice" ∷ "referenceUnitFeed" ∷ "targetUnitFeed" ∷ "cToken" ∷ "maxTradeVolume"
    ∷ "oracleTimeout" ∷ "targetName" ∷ "defaultThreshold" ∷ "delayUntilDefault" ∷ "oracleLib" ∷ []

abbrev pub ctoken_selfreferential_params : List String
ctoken_selfreferential_params =
    "fallbackPrice" ∷ "priceFeed" ∷ "cToken" ∷ "maxTradeVolume" ∷ "oracleTimeout" ∷ "targetName"
    ∷ "delayUntilDefault" ∷ "decimals" ∷ "comptroller" ∷ "oracleLib" ∷ []

abbrev pub nonfiat_params : List String
nonfiat_params =
    "fallbackPrice" ∷ "referenceUnitFeed" ∷ "targetUnitFeed" ∷ "tokenAddress" ∷ "maxTradeVolume"
    ∷ "oracleTimeout" ∷ "targetName" ∷ "defaultThreshold" ∷ "delayUntilDefault" ∷ "oracleLib" ∷ []

abbrev pub selfreferential_params : List String
selfreferential_params =
    "fallbackPrice" ∷ "priceFeed" ∷ "tokenAddress" ∷ "maxTradeVolume" ∷ "oracleTimeout"
    ∷ "targetName" ∷ "delayUntilDefault" ∷ "oracleLib" ∷ []

abbrev pub eurfiat_params : List String
eurfiat_params =
    "fallbackPrice" ∷ "referenceUnitFeed" ∷ "targetUnitFeed" ∷ "tokenAddress" ∷ "maxTradeVolume"
    ∷ "oracleTimeout" ∷ "targetName" ∷ "defaultThreshold" ∷ "delayUntilDefault" ∷ "oracleLib" ∷ []

abbrev pub iceth_params : List String
iceth_params =
    "fallbackPrice" ∷ "chainlinkFeed" ∷ "stETHFeed" ∷ "tokenAddress" ∷ "maxTradeVolume"
    ∷ "oracleTimeout" ∷ "targetName" ∷ "defaultThreshold" ∷ "delayUntilDefault"
    ∷ "allowedDropBasisPoints" ∷ []

module _ {H : Hardhat} where
  unfoldable pub deploy_fiat_collateral : Params → Script H String
  deploy_fiat_collateral params = do
    require_params fiat_params params
    deployer ← get_signer
    chain_id ← get_chain_id
    deploy_contract (record {
      contract = "FiatCollateral";
      libraries = ("OracleLib", param "oracleLib" params) ∷ [];
      arguments =
          arguments
            ("fallbackPrice" ∷ "priceFeed" ∷ "tokenAddress" ∷ "maxTradeVolume" ∷ "oracleTimeout"
              ∷ "targetName" ∷ "defaultThreshold" ∷ "delayUntilDefault" ∷ [])
            params;
    })

  unfoldable pub deploy_atoken_fiat_collateral : Params → Script H String
  deploy_atoken_fiat_collateral params = do
    require_params atoken_fiat_params params
    deployer ← get_signer
    chain_id ← get_chain_id
    deploy_contract (record {
      contract = "ATokenFiatCollateral";
      libraries = ("OracleLib", param "oracleLib" params) ∷ [];
      arguments =
          arguments
            ("fallbackPrice" ∷ "priceFeed" ∷ "staticAToken" ∷ "maxTradeVolume" ∷ "oracleTimeout"
              ∷ "targetName" ∷ "defaultThreshold" ∷ "delayUntilDefault" ∷ [])
            params;
    })

  unfoldable pub deploy_ctoken_fiat_collateral : Params → Script H String
  deploy_ctoken_fiat_collateral params = do
    require_params ctoken_fiat_params params
    deployer ← get_signer
    chain_id ← get_chain_id
    underlying ← view_text (param "cToken" params) "underlying"
    decimals ← view_number (Value.text underlying) "decimals"
    deploy_contract (record {
      contract = "CTokenFiatCollateral";
      libraries = ("OracleLib", param "oracleLib" params) ∷ [];
      arguments =
          arguments
            ("fallbackPrice" ∷ "priceFeed" ∷ "cToken" ∷ "maxTradeVolume" ∷ "oracleTimeout"
              ∷ "targetName" ∷ "defaultThreshold" ∷ "delayUntilDefault" ∷ [])
            params
          ++ Value.number decimals ∷ param "comptroller" params ∷ [];
    })

  unfoldable pub deploy_ctoken_nonfiat_collateral : Params → Script H String
  deploy_ctoken_nonfiat_collateral params = do
    require_params ctoken_nonfiat_params params
    deployer ← get_signer
    chain_id ← get_chain_id
    underlying ← view_text (param "cToken" params) "underlying"
    decimals ← view_number (Value.text underlying) "decimals"
    deploy_contract (record {
      contract = "CTokenNonFiatCollateral";
      libraries = ("OracleLib", param "oracleLib" params) ∷ [];
      arguments =
          arguments
            ("fallbackPrice" ∷ "referenceUnitFeed" ∷ "targetUnitFeed" ∷ "cToken" ∷ "maxTradeVolume"
              ∷ "oracleTimeout" ∷ "targetName" ∷ "defaultThreshold" ∷ "delayUntilDefault" ∷ [])
            params
          ++ Value.number decimals ∷ param "comptroller" params ∷ [];
    })

  unfoldable pub deploy_ctoken_selfreferential_collateral : Params → Script H String
  deploy_ctoken_selfreferential_collateral params = do
    require_params ctoken_selfreferential_params params
    deployer ← get_signer
    chain_id ← get_chain_id
    deploy_contract (record {
      contract = "CTokenSelfReferentialCollateral";
      libraries = ("OracleLib", param "oracleLib" params) ∷ [];
      arguments =
          arguments
            ("fallbackPrice" ∷ "priceFeed" ∷ "cToken" ∷ "maxTradeVolume" ∷ "oracleTimeout"
              ∷ "targetName" ∷ "delayUntilDefault" ∷ "decimals" ∷ "comptroller" ∷ [])
            params;
    })

  unfoldable pub deploy_nonfiat_collateral : Params → Script H String
  deploy_nonfiat_collateral params = do
    require_params nonfiat_params params
    deployer ← get_signer
    chain_id ← get_chain_id
    deploy_contract (record {
      contract = "NonFiatCollateral";
      libraries = ("OracleLib", param "oracleLib" params) ∷ [];
      arguments =
          arguments
            ("fallbackPrice" ∷ "referenceUnitFeed" ∷ "targetUnitFeed" ∷ "tokenAddress"
              ∷ "maxTradeVolume" ∷ "oracleTimeout" ∷ "targetName" ∷ "defaultThreshold"
              ∷ "delayUntilDefault" ∷ [])
            params;
    })

  unfoldable pub deploy_selfreferential_collateral : Params → Script H String
  deploy_selfreferential_collateral params = do
    require_params selfreferential_params params
    deployer ← get_signer
    chain_id ← get_chain_id
    deploy_contract (record {
      contract = "SelfReferentialCollateral";
      libraries = [];
      arguments =
          arguments
            ("fallbackPrice" ∷ "priceFeed" ∷ "tokenAddress" ∷ "maxTradeVolume" ∷ "oracleTimeout"
              ∷ "targetName" ∷ "delayUntilDefault" ∷ [])
            params;
    })

  unfoldable pub deploy_eurfiat_collateral : Params → Script H String
  deploy_eurfiat_collateral params = do
    require_params eurfiat_params params
    deployer ← get_signer
    chain_id ← get_chain_id
    deploy_contract (record {
      contract = "EURFiatCollateral";
      libraries = ("OracleLib", param "oracleLib" params) ∷ [];
      arguments =
          arguments
            ("fallbackPrice" ∷ "referenceUnitFeed" ∷ "targetUnitFeed" ∷ "tokenAddress"
              ∷ "maxTradeVolume" ∷ "oracleTimeout" ∷ "targetName" ∷ "defaultThreshold"
              ∷ "delayUntilDefault" ∷ [])
            params;
    })

  unfoldable pub deploy_iceth_collateral : Params → Script H String
  deploy_iceth_collateral params = do
    require_params iceth_params params
    deployer ← get_signer
    chain_id ← get_chain_id
    deploy_contract (record {
      contract = "IcETHCollateral";
      libraries = ("OracleLib", param "oracleLib" params) ∷ [];
      arguments =
          arguments
            ("fallbackPrice" ∷ "chainlinkFeed" ∷ "stETHFeed" ∷ "erc20" ∷ "maxTradeVolume"
              ∷ "oracleTimeout" ∷ "targetName" ∷ "defaultThreshold" ∷ "delayUntilDefault"
              ∷ "allowedDropBasisPoints" ∷ [])
            params;
    })
