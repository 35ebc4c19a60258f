-- ===== src/Verification/Collateral.antt =====
-- scripts/verification/6_verify_collateral.ts
use Prim.Native.String
use iceth_plugin.Prelude.{String, List, [], ◌∷◌, ◌++◌, ℤ, pos}
use iceth_plugin.Dict.{get}
use iceth_plugin.Configuration.{INetworkConfig}
use iceth_plugin.Runtime.{Hardhat, Script, pure, lift, ◌>>=◌, ◌>>◌, view_text, view_number}
use iceth_plugin.Runtime.Contracts.{Value, IAssetCollDeployments}
use iceth_plugin.Deployment.{get_asset_coll_deployment_filename, require_network_config}
use iceth_plugin.Deployment.Utils.{get_oracle_timeout}
use iceth_plugin.Phase2.Assets.{of_option, get_asset_coll_deployments}
use iceth_plugin.Phase3.Config.{fp_text, bn_text, bn_int}
use iceth_plugin.Verification.{verify_contract, begin}

-- What the script has read before its first verification.
pub record Recorded : Type 0 where
  pub chain_id : String
  pub config : INetworkConfig
  pub deployments : IAssetCollDeployments

abbrev pub feed : Recorded → String → Value
feed s name = of_option (get name s.config.chainlink_feeds)

abbrev pub token_of : Recorded → String → Value
token_of s name = of_option (get name s.config.tokens)

abbrev pub collateral_of : Recorded → String → Value
collateral_of s name = of_option (get name s.deployments.collateral)

module _ {H : Hardhat} where
  -- fp('1e6'), the timeout, the target and bn('86400')
  unfoldable pub plain_arguments : Recorded → String → Script H (List Value)
  plain_arguments s target = do
    volume ← lift (fp_text H.ethers "1e6")
    delay ← lift (bn_text H.ethers "86400")
    pure (
        Value.number volume
        ∷ Value.number (pos (get_oracle_timeout s.chain_id))
        ∷ Value.text (H.format_bytes32 target)
        ∷ Value.number delay
        ∷ [])

  -- The same with fp('0.05') before the last
  unfoldable pub threshold_arguments : Recorded → String → Script H (List Value)
  threshold_arguments s target = do
    volume ← lift (fp_text H.ethers "1e6")
    threshold ← lift (fp_text H.ethers "0.05")
    delay ← lift (bn_text H.ethers "86400")
    pure (
        Value.number volume
        ∷ Value.number (pos (get_oracle_timeout s.chain_id))
        ∷ Value.text (H.format_bytes32 target)
        ∷ Value.number threshold
        ∷ Value.number delay
        ∷ [])

  -- The decimals and the comptroller, which are the last arguments for a CToken
  unfoldable pub ctoken_arguments : Recorded → ℤ → Script H (List Value)
  ctoken_arguments s decimals = do
    number ← lift (bn_int H.ethers decimals)
    pure (Value.number number ∷ of_option s.config.comptroller ∷ [])

  unfoldable pub verify_fiat : Recorded → Script H (Unit {0})
  verify_fiat s = do
    price ← view_number (collateral_of s "DAI") "fallbackPrice"
    rest ← threshold_arguments s "USD"
    verify_contract s.chain_id (collateral_of s "DAI")
        (Value.number price ∷ feed s "DAI" ∷ token_of s "DAI" ∷ rest)
        "contracts/plugins/assets/FiatCollateral.sol:FiatCollateral"

  unfoldable pub verify_static_atoken : Recorded → Script H (Unit {0})
  verify_static_atoken s = do
    static_token ← view_text (collateral_of s "aDAI") "erc20"
    name ← view_text (token_of s "aDAI") "name"
    symbol ← view_text (token_of s "aDAI") "symbol"
    verify_contract s.chain_id (Value.text static_token)
        (of_option s.config.aave_lending_pool
          ∷ token_of s "aDAI"
          ∷ Value.text (String.◌++◌ "Static " name)
          ∷ Value.text (String.◌++◌ "stat" symbol)
          ∷ [])
        "contracts/plugins/aave/StaticATokenLM.sol:StaticATokenLM"

  unfoldable pub verify_atoken_fiat : Recorded → Script H (Unit {0})
  verify_atoken_fiat s = do
    price ← view_number (collateral_of s "aDAI") "fallbackPrice"
    static_token ← view_text (collateral_of s "aDAI") "erc20"
    rest ← threshold_arguments s "USD"
    verify_contract s.chain_id (collateral_of s "aDAI")
        (Value.number price ∷ feed s "DAI" ∷ Value.text static_token ∷ rest)
        "contracts/plugins/assets/ATokenFiatCollateral.sol:ATokenFiatCollateral"

  unfoldable pub verify_ctoken_fiat : Recorded → Script H (Unit {0})
  verify_ctoken_fiat s = do
    price ← view_number (collateral_of s "cDAI") "fallbackPrice"
    middle ← threshold_arguments s "USD"
    last ← ctoken_arguments s (pos 18)
    verify_contract s.chain_id (collateral_of s "cDAI")
        (Value.number price ∷ feed s "DAI" ∷ token_of s "cDAI" ∷ middle ++ last)
        "contracts/plugins/assets/CTokenFiatCollateral.sol:CTokenFiatCollateral"

  unfoldable pub verify_ctoken_nonfiat : Recorded → Script H (Unit {0})
  verify_ctoken_nonfiat s = do
    price ← view_number (collateral_of s "cWBTC") "fallbackPrice"
    middle ← threshold_arguments s "BTC"
    last ← ctoken_arguments s (pos 8)
    verify_contract s.chain_id (collateral_of s "cWBTC")
        (Value.number price ∷ feed s "WBTC" ∷ feed s "BTC" ∷ token_of s "cWBTC" ∷ middle ++ last)
        "contracts/plugins/assets/CTokenNonFiatCollateral.sol:CTokenNonFiatCollateral"

  unfoldable pub verify_ctoken_selfreferential : Recorded → Script H (Unit {0})
  verify_ctoken_selfreferential s = do
    price ← view_number (collateral_of s "cETH") "fallbackPrice"
    middle ← plain_arguments s "ETH"
    last ← ctoken_arguments s (pos 18)
    verify_contract s.chain_id (collateral_of s "cETH")
        (Value.number price ∷ feed s "ETH" ∷ token_of s "cETH" ∷ middle ++ last)
        "contracts/plugins/assets/CTokenSelfReferentialCollateral.sol:CTokenSelfReferentialCollateral"

  unfoldable pub verify_nonfiat : Recorded → Script H (Unit {0})
  verify_nonfiat s = do
    price ← view_number (collateral_of s "WBTC") "fallbackPrice"
    rest ← threshold_arguments s "BTC"
    verify_contract s.chain_id (collateral_of s "WBTC")
        (Value.number price ∷ feed s "WBTC" ∷ feed s "BTC" ∷ token_of s "WBTC" ∷ rest)
        "contracts/plugins/assets/NonFiatCollateral.sol:NonFiatCollateral"

  unfoldable pub verify_selfreferential : Recorded → Script H (Unit {0})
  verify_selfreferential s = do
    price ← view_number (collateral_of s "WETH") "fallbackPrice"
    rest ← plain_arguments s "ETH"
    verify_contract s.chain_id (collateral_of s "WETH")
        (Value.number price ∷ feed s "ETH" ∷ token_of s "WETH" ∷ rest)
        "contracts/plugins/assets/SelfReferentialCollateral.sol:SelfReferentialCollateral"

  unfoldable pub verify_eurfiat : Recorded → Script H (Unit {0})
  verify_eurfiat s = do
    price ← view_number (collateral_of s "EURT") "fallbackPrice"
    rest ← threshold_arguments s "EURO"
    verify_contract s.chain_id (collateral_of s "EURT")
        (Value.number price ∷ feed s "EURT" ∷ feed s "EUR" ∷ token_of s "EURT" ∷ rest)
        "contracts/plugins/assets/EURFiatCollateral.sol:EURFiatCollateral"

  unfoldable pub verify_collateral : Script H (Unit {0})
  verify_collateral = do
    chain_id ← begin
    config ← require_network_config chain_id
    d ← get_asset_coll_deployments (get_asset_coll_deployment_filename chain_id)
    let s : Recorded = record { chain_id = chain_id; config = config; deployments = d }
    verify_fiat s
    verify_static_atoken s
    verify_atoken_fiat s
    verify_ctoken_fiat s
    verify_ctoken_nonfiat s
    verify_ctoken_selfreferential s
    verify_nonfiat s
    verify_selfreferential s
    verify_eurfiat s
