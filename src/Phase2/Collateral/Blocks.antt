-- ===== src/Phase2/Collateral/Blocks.antt =====
-- scripts/deployment/phase2-assets/2_deploy_collateral.ts: a function for each kind of block.
use Prim.Native.String
use iceth_plugin.Prelude.{String, [], ◌∷◌, ℤ, pos, codes}
use iceth_plugin.BigNumber
use iceth_plugin.Dict.{get, set}
use iceth_plugin.Numbers.{fp, bn}
use iceth_plugin.Configuration.{INetworkConfig}
use iceth_plugin.Runtime.{
  Hardhat, Script, pure, lift, ◌>>=◌, ◌>>◌, view_text, view_number, deploy_contract, write_file,
}
use iceth_plugin.Runtime.Contracts.{assets_collateral, IDeployments, IAssetCollDeployments, Value}
use iceth_plugin.Deployment.{get_asset_coll_deployment_filename}
use iceth_plugin.Deployment.Utils.{get_current_price, get_oracle_timeout}
use iceth_plugin.Tasks.{Params}
use iceth_plugin.Tasks.Collateral.{
  deploy_fiat_collateral, deploy_atoken_fiat_collateral, deploy_ctoken_fiat_collateral,
  deploy_ctoken_nonfiat_collateral, deploy_ctoken_selfreferential_collateral,
  deploy_nonfiat_collateral, deploy_selfreferential_collateral, deploy_eurfiat_collateral,
  deploy_iceth_collateral,
}
use iceth_plugin.Phase2.Assets.{of_option}

-- What main has read before the first block.
pub record Setting : Type 0 where
  pub chain_id : String
  pub config : INetworkConfig
  pub phase1 : IDeployments

-- Where a block writes the file: before it puts the new address into the object, after that, or not.
pub data Writing : Type 0 where
  write_before write_after no_write : Writing

abbrev pub feed : Setting → String → Value
feed s name = of_option (get name s.config.chainlink_feeds)

abbrev pub token_of : Setting → String → Value
token_of s name = of_option (get name s.config.tokens)

module _ {H : Hardhat} where
  -- assetCollDeployments.collateral[token] = address, and the write of the block
  unfoldable pub store_collateral :
      Setting → Writing → String → String → IAssetCollDeployments → Script H IAssetCollDeployments
  store_collateral s Writing.write_before token address d = do
    write_file (get_asset_coll_deployment_filename s.chain_id) (assets_collateral d)
    pure (record d { collateral = set token address d.collateral })
  store_collateral s Writing.no_write token address d =
      pure (record d { collateral = set token address d.collateral })
  store_collateral s Writing.write_after token address d = do
    write_file (get_asset_coll_deployment_filename s.chain_id)
        (assets_collateral (record d { collateral = set token address d.collateral }))
    pure (record d { collateral = set token address d.collateral })

  -- The arguments that most blocks share: maxTradeVolume, oracleTimeout, targetName,
  -- delayUntilDefault and oracleLib.
  unfoldable pub common_params : Setting → String → Script H Params
  common_params s target = do
    volume ← lift (fp H.ethers (BigNumber.text (codes "1e6")))
    delay ← lift (bn H.ethers (BigNumber.text (codes "86400")))
    pure (
        ("maxTradeVolume", Value.number volume)
        ∷ ("oracleTimeout", Value.number (pos (get_oracle_timeout s.chain_id)))
        ∷ ("targetName", Value.text (H.format_bytes32 target))
        ∷ ("delayUntilDefault", Value.number delay)
        ∷ ("oracleLib", Value.text s.phase1.oracle_lib)
        ∷ [])

  -- The same with the defaultThreshold of 5%.
  unfoldable pub threshold_params : Setting → String → Script H Params
  unfolding common_params
  threshold_params s target = do
    threshold ← lift (fp H.ethers (BigNumber.text (codes "0.05")))
    params ← common_params s target
    pure (("defaultThreshold", Value.number threshold) ∷ params)

  -- price.mul(rate).div(bn(unit))
  unfoldable pub scale_price : ℤ → ℤ → String → Script H ℤ
  scale_price price rate unit = do
    divisor ← lift (bn H.ethers (BigNumber.text (codes unit)))
    lift (H.ethers.div (H.ethers.mul price rate) divisor)

  -- Fiat Collateral - DAI, USDC, USDT, USDP, TUSD, BUSD
  unfoldable pub deploy_fiat :
      Setting → Writing → String → IAssetCollDeployments → Script H IAssetCollDeployments
  deploy_fiat s writing token d = do
    price ← lift (fp H.ethers (BigNumber.text (codes "1")))
    params ← threshold_params s "USD"
    address ← deploy_fiat_collateral (
        ("fallbackPrice", Value.number price)
        ∷ ("priceFeed", feed s token)
        ∷ ("tokenAddress", token_of s token)
        ∷ params)
    store_collateral s writing token address d

  -- AToken Fiat Collateral - aDAI, aUSDC, aUSDT, aBUSD, aUSDP: the token is wrapped first.
  unfoldable pub deploy_atoken_fiat :
      Setting → Writing → String → String → IAssetCollDeployments → Script H IAssetCollDeployments
  deploy_atoken_fiat s writing token underlying d = do
    name ← view_text (token_of s token) "name"
    symbol ← view_text (token_of s token) "symbol"
    static_token ← deploy_contract (record {
      contract = "StaticATokenLM";
      libraries = [];
      arguments =
          of_option s.config.aave_lending_pool
          ∷ token_of s token
          ∷ Value.text (String.◌++◌ "Static " name)
          ∷ Value.text (String.◌++◌ "s" symbol)
          ∷ [];
    })
    one ← lift (fp H.ethers (BigNumber.text (codes "1")))
    rate ← view_number (Value.text static_token) "rate"
    price ← scale_price one rate "1e27"
    params ← threshold_params s "USD"
    address ← deploy_atoken_fiat_collateral (
        ("fallbackPrice", Value.number price)
        ∷ ("priceFeed", feed s underlying)
        ∷ ("staticAToken", Value.text static_token)
        ∷ params)
    store_collateral s writing token address d

  -- CToken Fiat Collateral - cDAI, cUSDC, cUSDT, cUSDP: the unit goes by the decimals of the token.
  unfoldable pub deploy_ctoken_fiat :
      Setting → String → String → String → IAssetCollDeployments → Script H IAssetCollDeployments
  deploy_ctoken_fiat s token underlying unit d = do
    one ← lift (fp H.ethers (BigNumber.text (codes "1")))
    rate ← view_number (token_of s token) "exchangeRateStored"
    price ← scale_price one rate unit
    params ← threshold_params s "USD"
    address ← deploy_ctoken_fiat_collateral (
        ("fallbackPrice", Value.number price)
        ∷ ("priceFeed", feed s underlying)
        ∷ ("cToken", token_of s token)
        ∷ ("comptroller", of_option s.config.comptroller)
        ∷ params)
    store_collateral s Writing.write_after token address d

  unfoldable pub deploy_cwbtc : Setting → IAssetCollDeployments → Script H IAssetCollDeployments
  deploy_cwbtc s d = do
    btc ← get_current_price (get "BTC" s.config.chainlink_feeds)
    rate ← view_number (token_of s "cWBTC") "exchangeRateStored"
    price ← scale_price btc rate "1e18"
    params ← threshold_params s "BTC"
    address ← deploy_ctoken_nonfiat_collateral (
        ("fallbackPrice", Value.number price)
        ∷ ("referenceUnitFeed", feed s "WBTC")
        ∷ ("targetUnitFeed", feed s "BTC")
        ∷ ("cToken", token_of s "cWBTC")
        ∷ ("comptroller", of_option s.config.comptroller)
        ∷ params)
    store_collateral s Writing.write_after "cWBTC" address d

  unfoldable pub deploy_ceth : Setting → IAssetCollDeployments → Script H IAssetCollDeployments
  deploy_ceth s d = do
    eth ← get_current_price (get "ETH" s.config.chainlink_feeds)
    rate ← view_number (token_of s "cETH") "exchangeRateStored"
    price ← scale_price eth rate "1e28"
    decimals ← lift (bn H.ethers (BigNumber.int (pos 18)))
    params ← common_params s "ETH"
    address ← deploy_ctoken_selfreferential_collateral (
        ("fallbackPrice", Value.number price)
        ∷ ("priceFeed", feed s "ETH")
        ∷ ("cToken", token_of s "cETH")
        ∷ ("decimals", Value.number decimals)
        ∷ ("comptroller", of_option s.config.comptroller)
        ∷ params)
    store_collateral s Writing.write_after "cETH" address d

  unfoldable pub deploy_wbtc : Setting → IAssetCollDeployments → Script H IAssetCollDeployments
  deploy_wbtc s d = do
    price ← get_current_price (get "BTC" s.config.chainlink_feeds)
    params ← threshold_params s "BTC"
    address ← deploy_nonfiat_collateral (
        ("fallbackPrice", Value.number price)
        ∷ ("referenceUnitFeed", feed s "WBTC")
        ∷ ("targetUnitFeed", feed s "BTC")
        ∷ ("tokenAddress", token_of s "WBTC")
        ∷ params)
    store_collateral s Writing.write_after "WBTC" address d

  unfoldable pub deploy_weth : Setting → IAssetCollDeployments → Script H IAssetCollDeployments
  deploy_weth s d = do
    price ← get_current_price (get "ETH" s.config.chainlink_feeds)
    params ← common_params s "ETH"
    address ← deploy_selfreferential_collateral (
        ("fallbackPrice", Value.number price)
        ∷ ("priceFeed", feed s "ETH")
        ∷ ("tokenAddress", token_of s "WETH")
        ∷ params)
    store_collateral s Writing.write_after "WETH" address d

  unfoldable pub deploy_eurt : Setting → IAssetCollDeployments → Script H IAssetCollDeployments
  deploy_eurt s d = do
    price ← get_current_price (get "EURT" s.config.chainlink_feeds)
    params ← threshold_params s "EURO"
    address ← deploy_eurfiat_collateral (
        ("fallbackPrice", Value.number price)
        ∷ ("referenceUnitFeed", feed s "EURT")
        ∷ ("targetUnitFeed", feed s "EUR")
        ∷ ("tokenAddress", token_of s "EURT")
        ∷ params)
    store_collateral s Writing.write_after "EURT" address d

  -- The keys are those of the script; it passes no oracleLib.
  unfoldable pub deploy_iceth : Setting → IAssetCollDeployments → Script H IAssetCollDeployments
  deploy_iceth s d = do
    price ← get_current_price (get "ETH" s.config.chainlink_feeds)
    volume ← lift (fp H.ethers (BigNumber.text (codes "1e6")))
    threshold ← lift (fp H.ethers (BigNumber.text (codes "0.05")))
    delay ← lift (bn H.ethers (BigNumber.text (codes "86400")))
    address ← deploy_iceth_collateral (
        ("fallbackPrice", Value.number price)
        ∷ ("chainlinkFeed", feed s "ETH")
        ∷ ("stETHFeed", feed s "STETH")
        ∷ ("erc20", token_of s "ICETH")
        ∷ ("maxTradeVolume", Value.number volume)
        ∷ ("oracleTimeout", Value.number (pos (get_oracle_timeout s.chain_id)))
        ∷ ("targetName", Value.text (H.format_bytes32 "ETH"))
        ∷ ("defaultThreshold", Value.number threshold)
        ∷ ("delayUntilDefault", Value.number delay)
        ∷ ("allowedBasisPoints", Value.number threshold)
        ∷ [])
    store_collateral s Writing.write_after "ICETH" address d
