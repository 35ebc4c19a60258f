-- ===== src/Tasks/Minting.antt =====
-- tasks/testing/mint-tokens.ts
use text.Mathlib.Text.{starts_with}
use iceth_plugin.Prelude.{String, false, List, [], ◌∷◌, ℤ, pos, ◌+ℤ◌, codes, if◌then◌else◌}
use iceth_plugin.BigNumber
use iceth_plugin.Dict.{get}
use iceth_plugin.Configuration.{INetworkConfig}
use iceth_plugin.Runtime.{
  Hardhat, Script, pure, lift, ◌>>=◌, ◌>>◌, get_signer, view_text, view_number, transact, submit,
}
use iceth_plugin.Runtime.Contracts.{Value, IAssetCollDeployments}
use iceth_plugin.Runtime.Requests.{Transaction}
use iceth_plugin.Deployment.{
  get_asset_coll_deployment_filename, get_chain_id, require_network_config,
}
use iceth_plugin.Phase2.Assets.{of_option, get_asset_coll_deployments}
use iceth_plugin.Tasks.{Params, param, require_params}

abbrev pub minted_tokens : List String
minted_tokens =
    "DAI" ∷ "USDC" ∷ "USDT" ∷ "BUSD" ∷ "USDP" ∷ "TUSD" ∷ "aDAI" ∷ "aUSDC" ∷ "aUSDT" ∷ "aBUSD"
    ∷ "cDAI" ∷ "cUSDC" ∷ "cETH" ∷ "cWBTC" ∷ "AAVE" ∷ "stkAAVE" ∷ "COMP" ∷ "WETH" ∷ "WBTC" ∷ "EURT"
    ∷ "RSR" ∷ []

module _ {H : Hardhat} where
  -- A transaction that is waited for, and whose receipt is not used.
  unfoldable pub sent : String → Value → Transaction → Script H (Unit {0})
  sent method contract transaction = do receipt ← transact method contract transaction; pure tt

  -- For ATokens, mint staticAToken balances
  unfoldable pub mint_static_atoken :
      IAssetCollDeployments → String → Value → String → Value → ℤ → Script H (Unit {0})
  mint_static_atoken d deployer recipient token tok amt = do
    sent "mint" tok (Transaction.mint (Value.text deployer) amt)
    static_atoken ← view_text (of_option (get token d.collateral)) "erc20"
    sent "approve" tok (Transaction.approve (Value.text static_atoken) amt)
    symbol ← view_text (Value.text static_atoken) "symbol"
    sent "deposit" (Value.text static_atoken)
        (Transaction.deposit (Value.text deployer) amt (pos 0) false)
    submit "transfer" (Value.text static_atoken) (Transaction.transfer recipient amt)

  unfoldable pub mint_token :
      INetworkConfig → IAssetCollDeployments → String → Value → String → Script H (Unit {0})
  mint_token config d deployer recipient token = do
    decimals ← view_number (of_option (get token config.tokens)) "decimals"
    ten ← lift (H.ethers.from (BigNumber.text (codes "10")))
    amt ← lift (H.ethers.pow ten (decimals +ℤ pos 9))
    (if starts_with token "a"
        then mint_static_atoken d deployer recipient token (of_option (get token config.tokens)) amt
        else submit "mint" (of_option (get token config.tokens)) (Transaction.mint recipient amt))

  unfoldable pub mint_each :
      INetworkConfig → IAssetCollDeployments → String → Value → List String → Script H (Unit {0})
  mint_each config d deployer recipient [] = pure tt
  mint_each config d deployer recipient (token ∷ tokens) = do
    mint_token config d deployer recipient token
    mint_each config d deployer recipient tokens

  unfoldable pub mint_tokens : Params → Script H (Unit {0})
  mint_tokens params = do
    require_params ("address" ∷ []) params
    deployer ← get_signer
    chain_id ← get_chain_id
    config ← require_network_config chain_id
    d ← get_asset_coll_deployments (get_asset_coll_deployment_filename chain_id)
    mint_each config d deployer (param "address" params) minted_tokens
