-- ===== src/Verification/Deployed.antt =====
-- The constructor arguments with which 2_deploy_collateral.ts deploys a collateral, and those with which
-- 6_verify_collateral.ts verifies it.

use iceth_plugin.Prelude.{◌≡◌, refl, [], ◌∷◌, codes}
use iceth_plugin.BigNumber
use iceth_plugin.Dict.{get}
use iceth_plugin.Numbers.{fp}
use iceth_plugin.Runtime.{Hardhat, World}
use iceth_plugin.Runtime.Contracts.{Value, Creation, IAssetCollDeployments}
use iceth_plugin.Runtime.Ensures.{Ensures, Ensures-read, Ensures-weaken, IsReadOnly-lift}
use iceth_plugin.Deployment.Validation.{IsReadOnly-get_current_price}
use iceth_plugin.Tasks.{Params, param, arguments}
use iceth_plugin.Tasks.Collateral.{
  fiat_params, nonfiat_params, selfreferential_params, eurfiat_params, deploy_fiat_collateral,
  deploy_nonfiat_collateral, deploy_selfreferential_collateral, deploy_eurfiat_collateral,
}
use iceth_plugin.Phase2.Collateral.Blocks.{
  Setting, Writing, common_params, threshold_params, store_collateral, deploy_fiat, deploy_wbtc,
  deploy_weth, deploy_eurt,
}
use iceth_plugin.Phase2.Collateral.Blocks
use iceth_plugin.Phase2.Recording.{IsReadOnly-common_params, IsReadOnly-threshold_params}
use iceth_plugin.Verification.Collateral.{
  Recorded, plain_arguments, threshold_arguments, verify_fiat, verify_nonfiat,
  verify_selfreferential, verify_eurfiat,
}
use iceth_plugin.Verification.Etherscan.{IsReadOnly-plain_arguments, IsReadOnly-threshold_arguments}
use iceth_plugin.Verification.Agreeing.{
  Block, key, deploy_block, verify_block, VerifiesCreation, verified, threshold_arguments-agree,
  plain_arguments-agree, threshold_arguments-Makes, plain_arguments-Makes,
}
use iceth_plugin.Verification.Creating.{task-Creates, block-Creates}

-- The network is the one after a creation, and the verification in `v` is of this creation.
abbrev pub Verifiable : {H : Hardhat} → Recorded → Block → World H → World H → World H → Type 0
Verifiable {H} r b v w w' =
    (k : Creation) × (w'.chain ≡ (H.deploy w.chain k).1)
    × Ensures v (verify_block r b) (λ _ v'. VerifiesCreation r (key b) k v v') (λ v'. v' ≡ v)

-- What the verification reads, with the chain and the configuration of the deployment.
abbrev pub recorded_of : Setting → IAssetCollDeployments → Recorded
recorded_of s deployments = record {
  chain_id = s.chain_id;
  config = s.config;
  deployments = deployments;
}

module _ {H : Hardhat} (s : Setting) (deployments d : IAssetCollDeployments) (w v : World H) where
  dai-Verifiable :
      Ensures w
        (deploy_fiat s Writing.write_before "DAI" d)
        (λ _ w'. Verifiable (recorded_of s deployments) Block.dai v w w')
        (λ _. Unit {0})
  unfolding deploy_fiat verify_fiat deploy_fiat_collateral param get
  dai-Verifiable =
      let r : Recorded = recorded_of s deployments in
      Ensures-read w _ (IsReadOnly-lift (fp H.ethers (BigNumber.text (codes "1")))) tt λ price _.
        Ensures-read w _ (IsReadOnly-threshold_params s "USD") tt λ params e.
          let given : Params =
            (("fallbackPrice", Value.number price)
              ∷ ("priceFeed", Blocks.feed s "DAI")
              ∷ ("tokenAddress", Blocks.token_of s "DAI")
              ∷ params) in
          let k : Creation = record {
            contract = "FiatCollateral";
            libraries = ("OracleLib", param "oracleLib" given) ∷ [];
            arguments =
                arguments
                  ("fallbackPrice" ∷ "priceFeed" ∷ "tokenAddress" ∷ "maxTradeVolume"
                    ∷ "oracleTimeout" ∷ "targetName" ∷ "defaultThreshold" ∷ "delayUntilDefault"
                    ∷ [])
                  given;
          } in
          Ensures-weaken w _
            (block-Creates w k (deploy_fiat_collateral given) s Writing.write_before "DAI" d
              (task-Creates w fiat_params given k))
            λ _ w' chain. (
              k,
              chain,
              verified r "DAI" "contracts/plugins/assets/FiatCollateral.sol:FiatCollateral"
                  (Blocks.feed s "DAI" ∷ Blocks.token_of s "DAI" ∷ [])
                  (arguments
                    ("maxTradeVolume" ∷ "oracleTimeout" ∷ "targetName" ∷ "defaultThreshold"
                      ∷ "delayUntilDefault" ∷ [])
                    params)
                  (threshold_arguments r "USD") price k (IsReadOnly-threshold_arguments r "USD")
                  (threshold_arguments-Makes r "USD"
                    (arguments
                      ("maxTradeVolume" ∷ "oracleTimeout" ∷ "targetName" ∷ "defaultThreshold"
                        ∷ "delayUntilDefault" ∷ [])
                      params)
                    w (threshold_arguments-agree s r "USD" w params refl e))
                  refl refl v,
            )

  wbtc-Verifiable :
      Ensures w
        (deploy_wbtc s d)
        (λ _ w'. Verifiable (recorded_of s deployments) Block.wbtc v w w')
        (λ _. Unit {0})
  unfolding deploy_wbtc verify_nonfiat deploy_nonfiat_collateral param get
  wbtc-Verifiable =
      let r : Recorded = recorded_of s deployments in
      Ensures-read w _ (IsReadOnly-get_current_price (get "BTC" s.config.chainlink_feeds)) tt
        λ price _. Ensures-read w _ (IsReadOnly-threshold_params s "BTC") tt λ params e.
          let given : Params =
            (("fallbackPrice", Value.number price)
              ∷ ("referenceUnitFeed", Blocks.feed s "WBTC")
              ∷ ("targetUnitFeed", Blocks.feed s "BTC")
              ∷ ("tokenAddress", Blocks.token_of s "WBTC")
              ∷ params) in
          let k : Creation = record {
            contract = "NonFiatCollateral";
            libraries = ("OracleLib", param "oracleLib" given) ∷ [];
            arguments =
                arguments
                  ("fallbackPrice" ∷ "referenceUnitFeed" ∷ "targetUnitFeed" ∷ "tokenAddress"
                    ∷ "maxTradeVolume" ∷ "oracleTimeout" ∷ "targetName" ∷ "defaultThreshold"
                    ∷ "delayUntilDefault" ∷ [])
                  given;
          } in
          Ensures-weaken w _
            (block-Creates w k (deploy_nonfiat_collateral given) s Writing.write_after "WBTC" d
              (task-Creates w nonfiat_params given k))
            λ _ w' chain. (
              k,
              chain,
              verified r "WBTC" "contracts/plugins/assets/NonFiatCollateral.sol:NonFiatCollateral"
                  (Blocks.feed s "WBTC" ∷ Blocks.feed s "BTC" ∷ Blocks.token_of s "WBTC" ∷ [])
                  (arguments
                    ("maxTradeVolume" ∷ "oracleTimeout" ∷ "targetName" ∷ "defaultThreshold"
                      ∷ "delayUntilDefault" ∷ [])
                    params)
                  (threshold_arguments r "BTC") price k (IsReadOnly-threshold_arguments r "BTC")
                  (threshold_arguments-Makes r "BTC"
                    (arguments
                      ("maxTradeVolume" ∷ "oracleTimeout" ∷ "targetName" ∷ "defaultThreshold"
                        ∷ "delayUntilDefault" ∷ [])
                      params)
                    w (threshold_arguments-agree s r "BTC" w params refl e))
                  refl refl v,
            )

  weth-Verifiable :
      Ensures w
        (deploy_weth s d)
        (λ _ w'. Verifiable (recorded_of s deployments) Block.weth v w w')
        (λ _. Unit {0})
  unfolding deploy_weth verify_selfreferential deploy_selfreferential_collateral param get
  weth-Verifiable =
      let r : Recorded = recorded_of s deployments in
      Ensures-read w _ (IsReadOnly-get_current_price (get "ETH" s.config.chainlink_feeds)) tt
        λ price _. Ensures-read w _ (IsReadOnly-common_params s "ETH") tt λ params e.
          let given : Params =
            (("fallbackPrice", Value.number price)
              ∷ ("priceFeed", Blocks.feed s "ETH")
              ∷ ("tokenAddress", Blocks.token_of s "WETH")
              ∷ params) in
          let k : Creation = record {
            contract = "SelfReferentialCollateral";
            libraries = [];
            arguments =
                arguments
                  ("fallbackPrice" ∷ "priceFeed" ∷ "tokenAddress" ∷ "maxTradeVolume"
                    ∷ "oracleTimeout" ∷ "targetName" ∷ "delayUntilDefault" ∷ [])
                  given;
          } in
          Ensures-weaken w _
            (block-Creates w k (deploy_selfreferential_collateral given) s Writing.write_after
              "WETH" d (task-Creates w selfreferential_params given k))
            λ _ w' chain. (
              k,
              chain,
              verified r "WETH"
                  "contracts/plugins/assets/SelfReferentialCollateral.sol:SelfReferentialCollateral"
                  (Blocks.feed s "ETH" ∷ Blocks.token_of s "WETH" ∷ [])
                  (arguments
                    ("maxTradeVolume" ∷ "oracleTimeout" ∷ "targetName" ∷ "delayUntilDefault" ∷ [])
                    params)
                  (plain_arguments r "ETH") price k (IsReadOnly-plain_arguments r "ETH")
                  (plain_arguments-Makes r "ETH"
                    (arguments
                      ("maxTradeVolume" ∷ "oracleTimeout" ∷ "targetName" ∷ "delayUntilDefault" ∷ [])
                      params)
                    w (plain_arguments-agree s r "ETH" w params refl e))
                  refl refl v,
            )

  eurt-Verifiable :
      Ensures w
        (deploy_eurt s d)
        (λ _ w'. Verifiable (recorded_of s deployments) Block.eurt v w w')
        (λ _. Unit {0})
  unfolding deploy_eurt verify_eurfiat deploy_eurfiat_collateral param get
  eurt-Verifiable =
      let r : Recorded = recorded_of s deployments in
      Ensures-read w _ (IsReadOnly-get_current_price (get "EURT" s.config.chainlink_feeds)) tt
        λ price _. Ensures-read w _ (IsReadOnly-threshold_params s "EURO") tt λ params e.
          let given : Params =
            (("fallbackPrice", Value.number price)
              ∷ ("referenceUnitFeed", Blocks.feed s "EURT")
              ∷ ("targetUnitFeed", Blocks.feed s "EUR")
              ∷ ("tokenAddress", Blocks.token_of s "EURT")
              ∷ params) in
          let k : Creation = record {
            contract = "EURFiatCollateral";
            libraries = ("OracleLib", param "oracleLib" given) ∷ [];
            arguments =
                arguments
                  ("fallbackPrice" ∷ "referenceUnitFeed" ∷ "targetUnitFeed" ∷ "tokenAddress"
                    ∷ "maxTradeVolume" ∷ "oracleTimeout" ∷ "targetName" ∷ "defaultThreshold"
                    ∷ "delayUntilDefault" ∷ [])
                  given;
          } in
          Ensures-weaken w _
            (block-Creates w k (deploy_eurfiat_collateral given) s Writing.write_after "EURT" d
              (task-Creates w eurfiat_params given k))
            λ _ w' chain. (
              k,
              chain,
              verified r "EURT" "contracts/plugins/assets/EURFiatCollateral.sol:EURFiatCollateral"
                  (Blocks.feed s "EURT" ∷ Blocks.feed s "EUR" ∷ Blocks.token_of s "EURT" ∷ [])
                  (arguments
                    ("maxTradeVolume" ∷ "oracleTimeout" ∷ "targetName" ∷ "defaultThreshold"
                      ∷ "delayUntilDefault" ∷ [])
                    params)
                  (threshold_arguments r "EURO") price k (IsReadOnly-threshold_arguments r "EURO")
                  (threshold_arguments-Makes r "EURO"
                    (arguments
                      ("maxTradeVolume" ∷ "oracleTimeout" ∷ "targetName" ∷ "defaultThreshold"
                        ∷ "delayUntilDefault" ∷ [])
                      params)
                    w (threshold_arguments-agree s r "EURO" w params refl e))
                  refl refl v,
            )

  -- If the block of 2_deploy_collateral.ts for DAI, WBTC, WETH or EURT returns, the network is the
  -- one after a single creation, and with the same chain id and configuration the block of
  -- 6_verify_collateral.ts for the same token, in any world, if it returns, has run nothing or
  -- verify:verify for the recorded address with the path of the created contract and the
  -- constructor arguments of the creation, but for the first, the fallback price, for which it
  -- takes what the recorded contract answers; if it throws, it has run nothing.
  pub deploy_block-Verifiable :
      (b : Block)
      → Ensures w
          (deploy_block s b d)
          (λ _ w'. Verifiable (recorded_of s deployments) b v w w')
          (λ _. Unit {0})
  deploy_block-Verifiable Block.dai = dai-Verifiable
  deploy_block-Verifiable Block.wbtc = wbtc-Verifiable
  deploy_block-Verifiable Block.weth = weth-Verifiable
  deploy_block-Verifiable Block.eurt = eurt-Verifiable
