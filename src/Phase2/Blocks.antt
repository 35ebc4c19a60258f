-- ===== src/Phase2/Blocks.antt =====
-- The blocks of 2_deploy_collateral.ts, one by one.
use iceth_plugin.Prelude.{codes, String, pos}
use iceth_plugin.BigNumber
use iceth_plugin.Numbers.{fp, bn}
use iceth_plugin.Dict.{get}
use iceth_plugin.Runtime.{Hardhat, World}
use iceth_plugin.Runtime.Contracts.{Value}
use iceth_plugin.Runtime.Ensures.{
  Ensures-read, Ensures-then, IsReadOnly-lift, IsReadOnly-view_text, IsReadOnly-view_number,
}
use iceth_plugin.Runtime.Live.{IsLawful, recorded}
use iceth_plugin.Runtime.Deploying.{Created, Ensures-deploy_live}
use iceth_plugin.Deployment.Validation.{IsReadOnly-get_current_price}
use iceth_plugin.Tasks.Creating
use iceth_plugin.Phase2.Collateral.Blocks.{
  Setting, Writing, token_of, deploy_fiat, deploy_atoken_fiat, deploy_ctoken_fiat, deploy_cwbtc,
  deploy_ceth, deploy_wbtc, deploy_weth, deploy_eurt, deploy_iceth,
}
use iceth_plugin.Phase2.Recording.{
  IsBlock, store_collateral-Kept, IsReadOnly-common_params, IsReadOnly-threshold_params,
  IsReadOnly-scale_price,
}

module _ {H : Hardhat} (L : IsLawful H) where
  pub deploy_fiat-IsBlock :
      (s : Setting) (writing : Writing) (token : String)
      → IsBlock (deploy_fiat {H = H} s writing token)
  unfolding deploy_fiat
  deploy_fiat-IsBlock s writing token w d (live, sound) =
      Ensures-read w _ (IsReadOnly-lift (fp H.ethers (BigNumber.text (codes "1")))) sound λ price _.
        Ensures-read w _ (IsReadOnly-threshold_params s "USD") sound λ params _.
          Ensures-then w _ _ (Created (recorded d))
            (Creating.deploy_fiat_collateral-Created L w _ (recorded d) sound live)
            λ a w' h. store_collateral-Kept s writing token a w' d h

  pub deploy_atoken_fiat-IsBlock :
      (s : Setting) (writing : Writing) (token underlying : String)
      → IsBlock (deploy_atoken_fiat {H = H} s writing token underlying)
  unfolding deploy_atoken_fiat
  deploy_atoken_fiat-IsBlock s writing token underlying w d (live, sound) =
      Ensures-read w _ (IsReadOnly-view_text (token_of s token) "name") sound λ name _.
        Ensures-read w _ (IsReadOnly-view_text (token_of s token) "symbol") sound λ symbol _.
          Ensures-deploy_live L w sound (recorded d) live _ _ λ b c' _ l₁ s₁.
            let w₁ : World H = record w { chain = c' } in
            Ensures-read w₁ _ (IsReadOnly-lift (fp H.ethers (BigNumber.text (codes "1")))) s₁
              λ one _. Ensures-read w₁ _ (IsReadOnly-view_number (Value.text b) "rate") s₁ λ rate _.
                Ensures-read w₁ _ (IsReadOnly-scale_price one rate "1e27") s₁ λ price _.
                  Ensures-read w₁ _ (IsReadOnly-threshold_params s "USD") s₁ λ params _.
                    Ensures-then w₁ _ _ (Created (recorded d))
                      (Creating.deploy_atoken_fiat_collateral-Created L w₁ _ (recorded d) s₁ l₁.1)
                      λ a w' h. store_collateral-Kept s writing token a w' d h

  pub deploy_ctoken_fiat-IsBlock :
      (s : Setting) (token underlying unit : String)
      → IsBlock (deploy_ctoken_fiat {H = H} s token underlying unit)
  unfolding deploy_ctoken_fiat
  deploy_ctoken_fiat-IsBlock s token underlying unit w d (live, sound) =
      Ensures-read w _ (IsReadOnly-lift (fp H.ethers (BigNumber.text (codes "1")))) sound λ one _.
        Ensures-read w _ (IsReadOnly-view_number (token_of s token) "exchangeRateStored") sound
          λ rate _. Ensures-read w _ (IsReadOnly-scale_price one rate unit) sound λ price _.
            Ensures-read w _ (IsReadOnly-threshold_params s "USD") sound λ params _.
              Ensures-then w _ _ (Created (recorded d))
                (Creating.deploy_ctoken_fiat_collateral-Created L w _ (recorded d) sound live)
                λ a w' h. store_collateral-Kept s Writing.write_after token a w' d h

  pub deploy_cwbtc-IsBlock : (s : Setting) → IsBlock (deploy_cwbtc {H = H} s)
  unfolding deploy_cwbtc
  deploy_cwbtc-IsBlock s w d (live, sound) =
      Ensures-read w _ (IsReadOnly-get_current_price (get "BTC" s.config.chainlink_feeds)) sound
        λ btc _.
          Ensures-read w _ (IsReadOnly-view_number (token_of s "cWBTC") "exchangeRateStored") sound
            λ rate _. Ensures-read w _ (IsReadOnly-scale_price btc rate "1e18") sound λ price _.
              Ensures-read w _ (IsReadOnly-threshold_params s "BTC") sound λ params _.
                Ensures-then w _ _ (Created (recorded d))
                  (Creating.deploy_ctoken_nonfiat_collateral-Created L w _ (recorded d) sound live)
                  λ a w' h. store_collateral-Kept s Writing.write_after "cWBTC" a w' d h

  pub deploy_ceth-IsBlock : (s : Setting) → IsBlock (deploy_ceth {H = H} s)
  unfolding deploy_ceth
  deploy_ceth-IsBlock s w d (live, sound) =
      Ensures-read w _ (IsReadOnly-get_current_price (get "ETH" s.config.chainlink_feeds)) sound
        λ eth _.
          Ensures-read w _ (IsReadOnly-view_number (token_of s "cETH") "exchangeRateStored") sound
            λ rate _. Ensures-read w _ (IsReadOnly-scale_price eth rate "1e28") sound λ price _.
              Ensures-read w _ (IsReadOnly-lift (bn H.ethers (BigNumber.int (pos 18)))) sound
                λ decimals _. Ensures-read w _ (IsReadOnly-common_params s "ETH") sound λ params _.
                  Ensures-then w _ _ (Created (recorded d))
                    (Creating.deploy_ctoken_selfreferential_collateral-Created L w _ (recorded d)
                      sound live)
                    λ a w' h. store_collateral-Kept s Writing.write_after "cETH" a w' d h

  pub deploy_wbtc-IsBlock : (s : Setting) → IsBlock (deploy_wbtc {H = H} s)
  unfolding deploy_wbtc
  deploy_wbtc-IsBlock s w d (live, sound) =
      Ensures-read w _ (IsReadOnly-get_current_price (get "BTC" s.config.chainlink_feeds)) sound
        λ btc _. Ensures-read w _ (IsReadOnly-threshold_params s "BTC") sound λ params _.
          Ensures-then w _ _ (Created (recorded d))
            (Creating.deploy_nonfiat_collateral-Created L w _ (recorded d) sound live)
            λ a w' h. store_collateral-Kept s Writing.write_after "WBTC" a w' d h

  pub deploy_weth-IsBlock : (s : Setting) → IsBlock (deploy_weth {H = H} s)
  unfolding deploy_weth
  deploy_weth-IsBlock s w d (live, sound) =
      Ensures-read w _ (IsReadOnly-get_current_price (get "ETH" s.config.chainlink_feeds)) sound
        λ eth _. Ensures-read w _ (IsReadOnly-common_params s "ETH") sound λ params _.
          Ensures-then w _ _ (Created (recorded d))
            (Creating.deploy_selfreferential_collateral-Created L w _ (recorded d) sound live)
            λ a w' h. store_collateral-Kept s Writing.write_after "WETH" a w' d h

  pub deploy_eurt-IsBlock : (s : Setting) → IsBlock (deploy_eurt {H = H} s)
  unfolding deploy_eurt
  deploy_eurt-IsBlock s w d (live, sound) =
      Ensures-read w _ (IsReadOnly-get_current_price (get "EURT" s.config.chainlink_feeds)) sound
        λ price _. Ensures-read w _ (IsReadOnly-threshold_params s "EURO") sound λ params _.
          Ensures-then w _ _ (Created (recorded d))
            (Creating.deploy_eurfiat_collateral-Created L w _ (recorded d) sound live)
            λ a w' h. store_collateral-Kept s Writing.write_after "EURT" a w' d h

  pub deploy_iceth-IsBlock : (s : Setting) → IsBlock (deploy_iceth {H = H} s)
  unfolding deploy_iceth
  deploy_iceth-IsBlock s w d (live, sound) =
      Ensures-read w _ (IsReadOnly-get_current_price (get "ETH" s.config.chainlink_feeds)) sound
        λ price _.
          Ensures-read w _ (IsReadOnly-lift (fp H.ethers (BigNumber.text (codes "1e6")))) sound
            λ volume _.
              Ensures-read w _ (IsReadOnly-lift (fp H.ethers (BigNumber.text (codes "0.05")))) sound
                λ threshold _.
                  Ensures-read w _ (IsReadOnly-lift (bn H.ethers (BigNumber.text (codes "86400"))))
                    sound
                    λ delay _.
                      Ensures-then w _ _ (Created (recorded d))
                        (Creating.deploy_iceth_collateral-Created L w _ (recorded d) sound live)
                        λ a w' h. store_collateral-Kept s Writing.write_after "ICETH" a w' d h
