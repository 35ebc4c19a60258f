-- ===== src/Phase2/Soundness.antt =====
-- The scripts of scripts/deployment/phase2-assets/ and the addresses that they record.
use iceth_plugin.Prelude.{String, ◌≡◌, some, List, [], ◌∷◌}
use iceth_plugin.Errors.{Error, ok}
use iceth_plugin.BigNumber
use iceth_plugin.Numbers.{fp}
use iceth_plugin.Dict.{get, set}
use iceth_plugin.Prelude.{codes, arith}
use iceth_plugin.Configuration.{INetworkConfig}
use iceth_plugin.Runtime.{Hardhat, World, write_file}
use iceth_plugin.Runtime.Contracts.{assets_collateral, IDeployments, IAssetCollDeployments}
use iceth_plugin.Runtime.Ensures.{
  Ensures, Ensures-pure, Ensures-read, Ensures-then, IsReadOnly, IsReadOnly-lift,
  IsReadOnly-get_signer, IsReadOnly-throw, IsReadOnly-pure,
}
use iceth_plugin.Runtime.Live.{IsLawful, AllLive, IsSound, IsSound-write, recorded, values}
use iceth_plugin.Runtime.Deploying.{Created, KeepsSound}
use iceth_plugin.Deployment.{
  get_deployment_filename, get_asset_coll_deployment_filename, get_deployment_file, file_exists,
}
use iceth_plugin.Deployment.Reading.{
  IsReadOnly-get_chain_id, IsReadOnly-get_deployments, IsReadOnly-require_network_config,
  IsReadOnly-file_exists, IsReadOnly-if,
}
use iceth_plugin.Deployment.Validation.{IsReadOnly-get_current_price}
use iceth_plugin.Tasks.Creating.{deploy_asset-Created}
use iceth_plugin.Phase2.Assets.{
  get_asset_coll_deployments, require_phase1, setup_asset_coll, deploy_one_asset, deploy_assets,
}
use iceth_plugin.Phase2.Collateral.Blocks.{Setting}
use iceth_plugin.Phase2.Collateral.{deploy_fiats, deploy_atokens, deploy_ctokens, deploy_collateral}
use iceth_plugin.Phase2.Recording.{Kept, IsBlock, values-set-AllLive}
use iceth_plugin.Phase2.Blocks.{
  deploy_fiat-IsBlock, deploy_atoken_fiat-IsBlock, deploy_ctoken_fiat-IsBlock, deploy_cwbtc-IsBlock,
  deploy_ceth-IsBlock, deploy_wbtc-IsBlock, deploy_weth-IsBlock, deploy_eurt-IsBlock,
  deploy_iceth-IsBlock,
}

module _ {H : Hardhat} where
  pub IsReadOnly-get_asset_coll_deployments :
      (file : String) → IsReadOnly (get_asset_coll_deployments {H = H} file)
  unfolding get_asset_coll_deployments get_deployment_file
  IsReadOnly-get_asset_coll_deployments file = record { same = λ w. ground arith }

  -- A file that was read is a file of assets and collateral.
  pub get_asset_coll_deployments-file :
      (file : String) (w : World H) (d : IAssetCollDeployments)
      → get_asset_coll_deployments file w ≡ (ok d, w)
      → get file w.files ≡ some (assets_collateral d)
  unfolding get_asset_coll_deployments get_deployment_file
  get_asset_coll_deployments-file file w d h = ground arith

  pub IsReadOnly-require_phase1 : (file : String) → IsReadOnly (require_phase1 {H = H} file)
  unfolding require_phase1 file_exists
  IsReadOnly-require_phase1 file = record { same = λ w. ground arith }

  Ensures-record :
      (w : World H) (file : String) (d : IAssetCollDeployments)
      → AllLive H w.chain (recorded d)
      → IsSound w
      → Ensures w (write_file file (assets_collateral d)) (λ _ w'. IsSound w') IsSound
  unfolding write_file
  Ensures-record w file d live s = record { at = IsSound-write w file (assets_collateral d) live s }

  pub setup_asset_coll-KeepsSound : KeepsSound (setup_asset_coll {H = H})
  unfolding setup_asset_coll
  setup_asset_coll-KeepsSound w s = Ensures-read w _ IsReadOnly-get_chain_id s λ id _.
      Ensures-read w _ (IsReadOnly-require_network_config id) s λ config _.
        Ensures-read w _ (IsReadOnly-require_phase1 (get_deployment_filename id)) s λ _ _.
          Ensures-read w _ (IsReadOnly-file_exists (get_asset_coll_deployment_filename id)) s
            λ exists _.
              Ensures-read w _
                (IsReadOnly-if exists
                  (IsReadOnly-throw (Error.file_exists (get_asset_coll_deployment_filename id)))
                  (IsReadOnly-pure tt))
                s λ _ _. Ensures-record w _ (record { assets = []; collateral = [] }) tt s

module _ {H : Hardhat} (L : IsLawful H) where
  deploy_one_asset-Created :
      (w : World H) (chain_id : String) (config : INetworkConfig) (d : IDeployments)
      (feed token : String) (l : List String)
      → IsSound w
      → AllLive H w.chain l
      → Ensures w (deploy_one_asset chain_id config d feed token) (Created l) IsSound
  unfolding deploy_one_asset
  deploy_one_asset-Created w chain_id config d feed token l s live =
      Ensures-read w _ (IsReadOnly-get_current_price (get feed config.chainlink_feeds)) s λ price _.
        Ensures-read w _ (IsReadOnly-lift (fp H.ethers (BigNumber.text (codes "1e6")))) s
          λ volume _. deploy_asset-Created L w _ l s live

  -- If the network is lawful and every recorded address is empty or has a contract, the same holds
  -- after 1_deploy_assets.ts, whether it returns or throws.
  pub deploy_assets-KeepsSound : KeepsSound (deploy_assets {H = H})
  unfolding deploy_assets
  deploy_assets-KeepsSound w s = Ensures-read w _ IsReadOnly-get_signer s λ burner _.
      Ensures-read w _ IsReadOnly-get_chain_id s λ id _.
        Ensures-read w _ (IsReadOnly-require_network_config id) s λ config _.
          Ensures-read w _ (IsReadOnly-require_phase1 (get_deployment_filename id)) s λ _ _.
            Ensures-read w _ (IsReadOnly-get_deployments (get_deployment_filename id)) s λ p _.
              Ensures-read w _
                (IsReadOnly-get_asset_coll_deployments (get_asset_coll_deployment_filename id)) s
                λ d e.
                  let live =
                    s.at_file _ (assets_collateral d) (get_asset_coll_deployments-file _ w d e) in
                  Ensures-then w _ _ (Created (recorded d))
                    (deploy_one_asset-Created w id config p "AAVE" "stkAAVE" (recorded d) s live)
                    λ a w₁ h₁.
                      Ensures-then w₁ _ _ (Created (a ∷ recorded d))
                        (deploy_one_asset-Created w₁ id config p "COMP" "COMP" (a ∷ recorded d) h₁.2
                          h₁.1)
                        λ b w₂ h₂.
                          let l₁ =
                            values-set-AllLive H w₂.chain "stkAAVE" a d.assets
                              (values d.collateral []) h₂.1.1.0 h₂.1.1.1 in
                          let l₂ =
                            values-set-AllLive H w₂.chain "COMP" b (set "stkAAVE" a d.assets)
                              (values d.collateral []) h₂.1.0 l₁ in
                          Ensures-record w₂ _
                            (record d { assets = set "COMP" b (set "stkAAVE" a d.assets) }) l₂ h₂.2

  deploy_fiats-IsBlock : (s : Setting) → IsBlock (deploy_fiats {H = H} s)
  unfolding deploy_fiats
  deploy_fiats-IsBlock s w d h =
      Ensures-then w _ _ Kept (deploy_fiat-IsBlock L s _ _ w d h) λ d₁ w₁ h₁.
        Ensures-then w₁ _ _ Kept (deploy_fiat-IsBlock L s _ _ w₁ d₁ h₁) λ d₂ w₂ h₂.
          Ensures-then w₂ _ _ Kept (deploy_fiat-IsBlock L s _ _ w₂ d₂ h₂) λ d₃ w₃ h₃.
            Ensures-then w₃ _ _ Kept (deploy_fiat-IsBlock L s _ _ w₃ d₃ h₃) λ d₄ w₄ h₄.
              Ensures-then w₄ _ _ Kept (deploy_fiat-IsBlock L s _ _ w₄ d₄ h₄)
                λ d₅ w₅ h₅. deploy_fiat-IsBlock L s _ _ w₅ d₅ h₅

  deploy_atokens-IsBlock : (s : Setting) → IsBlock (deploy_atokens {H = H} s)
  unfolding deploy_atokens
  deploy_atokens-IsBlock s w d h =
      Ensures-then w _ _ Kept (deploy_atoken_fiat-IsBlock L s _ _ _ w d h) λ d₁ w₁ h₁.
        Ensures-then w₁ _ _ Kept (deploy_atoken_fiat-IsBlock L s _ _ _ w₁ d₁ h₁) λ d₂ w₂ h₂.
          Ensures-then w₂ _ _ Kept (deploy_atoken_fiat-IsBlock L s _ _ _ w₂ d₂ h₂) λ d₃ w₃ h₃.
            Ensures-then w₃ _ _ Kept (deploy_atoken_fiat-IsBlock L s _ _ _ w₃ d₃ h₃)
              λ d₄ w₄ h₄. deploy_atoken_fiat-IsBlock L s _ _ _ w₄ d₄ h₄

  deploy_ctokens-IsBlock : (s : Setting) → IsBlock (deploy_ctokens {H = H} s)
  unfolding deploy_ctokens
  deploy_ctokens-IsBlock s w d h =
      Ensures-then w _ _ Kept (deploy_ctoken_fiat-IsBlock L s _ _ _ w d h) λ d₁ w₁ h₁.
        Ensures-then w₁ _ _ Kept (deploy_ctoken_fiat-IsBlock L s _ _ _ w₁ d₁ h₁) λ d₂ w₂ h₂.
          Ensures-then w₂ _ _ Kept (deploy_ctoken_fiat-IsBlock L s _ _ _ w₂ d₂ h₂) λ d₃ w₃ h₃.
            Ensures-then w₃ _ _ Kept (deploy_ctoken_fiat-IsBlock L s _ _ _ w₃ d₃ h₃) λ d₄ w₄ h₄.
              Ensures-then w₄ _ _ Kept (deploy_cwbtc-IsBlock L s w₄ d₄ h₄)
                λ d₅ w₅ h₅. deploy_ceth-IsBlock L s w₅ d₅ h₅

  -- If the network is lawful and every recorded address is empty or has a contract, the same holds
  -- after 2_deploy_collateral.ts, whether it returns or throws at any of its steps.
  pub deploy_collateral-KeepsSound : KeepsSound (deploy_collateral {H = H})
  unfolding deploy_collateral
  deploy_collateral-KeepsSound w sound = Ensures-read w _ IsReadOnly-get_signer sound λ burner _.
      Ensures-read w _ IsReadOnly-get_chain_id sound λ id _.
        Ensures-read w _ (IsReadOnly-require_network_config id) sound λ config _.
          Ensures-read w _ (IsReadOnly-require_phase1 (get_deployment_filename id)) sound λ _ _.
            Ensures-read w _ (IsReadOnly-get_deployments (get_deployment_filename id)) sound λ p _.
              Ensures-read w _
                (IsReadOnly-get_asset_coll_deployments (get_asset_coll_deployment_filename id))
                sound
                λ d e.
                  let live =
                    sound.at_file _ (assets_collateral d)
                      (get_asset_coll_deployments-file _ w d e) in
                  let s : Setting = record { chain_id = id; config = config; phase1 = p } in
                  Ensures-then w _ _ Kept (deploy_fiats-IsBlock s w d (live, sound)) λ d₁ w₁ h₁.
                    Ensures-then w₁ _ _ Kept (deploy_atokens-IsBlock s w₁ d₁ h₁) λ d₂ w₂ h₂.
                      Ensures-then w₂ _ _ Kept (deploy_ctokens-IsBlock s w₂ d₂ h₂) λ d₃ w₃ h₃.
                        Ensures-then w₃ _ _ Kept (deploy_wbtc-IsBlock L s w₃ d₃ h₃) λ d₄ w₄ h₄.
                          Ensures-then w₄ _ _ Kept (deploy_weth-IsBlock L s w₄ d₄ h₄) λ d₅ w₅ h₅.
                            Ensures-then w₅ _ _ Kept (deploy_eurt-IsBlock L s w₅ d₅ h₅) λ d₆ w₆ h₆.
                              Ensures-then w₆ _ _ Kept (deploy_iceth-IsBlock L s w₆ d₆ h₆)
                                λ d₇ w₇ h₇. Ensures-pure w₇ tt h₇.1
