-- ===== src/Phase1/Refining.antt =====
-- The scripts of scripts/deployment/phase1-common/ that deploy and write once, beside Phase1.Updating.
use iceth_plugin.BigNumber
use iceth_plugin.Numbers.{fp}
use iceth_plugin.Prelude.{codes, ◌≡◌, inl, refl, some, [], ◌∷◌}
use iceth_plugin.Runtime.{Hardhat, World, Script}
use iceth_plugin.Runtime.Ensures.{
  Ensures, Ensures-read, Ensures-then, IsReadOnly-get_signer, IsReadOnly-lift,
}
use iceth_plugin.Deployment.{get_deployment_filename}
use iceth_plugin.Deployment.Reading.{
  IsReadOnly-get_chain_id, IsReadOnly-get_deployments, IsReadOnly-require_network_config,
  IsReadOnly-require_set, IsReadOnly-require_contract, get_deployments-file,
}
use iceth_plugin.Deployment.Validation.{
  IsReadOnly-validate_prerequisites, IsReadOnly-get_current_price,
}
use iceth_plugin.Tasks.{Params}
use iceth_plugin.Tasks.Assets.{asset_params, deploy_asset}
use iceth_plugin.Tasks.Creating.{IsReadOnly-require_params}
use iceth_plugin.Phase1.Setup.{deploy_libraries}
use iceth_plugin.Phase1.Facades.{
  deploy_rsr_asset, deploy_facade, deploy_deployer, deploy_facade_write, deploy_facade_act,
}
use iceth_plugin.Phase1.Updating.{
  Phase1Script, Updates, Keeps, Ensures-deploy_any, Ensures-deploy_files, Ensures-guarded,
  Ensures-kept, Ensures-update,
}

-- The script meets its specification.
abbrev pub Refines : {H : Hardhat} → Phase1Script → Script H (Unit {0}) → Type 0
Refines {H} s m = (w : World H) → Ensures w m (λ _ w'. Updates s w w') (Keeps s w)

module _ {H : Hardhat} where
  pub deploy_facade-Refines : Refines Phase1Script.facade (deploy_facade {H = H})
  unfolding deploy_facade
  deploy_facade-Refines w = Ensures-guarded w _ (inl refl) λ id d here there.
      Ensures-read w _ (IsReadOnly-require_set "deployed contracts" (d.rsr_asset ∷ [])) (inl refl)
        λ _ _.
          Ensures-read w _ (IsReadOnly-require_contract "RSR Asset" d.rsr_asset) (inl refl) λ _ _.
            Ensures-deploy_any w _ _ (λ c. inl refl)
              λ a c. Ensures-update Phase1Script.facade w _ id d _ here there (a, refl) refl

  pub deploy_facade_act-Refines : Refines Phase1Script.facade_act (deploy_facade_act {H = H})
  unfolding deploy_facade_act
  deploy_facade_act-Refines w = Ensures-guarded w _ (inl refl) λ id d here there.
      Ensures-read w _ (IsReadOnly-require_set "deployed contracts" (d.rsr_asset ∷ [])) (inl refl)
        λ _ _.
          Ensures-read w _ (IsReadOnly-require_contract "RSR Asset" d.rsr_asset) (inl refl) λ _ _.
            Ensures-deploy_any w _ _ (λ c. inl refl)
              λ a c. Ensures-update Phase1Script.facade_act w _ id d _ here there (a, refl) refl

  pub deploy_deployer-Refines : Refines Phase1Script.deployer (deploy_deployer {H = H})
  unfolding deploy_deployer
  deploy_deployer-Refines w = Ensures-guarded w _ (inl refl) λ id d here there.
      Ensures-read w _ (IsReadOnly-require_set "deployed contracts" (d.facade_read ∷ [])) (inl refl)
        λ _ _.
          Ensures-read w _ (IsReadOnly-require_contract "Facade" d.facade_read) (inl refl) λ _ _.
            Ensures-deploy_any w _ _ (λ c. inl refl)
              λ a c. Ensures-update Phase1Script.deployer w _ id d _ here there (a, refl) refl

  pub deploy_facade_write-Refines : Refines Phase1Script.facade_write (deploy_facade_write {H = H})
  unfolding deploy_facade_write
  deploy_facade_write-Refines w = Ensures-guarded w _ (inl refl) λ id d here there.
      Ensures-read w _ (IsReadOnly-require_set "deployed contracts" (d.rsr_asset ∷ [])) (inl refl)
        λ _ _.
          Ensures-read w _ (IsReadOnly-require_contract "RSR Asset" d.rsr_asset) (inl refl) λ _ _.
            Ensures-deploy_any w _ _ (λ c. inl refl)
              λ l c.
                Ensures-deploy_any _ _ _ (λ c. inl refl)
                  λ a c.
                    Ensures-update Phase1Script.facade_write w _ id d _ here there (l, a, refl) refl

  -- The task writes no file.
  deploy_asset-files :
      (w : World H) (params : Params)
      → Ensures w (deploy_asset params) (λ _ w'. w'.files ≡ w.files) (λ w'. w'.files ≡ w.files)
  unfolding deploy_asset
  deploy_asset-files w params =
      Ensures-read w _ (IsReadOnly-require_params asset_params params) refl λ _ _.
        Ensures-read w _ IsReadOnly-get_signer refl λ deployer _.
          Ensures-read w _ IsReadOnly-get_chain_id refl λ id _. Ensures-deploy_files w _

  pub deploy_rsr_asset-Refines : Refines Phase1Script.rsr_asset (deploy_rsr_asset {H = H})
  unfolding deploy_rsr_asset
  deploy_rsr_asset-Refines w = Ensures-guarded w _ (inl refl) λ id d here there.
      Ensures-read w _ (IsReadOnly-get_current_price (some d.prerequisites.rsr_feed)) (inl refl)
        λ price _.
          Ensures-read w _ (IsReadOnly-lift (fp H.ethers (BigNumber.text (codes "1e6")))) (inl refl)
            λ volume _.
              Ensures-then w _ _ (λ _ w'. w'.files ≡ w.files)
                (Ensures-kept Phase1Script.rsr_asset w _ (deploy_asset-files w _))
                λ a w' same.
                  Ensures-update Phase1Script.rsr_asset w w' id d _ here there (a, refl) same

  pub deploy_libraries-Refines : Refines Phase1Script.libraries (deploy_libraries {H = H})
  unfolding deploy_libraries
  deploy_libraries-Refines w = Ensures-read w _ IsReadOnly-get_signer (inl refl) λ burner _.
      Ensures-read w _ IsReadOnly-get_chain_id (inl refl) λ id here.
        Ensures-read w _ (IsReadOnly-require_network_config id) (inl refl) λ _ _.
          Ensures-read w _ (IsReadOnly-get_deployments (get_deployment_filename id)) (inl refl)
            λ d e. Ensures-read w _ (IsReadOnly-validate_prerequisites d) (inl refl) λ _ _.
              Ensures-deploy_any w _ _ (λ c. inl refl)
                λ t c.
                  Ensures-deploy_any _ _ _ (λ c. inl refl)
                    λ r c.
                      Ensures-deploy_any _ _ _ (λ c. inl refl)
                        λ p c.
                          Ensures-deploy_any _ _ _ (λ c. inl refl)
                            λ o c.
                              Ensures-update Phase1Script.libraries w _ id d _ here
                                (get_deployments-file (get_deployment_filename id) w d e)
                                (t, r, p, o, refl) refl
