-- ===== src/Deploy.antt =====
-- scripts/deploy.ts: the scripts of the first two phases, one after the other.
--
-- Each script is run by `hardhat run` in a process of its own on the same network and files. A script
-- that throws ends with the exit code 1, by which `sh` rejects, and the run ends there.
use iceth_plugin.Prelude.{List, [], ◌∷◌, All}
use iceth_plugin.Runtime.{Hardhat, World, Script, pure, ◌>>=◌, ◌>>◌, get_signer}
use iceth_plugin.Runtime.Ensures.{Ensures-pure, Ensures-read, Ensures-then, IsReadOnly-get_signer}
use iceth_plugin.Runtime.Live.{IsLawful, IsSound}
use iceth_plugin.Runtime.Deploying.{KeepsSound}
use iceth_plugin.Deployment.{get_chain_id, require_network_config}
use iceth_plugin.Deployment.Reading.{IsReadOnly-get_chain_id, IsReadOnly-require_network_config}
use iceth_plugin.Phase1.Setup.{setup_deployments, deploy_libraries}
use iceth_plugin.Phase1.Implementations.{deploy_implementations}
use iceth_plugin.Phase1.Facades.{
  deploy_rsr_asset, deploy_facade, deploy_deployer, deploy_facade_write, deploy_facade_act,
}
use iceth_plugin.Phase1.Completion.{deploy_implementations-KeepsSound}
use iceth_plugin.Phase1.Soundness.{
  setup_deployments-KeepsSound, deploy_libraries-KeepsSound, deploy_rsr_asset-KeepsSound,
  deploy_facade-KeepsSound, deploy_deployer-KeepsSound, deploy_facade_write-KeepsSound,
  deploy_facade_act-KeepsSound,
}
use iceth_plugin.Phase2.Assets.{setup_asset_coll, deploy_assets}
use iceth_plugin.Phase2.Collateral.{deploy_collateral}
use iceth_plugin.Phase2.Soundness.{
  setup_asset_coll-KeepsSound, deploy_assets-KeepsSound, deploy_collateral-KeepsSound,
}
use iceth_plugin.Phase2.Iceth.{
  Throws, Throws-after, Throws-first, RequiresParams, deploy_collateral-Throws,
}

module _ {H : Hardhat} where
  -- for (const script of scripts) { await sh(...) }
  unfoldable pub run_all : List (Script H (Unit {0})) → Script H (Unit {0})
  run_all [] = pure tt
  run_all (script ∷ scripts) = do script; run_all scripts

  abbrev pub scripts : List (Script H (Unit {0}))
  scripts =
      setup_deployments ∷ deploy_libraries ∷ deploy_implementations ∷ deploy_rsr_asset
      ∷ deploy_facade ∷ deploy_deployer ∷ deploy_facade_write ∷ deploy_facade_act ∷ setup_asset_coll
      ∷ deploy_assets ∷ deploy_collateral ∷ []

  unfoldable pub deploy : Script H (Unit {0})
  deploy = do
    deployer ← get_signer
    chain_id ← get_chain_id
    require_network_config chain_id
    run_all scripts

module _ {H : Hardhat} where
  run_all-KeepsSound : (l : List (Script H (Unit {0}))) → All KeepsSound l → KeepsSound (run_all l)
  unfolding run_all
  run_all-KeepsSound [] h w s = Ensures-pure w tt s
  run_all-KeepsSound (m ∷ l) h w s =
      Ensures-then w m _ (λ _ w'. IsSound w') (h.0 w s) λ _ w₁ s₁. run_all-KeepsSound l h.1 w₁ s₁

  -- If the network is lawful (a deployment that returns leaves a contract at an address that is not
  -- empty, and no deployment removes a contract) and every address in every file is empty or has a
  -- contract, then the same holds after scripts/deploy.ts, whether it returns or throws; of the
  -- file of an RToken, this is said of the FacadeWrite.
  pub deploy-KeepsSound : IsLawful H → KeepsSound (deploy {H = H})
  unfolding deploy
  deploy-KeepsSound L w s = Ensures-read w _ IsReadOnly-get_signer s λ burner _.
      Ensures-read w _ IsReadOnly-get_chain_id s λ id _.
        Ensures-read w _ (IsReadOnly-require_network_config id) s λ _ _.
          run_all-KeepsSound scripts
            (
              setup_deployments-KeepsSound L,
              (
                deploy_libraries-KeepsSound L,
                (
                  deploy_implementations-KeepsSound L,
                  (
                    deploy_rsr_asset-KeepsSound L,
                    (
                      deploy_facade-KeepsSound L,
                      (
                        deploy_deployer-KeepsSound L,
                        (
                          deploy_facade_write-KeepsSound L,
                          (
                            deploy_facade_act-KeepsSound L,
                            (
                              setup_asset_coll-KeepsSound,
                              (deploy_assets-KeepsSound L, (deploy_collateral-KeepsSound L, tt)),
                            ),
                          ),
                        ),
                      ),
                    ),
                  ),
                ),
              ),
            )
            w s

  -- If a task refuses a required parameter that is undefined, scripts/deploy.ts throws from every
  -- world: its last script always does.
  pub deploy-Throws : RequiresParams H → (w : World H) → Throws w (deploy {H = H})
  unfolding deploy run_all
  deploy-Throws missing w = Throws-after w get_signer _ λ burner w.
      Throws-after w get_chain_id _ λ id w. Throws-after w (require_network_config id) _ λ _ w.
        Throws-after w setup_deployments _ λ _ w. Throws-after w deploy_libraries _ λ _ w.
          Throws-after w deploy_implementations _ λ _ w. Throws-after w deploy_rsr_asset _ λ _ w.
            Throws-after w deploy_facade _ λ _ w. Throws-after w deploy_deployer _ λ _ w.
              Throws-after w deploy_facade_write _ λ _ w. Throws-after w deploy_facade_act _ λ _ w.
                Throws-after w setup_asset_coll _ λ _ w.
                  Throws-after w deploy_assets _
                    λ _ w. Throws-first w deploy_collateral _ (deploy_collateral-Throws missing w)
