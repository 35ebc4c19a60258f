-- ===== src/Tasks/Creating.antt =====
-- The tasks of tasks/deployment/ and the contract that each deploys.
use iceth_plugin.Prelude.{String, List, [], ◌∷◌}
use iceth_plugin.Runtime.{Hardhat, World, Script, task_param}
use iceth_plugin.Runtime.Ensures.{
  Ensures, Ensures-read, IsReadOnly, IsReadOnly-bind, IsReadOnly-pure, IsReadOnly-get_signer,
  IsReadOnly-task_param, IsReadOnly-view_text, IsReadOnly-view_number,
}
use iceth_plugin.Runtime.Live.{IsLawful, IsSound, AllLive}
use iceth_plugin.Runtime.Deploying.{Created, Ensures-create}
use iceth_plugin.Deployment.Reading.{IsReadOnly-get_chain_id}
use iceth_plugin.Tasks.{Params, param, require_params}
use iceth_plugin.Tasks.Assets.{asset_params, deploy_asset}
use iceth_plugin.Tasks.Collateral

module _ {H : Hardhat} where
  pub IsReadOnly-require_params :
      (names : List String) (params : Params) → IsReadOnly (require_params {H = H} names params)
  unfolding require_params
  IsReadOnly-require_params [] params = IsReadOnly-pure tt
  IsReadOnly-require_params (name ∷ names) params =
      IsReadOnly-bind (task_param name (param name params)) _
        (IsReadOnly-task_param name (param name params))
        (λ _. IsReadOnly-require_params names params)

-- From a sound world in which the listed addresses are live.
abbrev pub CreatesOne : {H : Hardhat} → (Params → Script H String) → Type 0
CreatesOne {H} task =
    (w : World H) (params : Params) (l : List String)
    → IsSound w
    → AllLive H w.chain l
    → Ensures w (task params) (Created l) IsSound

module _ {H : Hardhat} (L : IsLawful H) where
  pub deploy_asset-Created : CreatesOne (deploy_asset {H = H})
  unfolding deploy_asset
  deploy_asset-Created w params l s live =
      Ensures-read w _ (IsReadOnly-require_params asset_params params) s λ _ _.
        Ensures-read w _ IsReadOnly-get_signer s λ deployer _.
          Ensures-read w _ IsReadOnly-get_chain_id s λ id _. Ensures-create L w s l live _

  pub deploy_fiat_collateral-Created : CreatesOne (Collateral.deploy_fiat_collateral {H = H})
  unfolding Collateral.deploy_fiat_collateral
  deploy_fiat_collateral-Created w params l s live =
      Ensures-read w _ (IsReadOnly-require_params Collateral.fiat_params params) s λ _ _.
        Ensures-read w _ IsReadOnly-get_signer s λ deployer _.
          Ensures-read w _ IsReadOnly-get_chain_id s λ id _. Ensures-create L w s l live _

  pub deploy_atoken_fiat_collateral-Created :
      CreatesOne (Collateral.deploy_atoken_fiat_collateral {H = H})
  unfolding Collateral.deploy_atoken_fiat_collateral
  deploy_atoken_fiat_collateral-Created w params l s live =
      Ensures-read w _ (IsReadOnly-require_params Collateral.atoken_fiat_params params) s λ _ _.
        Ensures-read w _ IsReadOnly-get_signer s λ deployer _.
          Ensures-read w _ IsReadOnly-get_chain_id s λ id _. Ensures-create L w s l live _

  pub deploy_ctoken_fiat_collateral-Created :
      CreatesOne (Collateral.deploy_ctoken_fiat_collateral {H = H})
  unfolding Collateral.deploy_ctoken_fiat_collateral
  deploy_ctoken_fiat_collateral-Created w params l s live =
      Ensures-read w _ (IsReadOnly-require_params Collateral.ctoken_fiat_params params) s λ _ _.
        Ensures-read w _ IsReadOnly-get_signer s λ deployer _.
          Ensures-read w _ IsReadOnly-get_chain_id s λ id _.
            Ensures-read w _ (IsReadOnly-view_text (param "cToken" params) "underlying") s λ u _.
              Ensures-read w _ (IsReadOnly-view_number _ "decimals") s
                λ n _. Ensures-create L w s l live _

  pub deploy_ctoken_nonfiat_collateral-Created :
      CreatesOne (Collateral.deploy_ctoken_nonfiat_collateral {H = H})
  unfolding Collateral.deploy_ctoken_nonfiat_collateral
  deploy_ctoken_nonfiat_collateral-Created w params l s live =
      Ensures-read w _ (IsReadOnly-require_params Collateral.ctoken_nonfiat_params params) s λ _ _.
        Ensures-read w _ IsReadOnly-get_signer s λ deployer _.
          Ensures-read w _ IsReadOnly-get_chain_id s λ id _.
            Ensures-read w _ (IsReadOnly-view_text (param "cToken" params) "underlying") s λ u _.
              Ensures-read w _ (IsReadOnly-view_number _ "decimals") s
                λ n _. Ensures-create L w s l live _

  pub deploy_ctoken_selfreferential_collateral-Created :
      CreatesOne (Collateral.deploy_ctoken_selfreferential_collateral {H = H})
  unfolding Collateral.deploy_ctoken_selfreferential_collateral
  deploy_ctoken_selfreferential_collateral-Created w params l s live =
      Ensures-read w _ (IsReadOnly-require_params Collateral.ctoken_selfreferential_params params) s
        λ _ _. Ensures-read w _ IsReadOnly-get_signer s λ deployer _.
          Ensures-read w _ IsReadOnly-get_chain_id s λ id _. Ensures-create L w s l live _

  pub deploy_nonfiat_collateral-Created : CreatesOne (Collateral.deploy_nonfiat_collateral {H = H})
  unfolding Collateral.deploy_nonfiat_collateral
  deploy_nonfiat_collateral-Created w params l s live =
      Ensures-read w _ (IsReadOnly-require_params Collateral.nonfiat_params params) s λ _ _.
        Ensures-read w _ IsReadOnly-get_signer s λ deployer _.
          Ensures-read w _ IsReadOnly-get_chain_id s λ id _. Ensures-create L w s l live _

  pub deploy_selfreferential_collateral-Created :
      CreatesOne (Collateral.deploy_selfreferential_collateral {H = H})
  unfolding Collateral.deploy_selfreferential_collateral
  deploy_selfreferential_collateral-Created w params l s live =
      Ensures-read w _ (IsReadOnly-require_params Collateral.selfreferential_params params) s λ _ _.
        Ensures-read w _ IsReadOnly-get_signer s λ deployer _.
          Ensures-read w _ IsReadOnly-get_chain_id s λ id _. Ensures-create L w s l live _

  pub deploy_eurfiat_collateral-Created : CreatesOne (Collateral.deploy_eurfiat_collateral {H = H})
  unfolding Collateral.deploy_eurfiat_collateral
  deploy_eurfiat_collateral-Created w params l s live =
      Ensures-read w _ (IsReadOnly-require_params Collateral.eurfiat_params params) s λ _ _.
        Ensures-read w _ IsReadOnly-get_signer s λ deployer _.
          Ensures-read w _ IsReadOnly-get_chain_id s λ id _. Ensures-create L w s l live _

  pub deploy_iceth_collateral-Created : CreatesOne (Collateral.deploy_iceth_collateral {H = H})
  unfolding Collateral.deploy_iceth_collateral
  deploy_iceth_collateral-Created w params l s live =
      Ensures-read w _ (IsReadOnly-require_params Collateral.iceth_params params) s λ _ _.
        Ensures-read w _ IsReadOnly-get_signer s λ deployer _.
          Ensures-read w _ IsReadOnly-get_chain_id s λ id _. Ensures-create L w s l live _
