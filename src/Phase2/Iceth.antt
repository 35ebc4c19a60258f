-- ===== src/Phase2/Iceth.antt =====
-- The last block of 2_deploy_collateral.ts and the task that it runs.
use iceth_plugin.Prelude.{sym, subst, String, ◌≡◌, refl, none, List, [], ◌∷◌, codes}
use iceth_plugin.BigNumber
use iceth_plugin.Numbers.{fp, bn}
use iceth_plugin.Dict.{get}
use iceth_plugin.Runtime.{Hardhat, World, Script, lift, ◌>>=◌, task_param, get_signer}
use iceth_plugin.Runtime.Contracts.{IAssetCollDeployments, Value}
use iceth_plugin.Runtime.Ensures.{Ensures, Ensures-then, Ensures-trivial}
use iceth_plugin.Deployment.{
  get_deployment_filename, get_asset_coll_deployment_filename, get_chain_id, get_deployments,
  require_network_config,
}
use iceth_plugin.Phase2.Assets.{require_phase1, get_asset_coll_deployments}
use iceth_plugin.Deployment.Utils.{get_current_price}
use iceth_plugin.Tasks.{Params, param, require_params}
use iceth_plugin.Tasks.Collateral.{iceth_params, deploy_iceth_collateral}
use iceth_plugin.Phase2.Collateral.Blocks.{
  Setting, deploy_iceth, deploy_wbtc, deploy_weth, deploy_eurt,
}
use iceth_plugin.Phase2.Collateral.{deploy_collateral, deploy_fiats, deploy_atokens, deploy_ctokens}

abbrev append : List String → List String → List String
append [] l = l
append (a ∷ k) l = a ∷ append k l

-- Run from `w`, the script throws.
abbrev pub Throws : {H : Hardhat} {A : Type 0} → World H → Script H A → Type 0
Throws w m = Ensures w m (λ _ _. ⊥) (λ _. Unit {0})

module _ {H : Hardhat} {A B : Type 0} where
  pub Throws-after :
      (w : World H) (m : Script H A) (f : A → Script H B)
      → ((a : A) (w' : World H) → Throws w' (f a))
      → Throws w (m >>= f)
  Throws-after w m f h = Ensures-then w m f (λ _ _. Unit) (Ensures-trivial w m) λ a w' _. h a w'

  pub Throws-first :
      (w : World H) (m : Script H A) (f : A → Script H B) → Throws w m → Throws w (m >>= f)
  Throws-first w m f h = Ensures-then w m f (λ _ _. ⊥) h λ a w' e. absurd e

-- Hardhat refuses a required parameter that is not given.
abbrev pub RequiresParams : Hardhat → Type 0
RequiresParams H = H.task_param Value.undefined ≡ none

module _ {H : Hardhat} (missing : RequiresParams H) where
  task_param-Throws :
      (w : World H) (name : String) → Throws w (task_param {H = H} name Value.undefined)
  unfolding task_param
  task_param-Throws w name = record { at = rw missing tt }

  -- A task throws where a parameter it declares is not given.
  require_params-Throws :
      (w : World H) (before : List String) (name : String) (after : List String) (params : Params)
      → param name params ≡ Value.undefined
      → Throws w (require_params {H = H} (append before (name ∷ after)) params)
  unfolding require_params
  require_params-Throws w [] name after params e =
      Throws-first w (task_param name (param name params)) _
        (subst (λ v. Throws w (task_param {H = H} name v)) (sym e) (task_param-Throws w name))
  require_params-Throws w (b ∷ before) name after params e =
      Throws-after w (task_param b (param b params)) _
        λ _ w'. require_params-Throws w' before name after params e

  deploy_iceth_collateral-Throws :
      (w : World H) (params : Params)
      → param "tokenAddress" params ≡ Value.undefined
      → Throws w (deploy_iceth_collateral {H = H} params)
  unfolding deploy_iceth_collateral
  deploy_iceth_collateral-Throws w params e =
      Throws-first w (require_params iceth_params params) _ (
        require_params-Throws w ("fallbackPrice" ∷ "chainlinkFeed" ∷ "stETHFeed" ∷ [])
          "tokenAddress" _ params e)

  deploy_iceth-Throws :
      (w : World H) (s : Setting) (d : IAssetCollDeployments) → Throws w (deploy_iceth {H = H} s d)
  unfolding deploy_iceth param get
  deploy_iceth-Throws w s d =
      Throws-after w (get_current_price (get "ETH" s.config.chainlink_feeds)) _ λ price w.
        Throws-after w (lift (fp H.ethers (BigNumber.text (codes "1e6")))) _ λ volume w.
          Throws-after w (lift (fp H.ethers (BigNumber.text (codes "0.05")))) _ λ threshold w.
            Throws-after w (lift (bn H.ethers (BigNumber.text (codes "86400")))) _ λ delay w.
              Throws-first w (deploy_iceth_collateral _) _ (deploy_iceth_collateral-Throws w _ refl)

  -- If a task refuses a required parameter that is undefined, 2_deploy_collateral.ts throws from
  -- every world: the icETH task declares tokenAddress, and the script passes erc20.
  pub deploy_collateral-Throws : (w : World H) → Throws w (deploy_collateral {H = H})
  unfolding deploy_collateral
  deploy_collateral-Throws w = Throws-after w get_signer _ λ burner w.
      Throws-after w get_chain_id _ λ id w. Throws-after w (require_network_config id) _ λ config w.
        Throws-after w (require_phase1 (get_deployment_filename id)) _ λ _ w.
          Throws-after w (get_deployments (get_deployment_filename id)) _ λ p w.
            Throws-after w (get_asset_coll_deployments (get_asset_coll_deployment_filename id)) _
              λ d w.
                let s : Setting = record { chain_id = id; config = config; phase1 = p } in
                Throws-after w (deploy_fiats s d) _ λ d₁ w.
                  Throws-after w (deploy_atokens s d₁) _ λ d₂ w.
                    Throws-after w (deploy_ctokens s d₂) _ λ d₃ w.
                      Throws-after w (deploy_wbtc s d₃) _ λ d₄ w.
                        Throws-after w (deploy_weth s d₄) _ λ d₅ w.
                          Throws-after w (deploy_eurt s d₅) _ λ d₆ w.
                            Throws-first w (deploy_iceth s d₆) _ (deploy_iceth-Throws w s d₆)
