-- ===== src/Confirmation/Reading.antt =====
-- scripts/confirmation/: the steps that only read.
use iceth_plugin.Prelude.{String, List, [], ◌∷◌, All}
use iceth_plugin.Runtime.{Hardhat, Script}
use iceth_plugin.Runtime.Contracts.{IrTokenDeployments}
use iceth_plugin.Runtime.Ensures.{IsReadOnly, IsReadOnly-bind, IsReadOnly-pure, reading}
use iceth_plugin.Deployment.Reading.{
  IsReadOnly-if, IsReadOnly-get_chain_id, IsReadOnly-require_network_config,
}
use iceth_plugin.Deploy.{run_all}
use iceth_plugin.Phase2.Soundness.{IsReadOnly-get_asset_coll_deployments}
use iceth_plugin.Phase3.Soundness.{IsReadOnly-get_r_token_deployments}
use iceth_plugin.Confirmation.{for_each, confirm_assets, confirm_mainnet, confirm_components}
use iceth_plugin.Confirmation.Prices.{
  IsReadOnly-refuse_development, IsReadOnly-confirm_asset, IsReadOnly-confirm_collateral,
}

module _ {H : Hardhat} where
  pub IsReadOnly-for_each :
      (body : String → Script H (Unit {0}))
      → ((a : String) → IsReadOnly (body a))
      → (l : List String) → IsReadOnly (for_each body l)
  unfolding for_each
  IsReadOnly-for_each body reads [] = IsReadOnly-pure tt
  IsReadOnly-for_each body reads (a ∷ as') =
      IsReadOnly-bind (body a) _ (reads a) λ _. IsReadOnly-for_each body reads as'

  pub IsReadOnly-run_all :
      (l : List (Script H (Unit {0}))) → All IsReadOnly l → IsReadOnly (run_all l)
  unfolding run_all
  IsReadOnly-run_all [] h = IsReadOnly-pure tt
  IsReadOnly-run_all (m ∷ l) h = IsReadOnly-bind m _ h.0 λ _. IsReadOnly-run_all l h.1

  pub IsReadOnly-confirm_assets : IsReadOnly (confirm_assets {H = H})
  unfolding confirm_assets
  IsReadOnly-confirm_assets =
      search
        (
          reading, IsReadOnly-get_chain_id, IsReadOnly-require_network_config,
          IsReadOnly-refuse_development, IsReadOnly-get_asset_coll_deployments, IsReadOnly-for_each,
          IsReadOnly-confirm_asset, IsReadOnly-confirm_collateral,
        )
        depth 20

  pub IsReadOnly-confirm_mainnet : (d : IrTokenDeployments) → IsReadOnly (confirm_mainnet {H = H} d)
  unfolding confirm_mainnet
  IsReadOnly-confirm_mainnet d = search (reading, IsReadOnly-if) depth 20

  pub IsReadOnly-confirm_components : IsReadOnly (confirm_components {H = H})
  unfolding confirm_components
  IsReadOnly-confirm_components =
      search
        (
          reading, IsReadOnly-if, IsReadOnly-get_chain_id, IsReadOnly-require_network_config,
          IsReadOnly-refuse_development, IsReadOnly-get_r_token_deployments,
          IsReadOnly-confirm_mainnet,
        )
        depth 20
