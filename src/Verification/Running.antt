-- ===== src/Verification/Running.antt =====
-- scripts/verify_etherscan.ts: the scripts of scripts/verification/ one after the other.
use iceth_plugin.Prelude.{List, [], ◌∷◌}
use iceth_plugin.Runtime.{Hardhat, Script, ◌>>=◌}
use iceth_plugin.Deployment.{
  get_deployment_filename, get_asset_coll_deployment_filename, get_deployment_file,
}
use iceth_plugin.Deploy.{run_all}
use iceth_plugin.Verification.{begin}
use iceth_plugin.Verification.Phase1.{
  verify_libraries, verify_implementations, verify_rsr_asset, verify_deployer, verify_facade,
  verify_facade_write,
}
use iceth_plugin.Verification.Collateral.{verify_collateral}
use iceth_plugin.Verification.RToken.{verify_r_token, verify_governance}

module _ {H : Hardhat} where
  abbrev pub verify_scripts : List (Script H (Unit {0}))
  verify_scripts =
      verify_libraries ∷ verify_implementations ∷ verify_rsr_asset ∷ verify_deployer ∷ verify_facade
      ∷ verify_facade_write ∷ verify_collateral ∷ verify_r_token ∷ verify_governance ∷ []

  unfoldable pub verify_etherscan : Script H (Unit {0})
  verify_etherscan = do
    chain_id ← begin
    phase1_deployments ← get_deployment_file (get_deployment_filename chain_id)
    asset_deployments ← get_deployment_file (get_asset_coll_deployment_filename chain_id)
    run_all verify_scripts
