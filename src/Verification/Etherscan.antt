-- ===== src/Verification/Etherscan.antt =====
-- scripts/verify_etherscan.ts as a whole, and each script that it runs.
use iceth_plugin.Prelude.{String, ◌≡◌, List, [], ◌∷◌, ℤ}
use iceth_plugin.Runtime.{Hardhat, World}
use iceth_plugin.Runtime.Contracts.{IDeployments, Component}
use iceth_plugin.Runtime.Ensures.{reading}
use iceth_plugin.Deployment.Reading.{
  IsReadOnly-get_deployments, IsReadOnly-get_deployment_file, IsReadOnly-require_network_config,
}
use iceth_plugin.Phase2.Soundness.{IsReadOnly-get_asset_coll_deployments, IsReadOnly-require_phase1}
use iceth_plugin.Phase3.Soundness.{IsReadOnly-get_r_token_deployments}
use iceth_plugin.Runtime.Ensures.{IsReadOnly-pure, IsReadOnly}
use iceth_plugin.Verification.{begin}
use iceth_plugin.Verification.Phase1
use iceth_plugin.Verification.Phase1.{comp_infos, verify_components}
use iceth_plugin.Verification.Collateral
use iceth_plugin.Verification.Collateral.{
  Recorded, plain_arguments, threshold_arguments, ctoken_arguments,
}
use iceth_plugin.Verification.RToken.{verify_r_token, verify_governance}
use iceth_plugin.Verification.Running.{verify_scripts, verify_etherscan}
use iceth_plugin.Verification.Keeping.{
  Reaches, Reaches-same, none_run, OnlyVerifies, OnlyVerifies-read, OnlyVerifies-bind,
  OnlyVerifies-verify_contract, OnlyVerifies-begin, OnlyVerifies-run_all,
}

module _ {H : Hardhat} where
  pub IsReadOnly-plain_arguments :
      (s : Recorded) (t : String) → IsReadOnly (plain_arguments {H = H} s t)
  unfolding plain_arguments
  IsReadOnly-plain_arguments s t = search reading depth 12

  pub IsReadOnly-threshold_arguments :
      (s : Recorded) (t : String) → IsReadOnly (threshold_arguments {H = H} s t)
  unfolding threshold_arguments
  IsReadOnly-threshold_arguments s t = search reading depth 12

  IsReadOnly-ctoken_arguments : (s : Recorded) (n : ℤ) → IsReadOnly (ctoken_arguments {H = H} s n)
  unfolding ctoken_arguments
  IsReadOnly-ctoken_arguments s n = search reading depth 12

ruleset verifying = (
  OnlyVerifies-bind, OnlyVerifies-verify_contract, OnlyVerifies-begin, OnlyVerifies-read, reading,
  IsReadOnly-get_deployments, IsReadOnly-get_deployment_file, IsReadOnly-require_network_config,
  IsReadOnly-get_asset_coll_deployments, IsReadOnly-require_phase1,
  IsReadOnly-get_r_token_deployments, IsReadOnly-plain_arguments, IsReadOnly-threshold_arguments,
  IsReadOnly-ctoken_arguments,
)

module _ {H : Hardhat} where
  OnlyVerifies-verify_libraries : OnlyVerifies (Phase1.verify_libraries {H = H})
  unfolding Phase1.verify_libraries
  OnlyVerifies-verify_libraries = search verifying depth 30

  OnlyVerifies-verify_components :
      (id : String) (d : IDeployments) (l : List (Component × String))
      → OnlyVerifies (verify_components {H = H} id d l)
  unfolding verify_components
  OnlyVerifies-verify_components id d [] = OnlyVerifies-read (IsReadOnly-pure tt)
  OnlyVerifies-verify_components id d ((name, contract) ∷ l) =
      OnlyVerifies-bind _ _ (OnlyVerifies-verify_contract id _ [] contract)
        λ _. OnlyVerifies-verify_components id d l

  OnlyVerifies-verify_implementations : OnlyVerifies (Phase1.verify_implementations {H = H})
  unfolding Phase1.verify_implementations
  OnlyVerifies-verify_implementations = search (verifying, OnlyVerifies-verify_components) depth 30

  OnlyVerifies-verify_rsr_asset : OnlyVerifies (Phase1.verify_rsr_asset {H = H})
  unfolding Phase1.verify_rsr_asset
  OnlyVerifies-verify_rsr_asset = search verifying depth 30

  OnlyVerifies-verify_deployer : OnlyVerifies (Phase1.verify_deployer {H = H})
  unfolding Phase1.verify_deployer
  OnlyVerifies-verify_deployer = search verifying depth 30

  OnlyVerifies-verify_facade : OnlyVerifies (Phase1.verify_facade {H = H})
  unfolding Phase1.verify_facade
  OnlyVerifies-verify_facade = search verifying depth 30

  OnlyVerifies-verify_facade_write : OnlyVerifies (Phase1.verify_facade_write {H = H})
  unfolding Phase1.verify_facade_write
  OnlyVerifies-verify_facade_write = search verifying depth 30

  OnlyVerifies-verify_r_token : OnlyVerifies (verify_r_token {H = H})
  unfolding verify_r_token
  OnlyVerifies-verify_r_token = search verifying depth 30

  OnlyVerifies-verify_governance : OnlyVerifies (verify_governance {H = H})
  unfolding verify_governance
  OnlyVerifies-verify_governance = search verifying depth 30

  OnlyVerifies-verify_fiat : (s : Recorded) → OnlyVerifies (Collateral.verify_fiat {H = H} s)
  unfolding Collateral.verify_fiat
  OnlyVerifies-verify_fiat s = search verifying depth 30

  OnlyVerifies-verify_static_atoken :
      (s : Recorded) → OnlyVerifies (Collateral.verify_static_atoken {H = H} s)
  unfolding Collateral.verify_static_atoken
  OnlyVerifies-verify_static_atoken s = search verifying depth 30

  OnlyVerifies-verify_atoken_fiat :
      (s : Recorded) → OnlyVerifies (Collateral.verify_atoken_fiat {H = H} s)
  unfolding Collateral.verify_atoken_fiat
  OnlyVerifies-verify_atoken_fiat s = search verifying depth 30

  OnlyVerifies-verify_ctoken_fiat :
      (s : Recorded) → OnlyVerifies (Collateral.verify_ctoken_fiat {H = H} s)
  unfolding Collateral.verify_ctoken_fiat
  OnlyVerifies-verify_ctoken_fiat s = search verifying depth 30

  OnlyVerifies-verify_ctoken_nonfiat :
      (s : Recorded) → OnlyVerifies (Collateral.verify_ctoken_nonfiat {H = H} s)
  unfolding Collateral.verify_ctoken_nonfiat
  OnlyVerifies-verify_ctoken_nonfiat s = search verifying depth 30

  OnlyVerifies-verify_ctoken_selfreferential :
      (s : Recorded) → OnlyVerifies (Collateral.verify_ctoken_selfreferential {H = H} s)
  unfolding Collateral.verify_ctoken_selfreferential
  OnlyVerifies-verify_ctoken_selfreferential s = search verifying depth 30

  OnlyVerifies-verify_nonfiat : (s : Recorded) → OnlyVerifies (Collateral.verify_nonfiat {H = H} s)
  unfolding Collateral.verify_nonfiat
  OnlyVerifies-verify_nonfiat s = search verifying depth 30

  OnlyVerifies-verify_selfreferential :
      (s : Recorded) → OnlyVerifies (Collateral.verify_selfreferential {H = H} s)
  unfolding Collateral.verify_selfreferential
  OnlyVerifies-verify_selfreferential s = search verifying depth 30

  OnlyVerifies-verify_eurfiat : (s : Recorded) → OnlyVerifies (Collateral.verify_eurfiat {H = H} s)
  unfolding Collateral.verify_eurfiat
  OnlyVerifies-verify_eurfiat s = search verifying depth 30

  OnlyVerifies-verify_collateral : OnlyVerifies (Collateral.verify_collateral {H = H})
  unfolding Collateral.verify_collateral
  OnlyVerifies-verify_collateral =
      search
        (
          verifying, OnlyVerifies-verify_fiat, OnlyVerifies-verify_static_atoken,
          OnlyVerifies-verify_atoken_fiat, OnlyVerifies-verify_ctoken_fiat,
          OnlyVerifies-verify_ctoken_nonfiat, OnlyVerifies-verify_ctoken_selfreferential,
          OnlyVerifies-verify_nonfiat, OnlyVerifies-verify_selfreferential,
          OnlyVerifies-verify_eurfiat,
        )
        depth 40

  OnlyVerifies-verify_etherscan : OnlyVerifies (verify_etherscan {H = H})
  unfolding verify_etherscan
  OnlyVerifies-verify_etherscan = OnlyVerifies-bind begin _ OnlyVerifies-begin λ id.
      OnlyVerifies-bind _ _ (OnlyVerifies-read (IsReadOnly-get_deployment_file _)) λ _.
        OnlyVerifies-bind _ _ (OnlyVerifies-read (IsReadOnly-get_deployment_file _)) λ _.
          OnlyVerifies-run_all verify_scripts (
            OnlyVerifies-verify_libraries,
            (
              OnlyVerifies-verify_implementations,
              (
                OnlyVerifies-verify_rsr_asset,
                (
                  OnlyVerifies-verify_deployer,
                  (
                    OnlyVerifies-verify_facade,
                    (
                      OnlyVerifies-verify_facade_write,
                      (
                        OnlyVerifies-verify_collateral,
                        (OnlyVerifies-verify_r_token, (OnlyVerifies-verify_governance, tt)),
                      ),
                    ),
                  ),
                ),
              ),
            ),
          )

  -- Whether scripts/verify_etherscan.ts returns or throws, it has changed neither the network nor a
  -- file, and has run verify:verify only, each time for an address for which the service had just
  -- answered with status 200 and 1 that it has no source.
  pub verify_etherscan-Reaches :
      (w : World H)
      → Reaches w (verify_etherscan w).1
        × ((verify_etherscan w).1.chain ≡ w.chain)
        × ((verify_etherscan w).1.files ≡ w.files)
  verify_etherscan-Reaches w =
      let r = OnlyVerifies-verify_etherscan.goes w w none_run in
      let (chain, files) = Reaches-same w (verify_etherscan w).1 r in (r, chain, files)
