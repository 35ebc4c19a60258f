-- ===== src/Phase1/Meeting.antt =====
-- The scripts of scripts/deployment/phase1-common/ after the first, beside Phase1.Updating.
use iceth_plugin.Runtime.{Hardhat, World, Script}
use iceth_plugin.Runtime.Ensures.{Ensures}
use iceth_plugin.Phase1.Setup.{deploy_libraries}
use iceth_plugin.Phase1.Facades.{
  deploy_rsr_asset, deploy_facade, deploy_deployer, deploy_facade_write, deploy_facade_act,
}
use iceth_plugin.Phase1.Implementations.{deploy_implementations}
use iceth_plugin.Phase1.Updating.{Phase1Script, Updates, Keeps}
use iceth_plugin.Phase1.Refining.{
  deploy_libraries-Refines, deploy_rsr_asset-Refines, deploy_facade-Refines,
  deploy_deployer-Refines, deploy_facade_write-Refines, deploy_facade_act-Refines,
}
use iceth_plugin.Phase1.Implementing.{deploy_implementations-Refines}

-- The functions of the scripts.
abbrev pub script_of : {H : Hardhat} → Phase1Script → Script H (Unit {0})
script_of Phase1Script.libraries = deploy_libraries
script_of Phase1Script.implementations = deploy_implementations
script_of Phase1Script.rsr_asset = deploy_rsr_asset
script_of Phase1Script.facade = deploy_facade
script_of Phase1Script.deployer = deploy_deployer
script_of Phase1Script.facade_write = deploy_facade_write
script_of Phase1Script.facade_act = deploy_facade_act

module _ {H : Hardhat} where
  -- Each of the seven scripts of phase1-common after 0_setup_deployments.ts, from any world and on
  -- any network, if it returns, has replaced the record in the deployment file of the network's
  -- chain id by one that differs from it in the fields of that script only (the four libraries, the
  -- implementations, rsrAsset, facadeRead, deployer, facadeWriteLib and facadeWrite, or facadeAct),
  -- and has left every other file; if it throws, it has written nothing or such an update.
  pub script_of-Refines :
      (s : Phase1Script) (w : World H)
      → Ensures w (script_of s) (λ _ w'. Updates s w w') (Keeps s w)
  script_of-Refines Phase1Script.libraries w = deploy_libraries-Refines w
  script_of-Refines Phase1Script.implementations w = deploy_implementations-Refines w
  script_of-Refines Phase1Script.rsr_asset w = deploy_rsr_asset-Refines w
  script_of-Refines Phase1Script.facade w = deploy_facade-Refines w
  script_of-Refines Phase1Script.deployer w = deploy_deployer-Refines w
  script_of-Refines Phase1Script.facade_write w = deploy_facade_write-Refines w
  script_of-Refines Phase1Script.facade_act w = deploy_facade_act-Refines w
