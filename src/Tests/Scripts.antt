-- ===== src/Tests/Scripts.antt =====
-- The scripts on the concrete network: each runs in the world that the ones before it have left.
use iceth_plugin.Prelude.{refl}
use iceth_plugin.Errors.{Result, ok, err}
use iceth_plugin.Runtime.{World, Script}
use iceth_plugin.Runtime.Ensures.{Ensures, Outcome}
use iceth_plugin.Runtime.Live.{IsSound}
use iceth_plugin.Tests.Reference.{local, local-IsLawful, start, start-IsSound}
use iceth_plugin.Phase1.Setup.{setup_deployments, deploy_libraries}
use iceth_plugin.Phase1.Implementations.{deploy_implementations}
use iceth_plugin.Phase1.Facades.{
  deploy_rsr_asset, deploy_facade, deploy_deployer, deploy_facade_write, deploy_facade_act,
}
use iceth_plugin.Phase1.Completion.{
  deploy_implementations-KeepsSound, deploy_implementations-IsComplete, CompletesNetwork,
}
use iceth_plugin.Phase1.Soundness.{
  setup_deployments-KeepsSound, deploy_libraries-KeepsSound, deploy_rsr_asset-KeepsSound,
  deploy_facade-KeepsSound, deploy_deployer-KeepsSound, deploy_facade_write-KeepsSound,
  deploy_facade_act-KeepsSound,
}
use iceth_plugin.Phase2.Assets.{setup_asset_coll, deploy_assets}
use iceth_plugin.Phase2.Collateral.{deploy_collateral}
use iceth_plugin.Phase2.Soundness.{
  setup_asset_coll-KeepsSound, deploy_assets-KeepsSound, deploy_collateral-KeepsSound,
}
use iceth_plugin.Phase1.Updating.{Phase1Script, Updates, Keeps}
use iceth_plugin.Phase1.Meeting.{script_of, script_of-Refines}
use iceth_plugin.Phase2.Iceth.{Throws, deploy_collateral-Throws}
use iceth_plugin.Deploy.{deploy, deploy-KeepsSound, deploy-Throws}

left : (o : Result (Unit {0}) × World local) → Outcome (λ _ w. IsSound w) IsSound o → IsSound o.1
left (ok a, w) h = h
left (err e, w) h = h

-- The world that a script leaves is sound.
leaves :
    (w : World local) (m : Script local (Unit {0}))
    → Ensures w m (λ _ w'. IsSound w') IsSound
    → IsSound (m w).1
leaves w m h = left (m w) h.at

deploy-KeepsSound_example : Ensures start (deploy {H = local}) (λ _ w. IsSound w) IsSound
deploy-KeepsSound_example = deploy-KeepsSound local-IsLawful start start-IsSound

deploy-Throws_example : Throws start (deploy {H = local})
deploy-Throws_example = deploy-Throws refl start

abbrev after_setup_deployments : World local
after_setup_deployments = (setup_deployments start).1

after_setup_deployments-IsSound : IsSound after_setup_deployments
after_setup_deployments-IsSound =
    leaves start setup_deployments (setup_deployments-KeepsSound local-IsLawful start start-IsSound)

abbrev after_deploy_libraries : World local
after_deploy_libraries = (deploy_libraries after_setup_deployments).1

after_deploy_libraries-IsSound : IsSound after_deploy_libraries
after_deploy_libraries-IsSound = leaves after_setup_deployments deploy_libraries (
    deploy_libraries-KeepsSound local-IsLawful after_setup_deployments
      after_setup_deployments-IsSound)

abbrev after_deploy_implementations : World local
after_deploy_implementations = (deploy_implementations after_deploy_libraries).1

after_deploy_implementations-IsSound : IsSound after_deploy_implementations
after_deploy_implementations-IsSound = leaves after_deploy_libraries deploy_implementations (
    deploy_implementations-KeepsSound local-IsLawful after_deploy_libraries
      after_deploy_libraries-IsSound)

abbrev after_deploy_rsr_asset : World local
after_deploy_rsr_asset = (deploy_rsr_asset after_deploy_implementations).1

after_deploy_rsr_asset-IsSound : IsSound after_deploy_rsr_asset
after_deploy_rsr_asset-IsSound = leaves after_deploy_implementations deploy_rsr_asset (
    deploy_rsr_asset-KeepsSound local-IsLawful after_deploy_implementations
      after_deploy_implementations-IsSound)

abbrev after_deploy_facade : World local
after_deploy_facade = (deploy_facade after_deploy_rsr_asset).1

after_deploy_facade-IsSound : IsSound after_deploy_facade
after_deploy_facade-IsSound =
    leaves after_deploy_rsr_asset deploy_facade (
      deploy_facade-KeepsSound local-IsLawful after_deploy_rsr_asset after_deploy_rsr_asset-IsSound)

abbrev after_deploy_deployer : World local
after_deploy_deployer = (deploy_deployer after_deploy_facade).1

after_deploy_deployer-IsSound : IsSound after_deploy_deployer
after_deploy_deployer-IsSound =
    leaves after_deploy_facade deploy_deployer
      (deploy_deployer-KeepsSound local-IsLawful after_deploy_facade after_deploy_facade-IsSound)

abbrev after_deploy_facade_write : World local
after_deploy_facade_write = (deploy_facade_write after_deploy_deployer).1

after_deploy_facade_write-IsSound : IsSound after_deploy_facade_write
after_deploy_facade_write-IsSound = leaves after_deploy_deployer deploy_facade_write (
    deploy_facade_write-KeepsSound local-IsLawful after_deploy_deployer
      after_deploy_deployer-IsSound)

abbrev after_deploy_facade_act : World local
after_deploy_facade_act = (deploy_facade_act after_deploy_facade_write).1

after_deploy_facade_act-IsSound : IsSound after_deploy_facade_act
after_deploy_facade_act-IsSound = leaves after_deploy_facade_write deploy_facade_act (
    deploy_facade_act-KeepsSound local-IsLawful after_deploy_facade_write
      after_deploy_facade_write-IsSound)

abbrev after_setup_asset_coll : World local
after_setup_asset_coll = (setup_asset_coll after_deploy_facade_act).1

after_setup_asset_coll-IsSound : IsSound after_setup_asset_coll
after_setup_asset_coll-IsSound =
    leaves after_deploy_facade_act setup_asset_coll
      (setup_asset_coll-KeepsSound after_deploy_facade_act after_deploy_facade_act-IsSound)

deploy_assets-KeepsSound_example :
    Ensures after_setup_asset_coll (deploy_assets {H = local}) (λ _ w. IsSound w) IsSound
deploy_assets-KeepsSound_example =
    deploy_assets-KeepsSound local-IsLawful after_setup_asset_coll after_setup_asset_coll-IsSound

abbrev after_deploy_assets : World local
after_deploy_assets = (deploy_assets after_setup_asset_coll).1

after_deploy_assets-IsSound : IsSound after_deploy_assets
after_deploy_assets-IsSound =
    leaves after_setup_asset_coll deploy_assets (
      deploy_assets-KeepsSound local-IsLawful after_setup_asset_coll after_setup_asset_coll-IsSound)

deploy_collateral-KeepsSound_example :
    Ensures after_deploy_assets (deploy_collateral {H = local}) (λ _ w. IsSound w) IsSound
deploy_collateral-KeepsSound_example =
    deploy_collateral-KeepsSound local-IsLawful after_deploy_assets after_deploy_assets-IsSound

deploy_collateral-Throws_example : Throws after_deploy_assets (deploy_collateral {H = local})
deploy_collateral-Throws_example = deploy_collateral-Throws refl after_deploy_assets

deploy_implementations-IsComplete_example :
    Ensures after_deploy_libraries
      (deploy_implementations {H = local})
      (CompletesNetwork after_deploy_libraries)
      IsSound
deploy_implementations-IsComplete_example =
    deploy_implementations-IsComplete local-IsLawful after_deploy_libraries
      after_deploy_libraries-IsSound

script_of-Refines_example :
    Ensures after_deploy_libraries
      (script_of {H = local} Phase1Script.implementations)
      (λ _ w'. Updates Phase1Script.implementations after_deploy_libraries w')
      (Keeps Phase1Script.implementations after_deploy_libraries)
script_of-Refines_example = script_of-Refines Phase1Script.implementations after_deploy_libraries
