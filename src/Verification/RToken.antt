-- ===== src/Verification/RToken.antt =====
-- scripts/verification/7_verify_rToken.ts and 8_verify_governance.ts
use iceth_plugin.Prelude.{[], ◌∷◌}
use iceth_plugin.Runtime.{Hardhat, Script, lift, ◌>>=◌, ◌>>◌}
use iceth_plugin.Runtime.Contracts.{Value, Component}
use iceth_plugin.Deployment.{
  get_deployment_filename, get_r_token_deployment_filename, get_deployments,
}
use iceth_plugin.Phase2.Assets.{require_phase1}
use iceth_plugin.Phase3.Config.{r_token_name, get_r_token_config}
use iceth_plugin.Phase3.Scripts.{get_r_token_deployments}
use iceth_plugin.Verification.{verify_contract, begin}

module _ {H : Hardhat} where
  unfoldable pub verify_r_token : Script H (Unit {0})
  verify_r_token = do
    chain_id ← begin
    require_phase1 (get_deployment_filename chain_id)
    phase1_deployment ← get_deployments (get_deployment_filename chain_id)
    d ← get_r_token_deployments (get_r_token_deployment_filename chain_id r_token_name)
    conf ← lift (get_r_token_config H.ethers chain_id r_token_name)
    verify_contract chain_id (Value.text d.r_token_asset)
        (Value.text (d.components Component.r_token)
          ∷ Value.number conf.config.params.r_token_max_trade_volume
          ∷ [])
        "contracts/plugins/assets/RTokenAsset.sol:RTokenAsset"
    verify_contract chain_id (Value.text (d.components Component.r_token))
        (Value.text (phase1_deployment.implementations.components Component.r_token)
          ∷ Value.text "0x"
          ∷ [])
        "@openzeppelin/contracts/proxy/ERC1967/ERC1967Proxy.sol:ERC1967Proxy"

  unfoldable pub verify_governance : Script H (Unit {0})
  verify_governance = do
    chain_id ← begin
    d ← get_r_token_deployments (get_r_token_deployment_filename chain_id r_token_name)
    conf ← lift (get_r_token_config H.ethers chain_id r_token_name)
    verify_contract chain_id (Value.text d.timelock)
        (Value.number conf.governance.timelock_delay ∷ Value.empty ∷ Value.empty ∷ [])
        "@openzeppelin/contracts/governance/TimelockController.sol:TimelockController"
    verify_contract chain_id (Value.text d.governance)
        (Value.text (d.components Component.st_rsr)
          ∷ Value.text d.timelock
          ∷ Value.number conf.governance.voting_delay
          ∷ Value.number conf.governance.voting_period
          ∷ Value.number conf.governance.proposal_threshold_as_micro_percent
          ∷ Value.number conf.governance.quorum_percent
          ∷ [])
        "contracts/plugins/governance/Governance.sol:Governance"
