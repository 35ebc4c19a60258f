-- ===== src/Phase3/Updating.antt =====
-- The transaction of 1_deploy_rtoken.ts and 2_deploy_governance.ts, and the record that they write.
use iceth_plugin.Prelude.{String, ◌≡◌, some}
use iceth_plugin.Errors.{ok}
use iceth_plugin.Dict.{get, set, get-set_self}
use iceth_plugin.Events.{ContractReceipt}
use iceth_plugin.Runtime.{Hardhat, World}
use iceth_plugin.Runtime.Contracts.{r_token, IrTokenDeployments, Value}
use iceth_plugin.Runtime.Requests.{Transaction}
use iceth_plugin.Runtime.Ensures.{Ensures}
use iceth_plugin.Deployment.{get_r_token_deployment_filename, get_chain_id}
use iceth_plugin.Phase3.Config.{Entry, r_token_name, get_r_token_config}
use iceth_plugin.Phase3.Scripts.{deploy_r_token, deploy_governance}
use iceth_plugin.Phase3.Asking.{
  Sends, AsksGovernance, SetsGovernance, AsksRToken, SetsRToken, deploy_governance-Sends,
  deploy_r_token-Sends,
}
use iceth_plugin.Runtime.Ensures.{Ensures-weaken}
use iceth_plugin.Phase3.Telling.{TellsMain, TellsGovernance}

-- One transaction is sent to the FacadeWrite of the record in the file of the RToken, and the file is
-- written with a record that is related to it.
abbrev pub SendsOne :
    {H : Hardhat}
    → (IrTokenDeployments → Entry → String → Transaction → Type 0)
    → (IrTokenDeployments → IrTokenDeployments → Type 0)
    → World H
    → World H
    → Type 0
SendsOne {H} asks relates w w' =
    (id : String) × (d : IrTokenDeployments) × (d' : IrTokenDeployments) × (conf : Entry)
    × (t : Transaction) × (get_chain_id w ≡ (ok id, w))
    × (get (get_r_token_deployment_filename id r_token_name) w.files ≡ some (r_token d))
    × (get_r_token_config H.ethers id r_token_name ≡ ok conf)
    × asks d conf id t
    × relates d d'
    × (w'.chain ≡ (H.transact w.chain (Value.text d.facade_write) t).1)
    × (w'.files ≡ set (get_r_token_deployment_filename id r_token_name) (r_token d') w.files)

-- The file of the RToken is written with what the receipt of a transaction to the recorded
-- FacadeWrite tells.
abbrev pub Records :
    {H : Hardhat}
    → ((H : Hardhat)
        → H.Chain
        → ContractReceipt H.Log
        → IrTokenDeployments
        → IrTokenDeployments
        → Type 0)
    → World H
    → World H
    → Type 0
Records {H} tells w w' =
    (id : String) × (d : IrTokenDeployments) × (d' : IrTokenDeployments) × (t : Transaction)
    × (receipt : ContractReceipt H.Log) × (get (get_r_token_deployment_filename id r_token_name)
          w.files
        ≡ some (r_token d))
    × ((H.transact w.chain (Value.text d.facade_write) t).0 ≡ some receipt)
    × (w'.chain ≡ (H.transact w.chain (Value.text d.facade_write) t).1)
    × tells H (H.transact w.chain (Value.text d.facade_write) t).1 receipt d d'
    × (get (get_r_token_deployment_filename id r_token_name) w'.files ≡ some (r_token d'))

module _ {H : Hardhat} (asks : IrTokenDeployments → Entry → String → Transaction → Type 0)
    (tells : (H : Hardhat)
      → H.Chain
      → ContractReceipt H.Log
      → IrTokenDeployments
      → IrTokenDeployments
      → Type 0)
    (sets : IrTokenDeployments → IrTokenDeployments → Type 0) (w w' : World H) where
  Sends-SendsOne : Sends asks tells sets w w' → SendsOne asks sets w w'
  Sends-SendsOne
        (id, d, d', conf, t, receipt, here, file, found, asked, sent, told, set', chain, files) =
      (id, d, d', conf, t, here, file, found, asked, set', chain, files)

  Sends-Records : Sends asks tells sets w w' → Records tells w w'
  Sends-Records
        (id, d, d', conf, t, receipt, here, file, found, asked, sent, told, set', chain, files) =
      (
        id,
        d,
        d',
        t,
        receipt,
        file,
        sent,
        chain,
        told,
        rw files
            (get-set_self (get_r_token_deployment_filename id r_token_name) (r_token d') w.files),
      )

module _ {H : Hardhat} where
  -- If 2_deploy_governance.ts returns, the network is the one after a single transaction to the
  -- recorded FacadeWrite, which sets up the governance of the recorded RToken with the parameters
  -- configured for the chain and unpauses it exactly if the chain id is not 1, and the file of the
  -- RToken is written with a record that differs in the governance and the timelock only; if it
  -- throws, every file is as it was.
  pub deploy_governance-SendsOne :
      (w : World H)
      → Ensures w deploy_governance
          (λ _ w'. SendsOne AsksGovernance SetsGovernance w w')
          (λ w'. w'.files ≡ w.files)
  deploy_governance-SendsOne w =
      Ensures-weaken w deploy_governance (deploy_governance-Sends w)
        (λ _ w'. Sends-SendsOne AsksGovernance TellsGovernance SetsGovernance w w')

  -- If 1_deploy_rtoken.ts returns, the network is the one after a single transaction to the
  -- recorded FacadeWrite, which deploys an RToken with the parameters configured for the chain, and
  -- the file of the RToken is written with a record that has the same FacadeWrite, governance and
  -- timelock; if it throws, every file is as it was.
  pub deploy_r_token-SendsOne :
      (w : World H)
      → Ensures w deploy_r_token
          (λ _ w'. SendsOne AsksRToken SetsRToken w w')
          (λ w'. w'.files ≡ w.files)
  deploy_r_token-SendsOne w =
      Ensures-weaken w deploy_r_token (deploy_r_token-Sends w)
        (λ _ w'. Sends-SendsOne AsksRToken TellsMain SetsRToken w w')

  -- If 1_deploy_rtoken.ts returns, a transaction to the FacadeWrite in the file of the RToken has
  -- returned a receipt, and in the file is now a record whose main is the one that the first
  -- RTokenCreated among the logs of the receipt names, whose ten components are those that this
  -- Main gives by their getters on the network afterwards, and whose rTokenAsset is what the asset
  -- registry has for the RToken; if it throws, every file is as it was.
  pub deploy_r_token-Records :
      (w : World H)
      → Ensures w deploy_r_token (λ _ w'. Records TellsMain w w') (λ w'. w'.files ≡ w.files)
  deploy_r_token-Records w =
      Ensures-weaken w deploy_r_token (deploy_r_token-Sends w)
        (λ _ w'. Sends-Records AsksRToken TellsMain SetsRToken w w')

  -- If 2_deploy_governance.ts returns, a transaction to the FacadeWrite in the file of the RToken
  -- has returned a receipt, and in the file is now a record whose governance and timelock are the
  -- texts of these arguments of the first GovernanceCreated among the events of the receipt, or
  -- empty where an argument is no text; if it throws, every file is as it was.
  pub deploy_governance-Records :
      (w : World H)
      → Ensures w deploy_governance
          (λ _ w'. Records TellsGovernance w w')
          (λ w'. w'.files ≡ w.files)
  deploy_governance-Records w =
      Ensures-weaken w deploy_governance (deploy_governance-Sends w)
        (λ _ w'. Sends-Records AsksGovernance TellsGovernance SetsGovernance w w')
