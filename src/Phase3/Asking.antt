-- ===== src/Phase3/Asking.antt =====
-- What 1_deploy_rtoken.ts and 2_deploy_governance.ts ask for, are told, and write.
use iceth_plugin.Prelude.{String, true, not, ◌≡◌, refl, some, [], ◌∷◌, str_eq, subst, sym}
use iceth_plugin.Errors.{ok}
use iceth_plugin.Dict.{get, set}
use iceth_plugin.Events.{expect_in_receipt, expect_in_indirect_receipt, ContractReceipt}
use iceth_plugin.Configuration.RToken.{IrTokenSetup}
use iceth_plugin.Runtime.{Hardhat, World, Script, write_file}
use iceth_plugin.Runtime.Contracts.{r_token, IrTokenDeployments, Component, Value}
use iceth_plugin.Runtime.Requests.{Transaction}
use iceth_plugin.Runtime.Ensures.{
  Ensures, Ensures-read, IsReadOnly-get_signer, IsReadOnly-lift, IsReadOnly-view_text,
}
use iceth_plugin.Deployment.{
  get_asset_coll_deployment_filename, get_r_token_deployment_filename, get_chain_id,
}
use iceth_plugin.Deployment.Reading.{IsReadOnly-get_chain_id, IsReadOnly-require_network_config}
use iceth_plugin.Phase1.Facades.{zero_address}
use iceth_plugin.Phase2.Soundness.{IsReadOnly-get_asset_coll_deployments}
use iceth_plugin.Phase3.Config.{Entry, r_token_name, get_r_token_config}
use iceth_plugin.Phase3.Soundness.{
  IsReadOnly-get_r_token_deployments, get_r_token_deployments-file, IsReadOnly-validate_entries,
  IsReadOnly-setup_numbers, IsReadOnly-validate_r_token, IsReadOnly-address_of,
}
use iceth_plugin.Runtime.Ensures.{Ensures-then}
use iceth_plugin.Runtime.Deploying.{Ensures-transact}
use iceth_plugin.Phase3.Recording.{ReadsTo, read_r_token-ReadsTo, lift-ok}
use iceth_plugin.Phase3.Telling.{TellsMain, TellsGovernance, TellsMain-told, TellsGovernance-told}
use iceth_plugin.Phase3.Scripts.{make_setup, argument, text_of, deploy_r_token, deploy_governance}

-- One transaction is sent to the FacadeWrite of the record in the file of the RToken, and the file is
-- written with a record that is related to its receipt and to the record that was there.
abbrev pub Sends :
    {H : Hardhat}
    → (IrTokenDeployments → Entry → String → Transaction → Type 0)
    → ((H : Hardhat)
        → H.Chain
        → ContractReceipt H.Log
        → IrTokenDeployments
        → IrTokenDeployments
        → Type 0)
    → (IrTokenDeployments → IrTokenDeployments → Type 0)
    → World H
    → World H
    → Type 0
Sends {H} asks tells sets w w' =
    (id : String) × (d : IrTokenDeployments) × (d' : IrTokenDeployments) × (conf : Entry)
    × (t : Transaction) × (receipt : ContractReceipt H.Log) × (get_chain_id w ≡ (ok id, w))
    × (get (get_r_token_deployment_filename id r_token_name) w.files ≡ some (r_token d))
    × (get_r_token_config H.ethers id r_token_name ≡ ok conf)
    × asks d conf id t
    × ((H.transact w.chain (Value.text d.facade_write) t).0 ≡ some receipt)
    × tells H (H.transact w.chain (Value.text d.facade_write) t).1 receipt d d'
    × sets d d'
    × (w'.chain ≡ (H.transact w.chain (Value.text d.facade_write) t).1)
    × (w'.files ≡ set (get_r_token_deployment_filename id r_token_name) (r_token d') w.files)

-- The governance of the RToken is set up with the configured parameters, and the RToken is unpaused on
-- every chain but mainnet.
abbrev pub AsksGovernance : IrTokenDeployments → Entry → String → Transaction → Type 0
AsksGovernance d conf id t =
    t
    ≡ Transaction.setup_governance (Value.text (d.components Component.r_token)) true
        (not (str_eq id "1")) conf.governance zero_address zero_address zero_address

-- Only the governance and the timelock may differ.
abbrev pub SetsGovernance : IrTokenDeployments → IrTokenDeployments → Type 0
SetsGovernance d d' = d' ≡ record d { governance = d'.governance; timelock = d'.timelock }

-- An RToken with the configured parameters is asked for.
abbrev pub AsksRToken : IrTokenDeployments → Entry → String → Transaction → Type 0
AsksRToken d conf id t = (setup : IrTokenSetup) × (t ≡ Transaction.deploy_r_token conf.config setup)

-- The FacadeWrite, the governance and the timelock are as they were.
abbrev pub SetsRToken : IrTokenDeployments → IrTokenDeployments → Type 0
SetsRToken d d' =
    (d'.facade_write ≡ d.facade_write) × (d'.governance ≡ d.governance) × (d'.timelock ≡ d.timelock)

-- A script that goes on in the same world.
Ensures-there :
    {H : Hardhat} {B : Type 0} {Q : B → World H → Type 0} {R : World H → Type 0} (v v' : World H)
    {m : Script H B}
    → v' ≡ v
    → Ensures v m Q R
    → Ensures v' m Q R
Ensures-there {H} {B} {Q} {R} v v' {m} e h = subst (λ (u : World H). Ensures u m Q R) (sym e) h

module _ {H : Hardhat} where
  pub deploy_governance-Sends :
      (w : World H)
      → Ensures w deploy_governance
          (λ _ w'. Sends AsksGovernance TellsGovernance SetsGovernance w w')
          (λ w'. w'.files ≡ w.files)
  unfolding deploy_governance write_file
  deploy_governance-Sends w = Ensures-read w _ IsReadOnly-get_signer refl λ user _.
      Ensures-read w _ IsReadOnly-get_chain_id refl λ id here.
        Ensures-read w _ (IsReadOnly-lift (get_r_token_config H.ethers id r_token_name)) refl
          λ conf found. Ensures-read w _ (IsReadOnly-require_network_config id) refl λ _ _.
            Ensures-read w _
              (IsReadOnly-get_r_token_deployments (get_r_token_deployment_filename id r_token_name))
              refl
              λ d e. Ensures-read w _ (IsReadOnly-validate_r_token d) refl λ _ _.
                Ensures-transact w _ _ _ _ refl λ receipt sent.
                  let t : Transaction =
                    Transaction.setup_governance (Value.text (d.components Component.r_token)) true
                      (not (str_eq id "1")) conf.governance zero_address zero_address
                      zero_address in
                  let v : World H = record w {
                    chain = (H.transact w.chain (Value.text d.facade_write) t).1;
                  } in
                  Ensures-read v _
                    (IsReadOnly-lift (expect_in_receipt H.chai receipt "GovernanceCreated" [])) refl
                    λ event found'.
                      Ensures-read v _ (IsReadOnly-lift (argument "governance" event.args)) refl
                        λ governance g.
                          Ensures-read v _ (IsReadOnly-lift (argument "timelock" event.args)) refl
                            λ timelock t'. record {
                              at = (
                                id,
                                d,
                                record d {
                                  governance = text_of governance;
                                  timelock = text_of timelock;
                                },
                                conf,
                                t,
                                receipt,
                                here,
                                get_r_token_deployments-file
                                    (get_r_token_deployment_filename id r_token_name) w d e,
                                lift-ok (get_r_token_config H.ethers id r_token_name) conf w found,
                                refl,
                                sent,
                                TellsGovernance-told v receipt d event governance timelock found' g
                                    t',
                                refl,
                                refl,
                                refl,
                              );
                            }

  pub deploy_r_token-Sends :
      (w : World H)
      → Ensures w deploy_r_token
          (λ _ w'. Sends AsksRToken TellsMain SetsRToken w w')
          (λ w'. w'.files ≡ w.files)
  unfolding deploy_r_token write_file
  deploy_r_token-Sends w = Ensures-read w _ IsReadOnly-get_signer refl λ user _.
      Ensures-read w _ IsReadOnly-get_chain_id refl λ id here.
        Ensures-read w _ (IsReadOnly-lift (get_r_token_config H.ethers id r_token_name)) refl
          λ conf found. Ensures-read w _ (IsReadOnly-require_network_config id) refl λ _ _.
            Ensures-read w _
              (IsReadOnly-get_r_token_deployments (get_r_token_deployment_filename id r_token_name))
              refl
              λ d e.
                Ensures-read w _
                  (IsReadOnly-get_asset_coll_deployments (get_asset_coll_deployment_filename id))
                  refl
                  λ ac _. Ensures-read w _ IsReadOnly-setup_numbers refl λ numbers _.
                    Ensures-read w _
                      (IsReadOnly-validate_entries "Asset"
                        (get "stkAAVE" ac.assets ∷ get "COMP" ac.assets ∷ []))
                      refl
                      λ assets _.
                        Ensures-read w _
                          (IsReadOnly-validate_entries "Collateral" (
                            get "DAI" ac.collateral
                            ∷ get "aDAI" ac.collateral
                            ∷ get "cDAI" ac.collateral
                            ∷ []))
                          refl
                          λ basket _.
                            Ensures-read w _
                              (IsReadOnly-validate_entries "Collateral"
                                (get "USDC" ac.collateral ∷ []))
                              refl
                              λ backup _.
                                Ensures-read w _
                                  (IsReadOnly-view_text (Value.text d.facade_write) "deployer") refl
                                  λ deployer _. Ensures-transact w _ _ _ _ refl λ receipt sent.
                                    let setup : IrTokenSetup =
                                      make_setup (H.format_bytes32 "USD") user numbers assets basket
                                        backup in
                                    let t : Transaction =
                                      Transaction.deploy_r_token conf.config setup in
                                    let v : World H = record w {
                                      chain = (H.transact w.chain (Value.text d.facade_write) t).1;
                                    } in
                                    Ensures-read v _
                                      (IsReadOnly-lift (
                                        expect_in_indirect_receipt H.chai receipt
                                          (H.parse_log "DeployerP1") "RTokenCreated" []))
                                      refl
                                      λ event found'.
                                        Ensures-read v _
                                          (IsReadOnly-lift (argument "main" event.args)) refl
                                          λ value g.
                                            Ensures-read v _ (IsReadOnly-address_of value) refl
                                              λ main a.
                                                Ensures-then v _ _ (ReadsTo d main v)
                                                  (read_r_token-ReadsTo d main v)
                                                  λ d' v'
                                                      (still, same, components, facade, gov, time).
                                                    Ensures-there v v' still (record {
                                                      at = (
                                                        id,
                                                        d,
                                                        d',
                                                        conf,
                                                        t,
                                                        receipt,
                                                        here,
                                                        get_r_token_deployments-file
                                                            (get_r_token_deployment_filename id
                                                            r_token_name)
                                                            w d e,
                                                        lift-ok
                                                            (get_r_token_config H.ethers id
                                                            r_token_name)
                                                            conf w found,
                                                        (setup, refl),
                                                        sent,
                                                        TellsMain-told v receipt d event value main
                                                            d' found' g a same components,
                                                        (facade, gov, time),
                                                        refl,
                                                        refl,
                                                      );
                                                    })
