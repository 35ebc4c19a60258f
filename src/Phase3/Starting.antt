-- ===== src/Phase3/Starting.antt =====
-- phase3-rtoken/0_setup_deployments.ts: when it starts, and the record that it writes.
use iceth_plugin.Prelude.{String, ◌≡◌, refl, none, some, [], ◌∷◌}
use iceth_plugin.Errors
use iceth_plugin.Errors.{ok}
use iceth_plugin.Dict.{get, set}
use iceth_plugin.Configuration.{INetworkConfig, get_network_config}
use iceth_plugin.Runtime.{Hardhat, World, write_file}
use iceth_plugin.Runtime.Contracts.{IDeployments, phase1, r_token}
use iceth_plugin.Runtime.Ensures.{
  Ensures, Ensures-read, IsReadOnly-lift, IsReadOnly-throw, IsReadOnly-pure,
}
use iceth_plugin.Runtime.Live.{HasCode}
use iceth_plugin.Deployment.{get_deployment_filename, get_r_token_deployment_filename, get_chain_id}
use iceth_plugin.Deployment.Reading.{
  IsReadOnly-get_chain_id, IsReadOnly-get_deployments, IsReadOnly-require_network_config,
  IsReadOnly-file_exists, IsReadOnly-if, IsReadOnly-require_set, IsReadOnly-require_contract,
  require_contract-HasCode, get_deployments-file,
}
use iceth_plugin.Deployment.Validation.{IsReadOnly-validate_prerequisites}
use iceth_plugin.Phase1.Starting.{configured-found, if-pure, no_file}
use iceth_plugin.Phase3.Config.{Entry, r_token_name, get_r_token_config}
use iceth_plugin.Phase3.Recording.{lift-ok}
use iceth_plugin.Phase3.Scripts.{setup_r_token}

-- The RToken is configured and has no file; the recorded FacadeWrite has code, and is all that the new
-- file has.
abbrev pub StartsRToken : {H : Hardhat} → World H → World H → Type 0
StartsRToken {H} w w' =
    (id : String) × (conf : Entry) × (config : INetworkConfig) × (d : IDeployments) × (get_chain_id
        w
      ≡ (ok id, w))
    × (get_r_token_config H.ethers id r_token_name ≡ ok conf)
    × (get_network_config id ≡ ok config)
    × (get (get_r_token_deployment_filename id r_token_name) w.files ≡ none)
    × (get (get_deployment_filename id) w.files ≡ some (phase1 d))
    × HasCode H w.chain d.facade_write
    × (w' ≡ record w {
      files =
          set (get_r_token_deployment_filename id r_token_name)
            (r_token (record {
              facade_write = d.facade_write;
              main = "";
              components = λ c. "";
              r_token_asset = "";
              governance = "";
              timelock = "";
            }))
            w.files;
    })

module _ {H : Hardhat} where
  -- If phase3-rtoken/0_setup_deployments.ts returns, then the RToken and the chain are configured,
  -- the file of the RToken was not there, the deployment file of the chain has a FacadeWrite with
  -- code, and the world differs in the file of the RToken only, which has a record of this
  -- FacadeWrite and of no other address; if it throws, it has changed nothing.
  pub setup_r_token-Starts :
      (w : World H) → Ensures w (setup_r_token {H = H}) (λ _ w'. StartsRToken w w') (λ w'. w' ≡ w)
  unfolding setup_r_token write_file
  setup_r_token-Starts w = Ensures-read w _ IsReadOnly-get_chain_id refl λ id here.
      let file = get_r_token_deployment_filename id r_token_name in
      Ensures-read w _ (IsReadOnly-lift (get_r_token_config H.ethers id r_token_name)) refl
        λ conf named. Ensures-read w _ (IsReadOnly-require_network_config id) refl λ config found.
          Ensures-read w _ (IsReadOnly-file_exists file) refl λ exists there.
            Ensures-read w _
              (IsReadOnly-if exists (IsReadOnly-throw (Errors.file_exists file))
                (IsReadOnly-pure tt))
              refl
              λ _ guard.
                Ensures-read w _ (IsReadOnly-get_deployments (get_deployment_filename id)) refl
                  λ d e. Ensures-read w _ (IsReadOnly-validate_prerequisites d) refl λ _ _.
                    Ensures-read w _ (IsReadOnly-require_set "FacadeWrite" (d.facade_write ∷ []))
                      refl
                      λ _ _.
                        Ensures-read w _ (IsReadOnly-require_contract "FacadeWrite" d.facade_write)
                          refl
                          λ _ live. record {
                            at = (
                              id,
                              conf,
                              config,
                              d,
                              here,
                              lift-ok (get_r_token_config H.ethers id r_token_name) conf w named,
                              configured-found id config w found,
                              no_file file exists w there (if-pure exists _ w guard),
                              get_deployments-file (get_deployment_filename id) w d e,
                              require_contract-HasCode "FacadeWrite" d.facade_write w live,
                              refl,
                            );
                          }
