-- ===== src/Phase1/Soundness.antt =====
-- The scripts of scripts/deployment/phase1-common/ and the addresses that they record.
use iceth_plugin.BigNumber
use iceth_plugin.Numbers.{fp}
use iceth_plugin.Prelude.{
  codes, not, ◌&&◌, Option-cases, replicate, String, ◌≡◌, inl, inr, Option, none, some, [], ◌∷◌,
  arith, str_eq,
}
use iceth_plugin.Errors.{Error, ok}
use iceth_plugin.Dict.{get}
use iceth_plugin.Runtime.{Hardhat, World, Script, get_signer, ◌>>=◌, ◌>>◌, write_file}
use iceth_plugin.Runtime.Contracts.{IPrerequisites, phase1, IDeployments}
use iceth_plugin.Runtime.Ensures.{
  Ensures, Ensures-read, Ensures-then, IsReadOnly, reading, IsReadOnly-get_signer, IsReadOnly-lift,
  IsReadOnly-throw, IsReadOnly-pure,
}
use iceth_plugin.Runtime.Live.{
  HasCode, IsLawful, AllLive, addresses, IsSound, IsSound-write, AllLive-empty,
}
use iceth_plugin.Runtime.Deploying.{Ensures-deploy_live, Created}
use iceth_plugin.Deployment.{
  get_deployment_filename, get_chain_id, get_deployments, require_network_config, require_contract,
}
use iceth_plugin.Deployment.Utils.{validate_implementations}
use iceth_plugin.Tasks.Creating.{deploy_asset-Created}
use iceth_plugin.Deployment.Reading.{
  IsReadOnly-get_chain_id, IsReadOnly-get_deployments, IsReadOnly-require_network_config,
  IsReadOnly-require_set, IsReadOnly-require_contract, get_deployments-file, IsReadOnly-file_exists,
  IsReadOnly-if,
}
use iceth_plugin.Deployment.Validation.{
  IsReadOnly-get_current_price, IsReadOnly-validate_prerequisites,
  IsReadOnly-validate_implementations,
}
use iceth_plugin.Phase1.Setup.{
  deploy_libraries, setup_deployments, configured_contract, initial_deployments,
}
use iceth_plugin.Phase1.Facades.{
  deploy_rsr_asset, deploy_facade, deploy_deployer, deploy_facade_write, deploy_facade_act,
}
use iceth_plugin.Runtime.Deploying.{KeepsSound}

-- Beside the prerequisites nothing is recorded at first.
initial-AllLive :
    (H : Hardhat) (c : H.Chain) (p : IPrerequisites)
    → HasCode H c p.rsr
    → HasCode H c p.rsr_feed
    → HasCode H c p.gnosis_easy_auction
    → AllLive H c (addresses (initial_deployments p))
initial-AllLive H c p h k l = (inr h, (inr k, (inr l, empties)))
  where
    empties : AllLive H c (replicate 22 "")
    empties = AllLive-empty H c 22

module _ {H : Hardhat} where
  pub IsReadOnly-configured_contract :
      (what : String) (o : Option String) → IsReadOnly (configured_contract {H = H} what o)
  unfolding configured_contract
  IsReadOnly-configured_contract what none = search reading
  IsReadOnly-configured_contract what (some a) =
      search (reading, IsReadOnly-if, IsReadOnly-require_contract)

  pub configured_contract-HasCode :
      (what : String) (o : Option String) (w : World H) (a : String)
      → configured_contract what o w ≡ (ok a, w)
      → HasCode H w.chain a
  unfolding configured_contract require_contract
  configured_contract-HasCode what none w a e = cc
  configured_contract-HasCode what (some b) w a e = elim (Option-cases (H.get_code w.chain b)) [
    | inl rejected' ↦ absurd (ground arith)
    | inr (code, found) ↦ (code, ground arith, ground arith)
  ]

module _ {H : Hardhat} (L : IsLawful H) where
  -- The last step of a script: a live document is written.
  Ensures-record :
      (w : World H) (file : String) (d : IDeployments)
      → AllLive H w.chain (addresses d)
      → IsSound w
      → Ensures w (write_file file (phase1 d)) (λ _ w'. IsSound w') IsSound
  unfolding write_file
  Ensures-record w file d live s = record { at = IsSound-write w file (phase1 d) live s }

  -- If the network is lawful and every recorded address is empty or has a contract, the same holds
  -- after 1_deploy_libraries.ts, whether it returns or throws.
  pub deploy_libraries-KeepsSound : KeepsSound (deploy_libraries {H = H})
  unfolding deploy_libraries
  deploy_libraries-KeepsSound w s = Ensures-read w _ IsReadOnly-get_signer s λ burner _.
      Ensures-read w _ IsReadOnly-get_chain_id s λ id _.
        Ensures-read w _ (IsReadOnly-require_network_config id) s λ _ _.
          Ensures-read w _ (IsReadOnly-get_deployments (get_deployment_filename id)) s λ d e.
            Ensures-read w _ (IsReadOnly-validate_prerequisites d) s λ _ _.
              let live = s.at_file _ (phase1 d) (get_deployments-file _ w d e) in
              Ensures-deploy_live L w s (addresses d) live _ _ λ t c _ l₁ s₁.
                Ensures-deploy_live L _ s₁ (t ∷ addresses d) l₁ _ _ λ r c _ l₂ s₂.
                  Ensures-deploy_live L _ s₂ (r ∷ t ∷ addresses d) l₂ _ _ λ p c _ l₃ s₃.
                    Ensures-deploy_live L _ s₃ (p ∷ r ∷ t ∷ addresses d) l₃ _ _
                      λ o c _ l₄ s₄. Ensures-record _ _ _ (assumption) s₄

  -- The guards that the scripts after the implementations begin with, and what they have read.
  after_guards :
      (w : World H) (f : String → IDeployments → Script H (Unit {0}))
      → IsSound w
      → ((id : String) (d : IDeployments)
          → AllLive H w.chain (addresses d)
          → Ensures w (f id d) (λ _ w'. IsSound w') IsSound)
      → Ensures w
          (do
            burner ← get_signer
            chain_id ← get_chain_id
            require_network_config chain_id
            d ← get_deployments (get_deployment_filename chain_id)
            validate_implementations d
            f chain_id d)
          (λ _ w'. IsSound w')
          IsSound
  after_guards w f s k = Ensures-read w _ IsReadOnly-get_signer s λ burner _.
      Ensures-read w _ IsReadOnly-get_chain_id s λ id _.
        Ensures-read w _ (IsReadOnly-require_network_config id) s λ _ _.
          Ensures-read w _ (IsReadOnly-get_deployments (get_deployment_filename id)) s λ d e.
            Ensures-read w _ (IsReadOnly-validate_implementations d) s
              λ _ _. k id d (s.at_file _ (phase1 d) (get_deployments-file _ w d e))

  -- If the network is lawful and every recorded address is empty or has a contract, the same holds
  -- after 3_deploy_rsrAsset.ts, whether it returns or throws.
  pub deploy_rsr_asset-KeepsSound : KeepsSound (deploy_rsr_asset {H = H})
  unfolding deploy_rsr_asset
  deploy_rsr_asset-KeepsSound w s = after_guards w _ s λ id d live.
      Ensures-read w _ (IsReadOnly-get_current_price (some d.prerequisites.rsr_feed)) s λ price _.
        Ensures-read w _ (IsReadOnly-lift (fp H.ethers (BigNumber.text (codes "1e6")))) s
          λ volume _.
            Ensures-then w _ _ (Created (addresses d))
              (deploy_asset-Created L w _ (addresses d) s live)
              λ a w' h. Ensures-record w' _ (record d { rsr_asset = a }) (assumption) h.2

  pub deploy_facade-KeepsSound : KeepsSound (deploy_facade {H = H})
  unfolding deploy_facade
  deploy_facade-KeepsSound w s = after_guards w _ s λ id d live.
      Ensures-read w _ (IsReadOnly-require_set "deployed contracts" (d.rsr_asset ∷ [])) s λ _ _.
        Ensures-read w _ (IsReadOnly-require_contract "RSR Asset" d.rsr_asset) s λ _ _.
          Ensures-deploy_live L w s (addresses d) live _ _
            λ a c _ l s'. Ensures-record _ _ _ (assumption) s'

  -- If the network is lawful and every recorded address is empty or has a contract, the same holds
  -- after 5_deploy_deployer.ts, whether it returns or throws.
  pub deploy_deployer-KeepsSound : KeepsSound (deploy_deployer {H = H})
  unfolding deploy_deployer
  deploy_deployer-KeepsSound w s = after_guards w _ s λ id d live.
      Ensures-read w _ (IsReadOnly-require_set "deployed contracts" (d.facade_read ∷ [])) s λ _ _.
        Ensures-read w _ (IsReadOnly-require_contract "Facade" d.facade_read) s λ _ _.
          Ensures-deploy_live L w s (addresses d) live _ _
            λ a c _ l s'. Ensures-record _ _ _ (assumption) s'

  -- If the network is lawful and every recorded address is empty or has a contract, the same holds
  -- after 6_deploy_facadeWrite.ts, whether it returns or throws.
  pub deploy_facade_write-KeepsSound : KeepsSound (deploy_facade_write {H = H})
  unfolding deploy_facade_write
  deploy_facade_write-KeepsSound w s = after_guards w _ s λ id d live.
      Ensures-read w _ (IsReadOnly-require_set "deployed contracts" (d.rsr_asset ∷ [])) s λ _ _.
        Ensures-read w _ (IsReadOnly-require_contract "RSR Asset" d.rsr_asset) s λ _ _.
          Ensures-deploy_live L w s (addresses d) live _ _ λ b c _ l₁ s₁.
            Ensures-deploy_live L _ s₁ (b ∷ addresses d) l₁ _ _
              λ a c _ l₂ s₂. Ensures-record _ _ _ (assumption) s₂

  pub deploy_facade_act-KeepsSound : KeepsSound (deploy_facade_act {H = H})
  unfolding deploy_facade_act
  deploy_facade_act-KeepsSound w s = after_guards w _ s λ id d live.
      Ensures-read w _ (IsReadOnly-require_set "deployed contracts" (d.rsr_asset ∷ [])) s λ _ _.
        Ensures-read w _ (IsReadOnly-require_contract "RSR Asset" d.rsr_asset) s λ _ _.
          Ensures-deploy_live L w s (addresses d) live _ _
            λ a c _ l s'. Ensures-record _ _ _ (assumption) s'

  pub setup_deployments-KeepsSound : KeepsSound (setup_deployments {H = H})
  unfolding setup_deployments
  setup_deployments-KeepsSound w s = Ensures-read w _ IsReadOnly-get_chain_id s λ id _.
      Ensures-read w _ (IsReadOnly-require_network_config id) s λ config _.
        Ensures-read w _ (IsReadOnly-file_exists _) s λ exists _.
          Ensures-read w _
            (IsReadOnly-if (not (str_eq id "31337") && exists)
              (IsReadOnly-throw (Error.file_exists (get_deployment_filename id)))
              (IsReadOnly-pure tt))
            s
            λ _ _.
              Ensures-read w _ (IsReadOnly-configured_contract "RSR" (get "RSR" config.tokens)) s
                λ rsr p.
                  Ensures-read w _
                    (IsReadOnly-configured_contract "RSR Feed" (get "RSR" config.chainlink_feeds)) s
                    λ feed q.
                      Ensures-read w _
                        (IsReadOnly-configured_contract "GNOSIS_EASY_AUCTION"
                          config.gnosis_easy_auction)
                        s
                        λ gnosis r.
                          Ensures-record w _ _
                            (initial-AllLive H w.chain
                              (record { rsr = rsr; rsr_feed = feed; gnosis_easy_auction = gnosis })
                              (configured_contract-HasCode "RSR" (get "RSR" config.tokens) w rsr p)
                              (configured_contract-HasCode "RSR Feed"
                                (get "RSR" config.chainlink_feeds) w feed q)
                              (configured_contract-HasCode "GNOSIS_EASY_AUCTION"
                                config.gnosis_easy_auction w gnosis r))
                            s
