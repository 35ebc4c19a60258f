-- ===== src/Phase1/Starting.antt =====
-- The scripts 0_setup_deployments.ts of the first two phases: when they start, and the record that
-- they write.
use iceth_plugin.Prelude.{
  not, ◌&&◌, Bool, false, replicate, String, ◌≡◌, ◌⊎◌, inl, inr, refl, Option, none, some, [], ◌∷◌,
  arith, str_eq, eq_iff, if◌then◌else◌, Option-cases,
}
use iceth_plugin.Errors.{Error, ok}
use iceth_plugin.Dict.{get, set}
use iceth_plugin.Configuration.{INetworkConfig, get_network_config}
use iceth_plugin.Runtime.{Hardhat, World, pure, throw, write_file}
use iceth_plugin.Runtime.Contracts.{Document, IDeployments, phase1, assets_collateral}
use iceth_plugin.Runtime.Ensures.{Ensures, Ensures-read, IsReadOnly-throw, IsReadOnly-pure}
use iceth_plugin.Runtime.Live.{HasCode, addresses}
use iceth_plugin.Deployment.{
  get_deployment_filename, get_asset_coll_deployment_filename, get_chain_id, file_exists,
  require_network_config, require_contract,
}
use iceth_plugin.Deployment.Reading.{
  IsReadOnly-get_chain_id, IsReadOnly-require_network_config, IsReadOnly-file_exists, IsReadOnly-if,
}
use iceth_plugin.Phase1.Setup.{configured_contract, initial_deployments, setup_deployments}
use iceth_plugin.Phase1.Soundness.{IsReadOnly-configured_contract, configured_contract-HasCode}
use iceth_plugin.Phase2.Assets.{setup_asset_coll, require_phase1}
use iceth_plugin.Phase2.Soundness.{IsReadOnly-require_phase1}

-- The file of the chain is new, or the chain is the local one; the three configured contracts have
-- code; the record has their addresses and no other, and only its file is written.
abbrev pub Starts : {H : Hardhat} → World H → World H → Type 0
Starts {H} w w' =
    (id : String) × (config : INetworkConfig) × (rsr : String) × (feed : String) × (gnosis : String)
    × (d : IDeployments) × (get_chain_id w ≡ (ok id, w))
    × (get_network_config id ≡ ok config)
    × ((id ≡ "31337") ⊎ (get (get_deployment_filename id) w.files ≡ none))
    × (get "RSR" config.tokens ≡ some rsr)
    × (get "RSR" config.chainlink_feeds ≡ some feed)
    × (config.gnosis_easy_auction ≡ some gnosis)
    × HasCode H w.chain rsr
    × HasCode H w.chain feed
    × HasCode H w.chain gnosis
    × (addresses d ≡ rsr ∷ feed ∷ gnosis ∷ replicate 22 "")
    × (w' ≡ record w { files = set (get_deployment_filename id) (phase1 d) w.files })

-- The chain has its deployment file and no file of assets and collateral; the latter is written, and
-- is empty.
abbrev pub StartsAssets : {H : Hardhat} → World H → World H → Type 0
StartsAssets {H} w w' =
    (id : String) × (config : INetworkConfig) × (document : Document) × (get_chain_id w
      ≡ (ok id, w))
    × (get_network_config id ≡ ok config)
    × (get (get_deployment_filename id) w.files ≡ some document)
    × (get (get_asset_coll_deployment_filename id) w.files ≡ none)
    × (w' ≡ record w {
      files =
          set (get_asset_coll_deployment_filename id)
            (assets_collateral (record { assets = []; collateral = [] })) w.files;
    })

module _ {H : Hardhat} where
  pub configured-found :
      (id : String) (config : INetworkConfig) (w : World H)
      → require_network_config id w ≡ (ok config, w)
      → get_network_config id ≡ ok config
  unfolding require_network_config
  configured-found id config w e = ground arith

  configured_contract-address :
      (what : String) (o : Option String) (a : String) (w : World H)
      → configured_contract what o w ≡ (ok a, w)
      → o ≡ some a
  unfolding configured_contract require_contract
  configured_contract-address what none a w e = absurd (ground arith)
  configured_contract-address what (some b) a w e = elim (Option-cases (H.get_code w.chain b)) [
    | inl rejected' ↦ absurd (ground arith)
    | inr (code, found) ↦ ground arith
  ]

  -- The guard lets the script go on.
  pub if-pure :
      (b : Bool) (x : Error) (w : World H)
      → (if b then throw {H = H} x else pure tt) w ≡ (ok tt, w)
      → b ≡ false
  if-pure b x w e = ground arith

  new_file :
      (id file : String) (exists : Bool) (w : World H)
      → file_exists file w ≡ (ok exists, w)
      → (not (str_eq id "31337") && exists) ≡ false
      → (id ≡ "31337") ⊎ (get file w.files ≡ none)
  unfolding file_exists
  new_file id file exists w e guard = elim (Option-cases (get file w.files)) [
    | inl missing ↦ inr missing
    | inr (document, there) ↦ inl (ground (arith, eq_iff id "31337"))
  ]

  -- If phase1-common/0_setup_deployments.ts returns, then the chain id is 31337 or its deployment
  -- file was not there, RSR, its feed and the auction are configured for the chain and have code,
  -- and the world differs in the file only, which has a record of these three addresses and of no
  -- other; if it throws, it has changed nothing.
  pub setup_deployments-Starts :
      (w : World H) → Ensures w (setup_deployments {H = H}) (λ _ w'. Starts w w') (λ w'. w' ≡ w)
  unfolding setup_deployments write_file
  setup_deployments-Starts w = Ensures-read w _ IsReadOnly-get_chain_id refl λ id here.
      Ensures-read w _ (IsReadOnly-require_network_config id) refl λ config found.
        Ensures-read w _ (IsReadOnly-file_exists (get_deployment_filename id)) refl λ exists there.
          Ensures-read w _
            (IsReadOnly-if (not (str_eq id "31337") && exists)
              (IsReadOnly-throw (Error.file_exists (get_deployment_filename id)))
              (IsReadOnly-pure tt))
            refl
            λ _ guard.
              Ensures-read w _ (IsReadOnly-configured_contract "RSR" (get "RSR" config.tokens)) refl
                λ rsr p.
                  Ensures-read w _
                    (IsReadOnly-configured_contract "RSR Feed" (get "RSR" config.chainlink_feeds))
                    refl
                    λ feed q.
                      Ensures-read w _
                        (IsReadOnly-configured_contract "GNOSIS_EASY_AUCTION"
                          config.gnosis_easy_auction)
                        refl
                        λ gnosis r. record {
                          at = (
                            id,
                            config,
                            rsr,
                            feed,
                            gnosis,
                            initial_deployments (record {
                              rsr = rsr;
                              rsr_feed = feed;
                              gnosis_easy_auction = gnosis;
                            }),
                            here,
                            configured-found id config w found,
                            new_file id (get_deployment_filename id) exists w there
                                (if-pure _ _ w guard),
                            configured_contract-address "RSR" (get "RSR" config.tokens) rsr w p,
                            configured_contract-address "RSR Feed"
                                (get "RSR" config.chainlink_feeds) feed w q,
                            configured_contract-address "GNOSIS_EASY_AUCTION"
                                config.gnosis_easy_auction gnosis w r,
                            configured_contract-HasCode "RSR" (get "RSR" config.tokens) w rsr p,
                            configured_contract-HasCode "RSR Feed"
                                (get "RSR" config.chainlink_feeds) w feed q,
                            configured_contract-HasCode "GNOSIS_EASY_AUCTION"
                                config.gnosis_easy_auction w gnosis r,
                            refl,
                            refl,
                          );
                        }

  require_phase1-file :
      (file : String) (w : World H)
      → require_phase1 file w ≡ (ok tt, w)
      → (document : Document) × (get file w.files ≡ some document)
  unfolding require_phase1 file_exists
  require_phase1-file file w e = elim (Option-cases (get file w.files)) [
    | inl missing ↦ absurd (ground arith)
    | inr found ↦ found
  ]

  pub no_file :
      (file : String) (exists : Bool) (w : World H)
      → file_exists file w ≡ (ok exists, w)
      → exists ≡ false
      → get file w.files ≡ none
  unfolding file_exists
  no_file file exists w e guard = elim (Option-cases (get file w.files)) [
    | inl missing ↦ missing
    | inr (document, there) ↦ absurd (ground arith)
  ]

  -- If phase2-assets/0_setup_deployments.ts returns, then the chain is configured and its
  -- deployment file was there, its file of assets and collateral was not, and the world differs in
  -- the latter only, which has an empty record; if it throws, it has changed nothing.
  pub setup_asset_coll-Starts :
      (w : World H)
      → Ensures w (setup_asset_coll {H = H}) (λ _ w'. StartsAssets w w') (λ w'. w' ≡ w)
  unfolding setup_asset_coll write_file
  setup_asset_coll-Starts w = Ensures-read w _ IsReadOnly-get_chain_id refl λ id here.
      Ensures-read w _ (IsReadOnly-require_network_config id) refl λ config found.
        Ensures-read w _ (IsReadOnly-require_phase1 (get_deployment_filename id)) refl λ _ first.
          Ensures-read w _ (IsReadOnly-file_exists (get_asset_coll_deployment_filename id)) refl
            λ exists there.
              Ensures-read w _
                (IsReadOnly-if exists
                  (IsReadOnly-throw (Error.file_exists (get_asset_coll_deployment_filename id)))
                  (IsReadOnly-pure tt))
                refl
                λ _ guard.
                  let (document, phase1_found) =
                    require_phase1-file (get_deployment_filename id) w first in
                  record {
                    at = (
                      id,
                      config,
                      document,
                      here,
                      configured-found id config w found,
                      phase1_found,
                      no_file (get_asset_coll_deployment_filename id) exists w there
                          (if-pure exists _ w guard),
                      refl,
                    );
                  }
