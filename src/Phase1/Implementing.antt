-- ===== src/Phase1/Implementing.antt =====
-- The steps of 2_deploy_implementations.ts, beside Phase1.Updating.
use iceth_plugin.Prelude.{String, ◌≡◌, ◌⊎◌, inl, inr, refl, ap, ◌∙◌, [], ◌∷◌, some}
use iceth_plugin.Errors.{ok}
use iceth_plugin.Dict.{get, set}
use iceth_plugin.Runtime.{Hardhat, World, Script, ◌>>=◌, ◌>>◌, pure, write_file}
use iceth_plugin.Runtime.Contracts.{Creation, phase1, IDeployments, IImplementations, Component}
use iceth_plugin.Runtime.Ensures.{
  Ensures, Ensures-read, Ensures-then, Ensures-pure, IsReadOnly-get_signer,
}
use iceth_plugin.Deployment.{get_deployment_filename, get_chain_id}
use iceth_plugin.Deployment.Reading.{
  IsReadOnly-get_chain_id, IsReadOnly-get_deployments, IsReadOnly-require_network_config,
  IsReadOnly-require_set, IsReadOnly-require_contract, get_deployments-file,
}
use iceth_plugin.Phase1.Implementations.{
  deploy_component, deploy_traders, deploy_main, deploy_trade, deploy_components,
  deploy_implementations, set_component,
}
use iceth_plugin.Phase1.Updating.{Phase1Script, Updates, Keeps, set-set, Ensures-deploy_any}
use iceth_plugin.Phase1.Refining.{Refines}

-- What 2_deploy_implementations.ts has done where it has written the record last.
abbrev Wrote : {H : Hardhat} → World H → String → IDeployments → IDeployments → World H → Type 0
Wrote w file d e w' =
    ((i : IImplementations) × (e ≡ record d { implementations = i }))
    × (w'.files ≡ set file (phase1 e) w.files)

-- The same, where it may have written nothing.
abbrev Going : {H : Hardhat} → World H → String → IDeployments → IDeployments → World H → Type 0
Going w file d e w' =
    ((i : IImplementations) × (e ≡ record d { implementations = i }))
    × ((w'.files ≡ w.files) ⊎ (w'.files ≡ set file (phase1 e) w.files))

module _ {H : Hardhat} (w : World H) (file : String) (d : IDeployments) where
  -- The file as it stands is written again.
  Going-write :
      (e : IDeployments) (i : IImplementations) (w' : World H)
      → Going w file d e w'
      → Wrote w file d
          (record e { implementations = i })
          (record w' { files = set file (phase1 (record e { implementations = i })) w'.files })
  Going-write e i w' ((j, same), inl kept) = (
    (i, ap (λ (e : IDeployments). record e { implementations = i }) same),
    ap (λ l. set file (phase1 (record e { implementations = i })) l) kept,
  )
  Going-write e i w' ((j, same), inr written) = (
    (i, ap (λ (e : IDeployments). record e { implementations = i }) same),
    ap (λ l. set file (phase1 (record e { implementations = i })) l) written
        ∙ set-set file (phase1 (record e { implementations = i })) (phase1 e) w.files,
  )

  Wrote-Going : (e : IDeployments) (w' : World H) → Wrote w file d e w' → Going w file d e w'
  Wrote-Going e w' (effect, written) = (effect, inr written)

module _ {H : Hardhat} (w : World H) (id : String) (d : IDeployments)
    (here : get_chain_id w ≡ (ok id, w))
    (there : get (get_deployment_filename id) w.files ≡ some (phase1 d)) where
  Going-Keeps :
      (e : IDeployments) (w' : World H)
      → Going w (get_deployment_filename id) d e w'
      → Keeps Phase1Script.implementations w w'
  Going-Keeps e w' (effect, inl kept) = inl kept
  Going-Keeps e w' (effect, inr written) = inr (id, d, e, here, there, effect, written)

  -- One step: a contract is deployed, and the record with its address is written.
  abbrev Steps : (IDeployments → Script H IDeployments) → Type 0
  Steps m =
      (e : IDeployments) (w' : World H)
      → Going w (get_deployment_filename id) d e w'
      → Ensures w' (m e) (Wrote w (get_deployment_filename id) d)
          (Keeps Phase1Script.implementations w)

  deploy_main-Steps : Steps (deploy_main (get_deployment_filename id))
  unfolding deploy_main write_file
  deploy_main-Steps e w' g =
      Ensures-deploy_any w' _ _ (λ c. Going-Keeps e (record w' { chain = c }) g)
        λ a c. record {
          at =
              Going-write w (get_deployment_filename id) d e (record e.implementations { main = a })
                (record w' { chain = c }) g;
        }

  deploy_trade-Steps : Steps (deploy_trade (get_deployment_filename id))
  unfolding deploy_trade write_file
  deploy_trade-Steps e w' g =
      Ensures-deploy_any w' _ _ (λ c. Going-Keeps e (record w' { chain = c }) g)
        λ a c. record {
          at =
              Going-write w (get_deployment_filename id) d e
                (record e.implementations { trade = a }) (record w' { chain = c }) g;
        }

  deploy_component-Steps :
      (k : Component) (creation : Creation)
      → Steps (deploy_component (get_deployment_filename id) k creation)
  unfolding deploy_component write_file
  deploy_component-Steps k creation e w' g =
      Ensures-deploy_any w' _ _ (λ c. Going-Keeps e (record w' { chain = c }) g)
        λ a c. record {
          at =
              Going-write w (get_deployment_filename id) d e
                (record e.implementations {
                  components = set_component e.implementations.components k a;
                })
                (record w' { chain = c }) g;
        }

  deploy_traders-Steps : Steps (deploy_traders (get_deployment_filename id))
  unfolding deploy_traders write_file
  deploy_traders-Steps e w' g =
      Ensures-deploy_any w' _ _ (λ c. Going-Keeps e (record w' { chain = c }) g)
        λ a c.
          let i : IImplementations = record e.implementations {
            components = set_component e.implementations.components Component.rsr_trader a;
          } in
          let v : World H = record w' { chain = c } in
          record {
            at =
                Going-write w (get_deployment_filename id) d (record e { implementations = i })
                  (record i { components = set_component i.components Component.r_token_trader a })
                  (record v {
                    files =
                        set (get_deployment_filename id) (phase1 (record e { implementations = i }))
                          v.files;
                  })
                  (Wrote-Going w (get_deployment_filename id) d (record e { implementations = i })
                    (record v {
                      files =
                          set (get_deployment_filename id)
                            (phase1 (record e { implementations = i })) v.files;
                    })
                    (Going-write w (get_deployment_filename id) d e i v g));
          }

  deploy_components-Steps : Steps (deploy_components (get_deployment_filename id))
  unfolding deploy_components
  deploy_components-Steps e₀ w₀ g₀ =
      Ensures-then w₀ _ _ _ (deploy_component-Steps Component.asset_registry _ e₀ w₀ g₀) λ e₁ w₁ g₁.
        Ensures-then w₁ _ _ _
          (deploy_component-Steps Component.backing_manager _ e₁ w₁ (going e₁ w₁ g₁))
          λ e₂ w₂ g₂.
            Ensures-then w₂ _ _ _
              (deploy_component-Steps Component.basket_handler _ e₂ w₂ (going e₂ w₂ g₂))
              λ e₃ w₃ g₃.
                Ensures-then w₃ _ _ _
                  (deploy_component-Steps Component.broker _ e₃ w₃ (going e₃ w₃ g₃))
                  λ e₄ w₄ g₄.
                    Ensures-then w₄ _ _ _
                      (deploy_component-Steps Component.distributor _ e₄ w₄ (going e₄ w₄ g₄))
                      λ e₅ w₅ g₅.
                        Ensures-then w₅ _ _ _
                          (deploy_component-Steps Component.furnace _ e₅ w₅ (going e₅ w₅ g₅))
                          λ e₆ w₆ g₆.
                            Ensures-then w₆ _ _ _ (deploy_traders-Steps e₆ w₆ (going e₆ w₆ g₆))
                              λ e₇ w₇ g₇.
                                Ensures-then w₇ _ _ _
                                  (deploy_component-Steps Component.r_token _ e₇ w₇
                                    (going e₇ w₇ g₇))
                                  λ e₈ w₈ g₈.
                                    deploy_component-Steps Component.st_rsr _ e₈ w₈ (going e₈ w₈ g₈)
    where
      going :
          (e : IDeployments) (w' : World H)
          → Wrote w (get_deployment_filename id) d e w'
          → Going w (get_deployment_filename id) d e w'
      going e w' (effect, written) = (effect, inr written)

module _ {H : Hardhat} where
  pub deploy_implementations-Refines :
      Refines Phase1Script.implementations (deploy_implementations {H = H})
  unfolding deploy_implementations
  deploy_implementations-Refines w = Ensures-read w _ IsReadOnly-get_signer (inl refl) λ burner _.
      Ensures-read w _ IsReadOnly-get_chain_id (inl refl) λ id here.
        Ensures-read w _ (IsReadOnly-require_network_config id) (inl refl) λ _ _.
          Ensures-read w _ (IsReadOnly-get_deployments (get_deployment_filename id)) (inl refl)
            λ d e.
              Ensures-read w _
                (IsReadOnly-require_set "pre-requisites" (d.trading_lib ∷ d.rewardable_lib ∷ []))
                (inl refl)
                λ _ _.
                  Ensures-read w _ (IsReadOnly-require_contract "TradingLib" d.trading_lib)
                    (inl refl)
                    λ _ _.
                      Ensures-read w _
                        (IsReadOnly-require_contract "RewardableLib" d.rewardable_lib) (inl refl)
                        λ _ _.
                          deploys w id d here
                            (get_deployments-file (get_deployment_filename id) w d e)
    where
      deploys :
          (w : World H) (id : String) (d : IDeployments)
          → get_chain_id w ≡ (ok id, w)
          → get (get_deployment_filename id) w.files ≡ some (phase1 d)
          → Ensures w
              (do
                d ← deploy_main (get_deployment_filename id) d
                d ← deploy_trade (get_deployment_filename id) d
                deploy_components (get_deployment_filename id) d
                pure tt)
              (λ _ w'. Updates Phase1Script.implementations w w')
              (Keeps Phase1Script.implementations w)
      deploys w id d here there =
          let file = get_deployment_filename id in
          Ensures-then w _ _ _
            (deploy_main-Steps w id d here there d w ((d.implementations, refl), inl refl))
            λ e₁ w₁ g₁.
              Ensures-then w₁ _ _ _
                (deploy_trade-Steps w id d here there e₁ w₁ (Wrote-Going w file d e₁ w₁ g₁))
                λ e₂ w₂ g₂.
                  Ensures-then w₂ _ _ _
                    (deploy_components-Steps w id d here there e₂ w₂
                      (Wrote-Going w file d e₂ w₂ g₂))
                    λ e₃ w₃ (effect, written).
                      Ensures-pure w₃ tt (id, d, e₃, here, there, effect, written)
