-- ===== src/Phase1/Completion.antt =====
-- 2_deploy_implementations.ts as a whole, and the file that it leaves.
use iceth_plugin.Prelude.{List, [], ◌∷◌, String, ◌≡◌, ◌≢◌, All, some, inl, inr}
use iceth_plugin.Dict.{get}
use iceth_plugin.Errors.{ok}
use iceth_plugin.Deployment.{get_chain_id}
use iceth_plugin.Runtime.{Hardhat, World}
use iceth_plugin.Runtime.Contracts.{phase1, IDeployments, Component}
use iceth_plugin.Runtime.Ensures.{
  Ensures, Ensures-pure, Ensures-read, Ensures-then, IsReadOnly-get_signer, Ensures-weaken,
}
use iceth_plugin.Runtime.Live.{HasCode, IsLawful, IsLive, AllLive, addresses, IsSound}
use iceth_plugin.Deployment.{get_deployment_filename}
use iceth_plugin.Deployment.Reading.{
  IsReadOnly-get_chain_id, IsReadOnly-get_deployments, IsReadOnly-require_network_config,
  IsReadOnly-require_set, IsReadOnly-require_contract, get_deployments-file,
}
use iceth_plugin.Phase1.Implementations.{deploy_implementations}
use iceth_plugin.Runtime.Deploying.{KeepsSound}
use iceth_plugin.Deployment.Utils.{validate_implementations, all_components}
use iceth_plugin.Deployment.Validation.{validate_implementations-passes, implementation_addresses}
use iceth_plugin.Phase1.Components.{
  Recorded, WithMain, recorded_components, deploy_main-WithMain, deploy_trade-Recorded,
  deploy_components-Recorded,
}

implementations-set :
    (d : IDeployments)
    → d.implementations.main ≢ ""
    → d.implementations.trade ≢ ""
    → All (λ c. d.implementations.components c ≢ "") recorded_components
    → All (λ a. a ≢ "") (implementation_addresses d.implementations)
implementations-set d m t h = assumption

All-each : (P : Component → Type 0) (ks : List Component) → ((k : Component) → P k) → All P ks
All-each P [] h = tt
All-each P (k ∷ ks) h = (h k, All-each P ks h)

component-set :
    (d : IDeployments) (k : Component)
    → All (λ c. d.implementations.components c ≢ "") recorded_components
    → d.implementations.components k ≢ ""
component-set d Component.asset_registry h = assumption
component-set d _ h = assumption

-- What the file of the network holds in the end: a record with a contract for main, trade and each
-- component, which the validation of the next scripts accepts.
abbrev pub IsComplete : {H : Hardhat} → String → World H → Type 0
IsComplete {H} file w =
    (d : IDeployments) × (get file w.files ≡ some (phase1 d))
    × HasCode H w.chain d.implementations.main
    × HasCode H w.chain d.implementations.trade
    × ((c : Component) → HasCode H w.chain (d.implementations.components c))
    × (validate_implementations d w ≡ (ok tt, w))

IsLive-HasCode : (H : Hardhat) (c : H.Chain) (a : String) → a ≢ "" → IsLive H c a → HasCode H c a
IsLive-HasCode H c a set' (inl e) = absurd (set' e)
IsLive-HasCode H c a set' (inr code) = code

module _ (H : Hardhat) where
  component-IsLive :
      (c : H.Chain) (d : IDeployments) (k : Component)
      → AllLive H c (addresses d)
      → IsLive H c (d.implementations.components k)
  component-IsLive c d Component.asset_registry l = assumption
  component-IsLive c d _ l = assumption

  Recorded-IsComplete :
      (file : String) (d : IDeployments) (w : World H)
      → Recorded file recorded_components d w
      → IsComplete file w
  Recorded-IsComplete file d w (l, _, saved, main', trade', done) =
      let main_live = IsLive-HasCode H w.chain d.implementations.main main' (assumption) in
      let trade_live = IsLive-HasCode H w.chain d.implementations.trade trade' (assumption) in
      let live = λ (k : Component).
        IsLive-HasCode H w.chain (d.implementations.components k) (component-set d k done)
          (component-IsLive w.chain d k l) in
      (
        d,
        saved,
        main_live,
        trade_live,
        live,
        validate_implementations-passes d w (implementations-set d main' trade' done) main_live
            trade_live
            (All-each (λ k. HasCode H w.chain (d.implementations.components k)) all_components
              live),
      )

-- The world is sound, and the file of the network that the chain id names is complete.
abbrev pub CompletesNetwork : {H : Hardhat} → World H → Unit {0} → World H → Type 0
CompletesNetwork w _ w' =
    IsSound w'
    × ((id : String) × (get_chain_id w ≡ (ok id, w)) × IsComplete (get_deployment_filename id) w')

module _ {H : Hardhat} (L : IsLawful H) where
  -- If the network is lawful and every recorded address is empty or has a contract, then this also
  -- holds after 2_deploy_implementations.ts, and if the script returns, the deployment file of the
  -- network's chain id holds a record in which main, trade and each of the ten components have a
  -- contract with code, and which validateImplementations accepts.
  pub deploy_implementations-IsComplete :
      (w : World H)
      → IsSound w
      → Ensures w (deploy_implementations {H = H}) (CompletesNetwork w) IsSound
  unfolding deploy_implementations
  deploy_implementations-IsComplete w s = Ensures-read w _ IsReadOnly-get_signer s λ burner _.
      Ensures-read w _ IsReadOnly-get_chain_id s λ id' again.
        Ensures-read w _ (IsReadOnly-require_network_config id') s λ _ _.
          Ensures-read w _ (IsReadOnly-get_deployments (get_deployment_filename id')) s λ d e.
            Ensures-read w _
              (IsReadOnly-require_set "pre-requisites" (d.trading_lib ∷ d.rewardable_lib ∷ [])) s
              λ _ _.
                Ensures-read w _ (IsReadOnly-require_contract "TradingLib" d.trading_lib) s λ _ _.
                  Ensures-read w _ (IsReadOnly-require_contract "RewardableLib" d.rewardable_lib) s
                    λ _ _.
                      let file = get_deployment_filename id' in
                      let live = s.at_file _ (phase1 d) (get_deployments-file _ w d e) in
                      Ensures-then w _ _ WithMain (deploy_main-WithMain L w file d live s)
                        λ d₁ w₁ h₁.
                          Ensures-then w₁ _ _ (Recorded file [])
                            (deploy_trade-Recorded L w₁ file d₁ h₁)
                            λ d₂ w₂ h₂.
                              Ensures-then w₂ _ _ (Recorded file recorded_components)
                                (deploy_components-Recorded L w₂ file d₂ h₂)
                                λ d₃ w₃ h₃.
                                  Ensures-pure w₃ tt
                                    (h₃.1, (id', again, Recorded-IsComplete H file d₃ w₃ h₃))

  -- If the network is lawful and every recorded address is empty or has a contract, the same holds
  -- after 2_deploy_implementations.ts, whether it returns or throws at any of its steps.
  pub deploy_implementations-KeepsSound : KeepsSound (deploy_implementations {H = H})
  deploy_implementations-KeepsSound w s =
      Ensures-weaken w deploy_implementations (deploy_implementations-IsComplete w s) λ _ w' h. h.0
