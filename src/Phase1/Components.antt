-- ===== src/Phase1/Components.antt =====
-- The steps of 2_deploy_implementations.ts and what each has recorded.

use iceth_plugin.Prelude.{
  String, ◌≡◌, ◌≢◌, List, [], ◌∷◌, All, Bool, true, false, some, ◌==◌, if◌then◌else◌,
}
use iceth_plugin.Dict.{get, set, get-set_self}
use iceth_plugin.Runtime.{Hardhat, World, write_file}
use iceth_plugin.Runtime.Contracts.{Creation, phase1, IDeployments, Component}
use iceth_plugin.Runtime.Ensures.{Ensures, Ensures-then}
use iceth_plugin.Runtime.Live.{IsLawful, IsLive, AllLive, addresses, IsSound, IsSound-write}
use iceth_plugin.Runtime.Deploying.{Ensures-deploy_live}
use iceth_plugin.Phase1.Implementations.{
  index, with_component, deploy_component, deploy_traders, deploy_main, deploy_trade,
  deploy_components,
}

module _ (H : Hardhat) (c : H.Chain) where
  with_component-AllLive :
      (d : IDeployments) (k : Component) (a : String)
      → AllLive H c (addresses d)
      → IsLive H c a
      → AllLive H c (addresses (with_component d k a))
  with_component-AllLive d Component.asset_registry a l h = assumption
  with_component-AllLive d _ a l h = assumption

-- The record that is handed on is live and so is every file, the record is the one in the file, and
-- main, trade and the listed components are recorded in it.
abbrev pub Recorded : {H : Hardhat} → String → List Component → IDeployments → World H → Type 0
Recorded {H} file ks d w =
    AllLive H w.chain (addresses d)
    × IsSound w
    × (get file w.files ≡ some (phase1 d))
    × (d.implementations.main ≢ "")
    × (d.implementations.trade ≢ "")
    × All (λ c. d.implementations.components c ≢ "") ks

-- The same after the first step: only main is recorded.
abbrev pub WithMain : {H : Hardhat} → IDeployments → World H → Type 0
WithMain {H} d w = AllLive H w.chain (addresses d) × IsSound w × (d.implementations.main ≢ "")

if-set : (b : Bool) (x y : String) → x ≢ "" → y ≢ "" → (if b then x else y) ≢ ""
if-set true x y h k = h
if-set false x y h k = k

-- A component that was recorded stays so when another address is recorded.
set_component-All :
    (d : IDeployments) (k : Component) (a : String) (ks : List Component)
    → a ≢ ""
    → All (λ c. d.implementations.components c ≢ "") ks
    → All (λ c. (with_component d k a).implementations.components c ≢ "") ks
set_component-All d k a [] h done = tt
set_component-All d k a (c ∷ ks) h done = (
  if-set (index k == index c) a (d.implementations.components c) h done.0,
  set_component-All d k a ks h done.1,
)

index_self : (k : Component) (a b : String) → a ≢ "" → (if index k == index k then a else b) ≢ ""
index_self Component.asset_registry a b h = h
index_self Component.backing_manager a b h = h
index_self Component.basket_handler a b h = h
index_self Component.broker a b h = h
index_self Component.distributor a b h = h
index_self Component.furnace a b h = h
index_self Component.rsr_trader a b h = h
index_self Component.r_token_trader a b h = h
index_self Component.r_token a b h = h
index_self Component.st_rsr a b h = h

with_component-Recorded :
    {H : Hardhat} (w : World H) (file : String) (ks : List Component) (k : Component) (a : String)
    (d : IDeployments)
    → IsLive H w.chain a
    → a ≢ ""
    → AllLive H w.chain (addresses d)
    → IsSound w
    → d.implementations.main ≢ ""
    → d.implementations.trade ≢ ""
    → All (λ c. d.implementations.components c ≢ "") ks
    → Recorded file
        (k ∷ ks)
        (with_component d k a)
        (record w { files = set file (phase1 (with_component d k a)) w.files })
with_component-Recorded {H} w file ks k a d h set' live s main' trade' done =
    let l = with_component-AllLive H w.chain d k a live h in
    (
      l,
      IsSound-write w file (phase1 (with_component d k a)) l s,
      get-set_self file (phase1 (with_component d k a)) w.files,
      main',
      trade',
      (index_self k a (d.implementations.components k) set', set_component-All d k a ks set' done),
    )

-- The components, the last one first.
abbrev pub recorded_components : List Component
recorded_components =
    Component.st_rsr ∷ Component.r_token ∷ Component.r_token_trader ∷ Component.rsr_trader
    ∷ Component.furnace ∷ Component.distributor ∷ Component.broker ∷ Component.basket_handler
    ∷ Component.backing_manager ∷ Component.asset_registry ∷ []

module _ {H : Hardhat} (L : IsLawful H) where
  deploy_component-Recorded :
      (w : World H) (file : String) (ks : List Component) (k : Component) (creation : Creation)
      (d : IDeployments)
      → Recorded file ks d w
      → Ensures w (deploy_component file k creation d) (Recorded file (k ∷ ks)) IsSound
  unfolding deploy_component write_file
  deploy_component-Recorded w file ks k creation d (l, s, _, main', trade', done) =
      Ensures-deploy_live L w s (addresses d) l creation _ λ a c set' l₁ s₁. record {
        at =
            with_component-Recorded (record w { chain = c }) file ks k a d l₁.0 set' l₁.1 s₁ main'
              trade' done;
      }

  deploy_traders-Recorded :
      (w : World H) (file : String) (ks : List Component) (d : IDeployments)
      → Recorded file ks d w
      → Ensures w
          (deploy_traders file d)
          (Recorded file (Component.r_token_trader ∷ Component.rsr_trader ∷ ks))
          IsSound
  unfolding deploy_traders write_file
  deploy_traders-Recorded w file ks d (l, s, _, main', trade', done) =
      Ensures-deploy_live L w s (addresses d) l _ _ λ a c set' l₁ s₁.
        let d₂ = with_component d Component.rsr_trader a in
        let w₁ : World H = record w { chain = c } in
        let w₂ : World H = record w₁ { files = set file (phase1 d₂) w₁.files } in
        let (l₂, s₂, _, main₂, trade₂, done₂) =
          with_component-Recorded w₁ file ks Component.rsr_trader a d l₁.0 set' l₁.1 s₁ main' trade'
            done in
        record {
          at =
              with_component-Recorded w₂ file (Component.rsr_trader ∷ ks) Component.r_token_trader a
                d₂ l₁.0 set' l₂ s₂ main₂ trade₂ done₂;
        }

  pub deploy_main-WithMain :
      (w : World H) (file : String) (d : IDeployments)
      → AllLive H w.chain (addresses d)
      → IsSound w
      → Ensures w (deploy_main file d) WithMain IsSound
  unfolding deploy_main write_file
  deploy_main-WithMain w file d l s =
      Ensures-deploy_live L w s (addresses d) l _ _ λ a c set' l₁ s₁.
        let d' = record d { implementations = record d.implementations { main = a } } in
        record { at = (assumption, IsSound-write _ file (phase1 d') (assumption) s₁, set') }

  pub deploy_trade-Recorded :
      (w : World H) (file : String) (d : IDeployments)
      → WithMain d w
      → Ensures w (deploy_trade file d) (Recorded file []) IsSound
  unfolding deploy_trade write_file
  deploy_trade-Recorded w file d (l, s, main') =
      Ensures-deploy_live L w s (addresses d) l _ _ λ a c set' l₁ s₁.
        let d' = record d { implementations = record d.implementations { trade = a } } in
        record {
          at = (
            assumption,
            IsSound-write _ file (phase1 d') (assumption) s₁,
            get-set_self file (phase1 d') w.files,
            main',
            set',
            tt,
          );
        }

  pub deploy_components-Recorded :
      (w : World H) (file : String) (d : IDeployments)
      → Recorded file [] d w
      → Ensures w (deploy_components file d) (Recorded file recorded_components) IsSound
  unfolding deploy_components
  deploy_components-Recorded w file d h =
      let k₀ : List Component = [] in
      let k₁ : List Component = Component.asset_registry ∷ k₀ in
      let k₂ : List Component = Component.backing_manager ∷ k₁ in
      let k₃ : List Component = Component.basket_handler ∷ k₂ in
      let k₄ : List Component = Component.broker ∷ k₃ in
      let k₅ : List Component = Component.distributor ∷ k₄ in
      let k₆ : List Component = Component.furnace ∷ k₅ in
      let k₇ : List Component = Component.r_token_trader ∷ Component.rsr_trader ∷ k₆ in
      let k₈ : List Component = Component.r_token ∷ k₇ in
      Ensures-then w _ _ (Recorded file k₁) (deploy_component-Recorded w file k₀ _ _ d h)
        λ d₁ w₁ h₁.
          Ensures-then w₁ _ _ (Recorded file k₂) (deploy_component-Recorded w₁ file k₁ _ _ d₁ h₁)
            λ d₂ w₂ h₂.
              Ensures-then w₂ _ _ (Recorded file k₃)
                (deploy_component-Recorded w₂ file k₂ _ _ d₂ h₂)
                λ d₃ w₃ h₃.
                  Ensures-then w₃ _ _ (Recorded file k₄)
                    (deploy_component-Recorded w₃ file k₃ _ _ d₃ h₃)
                    λ d₄ w₄ h₄.
                      Ensures-then w₄ _ _ (Recorded file k₅)
                        (deploy_component-Recorded w₄ file k₄ _ _ d₄ h₄)
                        λ d₅ w₅ h₅.
                          Ensures-then w₅ _ _ (Recorded file k₆)
                            (deploy_component-Recorded w₅ file k₅ _ _ d₅ h₅)
                            λ d₆ w₆ h₆.
                              Ensures-then w₆ _ _ (Recorded file k₇)
                                (deploy_traders-Recorded w₆ file k₆ d₆ h₆)
                                λ d₇ w₇ h₇.
                                  Ensures-then w₇ _ _ (Recorded file k₈)
                                    (deploy_component-Recorded w₇ file k₇ _ _ d₇ h₇)
                                    λ d₈ w₈ h₈. deploy_component-Recorded w₈ file k₈ _ _ d₈ h₈
