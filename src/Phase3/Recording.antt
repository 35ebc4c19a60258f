-- ===== src/Phase3/Recording.antt =====
-- What 1_deploy_rtoken.ts and 2_deploy_governance.ts record of the contracts that they have asked for.
use iceth_plugin.Prelude.{String, ◌≡◌, refl, some, arith}
use iceth_plugin.Errors.{Result, ok}
use iceth_plugin.Runtime.{Hardhat, World, lift, view_text, view_at}
use iceth_plugin.Runtime.Ensures.{IsReadOnly-view_text, IsReadOnly-view_at, Ensures, Ensures-read}
use iceth_plugin.Runtime.Contracts.{IrTokenDeployments, Component, Value}
use iceth_plugin.Phase3.Scripts.{argument, components_of, read_r_token}

-- The function of Main that gives the address of a component.
abbrev pub getter : Component → String
getter Component.asset_registry = "assetRegistry"
getter Component.backing_manager = "backingManager"
getter Component.basket_handler = "basketHandler"
getter Component.broker = "broker"
getter Component.distributor = "distributor"
getter Component.furnace = "furnace"
getter Component.rsr_trader = "rsrTrader"
getter Component.r_token_trader = "rTokenTrader"
getter Component.r_token = "rToken"
getter Component.st_rsr = "stRSR"

-- Each recorded component is the one that Main gives, and the recorded asset the one that the asset
-- registry has for the RToken.
abbrev pub RecordsComponents : (H : Hardhat) → H.Chain → IrTokenDeployments → Type 0
RecordsComponents H c d =
    ((k : Component) → H.view_text c (Value.text d.main) (getter k) ≡ some (d.components k))
    × (H.view_at c (Value.text (d.components Component.asset_registry)) "toAsset"
          (Value.text (d.components Component.r_token))
        ≡ some d.r_token_asset)

module _ {H : Hardhat} where
  pub view_text-given :
      (at : Value) (method t : String) (w : World H)
      → view_text at method w ≡ (ok t, w)
      → H.view_text w.chain at method ≡ some t
  unfolding view_text
  view_text-given at method t w e = ground arith

  view_at-given :
      (at : Value) (method : String) (argument : Value) (t : String) (w : World H)
      → view_at at method argument w ≡ (ok t, w)
      → H.view_at w.chain at method argument ≡ some t
  unfolding view_at
  view_at-given at method argument t w e = ground arith

  -- The record that is read off the network after the deployment.
  abbrev pub ReadsTo : IrTokenDeployments → String → World H → IrTokenDeployments → World H → Type 0
  ReadsTo d main v d' v' =
      (v' ≡ v)
      × (d'.main ≡ main)
      × RecordsComponents H v.chain d'
      × (d'.facade_write ≡ d.facade_write)
      × (d'.governance ≡ d.governance)
      × (d'.timelock ≡ d.timelock)

  pub read_r_token-ReadsTo :
      (d : IrTokenDeployments) (main : String) (v : World H)
      → Ensures v (read_r_token d main) (ReadsTo d main v) (λ v'. v'.files ≡ v.files)
  unfolding read_r_token
  read_r_token-ReadsTo d main v =
      let m : Value = Value.text main in
      Ensures-read v _ (IsReadOnly-view_text m "rToken") refl λ token p₁.
        Ensures-read v _ (IsReadOnly-view_text m "assetRegistry") refl λ registry p₂.
          Ensures-read v _ (IsReadOnly-view_at (Value.text registry) "toAsset" (Value.text token))
            refl
            λ asset p₃.
              Ensures-read v _ (IsReadOnly-view_text m "backingManager") refl λ backing p₄.
                Ensures-read v _ (IsReadOnly-view_text m "basketHandler") refl λ basket p₅.
                  Ensures-read v _ (IsReadOnly-view_text m "broker") refl λ broker_at p₆.
                    Ensures-read v _ (IsReadOnly-view_text m "distributor") refl
                      λ distributor_at p₇.
                        Ensures-read v _ (IsReadOnly-view_text m "furnace") refl λ furnace_at p₈.
                          Ensures-read v _ (IsReadOnly-view_text m "rTokenTrader") refl
                            λ token_trader p₉.
                              Ensures-read v _ (IsReadOnly-view_text m "rsrTrader") refl
                                λ trader q₁.
                                  Ensures-read v _ (IsReadOnly-view_text m "stRSR") refl
                                    λ staked q₂. record {
                                      at = (
                                        refl,
                                        refl,
                                        (
                                          λ k.
                                              elim k
                                                as (λ k.
                                                  H.view_text v.chain m (getter k)
                                                  ≡ some (
                                                      components_of registry backing basket
                                                        broker_at distributor_at furnace_at
                                                        token_trader trader token staked k)) [
                                                          | Component.asset_registry ↦
                                                            view_text-given m _ registry v p₂
                                                          | Component.backing_manager ↦
                                                            view_text-given m _ backing v p₄
                                                          | Component.basket_handler ↦
                                                            view_text-given m _ basket v p₅
                                                          | Component.broker ↦
                                                            view_text-given m _ broker_at v p₆
                                                          | Component.distributor ↦
                                                            view_text-given m _ distributor_at v p₇
                                                          | Component.furnace ↦
                                                            view_text-given m _ furnace_at v p₈
                                                          | Component.rsr_trader ↦
                                                            view_text-given m _ trader v q₁
                                                          | Component.r_token_trader ↦
                                                            view_text-given m _ token_trader v p₉
                                                          | Component.r_token ↦
                                                            view_text-given m _ token v p₁
                                                          | Component.st_rsr ↦
                                                            view_text-given m _ staked v q₂
                                                        ],
                                          view_at-given (Value.text registry) _ (Value.text token)
                                              asset v p₃,
                                        ),
                                        refl,
                                        refl,
                                        refl,
                                      );
                                    }

pub lift-ok :
    {H : Hardhat} {A : Type 0} (r : Result A) (a : A) (w : World H)
    → lift {H = H} r w ≡ (ok a, w)
    → r ≡ ok a
lift-ok r a w e = ground arith
