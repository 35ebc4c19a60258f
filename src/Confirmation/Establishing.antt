-- ===== src/Confirmation/Establishing.antt =====
-- scripts/confirm.ts and the scripts that it runs, where they return.
use iceth_plugin.Prelude.{
  ◌^◌, String, Bool, true, false, ◌≡◌, refl, sym, ◌∙◌, subst, some, [], ℤ, pos, ◌≤ℤ◌, ltb_ℤ, All,
  arith, str_eq, if◌then◌else◌,
}
use iceth_plugin.BigNumber
use iceth_plugin.BigNumber.{IsDocumented}
use iceth_plugin.Errors.{ok, unpaused, short_timelock, development_chain}
use iceth_plugin.Dict.{get}
use iceth_plugin.Numbers.Decimal.{match}
use iceth_plugin.Numbers.Scientific.{decimal_value}
use iceth_plugin.Prelude.{◌+ℤ◌, ◌-ℤ◌}
use iceth_plugin.Configuration.{is_development_chain}
use iceth_plugin.Runtime.{Hardhat, World, pure, throw, lift, view_flag}
use iceth_plugin.Runtime.Contracts.{
  Value, assets_collateral, r_token, IAssetCollDeployments, IrTokenDeployments,
}
use iceth_plugin.Runtime.Ensures.{
  IsReadOnly-pure, IsReadOnly-throw, IsReadOnly-lift, IsReadOnly-view_number, IsReadOnly-view_flag,
  returned,
}
use iceth_plugin.Runtime.Live.{values}
use iceth_plugin.Deployment.{
  get_chain_id, get_deployment_filename, get_asset_coll_deployment_filename,
  get_r_token_deployment_filename,
}
use iceth_plugin.Deployment.Reading.{
  IsReadOnly-if, IsReadOnly-get_chain_id, IsReadOnly-require_network_config,
  IsReadOnly-get_deployment_file,
}
use iceth_plugin.Deploy.{run_all}
use iceth_plugin.Phase2.Soundness.{
  IsReadOnly-get_asset_coll_deployments, get_asset_coll_deployments-file,
}
use iceth_plugin.Phase3.Soundness.{IsReadOnly-get_r_token_deployments, get_r_token_deployments-file}
use iceth_plugin.Phase3.Config.{r_token_name, bn_text}
use iceth_plugin.Phase3.Values.{bn_text_lem, power}
use iceth_plugin.Confirmation.{
  refuse_development, confirm_asset, confirm_collateral, confirm_assets, confirm_mainnet,
  confirm_components, confirm,
}
use iceth_plugin.Confirmation.Prices.{
  Answers, IsConfirmedAsset, IsConfirmedCollateral, IsReadOnly-refuse_development,
  IsReadOnly-confirm_asset, IsReadOnly-confirm_collateral, for_each-All, guard-passed,
  confirm_asset-IsConfirmedAsset, confirm_collateral-IsConfirmedCollateral, view_number-some,
  ok-eq-ok,
}
use iceth_plugin.Confirmation.Reading.{
  IsReadOnly-for_each, IsReadOnly-confirm_assets, IsReadOnly-confirm_components,
}

-- Every asset and collateral of the file of the chain is confirmed.
abbrev pub ConfirmsPrices : {H : Hardhat} → World H → String → Type 0
ConfirmsPrices {H} w id =
    (d : IAssetCollDeployments) × (get (get_asset_coll_deployment_filename id) w.files
      ≡ some (assets_collateral d))
    × All (IsConfirmedAsset w) (values d.assets [])
    × All (IsConfirmedCollateral w) (values d.collateral [])

-- On mainnet the recorded Main is paused, and the timelock waits 10^12 seconds at least.
abbrev pub ConfirmsMainnet : {H : Hardhat} → World H → String → Type 0
ConfirmsMainnet {H} w id =
    (d : IrTokenDeployments) × (get (get_r_token_deployment_filename id r_token_name) w.files
      ≡ some (r_token d))
    × (H.view_flag w.chain (Value.text d.main) "paused" ≡ some true)
    × (delay : ℤ) × Answers w d.timelock "getMinDelay" delay
    × (pos (10 ^ 12) ≤ℤ delay)

least_lem : (B : BigNumber.BigNumber) → IsDocumented B → bn_text B "1e12" ≡ ok (pos (10 ^ 12))
unfolding match decimal_value ◌+ℤ◌ ◌-ℤ◌
least_lem B L = bn_text_lem B L "1e12" (power "12") refl (omega arith)

module _ {H : Hardhat} where
  not-development :
      (w : World H)
      → refuse_development w ≡ (ok tt, w)
      → is_development_chain H.network_name ≡ false
  unfolding refuse_development
  not-development w e = guard-passed (is_development_chain H.network_name) development_chain w e

  -- The scripts that confirm has run have returned.
  confirmed :
      (w : World H)
      → confirm w ≡ (ok tt, w)
      → (is_development_chain H.network_name ≡ false)
        × (confirm_components w ≡ (ok tt, w))
        × (confirm_assets w ≡ (ok tt, w))
  unfolding confirm run_all
  confirmed w e =
      let (id, _, e₁) = returned w _ tt w IsReadOnly-get_chain_id e in
      let (_, _, e₂) = returned w _ tt w (IsReadOnly-require_network_config id) e₁ in
      let (_, real, e₃) = returned w _ tt w IsReadOnly-refuse_development e₂ in
      let (_, _, e₄) =
        returned w _ tt w (IsReadOnly-get_deployment_file (get_deployment_filename id)) e₃ in
      let (_, _, e₅) =
        returned w _ tt w (IsReadOnly-get_deployment_file (get_asset_coll_deployment_filename id))
          e₄ in
      let (_, components, e₆) = returned w _ tt w IsReadOnly-confirm_components e₅ in
      let (_, assets, _) = returned w _ tt w IsReadOnly-confirm_assets e₆ in
      (not-development w real, components, assets)

  same-id :
      (w : World H) (id i : String)
      → get_chain_id w ≡ (ok id, w)
      → get_chain_id w ≡ (ok i, w)
      → i ≡ id
  same-id w id i here there = cc

  -- 0_confirm_components.ts on mainnet.
  confirmed_components :
      (w : World H) (id : String)
      → get_chain_id w ≡ (ok id, w)
      → confirm_components w ≡ (ok tt, w)
      → (d : IrTokenDeployments) × (get (get_r_token_deployment_filename id r_token_name) w.files
          ≡ some (r_token d))
        × ((if str_eq id "1" then confirm_mainnet d else pure tt) w ≡ (ok tt, w))
  unfolding confirm_components
  confirmed_components w id here e =
      let (i, there, e₁) = returned w _ tt w IsReadOnly-get_chain_id e in
      let (_, _, e₂) = returned w _ tt w (IsReadOnly-require_network_config i) e₁ in
      let (_, _, e₃) = returned w _ tt w IsReadOnly-refuse_development e₂ in
      let (d, found, e₄) =
        returned w _ tt w
          (IsReadOnly-get_r_token_deployments (get_r_token_deployment_filename i r_token_name))
          e₃ in
      subst
        (λ (i : String).
          (d : IrTokenDeployments) × (get (get_r_token_deployment_filename i r_token_name) w.files
            ≡ some (r_token d))
          × ((if str_eq i "1" then confirm_mainnet d else pure tt) w ≡ (ok tt, w)))
        (same-id w id i here there)
        (
          d,
          get_r_token_deployments-file (get_r_token_deployment_filename i r_token_name) w d found,
          e₄,
        )

  view_flag-some :
      (a method : String) (b : Bool) (w : World H)
      → view_flag (Value.text a) method w ≡ (ok b, w)
      → H.view_flag w.chain (Value.text a) method ≡ some b
  unfolding view_flag
  view_flag-some a method b w e = ground arith

  paused-passed :
      (b : Bool) (w : World H)
      → (if b then pure {H = H} tt else throw unpaused) w ≡ (ok tt, w)
      → b ≡ true
  paused-passed b w e = ground arith

not-less : (a b : ℤ) → ltb_ℤ a b ≡ false → b ≤ℤ a
not-less a b e = ground arith

module _ {H : Hardhat} (L : IsDocumented H.ethers) where
  -- If the BigNumber package is as documented and scripts/confirm.ts returns on the chain of an id,
  -- then the network is no development chain, and of every asset in the chain's file the price is
  -- no fallback and the fallback price differs from it by a twentieth at most, and of every
  -- collateral the price is no fallback, and both the fallback price and the product of the three
  -- rates, less 36 decimals, differ from it by a hundredth at most.
  pub confirm-ConfirmsPrices :
      (w : World H) (id : String)
      → get_chain_id w ≡ (ok id, w)
      → confirm w ≡ (ok tt, w)
      → (is_development_chain H.network_name ≡ false) × ConfirmsPrices w id
  unfolding confirm_assets
  confirm-ConfirmsPrices w id here e =
      let (real, _, assets) = confirmed w e in
      let (i, there, e₁) = returned w _ tt w IsReadOnly-get_chain_id assets in
      let (_, _, e₂) = returned w _ tt w (IsReadOnly-require_network_config i) e₁ in
      let (_, _, e₃) = returned w _ tt w IsReadOnly-refuse_development e₂ in
      let (d, found, e₄) =
        returned w _ tt w
          (IsReadOnly-get_asset_coll_deployments (get_asset_coll_deployment_filename i)) e₃ in
      let (_, all_assets, all_collateral) =
        returned w _ tt w
          (IsReadOnly-for_each confirm_asset IsReadOnly-confirm_asset (values d.assets [])) e₄ in
      let all : ConfirmsPrices w i = (
        d,
        get_asset_coll_deployments-file (get_asset_coll_deployment_filename i) w d found,
        for_each-All (IsConfirmedAsset w) confirm_asset w IsReadOnly-confirm_asset
            (λ a. confirm_asset-IsConfirmedAsset L a w) (values d.assets []) all_assets,
        for_each-All (IsConfirmedCollateral w) confirm_collateral w IsReadOnly-confirm_collateral
            (λ c. confirm_collateral-IsConfirmedCollateral L c w) (values d.collateral [])
            all_collateral,
      ) in
      (real, subst (ConfirmsPrices w) (same-id w id i here there) all)

  -- If the BigNumber package is as documented and scripts/confirm.ts returns on the chain with the
  -- id 1, then the Main that the file of the RToken records answers that it is paused, and the
  -- recorded timelock answers a minimal delay of 10^12 or more.
  pub confirm-ConfirmsMainnet :
      (w : World H) → get_chain_id w ≡ (ok "1", w) → confirm w ≡ (ok tt, w) → ConfirmsMainnet w "1"
  unfolding confirm_mainnet
  confirm-ConfirmsMainnet w here e =
      let (_, components, _) = confirmed w e in
      let (d, found, e₁) = confirmed_components w "1" here components in
      let (b, flag, e₂) =
        returned w _ tt w (IsReadOnly-view_flag (Value.text d.main) "paused") e₁ in
      let (_, passed, e₃) =
        returned w _ tt w (IsReadOnly-if b (IsReadOnly-pure tt) (IsReadOnly-throw unpaused)) e₂ in
      let (delay, read, e₄) =
        returned w _ tt w (IsReadOnly-view_number (Value.text d.timelock) "getMinDelay") e₃ in
      let (least, known, e₅) = returned w _ tt w (IsReadOnly-lift (bn_text H.ethers "1e12")) e₄ in
      (
        d,
        found,
        subst (λ b. H.view_flag w.chain (Value.text d.main) "paused" ≡ some b)
            (paused-passed b w passed) (view_flag-some d.main "paused" b w flag),
        delay,
        view_number-some d.timelock "getMinDelay" delay w read,
        long_enough delay least w known e₅,
      )
    where
      long_enough :
          (delay least : ℤ) (w : World H)
          → lift {H = H} (bn_text H.ethers "1e12") w ≡ (ok least, w)
          → (if H.ethers.lt delay least then throw {H = H} short_timelock else pure tt) w
            ≡ (ok tt, w)
          → pos (10 ^ 12) ≤ℤ delay
      long_enough delay least w known e =
          let same : pos (10 ^ 12) ≡ least =
            ok-eq-ok w (pos (10 ^ 12)) least (rw (least_lem H.ethers L) at known) in
          subst (λ n. n ≤ℤ delay) (sym same)
            (not-less delay least (
              sym (L.lt_lem delay least)
              ∙ guard-passed (H.ethers.lt delay least) short_timelock w e))
