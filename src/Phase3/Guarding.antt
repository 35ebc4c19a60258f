-- ===== src/Phase3/Guarding.antt =====
-- What the scripts of scripts/deployment/phase3-rtoken/ check before they send a transaction.
use iceth_plugin.Prelude.{
  String, not, ◌||◌, eq_iff, ◌≡◌, ◌⊎◌, inl, inr, refl, Option, none, some, List, [], ◌∷◌, All,
  arith, str_eq, if◌then◌else◌,
}
use iceth_plugin.Errors
use iceth_plugin.Errors.{Error, Result, ok, err}
use iceth_plugin.Dict.{get}
use iceth_plugin.Runtime.{Hardhat, World, Script, pure, throw, view_text}
use iceth_plugin.Runtime.Contracts.{
  Document, r_token, assets_collateral, IrTokenDeployments, IAssetCollDeployments, Component, Value,
}
use iceth_plugin.Runtime.Ensures.{
  Outcome, Ensures, Ensures-read, IsReadOnly-get_signer, IsReadOnly-lift, IsReadOnly-view_text,
  returned,
}
use iceth_plugin.Runtime.Live.{HasCode}
use iceth_plugin.Deployment.{
  get_asset_coll_deployment_filename, get_r_token_deployment_filename, get_chain_id,
}
use iceth_plugin.Deployment.Reading.{
  IsReadOnly-get_chain_id, IsReadOnly-require_network_config, IsReadOnly-require_set,
  IsReadOnly-require_contract, require_contract-HasCode,
}
use iceth_plugin.Phase2.Soundness.{
  IsReadOnly-get_asset_coll_deployments, get_asset_coll_deployments-file,
}
use iceth_plugin.Phase3.Config.{r_token_name, get_r_token_config}
use iceth_plugin.Phase3.Soundness.{
  IsReadOnly-get_r_token_deployments, get_r_token_deployments-file, IsReadOnly-validate_entry,
  IsReadOnly-validate_entries, IsReadOnly-setup_numbers, IsReadOnly-validate_r_token,
}
use iceth_plugin.Phase3.Scripts.{
  validate_entry, validate_entries, deploy_r_token, validate_r_token, deploy_governance,
}

-- An entry that is recorded, with a contract behind its address.
abbrev pub HasContract : (H : Hardhat) → H.Chain → Option String → Type 0
HasContract H c o = (a : String) × (o ≡ some a) × HasCode H c a

-- The assets and collateral that the RToken is made of are recorded, each with a contract.
abbrev pub HasParts : (H : Hardhat) → H.Chain → IAssetCollDeployments → Type 0
HasParts H c ac =
    All (HasContract H c) (get "stkAAVE" ac.assets ∷ get "COMP" ac.assets ∷ [])
    × All (HasContract H c)
        (get "DAI" ac.collateral ∷ get "aDAI" ac.collateral ∷ get "cDAI" ac.collateral ∷ [])
    × All (HasContract H c) (get "USDC" ac.collateral ∷ [])

-- The recorded Main and StRSR are those of the recorded RToken, and the three have contracts.
abbrev pub Agrees : (H : Hardhat) → H.Chain → IrTokenDeployments → Type 0
Agrees H c d =
    HasCode H c d.main
    × HasCode H c (d.components Component.r_token)
    × HasCode H c (d.components Component.st_rsr)
    × (H.view_text c (Value.text (d.components Component.r_token)) "main" ≡ some d.main)
    × (H.view_text c (Value.text d.main) "stRSR" ≡ some (d.components Component.st_rsr))

-- The file of the chain, of which the property speaks.
abbrev pub ChainFile :
    {A : Type 0} {H : Hardhat}
    → World H
    → (String → String)
    → (A → Document)
    → (A → Type 0)
    → Type 0
ChainFile {A} w name form P =
    (id : String) × (a : A) × (get_chain_id w ≡ (ok id, w))
    × (get (name id) w.files ≡ some (form a))
    × P a

-- The name of the file of the RToken of a chain.
abbrev pub r_token_file : String → String
r_token_file id = get_r_token_deployment_filename id r_token_name

module _ {H : Hardhat} where
  validate_entry-HasContract :
      (what : String) (o : Option String) (a : String) (w : World H)
      → validate_entry what o w ≡ (ok a, w)
      → HasContract H w.chain o
  unfolding validate_entry
  validate_entry-HasContract what none a w e = absurd (ground arith)
  validate_entry-HasContract what (some b) a w e =
      let (_, valid, _) = returned w (λ _. pure b) a w (IsReadOnly-require_contract what b) e in
      (b, refl, require_contract-HasCode what b w valid)

  validate_entries-All :
      (what : String) (l : List (Option String)) (as' : List String) (w : World H)
      → validate_entries what l w ≡ (ok as', w)
      → All (HasContract H w.chain) l
  unfolding validate_entries
  validate_entries-All what [] as' w e = tt
  validate_entries-All what (o ∷ os) as' w e =
      let (a, first', e₁) = returned w _ as' w (IsReadOnly-validate_entry what o) e in
      let (l, rest', e₂) = returned w _ as' w (IsReadOnly-validate_entries what os) e₁ in
      (validate_entry-HasContract what o a w first', validate_entries-All what os l w rest')

  -- Whatever follows, what is known stays known.
  Ensures-known :
      {A : Type 0} (P : Type 0) (v w : World H) (m : Script H A)
      → P
      → Ensures w m (λ _ _. P) (λ w'. (w' ≡ v) ⊎ P)
  Ensures-known {A = A} P v w m p = record { at = ends (m w) }
    where
      ends : (o : Result A × World H) → Outcome (λ _ _. P) (λ w'. (w' ≡ v) ⊎ P) o
      ends (ok a, w') = p
      ends (err e, w') = inr p

  -- If 1_deploy_rtoken.ts returns, or throws in a world that differs from the one it began in, then
  -- the file of assets and collateral of the network's chain id records stkAAVE, COMP, DAI, aDAI,
  -- cDAI and USDC, each with a contract behind its address.
  pub deploy_r_token-HasParts :
      (w : World H)
      → Ensures w deploy_r_token
          (λ _ _.
            ChainFile w get_asset_coll_deployment_filename assets_collateral (HasParts H w.chain))
          (λ w'.
            (w' ≡ w)
            ⊎ ChainFile w get_asset_coll_deployment_filename assets_collateral (HasParts H w.chain))
  unfolding deploy_r_token
  deploy_r_token-HasParts w = Ensures-read w _ IsReadOnly-get_signer (inl refl) λ user _.
      Ensures-read w _ IsReadOnly-get_chain_id (inl refl) λ id here.
        Ensures-read w _ (IsReadOnly-lift (get_r_token_config H.ethers id r_token_name)) (inl refl)
          λ conf _. Ensures-read w _ (IsReadOnly-require_network_config id) (inl refl) λ _ _.
            Ensures-read w _
              (IsReadOnly-get_r_token_deployments (get_r_token_deployment_filename id r_token_name))
              (inl refl)
              λ d _.
                Ensures-read w _
                  (IsReadOnly-get_asset_coll_deployments (get_asset_coll_deployment_filename id))
                  (inl refl)
                  λ ac e. Ensures-read w _ IsReadOnly-setup_numbers (inl refl) λ numbers _.
                    Ensures-read w _
                      (IsReadOnly-validate_entries "Asset"
                        (get "stkAAVE" ac.assets ∷ get "COMP" ac.assets ∷ []))
                      (inl refl)
                      λ assets e₁.
                        Ensures-read w _
                          (IsReadOnly-validate_entries "Collateral" (
                            get "DAI" ac.collateral
                            ∷ get "aDAI" ac.collateral
                            ∷ get "cDAI" ac.collateral
                            ∷ []))
                          (inl refl)
                          λ basket e₂.
                            Ensures-read w _
                              (IsReadOnly-validate_entries "Collateral"
                                (get "USDC" ac.collateral ∷ []))
                              (inl refl)
                              λ backup e₃.
                                Ensures-known
                                  (ChainFile w get_asset_coll_deployment_filename assets_collateral
                                    (HasParts H w.chain))
                                  w w _
                                  (
                                    id,
                                    ac,
                                    here,
                                    get_asset_coll_deployments-file _ w ac e,
                                    (
                                      validate_entries-All _ _ _ w e₁,
                                      validate_entries-All _ _ _ w e₂,
                                      validate_entries-All _ _ _ w e₃,
                                    ),
                                  )

  view_text-some :
      (a b : String) (method : String) (w : World H)
      → view_text (Value.text a) method w ≡ (ok b, w)
      → H.view_text w.chain (Value.text a) method ≡ some b
  unfolding view_text
  view_text-some a b method w e = ground arith

  both-equal :
      (a b x y : String) (w : World H)
      → (if not (str_eq a b) || not (str_eq x y)
            then throw {H = H} Errors.invalid_addresses
            else pure tt)
          w
        ≡ (ok tt, w)
      → (a ≡ b) × (x ≡ y)
  both-equal a b x y w e = (ground (arith, eq_iff a b), ground (arith, eq_iff x y))

  validate_r_token-Agrees :
      (d : IrTokenDeployments) (w : World H)
      → validate_r_token d w ≡ (ok tt, w)
      → Agrees H w.chain d
  unfolding validate_r_token
  validate_r_token-Agrees d w e =
      let token = d.components Component.r_token in
      let staked = d.components Component.st_rsr in
      let (_, set', e₁) = returned w _ tt w (IsReadOnly-require_set _ _) e in
      let (_, main', e₂) = returned w _ tt w (IsReadOnly-require_contract "Main" d.main) e₁ in
      let (_, token', e₃) = returned w _ tt w (IsReadOnly-require_contract "RToken" token) e₂ in
      let (_, staked', e₄) = returned w _ tt w (IsReadOnly-require_contract "StRSR" staked) e₃ in
      let (m, read_main, e₅) =
        returned w _ tt w (IsReadOnly-view_text (Value.text token) "main") e₄ in
      let (s, read_staked, e₆) =
        returned w _ tt w (IsReadOnly-view_text (Value.text m) "stRSR") e₅ in
      let (same_main, same_staked) = both-equal m d.main s staked w e₆ in
      (
        require_contract-HasCode "Main" d.main w main',
        require_contract-HasCode "RToken" token w token',
        require_contract-HasCode "StRSR" staked w staked',
        rw same_main at (view_text-some token m "main" w read_main),
        rw (same_main, same_staked) at (view_text-some m s "stRSR" w read_staked),
      )

  -- If 2_deploy_governance.ts returns, or throws in a world that differs from the one it began in,
  -- then the file of the RToken of the network's chain id records a Main, an RToken and a StRSR
  -- with contracts behind them, the RToken answers that its main is that Main, and that Main
  -- answers that its stRSR is that StRSR.
  pub deploy_governance-Agrees :
      (w : World H)
      → Ensures w deploy_governance
          (λ _ _. ChainFile w r_token_file r_token (Agrees H w.chain))
          (λ w'. (w' ≡ w) ⊎ ChainFile w r_token_file r_token (Agrees H w.chain))
  unfolding deploy_governance
  deploy_governance-Agrees w = Ensures-read w _ IsReadOnly-get_signer (inl refl) λ user _.
      Ensures-read w _ IsReadOnly-get_chain_id (inl refl) λ id here.
        Ensures-read w _ (IsReadOnly-lift (get_r_token_config H.ethers id r_token_name)) (inl refl)
          λ conf _. Ensures-read w _ (IsReadOnly-require_network_config id) (inl refl) λ _ _.
            Ensures-read w _
              (IsReadOnly-get_r_token_deployments (get_r_token_deployment_filename id r_token_name))
              (inl refl)
              λ d e. Ensures-read w _ (IsReadOnly-validate_r_token d) (inl refl) λ _ valid.
                Ensures-known (ChainFile w r_token_file r_token (Agrees H w.chain)) w w _ (
                  id,
                  d,
                  here,
                  get_r_token_deployments-file _ w d e,
                  validate_r_token-Agrees d w valid,
                )
