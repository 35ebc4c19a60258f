-- ===== src/Tasks/Minted.antt =====
-- What tasks/testing/mint-tokens.ts mints, and for whom.
use text.Mathlib.Text.{starts_with}
use iceth_plugin.Prelude.{
  String, true, false, refl, ◌≡◌, List, [], ◌∷◌, ℤ, pos, ◌+ℤ◌, codes, some, subst, sym, ◌∙◌,
}
use iceth_plugin.Errors.{ok}
use iceth_plugin.BigNumber
use iceth_plugin.BigNumber.{IsDocumented}
use iceth_plugin.Dict.{get}
use iceth_plugin.Configuration.{INetworkConfig, get_network_config}
use iceth_plugin.Runtime.{Hardhat, World}
use iceth_plugin.Runtime.Contracts.{Value, IAssetCollDeployments, assets_collateral}
use iceth_plugin.Runtime.Requests.{Transaction}
use iceth_plugin.Runtime.Ensures.{
  Ensures, Ensures-read, Ensures-then, Ensures-weaken, Ensures-pure, IsReadOnly-get_signer,
  IsReadOnly-view_text, IsReadOnly-view_number, IsReadOnly-lift,
}
use iceth_plugin.Runtime.Deploying.{Ensures-submit}
use iceth_plugin.Deployment.{get_asset_coll_deployment_filename, get_chain_id}
use iceth_plugin.Deployment.Reading.{IsReadOnly-get_chain_id, IsReadOnly-require_network_config}
use iceth_plugin.Phase1.Starting.{configured-found}
use iceth_plugin.Phase2.Assets.{of_option}
use iceth_plugin.Phase2.Soundness.{
  IsReadOnly-get_asset_coll_deployments, get_asset_coll_deployments-file,
}
use iceth_plugin.Phase3.Recording.{lift-ok, view_text-given}
use iceth_plugin.Tasks.{Params, param}
use iceth_plugin.Tasks.Creating.{IsReadOnly-require_params}
use iceth_plugin.Tasks.Minting.{
  minted_tokens, mint_static_atoken, mint_token, mint_each, mint_tokens,
}
use iceth_plugin.Tasks.Steps.{
  view_number-given, get_signer-given, Ensures-if, Ensures-sent, ten-given, Ensures-mono,
}

module _ (H : Hardhat) (config : INetworkConfig) (d : IAssetCollDeployments) (deployer : String)
    (recipient : Value) where
  -- Most tokens are minted for the recipient. An aToken is minted for the deployer, approved for the
  -- static aToken of the collateral, deposited there, and passed on to the recipient.
  pub data Mints (token : String) (amount : ℤ) (c : H.Chain) : H.Chain → Type 0 where
    directly :
        starts_with token "a" ≡ false
        → Mints token amount c
            (H.submit c (of_option (get token config.tokens)) (Transaction.mint recipient amount)).1
    statically :
        (static_atoken : String) (c₁ c₂ c₃ : H.Chain)
        → starts_with token "a" ≡ true
        → c₁
          ≡ (H.transact c
              (of_option (get token config.tokens))
              (Transaction.mint (Value.text deployer) amount)).1
        → H.view_text c₁ (of_option (get token d.collateral)) "erc20" ≡ some static_atoken
        → c₂
          ≡ (H.transact c₁
              (of_option (get token config.tokens))
              (Transaction.approve (Value.text static_atoken) amount)).1
        → c₃
          ≡ (H.transact c₂
              (Value.text static_atoken)
              (Transaction.deposit (Value.text deployer) amount (pos 0) false)).1
        → Mints token amount c
            (H.submit c₃ (Value.text static_atoken) (Transaction.transfer recipient amount)).1

  -- Of each token 10^9 whole units are minted, in their order: 10 to the power of its decimals
  -- and 9.
  abbrev pub MintsAll : List String → H.Chain → H.Chain → Type 0
  MintsAll [] c c' = c' ≡ c
  MintsAll (token ∷ tokens) c c' =
      (decimals : ℤ) × (amount : ℤ) × (c₁ : H.Chain) × (H.view_number c
          (of_option (get token config.tokens)) "decimals"
        ≡ some decimals)
      × (H.ethers.pow (pos 10) (decimals +ℤ pos 9) ≡ ok amount)
      × Mints token amount c c₁
      × MintsAll tokens c₁ c'

-- The tokens are minted for the recipient that the task is given, with what is recorded for the
-- chain, by the first signer; no file changes.
abbrev pub MintsFor : {H : Hardhat} → Value → World H → World H → Type 0
MintsFor {H} recipient w w' =
    (id : String) × (config : INetworkConfig) × (d : IAssetCollDeployments) × (deployer : String)
    × (rest : List String) × (get_chain_id w ≡ (ok id, w))
    × (get_network_config id ≡ ok config)
    × (get (get_asset_coll_deployment_filename id) w.files ≡ some (assets_collateral d))
    × (H.signers ≡ deployer ∷ rest)
    × MintsAll H config d deployer recipient
        ("DAI" ∷ "USDC" ∷ "USDT" ∷ "BUSD" ∷ "USDP" ∷ "TUSD" ∷ "aDAI" ∷ "aUSDC" ∷ "aUSDT" ∷ "aBUSD"
          ∷ "cDAI" ∷ "cUSDC" ∷ "cETH" ∷ "cWBTC" ∷ "AAVE" ∷ "stkAAVE" ∷ "COMP" ∷ "WETH" ∷ "WBTC"
          ∷ "EURT" ∷ "RSR" ∷ [])
        w.chain w'.chain
    × (w'.files ≡ w.files)

module _ {H : Hardhat} (config : INetworkConfig) (d : IAssetCollDeployments) (deployer : String)
    (recipient : Value) where
  abbrev Minted : String → ℤ → World H → World H → Type 0
  Minted token amount w w' =
      Mints H config d deployer recipient token amount w.chain w'.chain × (w'.files ≡ w.files)

  mint_static_atoken-Mints :
      (w : World H) (token : String) (amount : ℤ)
      → starts_with token "a" ≡ true
      → Ensures w
          (mint_static_atoken d deployer recipient token
            (of_option (get token config.tokens))
            amount)
          (λ _ w'. Minted token amount w w')
          (λ w'. w'.files ≡ w.files)
  unfolding mint_static_atoken
  mint_static_atoken-Mints w token amount is_atoken =
      Ensures-sent w "mint" (of_option (get token config.tokens)) _ _ refl (
        Ensures-read _ _ (IsReadOnly-view_text (of_option (get token d.collateral)) "erc20") refl
          λ static_atoken given.
            Ensures-sent _ "approve" (of_option (get token config.tokens)) _ _ refl (
              Ensures-read _ _ (IsReadOnly-view_text (Value.text static_atoken) "symbol") refl
                λ symbol _. Ensures-sent _ "deposit" (Value.text static_atoken) _ _ refl (
                  Ensures-submit _ "transfer" (Value.text static_atoken) _ refl (
                    statically static_atoken _ _ _ is_atoken refl
                        (view_text-given _ "erc20" static_atoken _ given) refl refl,
                    refl,
                  ))))

  mint_token-MintsAll :
      (w : World H) (token : String)
      → IsDocumented H.ethers
      → Ensures w
          (mint_token config d deployer recipient token)
          (λ _ w'.
            MintsAll H config d deployer recipient (token ∷ []) w.chain w'.chain
            × (w'.files ≡ w.files))
          (λ w'. w'.files ≡ w.files)
  unfolding mint_token
  mint_token-MintsAll w token B =
      let tok = of_option (get token config.tokens) in
      Ensures-read w _ (IsReadOnly-view_number tok "decimals") refl λ decimals e.
        Ensures-read w _ (IsReadOnly-lift (H.ethers.from (BigNumber.text (codes "10")))) refl
          λ ten f.
            Ensures-read w _ (IsReadOnly-lift (H.ethers.pow ten (decimals +ℤ pos 9))) refl
              λ amount g.
                let raised : H.ethers.pow (pos 10) (decimals +ℤ pos 9) ≡ ok amount =
                  subst (λ n. H.ethers.pow n (decimals +ℤ pos 9) ≡ ok amount) (ten-given ten w B f)
                    (lift-ok _ amount w g) in
                Ensures-weaken w _
                  (Ensures-if w (starts_with token "a") (mint_static_atoken-Mints w token amount)
                    λ plain. Ensures-submit w "mint" tok _ refl (directly plain, refl))
                  λ _ w' (minted, same). (
                    (
                      decimals,
                      amount,
                      w'.chain,
                      view_number-given tok "decimals" decimals w e,
                      raised,
                      minted,
                      refl,
                    ),
                    same,
                  )

  -- One token after another.
  MintsAll-next :
      (token : String) (tokens : List String) (c c₁ c' : H.Chain)
      → MintsAll H config d deployer recipient (token ∷ []) c c₁
      → MintsAll H config d deployer recipient tokens c₁ c'
      → MintsAll H config d deployer recipient (token ∷ tokens) c c'
  MintsAll-next token tokens c c₁ c' (decimals, amount, c₂, e, g, minted, same) rest = (
    decimals,
    amount,
    c₁,
    e,
    g,
    subst (Mints H config d deployer recipient token amount c) (sym same) minted,
    rest,
  )

  mint_each-MintsAll :
      (w v : World H) (tokens : List String)
      → IsDocumented H.ethers
      → w.files ≡ v.files
      → Ensures w
          (mint_each config d deployer recipient tokens)
          (λ _ w'.
            MintsAll H config d deployer recipient tokens w.chain w'.chain × (w'.files ≡ v.files))
          (λ w'. w'.files ≡ v.files)
  unfolding mint_each
  mint_each-MintsAll w v [] B same = Ensures-pure w tt (refl, same)
  mint_each-MintsAll w v (token ∷ tokens) B same =
      Ensures-then w (mint_token config d deployer recipient token) _
        (λ _ w'.
          MintsAll H config d deployer recipient (token ∷ []) w.chain w'.chain
          × (w'.files ≡ v.files))
        (Ensures-mono w (mint_token-MintsAll w token B)
          (λ _ w' (minted, kept). (minted, kept ∙ same)) λ w' kept. kept ∙ same)
        λ _ w₁ (minted, kept).
          Ensures-weaken w₁ _ (mint_each-MintsAll w₁ v tokens B kept) λ _ w' (all, left).
            (MintsAll-next token tokens w.chain w₁.chain w'.chain minted all, left)

module _ {H : Hardhat} where
  -- If the BigNumber package is as documented and mint-tokens returns, then for each of the 21
  -- tokens in order the network has gone on by exactly the transactions of its kind, with an amount
  -- of 10 to the power of its decimals plus 9: a mint for the given recipient, or for an aToken a
  -- mint for the first signer, the approval for the static aToken of the recorded collateral, the
  -- deposit there and the transfer to the recipient; no file is changed, also if it throws.
  pub mint_tokens-MintsFor :
      (params : Params) (w : World H)
      → IsDocumented H.ethers
      → Ensures w
          (mint_tokens params)
          (λ _ w'. MintsFor (param "address" params) w w')
          (λ w'. w'.files ≡ w.files)
  unfolding mint_tokens
  mint_tokens-MintsFor params w B =
      Ensures-read w _ (IsReadOnly-require_params ("address" ∷ []) params) refl λ _ _.
        Ensures-read w _ IsReadOnly-get_signer refl λ deployer signed.
          Ensures-read w _ IsReadOnly-get_chain_id refl λ id here.
            Ensures-read w _ (IsReadOnly-require_network_config id) refl λ config found.
              Ensures-read w _
                (IsReadOnly-get_asset_coll_deployments (get_asset_coll_deployment_filename id)) refl
                λ d e.
                  Ensures-weaken w _
                    (mint_each-MintsAll config d deployer (param "address" params) w w minted_tokens
                      B refl)
                    λ _ w' (all, kept).
                      let (rest, signers) = get_signer-given deployer w signed in
                      (
                        id,
                        config,
                        d,
                        deployer,
                        rest,
                        here,
                        configured-found id config w found,
                        get_asset_coll_deployments-file _ w d e,
                        signers,
                        all,
                        kept,
                      )
