-- ===== src/Tasks/Mocks.antt =====
-- tasks/deployment/mock/: a task for each mock contract.
use iceth_plugin.Prelude.{String, [], ◌∷◌}
use iceth_plugin.Runtime.{Hardhat, Script, ◌>>=◌, ◌>>◌, get_signer, deploy_contract}
use iceth_plugin.Runtime.Contracts.{Value}
use iceth_plugin.Runtime.Ensures.{Ensures-read, IsReadOnly-get_signer}
use iceth_plugin.Runtime.Live.{IsLawful}
use iceth_plugin.Runtime.Deploying.{Ensures-create}
use iceth_plugin.Deployment.{get_chain_id}
use iceth_plugin.Deployment.Reading.{IsReadOnly-get_chain_id}
use iceth_plugin.Phase1.Facades.{zero_address}
use iceth_plugin.Tasks.{Params, arguments, require_params}
use iceth_plugin.Tasks.Creating.{CreatesOne, IsReadOnly-require_params}

module _ {H : Hardhat} where
  unfoldable pub deploy_mock_aave : Params → Script H String
  deploy_mock_aave params = do
    deployer ← get_signer
    chain_id ← get_chain_id
    deploy_contract (record {
      contract = "AaveLendingPoolMock";
      libraries = [];
      arguments = Value.text zero_address ∷ [];
    })

  unfoldable pub deploy_mock_atoken : Params → Script H String
  deploy_mock_atoken params = do
    require_params ("name" ∷ "symbol" ∷ "erc20" ∷ []) params
    deployer ← get_signer
    chain_id ← get_chain_id
    deploy_contract (record {
      contract = "ATokenMock";
      libraries = [];
      arguments = arguments ("name" ∷ "symbol" ∷ "erc20" ∷ []) params;
    })

  unfoldable pub deploy_mock_ctoken : Params → Script H String
  deploy_mock_ctoken params = do
    require_params ("name" ∷ "symbol" ∷ "erc20" ∷ []) params
    deployer ← get_signer
    chain_id ← get_chain_id
    deploy_contract (record {
      contract = "CTokenMock";
      libraries = [];
      arguments = arguments ("name" ∷ "symbol" ∷ "erc20" ∷ []) params;
    })

  unfoldable pub deploy_mock_erc20 : Params → Script H String
  deploy_mock_erc20 params = do
    require_params ("name" ∷ "symbol" ∷ []) params
    deployer ← get_signer
    chain_id ← get_chain_id
    deploy_contract (record {
      contract = "ERC20Mock";
      libraries = [];
      arguments = arguments ("name" ∷ "symbol" ∷ []) params;
    })

  unfoldable pub deploy_mock_oracle : Params → Script H String
  deploy_mock_oracle params = do
    require_params ("decimals" ∷ "answer" ∷ []) params
    deployer ← get_signer
    chain_id ← get_chain_id
    deploy_contract (record {
      contract = "MockV3Aggregator";
      libraries = [];
      arguments = arguments ("decimals" ∷ "answer" ∷ []) params;
    })

  unfoldable pub deploy_mock_usdc : Params → Script H String
  deploy_mock_usdc params = do
    require_params ("name" ∷ "symbol" ∷ []) params
    deployer ← get_signer
    chain_id ← get_chain_id
    deploy_contract (record {
      contract = "USDCMock";
      libraries = [];
      arguments = arguments ("name" ∷ "symbol" ∷ []) params;
    })

  unfoldable pub deploy_mock_wbtc : Params → Script H String
  deploy_mock_wbtc params = do
    require_params ("name" ∷ "symbol" ∷ []) params
    deployer ← get_signer
    chain_id ← get_chain_id
    deploy_contract (record {
      contract = "WBTCMock";
      libraries = [];
      arguments = arguments ("name" ∷ "symbol" ∷ []) params;
    })

module _ {H : Hardhat} (L : IsLawful H) where
  pub deploy_mock_aave-Created : CreatesOne (deploy_mock_aave {H = H})
  unfolding deploy_mock_aave
  deploy_mock_aave-Created w params l s live =
      Ensures-read w _ IsReadOnly-get_signer s λ deployer _.
        Ensures-read w _ IsReadOnly-get_chain_id s λ id _. Ensures-create L w s l live _

  pub deploy_mock_atoken-Created : CreatesOne (deploy_mock_atoken {H = H})
  unfolding deploy_mock_atoken
  deploy_mock_atoken-Created w params l s live =
      Ensures-read w _ (IsReadOnly-require_params ("name" ∷ "symbol" ∷ "erc20" ∷ []) params) s
        λ _ _. Ensures-read w _ IsReadOnly-get_signer s λ deployer _.
          Ensures-read w _ IsReadOnly-get_chain_id s λ id _. Ensures-create L w s l live _

  pub deploy_mock_ctoken-Created : CreatesOne (deploy_mock_ctoken {H = H})
  unfolding deploy_mock_ctoken
  deploy_mock_ctoken-Created w params l s live =
      Ensures-read w _ (IsReadOnly-require_params ("name" ∷ "symbol" ∷ "erc20" ∷ []) params) s
        λ _ _. Ensures-read w _ IsReadOnly-get_signer s λ deployer _.
          Ensures-read w _ IsReadOnly-get_chain_id s λ id _. Ensures-create L w s l live _

  pub deploy_mock_erc20-Created : CreatesOne (deploy_mock_erc20 {H = H})
  unfolding deploy_mock_erc20
  deploy_mock_erc20-Created w params l s live =
      Ensures-read w _ (IsReadOnly-require_params ("name" ∷ "symbol" ∷ []) params) s λ _ _.
        Ensures-read w _ IsReadOnly-get_signer s λ deployer _.
          Ensures-read w _ IsReadOnly-get_chain_id s λ id _. Ensures-create L w s l live _

  pub deploy_mock_oracle-Created : CreatesOne (deploy_mock_oracle {H = H})
  unfolding deploy_mock_oracle
  deploy_mock_oracle-Created w params l s live =
      Ensures-read w _ (IsReadOnly-require_params ("decimals" ∷ "answer" ∷ []) params) s λ _ _.
        Ensures-read w _ IsReadOnly-get_signer s λ deployer _.
          Ensures-read w _ IsReadOnly-get_chain_id s λ id _. Ensures-create L w s l live _

  pub deploy_mock_usdc-Created : CreatesOne (deploy_mock_usdc {H = H})
  unfolding deploy_mock_usdc
  deploy_mock_usdc-Created w params l s live =
      Ensures-read w _ (IsReadOnly-require_params ("name" ∷ "symbol" ∷ []) params) s λ _ _.
        Ensures-read w _ IsReadOnly-get_signer s λ deployer _.
          Ensures-read w _ IsReadOnly-get_chain_id s λ id _. Ensures-create L w s l live _

  pub deploy_mock_wbtc-Created : CreatesOne (deploy_mock_wbtc {H = H})
  unfolding deploy_mock_wbtc
  deploy_mock_wbtc-Created w params l s live =
      Ensures-read w _ (IsReadOnly-require_params ("name" ∷ "symbol" ∷ []) params) s λ _ _.
        Ensures-read w _ IsReadOnly-get_signer s λ deployer _.
          Ensures-read w _ IsReadOnly-get_chain_id s λ id _. Ensures-create L w s l live _
