-- ===== src/Verification/Creating.antt =====
-- What a task of tasks/deployment/collateral/ and a block of 2_deploy_collateral.ts do to the network.
use iceth_plugin.Prelude.{String, ◌≡◌, refl, ◌∙◌, Option, none, some, List}
use iceth_plugin.Runtime.{
  Hardhat, World, Script, answer, ◌>>=◌, ◌>>◌, get_signer, deploy_contract, write_file,
}
use iceth_plugin.Runtime.Contracts.{Creation, IAssetCollDeployments}
use iceth_plugin.Runtime.Ensures.{
  Outcome, Ensures, Ensures-read, Ensures-then, Ensures-weaken, IsReadOnly-get_signer,
}
use iceth_plugin.Deployment.{get_chain_id}
use iceth_plugin.Deployment.Reading.{IsReadOnly-get_chain_id}
use iceth_plugin.Tasks.{Params, require_params}
use iceth_plugin.Tasks.Creating.{IsReadOnly-require_params}
use iceth_plugin.Phase2.Collateral.Blocks.{Setting, Writing, store_collateral}

module _ {H : Hardhat} where
  -- The script has created a contract in this way, and has sent nothing else.
  abbrev pub Creates : {A : Type 0} → World H → Creation → Script H A → Type 0
  Creates w k m = Ensures w m (λ _ w'. w'.chain ≡ (H.deploy w.chain k).1) (λ _. Unit {0})

  created-ends :
      (w : World H) (k : Creation) (o : Option String)
      → Outcome
          (λ _ (w' : World H). w'.chain ≡ (H.deploy w.chain k).1)
          (λ _. Unit {0})
          (answer {H = H} k.contract o (record w { chain = (H.deploy w.chain k).1 }))
  created-ends w k none = tt
  created-ends w k (some a) = refl

  deploy_contract-Creates : (w : World H) (k : Creation) → Creates w k (deploy_contract k)
  unfolding deploy_contract
  deploy_contract-Creates w k = record { at = created-ends w k (H.deploy w.chain k).0 }

  -- What a task does before it deploys.
  pub task-Creates :
      (w : World H) (names : List String) (params : Params) (k : Creation)
      → Creates w k (do
        require_params names params
        deployer ← get_signer
        chain_id ← get_chain_id
        deploy_contract k)
  task-Creates w names params k =
      Ensures-read w _ (IsReadOnly-require_params names params) tt λ _ _.
        Ensures-read w _ IsReadOnly-get_signer tt
          λ _ _. Ensures-read w _ IsReadOnly-get_chain_id tt λ _ _. deploy_contract-Creates w k

  store_collateral-chain :
      (s : Setting) (writing : Writing) (token a : String) (d : IAssetCollDeployments) (w : World H)
      → Ensures w
          (store_collateral s writing token a d)
          (λ _ w'. w'.chain ≡ w.chain)
          (λ _. Unit {0})
  unfolding store_collateral write_file
  store_collateral-chain s Writing.write_before token a d w = record { at = refl }
  store_collateral-chain s Writing.write_after token a d w = record { at = refl }
  store_collateral-chain s Writing.no_write token a d w = record { at = refl }

  -- A block: the creation of its task, and the record of the address.
  pub block-Creates :
      (w : World H) (k : Creation) (m : Script H String) (s : Setting) (writing : Writing)
      (token : String) (d : IAssetCollDeployments)
      → Creates w k m
      → Creates w k (m >>= λ a. store_collateral s writing token a d)
  block-Creates w k m s writing token d h =
      Ensures-then w m _ (λ _ w'. w'.chain ≡ (H.deploy w.chain k).1) h
        λ a w₁ made.
          Ensures-weaken w₁ _ (store_collateral-chain s writing token a d w₁)
            λ _ w' kept. kept ∙ made
