-- ===== src/Phase1/Updating.antt =====
-- What each script of scripts/deployment/phase1-common/ after the first writes, as an update of one
-- record: the specification, and what the scripts need to meet it.
use iceth_plugin.Prelude.{
  String, ◌≡◌, ◌⊎◌, inl, refl, ap, Option, none, some, [], ◌∷◌, arith, eq_iff,
}
use iceth_plugin.Errors.{Result, ok, err}
use iceth_plugin.Dict.{Dict, get, set}
use iceth_plugin.Runtime.{
  Hardhat, World, Script, continue, answer, ◌>>=◌, ◌>>◌, get_signer, deploy_contract, write_file,
}
use iceth_plugin.Runtime.Contracts.{Creation, Document, phase1, IDeployments, IImplementations}
use iceth_plugin.Runtime.Ensures.{Outcome, Ensures, Ensures-read, IsReadOnly-get_signer}
use iceth_plugin.Deployment.{
  get_deployment_filename, get_chain_id, get_deployments, require_network_config,
}
use iceth_plugin.Deployment.Reading.{
  IsReadOnly-get_chain_id, IsReadOnly-get_deployments, IsReadOnly-require_network_config,
  get_deployments-file,
}
use iceth_plugin.Deployment.Utils.{validate_implementations}
use iceth_plugin.Deployment.Validation.{IsReadOnly-validate_implementations}

-- The scripts after 0_setup_deployments.ts.
pub data Phase1Script : Type 0 where
  libraries implementations rsr_asset facade deployer facade_write facade_act : Phase1Script

-- The fields that a script may change; all others stay as they were.
abbrev pub Effect : Phase1Script → IDeployments → IDeployments → Type 0
Effect libraries d d' =
    (t : String) × (r : String) × (p : String) × (o : String) × (d'
      ≡ record d { trading_lib = t; rewardable_lib = r; permit_lib = p; oracle_lib = o })
Effect implementations d d' = (i : IImplementations) × (d' ≡ record d { implementations = i })
Effect rsr_asset d d' = (a : String) × (d' ≡ record d { rsr_asset = a })
Effect facade d d' = (a : String) × (d' ≡ record d { facade_read = a })
Effect deployer d d' = (a : String) × (d' ≡ record d { deployer = a })
Effect facade_write d d' =
    (l : String) × (a : String) × (d' ≡ record d { facade_write_lib = l; facade_write = a })
Effect facade_act d d' = (a : String) × (d' ≡ record d { facade_act = a })

-- The file of the chain is updated, and every other file is as it was.
abbrev pub Updates : {H : Hardhat} → Phase1Script → World H → World H → Type 0
Updates s w w' =
    (id : String) × (d : IDeployments) × (d' : IDeployments) × (get_chain_id w ≡ (ok id, w))
    × (get (get_deployment_filename id) w.files ≡ some (phase1 d))
    × Effect s d d'
    × (w'.files ≡ set (get_deployment_filename id) (phase1 d') w.files)

-- Nothing is written, or the file of the chain is updated.
abbrev pub Keeps : {H : Hardhat} → Phase1Script → World H → World H → Type 0
Keeps s w w' = (w'.files ≡ w.files) ⊎ Updates s w w'

pub set-set :
    (file : String) (x y : Document) (l : Dict Document) → set file x (set file y l) ≡ set file x l
unfolding set
set-set file x y [] = ground (arith, eq_iff file file)
set-set file x y ((j, z) ∷ l) = ground (arith, eq_iff j file, eq_iff file file, set-set file x y l)

module _ {H : Hardhat} {B : Type 0} {Q : B → World H → Type 0} {R : World H → Type 0} where
  ends-any :
      (contract : String) (o : Option String) (w' : World H) (f : String → Script H B)
      → R w'
      → ((a : String) → Ensures w' (f a) Q R)
      → Outcome Q R (continue f (answer {H = H} contract o w').0 (answer {H = H} contract o w').1)
  ends-any contract none w' f fails goes = fails
  ends-any contract (some a) w' f fails goes = (goes a).at

  -- A deployment on any network.
  pub Ensures-deploy_any :
      (w : World H) (k : Creation) (f : String → Script H B)
      → ((c : H.Chain) → R (record w { chain = c }))
      → ((a : String) (c : H.Chain) → Ensures (record w { chain = c }) (f a) Q R)
      → Ensures w (deploy_contract k >>= f) Q R
  unfolding deploy_contract
  Ensures-deploy_any w k f fails goes = record {
    at =
        ends-any k.contract (H.deploy w.chain k).0 (record w { chain = (H.deploy w.chain k).1 }) f
          (fails (H.deploy w.chain k).1) (λ a. goes a (H.deploy w.chain k).1);
  }

  -- The guards of the scripts after the implementations.
  pub Ensures-guarded :
      (w : World H) (f : String → IDeployments → Script H B)
      → R w
      → ((id : String) (d : IDeployments)
          → get_chain_id w ≡ (ok id, w)
          → get (get_deployment_filename id) w.files ≡ some (phase1 d)
          → Ensures w (f id d) Q R)
      → Ensures w
          (do
            burner ← get_signer
            chain_id ← get_chain_id
            require_network_config chain_id
            d ← get_deployments (get_deployment_filename chain_id)
            validate_implementations d
            f chain_id d)
          Q
          R
  Ensures-guarded w f r k = Ensures-read w _ IsReadOnly-get_signer r λ burner _.
      Ensures-read w _ IsReadOnly-get_chain_id r λ id here.
        Ensures-read w _ (IsReadOnly-require_network_config id) r λ _ _.
          Ensures-read w _ (IsReadOnly-get_deployments (get_deployment_filename id)) r λ d e.
            Ensures-read w _ (IsReadOnly-validate_implementations d) r
              λ _ _. k id d here (get_deployments-file _ w d e)

module _ {H : Hardhat} where
  -- The write of the updated record is the end of a script.
  pub Ensures-update :
      (s : Phase1Script) (w w' : World H) (id : String) (d d' : IDeployments)
      → get_chain_id w ≡ (ok id, w)
      → get (get_deployment_filename id) w.files ≡ some (phase1 d)
      → Effect s d d'
      → w'.files ≡ w.files
      → Ensures w'
          (write_file (get_deployment_filename id) (phase1 d'))
          (λ _ w''. Updates s w w'')
          (Keeps s w)
  unfolding write_file
  Ensures-update s w w' id d d' here there effect same = record {
    at = (
      id,
      d,
      d',
      here,
      there,
      effect,
      ap (λ l. set (get_deployment_filename id) (phase1 d') l) same,
    );
  }

  answer-files :
      (contract : String) (o : Option String) (w w' : World H)
      → w'.files ≡ w.files
      → Outcome (λ _ w''. w''.files ≡ w.files) (λ w''. w''.files ≡ w.files) (answer contract o w')
  answer-files contract none w w' same = same
  answer-files contract (some a) w w' same = same

  -- A deployment writes no file.
  pub Ensures-deploy_files :
      (w : World H) (k : Creation)
      → Ensures w (deploy_contract k) (λ _ w'. w'.files ≡ w.files) (λ w'. w'.files ≡ w.files)
  unfolding deploy_contract
  Ensures-deploy_files w k = record {
    at =
        answer-files k.contract (H.deploy w.chain k).0 w
          (record w { chain = (H.deploy w.chain k).1 }) refl;
  }

  -- A script that writes no file, in one that may.
  pub Ensures-kept :
      {A : Type 0} (s : Phase1Script) (w : World H) (m : Script H A)
      → Ensures w m (λ _ w'. w'.files ≡ w.files) (λ w'. w'.files ≡ w.files)
      → Ensures w m (λ _ w'. w'.files ≡ w.files) (Keeps s w)
  Ensures-kept {A = A} s w m h = record { at = weaken (m w) h.at }
    where
      weaken :
          (o : Result A × World H)
          → Outcome (λ _ w'. w'.files ≡ w.files) (λ w'. w'.files ≡ w.files) o
          → Outcome (λ _ w'. w'.files ≡ w.files) (Keeps s w) o
      weaken (ok a, w') same = same
      weaken (err x, w') same = inl same
