-- ===== src/Deployment/Reading.antt =====
-- The guards of the deployment scripts, which only read, and what is known where they return.
use iceth_plugin.Prelude.{
  String, ◌≡◌, ◌≢◌, refl, Bool, true, false, Option, none, some, List, [], ◌∷◌, arith, eq_iff,
  if◌then◌else◌, All,
}
use iceth_plugin.Errors.{ok}
use iceth_plugin.Dict.{get}
use iceth_plugin.Runtime.{Hardhat, World, Script}
use iceth_plugin.Runtime.Contracts.{phase1, IDeployments}
use iceth_plugin.Runtime.Ensures.{IsReadOnly, IsReadOnly-bind, reading}
use iceth_plugin.Runtime.Live.{HasCode}
use iceth_plugin.Deployment.{
  normalise_chain_id, fall_back, get_chain_id, is_valid_contract, file_exists, get_deployment_file,
  get_deployments, require_network_config, require_contract, any_empty, require_set,
}

any_empty-All : (l : List String) → any_empty l ≡ false → All (λ a. a ≢ "") l
any_empty-All [] h = tt
any_empty-All (a ∷ l) h = (ground (arith, eq_iff a ""), any_empty-All l (ground arith))

module _ {H : Hardhat} where
  pub IsReadOnly-if :
      {A : Type 0} (b : Bool) {m n : Script H A}
      → IsReadOnly m
      → IsReadOnly n
      → IsReadOnly (if b then m else n)
  IsReadOnly-if true h k = h
  IsReadOnly-if false h k = k

  IsReadOnly-normalise : (id : String) → IsReadOnly (normalise_chain_id {H = H} id)
  IsReadOnly-normalise id = search (reading, IsReadOnly-if)

  IsReadOnly-fall_back : (w : World H) (o : Option String) → IsReadOnly (fall_back w o)
  IsReadOnly-fall_back w none = search reading
  IsReadOnly-fall_back w (some id) = search reading

  pub IsReadOnly-get_chain_id : IsReadOnly (get_chain_id {H = H})
  unfolding get_chain_id
  IsReadOnly-get_chain_id = record {
    same = λ w.
        (IsReadOnly-bind (fall_back w (H.send w.chain "eth_chainId")) normalise_chain_id
            (IsReadOnly-fall_back w (H.send w.chain "eth_chainId")) IsReadOnly-normalise).same
          w;
  }

  pub IsReadOnly-is_valid_contract : (a : String) → IsReadOnly (is_valid_contract {H = H} a)
  unfolding is_valid_contract
  IsReadOnly-is_valid_contract a = record { same = λ w. ground arith }

  pub IsReadOnly-file_exists : (file : String) → IsReadOnly (file_exists {H = H} file)
  unfolding file_exists
  IsReadOnly-file_exists file = record { same = λ w. refl }

  pub IsReadOnly-get_deployment_file :
      (file : String) → IsReadOnly (get_deployment_file {H = H} file)
  unfolding get_deployment_file
  IsReadOnly-get_deployment_file file = record { same = λ w. ground arith }

  pub IsReadOnly-get_deployments : (file : String) → IsReadOnly (get_deployments {H = H} file)
  unfolding get_deployments
  IsReadOnly-get_deployments file = record { same = λ w. ground arith }

  pub IsReadOnly-require_network_config :
      (id : String) → IsReadOnly (require_network_config {H = H} id)
  unfolding require_network_config
  IsReadOnly-require_network_config id = search reading

  pub IsReadOnly-require_contract : (what a : String) → IsReadOnly (require_contract {H = H} what a)
  unfolding require_contract
  IsReadOnly-require_contract what a = record { same = λ w. ground arith }

  pub IsReadOnly-require_set :
      (what : String) (l : List String) → IsReadOnly (require_set {H = H} what l)
  unfolding require_set
  IsReadOnly-require_set what l = search (reading, IsReadOnly-if)

  -- A contract that a guard has let pass has code.
  pub require_contract-HasCode :
      (what a : String) (w : World H) → require_contract what a w ≡ (ok tt, w) → HasCode H w.chain a
  unfolding require_contract
  require_contract-HasCode what a w h = ground arith

  pub is_valid_contract-HasCode :
      (a : String) (w : World H) → is_valid_contract a w ≡ (ok true, w) → HasCode H w.chain a
  unfolding is_valid_contract
  is_valid_contract-HasCode a w h = ground arith

  -- A file that was read is a deployment file of the first phase.
  pub get_deployments-file :
      (file : String) (w : World H) (d : IDeployments)
      → get_deployments file w ≡ (ok d, w)
      → get file w.files ≡ some (phase1 d)
  unfolding get_deployments get_deployment_file
  get_deployments-file file w d h = ground arith

  pub require_set-All :
      (what : String) (l : List String) (w : World H)
      → require_set what l w ≡ (ok tt, w)
      → All (λ a. a ≢ "") l
  unfolding require_set
  require_set-All what l w h = any_empty-All l (ground arith)
