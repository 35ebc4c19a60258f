-- ===== src/Phase3/Soundness.antt =====
-- What the scripts of scripts/deployment/phase3-rtoken/ only read.
use iceth_plugin.Prelude.{String, ◌≡◌, refl, Option, none, some, List, [], ◌∷◌, arith}
use iceth_plugin.Errors.{ok}
use iceth_plugin.Dict.{get}
use iceth_plugin.Runtime.{Hardhat, World}
use iceth_plugin.Runtime.Contracts.{r_token, IrTokenDeployments, Value}
use iceth_plugin.Runtime.Ensures.{IsReadOnly, reading, IsReadOnly-pure, IsReadOnly-bind}
use iceth_plugin.Deployment.{get_deployment_file}
use iceth_plugin.Deployment.Reading.{
  IsReadOnly-if, IsReadOnly-require_set, IsReadOnly-require_contract,
}
use iceth_plugin.Phase3.Scripts.{
  address_of, get_r_token_deployments, validate_entry, validate_entries, setup_numbers,
  read_r_token, validate_r_token,
}

module _ {H : Hardhat} where
  pub IsReadOnly-get_r_token_deployments :
      (file : String) → IsReadOnly (get_r_token_deployments {H = H} file)
  unfolding get_r_token_deployments get_deployment_file
  IsReadOnly-get_r_token_deployments file = record { same = λ w. ground arith }

  -- A file that was read is a file of an RToken.
  pub get_r_token_deployments-file :
      (file : String) (w : World H) (d : IrTokenDeployments)
      → get_r_token_deployments file w ≡ (ok d, w)
      → get file w.files ≡ some (r_token d)
  unfolding get_r_token_deployments get_deployment_file
  get_r_token_deployments-file file w d h = ground arith

  pub IsReadOnly-address_of : (o : Option Value) → IsReadOnly (address_of {H = H} o)
  IsReadOnly-address_of none = record { same = λ w. refl }
  IsReadOnly-address_of (some v) = record { same = λ w. same v w }
    where
      same : (v : Value) (w : World H) → (address_of {H = H} (some v) w).1 ≡ w
      same v w = ground arith

  pub IsReadOnly-validate_entry :
      (what : String) (o : Option String) → IsReadOnly (validate_entry {H = H} what o)
  unfolding validate_entry
  IsReadOnly-validate_entry what none = search reading
  IsReadOnly-validate_entry what (some a) = search (reading, IsReadOnly-require_contract)

  pub IsReadOnly-validate_entries :
      (what : String) (l : List (Option String)) → IsReadOnly (validate_entries {H = H} what l)
  unfolding validate_entries
  IsReadOnly-validate_entries what [] = search reading
  IsReadOnly-validate_entries what (o ∷ os) =
      IsReadOnly-bind (validate_entry what o) _ (IsReadOnly-validate_entry what o) λ a.
        IsReadOnly-bind (validate_entries what os) _ (IsReadOnly-validate_entries what os)
          λ l. IsReadOnly-pure (a ∷ l)

  pub IsReadOnly-setup_numbers : IsReadOnly (setup_numbers {H = H})
  unfolding setup_numbers
  IsReadOnly-setup_numbers = search reading depth 20

  pub IsReadOnly-validate_r_token :
      (d : IrTokenDeployments) → IsReadOnly (validate_r_token {H = H} d)
  unfolding validate_r_token
  IsReadOnly-validate_r_token d =
      search (reading, IsReadOnly-if, IsReadOnly-require_set, IsReadOnly-require_contract) depth 20

  pub IsReadOnly-read_r_token :
      (d : IrTokenDeployments) (main : String) → IsReadOnly (read_r_token {H = H} d main)
  unfolding read_r_token
  IsReadOnly-read_r_token d main = search reading depth 40
