-- ===== src/Runtime/Requests.antt =====
-- What the scripts send: transactions, and requests to the service that verifies contracts.
use iceth_plugin.Prelude.{ℕ, String, Bool, List, ℤ}
use iceth_plugin.Dict.{Dict}
use iceth_plugin.Configuration.RToken.{IrTokenConfig, IrTokenSetup, IGovParams}
use iceth_plugin.Runtime.Contracts.{Value}

-- A call of a function of a contract by a transaction.
pub data Transaction : Type 0 where
  deploy_r_token : IrTokenConfig → IrTokenSetup → Transaction
  -- the RToken, whether to deploy the governance, whether to unpause, the parameters, and the owner,
  -- the guardian and the pauser
  setup_governance : Value → Bool → Bool → IGovParams → String → String → String → Transaction
  mint : Value → ℤ → Transaction
  approve : Value → ℤ → Transaction
  deposit : Value → ℤ → ℤ → Bool → Transaction
  transfer : Value → ℤ → Transaction

-- What `verify:verify` is run with; the libraries are undefined where the list is empty.
pub record Verification : Type 0 where
  pub address : Value
  pub constructor_arguments : List Value
  pub contract : String
  pub libraries : Dict Value

-- What the service answers: the status of the page, that of the answer, and whether the source of the
-- contract is known.
pub record Page : Type 0 where
  pub status : ℕ
  pub result_status : String
  pub has_source : Bool
