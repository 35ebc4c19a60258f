-- ===== src/Tasks.antt =====
-- The tasks of tasks/deployment/ that the scripts run by hre.run. The arguments of a run are an object
-- of values; a key that is not there, or that holds undefined, is undefined. Numbers are passed as
-- their decimal texts; the model keeps the number.
pub mod Assets
pub mod Collateral
pub mod Creating
pub mod Mocks
pub mod Minting
pub mod Minted
pub mod Steps
pub mod Wallet
use iceth_plugin.Prelude.{String, Option, none, some, List, [], ◌∷◌}
use iceth_plugin.Dict.{Dict, get}
use iceth_plugin.Runtime.{Hardhat, Script, pure, ◌>>=◌, ◌>>◌, task_param}
use iceth_plugin.Runtime.Contracts
use iceth_plugin.Runtime.Contracts.{Value}

abbrev pub Params : Type 0
Params = Dict Value

abbrev or_undefined : Option Value → Value
or_undefined none = Value.undefined
or_undefined (some v) = v

-- params.name
unfoldable pub param : String → Params → Value
unfolding get
param name params = or_undefined (get name params)

-- The arguments of a constructor, in order.
abbrev pub arguments : List String → Params → List Value
arguments [] params = []
arguments (name ∷ names) params = param name params ∷ arguments names params

module _ {H : Hardhat} where
  -- The parameters that the task declares by addParam are checked before its action runs.
  unfoldable pub require_params : List String → Params → Script H (Unit {0})
  require_params [] params = pure tt
  require_params (name ∷ names) params = do
    task_param name (param name params)
    require_params names params
