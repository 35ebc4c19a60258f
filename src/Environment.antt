-- ===== src/Environment.antt =====
-- utils/env.ts: reading of environment variables.
--
-- `process.env` is a map of texts; a variable that is not set is not there.
pub mod Selecting
pub mod Build
use iceth_plugin.Prelude.{String, Option, none, some, List, [], ◌∷◌, str_eq, if◌then◌else◌}
use iceth_plugin.Dict.{Dict, get}

-- key: IEnvVars | IEnvVars[]
pub data EnvVars : Type 0 where
  one : String → EnvVars
  many : List String → EnvVars

-- process.env[key] ?? value
abbrev pub or_default : Option String → String → String
or_default none value = value
or_default (some s) value = s

-- The first of the keys that is set to a text that is not empty.
unfoldable pub first_set : Dict String → List String → Option String
unfolding get
first_set env [] = none
first_set env (key ∷ keys) =
    let value = or_default (get key env) "" in
    let rest = first_set env keys in if str_eq value "" then rest else some value

unfoldable pub use_env : Dict String → EnvVars → String → String
unfolding get first_set
use_env env (EnvVars.one key) value = or_default (get key env) value
use_env env (EnvVars.many keys) value = or_default (first_set env keys) value
