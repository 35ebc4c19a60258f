-- ===== src/Environment/Build.antt =====
-- hardhat.config.ts: what the configuration takes from the environment.
--
-- `Number` of a text and the block that the tests fork from are parameters. The rest of the object is
-- made of constants.
use Prim.Native.String
use iceth_plugin.Prelude.{
  ℕ, String, Bool, false, not, Option, none, some, [], ◌∷◌, str_eq, if◌then◌else◌,
}
use iceth_plugin.Dict.{Dict}
use iceth_plugin.Environment.{EnvVars, or_default, use_env}

-- The part of the object that depends on the environment.
pub record HardhatUserConfig : Type 0 where
  -- networks.hardhat.forking: the url and the block
  pub forking : Option (String × ℕ)
  pub goerli_url : String
  pub mainnet_url : String
  -- the mnemonic of both networks
  pub mnemonic : String
  pub timeout : ℕ
  pub sources : String
  -- the runs of the optimizer, if it is on
  pub optimizer : Option ℕ
  pub report_gas : Bool
  pub etherscan_key : String
  -- mocha: slow, grep, and the jobs of a parallel run
  pub slow : ℕ
  pub grep : Option String
  pub jobs : Option ℕ

-- A text is true in a test if it is not empty.
abbrev is_true : String → Bool
is_true s = not (str_eq s "")

abbrev default_mnemonic : String
default_mnemonic = "test test test test test test test test test test test junk"

-- useEnv('MNEMONIC') ?? '...': the call gives a text, and never undefined.
abbrev pub mnemonic_of : Option String → String
mnemonic_of o = or_default o default_mnemonic

module _ (to_number : String → ℕ) (default_block : String) where
  unfoldable pub hardhat_config : Dict String → HardhatUserConfig
  unfolding use_env
  hardhat_config env = record {
    forking =
        if is_true (use_env env (EnvVars.one "FORK") "")
        then some (
          use_env env (EnvVars.many ("MAINNET_RPC_URL" ∷ "ALCHEMY_MAINNET_RPC_URL" ∷ [])) "",
          to_number (use_env env (EnvVars.one "MAINNET_BLOCK") default_block),
        )
        else none;
    goerli_url = use_env env (EnvVars.one "GOERLI_RPC_URL") "";
    mainnet_url =
        use_env env (EnvVars.many ("MAINNET_RPC_URL" ∷ "ALCHEMY_MAINNET_RPC_URL" ∷ [])) "";
    mnemonic = mnemonic_of (some (use_env env (EnvVars.one "MNEMONIC") ""));
    timeout = if is_true (use_env env (EnvVars.one "SLOW") "") then 3000000 else 300000;
    sources = String.◌++◌ "./contracts/" (use_env env (EnvVars.one "PROTO") "");
    optimizer = if is_true (use_env env (EnvVars.one "NO_OPT") "") then none else some 200;
    report_gas =
        if is_true (use_env env (EnvVars.one "ONLY_FAST") "")
        then false
        else is_true (use_env env (EnvVars.one "REPORT_GAS") "");
    etherscan_key = use_env env (EnvVars.one "ETHERSCAN_API_KEY") "";
    slow = if is_true (use_env env (EnvVars.one "ONLY_FAST") "") then 200 else 1000;
    grep = if is_true (use_env env (EnvVars.one "ONLY_FAST") "") then some "/#fast/" else none;
    jobs =
        if is_true (use_env env (EnvVars.one "JOBS") "")
        then some (to_number (use_env env (EnvVars.one "JOBS") ""))
        else none;
  }
