-- ===== src/Verification.antt =====
-- verifyContract and getEtherscanBaseURL of scripts/deployment/utils.ts.
--
-- The service and its pages are parameters: `get_page` and `verify` of `Hardhat`. The wait of half a
-- second and the output are left out.
pub mod Phase1
pub mod Collateral
pub mod RToken
pub mod Running
pub mod Keeping
pub mod Etherscan
pub mod Repeating
pub mod Agreeing
pub mod Creating
pub mod Deployed
use Prim.Native.String
use iceth_plugin.Prelude.{
  String, Bool, true, false, ◌&&◌, ◌==◌, List, [], ◌∷◌, str_eq, if◌then◌else◌,
}
use iceth_plugin.Errors.{no_service, development_chain}
use iceth_plugin.Dict.{Dict}
use iceth_plugin.Environment.{EnvVars, use_env}
use iceth_plugin.Runtime.{Hardhat, Script, pure, throw, ◌>>=◌, ◌>>◌, get_page, run_verify, attempt}
use iceth_plugin.Runtime.Contracts.{Value}
use iceth_plugin.Runtime.Requests.{Verification, Page}
use iceth_plugin.Deployment.{get_chain_id, require_network_config}
use iceth_plugin.Confirmation.{refuse_development}

infixr 60 ◌+s◌
abbrev ◌+s◌ : String → String → String
s +s t = String.◌++◌ s t

unfoldable pub get_etherscan_base_url : String → String → Bool → String
get_etherscan_base_url network chain_id true =
    "https://"
    +s (if str_eq chain_id "1" then "api." else "api-" +s network +s ".")
    +s "etherscan.io"
get_etherscan_base_url network chain_id false =
    "https://" +s (if str_eq chain_id "1" then "" else network +s ".") +s "etherscan.io"

-- An address in a text.
abbrev pub shown : Value → String
shown (Value.text a) = a
shown _ = "undefined"

-- if (status != 200 || data['status'] != '1') throw ...
abbrev pub is_answer : Page → Bool
is_answer page = page.status == 200 && str_eq page.result_status "1"

unfoldable pub source_url : Hardhat → String → Value → String
source_url H chain_id address =
    get_etherscan_base_url H.network_name chain_id true
    +s "/api/?module=contract&action=getsourcecode&address="
    +s shown address
    +s "&apikey="
    +s use_env H.environment (EnvVars.one "ETHERSCAN_API_KEY") ""

module _ {H : Hardhat} where
  -- Only run verification script if not verified
  unfoldable pub verify_contract : String → Value → List Value → String → Script H (Unit {0})
  verify_contract chain_id address arguments contract = do
    page ← get_page (source_url H chain_id address)
    (if is_answer page then pure tt else throw no_service)
    (if page.has_source
        then pure tt
        else attempt (
            run_verify (record {
              address = address;
              constructor_arguments = arguments;
              contract = contract;
              libraries = [];
            })))

  -- What each script of scripts/verification/ begins with.
  unfoldable pub begin : Script H String
  begin = do
    chain_id ← get_chain_id
    require_network_config chain_id
    refuse_development
    pure chain_id
