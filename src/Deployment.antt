-- ===== src/Deployment.antt =====
-- scripts/deployment/common.ts, common/blockchain-utils.ts and the checks of
-- scripts/deployment/utils.ts: the files and the guards that the deployment scripts share.
pub mod Utils
pub mod Reading
pub mod Validation
use text.Mathlib.Text.{starts_with}
use Prim.Native.String
use iceth_plugin.Prelude.{
  String, Bool, true, false, not, ◌||◌, Option, none, some, List, [], ◌∷◌, str_eq, if◌then◌else◌,
}
use iceth_plugin.Errors.{
  Error, Result, ok, err, missing_chain_id, file_missing, file_unreadable, wrong_document,
  missing_address, not_found,
}
use iceth_plugin.Dict.{Dict, get}
use iceth_plugin.Configuration.{INetworkConfig, get_network_config}
use iceth_plugin.Runtime.{Hardhat, World, Script, pure, throw, lift, answer, ◌>>=◌, ◌>>◌}
use iceth_plugin.Runtime.Contracts.{
  Document, phase1, assets_collateral, r_token, malformed, IDeployments, IAssetCollDeployments,
  IrTokenDeployments, IComponents, Component,
}
use iceth_plugin.Runtime.Contracts

infixr 60 ◌+s◌
abbrev ◌+s◌ : String → String → String
s +s t = String.◌++◌ s t

abbrev path_to_folder : String
path_to_folder = "./scripts/addresses/"

unfoldable pub get_deployment_filename : String → String
get_deployment_filename chain_id = path_to_folder +s chain_id +s "-tmp-deployments.json"

unfoldable pub get_asset_coll_deployment_filename : String → String
get_asset_coll_deployment_filename chain_id =
    path_to_folder +s chain_id +s "-tmp-assets-collateral.json"

unfoldable pub get_r_token_deployment_filename : String → String → String
get_r_token_deployment_filename chain_id name =
    path_to_folder +s chain_id +s "-" +s name +s "-tmp-deployments.json"

abbrev pub is_code : String → Bool
is_code code = not (str_eq code "0x")

abbrev is_some : {A : Type 0} → Option A → Bool
is_some none = false
is_some (some a) = true

-- if (!a || !b || ...) throw ...
abbrev pub any_empty : List String → Bool
any_empty [] = false
any_empty (a ∷ as') = str_eq a "" || any_empty as'

module _ {H : Hardhat} where
  -- An id in hexadecimal digits is turned into decimal digits.
  abbrev normalise_chain_id : String → Script H String
  normalise_chain_id id =
      if str_eq id ""
      then throw missing_chain_id
      else if starts_with id "0x"
      then answer "BigNumber.from" (H.decimal_text id)
      else pure id

  abbrev fall_back : World H → Option String → Script H String
  fall_back w (some id) = pure id
  fall_back w none = answer "net_version" (H.send w.chain "net_version")

  unfoldable pub get_chain_id : Script H String
  get_chain_id w = (fall_back w (H.send w.chain "eth_chainId") >>= normalise_chain_id) w

  unfoldable pub is_valid_contract : String → Script H Bool
  is_valid_contract address w =
      (answer "getCode" (H.get_code w.chain address) >>= λ code. pure (is_code code)) w

  unfoldable pub file_exists : String → Script H Bool
  file_exists file w = (ok (is_some (get file w.files)), w)

  abbrev parse_document : String → Option Document → Script H Document
  parse_document file none = throw (file_missing file)
  parse_document file (some malformed) = throw (file_unreadable file)
  parse_document file (some document) = pure document

  unfoldable pub get_deployment_file : String → Script H Document
  get_deployment_file file w = parse_document file (get file w.files) w

  -- <IDeployments>getDeploymentFile(file): the fields of another record are undefined
  abbrev as_deployments : String → Document → Script H IDeployments
  as_deployments file (phase1 d) = pure d
  as_deployments file _ = throw (wrong_document file)

  unfoldable pub get_deployments : String → Script H IDeployments
  unfolding get_deployment_file
  get_deployments file = do document ← get_deployment_file file; as_deployments file document

  -- if (!networkConfig[chainId]) throw ...
  unfoldable pub require_network_config : String → Script H INetworkConfig
  require_network_config chain_id = lift (get_network_config chain_id)

  -- } else if (!(await isValidContract(hre, address))) { throw ... }
  unfoldable pub require_contract : String → String → Script H (Unit {0})
  unfolding is_valid_contract
  require_contract what address = do
    valid ← is_valid_contract address
    if valid then pure tt else throw (not_found what)

  unfoldable pub require_set : String → List String → Script H (Unit {0})
  require_set what addresses = if any_empty addresses then throw (missing_address what) else pure tt
