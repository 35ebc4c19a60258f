-- ===== src/Runtime/Contracts.antt =====
-- The records of scripts/deployment/common.ts and common/configuration.ts that the scripts write to
-- files and pass to contracts. A text that is not set is the empty text.
use iceth_plugin.Prelude.{String, Bool, List, ℤ}
use iceth_plugin.Dict.{Dict}

-- The keys of `IComponents`.
pub data Component : Type 0 where
  asset_registry backing_manager basket_handler broker distributor : Component
  furnace rsr_trader r_token_trader r_token st_rsr : Component

abbrev pub IComponents : Type 0
IComponents = Component → String

pub record IImplementations : Type 0 where
  pub main : String
  pub trade : String
  pub components : IComponents

pub record IPrerequisites : Type 0 where
  pub rsr : String
  pub rsr_feed : String
  pub gnosis_easy_auction : String

pub record IDeployments : Type 0 where
  pub prerequisites : IPrerequisites
  pub rewardable_lib : String
  pub oracle_lib : String
  pub trading_lib : String
  pub permit_lib : String
  pub facade_read : String
  pub facade_write_lib : String
  pub facade_write : String
  pub facade_act : String
  pub deployer : String
  pub rsr_asset : String
  pub implementations : IImplementations

pub record IAssetCollDeployments : Type 0 where
  pub assets : Dict String
  pub collateral : Dict String

pub record IrTokenDeployments : Type 0 where
  pub facade_write : String
  pub main : String
  pub components : IComponents
  pub r_token_asset : String
  pub governance : String
  pub timelock : String

-- What a deployment file holds; `malformed` is a text that JSON.parse rejects.
pub data Document : Type 0 where
  phase1 : IDeployments → Document
  assets_collateral : IAssetCollDeployments → Document
  r_token : IrTokenDeployments → Document
  malformed : Document

-- An argument of a constructor or a call of a contract.
pub data Value : Type 0 where
  text : String → Value
  number : ℤ → Value
  flag : Bool → Value
  implementations : IImplementations → Value
  null : Value
  -- an empty array
  empty : Value
  undefined : Value

-- What getContractFactory(contract, { libraries }).deploy(...arguments) is given.
pub record Creation : Type 0 where
  pub contract : String
  pub libraries : Dict Value
  pub arguments : List Value
