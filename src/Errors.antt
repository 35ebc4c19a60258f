-- ===== src/Errors.antt =====
-- What the scripts throw, as values, and the results of calls that may throw.
-- Every `throw new Error(...)` of common/ and scripts/ that the library models is one constructor.
use iceth_plugin.Prelude.{ℕ, String, List}

pub data Error : Type 0 where
  -- thrown by the BigNumber library
  numeric_fault : Error
  -- _parseScientific: Illegal decimal string
  illegal_decimal_string : List ℕ → Error
  -- a call of the network that was rejected
  rejected : String → Error
  -- getSigners() gave no account
  no_signer : Error
  -- could not get chainId from network
  missing_chain_id : Error
  -- Missing network configuration for a network
  missing_network_config : Error
  -- Deployment file does not exist
  file_missing : String → Error
  -- Failed to read a deployment file
  file_unreadable : String → Error
  -- the file exists; I won't overwrite it
  file_exists : String → Error
  -- a file that is read as a record of another type
  wrong_document : String → Error
  -- Missing address, missing prerequisites, missing deployed contracts
  missing_address : String → Error
  -- a contract was not found in the network
  not_found : String → Error
  -- an assertion of the package chai about an event or one of its arguments
  assertion : String → Error
  -- No events found in receipt
  no_events : Error
  -- Event has no arguments
  no_arguments : Error
  -- a TypeError: a property of undefined is read
  type_error : Error
  -- Configuration for an RToken not available
  missing_r_token_config : String → Error
  -- Invalid addresses in config file for an RToken
  invalid_addresses : Error
  -- Cannot confirm or verify contracts for a development chain
  development_chain : Error
  -- main is unpaused
  unpaused : Error
  -- timelock duration too short
  short_timelock : Error
  -- misconfigured oracle
  misconfigured_oracle : Error
  -- a price or a peg that is off
  off : String → Error
  -- Can't communicate with Etherscan API
  no_service : Error
  -- Using default hardhat mnemonic
  default_account : Error
  -- Invalid JSON RPC for network
  invalid_network : Error
  -- Balance less than cost of transfer
  low_balance : Error
  -- throw of undefined
  nothing : Error

pub data Result {ℓ} (A : Type ℓ) : Type ℓ where
  ok : A → Result A
  err : Error → Result A

-- What was thrown is passed on, and the rest does not run.
infixl 5 ◌>>=◌
abbrev pub ◌>>=◌ {ℓ} : {A B : Type ℓ} → Result A → (A → Result B) → Result B
err thrown >>= rest = err thrown
ok value >>= rest = rest value

infixl 5 ◌>>◌
abbrev pub ◌>>◌ {ℓ} : {A B : Type ℓ} → Result A → Result B → Result B
err thrown >> rest = err thrown
ok value >> rest = rest
