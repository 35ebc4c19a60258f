-- ===== src/Configuration.antt =====
-- common/configuration.ts: the networks that the scripts are configured for.
mod Types
pub mod RToken
mod Hardhat
pub mod Localhost
mod Ropsten
mod Mainnet
mod Goerli
pub use Types.*
use iceth_plugin.Prelude.{String, Bool, Option, none, some, List, [], ◌∷◌, ◌||◌, str_eq}
use iceth_plugin.Errors.{Result, ok, err, missing_network_config}
use iceth_plugin.Dict.{Dict, get}
use Hardhat.{hardhat}
use Localhost.{localhost}
use Ropsten.{ropsten}
use Mainnet.{mainnet}
use Goerli.{goerli}

-- Object keys that are canonical integers are listed first, in ascending order.
unfoldable pub network_config : Dict INetworkConfig
network_config =
    ("1", mainnet)
    ∷ ("3", ropsten)
    ∷ ("5", goerli)
    ∷ ("31337", localhost)
    ∷ ("default", hardhat)
    ∷ []

-- An entry of the table is an object, and so it is true in a test.
abbrev configured : Option INetworkConfig → Result INetworkConfig
configured none = err missing_network_config
configured (some c) = ok c

unfoldable pub get_network_config : String → Result INetworkConfig
unfolding get network_config
get_network_config chain_id = configured (get chain_id network_config)

-- developmentChains.includes(name)
unfoldable pub is_development_chain : String → Bool
is_development_chain name = str_eq name "hardhat" || str_eq name "localhost"
