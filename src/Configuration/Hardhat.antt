-- ===== src/Configuration/Hardhat.antt =====
-- The network `default` of `networkConfig` in common/configuration.ts.
use iceth_plugin.Prelude.{String, none, []}
use iceth_plugin.Dict.{Dict}
use iceth_plugin.Configuration.Types.{INetworkConfig}

abbrev hardhat_tokens : Dict String
hardhat_tokens = []

abbrev hardhat_feeds : Dict String
hardhat_feeds = []

abbrev pub hardhat : INetworkConfig
hardhat = record {
  name = "hardhat";
  tokens = hardhat_tokens;
  chainlink_feeds = hardhat_feeds;
  aave_lending_pool = none;
  aave_incentives = none;
  aave_emissions_mgr = none;
  comptroller = none;
  gnosis_easy_auction = none;
  easy_auction_owner = none;
}
