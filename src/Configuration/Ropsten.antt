-- ===== src/Configuration/Ropsten.antt =====
-- The network `3` of `networkConfig` in common/configuration.ts.
use iceth_plugin.Prelude.{String, none, some, [], ◌∷◌}
use iceth_plugin.Dict.{Dict}
use iceth_plugin.Configuration.Types.{INetworkConfig}

abbrev ropsten_tokens : Dict String
ropsten_tokens =
    ("USDC", "0x07865c6e87b9f70255377e024ace6630c1eaa37f")
    ∷ ("RSR", "0x320623b8e4ff03373931769a31fc52a4e78b5d70")
    ∷ []

abbrev ropsten_feeds : Dict String
ropsten_feeds = []

abbrev pub ropsten : INetworkConfig
ropsten = record {
  name = "ropsten";
  tokens = ropsten_tokens;
  chainlink_feeds = ropsten_feeds;
  aave_lending_pool = none;
  aave_incentives = none;
  aave_emissions_mgr = none;
  comptroller = some "0xcfa7b0e37f5AC60f3ae25226F5e39ec59AD26152";
  gnosis_easy_auction = none;
  easy_auction_owner = none;
}
