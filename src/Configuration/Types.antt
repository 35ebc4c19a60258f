-- ===== src/Configuration/Types.antt =====
-- The interface `INetworkConfig` of common/configuration.ts. A key of a token that is not configured
-- is `undefined`, so the objects of tokens and feeds are maps from the token's name.
use iceth_plugin.Prelude.{String, Option}
use iceth_plugin.Dict.{Dict}

pub record INetworkConfig : Type 0 where
  pub name : String
  pub tokens : Dict String
  pub chainlink_feeds : Dict String
  pub aave_lending_pool : Option String
  pub aave_incentives : Option String
  pub aave_emissions_mgr : Option String
  pub comptroller : Option String
  pub gnosis_easy_auction : Option String
  pub easy_auction_owner : Option String
