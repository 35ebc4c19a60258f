-- ===== src/Configuration/Mainnet.antt =====
-- The network `1` of `networkConfig` in common/configuration.ts.
use iceth_plugin.Prelude.{String, none, some, [], ◌∷◌}
use iceth_plugin.Dict.{Dict}
use iceth_plugin.Configuration.Types.{INetworkConfig}

abbrev mainnet_tokens : Dict String
mainnet_tokens =
    ("DAI", "0x6B175474E89094C44Da98b954EedeAC495271d0F")
    ∷ ("USDC", "0xA0b86991c6218b36c1d19D4a2e9Eb0cE3606eB48")
    ∷ ("USDT", "0xdAC17F958D2ee523a2206206994597C13D831ec7")
    ∷ ("BUSD", "0x4Fabb145d64652a948d72533023f6E7A623C7C53")
    ∷ ("USDP", "0x8E870D67F660D95d5be530380D0eC0bd388289E1")
    ∷ ("TUSD", "0x0000000000085d4780B73119b644AE5ecd22b376")
    ∷ ("aDAI", "0x028171bCA77440897B824Ca71D1c56caC55b68A3")
    ∷ ("aUSDC", "0xBcca60bB61934080951369a648Fb03DF4F96263C")
    ∷ ("aUSDT", "0x3Ed3B47Dd13EC9a98b44e6204A523E766B225811")
    ∷ ("aBUSD", "0xA361718326c15715591c299427c62086F69923D9")
    ∷ ("aUSDP", "0x2e8F4bdbE3d47d7d7DE490437AeA9915D930F1A3")
    ∷ ("cDAI", "0x5d3a536E4D6DbD6114cc1Ead35777bAB948E3643")
    ∷ ("cUSDC", "0x39AA39c021dfbaE8faC545936693aC917d5E7563")
    ∷ ("cUSDT", "0xf650C3d88D12dB855b8bf7D11Be6C55A4e07dCC9")
    ∷ ("cUSDP", "0x041171993284df560249B57358F931D9eB7b925D")
    ∷ ("cETH", "0x4Ddc2D193948926D02f9B1fE9e1daa0718270ED5")
    ∷ ("cWBTC", "0xC11b1268C1A384e55C48c2391d8d480264A3A7F4")
    ∷ ("AAVE", "0x7Fc66500c84A76Ad7e9c93437bFc5Ac33E2DDaE9")
    ∷ ("stkAAVE", "0x4da27a545c0c5B758a6BA100e3a049001de870f5")
    ∷ ("COMP", "0xc00e94Cb662C3520282E6f5717214004A7f26888")
    ∷ ("WETH", "0xC02aaA39b223FE8D0A0e5C4F27eAD9083C756Cc2")
    ∷ ("WBTC", "0x2260FAC5E5542a773Aa44fBCfeDf7C193bc2C599")
    ∷ ("EURT", "0xC581b735A1688071A1746c968e0798D642EDE491")
    ∷ ("RSR", "0x320623b8e4ff03373931769a31fc52a4e78b5d70")
    ∷ ("ICETH", "0x7C07F7aBe10CE8e33DC6C5aD68FE033085256A84")
    ∷ ("STETH", "0xae7ab96520DE3A18E5e111B5EaAb095312D7fE84")
    ∷ []

abbrev mainnet_feeds : Dict String
mainnet_feeds =
    ("RSR", "0x759bBC1be8F90eE6457C44abc7d443842a976d02")
    ∷ ("AAVE", "0x547a514d5e3769680Ce22B2361c10Ea13619e8a9")
    ∷ ("COMP", "0xdbd020CAeF83eFd542f4De03e3cF0C28A4428bd5")
    ∷ ("DAI", "0xAed0c38402a5d19df6E4c03F4E2DceD6e29c1ee9")
    ∷ ("USDC", "0x8fFfFfd4AfB6115b954Bd326cbe7B4BA576818f6")
    ∷ ("USDT", "0x3E7d1eAB13ad0104d2750B8863b489D65364e32D")
    ∷ ("BUSD", "0x833D8Eb16D306ed1FbB5D7A2E019e106B960965A")
    ∷ ("USDP", "0x09023c0DA49Aaf8fc3fA3ADF34C6A7016D38D5e3")
    ∷ ("TUSD", "0xec746eCF986E2927Abd291a2A1716c940100f8Ba")
    ∷ ("ETH", "0x5f4ec3df9cbd43714fe2740f5e3616155c5b8419")
    ∷ ("WBTC", "0xfdFD9C85aD200c506Cf9e21F1FD8dd01932FBB23")
    ∷ ("BTC", "0xF4030086522a5bEEa4988F8cA5B36dbC97BeE88c")
    ∷ ("EURT", "0x01D391A48f4F7339aC64CA2c83a07C22F95F587a")
    ∷ ("EUR", "0xb49f677943BC038e9857d61E7d053CaA2C1734C1")
    ∷ ("STETH", "0x86392dC19c0b719886221c78AB11eb8Cf5c52812")
    ∷ []

abbrev pub mainnet : INetworkConfig
mainnet = record {
  name = "mainnet";
  tokens = mainnet_tokens;
  chainlink_feeds = mainnet_feeds;
  aave_lending_pool = some "0x7d2768dE32b0b80b7a3454c06BdAc94A69DDc7A9";
  aave_incentives = none;
  aave_emissions_mgr = none;
  comptroller = some "0x3d9819210A31b4961b30EF54bE2aeD79B9c9Cd3B";
  gnosis_easy_auction = some "0x0b7fFc1f4AD541A4Ed16b40D8c37f0929158D101";
  easy_auction_owner = none;
}
