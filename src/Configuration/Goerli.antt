-- ===== src/Configuration/Goerli.antt =====
-- The network `5` of `networkConfig` in common/configuration.ts.
use iceth_plugin.Prelude.{String, none, some, [], ◌∷◌}
use iceth_plugin.Dict.{Dict}
use iceth_plugin.Configuration.Types.{INetworkConfig}

abbrev goerli_tokens : Dict String
goerli_tokens =
    ("DAI", "0x4E35fAA0c4e6BA16534aa28DE0e40f7b702642D3")
    ∷ ("USDC", "0x9276fC221399d81a848E9d543a6FAA5e741E40A7")
    ∷ ("USDT", "0xAE64954A904da3fD9D71945980A849B8A9F755d7")
    ∷ ("BUSD", "0x66FE0f43D9f201474A54a3857c77599DEBbD38F4")
    ∷ ("USDP", "0x5d3E908ff0649F01d51d1513132736e96477C15d")
    ∷ ("TUSD", "0x56e938BC973fB23aCd7f043Fc11b61b1Ae3DDcC5")
    ∷ ("aDAI", "0x8bf8dd4FEf62b4bC942482793f75b1606b9A4Cb0")
    ∷ ("aUSDC", "0x9Fc379726c48A391a4F3Fb8b105184D3c9142E24")
    ∷ ("aUSDT", "0xB2fdE37a7C1c521C25C36f29109bFbBE13893994")
    ∷ ("aBUSD", "0x5Ebd4D0F79D0baEb2b0aEfe3395A930bb26ABc80")
    ∷ ("aUSDP", "0x4E01677488384B851EeAa09C8b8F6Dd0b16d7E9B")
    ∷ ("cDAI", "0xf6508Db0cfCADa4dE3d3e55F7AdB189f19390cB6")
    ∷ ("cUSDC", "0x057357b22Fd6A629367b5434c2af0D5bf44533A8")
    ∷ ("cUSDT", "0x4950dDbBaBa1aEB9b4FAada6B0ADE3DD3bCc0380")
    ∷ ("cUSDP", "0x199E12d58B36deE2D2B3dD2b91aD7bb25c787a71")
    ∷ ("cETH", "0x84E8e5dd7BfD8E9EFa2783eE438091cd17caFb0A")
    ∷ ("cWBTC", "0x3Bd9452C4987e6D5EF3748Bb1230CbefA36617EC")
    ∷ ("AAVE", "0xc47324262e1C7be67270Da717e1a0e7b0191c449")
    ∷ ("stkAAVE", "0x3Db8b170DA19c45B63B959789f20f397F22767D4")
    ∷ ("COMP", "0x1b4449895037f25b102B28B45b8bD50c8C44Aca1")
    ∷ ("WETH", "0xB5B58F0a853132EA8cB614cb17095dE87AF3E98b")
    ∷ ("WBTC", "0x528FdEd7CC39209ed67B4edA11937A9ABe1f6249")
    ∷ ("EURT", "0xD6da5A7ADE2a906d9992612752A339E3485dB508")
    ∷ ("RSR", "0xB58b5530332D2E9e15bfd1f2525E6fD84e830307")
    ∷ []

abbrev goerli_feeds : Dict String
goerli_feeds =
    ("ETH", "0xD4a33860578De61DBAbDc8BFdb98FD742fA7028e")
    ∷ ("BTC", "0xA39434A63A52E749F02807ae27335515BA4b07F7")
    ∷ ("RSR", "0x905084691C2c7505b5FC63229621621b616bbbFe")
    ∷ ("AAVE", "0xcba876375c5144722BB665A9312A02Ba77865D28")
    ∷ ("COMP", "0x00e95ea8009f3B01c2ceC5AA7143F73C23136f45")
    ∷ ("DAI", "0xD460dCC7Cefb2128337bfEd8d6bEed0e6E9C7E6A")
    ∷ ("USDC", "0x93Edc2F8b5388e01c5c26Dc22B32c68892FA2821")
    ∷ ("USDT", "0x3684603B1d8CE070852CB718f76f452030889556")
    ∷ ("BUSD", "0x61aC9ac5C045DBe833bAb1C0D37632F121068244")
    ∷ ("USDP", "0x847AE3320763A86eeCB993C26a54417fE6F55a6E")
    ∷ ("TUSD", "0x96aeE109dF58D4391C965FAbc2625f92dB363410")
    ∷ ("WBTC", "0xe52CE9436F2D4D4B744720aAEEfD9C6dbFC00b34")
    ∷ ("EURT", "0x68aA66BCde901c741C5EF07314875434E51E5D30")
    ∷ ("EUR", "0x12336777de46b9a6Edd7176E532810149C787bcD")
    ∷ []

abbrev pub goerli : INetworkConfig
goerli = record {
  name = "goerli";
  tokens = goerli_tokens;
  chainlink_feeds = goerli_feeds;
  aave_lending_pool = some "0x3e9E33B84C1cD9037be16AA45A0B296ae5F185AD";
  aave_incentives = none;
  aave_emissions_mgr = none;
  comptroller = some "0x3d9819210a31b4961b30ef54be2aed79b9c9cd3b";
  gnosis_easy_auction = some "0x1fbab40c338e2e7243da945820ba680c92ef8281";
  easy_auction_owner = none;
}
