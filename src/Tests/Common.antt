-- ===== src/Tests/Common.antt =====
-- common/events.ts, utils/env.ts and hardhat.config.ts on concrete inputs.
use iceth_plugin.Prelude.{
  String, Bool, ◌≡◌, ◌⊎◌, refl, false, none, some, List, [], ◌∷◌, All, str_eq,
}
use iceth_plugin.Dict.{Dict}
use iceth_plugin.Runtime.Contracts.{Value}
use iceth_plugin.Events.{
  Chai, Event, LogDescription, ContractReceipt, expect_in_receipt, expect_in_indirect_receipt,
}
use iceth_plugin.Events.Finding.{
  Selected, IsSearch, expect_in_receipt-IsSearch, expect_in_indirect_receipt-IsSearch,
}
use iceth_plugin.Environment.{EnvVars, use_env}
use iceth_plugin.Environment.Selecting.{IsBlank, IsFirst, use_env-many}

abbrev same_text : Value → Value → Bool
same_text (Value.text a) (Value.text b) = str_eq a b
same_text a b = false

abbrev chai : Chai
chai = record { equal = same_text; deep_equal = same_text }

abbrev traded : String → Event
traded token = record { event = some "Traded"; args = some (("token", Value.text token) ∷ []) }

abbrev receipt : ContractReceipt LogDescription
receipt = record {
  events = some (traded "0xa0" ∷ record { event = none; args = none } ∷ traded "0xa1" ∷ []);
  logs =
      record { name = "Traded"; args = some (("token", Value.text "0xa0") ∷ []) }
      ∷ record { name = "Traded"; args = some (("token", Value.text "0xa1") ∷ []) }
      ∷ [];
}

abbrev wanted : Dict Value
wanted = ("token", Value.text "0xa1") ∷ []

expect_in_receipt-IsSearch_example :
    (of_name : List Event) × Selected some
      (λ e. e.event ≡ some "Traded")
      (traded "0xa0" ∷ record { event = none; args = none } ∷ traded "0xa1" ∷ [])
      of_name
    × IsSearch chai Event.args "Traded" wanted of_name
        (expect_in_receipt chai receipt "Traded" wanted)
expect_in_receipt-IsSearch_example = expect_in_receipt-IsSearch chai receipt "Traded" wanted _ refl

expect_in_indirect_receipt-IsSearch_example :
    (of_name : List LogDescription) × Selected
      (λ log. some log)
      (λ d. d.name ≡ "Traded")
      receipt.logs
      of_name
    × IsSearch chai LogDescription.args "Traded" wanted of_name
        (expect_in_indirect_receipt chai receipt (λ log. some log) "Traded" wanted)
expect_in_indirect_receipt-IsSearch_example =
    expect_in_indirect_receipt-IsSearch chai receipt (λ log. some log) "Traded" wanted

abbrev environment : Dict String
environment = ("MAINNET_RPC_URL", "") ∷ ("ALCHEMY_MAINNET_RPC_URL", "https://rpc") ∷ []

abbrev rpc_urls : List String
rpc_urls = "MAINNET_RPC_URL" ∷ "ALCHEMY_MAINNET_RPC_URL" ∷ []

use_env-many_example :
    (All (IsBlank environment) rpc_urls × (use_env environment (EnvVars.many rpc_urls) "" ≡ ""))
    ⊎ IsFirst environment rpc_urls (use_env environment (EnvVars.many rpc_urls) "")
use_env-many_example = use_env-many environment rpc_urls ""
