-- ===== src/Phase3/Config.antt =====
-- scripts/deployment/phase3-rtoken/rTokenConfig.ts
--
-- The table is made when the module is loaded; a number that cannot be made then throws. The three
-- entries share their numbers but for the trading delay and the parameters of the governance.
use iceth_plugin.Prelude.{String, Option, none, some, [], ◌∷◌, ℤ, pos, codes}
use iceth_plugin.BigNumber
use iceth_plugin.BigNumber.{BigNumber}
use iceth_plugin.Errors.{Result, ok, err, ◌>>=◌}
use iceth_plugin.Errors
use iceth_plugin.Dict.{Dict, get}
use iceth_plugin.Numbers.{bn, fp}
use iceth_plugin.Configuration.{get_network_config}
use iceth_plugin.Configuration.RToken.{IConfig, IrTokenConfig, IGovParams}

abbrev pub r_token_name : String
r_token_name = "RTKN"

-- IRTokenConfig & IGovParams
pub record Entry : Type 0 where
  pub config : IrTokenConfig
  pub governance : IGovParams

abbrev pub of_entry : Option Entry → String → Result Entry
of_entry none name = err (Errors.missing_r_token_config name)
of_entry (some e) name = ok e

-- rTokenConfig[chainId][name]
abbrev pub of_chain : Option (Dict Entry) → String → Result Entry
of_chain none name = err Errors.type_error
of_chain (some entries) name = of_entry (get name entries) name

module _ (B : BigNumber) where
  unfoldable pub bn_text : String → Result ℤ
  bn_text s = bn B (BigNumber.text (codes s))

  unfoldable pub fp_text : String → Result ℤ
  fp_text s = fp B (BigNumber.text (codes s))

  unfoldable pub bn_int : ℤ → Result ℤ
  bn_int z = bn B (BigNumber.int z)

  unfoldable pub params : String → Result IConfig
  params trading_delay = do
    min_trade_volume ← fp_text "1e4"
    r_token_max_trade_volume ← fp_text "1e6"
    r_token_dist ← bn_int (pos 40)
    rsr_dist ← bn_int (pos 60)
    reward_period ← bn_text "86400"
    reward_ratio ← fp_text "0.007701635339554948"
    unstaking_delay ← bn_text "1209600"
    trading_delay ← bn_text trading_delay
    auction_length ← bn_text "900"
    backing_buffer ← fp_text "0.0001"
    max_trade_slippage ← fp_text "0.01"
    short_freeze ← bn_text "259200"
    long_freeze ← bn_text "2592000"
    issuance_rate ← fp_text "0.00025"
    scaling_redemption_rate ← fp_text "0.05"
    redemption_rate_floor ← fp_text "1e6"
    ok (record {
      dist = record { r_token_dist = r_token_dist; rsr_dist = rsr_dist };
      min_trade_volume = min_trade_volume;
      r_token_max_trade_volume = r_token_max_trade_volume;
      short_freeze = short_freeze;
      long_freeze = long_freeze;
      reward_period = reward_period;
      reward_ratio = reward_ratio;
      unstaking_delay = unstaking_delay;
      trading_delay = trading_delay;
      auction_length = auction_length;
      backing_buffer = backing_buffer;
      max_trade_slippage = max_trade_slippage;
      issuance_rate = issuance_rate;
      scaling_redemption_rate = scaling_redemption_rate;
      redemption_rate_floor = redemption_rate_floor;
    })

  unfoldable pub gov_params : ℤ → ℤ → Result ℤ → Result IGovParams
  gov_params voting_delay voting_period timelock_delay = do
    voting_delay ← bn_int voting_delay
    voting_period ← bn_int voting_period
    proposal_threshold ← bn_int (pos 50000)
    quorum_percent ← bn_int (pos 10)
    timelock_delay ← timelock_delay
    ok (record {
      voting_delay = voting_delay;
      voting_period = voting_period;
      proposal_threshold_as_micro_percent = proposal_threshold;
      quorum_percent = quorum_percent;
      timelock_delay = timelock_delay;
    })

  unfoldable pub entry : String → ℤ → ℤ → Result ℤ → Result (Dict Entry)
  entry trading_delay voting_delay voting_period timelock_delay = do
    params ← params trading_delay
    governance ← gov_params voting_delay voting_period timelock_delay
    ok (
        (
          r_token_name,
          record {
            config = record {
              name = "RToken";
              symbol = "RTKN";
              mandate = "mandate";
              params = params;
            };
            governance = governance;
          },
        )
        ∷ [])

  -- bn(2).pow(47)
  unfoldable pub mainnet_timelock : Result ℤ
  mainnet_timelock = do two ← bn_int (pos 2); B.pow two (pos 47)

  unfoldable pub r_token_config : Result (Dict (Dict Entry))
  r_token_config = do
    mainnet ← entry "14400" (pos 7200) (pos 14400) mainnet_timelock
    localhost ← entry "14400" (pos 7200) (pos 14400) (bn_int (pos 345600))
    goerli ← entry "0" (pos 5) (pos 100) (bn_int (pos 1))
    ok (("1", mainnet) ∷ ("5", goerli) ∷ ("31337", localhost) ∷ [])

  unfoldable pub get_r_token_config : String → String → Result Entry
  unfolding get
  get_r_token_config chain_id name = do
    table ← r_token_config
    _ ← get_network_config chain_id
    of_chain (get chain_id table) name
