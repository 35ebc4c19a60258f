-- ===== src/Phase3/Values.antt =====
-- The numbers of scripts/deployment/phase3-rtoken/rTokenConfig.ts.
use iceth_plugin.Prelude.{
  ℕ, ◌^◌, ◌<◌, ◌≡◌, refl, ap, sym, ◌∙◌, String, some, none, [], ◌∷◌, ℤ, pos, ◌+ℤ◌, ◌-ℤ◌, codes,
  arith,
}
use iceth_plugin.BigNumber
use iceth_plugin.BigNumber.{BigNumber, IsDocumented}
use iceth_plugin.Errors.{Result, ok}
use iceth_plugin.Dict.{Dict}
use iceth_plugin.Numbers.{bn, fp}
use iceth_plugin.Numbers.Decimal.{unsigned, Groups, match}
use iceth_plugin.Numbers.Grammar.{render-match}
use iceth_plugin.Numbers.Scientific.{decimal_value, HasNoPlus, bn-fp-render}
use iceth_plugin.Configuration.RToken.{IConfig, IGovParams}
use iceth_plugin.Phase3.Config.{
  Entry, r_token_name, bn_text, fp_text, bn_int, params, gov_params, entry, mainnet_timelock,
  r_token_config,
}

abbrev pub params_of : ℕ → IConfig
params_of trading_delay = record {
  dist = record { r_token_dist = pos 40; rsr_dist = pos 60 };
  min_trade_volume = pos (10 ^ 22);
  r_token_max_trade_volume = pos (10 ^ 24);
  short_freeze = pos 259200;
  long_freeze = pos 2592000;
  reward_period = pos 86400;
  reward_ratio = pos 7701635339554948;
  unstaking_delay = pos 1209600;
  trading_delay = pos trading_delay;
  auction_length = pos 900;
  backing_buffer = pos (10 ^ 14);
  max_trade_slippage = pos (10 ^ 16);
  issuance_rate = pos 250000000000000;
  scaling_redemption_rate = pos 50000000000000000;
  redemption_rate_floor = pos (10 ^ 24);
}

abbrev pub governance_of : ℕ → ℕ → ℕ → IGovParams
governance_of delay period timelock = record {
  voting_delay = pos delay;
  voting_period = pos period;
  proposal_threshold_as_micro_percent = pos 50000;
  quorum_percent = pos 10;
  timelock_delay = pos timelock;
}

abbrev pub entry_of : ℕ → ℕ → ℕ → ℕ → Dict Entry
entry_of trading_delay delay period timelock =
    (
      r_token_name,
      record {
        config = record {
          name = "RToken";
          symbol = "RTKN";
          mandate = "mandate";
          params = params_of trading_delay;
        };
        governance = governance_of delay period timelock;
      },
    )
    ∷ []

abbrev pub table : Dict (Dict Entry)
table =
    ("1", entry_of 14400 7200 14400 (2 ^ 47))
    ∷ ("5", entry_of 0 5 100 1)
    ∷ ("31337", entry_of 14400 7200 14400 345600)
    ∷ []

abbrev whole : String → Groups
whole digits = record {
  sign = unsigned;
  int_part = codes digits;
  frac_part = none;
  exponent = none;
}

abbrev decimal : String → Groups
decimal digits = record {
  sign = unsigned;
  int_part = codes "0";
  frac_part = some (codes digits);
  exponent = none;
}

abbrev pub power : String → Groups
power digits = record {
  sign = unsigned;
  int_part = codes "1";
  frac_part = none;
  exponent = some (codes digits);
}

module _ (B : BigNumber) (L : IsDocumented B) where
  pub bn_text_lem :
      (s : String) (g : Groups)
      → match (codes s) ≡ some g
      → HasNoPlus g.exponent
      → bn_text B s ≡ ok (decimal_value g (pos 0))
  unfolding bn_text
  bn_text_lem s g e h =
      let (same, wf) = render-match (codes s) g e in
      ap (λ t. bn B (BigNumber.text t)) (sym same) ∙ (bn-fp-render B L g wf h).0

  fp_text_lem :
      (s : String) (g : Groups)
      → match (codes s) ≡ some g
      → HasNoPlus g.exponent
      → fp_text B s ≡ ok (decimal_value g (pos 18))
  unfolding fp_text
  fp_text_lem s g e h =
      let (same, wf) = render-match (codes s) g e in
      ap (λ t. fp B (BigNumber.text t)) (sym same) ∙ (bn-fp-render B L g wf h).1

  bn_int_lem : (n : ℕ) → n < 2 ^ 53 → bn_int B (pos n) ≡ ok (pos n)
  unfolding bn_int bn
  bn_int_lem n h = L.from_int (pos n) h

  min_trade_volume_lem : fp_text B "1e4" ≡ ok (pos (10 ^ 22))
  unfolding match decimal_value ◌+ℤ◌ ◌-ℤ◌
  min_trade_volume_lem = fp_text_lem "1e4" (power "4") refl (omega arith)

  max_volume_lem : fp_text B "1e6" ≡ ok (pos (10 ^ 24))
  unfolding match decimal_value ◌+ℤ◌ ◌-ℤ◌
  max_volume_lem = fp_text_lem "1e6" (power "6") refl (omega arith)

  reward_period_lem : bn_text B "86400" ≡ ok (pos 86400)
  unfolding match decimal_value ◌+ℤ◌ ◌-ℤ◌
  reward_period_lem = bn_text_lem "86400" (whole "86400") refl tt

  reward_ratio_lem : fp_text B "0.007701635339554948" ≡ ok (pos 7701635339554948)
  unfolding match decimal_value ◌+ℤ◌ ◌-ℤ◌
  reward_ratio_lem = fp_text_lem "0.007701635339554948" (decimal "007701635339554948") refl tt

  unstaking_delay_lem : bn_text B "1209600" ≡ ok (pos 1209600)
  unfolding match decimal_value ◌+ℤ◌ ◌-ℤ◌
  unstaking_delay_lem = bn_text_lem "1209600" (whole "1209600") refl tt

  auction_length_lem : bn_text B "900" ≡ ok (pos 900)
  unfolding match decimal_value ◌+ℤ◌ ◌-ℤ◌
  auction_length_lem = bn_text_lem "900" (whole "900") refl tt

  backing_buffer_lem : fp_text B "0.0001" ≡ ok (pos (10 ^ 14))
  unfolding match decimal_value ◌+ℤ◌ ◌-ℤ◌
  backing_buffer_lem = fp_text_lem "0.0001" (decimal "0001") refl tt

  trade_slippage_lem : fp_text B "0.01" ≡ ok (pos (10 ^ 16))
  unfolding match decimal_value ◌+ℤ◌ ◌-ℤ◌
  trade_slippage_lem = fp_text_lem "0.01" (decimal "01") refl tt

  short_freeze_lem : bn_text B "259200" ≡ ok (pos 259200)
  unfolding match decimal_value ◌+ℤ◌ ◌-ℤ◌
  short_freeze_lem = bn_text_lem "259200" (whole "259200") refl tt

  long_freeze_lem : bn_text B "2592000" ≡ ok (pos 2592000)
  unfolding match decimal_value ◌+ℤ◌ ◌-ℤ◌
  long_freeze_lem = bn_text_lem "2592000" (whole "2592000") refl tt

  issuance_rate_lem : fp_text B "0.00025" ≡ ok (pos 250000000000000)
  unfolding match decimal_value ◌+ℤ◌ ◌-ℤ◌
  issuance_rate_lem = fp_text_lem "0.00025" (decimal "00025") refl tt

  redemption_rate_lem : fp_text B "0.05" ≡ ok (pos 50000000000000000)
  unfolding match decimal_value ◌+ℤ◌ ◌-ℤ◌
  redemption_rate_lem = fp_text_lem "0.05" (decimal "05") refl tt

  trading_delay_lem : bn_text B "14400" ≡ ok (pos 14400)
  unfolding match decimal_value ◌+ℤ◌ ◌-ℤ◌
  trading_delay_lem = bn_text_lem "14400" (whole "14400") refl tt

  no_delay_lem : bn_text B "0" ≡ ok (pos 0)
  unfolding match decimal_value ◌+ℤ◌ ◌-ℤ◌
  no_delay_lem = bn_text_lem "0" (whole "0") refl tt

  params_lem :
      (trading_delay : String) (n : ℕ)
      → bn_text B trading_delay ≡ ok (pos n)
      → params B trading_delay ≡ ok (params_of n)
  unfolding params
  params_lem trading_delay n e = rw (
    min_trade_volume_lem,
    max_volume_lem,
    bn_int_lem 40 (omega arith),
    bn_int_lem 60 (omega arith),
    reward_period_lem,
    reward_ratio_lem,
    unstaking_delay_lem,
    e,
    auction_length_lem,
    backing_buffer_lem,
    trade_slippage_lem,
    short_freeze_lem,
    long_freeze_lem,
    issuance_rate_lem,
    redemption_rate_lem,
  )

  gov_params_lem :
      (delay period timelock : ℕ) (r : Result ℤ)
      → delay < 2 ^ 53
      → period < 2 ^ 53
      → r ≡ ok (pos timelock)
      → gov_params B (pos delay) (pos period) r ≡ ok (governance_of delay period timelock)
  unfolding gov_params
  gov_params_lem delay period timelock r h k e = rw (
    bn_int_lem delay h,
    bn_int_lem period k,
    bn_int_lem 50000 (omega arith),
    bn_int_lem 10 (omega arith),
    e,
  )

  entry_lem :
      (trading_delay : String) (n delay period timelock : ℕ) (r : Result ℤ)
      → bn_text B trading_delay ≡ ok (pos n)
      → delay < 2 ^ 53
      → period < 2 ^ 53
      → r ≡ ok (pos timelock)
      → entry B trading_delay (pos delay) (pos period) r ≡ ok (entry_of n delay period timelock)
  unfolding entry
  entry_lem trading_delay n delay period timelock r e h k f =
      rw (params_lem trading_delay n e, gov_params_lem delay period timelock r h k f)

  mainnet_timelock_lem : mainnet_timelock B ≡ ok (pos (2 ^ 47))
  unfolding mainnet_timelock
  mainnet_timelock_lem = rw (bn_int_lem 2 (omega arith), L.pow_lem 2 47)

  -- The table.
  pub r_token_config_lem : r_token_config B ≡ ok table
  unfolding r_token_config
  r_token_config_lem = rw (
    entry_lem "14400" 14400 7200 14400 (2 ^ 47) (mainnet_timelock B) trading_delay_lem (omega arith)
        (omega arith) mainnet_timelock_lem,
    entry_lem "14400" 14400 7200 14400 345600 (bn_int B (pos 345600)) trading_delay_lem
        (omega arith) (omega arith) (bn_int_lem 345600 (omega arith)),
    entry_lem "0" 0 5 100 1 (bn_int B (pos 1)) no_delay_lem (omega arith) (omega arith)
        (bn_int_lem 1 (omega arith)),
  )
