-- ===== src/Configuration/RToken.antt =====
-- The interfaces of common/configuration.ts that describe an RToken and its governance, and the
-- bounds that the file states. A BigNumber is the integer that it holds.
use iceth_plugin.Prelude.{ℕ, ◌^◌, ◌-◌, String, List, ℤ}

pub record IRevenueShare : Type 0 where
  pub r_token_dist : ℤ
  pub rsr_dist : ℤ

pub record IConfig : Type 0 where
  pub dist : IRevenueShare
  pub min_trade_volume : ℤ
  pub r_token_max_trade_volume : ℤ
  pub short_freeze : ℤ
  pub long_freeze : ℤ
  pub reward_period : ℤ
  pub reward_ratio : ℤ
  pub unstaking_delay : ℤ
  pub trading_delay : ℤ
  pub auction_length : ℤ
  pub backing_buffer : ℤ
  pub max_trade_slippage : ℤ
  pub issuance_rate : ℤ
  pub scaling_redemption_rate : ℤ
  pub redemption_rate_floor : ℤ

pub record IrTokenConfig : Type 0 where
  pub name : String
  pub symbol : String
  pub mandate : String
  pub params : IConfig

pub record IBackupInfo : Type 0 where
  pub backup_unit : String
  pub diversity_factor : ℤ
  pub backup_collateral : List String

pub record IBeneficiaryInfo : Type 0 where
  pub beneficiary : String
  pub rev_share : IRevenueShare

pub record IrTokenSetup : Type 0 where
  pub assets : List String
  pub primary_basket : List String
  pub weights : List ℤ
  pub backups : List IBackupInfo
  pub beneficiaries : List IBeneficiaryInfo

pub record IGovParams : Type 0 where
  pub voting_delay : ℤ
  pub voting_period : ℤ
  pub proposal_threshold_as_micro_percent : ℤ
  pub quorum_percent : ℤ
  pub timelock_delay : ℤ

-- System constants
abbrev pub max_trade_slippage : ℕ
max_trade_slippage = 10 ^ 18

abbrev pub max_backing_buffer : ℕ
max_backing_buffer = 10 ^ 18

abbrev pub max_target_amt : ℕ
max_target_amt = 10 ^ 21

abbrev pub max_ratio : ℕ
max_ratio = 10 ^ 18

abbrev pub max_issuance_rate : ℕ
max_issuance_rate = 10 ^ 18

abbrev pub max_trade_volume : ℕ
max_trade_volume = 10 ^ 48

abbrev pub max_min_trade_volume : ℕ
max_min_trade_volume = 10 ^ 29

-- Timestamps
abbrev pub max_oracle_timeout : ℕ
max_oracle_timeout = 2 ^ 48 - 1

abbrev pub max_trading_delay : ℕ
max_trading_delay = 31536000

abbrev pub max_auction_length : ℕ
max_auction_length = 604800

abbrev pub max_period : ℕ
max_period = 31536000

abbrev pub max_unstaking_delay : ℕ
max_unstaking_delay = 31536000
