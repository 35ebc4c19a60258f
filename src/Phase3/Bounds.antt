-- ===== src/Phase3/Bounds.antt =====
-- The configuration of scripts/deployment/phase3-rtoken/rTokenConfig.ts against the bounds that
-- common/configuration.ts states, and the chains and names that it is given for.
use iceth_plugin.Prelude.{
  subst, Bool, true, false, if◌then◌else◌, ℕ, ◌≤◌, ◌^◌, ◌≡◌, String, Option, none, some, ℤ, pos,
  arith, str_eq,
}
use iceth_plugin.BigNumber.{BigNumber, IsDocumented}
use iceth_plugin.Errors.{Error, Result, ok, err, ◌>>=◌, missing_network_config}
use iceth_plugin.Errors
use iceth_plugin.Dict.{Dict, get}
use iceth_plugin.Configuration.{INetworkConfig, get_network_config}
use iceth_plugin.Configuration.RToken
use iceth_plugin.Configuration.RToken.{IConfig, IGovParams}
use iceth_plugin.Phase3.Config.{Entry, r_token_name, get_r_token_config, of_chain, of_entry}
use iceth_plugin.Phase3.Values.{params_of, table, r_token_config_lem, entry_of}

-- A number of the range from zero to the bound.
abbrev pub IsUpTo : ℕ → ℤ → Type 0
IsUpTo bound (pos n) = n ≤ bound
IsUpTo bound _ = ⊥

pub record IsWithinBounds (c : IConfig) : Type 0 where
  pub trade_slippage : IsUpTo RToken.max_trade_slippage c.max_trade_slippage
  pub backing_buffer : IsUpTo RToken.max_backing_buffer c.backing_buffer
  pub reward_ratio : IsUpTo RToken.max_ratio c.reward_ratio
  pub issuance_rate : IsUpTo RToken.max_issuance_rate c.issuance_rate
  pub trade_volume : IsUpTo RToken.max_trade_volume c.r_token_max_trade_volume
  pub min_trade_volume : IsUpTo RToken.max_min_trade_volume c.min_trade_volume
  pub trading_delay : IsUpTo RToken.max_trading_delay c.trading_delay
  pub auction_length : IsUpTo RToken.max_auction_length c.auction_length
  pub reward_period : IsUpTo RToken.max_period c.reward_period
  pub unstaking_delay : IsUpTo RToken.max_unstaking_delay c.unstaking_delay

ok-eq-ok : {x y : Entry} → ok x ≡ ok y → x ≡ y
ok-eq-ok e = cc

-- A lookup that has found an entry.
of_entry-found :
    (P : Entry → Type 0) (b : Bool) (x e : Entry) (name : String)
    → of_entry (if b then some x else none) name ≡ ok e
    → P x
    → P e
of_entry-found P true x e name found p = subst P (ok-eq-ok found) p
of_entry-found P false x e name found p = cc

of_chain-found :
    (P : Entry → Type 0) (b : Bool) (entries : Dict Entry) (rest : Option (Dict Entry)) (e : Entry)
    (name : String)
    → of_chain (if b then some entries else rest) name ≡ ok e
    → (of_entry (get name entries) name ≡ ok e → P e)
    → (of_chain rest name ≡ ok e → P e)
    → P e
of_chain-found P true entries rest e name found p q = p found
of_chain-found P false entries rest e name found p q = q found

params_of-IsWithinBounds : (n : ℕ) → n ≤ RToken.max_trading_delay → IsWithinBounds (params_of n)
params_of-IsWithinBounds n h = record {
  trade_slippage = omega arith;
  backing_buffer = omega arith;
  reward_ratio = omega arith;
  issuance_rate = omega arith;
  trade_volume = omega arith;
  min_trade_volume = omega arith;
  trading_delay = h;
  auction_length = omega arith;
  reward_period = omega arith;
  unstaking_delay = omega arith;
}

abbrev Within : Entry → Type 0
Within e = IsWithinBounds e.config.params

entry-Within :
    (n delay period timelock : ℕ) (name : String) (e : Entry)
    → n ≤ RToken.max_trading_delay
    → of_entry (get name (entry_of n delay period timelock)) name ≡ ok e
    → Within e
unfolding get
entry-Within n delay period timelock name e h found =
    of_entry-found Within (str_eq r_token_name name) _ e name found (params_of-IsWithinBounds n h)

table-Within :
    (chain_id name : String) (e : Entry) → of_chain (get chain_id table) name ≡ ok e → Within e
unfolding get
table-Within chain_id name e found =
    of_chain-found Within (str_eq "1" chain_id) _ _ e name found
      (entry-Within 14400 7200 14400 (2 ^ 47) name e (omega arith))
      λ found.
        of_chain-found Within (str_eq "5" chain_id) _ _ e name found
          (entry-Within 0 5 100 1 name e (omega arith))
          λ found.
            of_chain-found Within (str_eq "31337" chain_id) _ none e name found
              (entry-Within 14400 7200 14400 345600 name e (omega arith)) λ found. cc

-- What `get_r_token_config` comes to.
get_r_token_config-eq-ok :
    (B : BigNumber) (chain_id name : String) (e : Entry) (r : Result INetworkConfig)
    → (r >>= λ _. of_chain (get chain_id table) name) ≡ ok e
    → of_chain (get chain_id table) name ≡ ok e
get_r_token_config-eq-ok B chain_id name e (ok c) found = found
get_r_token_config-eq-ok B chain_id name e (err x) found = cc

module _ (B : BigNumber) (L : IsDocumented B) where
  -- If the BigNumber package is as documented and getRTokenConfig returns a configuration, then ten
  -- of its parameters are between zero and the largest value that common/configuration.ts states
  -- for each.
  pub get_r_token_config-IsWithinBounds :
      (chain_id name : String) (e : Entry)
      → get_r_token_config B chain_id name ≡ ok e
      → IsWithinBounds e.config.params
  unfolding get_r_token_config
  get_r_token_config-IsWithinBounds chain_id name e found = table-Within chain_id name e (
      get_r_token_config-eq-ok B chain_id name e (get_network_config chain_id)
        (rw (r_token_config_lem B L) at found))

  -- If the BigNumber package is as documented, getRTokenConfig throws a TypeError for every name on
  -- the chain 3, which has a network configuration.
  pub get_r_token_config-ropsten :
      (name : String) → get_r_token_config B "3" name ≡ err Errors.type_error
  unfolding get_r_token_config get_network_config get
  get_r_token_config-ropsten name = rw (r_token_config_lem B L)
