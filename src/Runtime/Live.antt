-- ===== src/Runtime/Live.antt =====
-- Recorded addresses that have a contract behind them, and the network's behaviour that keeps them.
use iceth_plugin.Prelude.{
  ℕ, zero, suc, replicate, String, ◌≡◌, ◌≢◌, ◌⊎◌, inl, inr, refl, sym, ◌∙◌, subst, true, false,
  some, List, [], ◌∷◌, All, str_eq, if◌then◌else◌, Bool-cases,
}
use iceth_plugin.Dict.{Dict, get, set, get-set}
use iceth_plugin.Runtime.{Hardhat, World}
use iceth_plugin.Runtime.Contracts.{
  Creation, Document, phase1, assets_collateral, r_token, malformed, IDeployments,
  IAssetCollDeployments, Component,
}

-- The code at the address is there and is not empty.
abbrev pub HasCode : (H : Hardhat) → H.Chain → String → Type 0
HasCode H c a = (code : String) × (H.get_code c a ≡ some code) × (str_eq code "0x" ≡ false)

-- What is documented of the network: a deployment that returns has created a contract at an address
-- that is not empty, and no deployment removes a contract.
pub record IsLawful (H : Hardhat) : Type 0 where
  pub deploy_live :
      (c : H.Chain) (k : Creation) (a : String)
      → (H.deploy c k).0 ≡ some a
      → (a ≢ "") × HasCode H (H.deploy c k).1 a
  pub deploy_keeps :
      (c : H.Chain) (k : Creation) (a : String) → HasCode H c a → HasCode H (H.deploy c k).1 a

abbrev pub Grows : (H : Hardhat) → H.Chain → H.Chain → Type 0
Grows H c c' = (a : String) → HasCode H c a → HasCode H c' a

-- An address that is recorded, unless it is empty, has a contract.
abbrev pub IsLive : (H : Hardhat) → H.Chain → String → Type 0
IsLive H c a = (a ≡ "") ⊎ HasCode H c a

-- The addresses of a deployment file.
abbrev pub addresses : IDeployments → List String
addresses d =
    d.prerequisites.rsr
    ∷ d.prerequisites.rsr_feed
    ∷ d.prerequisites.gnosis_easy_auction
    ∷ d.rewardable_lib
    ∷ d.oracle_lib
    ∷ d.trading_lib
    ∷ d.permit_lib
    ∷ d.facade_read
    ∷ d.facade_write_lib
    ∷ d.facade_write
    ∷ d.facade_act
    ∷ d.deployer
    ∷ d.rsr_asset
    ∷ d.implementations.main
    ∷ d.implementations.trade
    ∷ d.implementations.components Component.asset_registry
    ∷ d.implementations.components Component.backing_manager
    ∷ d.implementations.components Component.basket_handler
    ∷ d.implementations.components Component.broker
    ∷ d.implementations.components Component.distributor
    ∷ d.implementations.components Component.furnace
    ∷ d.implementations.components Component.rsr_trader
    ∷ d.implementations.components Component.r_token_trader
    ∷ d.implementations.components Component.r_token
    ∷ d.implementations.components Component.st_rsr
    ∷ []

abbrev pub values : Dict String → List String → List String
values [] l = l
values ((k, v) ∷ d) l = v ∷ values d l

-- The addresses of an asset and collateral file.
abbrev pub recorded : IAssetCollDeployments → List String
recorded d = values d.assets (values d.collateral [])

-- The addresses of a file whose contracts the scripts deploy themselves.
abbrev pub AllLive : (H : Hardhat) → H.Chain → List String → Type 0
AllLive H c l = All (IsLive H c) l

abbrev pub LiveDocument : (H : Hardhat) → H.Chain → Document → Type 0
LiveDocument H c (phase1 d) = AllLive H c (addresses d)
LiveDocument H c (assets_collateral d) = AllLive H c (recorded d)
LiveDocument H c (r_token d) = IsLive H c d.facade_write
LiveDocument H c malformed = Unit

-- No deployment file records an address without a contract.
pub record IsSound {H : Hardhat} (w : World H) : Type 0 where
  pub at_file :
      (file : String) (document : Document)
      → get file w.files ≡ some document
      → LiveDocument H w.chain document

module _ (H : Hardhat) where
  pub IsLive-Grows : (c c' : H.Chain) → Grows H c c' → (a : String) → IsLive H c a → IsLive H c' a
  IsLive-Grows c c' g a (inl e) = inl e
  IsLive-Grows c c' g a (inr h) = inr (g a h)

  pub AllLive-Grows :
      (c c' : H.Chain) → Grows H c c' → (l : List String) → AllLive H c l → AllLive H c' l
  AllLive-Grows c c' g [] h = tt
  AllLive-Grows c c' g (a ∷ l) h = (IsLive-Grows c c' g a h.0, AllLive-Grows c c' g l h.1)

  LiveDocument-Grows :
      (c c' : H.Chain)
      → Grows H c c'
      → (document : Document) → LiveDocument H c document
      → LiveDocument H c' document
  LiveDocument-Grows c c' g (phase1 d) h = AllLive-Grows c c' g (addresses d) h
  LiveDocument-Grows c c' g (assets_collateral d) h = AllLive-Grows c c' g (recorded d) h
  LiveDocument-Grows c c' g (r_token d) h = IsLive-Grows c c' g d.facade_write h
  LiveDocument-Grows c c' g malformed h = tt

pub AllLive-empty : (H : Hardhat) (c : H.Chain) (n : ℕ) → AllLive H c (replicate n "")
AllLive-empty H c zero = tt
AllLive-empty H c (suc n) = (inl refl, AllLive-empty H c n)

some-eq-some : {A : Type 0} {a b : A} → some a ≡ some b → a ≡ b
some-eq-some e = cc

module _ {H : Hardhat} where
  pub IsSound-Grows :
      (w : World H) (c' : H.Chain)
      → Grows H w.chain c'
      → IsSound w
      → IsSound (record w { chain = c' })
  IsSound-Grows w c' g s = record {
    at_file =
        λ file document e. LiveDocument-Grows H w.chain c' g document (s.at_file file document e);
  }

  pub IsSound-write :
      (w : World H) (file : String) (document : Document)
      → LiveDocument H w.chain document
      → IsSound w
      → IsSound (record w { files = set file document w.files })
  IsSound-write w file document h s = record {
    at_file = λ j other e.
        at_key j other (Bool-cases (str_eq file j)) (sym (get-set file j document w.files) ∙ e);
  }
    where
      at_key :
          (j : String) (other : Document)
          → ((str_eq file j ≡ true) ⊎ (str_eq file j ≡ false))
          → (if str_eq file j then some document else get j w.files) ≡ some other
          → LiveDocument H w.chain other
      at_key j other (inl same) e = subst (LiveDocument H w.chain) (some-eq-some (rw same at e)) h
      at_key j other (inr differs) e = s.at_file j other (rw differs at e)
