-- ===== src/Phase2/Recording.antt =====
-- How the blocks of 2_deploy_collateral.ts record an address and what they read before.
use iceth_plugin.Prelude.{String, Bool, true, false, List, [], ◌∷◌, ℤ, str_eq, if◌then◌else◌}
use iceth_plugin.Dict.{Dict, set}
use iceth_plugin.Runtime.{Hardhat, World, Script, write_file}
use iceth_plugin.Runtime.Contracts.{assets_collateral, IAssetCollDeployments}
use iceth_plugin.Runtime.Ensures.{Ensures, IsReadOnly, reading}
use iceth_plugin.Runtime.Live.{IsLive, AllLive, IsSound, IsSound-write, recorded, values}
use iceth_plugin.Runtime.Deploying.{Created}
use iceth_plugin.Phase2.Collateral.Blocks.{
  Setting, Writing, store_collateral, common_params, threshold_params, scale_price,
}

All-if :
    (P : List String → Type 0) (b : Bool) (x y : Dict String) (l : List String)
    → P (values x l)
    → P (values y l)
    → P (values (if b then x else y) l)
All-if P true x y l p q = p
All-if P false x y l p q = q

module _ (H : Hardhat) (c : H.Chain) where
  -- An address that is set under a key joins the live ones.
  pub values-set-AllLive :
      (k a : String) (d : Dict String) (l : List String)
      → IsLive H c a
      → AllLive H c (values d l)
      → AllLive H c (values (set k a d) l)
  unfolding set
  values-set-AllLive k a [] l h live = (h, live)
  values-set-AllLive k a ((j, b) ∷ d) l h live =
      All-if (AllLive H c) (str_eq j k) ((k, a) ∷ d) ((j, b) ∷ set k a d) l (h, live.1)
        (live.0, values-set-AllLive k a d l h live.1)

  values-AllLive :
      (d : Dict String) (l l' : List String)
      → (AllLive H c l → AllLive H c l')
      → AllLive H c (values d l)
      → AllLive H c (values d l')
  values-AllLive [] l l' f live = f live
  values-AllLive ((j, b) ∷ d) l l' f live = (live.0, values-AllLive d l l' f live.1)

  set_collateral-AllLive :
      (k a : String) (d : IAssetCollDeployments)
      → IsLive H c a
      → AllLive H c (recorded d)
      → AllLive H c (recorded (record d { collateral = set k a d.collateral }))
  set_collateral-AllLive k a d h live =
      values-AllLive d.assets (values d.collateral []) (values (set k a d.collateral) [])
        (values-set-AllLive k a d.collateral [] h) live

-- The object that is handed on, and every file, are live.
abbrev pub Kept : {H : Hardhat} → IAssetCollDeployments → World H → Type 0
Kept {H} d w = AllLive H w.chain (recorded d) × IsSound w

-- From a kept object to a kept object.
abbrev pub IsBlock :
    {H : Hardhat} → (IAssetCollDeployments → Script H IAssetCollDeployments) → Type 0
IsBlock {H} f = (w : World H) (d : IAssetCollDeployments) → Kept d w → Ensures w (f d) Kept IsSound

module _ {H : Hardhat} where
  pub store_collateral-Kept :
      (s : Setting) (writing : Writing) (token address : String) (w : World H)
      (d : IAssetCollDeployments)
      → Created (recorded d) address w
      → Ensures w (store_collateral s writing token address d) Kept IsSound
  unfolding store_collateral write_file
  store_collateral-Kept s Writing.write_before token address w d (set', live, sound) = record {
    at = (
      set_collateral-AllLive H w.chain token address d live.0 live.1,
      IsSound-write w _ (assets_collateral d) live.1 sound,
    );
  }
  store_collateral-Kept s Writing.write_after token address w d (set', live, sound) =
      let l = set_collateral-AllLive H w.chain token address d live.0 live.1 in
      record {
        at = (
          l,
          IsSound-write w _
              (assets_collateral (record d { collateral = set token address d.collateral })) l
              sound,
        );
      }
  store_collateral-Kept s Writing.no_write token address w d (set', live, sound) = record {
    at = (set_collateral-AllLive H w.chain token address d live.0 live.1, sound);
  }

  pub IsReadOnly-common_params :
      (s : Setting) (target : String) → IsReadOnly (common_params {H = H} s target)
  unfolding common_params
  IsReadOnly-common_params s target = search reading

  pub IsReadOnly-threshold_params :
      (s : Setting) (target : String) → IsReadOnly (threshold_params {H = H} s target)
  unfolding threshold_params
  IsReadOnly-threshold_params s target = search (reading, IsReadOnly-common_params)

  pub IsReadOnly-scale_price :
      (price rate : ℤ) (unit : String) → IsReadOnly (scale_price {H = H} price rate unit)
  unfolding scale_price
  IsReadOnly-scale_price price rate unit = search reading
