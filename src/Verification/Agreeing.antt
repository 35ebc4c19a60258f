-- ===== src/Verification/Agreeing.antt =====
-- The constructor arguments of 6_verify_collateral.ts beside those of 2_deploy_collateral.ts.
use Prim.Native.String
use iceth_plugin.Prelude.{String, ◌≡◌, ◌⊎◌, inl, inr, refl, some, List, [], ◌∷◌, ◌++◌, ℤ, arith}
use iceth_plugin.Errors.{ok}
use iceth_plugin.Dict.{get}
use iceth_plugin.Runtime.{Hardhat, World, Script, ◌>>=◌, view_number}
use iceth_plugin.Runtime.Contracts.{Value, Creation, IAssetCollDeployments}
use iceth_plugin.Runtime.Ensures.{
  Ensures, Ensures-read, Ensures-weaken, IsReadOnly, IsReadOnly-view_number,
}
use iceth_plugin.Tasks.{Params, param, arguments}
use iceth_plugin.Phase2.Collateral.Blocks.{
  Setting, Writing, common_params, threshold_params, deploy_fiat, deploy_wbtc, deploy_weth,
  deploy_eurt,
}
use iceth_plugin.Phase3.Config.{fp_text, bn_text}
use iceth_plugin.Verification.{verify_contract}
use iceth_plugin.Verification.Collateral.{
  Recorded, collateral_of, plain_arguments, threshold_arguments, verify_fiat, verify_nonfiat,
  verify_selfreferential, verify_eurfiat,
}
use iceth_plugin.Verification.Repeating.{request_of, verify_contract-Ends}

module _ {H : Hardhat} (s : Setting) (r : Recorded) (target : String) (w : World H) where
  -- The arguments that a task takes from the shared parameters are made again.
  pub threshold_arguments-agree :
      (params : Params)
      → r.chain_id ≡ s.chain_id
      → threshold_params s target w ≡ (ok params, w)
      → threshold_arguments r target w ≡ (
        ok (
            arguments
              ("maxTradeVolume" ∷ "oracleTimeout" ∷ "targetName" ∷ "defaultThreshold"
                ∷ "delayUntilDefault" ∷ [])
              params),
        w,
      )
  unfolding threshold_params common_params threshold_arguments fp_text bn_text param get
  threshold_arguments-agree params same e = rw same (ground arith)

  -- Without a threshold.
  pub plain_arguments-agree :
      (params : Params)
      → r.chain_id ≡ s.chain_id
      → common_params s target w ≡ (ok params, w)
      → plain_arguments r target w ≡ (
        ok (
            arguments
              ("maxTradeVolume" ∷ "oracleTimeout" ∷ "targetName" ∷ "delayUntilDefault" ∷ [])
              params),
        w,
      )
  unfolding common_params plain_arguments fp_text bn_text param get
  plain_arguments-agree params same e = rw same (ground arith)

-- A block of 2_deploy_collateral.ts whose contract 6_verify_collateral.ts verifies.
pub data Block : Type 0 where
  dai wbtc weth eurt : Block

abbrev pub key : Block → String
key Block.dai = "DAI"
key Block.wbtc = "WBTC"
key Block.weth = "WETH"
key Block.eurt = "EURT"

abbrev pub deploy_block :
    {H : Hardhat} → Setting → Block → IAssetCollDeployments → Script H IAssetCollDeployments
deploy_block s Block.dai d = deploy_fiat s Writing.write_before "DAI" d
deploy_block s Block.wbtc d = deploy_wbtc s d
deploy_block s Block.weth d = deploy_weth s d
deploy_block s Block.eurt d = deploy_eurt s d

abbrev pub verify_block : {H : Hardhat} → Recorded → Block → Script H (Unit {0})
verify_block r Block.dai = verify_fiat r
verify_block r Block.wbtc = verify_nonfiat r
verify_block r Block.weth = verify_selfreferential r
verify_block r Block.eurt = verify_eurfiat r

-- The path and the name of a contract.
abbrev pub artifact : String → String
artifact name =
    String.◌++◌ "contracts/plugins/assets/" (String.◌++◌ name (String.◌++◌ ".sol:" name))

-- Nothing is run, or verify:verify for the recorded address with the constructor arguments of the
-- creation, but for the first, the fallback price, which is the one that the contract answers.
abbrev pub VerifiesCreation :
    {H : Hardhat} → Recorded → String → Creation → World H → World H → Type 0
VerifiesCreation {H} r token k v v' =
    (price : ℤ) × (others : List Value) × (k.arguments ≡ Value.number price ∷ others)
    × ((v' ≡ v)
        ⊎ ((now : ℤ) × (H.view_number v.chain (collateral_of r token) "fallbackPrice" ≡ some now)
            × (v' ≡ record v {
              verifications =
                  (request_of (collateral_of r token) (Value.number now ∷ others)
                    (artifact k.contract))
                  ∷ v.verifications;
            })))

-- The same arguments wherever they are made.
abbrev pub Makes : {H : Hardhat} → Script H (List Value) → List Value → Type 0
Makes {H} m l = (v : World H) (rest : List Value) → m v ≡ (ok rest, v) → rest ≡ l

module _ {H : Hardhat} where
  settled :
      (v v' : World H) (address : Value) (now : ℤ) (head l rest : List Value)
      (path contract : String)
      → rest ≡ l
      → path ≡ contract
      → ((v' ≡ v)
          ⊎ (v' ≡ record v {
            verifications =
                (request_of address (Value.number now ∷ (head ++ rest)) contract) ∷ v.verifications;
          }))
      → H.view_number v.chain address "fallbackPrice" ≡ some now
      → (v' ≡ v)
        ⊎ ((now : ℤ) × (H.view_number v.chain address "fallbackPrice" ≡ some now)
            × (v' ≡ record v {
              verifications =
                  (request_of address (Value.number now ∷ (head ++ l)) path) ∷ v.verifications;
            }))
  settled v v' address now head l rest path contract same named (inl e) answered = inl e
  settled v v' address now head l rest path contract same named (inr e) answered =
      inr (now, answered, rw (← same, named) e)

  number-answered :
      (at : Value) (method : String) (n : ℤ) (w : World H)
      → view_number at method w ≡ (ok n, w)
      → H.view_number w.chain at method ≡ some n
  unfolding view_number
  number-answered at method n w e = ground arith

  pub verified :
      (r : Recorded) (token contract : String) (head l : List Value) (m : Script H (List Value))
      (price : ℤ) (k : Creation)
      → IsReadOnly m
      → Makes m l
      → k.arguments ≡ Value.number price ∷ (head ++ l)
      → artifact k.contract ≡ contract
      → (v : World H)
      → Ensures v
          (do
            now ← view_number (collateral_of r token) "fallbackPrice"
            rest ← m
            verify_contract r.chain_id
                (collateral_of r token)
                (Value.number now ∷ (head ++ rest))
                contract)
          (λ _ v'. VerifiesCreation r token k v v')
          (λ v'. v' ≡ v)
  verified r token contract head l m price k reads makes same path v =
      Ensures-read v _ (IsReadOnly-view_number (collateral_of r token) "fallbackPrice") refl
        λ now e. Ensures-read v _ reads refl λ rest f.
          Ensures-weaken v _ (verify_contract-Ends r.chain_id (collateral_of r token) _ contract v)
            λ _ v' ends.
              let answered = number-answered (collateral_of r token) "fallbackPrice" now v e in
              (
                price,
                head ++ l,
                same,
                settled v v' (collateral_of r token) now head l rest (artifact k.contract) contract
                    (makes v rest f) path ends answered,
              )

  pub threshold_arguments-Makes :
      (r : Recorded) (target : String) (l : List Value) (w : World H)
      → threshold_arguments r target w ≡ (ok l, w)
      → Makes (threshold_arguments {H = H} r target) l
  unfolding threshold_arguments fp_text bn_text
  threshold_arguments-Makes r target l w e v rest f = ground arith

  pub plain_arguments-Makes :
      (r : Recorded) (target : String) (l : List Value) (w : World H)
      → plain_arguments r target w ≡ (ok l, w)
      → Makes (plain_arguments {H = H} r target) l
  unfolding plain_arguments fp_text bn_text
  plain_arguments-Makes r target l w e v rest f = ground arith
