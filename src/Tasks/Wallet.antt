-- ===== src/Tasks/Wallet.antt =====
-- tasks/deployment/empty-wallet.ts and tasks/deployment/create-deployer-registry.ts
use iceth_plugin.Prelude.{
  String, true, false, not, ◌≡◌, ◌⊎◌, inl, inr, Bool-cases, refl, sym, ap, ◌∙◌, subst, Option, [],
  ◌∷◌, ℤ, pos, ◌-ℤ◌, ◌*ℤ◌, ◌<ℤ◌, ltb_ℤ, arith, if◌then◌else◌,
}
use iceth_plugin.Errors.{Result, ok, err, low_balance}
use iceth_plugin.BigNumber.{IsDocumented}
use iceth_plugin.Runtime.{
  Hardhat, World, Script, pure, throw, ◌>>=◌, ◌>>◌, get_signer, deploy_contract, wallet_number,
  send_transaction, run_verify,
}
use iceth_plugin.Runtime.Contracts.{Value}
use iceth_plugin.Runtime.Ensures.{
  Outcome, Ensures, Ensures-read, IsReadOnly-get_signer, IsReadOnly-wallet_number,
}
use iceth_plugin.Deployment.{get_chain_id}
use iceth_plugin.Deployment.Reading.{IsReadOnly-get_chain_id}
use iceth_plugin.Tasks.{Params, param, require_params}
use iceth_plugin.Tasks.Creating.{IsReadOnly-require_params}

module _ {H : Hardhat} where
  -- The transfer, where the balance is more than its cost.
  unfoldable pub withdraw : String → ℤ → ℤ → Value → Script H (Unit {0})
  withdraw wallet bal gas_price recipient = do
    (if not (H.ethers.gt bal (H.ethers.mul gas_price (pos 21000)))
        then throw low_balance
        else pure tt)
    send_transaction wallet (H.ethers.sub bal (H.ethers.mul gas_price (pos 21000))) recipient
        gas_price

  unfoldable pub empty_wallet : Params → Script H (Unit {0})
  empty_wallet params = do
    require_params ("recipient" ∷ []) params
    wallet ← get_signer
    chain_id ← get_chain_id
    bal ← wallet_number wallet "getBalance"
    gas_price ← wallet_number wallet "getGasPrice"
    withdraw wallet bal gas_price (param "recipient" params)

  unfoldable pub create_deployer_registry : Params → Script H String
  create_deployer_registry params = do
    require_params ("owner" ∷ []) params
    wallet ← get_signer
    chain_id ← get_chain_id
    registry ← deploy_contract (record {
      contract = "DeployerRegistry";
      libraries = [];
      arguments = param "owner" params ∷ [];
    })
    run_verify (record {
      address = Value.text registry;
      constructor_arguments = param "owner" params ∷ [];
      contract = "contracts/facade/DeployerRegistry.sol:DeployerRegistry";
      libraries = [];
    })
    pure registry

-- The network after the whole balance less the cost of the transfer has been sent.
abbrev pub Emptied : {H : Hardhat} → World H → Value → World H → Type 0
Emptied {H} w recipient w' =
    (wallet : String) × (bal : ℤ) × (gas_price : ℤ) × (H.wallet_number w.chain wallet "getBalance"
      ≡ Option.some bal)
    × (H.wallet_number w.chain wallet "getGasPrice" ≡ Option.some gas_price)
    × (gas_price *ℤ pos 21000 <ℤ bal)
    × (w' ≡ record w {
      chain =
          (H.send_transaction w.chain wallet (bal -ℤ gas_price *ℤ pos 21000) recipient gas_price).1;
    })

less : (g b : ℤ) → ltb_ℤ (g *ℤ pos 21000) b ≡ true → g *ℤ pos 21000 <ℤ b
less g b e = ground arith

module _ {H : Hardhat} where
  send_transaction-world :
      (w : World H) (wallet : String) (value : ℤ) (to : Value) (price : ℤ)
      → (send_transaction wallet value to price w).1
        ≡ record w { chain = (H.send_transaction w.chain wallet value to price).1 }
  unfolding send_transaction
  send_transaction-world w wallet value to price = ground arith

  wallet_number-some :
      (wallet method : String) (n : ℤ) (w : World H)
      → wallet_number wallet method w ≡ (ok n, w)
      → H.wallet_number w.chain wallet method ≡ Option.some n
  unfolding wallet_number
  wallet_number-some wallet method n w e = ground arith

  Outcome-either :
      (P : World H → Type 0) (w : World H) (o : Result (Unit {0}) × World H)
      → P o.1
      → Outcome (λ _ w'. P w') (λ w'. (w' ≡ w) ⊎ P w') o
  Outcome-either P w (ok a, w') p = p
  Outcome-either P w (err e, w') p = inr p

module _ {H : Hardhat} (L : IsDocumented H.ethers) where
  withdraw-low :
      (w : World H) (wallet : String) (recipient : Value) (bal gas_price : ℤ)
      → ltb_ℤ (gas_price *ℤ pos 21000) bal ≡ false
      → withdraw wallet bal gas_price recipient w ≡ (err low_balance, w)
  unfolding withdraw
  withdraw-low w wallet recipient bal gas_price low =
      rw (L.mul_lem gas_price (pos 21000), L.gt_lem bal (gas_price *ℤ pos 21000), low)

  withdraw-high :
      (w : World H) (wallet : String) (recipient : Value) (bal gas_price : ℤ)
      → ltb_ℤ (gas_price *ℤ pos 21000) bal ≡ true
      → withdraw wallet bal gas_price recipient w
        ≡ send_transaction wallet (bal -ℤ gas_price *ℤ pos 21000) recipient gas_price w
  unfolding withdraw
  withdraw-high w wallet recipient bal gas_price high = rw (
    L.mul_lem gas_price (pos 21000),
    L.gt_lem bal (gas_price *ℤ pos 21000),
    high,
    L.sub_lem bal (gas_price *ℤ pos 21000),
  )

  withdraw-ends :
      (w : World H) (wallet : String) (recipient : Value) (bal gas_price : ℤ)
      → H.wallet_number w.chain wallet "getBalance" ≡ Option.some bal
      → H.wallet_number w.chain wallet "getGasPrice" ≡ Option.some gas_price
      → (ltb_ℤ (gas_price *ℤ pos 21000) bal ≡ true) ⊎ (ltb_ℤ (gas_price *ℤ pos 21000) bal ≡ false)
      → Ensures w
          (withdraw wallet bal gas_price recipient)
          (λ _ w'. Emptied w recipient w')
          (λ w'. (w' ≡ w) ⊎ Emptied w recipient w')
  withdraw-ends w wallet recipient bal gas_price b g (inr low) = record {
    at =
        subst (Outcome (λ _ w'. Emptied w recipient w') (λ w'. (w' ≡ w) ⊎ Emptied w recipient w'))
          (sym (withdraw-low w wallet recipient bal gas_price low)) (inl refl);
  }
  withdraw-ends w wallet recipient bal gas_price b g (inl high) = record {
    at = Outcome-either (Emptied w recipient) w (withdraw wallet bal gas_price recipient w) (
      wallet,
      bal,
      gas_price,
      b,
      g,
      less gas_price bal high,
      ap (λ o. o.1) (withdraw-high w wallet recipient bal gas_price high)
          ∙ send_transaction-world w wallet (bal -ℤ gas_price *ℤ pos 21000) recipient gas_price,
    );
  }

  -- If the BigNumber package is as documented and empty-wallet returns, then the balance was more
  -- than 21000 times the gas price, and the network is the one after a transfer of exactly the
  -- difference to the recipient; if it throws, the world is either that or as it was.
  pub empty_wallet-Emptied :
      (w : World H) (params : Params)
      → Ensures w
          (empty_wallet params)
          (λ _ w'. Emptied w (param "recipient" params) w')
          (λ w'. (w' ≡ w) ⊎ Emptied w (param "recipient" params) w')
  unfolding empty_wallet
  empty_wallet-Emptied w params =
      Ensures-read w _ (IsReadOnly-require_params ("recipient" ∷ []) params) (inl refl) λ _ _.
        Ensures-read w _ IsReadOnly-get_signer (inl refl) λ wallet _.
          Ensures-read w _ IsReadOnly-get_chain_id (inl refl) λ id _.
            Ensures-read w _ (IsReadOnly-wallet_number wallet "getBalance") (inl refl) λ bal b.
              Ensures-read w _ (IsReadOnly-wallet_number wallet "getGasPrice") (inl refl)
                λ gas_price g.
                  withdraw-ends w wallet (param "recipient" params) bal gas_price
                    (wallet_number-some wallet "getBalance" bal w b)
                    (wallet_number-some wallet "getGasPrice" gas_price w g)
                    (Bool-cases (ltb_ℤ (gas_price *ℤ pos 21000) bal))
