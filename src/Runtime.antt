-- ===== src/Runtime.antt =====
-- What the scripts run on: Hardhat's runtime environment, Node's file system and the exceptions.
--
-- Hardhat, ethers and the network behind them are not part of the repository. They are the record
-- `Hardhat`, which the model takes as a parameter: a state of the network that transactions change,
-- and calls that may be rejected. Nothing else changes the network while a script runs.
-- The file system holds the deployment files only, each as the record that was serialised into it. The
-- service that verifies contracts answers by the runs of verify:verify, which the world lists.
pub mod Contracts
pub mod Deploying
pub mod Ensures
pub mod Live
pub mod Requests
pub use Contracts.*
use iceth_plugin.Prelude.{String, Bool, true, false, ℤ, Option, none, some, List, [], ◌∷◌}
use iceth_plugin.Errors.{Error, Result, ok, err, rejected, no_signer}
use iceth_plugin.BigNumber.{BigNumber}
use iceth_plugin.Dict.{Dict, set}
use iceth_plugin.Events.{Chai, LogDescription, ContractReceipt}
use iceth_plugin.Runtime.Requests.{Transaction, Verification, Page}
use iceth_plugin.Runtime.Contracts.{Document, Creation, Value}

pub record Hardhat : Type 1 where
  pub Chain : Type 0
  pub network_name : String
  -- the addresses of getSigners()
  pub signers : List String
  -- provider.send(method)
  pub send : Chain → String → Option String
  -- the BigNumber class of the package ethers
  pub ethers : BigNumber
  -- BigNumber.from(text).toString()
  pub decimal_text : String → Option String
  -- provider.getCode(address)
  pub get_code : Chain → String → Option String
  -- getContractFactory(name, { libraries }), connect, deploy(...args) and deployed(): the address, if
  -- nothing was rejected, and the network afterwards
  pub deploy : Chain → Creation → Option String × Chain
  -- a call of a view function of the contract at an address: its number
  pub view_number : Chain → Value → String → Option ℤ
  -- the value of a required parameter of a task that is run by hre.run, if it is accepted
  pub task_param : Value → Option Value
  -- a call of a view function of the contract at an address: its text
  pub view_text : Chain → Value → String → Option String
  -- formatBytes32String(text)
  pub format_bytes32 : String → String
  -- the logs of receipts, and interface.parseLog(log) for the interface of a contract
  pub Log : Type 0
  pub parse_log : String → Log → Option LogDescription
  -- the package chai
  pub chai : Chai
  -- a transaction to the contract at an address, waited for: its receipt, if it was not rejected, and
  -- the network afterwards
  pub transact : Chain → Value → Transaction → Option (ContractReceipt Log) × Chain
  -- a transaction to the contract at an address that is not waited for: whether the node took it, and
  -- the network afterwards
  pub submit : Chain → Value → Transaction → Bool × Chain
  -- a call of a view function with one argument: its text; one without: its Boolean
  pub view_at : Chain → Value → String → Value → Option String
  pub view_flag : Chain → Value → String → Option Bool
  -- asset.price(true): whether the price is the fallback, and the price
  pub view_price : Chain → Value → Option (Bool × ℤ)
  -- getBalance and getGasPrice of a wallet
  pub wallet_number : Chain → String → String → Option ℤ
  -- wallet.sendTransaction({ value, to, gasPrice }): whether it was not rejected, and the network
  -- afterwards
  pub send_transaction : Chain → String → ℤ → Value → ℤ → Bool × Chain
  -- axios.get(url), when the listed verifications were run
  pub get_page : List Verification → String → Option Page
  -- hre.run('verify:verify', ...): whether it was not rejected
  pub verify : Verification → Bool
  -- process.env
  pub environment : Dict String

pub record World (H : Hardhat) : Type 0 where
  pub chain : H.Chain
  pub files : Dict Document
  -- the runs of verify:verify so far
  pub verifications : List Verification

-- A script keeps what it did before it threw.
abbrev pub Script : Hardhat → Type 0 → Type 0
Script H A = World H → Result A × World H

module _ {H : Hardhat} where
  abbrev pub pure : {A : Type 0} → A → Script H A
  pure a w = (ok a, w)

  abbrev pub throw : {A : Type 0} → Error → Script H A
  throw e w = (err e, w)

  abbrev pub lift : {A : Type 0} → Result A → Script H A
  lift r w = (r, w)

  abbrev pub continue : {A B : Type 0} → (A → Script H B) → Result A → Script H B
  continue f (ok a) w = f a w
  continue f (err e) w = (err e, w)

  infixl 5 ◌>>=◌ ◌>>◌
  abbrev pub ◌>>=◌ : {A B : Type 0} → Script H A → (A → Script H B) → Script H B
  ◌>>=◌ m f w = let (r, w') = m w in continue f r w'

  abbrev pub ◌>>◌ : {A B : Type 0} → Script H A → Script H B → Script H B
  m >> k = m >>= λ _. k

  -- A call that is rejected throws.
  abbrev pub answer : {A : Type 0} → String → Option A → Script H A
  answer call none = throw (rejected call)
  answer call (some a) = pure a

  abbrev pub first : List String → Script H String
  first [] = throw no_signer
  first (signer ∷ _) = pure signer

  -- const [burner] = await hre.ethers.getSigners(), and its address
  unfoldable pub get_signer : Script H String
  get_signer = first H.signers

  -- await contract.method()
  unfoldable pub view_number : Value → String → Script H ℤ
  view_number address method w = answer method (H.view_number w.chain address method) w

  unfoldable pub view_text : Value → String → Script H String
  view_text address method w = answer method (H.view_text w.chain address method) w

  unfoldable pub task_param : String → Value → Script H Value
  task_param name value = answer name (H.task_param value)

  -- (await factory.connect(burner).deploy(...)).deployed(), and its address
  unfoldable pub deploy_contract : Creation → Script H String
  deploy_contract creation w =
      let (r, c) = H.deploy w.chain creation in answer creation.contract r (record w { chain = c })

  -- fs.writeFileSync(file, JSON.stringify(document, null, 2))
  unfoldable pub write_file : String → Document → Script H (Unit {0})
  write_file file document w = (ok tt, record w { files = set file document w.files })

  -- await (await contract.method(...)).wait(): the receipt
  unfoldable pub transact : String → Value → Transaction → Script H (ContractReceipt H.Log)
  transact method contract transaction w =
      let (r, c) = H.transact w.chain contract transaction in
      answer method r (record w { chain = c })

  unfoldable pub view_at : Value → String → Value → Script H String
  view_at address method argument w = answer method (H.view_at w.chain address method argument) w

  unfoldable pub view_flag : Value → String → Script H Bool
  view_flag address method w = answer method (H.view_flag w.chain address method) w

  unfoldable pub view_price : Value → Script H (Bool × ℤ)
  view_price address w = answer "price" (H.view_price w.chain address) w

  unfoldable pub wallet_number : String → String → Script H ℤ
  wallet_number wallet method w = answer method (H.wallet_number w.chain wallet method) w

  abbrev pub taken : String → Bool → Script H (Unit {0})
  taken call true = pure tt
  taken call false = throw (rejected call)

  -- await contract.method(...), with no wait for the receipt
  unfoldable pub submit : String → Value → Transaction → Script H (Unit {0})
  submit method contract transaction w =
      let (took, c) = H.submit w.chain contract transaction in
      taken method took (record w { chain = c })

  -- await axios.get(url): the page
  unfoldable pub get_page : String → Script H Page
  get_page url w = answer "axios.get" (H.get_page w.verifications url) w

  abbrev accepted : Bool → Script H (Unit {0})
  accepted true = pure tt
  accepted false = throw (rejected "verify:verify")

  -- await hre.run('verify:verify', { ... })
  unfoldable pub run_verify : Verification → Script H (Unit {0})
  run_verify v w = accepted (H.verify v) (record w { verifications = v ∷ w.verifications })

  -- try { await m } catch (e) { console.log(e) }
  unfoldable pub attempt : Script H (Unit {0}) → Script H (Unit {0})
  attempt m w = (ok tt, (m w).1)

  -- await wallet.sendTransaction({ value, to, gasPrice })
  unfoldable pub send_transaction : String → ℤ → Value → ℤ → Script H (Unit {0})
  send_transaction wallet value to price w =
      let (sent, c) = H.send_transaction w.chain wallet value to price in
      taken "sendTransaction" sent (record w { chain = c })
