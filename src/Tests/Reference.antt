-- ===== src/Tests/Reference.antt =====
-- A concrete network, on which the scripts are run on examples: the addresses that have code, in the
-- order of their creation, with the last one first.
use text.Mathlib.TextPositions.{eq_refl}
use iceth_plugin.Dict.{get}
use iceth_plugin.Prelude.{
  ap, ◌∙◌, sym, subst, String, ◌≡◌, ◌≢◌, refl, Bool, true, false, ◌||◌, Option, none, some, List,
  [], ◌∷◌, ℤ, pos, arith, str_eq, if◌then◌else◌,
}
use iceth_plugin.BigNumber.Reference.{reference}
use iceth_plugin.Events.{LogDescription, ContractReceipt}
use iceth_plugin.Runtime.Requests.{Transaction}
use iceth_plugin.Runtime.{Hardhat, World}
use iceth_plugin.Runtime.Contracts.{Value}
use iceth_plugin.Runtime.Live.{HasCode, IsLawful, IsSound}

abbrev member : String → List String → Bool
member a [] = false
member a (b ∷ l) = str_eq b a || member a l

abbrev fresh : List String → String
fresh [] = "0xa0"
fresh (_ ∷ []) = "0xa1"
fresh (_ ∷ _ ∷ []) = "0xa2"
fresh (_ ∷ _ ∷ _ ∷ []) = "0xa3"
fresh (_ ∷ _ ∷ _ ∷ _ ∷ l) = "0xa4"

abbrev code_of : Bool → String
code_of true = "0x6080"
code_of false = "0x"

abbrev code_at : List String → String → String
code_at l a = code_of (member a l)

abbrev number_of : String → ℤ
number_of name = if str_eq name "decimals" then pos 8 else pos 100000000

abbrev accepted : Value → Option Value
accepted Value.undefined = none
accepted v = some v

abbrev receipt_of : Transaction → ContractReceipt LogDescription
receipt_of (Transaction.deploy_r_token config setup) = record {
  events = some [];
  logs = record { name = "RTokenCreated"; args = some (("main", Value.text "0xa0") ∷ []) } ∷ [];
}
receipt_of _ = record {
  events = some (
      record {
        event = some "GovernanceCreated";
        args = some (("governance", Value.text "0xa1") ∷ ("timelock", Value.text "0xa2") ∷ []);
      }
      ∷ []);
  logs = [];
}

abbrev pub local : Hardhat
local = record {
  Chain = List String;
  network_name = "hardhat";
  signers = "0x5e" ∷ [];
  send = λ c m. some "31337";
  ethers = reference;
  decimal_text = λ s. none;
  get_code = λ c a. some (code_at c a);
  deploy = λ c k. (some (fresh c), fresh c ∷ c);
  view_number = λ c a name. some (number_of name);
  task_param = accepted;
  view_text = λ c a name. some name;
  format_bytes32 = λ s. s;
  Log = LogDescription;
  parse_log = λ name log. some log;
  chai = record { equal = λ a b. true; deep_equal = λ a b. true };
  transact = λ c a t. (some (receipt_of t), c);
  submit = λ c a t. (true, c);
  view_at = λ c a name b. some name;
  view_flag = λ c a name. some true;
  view_price = λ c a. some (false, pos 100000000);
  wallet_number = λ c a name. some (pos 100000000);
  send_transaction = λ c a value to price. (true, c);
  get_page = λ l url. some (record { status = 200; result_status = "1"; has_source = false });
  verify = λ v. true;
  environment = ("ETHERSCAN_API_KEY", "key") ∷ [];
}

differs : (s : String) → str_eq s "" ≡ false → s ≢ ""
differs s h e = false-true (sym h ∙ ap (λ t. str_eq t "") e)
  where
    false-true : false ≡ true → ⊥
    false-true h = absurd (ground arith)

fresh-set : (l : List String) → fresh l ≢ ""
fresh-set [] = differs "0xa0" refl
fresh-set (_ ∷ []) = differs "0xa1" refl
fresh-set (_ ∷ _ ∷ []) = differs "0xa2" refl
fresh-set (_ ∷ _ ∷ _ ∷ []) = differs "0xa3" refl
fresh-set (_ ∷ _ ∷ _ ∷ _ ∷ l) = differs "0xa4" refl

code_of-or : (x y : Bool) → str_eq (code_of y) "0x" ≡ false → str_eq (code_of (x || y)) "0x" ≡ false
code_of-or true y e = refl
code_of-or false y e = e

code_at-new : (a : String) (l : List String) → str_eq (code_at (a ∷ l) a) "0x" ≡ false
code_at-new a l = rw (eq_refl a)

some-eq-some : {a b : String} → some a ≡ some b → a ≡ b
some-eq-some e = cc

pub local-IsLawful : IsLawful local
local-IsLawful = record {
  deploy_live = λ c k a e.
      subst (λ b. (b ≢ "") × HasCode local (fresh c ∷ c) b) (some-eq-some e)
        (fresh-set c, (code_at (fresh c ∷ c) (fresh c), refl, code_at-new (fresh c) c));
  deploy_keeps = λ c k a (code, found, is_code). (
    code_at (fresh c ∷ c) a,
    refl,
    code_of-or (str_eq (fresh c) a) (member a c)
        (subst (λ x. str_eq x "0x" ≡ false) (sym (some-eq-some found)) is_code),
  );
}

-- The contracts that the configuration of the network 31337 names are there, and no file is.
abbrev pub start : World local
start = record {
  chain =
      "0x320623b8E4fF03373931769A31Fc52A4E78B5d70" ∷ "0x759bBC1be8F90eE6457C44abc7d443842a976d02"
      ∷ "0x0b7fFc1f4AD541A4Ed16b40D8c37f0929158D101" ∷ [];
  files = [];
  verifications = [];
}

pub start-IsSound : IsSound start
unfolding get
start-IsSound = record { at_file = λ file document e. absurd (ground arith) }
