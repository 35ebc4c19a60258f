-- ===== src/Verification/Keeping.antt =====
-- What the scripts of scripts/verification/ do to the world.
use iceth_plugin.Prelude.{
  String, Bool, true, false, ◌≡◌, refl, sym, subst, Option, none, some, List, [], ◌∷◌, All, arith,
  if◌then◌else◌,
}
use iceth_plugin.Errors.{Result, ok, err, no_service}
use iceth_plugin.Runtime.{
  Hardhat, World, Script, pure, throw, continue, ◌>>=◌, ◌>>◌, get_page, run_verify, attempt,
}
use iceth_plugin.Runtime.Contracts.{Value}
use iceth_plugin.Runtime.Requests.{Verification, Page}
use iceth_plugin.Runtime.Ensures.{IsReadOnly, IsReadOnly-pure, reading}
use iceth_plugin.Deployment.Reading.{IsReadOnly-get_chain_id, IsReadOnly-require_network_config}
use iceth_plugin.Confirmation.Prices.{IsReadOnly-refuse_development}
use iceth_plugin.Deploy.{run_all}
use iceth_plugin.Verification.{source_url, is_answer, verify_contract, begin}

-- The worlds that runs of verify:verify lead to, each for an address whose source the service has just
-- said it does not know.
pub data Reaches {H : Hardhat} (v : World H) : World H → Type 0 where
  none_run : Reaches v v
  one_run :
      (w : World H) (id : String) (request : Verification) (page : Page)
      → Reaches v w
      → H.get_page w.verifications (source_url H id request.address) ≡ some page
      → is_answer page ≡ true
      → page.has_source ≡ false
      → Reaches v (record w { verifications = request ∷ w.verifications })

-- The script runs verify:verify in this way only, and changes nothing else.
pub record OnlyVerifies {H : Hardhat} {A : Type 0} (m : Script H A) : Type 0 where
  pub goes : (v w : World H) → Reaches v w → Reaches v (m w).1

module _ {H : Hardhat} where
  -- No run changes the network or a file.
  pub Reaches-same : (v w : World H) → Reaches v w → (w.chain ≡ v.chain) × (w.files ≡ v.files)
  Reaches-same v _ none_run = (refl, refl)
  Reaches-same v _ (one_run w id request page r asked answered unknown) = Reaches-same v w r

  pub OnlyVerifies-read : {A : Type 0} {m : Script H A} → IsReadOnly m → OnlyVerifies m
  OnlyVerifies-read k = record { goes = λ v w r. subst (Reaches v) (sym (k.same w)) r }

  goes-continue :
      {A B : Type 0} (f : A → Script H B)
      → ((a : A) → OnlyVerifies (f a))
      → (v : World H) (o : Result A × World H) → Reaches v o.1
      → Reaches v (continue f o.0 o.1).1
  goes-continue f k v (ok a, w) r = (k a).goes v w r
  goes-continue f k v (err e, w) r = r

  pub OnlyVerifies-bind :
      {A B : Type 0} (m : Script H A) (f : A → Script H B)
      → OnlyVerifies m
      → ((a : A) → OnlyVerifies (f a))
      → OnlyVerifies (m >>= f)
  OnlyVerifies-bind m f h k = record { goes = λ v w r. goes-continue f k v (m w) (h.goes v w r) }

  -- Also a run that is rejected is counted.
  pub attempt-world :
      (request : Verification) (w : World H)
      → (attempt (run_verify request) w).1 ≡ record w { verifications = request ∷ w.verifications }
  unfolding attempt run_verify
  attempt-world request w = ground arith

  -- The ends of verifyContract where the service has answered.
  answered-goes :
      (id : String) (request : Verification) (v w : World H) (page : Page)
      → H.get_page w.verifications (source_url H id request.address) ≡ some page
      → Reaches v w
      → (b c : Bool) → is_answer page ≡ b
      → page.has_source ≡ c
      → Reaches v
          (((if b then pure {H = H} tt else throw no_service)
              >> (if c then pure tt else attempt (run_verify request)))
            w).1
  answered-goes id request v w page asked r false c e k = r
  answered-goes id request v w page asked r true true e k = r
  answered-goes id request v w page asked r true false e k =
      subst (Reaches v) (sym (attempt-world request w)) (one_run w id request page r asked e k)

  verify_contract-goes :
      (id : String) (address : Value) (l : List Value) (contract : String) (v w : World H)
      (o : Option Page)
      → H.get_page w.verifications (source_url H id address) ≡ o
      → Reaches v w
      → Reaches v (verify_contract id address l contract w).1
  unfolding verify_contract get_page
  verify_contract-goes id address l contract v w none e r = rw e r
  verify_contract-goes id address l contract v w (some page) e r = rw e (
      answered-goes id
        (record {
          address = address;
          constructor_arguments = l;
          contract = contract;
          libraries = [];
        })
        v w page e r (is_answer page) page.has_source refl refl)

  pub OnlyVerifies-verify_contract :
      (id : String) (address : Value) (l : List Value) (contract : String)
      → OnlyVerifies (verify_contract {H = H} id address l contract)
  OnlyVerifies-verify_contract id address l contract = record {
    goes = λ v w r. verify_contract-goes id address l contract v w _ refl r;
  }

  IsReadOnly-begin : IsReadOnly (begin {H = H})
  unfolding begin
  IsReadOnly-begin =
      search
        (
          reading, IsReadOnly-get_chain_id, IsReadOnly-require_network_config,
          IsReadOnly-refuse_development,
        )
        depth 12

  pub OnlyVerifies-begin : OnlyVerifies (begin {H = H})
  OnlyVerifies-begin = OnlyVerifies-read IsReadOnly-begin

  pub OnlyVerifies-run_all :
      (l : List (Script H (Unit {0}))) → All OnlyVerifies l → OnlyVerifies (run_all l)
  unfolding run_all
  OnlyVerifies-run_all [] h = OnlyVerifies-read (IsReadOnly-pure tt)
  OnlyVerifies-run_all (m ∷ l) h = OnlyVerifies-bind m _ h.0 λ _. OnlyVerifies-run_all l h.1
