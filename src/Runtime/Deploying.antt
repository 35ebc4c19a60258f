-- ===== src/Runtime/Deploying.antt =====
-- What a deployment establishes when it returns and when it is rejected.
use iceth_plugin.Prelude.{
  String, Bool, true, false, ◌≡◌, ◌≢◌, inr, refl, Option, none, some, List, ◌∷◌,
}
use iceth_plugin.Dict.{set}
use iceth_plugin.Runtime.{
  Hardhat, World, Script, continue, answer, ◌>>=◌, deploy_contract, write_file, transact, submit,
  taken,
}
use iceth_plugin.Events.{ContractReceipt}
use iceth_plugin.Runtime.Requests.{Transaction}
use iceth_plugin.Runtime.Contracts.{Creation, Document, Value}
use iceth_plugin.Runtime.Ensures.{Ensures, Outcome}
use iceth_plugin.Runtime.Live.{
  HasCode, IsLawful, Grows, AllLive, AllLive-Grows, IsSound, IsSound-Grows,
}

module _ {H : Hardhat} {B : Type 0} {Q : B → World H → Type 0} {R : World H → Type 0} where
  -- The two ends of a deployment.
  pub Ensures-deploy :
      IsLawful H
      → (w : World H) (k : Creation) (f : String → Script H B)
      → ((c' : H.Chain) → Grows H w.chain c' → R (record w { chain = c' }))
      → ((a : String) (c' : H.Chain)
          → a ≢ ""
          → HasCode H c' a
          → Grows H w.chain c'
          → Ensures (record w { chain = c' }) (f a) Q R)
      → Ensures w (deploy_contract k >>= f) Q R
  unfolding deploy_contract
  Ensures-deploy L w k f fails goes = record { at = ends (H.deploy w.chain k).0 refl }
    where
      c' : H.Chain
      c' = (H.deploy w.chain k).1

      w' : World H
      w' = record w { chain = c' }

      ends :
          (o : Option String)
          → (H.deploy w.chain k).0 ≡ o
          → Outcome Q R
              (continue f (answer {H = H} k.contract o w').0 (answer {H = H} k.contract o w').1)
      ends none e = fails c' (L.deploy_keeps w.chain k)
      ends (some a) e =
          let (set', code) = L.deploy_live w.chain k a e in
          (goes a c' set' code (L.deploy_keeps w.chain k)).at

  pub Ensures-write :
      (w : World H) (file : String) (document : Document) (f : Unit {0} → Script H B)
      → Ensures (record w { files = set file document w.files }) (f tt) Q R
      → Ensures w (write_file file document >>= f) Q R
  unfolding write_file
  Ensures-write w file document f h = record { at = h.at }

module _ {H : Hardhat} {B : Type 0} {Q : B → World H → Type 0} where
  -- A deployment in a sound world: the new address joins those that are known to be live.
  pub Ensures-deploy_live :
      IsLawful H
      → (w : World H) → IsSound w
      → (l : List String) → AllLive H w.chain l
      → (k : Creation) (f : String → Script H B)
      → ((a : String) (c' : H.Chain)
          → a ≢ ""
          → AllLive H c' (a ∷ l)
          → IsSound (record w { chain = c' })
          → Ensures (record w { chain = c' }) (f a) Q IsSound)
      → Ensures w (deploy_contract k >>= f) Q IsSound
  Ensures-deploy_live L w s l live k f goes =
      Ensures-deploy L w k f (λ c' g. IsSound-Grows w c' g s)
        λ a c' set' code g.
          goes a c' set' (inr code, AllLive-Grows H w.chain c' g l live) (IsSound-Grows w c' g s)

module _ {H : Hardhat} {B : Type 0} {Q : B → World H → Type 0} {R : World H → Type 0} where
  answer-ends :
      {A : Type 0} (call : String) (o : Option A) (w' : World H) (f : A → Script H B)
      → R w'
      → ((a : A) → o ≡ some a → Ensures w' (f a) Q R)
      → Outcome Q R (continue f (answer {H = H} call o w').0 (answer {H = H} call o w').1)
  answer-ends call none w' f fails goes = fails
  answer-ends call (some a) w' f fails goes = (goes a refl).at

  -- The two ends of a transaction that is waited for.
  pub Ensures-transact :
      (w : World H) (method : String) (at : Value) (t : Transaction)
      (f : ContractReceipt H.Log → Script H B)
      → R (record w { chain = (H.transact w.chain at t).1 })
      → ((receipt : ContractReceipt H.Log)
          → (H.transact w.chain at t).0 ≡ some receipt
          → Ensures (record w { chain = (H.transact w.chain at t).1 }) (f receipt) Q R)
      → Ensures w (transact method at t >>= f) Q R
  unfolding transact
  Ensures-transact w method at t f fails goes = record {
    at =
        answer-ends method (H.transact w.chain at t).0
          (record w { chain = (H.transact w.chain at t).1 }) f fails goes;
  }

module _ {H : Hardhat} (Q : Unit {0} → World H → Type 0) (R : World H → Type 0) where
  taken-ends :
      (call : String) (took : Bool) (w' : World H)
      → R w'
      → Q tt w'
      → Outcome Q R (taken {H = H} call took w')
  taken-ends call true w' r q = q
  taken-ends call false w' r q = r

module _ {H : Hardhat} {Q : Unit {0} → World H → Type 0} {R : World H → Type 0} where
  -- The two ends of a transaction that is not waited for, as the last step.
  pub Ensures-submit :
      (w : World H) (method : String) (at : Value) (t : Transaction)
      → R (record w { chain = (H.submit w.chain at t).1 })
      → Q tt (record w { chain = (H.submit w.chain at t).1 })
      → Ensures w (submit method at t) Q R
  unfolding submit
  Ensures-submit w method at t r q = record {
    at =
        taken-ends Q R method (H.submit w.chain at t).0
          (record w { chain = (H.submit w.chain at t).1 }) r q;
  }

-- A new contract was created, beside those at the addresses of the list.
abbrev pub Created : {H : Hardhat} → List String → String → World H → Type 0
Created {H} l a w = (a ≢ "") × AllLive H w.chain (a ∷ l) × IsSound w

module _ {H : Hardhat} where
  Created-Outcome :
      IsLawful H
      → (w : World H) → IsSound w
      → (l : List String) → AllLive H w.chain l
      → (k : Creation) (o : Option String) → (H.deploy w.chain k).0 ≡ o
      → Outcome
          (Created l)
          IsSound
          (answer {H = H} k.contract o (record w { chain = (H.deploy w.chain k).1 }))
  Created-Outcome L w s l live k none e = IsSound-Grows w _ (L.deploy_keeps w.chain k) s
  Created-Outcome L w s l live k (some a) e =
      let (set', code) = L.deploy_live w.chain k a e in
      let g = L.deploy_keeps w.chain k in
      (set', (inr code, AllLive-Grows H w.chain _ g l live), IsSound-Grows w _ g s)

  pub Ensures-create :
      IsLawful H
      → (w : World H) → IsSound w
      → (l : List String) → AllLive H w.chain l
      → (k : Creation) → Ensures w (deploy_contract k) (Created l) IsSound
  unfolding deploy_contract
  Ensures-create L w s l live k = record {
    at = Created-Outcome L w s l live k (H.deploy w.chain k).0 refl;
  }

-- From a sound world the script ends in a sound world, whether it returns or throws.
abbrev pub KeepsSound : {H : Hardhat} → Script H (Unit {0}) → Type 0
KeepsSound {H} m = (w : World H) → IsSound w → Ensures w m (λ _ w'. IsSound w') IsSound
