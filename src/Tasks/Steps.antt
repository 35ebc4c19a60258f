-- ===== src/Tasks/Steps.antt =====
-- The steps of tasks/testing/mint-tokens.ts: what a call gave, and how the task goes on.
use iceth_plugin.Prelude.{
  String, Bool, true, false, refl, ◌≡◌, List, [], ◌∷◌, ℤ, pos, codes, if◌then◌else◌, some, arith,
}
use iceth_plugin.Errors.{Result, ok, err}
use iceth_plugin.BigNumber
use iceth_plugin.BigNumber.{IsDocumented}
use iceth_plugin.Runtime.{Hardhat, World, Script, lift, ◌>>=◌, get_signer, first, view_number}
use iceth_plugin.Runtime.Contracts.{Value}
use iceth_plugin.Runtime.Requests.{Transaction}
use iceth_plugin.Runtime.Ensures.{Outcome, Ensures, Ensures-bind, Ensures-pure}
use iceth_plugin.Runtime.Deploying.{Ensures-transact}
use iceth_plugin.Phase3.Recording.{lift-ok}
use iceth_plugin.Tasks.Minting.{sent}

ten_lem :
    {B : BigNumber.BigNumber} → IsDocumented B → B.from (BigNumber.text (codes "10")) ≡ ok (pos 10)
ten_lem D = D.from_digits 49 (48 ∷ []) (ground arith)

module _ {H : Hardhat} where
  pub view_number-given :
      (at : Value) (method : String) (n : ℤ) (w : World H)
      → view_number at method w ≡ (ok n, w)
      → H.view_number w.chain at method ≡ some n
  unfolding view_number
  view_number-given at method n w e = ground arith

  signer-given :
      (a : String) (l : List String) (w : World H)
      → first {H = H} l w ≡ (ok a, w)
      → (rest : List String) × (l ≡ a ∷ rest)
  signer-given a [] w e = absurd (ground arith)
  signer-given a (b ∷ rest) w e = (rest, ground arith)

  pub get_signer-given :
      (a : String) (w : World H)
      → get_signer {H = H} w ≡ (ok a, w)
      → (rest : List String) × (H.signers ≡ a ∷ rest)
  unfolding get_signer
  get_signer-given a w e = signer-given a H.signers w e

  pub Ensures-if :
      {Q : Unit {0} → World H → Type 0} {R : World H → Type 0} (w : World H) (b : Bool)
      {m n : Script H (Unit {0})}
      → (b ≡ true → Ensures w m Q R)
      → (b ≡ false → Ensures w n Q R)
      → Ensures w (if b then m else n) Q R
  Ensures-if w true h k = h refl
  Ensures-if w false h k = k refl

  -- A step that is a transaction which is waited for.
  pub Ensures-sent :
      {Q : Unit {0} → World H → Type 0} {R : World H → Type 0} (w : World H) (method : String)
      (at : Value) (t : Transaction) (f : Unit {0} → Script H (Unit {0}))
      → R (record w { chain = (H.transact w.chain at t).1 })
      → Ensures (record w { chain = (H.transact w.chain at t).1 }) (f tt) Q R
      → Ensures w (sent method at t >>= f) Q R
  unfolding sent
  Ensures-sent {Q} {R} w method at t f r k = Ensures-bind w (sent method at t) f (
      Ensures-transact {Q = λ a w'. Ensures w' (f a) Q R} w method at t _ r
        λ receipt _. Ensures-pure _ tt k)

  pub ten-given :
      (ten : ℤ) (w : World H)
      → IsDocumented H.ethers
      → lift {H = H} (H.ethers.from (BigNumber.text (codes "10"))) w ≡ (ok ten, w)
      → ten ≡ pos 10
  ten-given ten w B e = let h = lift-ok _ ten w e in let k = ten_lem B in cc

module _ {H : Hardhat} {P Q : Unit {0} → World H → Type 0} {R S : World H → Type 0} where
  Outcome-both :
      (o : Result (Unit {0}) × World H)
      → Outcome P R o
      → ((a : Unit {0}) (w' : World H) → P a w' → Q a w')
      → ((w' : World H) → R w' → S w')
      → Outcome Q S o
  Outcome-both (ok a, w') h k l = k a w' h
  Outcome-both (err e, w') h k l = l w' h

  pub Ensures-mono :
      (w : World H) {m : Script H (Unit {0})}
      → Ensures w m P R
      → ((a : Unit {0}) (w' : World H) → P a w' → Q a w')
      → ((w' : World H) → R w' → S w')
      → Ensures w m Q S
  Ensures-mono w {m} h k l = record { at = Outcome-both (m w) h.at k l }
