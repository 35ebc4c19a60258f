-- ===== src/Runtime/Ensures.antt =====
-- What a script establishes when it returns and when it throws, with a rule for each way to go on.
use iceth_plugin.Prelude.{
  arith, String, ◌≡◌, refl, ap, sym, ◌∙◌, subst, Option, none, some, List, [], ◌∷◌,
}
use iceth_plugin.Errors.{Error, Result, ok, err}
use iceth_plugin.Runtime.{
  Hardhat, World, Script, pure, throw, lift, continue, answer, ◌>>=◌, get_signer, task_param,
  view_number, view_text, view_at, view_flag, view_price, wallet_number, first,
}
use iceth_plugin.Runtime.Contracts.{Value}

abbrev pub Outcome :
    {H : Hardhat} {A : Type 0}
    → (A → World H → Type 0)
    → (World H → Type 0)
    → Result A × World H
    → Type 0
Outcome Q R (ok a, w) = Q a w
Outcome Q R (err e, w) = R w

-- Run from `w`, the script returns with `Q` or throws with `R`.
pub record Ensures {H : Hardhat} {A : Type 0} (w : World H) (m : Script H A)
    (Q : A → World H → Type 0) (R : World H → Type 0) : Type 0 where
  pub at : Outcome Q R (m w)

-- The script changes neither the network nor a file.
pub record IsReadOnly {H : Hardhat} {A : Type 0} (m : Script H A) : Type 0 where
  pub same : (w : World H) → (m w).1 ≡ w

module _ {H : Hardhat} {A : Type 0} {Q : A → World H → Type 0} {R : World H → Type 0} where
  pub Ensures-pure : (w : World H) (a : A) → Q a w → Ensures w (pure a) Q R
  Ensures-pure w a q = record { at = q }

  pub Ensures-throw : (w : World H) (e : Error) → R w → Ensures w (throw e) Q R
  Ensures-throw w e r = record { at = r }

module _ {H : Hardhat} {A : Type 0} where
  Outcome-trivial : (o : Result A × World H) → Outcome (λ _ _. Unit {0}) (λ _. Unit {0}) o
  Outcome-trivial (ok a, w) = tt
  Outcome-trivial (err e, w) = tt

  pub Ensures-trivial :
      (w : World H) (m : Script H A) → Ensures w m (λ _ _. Unit {0}) (λ _. Unit {0})
  Ensures-trivial w m = record { at = Outcome-trivial (m w) }

module _ {H : Hardhat} {A B : Type 0} (Q : B → World H → Type 0) (R : World H → Type 0) where
  Outcome-continue :
      (f : A → Script H B) (o : Result A × World H)
      → Outcome (λ a w. Ensures w (f a) Q R) R o
      → Outcome Q R (continue f o.0 o.1)
  Outcome-continue f (ok a, w) h = h.at
  Outcome-continue f (err e, w) h = h

  Outcome-read :
      (w : World H) (f : A → Script H B) (o : Result A × World H)
      → o.1 ≡ w
      → R w
      → ((a : A) → o ≡ (ok a, w) → Ensures w (f a) Q R)
      → Outcome Q R (continue f o.0 o.1)
  Outcome-read w f (ok a, v) e r h =
      (subst (λ (u : World H). Ensures u (f a) Q R) (sym e) (h a (ap (λ u. (ok a, u)) e))).at
  Outcome-read w f (err x, v) e r h = subst R (sym e) r

  Outcome-weaken :
      (P : A → World H → Type 0) (f : A → Script H B) (o : Result A × World H)
      → Outcome P R o
      → ((a : A) (w' : World H) → P a w' → Ensures w' (f a) Q R)
      → Outcome Q R (continue f o.0 o.1)
  Outcome-weaken P f (ok a, w') h k = (k a w' h).at
  Outcome-weaken P f (err e, w') h k = h

module _ {H : Hardhat} {A B : Type 0} {Q : B → World H → Type 0} {R : World H → Type 0} where
  pub Ensures-bind :
      (w : World H) (m : Script H A) (f : A → Script H B)
      → Ensures w m (λ a w'. Ensures w' (f a) Q R) R
      → Ensures w (m >>= f) Q R
  Ensures-bind w m f h = record { at = Outcome-continue Q R f (m w) h.at }

  -- The rest of a script goes by what its first part establishes.
  pub Ensures-then :
      (w : World H) (m : Script H A) (f : A → Script H B) (P : A → World H → Type 0)
      → Ensures w m P R
      → ((a : A) (w' : World H) → P a w' → Ensures w' (f a) Q R)
      → Ensures w (m >>= f) Q R
  Ensures-then w m f P h k = record { at = Outcome-weaken Q R P f (m w) h.at k }

  -- A step that only reads leaves the world in which the rest runs.
  pub Ensures-read :
      (w : World H) {m : Script H A} (f : A → Script H B)
      → IsReadOnly m
      → R w
      → ((a : A) → m w ≡ (ok a, w) → Ensures w (f a) Q R)
      → Ensures w (m >>= f) Q R
  Ensures-read w {m} f k r h = record { at = Outcome-read Q R w f (m w) (k.same w) r h }

module _ {H : Hardhat} where
  continue-read :
      {A B : Type 0} (w : World H) (f : A → Script H B) (o : Result A × World H)
      → o.1 ≡ w
      → ((a : A) → IsReadOnly (f a))
      → (continue f o.0 o.1).1 ≡ w
  continue-read w f (ok a, v) e k = (k a).same v ∙ e
  continue-read w f (err x, v) e k = e

  pub IsReadOnly-bind :
      {A B : Type 0} (m : Script H A) (f : A → Script H B)
      → IsReadOnly m
      → ((a : A) → IsReadOnly (f a))
      → IsReadOnly (m >>= f)
  IsReadOnly-bind m f k l = record { same = λ w. continue-read w f (m w) (k.same w) l }

  pub IsReadOnly-pure : {A : Type 0} (a : A) → IsReadOnly (pure {H = H} a)
  IsReadOnly-pure a = record { same = λ w. refl }

  pub IsReadOnly-throw : {A : Type 0} (e : Error) → IsReadOnly (throw {H = H} {A = A} e)
  IsReadOnly-throw e = record { same = λ w. refl }

  pub IsReadOnly-lift : {A : Type 0} (r : Result A) → IsReadOnly (lift {H = H} r)
  IsReadOnly-lift r = record { same = λ w. refl }

  pub IsReadOnly-answer : {A : Type 0} (s : String) (o : Option A) → IsReadOnly (answer {H = H} s o)
  IsReadOnly-answer s none = record { same = λ w. refl }
  IsReadOnly-answer s (some a) = record { same = λ w. refl }

  IsReadOnly-first : (l : List String) → IsReadOnly (first {H = H} l)
  IsReadOnly-first [] = record { same = λ w. refl }
  IsReadOnly-first (a ∷ l) = record { same = λ w. refl }

  pub IsReadOnly-get_signer : IsReadOnly (get_signer {H = H})
  unfolding get_signer
  IsReadOnly-get_signer = IsReadOnly-first H.signers

  pub IsReadOnly-view_number : (a : Value) (m : String) → IsReadOnly (view_number {H = H} a m)
  unfolding view_number
  IsReadOnly-view_number a m = record {
    same = λ w. (IsReadOnly-answer m (H.view_number w.chain a m)).same w;
  }

  pub IsReadOnly-view_text : (a : Value) (m : String) → IsReadOnly (view_text {H = H} a m)
  unfolding view_text
  IsReadOnly-view_text a m = record {
    same = λ w. (IsReadOnly-answer m (H.view_text w.chain a m)).same w;
  }

  pub IsReadOnly-view_at : (a : Value) (m : String) (b : Value) → IsReadOnly (view_at {H = H} a m b)
  unfolding view_at
  IsReadOnly-view_at a m b = record {
    same = λ w. (IsReadOnly-answer m (H.view_at w.chain a m b)).same w;
  }

  pub IsReadOnly-view_flag : (a : Value) (m : String) → IsReadOnly (view_flag {H = H} a m)
  unfolding view_flag
  IsReadOnly-view_flag a m = record {
    same = λ w. (IsReadOnly-answer m (H.view_flag w.chain a m)).same w;
  }

  pub IsReadOnly-view_price : (a : Value) → IsReadOnly (view_price {H = H} a)
  unfolding view_price
  IsReadOnly-view_price a = record {
    same = λ w. (IsReadOnly-answer "price" (H.view_price w.chain a)).same w;
  }

  pub IsReadOnly-wallet_number : (a m : String) → IsReadOnly (wallet_number {H = H} a m)
  unfolding wallet_number
  IsReadOnly-wallet_number a m = record {
    same = λ w. (IsReadOnly-answer m (H.wallet_number w.chain a m)).same w;
  }

  pub IsReadOnly-task_param : (s : String) (o : Value) → IsReadOnly (task_param {H = H} s o)
  unfolding task_param
  IsReadOnly-task_param s o = IsReadOnly-answer s (H.task_param o)

module _ {H : Hardhat} {A : Type 0} {P Q : A → World H → Type 0} where
  Outcome-mono :
      (R : World H → Type 0) (o : Result A × World H)
      → Outcome P R o
      → ((a : A) (w' : World H) → P a w' → Q a w')
      → Outcome Q R o
  Outcome-mono R (ok a, w') h k = k a w' h
  Outcome-mono R (err e, w') h k = h

  pub Ensures-weaken :
      {R : World H → Type 0} (w : World H) (m : Script H A)
      → Ensures w m P R
      → ((a : A) (w' : World H) → P a w' → Q a w')
      → Ensures w m Q R
  Ensures-weaken {R} w m h k = record { at = Outcome-mono R (m w) h.at k }

module _ {H : Hardhat} {A B : Type 0} where
  returned-continue :
      (w w' : World H) (b : B) (f : A → Script H B) (o : Result A × World H)
      → o.1 ≡ w
      → continue f o.0 o.1 ≡ (ok b, w')
      → (a : A) × (o ≡ (ok a, w)) × (f a w ≡ (ok b, w'))
  returned-continue w w' b f (ok a, v) e h =
      (a, ap (λ u. (ok a, u)) e, subst (λ u. f a u ≡ (ok b, w')) e h)
  returned-continue w w' b f (err x, v) e h = absurd (ground arith)

  -- Where a script returns, the step it begins with did.
  pub returned :
      (w : World H) {m : Script H A} (f : A → Script H B) (b : B) (w' : World H)
      → IsReadOnly m
      → (m >>= f) w ≡ (ok b, w')
      → (a : A) × (m w ≡ (ok a, w)) × (f a w ≡ (ok b, w'))
  returned w {m} f b w' k h = returned-continue w w' b f (m w) (k.same w) h

pub ruleset reading = (
  IsReadOnly-bind, IsReadOnly-pure, IsReadOnly-throw, IsReadOnly-lift, IsReadOnly-answer,
  IsReadOnly-get_signer, IsReadOnly-view_number, IsReadOnly-view_text, IsReadOnly-task_param,
  IsReadOnly-view_at, IsReadOnly-view_flag, IsReadOnly-view_price, IsReadOnly-wallet_number,
)
