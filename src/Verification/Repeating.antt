-- ===== src/Verification/Repeating.antt =====
-- verifyContract of scripts/deployment/utils.ts where it is run again, and where the verification fails.
use iceth_plugin.Prelude.{
  String, true, false, inl, inr, Bool-cases, ◌≡◌, refl, subst, ap, Option, none, some, List, [],
  ◌∷◌, ◌⊎◌,
}
use iceth_plugin.Errors.{ok, err, no_service, rejected}
use iceth_plugin.Runtime.{Hardhat, World, get_page, attempt}
use iceth_plugin.Runtime.Contracts.{Value}
use iceth_plugin.Runtime.Ensures.{Ensures}
use iceth_plugin.Runtime.Requests.{Verification, Page}
use iceth_plugin.Verification.{source_url, is_answer, verify_contract}
use iceth_plugin.Verification.Keeping.{attempt-world}

-- After a run of verify:verify that was not rejected, the service knows the source.
pub record IsRemembering (H : Hardhat) : Type 0 where
  pub remembers :
      (id : String) (request : Verification) (l : List Verification) (page : Page)
      → H.verify request ≡ true
      → H.get_page (request ∷ l) (source_url H id request.address) ≡ some page
      → page.has_source ≡ true

-- What is asked of verify:verify.
abbrev pub request_of : Value → List Value → String → Verification
request_of address l contract = record {
  address = address;
  constructor_arguments = l;
  contract = contract;
  libraries = [];
}

module _ {H : Hardhat} (id : String) (address : Value) (l : List Value) (contract : String) where
  -- Where the service answers that it does not know the source, a run follows, and its end is ignored.
  verify_contract-run :
      (w : World H) (page : Page)
      → H.get_page w.verifications (source_url H id address) ≡ some page
      → is_answer page ≡ true
      → page.has_source ≡ false
      → verify_contract id address l contract w
        ≡ (ok tt, record w { verifications = (request_of address l contract) ∷ w.verifications })
  unfolding verify_contract get_page attempt
  verify_contract-run w page e answered unknown =
      rw (e, answered, unknown)
        (ap (λ (u : World H). (ok tt, u)) (attempt-world (request_of address l contract) w))

  verify_contract-known :
      (w : World H) (page : Page)
      → H.get_page w.verifications (source_url H id address) ≡ some page
      → is_answer page ≡ true
      → page.has_source ≡ true
      → verify_contract id address l contract w ≡ (ok tt, w)
  unfolding verify_contract get_page
  verify_contract-known w page e answered known = rw (e, answered, known)

  verify_contract-silent :
      (w : World H) (page : Page)
      → H.get_page w.verifications (source_url H id address) ≡ some page
      → is_answer page ≡ false
      → verify_contract id address l contract w ≡ (err no_service, w)
  unfolding verify_contract get_page
  verify_contract-silent w page e silent = rw (e, silent)

  verify_contract-none :
      (w : World H)
      → H.get_page w.verifications (source_url H id address) ≡ none
      → verify_contract id address l contract w ≡ (err (rejected "axios.get"), w)
  unfolding verify_contract get_page
  verify_contract-none w e = rw e refl

  verify_contract-rejected :
      (w : World H)
      → H.get_page w.verifications (source_url H id address) ≡ none
      → (verify_contract id address l contract w).1 ≡ w
  unfolding verify_contract get_page
  verify_contract-rejected w e = rw e

  -- Where the service does not say that it does not know the source, no run follows.
  verify_contract-still :
      (w : World H) (o : Option Page)
      → H.get_page w.verifications (source_url H id address) ≡ o
      → ((page : Page) → o ≡ some page → page.has_source ≡ true)
      → (verify_contract id address l contract w).1 ≡ w
  verify_contract-still w none e known = verify_contract-rejected w e
  verify_contract-still w (some page) e known = elim (Bool-cases (is_answer page)) [
    | inl answered ↦ ap (λ o. o.1) (verify_contract-known w page e answered (known page refl))
    | inr silent ↦ ap (λ o. o.1) (verify_contract-silent w page e silent)
  ]

  -- Either nothing is run, or this request.
  pub verify_contract-Ends :
      (w : World H)
      → Ensures w
          (verify_contract id address l contract)
          (λ _ w'.
            (w' ≡ w)
            ⊎ (w' ≡ record w { verifications = (request_of address l contract) ∷ w.verifications }))
          (λ w'. w' ≡ w)
  verify_contract-Ends w = ends (H.get_page w.verifications (source_url H id address)) refl
    where
      ends :
          (o : Option Page)
          → H.get_page w.verifications (source_url H id address) ≡ o
          → Ensures w
              (verify_contract id address l contract)
              (λ _ w'.
                (w' ≡ w)
                ⊎ (w' ≡ record w {
                  verifications = (request_of address l contract) ∷ w.verifications;
                }))
              (λ w'. w' ≡ w)
      ends none e = record { at = rw (verify_contract-none w e) refl }
      ends (some page) e = elim (Bool-cases (is_answer page)) [
        | inr silent ↦ record { at = rw (verify_contract-silent w page e silent) refl }
        | inl answered ↦ elim (Bool-cases page.has_source) [
          | inl known ↦ record {
            at = rw (verify_contract-known w page e answered known) (inl refl);
          }
          | inr unknown ↦ record {
            at = rw (verify_contract-run w page e answered unknown) (inr refl);
          }
        ]
      ]

  -- If the service answers with status 200 and 1, verifyContract returns, also where verify:verify
  -- is rejected.
  pub verify_contract-continues :
      (w : World H) (page : Page)
      → H.get_page w.verifications (source_url H id address) ≡ some page
      → is_answer page ≡ true
      → (verify_contract id address l contract w).0 ≡ ok tt
  verify_contract-continues w page e answered = elim (Bool-cases page.has_source) [
    | inl known ↦ ap (λ o. o.0) (verify_contract-known w page e answered known)
    | inr unknown ↦ ap (λ o. o.0) (verify_contract-run w page e answered unknown)
  ]

  after_run :
      IsRemembering H
      → H.verify (request_of address l contract) ≡ true
      → (w w' : World H)
      → w' ≡ record w { verifications = (request_of address l contract) ∷ w.verifications }
      → (verify_contract id address l contract w').1 ≡ w'
  after_run R accepted w w' same =
      verify_contract-still w' (H.get_page w'.verifications (source_url H id address)) refl
        λ page e. R.remembers id (request_of address l contract) w.verifications page accepted (
          subst (λ (u : World H). H.get_page u.verifications (source_url H id address) ≡ some page)
            same e)

  twice :
      IsRemembering H
      → H.verify (request_of address l contract) ≡ true
      → (w : World H) (o : Option Page) → H.get_page w.verifications (source_url H id address) ≡ o
      → (verify_contract id address l contract (verify_contract id address l contract w).1).1
        ≡ (verify_contract id address l contract w).1
  twice R accepted w none e =
      ap (λ u. (verify_contract id address l contract u).1) (verify_contract-rejected w e)
  twice R accepted w (some page) e = elim (Bool-cases (is_answer page)) [
    | inr silent ↦
        ap (λ u. (verify_contract id address l contract u).1)
          (ap (λ o. o.1) (verify_contract-silent w page e silent))
    | inl answered ↦ elim (Bool-cases page.has_source) [
      | inl known ↦
          ap (λ u. (verify_contract id address l contract u).1)
            (ap (λ o. o.1) (verify_contract-known w page e answered known))
      | inr unknown ↦
          after_run R accepted w (verify_contract id address l contract w).1
            (ap (λ o. o.1) (verify_contract-run w page e answered unknown))
    ]
  ]

  -- If the service knows the source of an address after a run of verify:verify for it that was
  -- accepted, and the run for these arguments is accepted, then verifyContract run twice leaves the
  -- same world as run once.
  pub verify_contract-twice :
      IsRemembering H
      → H.verify (request_of address l contract) ≡ true
      → (w : World H)
      → (verify_contract id address l contract (verify_contract id address l contract w).1).1
        ≡ (verify_contract id address l contract w).1
  verify_contract-twice R accepted w =
      twice R accepted w (H.get_page w.verifications (source_url H id address)) refl
