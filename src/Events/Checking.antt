-- ===== src/Events/Checking.antt =====
-- Which events of common/events.ts pass a test: read off chai and the arguments of the event.
use iceth_plugin.Prelude.{
  String, ◌≡◌, ◌⊎◌, inl, inr, refl, ap, Bool, true, false, Bool-cases, Option-cases, if◌then◌else◌,
  ◌||◌, ℤ, Option, none, some, [], ◌∷◌, ◌++◌, All,
}
use iceth_plugin.Errors.{Error, Result, ok, err}
use iceth_plugin.Errors
use iceth_plugin.Dict.{Dict, get}
use iceth_plugin.Runtime.Contracts.{Value}
use iceth_plugin.Events.{
  Chai, check_entry, check_entries, contains, contains_value, is_big_number, expect,
}

-- A number that was logged is compared by `equal`, any other value by `deep_equal`.
abbrev pub logged_equal : Chai → Value → Value → Bool
logged_equal C (Value.number z) wanted = C.equal (Value.number z) wanted
logged_equal C actual wanted = C.deep_equal actual wanted

-- Null and the numbers are compared by `equal`.
abbrev pub chai_equal : Chai → Value → Value → Bool
chai_equal C actual Value.null = C.equal actual Value.null
chai_equal C actual (Value.number z) = C.equal actual (Value.number z)
chai_equal C actual wanted = logged_equal C actual wanted

module _ (C : Chai) (args : Option (Dict Value)) where
  -- The event has arguments, and one of the key that is equal to the wanted value.
  abbrev pub EntryPasses : String × Value → Type 0
  EntryPasses (key, wanted) =
      (fields : Dict Value) × (actual : Value) × (args ≡ some fields)
      × (get key fields ≡ some actual)
      × (chai_equal C actual wanted ≡ true)

  -- The event has no arguments, none of the key, or one that is not equal to the wanted value.
  abbrev pub EntryFails : String × Value → Error → Type 0
  EntryFails (key, wanted) x =
      ((args ≡ none) × (x ≡ Errors.no_arguments))
      ⊎ ((fields : Dict Value) × (args ≡ some fields)
          × (x ≡ Errors.assertion key)
          × ((get key fields ≡ none)
              ⊎ ((actual : Value) × (get key fields ≡ some actual)
                  × (chai_equal C actual wanted ≡ false))))

  abbrev pub Passes : Dict Value → Type 0
  Passes entries = All EntryPasses entries

  -- The first entry that does not pass throws `x`.
  abbrev pub Fails : Dict Value → Error → Type 0
  Fails entries x =
      (before : Dict Value) × (entry : String × Value) × (after : Dict Value) × (entries
        ≡ before ++ (entry ∷ after))
      × Passes before
      × EntryFails entry x

logged-expect :
    (C : Chai) (actual : Value) (key : String) (wanted : Value)
    → is_big_number wanted ≡ false
    → (if is_big_number actual || is_big_number wanted
        then expect (C.equal actual wanted) key
        else expect (C.deep_equal actual wanted) key)
      ≡ expect (logged_equal C actual wanted) key
logged-expect C (Value.number z) key wanted h = refl
logged-expect C (Value.text t) key wanted h = rw h refl
logged-expect C (Value.flag b) key wanted h = rw h refl
logged-expect C (Value.implementations i) key wanted h = rw h refl
logged-expect C Value.null key wanted h = rw h refl
logged-expect C Value.empty key wanted h = rw h refl
logged-expect C Value.undefined key wanted h = rw h refl

number-expect :
    (C : Chai) (actual : Value) (key : String) (z : ℤ)
    → contains_value C actual key (Value.number z) ≡ expect (C.equal actual (Value.number z)) key
number-expect C (Value.number y) key z = refl
number-expect C (Value.text t) key z = refl
number-expect C (Value.flag b) key z = refl
number-expect C (Value.implementations i) key z = refl
number-expect C Value.null key z = refl
number-expect C Value.empty key z = refl
number-expect C Value.undefined key z = refl

contains_value-expect :
    (C : Chai) (actual : Value) (key : String) (wanted : Value)
    → contains_value C actual key wanted ≡ expect (chai_equal C actual wanted) key
contains_value-expect C actual key Value.null = refl
contains_value-expect C actual key (Value.number z) = number-expect C actual key z
contains_value-expect C actual key (Value.text t) = logged-expect C actual key (Value.text t) refl
contains_value-expect C actual key (Value.flag b) = logged-expect C actual key (Value.flag b) refl
contains_value-expect C actual key (Value.implementations i) =
    logged-expect C actual key (Value.implementations i) refl
contains_value-expect C actual key Value.empty = logged-expect C actual key Value.empty refl
contains_value-expect C actual key Value.undefined = logged-expect C actual key Value.undefined refl

module _ (C : Chai) where
  -- The test of one entry passes or throws.
  check_entry-cases :
      (args : Option (Dict Value)) (key : String) (wanted : Value)
      → ((check_entry C args key wanted ≡ ok tt) × EntryPasses C args (key, wanted))
        ⊎ ((x : Error) × (check_entry C args key wanted ≡ err x)
            × EntryFails C args (key, wanted) x)
  unfolding contains
  check_entry-cases none key wanted = inr (Errors.no_arguments, refl, inl (refl, refl))
  check_entry-cases (some fields) key wanted = elim (Option-cases (get key fields)) [
    | inl missing ↦
        inr (Errors.assertion key, rw missing refl, inr (fields, refl, refl, inl missing))
    | inr (actual, found) ↦ elim (Bool-cases (chai_equal C actual wanted)) [
      | inl same ↦ inl (
        (rw (found, contains_value-expect C actual key wanted, same) refl),
        (fields, actual, refl, found, same),
      )
      | inr other ↦ inr (
        Errors.assertion key,
        rw (found, contains_value-expect C actual key wanted, other) refl,
        inr (fields, refl, refl, inr (actual, found, other)),
      )
    ]
  ]

  -- The test of an event passes every entry, or throws what the first that does not pass throws.
  pub check_entries-cases :
      (args : Option (Dict Value)) (entries : Dict Value)
      → ((check_entries C args entries ≡ ok tt) × Passes C args entries)
        ⊎ ((x : Error) × (check_entries C args entries ≡ err x) × Fails C args entries x)
  unfolding check_entries
  check_entries-cases args [] = inl (refl, tt)
  check_entries-cases args ((key, wanted) ∷ entries) = elim (check_entry-cases args key wanted) [
    | inr (x, failed, why) ↦ inr (x, rw failed refl, ([], (key, wanted), entries, refl, tt, why))
    | inl (passed, why) ↦ elim (check_entries-cases args entries) [
      | inl (rest, whys) ↦ inl (rw passed rest, (why, whys))
      | inr (x, rest, (before, entry, after, split, firsts, failure)) ↦ inr (
        x,
        rw passed rest,
        (
          (key, wanted) ∷ before,
          entry,
          after,
          ap (λ l. (key, wanted) ∷ l) split,
          (why, firsts),
          failure,
        ),
      )
    ]
  ]
