-- ===== src/Events.antt =====
-- common/events.ts: the search for an event in the receipt of a transaction.
--
-- The package chai, with the matchers that Hardhat adds, is the parameter `Chai`: whether two values
-- are equal. `expectEvents`, which only calls chai on a transaction, is not modelled.
pub mod Checking
pub mod Finding
pub mod First
use iceth_plugin.Prelude.{
  String, ◌≡◌, Bool, true, false, ◌||◌, Option, none, some, List, [], ◌∷◌, ◌++◌, str_eq,
  if◌then◌else◌,
}
use iceth_plugin.Errors.{Error, Result, ok, err, ◌>>=◌, ◌>>◌}
use iceth_plugin.Errors
use iceth_plugin.Dict.{Dict, get}
use iceth_plugin.Runtime.Contracts.{Value}

-- expect(a).to.equal(b) and expect(a).to.be.deep.equal(b)
pub record Chai : Type 0 where
  pub equal : Value → Value → Bool
  pub deep_equal : Value → Value → Bool

-- An event of a receipt; its name and its arguments may be undefined.
pub record Event : Type 0 where
  pub event : Option String
  pub args : Option (Dict Value)

-- A log that the interface of a contract has decoded.
pub record LogDescription : Type 0 where
  pub name : String
  pub args : Option (Dict Value)

pub record ContractReceipt (Log : Type 0) : Type 0 where
  pub events : Option (List Event)
  pub logs : List Log

abbrev pub is_big_number : Value → Bool
is_big_number (Value.number z) = true
is_big_number _ = false

abbrev pub expect : Bool → String → Result (Unit {0})
expect true message = ok tt
expect false message = err (Errors.assertion message)

abbrev pub is_named : String → Option String → Bool
is_named name none = false
is_named name (some n) = str_eq n name

abbrev pub first_exception : List Error → Error
first_exception [] = Errors.nothing
first_exception (x ∷ _) = x

abbrev pub found_or_throw : {A : Type 0} → Option A × List Error → Result A
found_or_throw (some e, exceptions) = ok e
found_or_throw (none, exceptions) = err (first_exception exceptions)

-- The event is taken if its test has passed; else the exception is kept and the search goes on.
abbrev try_next :
    {A : Type 0}
    → Result (Unit {0})
    → A
    → List Error
    → (List Error → Option A × List Error)
    → Option A × List Error
try_next (ok _) e exceptions rest = (some e, exceptions)
try_next (err x) e exceptions rest = rest (exceptions ++ (x ∷ []))

module _ (C : Chai) where
  abbrev pub contains_value : Value → String → Value → Result (Unit {0})
  contains_value actual key Value.null = expect (C.equal actual Value.null) key
  contains_value actual key value =
      if is_big_number actual || is_big_number value
      then expect (C.equal actual value) key
      else expect (C.deep_equal actual value) key

  abbrev contains_entry : Option Value → String → Value → Result (Unit {0})
  contains_entry none key value = err (Errors.assertion key)
  contains_entry (some actual) key value = contains_value actual key value

  unfoldable pub contains : Dict Value → String → Value → Result (Unit {0})
  unfolding get
  contains args key value = contains_entry (get key args) key value

  abbrev pub check_entry : Option (Dict Value) → String → Value → Result (Unit {0})
  check_entry none key value = err Errors.no_arguments
  check_entry (some args) key value = contains args key value

  -- The test of one event: what the loop over the entries throws, if it throws.
  unfoldable pub check_entries : Option (Dict Value) → Dict Value → Result (Unit {0})
  unfolding contains
  check_entries args [] = ok tt
  check_entries args ((key, value) ∷ entries) = do
    check_entry args key value
    check_entries args entries

  module _ {A : Type 0} (args_of : A → Option (Dict Value)) where
    -- events.find: the first that passes, and what was thrown before.
    unfoldable pub find : Dict Value → List A → List Error → Option A × List Error
    unfolding check_entries
    find entries [] exceptions = (none, exceptions)
    find entries (e ∷ events) exceptions =
        try_next (check_entries (args_of e) entries) e exceptions (find entries events)

    -- What both functions do with the events of the name.
    unfoldable pub expect_among : String → Dict Value → List A → Result A
    unfolding find
    expect_among name entries [] = err (Errors.assertion name)
    expect_among name entries (e ∷ events) = found_or_throw (find entries (e ∷ events) [])

abbrev pub filter_events : String → List Event → List Event
filter_events name [] = []
filter_events name (e ∷ events) =
    let rest = filter_events name events in if is_named name e.event then e ∷ rest else rest

abbrev pub filter_logs : String → List LogDescription → List LogDescription
filter_logs name [] = []
filter_logs name (e ∷ events) =
    let rest = filter_logs name events in if str_eq e.name name then e ∷ rest else rest

abbrev pub kept : Option LogDescription → List LogDescription → List LogDescription
kept none rest = rest
kept (some e) rest = e ∷ rest

abbrev expect_among_events : Chai → String → Dict Value → Option (List Event) → Result Event
expect_among_events C name entries none = err Errors.no_events
expect_among_events C name entries (some events) =
    expect_among C Event.args name entries (filter_events name events)

module _ {Log : Type 0} where
  -- The logs that the interface decodes; a log that it rejects is left out.
  abbrev pub decode : (Log → Option LogDescription) → List Log → List LogDescription
  decode parse [] = []
  decode parse (log ∷ logs) = kept (parse log) (decode parse logs)

  module _ (C : Chai) where
    unfoldable pub expect_in_receipt : ContractReceipt Log → String → Dict Value → Result Event
    unfolding expect_among
    expect_in_receipt receipt name entries = expect_among_events C name entries receipt.events

    unfoldable pub expect_in_indirect_receipt :
        ContractReceipt Log
        → (Log → Option LogDescription)
        → String
        → Dict Value
        → Result LogDescription
    unfolding expect_among
    expect_in_indirect_receipt receipt emitter name entries =
        expect_among C LogDescription.args name entries
          (filter_logs name (decode emitter receipt.logs))
