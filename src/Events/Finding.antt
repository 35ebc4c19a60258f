-- ===== src/Events/Finding.antt =====
-- Which event the functions of common/events.ts return, and what they throw.
use iceth_plugin.Prelude.{
  String, ◌≡◌, ◌⊎◌, inl, inr, refl, ap, Bool-cases, Option, none, some, List, [], ◌∷◌, ◌++◌, All,
  arith, eq_iff, str_eq, Option-cases,
}
use iceth_plugin.Errors.{Error, Result, ok, err}
use iceth_plugin.Errors
use iceth_plugin.Dict.{Dict}
use iceth_plugin.Runtime.Contracts.{Value}
use iceth_plugin.Events.{
  Chai, Event, LogDescription, ContractReceipt, find, expect_among, filter_events, filter_logs,
  decode, expect_in_receipt, expect_in_indirect_receipt, first_exception, found_or_throw,
}
use iceth_plugin.Events.Checking.{Passes, Fails, check_entries-cases}

-- The second list has, in the order of the first, what `read` makes of an item and `named` holds of.
pub data Selected {L R : Type 0} (read : L → Option R) (named : R → Type 0)
    : List L → List R → Type 0 where
  all_read : Selected read named [] []
  unread :
      {l : L} {ls : List L} {rs : List R}
      → read l ≡ none
      → Selected read named ls rs
      → Selected read named (l ∷ ls) rs
  other :
      {l : L} {r : R} {ls : List L} {rs : List R}
      → read l ≡ some r
      → ¬ named r
      → Selected read named ls rs
      → Selected read named (l ∷ ls) rs
  taken :
      {l : L} {r : R} {ls : List L} {rs : List R}
      → read l ≡ some r
      → named r
      → Selected read named ls rs
      → Selected read named (l ∷ ls) (r ∷ rs)

-- The event that is found: it passes, and every one before it does not.
abbrev pub IsFirstMatch :
    {A : Type 0} → Chai → (A → Option (Dict Value)) → Dict Value → List A → A → Type 0
IsFirstMatch {A} C args_of entries events e =
    (before : List A) × (after : List A) × (events ≡ before ++ (e ∷ after))
    × All (λ b. (x : Error) × Fails C (args_of b) entries x) before
    × Passes C (args_of e) entries

-- No event passes, and the first one throws `x`.
abbrev pub AllFail :
    {A : Type 0} → Chai → (A → Option (Dict Value)) → Dict Value → List A → Error → Type 0
AllFail C args_of entries [] x = ⊥
AllFail C args_of entries (e ∷ events) x =
    Fails C (args_of e) entries x × All (λ b. (y : Error) × Fails C (args_of b) entries y) events

-- No event, with the assertion about the name; else the first that passes, or the exception of the
-- first where none does.
abbrev pub IsSearch :
    {A : Type 0}
    → Chai
    → (A → Option (Dict Value))
    → String
    → Dict Value
    → List A
    → Result A
    → Type 0
IsSearch C args_of name entries events (ok e) = IsFirstMatch C args_of entries events e
IsSearch C args_of name entries events (err x) =
    ((events ≡ []) × (x ≡ Errors.assertion name)) ⊎ AllFail C args_of entries events x

module _ {A : Type 0} (C : Chai) (args_of : A → Option (Dict Value)) (entries : Dict Value) where
  abbrev IsFailed : A → Type 0
  IsFailed b = (x : Error) × Fails C (args_of b) entries x

  -- What `find` has found, where `x` was thrown before.
  abbrev Finds : List A → Error → Option A × List Error → Type 0
  Finds events x (some e, after) = IsFirstMatch C args_of entries events e
  Finds events x (none, after) = All IsFailed events × (first_exception after ≡ x)

  Finds-skip :
      (b : A) (events : List A) (x : Error) (o : Option A × List Error)
      → IsFailed b
      → Finds events x o
      → Finds (b ∷ events) x o
  Finds-skip b events x (some e, after) h (before, rest, split, failed, passed) =
      (b ∷ before, rest, ap (λ l. b ∷ l) split, (h, failed), passed)
  Finds-skip b events x (none, after) h (failed, first) = ((h, failed), first)

  find-Finds :
      (events : List A) (x : Error) (xs : List Error)
      → Finds events x (find C args_of entries events (x ∷ xs))
  unfolding find
  find-Finds [] x xs = (tt, refl)
  find-Finds (e ∷ events) x xs = elim (check_entries-cases C (args_of e) entries) [
    | inl (passed, why) ↦ rw passed ([], events, refl, tt, why)
    | inr (y, failed, why) ↦ rw failed (
        Finds-skip e events x (find C args_of entries events (x ∷ (xs ++ (y ∷ [])))) (y, why)
          (find-Finds events x (xs ++ (y ∷ []))))
  ]

  -- After the first event has failed.
  IsSearch-later :
      (name : String) (e : A) (events : List A) (x : Error) (o : Option A × List Error)
      → Fails C (args_of e) entries x
      → Finds events x o
      → IsSearch C args_of name entries (e ∷ events) (found_or_throw o)
  IsSearch-later name e events x (some found, after) h k =
      (Finds-skip e events x (some found, after) (x, h) k)
  IsSearch-later name e events x (none, after) h (failed, first) = inr (rw first h, failed)

  expect_among-IsSearch :
      (name : String) (events : List A)
      → IsSearch C args_of name entries events (expect_among C args_of name entries events)
  unfolding expect_among find
  expect_among-IsSearch name [] = inl (refl, refl)
  expect_among-IsSearch name (e ∷ events) = elim (check_entries-cases C (args_of e) entries) [
    | inl (passed, why) ↦ rw passed ([], events, refl, tt, why)
    | inr (x, failed, why) ↦ rw failed (
        IsSearch-later name e events x (find C args_of entries events (x ∷ [])) why
          (find-Finds events x []))
  ]

filter_events-Selected :
    (name : String) (events : List Event)
    → Selected some (λ e. e.event ≡ some name) events (filter_events name events)
filter_events-Selected name [] = all_read
filter_events-Selected name (e ∷ events) = elim (Option-cases e.event) [
  | inl unnamed ↦
      rw unnamed (other refl (λ h. absurd (ground (arith))) (filter_events-Selected name events))
  | inr (n, called) ↦ elim (Bool-cases (str_eq n name)) [
    | inl same ↦
        rw (called, same)
          (taken refl (ground (arith, eq_iff n name)) (filter_events-Selected name events))
    | inr different ↦
        rw (called, different)
          (other refl (λ h. absurd (ground (arith, eq_iff n name)))
            (filter_events-Selected name events))
  ]
]

decode-Selected :
    {Log : Type 0} (parse : Log → Option LogDescription) (name : String) (logs : List Log)
    → Selected parse (λ d. d.name ≡ name) logs (filter_logs name (decode parse logs))
decode-Selected parse name [] = all_read
decode-Selected parse name (log ∷ logs) = elim (Option-cases (parse log)) [
  | inl rejected' ↦ rw rejected' (unread rejected' (decode-Selected parse name logs))
  | inr (d, read) ↦ elim (Bool-cases (str_eq d.name name)) [
    | inl same ↦
        rw (read, same)
          (taken read (ground (arith, eq_iff d.name name)) (decode-Selected parse name logs))
    | inr different ↦
        rw (read, different)
          (other read (λ h. absurd (ground (arith, eq_iff d.name name)))
            (decode-Selected parse name logs))
  ]
]

-- If the receipt has events, there is a list of exactly those of the name, in their order, and of
-- it expectInReceipt returns the first whose arguments have, for every wanted key, a value that
-- chai finds equal (by equal for null and numbers, by deep equal otherwise), each earlier one
-- having failed an entry; with none of the name it throws the assertion about the name, and where
-- none passes, what the first one's first failing entry throws.
pub expect_in_receipt-IsSearch :
    {Log : Type 0} (C : Chai) (receipt : ContractReceipt Log) (name : String) (entries : Dict Value)
    (events : List Event)
    → receipt.events ≡ some events
    → (of_name : List Event) × Selected some (λ e. e.event ≡ some name) events of_name
      × IsSearch C Event.args name entries of_name (expect_in_receipt C receipt name entries)
unfolding expect_in_receipt
expect_in_receipt-IsSearch C receipt name entries events e = (
  filter_events name events,
  filter_events-Selected name events,
  rw e (expect_among-IsSearch C Event.args entries name (filter_events name events)),
)

-- There is a list of exactly what the emitter makes of the logs that it decodes to the name, in
-- their order, and of it expectInIndirectReceipt returns the first whose arguments have, for every
-- wanted key, a value that chai finds equal (by equal for null and numbers, by deep equal
-- otherwise), each earlier one having failed an entry; with none of the name it throws the
-- assertion about the name, and where none passes, what the first one's first failing entry throws.
pub expect_in_indirect_receipt-IsSearch :
    {Log : Type 0} (C : Chai) (receipt : ContractReceipt Log)
    (emitter : Log → Option LogDescription) (name : String) (entries : Dict Value)
    → (of_name : List LogDescription) × Selected emitter (λ d. d.name ≡ name) receipt.logs of_name
      × IsSearch C LogDescription.args name entries of_name
          (expect_in_indirect_receipt C receipt emitter name entries)
unfolding expect_in_indirect_receipt
expect_in_indirect_receipt-IsSearch C receipt emitter name entries = (
  filter_logs name (decode emitter receipt.logs),
  decode-Selected emitter name receipt.logs,
  expect_among-IsSearch C LogDescription.args entries name
      (filter_logs name (decode emitter receipt.logs)),
)
