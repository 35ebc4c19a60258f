-- ===== src/Events/First.antt =====
-- The searches of common/events.ts with no wanted entry.
use iceth_plugin.Prelude.{
  String, ◌≡◌, inl, inr, Option, Option-cases, some, List, [], ◌∷◌, ◌++◌, arith, subst,
}
use iceth_plugin.Errors.{Error, ok}
use iceth_plugin.Dict.{Dict}
use iceth_plugin.Runtime.Contracts.{Value}
use iceth_plugin.Events.{
  Chai, Event, LogDescription, ContractReceipt, expect_in_receipt, expect_in_indirect_receipt,
}
use iceth_plugin.Events.Finding.{
  Selected, IsSearch, IsFirstMatch, expect_in_receipt-IsSearch, expect_in_indirect_receipt-IsSearch,
}

no-Fails :
    (C : Chai) (args : Option (Dict Value)) (x : Error) (before after : Dict Value)
    (entry : String × Value)
    → [] ≡ before ++ (entry ∷ after)
    → ⊥
no-Fails C args x [] after entry e = absurd (ground arith)
no-Fails C args x (b ∷ before) after entry e = absurd (ground arith)

-- With no wanted entry the first event of the name is found.
IsFirstMatch-first :
    {A : Type 0} (C : Chai) (args_of : A → Option (Dict Value)) (events : List A) (e : A)
    → IsFirstMatch C args_of [] events e
    → (rest : List A) × (events ≡ e ∷ rest)
IsFirstMatch-first C args_of events e ([], after, split, fails, passes) = (after, split)
IsFirstMatch-first C args_of events e (b ∷ before, after, split, fails, passes) =
    let (x, (firsts, entry, later, split', _, _)) = fails.0 in
    absurd (no-Fails C (args_of b) x firsts later entry split')

pub first-indirect :
    {Log : Type 0} (C : Chai) (receipt : ContractReceipt Log)
    (emitter : Log → Option LogDescription) (name : String) (event : LogDescription)
    → expect_in_indirect_receipt C receipt emitter name [] ≡ ok event
    → (rest : List LogDescription) × Selected emitter
        (λ l. l.name ≡ name)
        receipt.logs
        (event ∷ rest)
first-indirect C receipt emitter name event e =
    let (of_name, all, search') = expect_in_indirect_receipt-IsSearch C receipt emitter name [] in
    let (rest, split) =
      IsFirstMatch-first C LogDescription.args of_name event
        (subst (IsSearch C LogDescription.args name [] of_name) e search') in
    (rest, subst (λ l. Selected emitter (λ l. l.name ≡ name) receipt.logs l) split all)

pub first-direct :
    {Log : Type 0} (C : Chai) (receipt : ContractReceipt Log) (name : String) (events : List Event)
    (event : Event)
    → receipt.events ≡ some events
    → expect_in_receipt C receipt name [] ≡ ok event
    → (rest : List Event) × Selected some (λ e. e.event ≡ some name) events (event ∷ rest)
first-direct C receipt name events event there e =
    let (of_name, all, search') = expect_in_receipt-IsSearch C receipt name [] events there in
    let (rest, split) =
      IsFirstMatch-first C Event.args of_name event
        (subst (IsSearch C Event.args name [] of_name) e search') in
    (rest, subst (λ l. Selected some (λ e. e.event ≡ some name) events l) split all)

pub has_events :
    {Log : Type 0} (C : Chai) (receipt : ContractReceipt Log) (name : String) (event : Event)
    → expect_in_receipt C receipt name [] ≡ ok event
    → (events : List Event) × (receipt.events ≡ some events)
unfolding expect_in_receipt
has_events C receipt name event e = elim (Option-cases receipt.events) [
  | inl missing ↦ absurd (ground arith)
  | inr found ↦ found
]
