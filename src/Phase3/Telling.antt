-- ===== src/Phase3/Telling.antt =====
-- What the events of 1_deploy_rtoken.ts and 2_deploy_governance.ts tell, and what is recorded of it.
use iceth_plugin.Prelude.{String, ◌≡◌, refl, Option, none, some, List, [], ◌∷◌, arith, sym, subst}
use iceth_plugin.Errors.{ok}
use iceth_plugin.Dict.{Dict, get}
use iceth_plugin.Events.{
  Event, LogDescription, expect_in_receipt, expect_in_indirect_receipt, ContractReceipt,
}
use iceth_plugin.Events.First.{first-indirect, first-direct, has_events}
use iceth_plugin.Events.Finding.{Selected}
use iceth_plugin.Runtime.{Hardhat, World, lift}
use iceth_plugin.Runtime.Contracts.{IrTokenDeployments, Value}
use iceth_plugin.Phase3.Scripts.{text_of, argument, address_of}
use iceth_plugin.Phase3.Recording.{RecordsComponents, lift-ok}

-- The text that an argument of an event is; an empty one if it is no text.
abbrev pub Names : Option Value → String → Type 0
Names (some (Value.text a)) t = t ≡ a
Names o t = t ≡ ""

Names-text_of : (o : Option Value) → Names o (text_of o)
Names-text_of none = refl
Names-text_of (some (Value.text a)) = refl
Names-text_of (some (Value.number z)) = refl
Names-text_of (some (Value.flag b)) = refl
Names-text_of (some (Value.implementations i)) = refl
Names-text_of (some Value.null) = refl
Names-text_of (some Value.empty) = refl
Names-text_of (some Value.undefined) = refl

-- The record has the Main that the first RTokenCreated of the Deployer names, and its components.
abbrev pub TellsMain :
    (H : Hardhat)
    → H.Chain
    → ContractReceipt H.Log
    → IrTokenDeployments
    → IrTokenDeployments
    → Type 0
TellsMain H c receipt d d' =
    (event : LogDescription) × (args : Dict Value) × (rest : List LogDescription) × Selected
      (H.parse_log "DeployerP1") (λ l. l.name ≡ "RTokenCreated") receipt.logs (event ∷ rest)
    × (event.args ≡ some args)
    × (get "main" args ≡ some (Value.text d'.main))
    × RecordsComponents H c d'

-- The record has the governance and the timelock that the first GovernanceCreated names.
abbrev pub TellsGovernance :
    (H : Hardhat)
    → H.Chain
    → ContractReceipt H.Log
    → IrTokenDeployments
    → IrTokenDeployments
    → Type 0
TellsGovernance H c receipt d d' =
    (events : List Event) × (event : Event) × (args : Dict Value) × (rest : List Event)
    × (receipt.events ≡ some events)
    × Selected some (λ e. e.event ≡ some "GovernanceCreated") events (event ∷ rest)
    × (event.args ≡ some args)
    × Names (get "governance" args) d'.governance
    × Names (get "timelock" args) d'.timelock

argument-given :
    (key : String) (args : Option (Dict Value)) (value : Option Value)
    → argument key args ≡ ok value
    → (fields : Dict Value) × (args ≡ some fields)
argument-given key none value e = absurd (ground arith)
argument-given key (some fields) value e = (fields, refl)

argument-get :
    (key : String) (args : Option (Dict Value)) (fields : Dict Value) (value : Option Value)
    → args ≡ some fields
    → argument key args ≡ ok value
    → get key fields ≡ value
argument-get key none fields value given e = absurd (ground arith)
argument-get key (some others) fields value given e = ground arith

Names-argument :
    (key : String) (args : Option (Dict Value)) (fields : Dict Value) (value : Option Value)
    → args ≡ some fields
    → argument key args ≡ ok value
    → Names (get key fields) (text_of value)
Names-argument key args fields value given e =
    subst (λ o. Names o (text_of value)) (sym (argument-get key args fields value given e))
      (Names-text_of value)

main-given :
    (key : String) (args : Option (Dict Value)) (fields : Dict Value) (value : Option Value)
    (main recorded : String)
    → args ≡ some fields
    → argument key args ≡ ok value
    → value ≡ some (Value.text main)
    → recorded ≡ main
    → get key fields ≡ some (Value.text recorded)
main-given key args fields value main recorded given e named same =
    let found = argument-get key args fields value given e in cc

address_of-given :
    {H : Hardhat} (o : Option Value) (a : String) (w : World H)
    → address_of o w ≡ (ok a, w)
    → o ≡ some (Value.text a)
address_of-given (some (Value.text b)) a w e = ground arith
address_of-given none a w e = absurd (ground arith)
address_of-given (some (Value.number z)) a w e = absurd (ground arith)
address_of-given (some (Value.flag b)) a w e = absurd (ground arith)
address_of-given (some (Value.implementations i)) a w e = absurd (ground arith)
address_of-given (some Value.null) a w e = absurd (ground arith)
address_of-given (some Value.empty) a w e = absurd (ground arith)
address_of-given (some Value.undefined) a w e = absurd (ground arith)

module _ {H : Hardhat} (w : World H) (receipt : ContractReceipt H.Log)
    (d : IrTokenDeployments) where
  pub TellsGovernance-told :
      (event : Event) (governance timelock : Option Value)
      → lift {H = H} (expect_in_receipt H.chai receipt "GovernanceCreated" []) w ≡ (ok event, w)
      → lift {H = H} (argument "governance" event.args) w ≡ (ok governance, w)
      → lift {H = H} (argument "timelock" event.args) w ≡ (ok timelock, w)
      → TellsGovernance H w.chain receipt d
          (record d { governance = text_of governance; timelock = text_of timelock })
  TellsGovernance-told event governance timelock found g t =
      let searched = lift-ok _ event w found in
      let (events, there) = has_events H.chai receipt "GovernanceCreated" event searched in
      let (rest, all) =
        first-direct H.chai receipt "GovernanceCreated" events event there searched in
      let (args, given) =
        argument-given "governance" event.args governance (lift-ok _ governance w g) in
      (
        events,
        event,
        args,
        rest,
        there,
        all,
        given,
        Names-argument "governance" event.args args governance given (lift-ok _ governance w g),
        Names-argument "timelock" event.args args timelock given (lift-ok _ timelock w t),
      )

  pub TellsMain-told :
      (event : LogDescription) (value : Option Value) (main : String) (d' : IrTokenDeployments)
      → lift {H = H}
          (expect_in_indirect_receipt H.chai receipt (H.parse_log "DeployerP1") "RTokenCreated" [])
          w
        ≡ (ok event, w)
      → lift {H = H} (argument "main" event.args) w ≡ (ok value, w)
      → address_of value w ≡ (ok main, w)
      → d'.main ≡ main
      → RecordsComponents H w.chain d'
      → TellsMain H w.chain receipt d d'
  TellsMain-told event value main d' found g a same components =
      let (rest, all) =
        first-indirect H.chai receipt (H.parse_log "DeployerP1") "RTokenCreated" event
          (lift-ok _ event w found) in
      let (args, given) = argument-given "main" event.args value (lift-ok _ value w g) in
      (
        event,
        args,
        rest,
        all,
        given,
        main-given "main" event.args args value main d'.main given (lift-ok _ value w g)
            (address_of-given value main w a) same,
        components,
      )
