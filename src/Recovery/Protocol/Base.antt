-- ===== src/Recovery/Protocol/Base.antt =====
-- The variables of the protocol, its actions, and the decision file (cold-bootstrap/decision-store.mjs).
use elera.Prelude.{
  ℕ, String, Bool, true, false, Option, none, some, List, [], ◌∷◌, ◌++◌, nat_eq, string_eq,
  if◌then◌else◌,
}
use elera.Prelude.Result.{Result, ok, err}
use elera.Recovery.Epoch.{Decision, Host, Code, EpochError, same_text?, or_else}

pub record Node : Type 0 where
  pub name : String
  pub local : Bool

-- A reader of evidence that throws: the code of its error, if it has one.
pub record Failure : Type 0 where
  pub code : Option Code

pub data Event : Type 0 where
  refused_event : Option Code → Event
  evidence_collected candidate_selected bootstrap_authorized : Event
  bootstrap_started bootstrap_complete : Event

pub data ProtocolError : Type 0 where
  unknown_epoch invalid_supervisor_quorum authority_mismatch not_revalidated : ProtocolError
  evidence_changed completion_mismatch membership_mismatch epoch_conflict type_error : ProtocolError
  epoch_error : EpochError → ProtocolError

-- `current`, the decision file, and the events published.
pub record Protocol : Type 0 where
  pub current : Option Decision
  pub stored : Option Decision
  pub events : List Event

-- The configuration that `createColdRecoveryProtocol` closes over.
pub record Config : Type 0 where
  pub host : Host
  pub nodes : List Node
  pub max_evidence_age : ℕ

abbrev pub M : Type 0 → Type 0
M A = Protocol → Result ProtocolError A × Protocol

abbrev pub continue : {A B : Type 0} → Result ProtocolError A → (A → M B) → M B
continue (ok a) f p = f a p
continue (err e) f p = (err e, p)

infixl 5 ◌>>=◌ ◌>>◌
abbrev pub ◌>>=◌ : {A B : Type 0} → M A → (A → M B) → M B
◌>>=◌ m f p = let (r, p') = m p in continue r f p'

abbrev pub ◌>>◌ : {B : Type 0} → M (Unit {0}) → M B → M B
m >> n = m >>= λ _. n

abbrev pub pure : {A : Type 0} → A → M A
pure a p = (ok a, p)

abbrev pub throw : {A : Type 0} → ProtocolError → M A
throw e p = (err e, p)

abbrev pub guard : Bool → ProtocolError → M (Unit {0})
guard true e = pure tt
guard false e = throw e

abbrev pub lift : {A : Type 0} → Result EpochError A → M A
lift (ok a) = pure a
lift (err e) = throw (epoch_error e)

-- `publishEvent`
abbrev pub publish : Event → M (Unit {0})
publish e p = (ok tt, record p { events = p.events ++ e ∷ [] })

-- `current = value`
abbrev pub remember : Decision → M (Unit {0})
remember d p = (ok tt, record p { current = some d })

-- `existing?.epoch`
abbrev pub epoch_of : Option Decision → Option String
epoch_of none = none
epoch_of (some d) = d.epoch

-- `store.write(value, { expectedEpoch })`: refused when the file holds another epoch.
unfoldable pub persist : Decision → Option String → M (Unit {0})
persist d none p = (ok tt, record p { stored = some d })
persist d (some e) p =
    if same_text? (epoch_of p.stored) (some e)
    then (ok tt, record p { stored = some d })
    else (err epoch_conflict, p)

-- `current ??= await store.read()`
unfoldable pub read : M (Option Decision)
read p = let d = or_else p.current p.stored in (ok d, record p { current = d })
