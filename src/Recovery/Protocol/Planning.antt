-- ===== src/Recovery/Protocol/Planning.antt =====
-- `collect` and `plan` of cold-bootstrap/protocol.mjs.
use elera.Prelude.{
  ℕ, ◌+◌, ◌/◌, String, Bool, true, false, ◌&&◌, ◌||◌, Option, none, some, List, [], ◌∷◌, map, ltb,
  ◌==◌, nat_eq, string_eq, if◌then◌else◌, length, any, find,
}
use elera.Prelude.Result.{Result, ok, err}
use elera.Recovery.Evidence.{
  Evidence, Galera, Flag, EvidenceError, validate_recovery_evidence, incomplete_recovery_evidence,
  invalid_recovery_evidence, stale_recovery_evidence,
}
use elera.Recovery.Candidate.{
  Selection, Refusal, refused, eligible, select_candidate, seqno_of, no_state_evidence,
  incomplete_evidence, insufficient_evidence, no_recoverable_seqno,
}
use elera.Recovery.Candidate as Cand
use elera.Recovery.Epoch as Ep
use elera.Recovery.Epoch.{
  Decision, Host, Code, Winner, member, EpochPhase, EpochError, Details, no_details,
  create_recovery_epoch, transition_recovery_epoch, validate_recovery_epoch, winner_node,
  same_text?, same_phase, sorted_names, or_else, get_or, truthy,
}
use elera.Recovery.Protocol.Base.{
  Node, Failure, refused_event, evidence_collected, candidate_selected, type_error, Config, M,
  ◌>>=◌, ◌>>◌, pure, throw, lift, publish, remember, persist,
}

-- `item.galera?.ready === 'ON' || item.galera?.ready === true`
abbrev pub is_on : Option Flag → Bool
is_on none = false
is_on (some (Flag.text s)) = s == "ON"
is_on (some (Flag.bool b)) = b

-- `localItem?.galera?.clusterUuid ?? localItem?.uuid`
abbrev galera_uuid : Option Galera → Option String
galera_uuid none = none
galera_uuid (some g) = g.cluster_uuid

abbrev local_uuid : Option Evidence → Option String
local_uuid none = none
local_uuid (some item) = or_else (galera_uuid item.galera) (some item.uuid)

abbrev name_of : Option Node → String
name_of none = ""
name_of (some n) = n.name

-- `!localUuid || localUuid === clusterUuid`
abbrev agrees : Option String → String → Bool
agrees none uuid = true
agrees (some u) uuid = u == "" || u == uuid

abbrev primary_of : Option String → Option Galera → Bool
primary_of here none = false
primary_of here (some g) =
    (g.cluster_status == "Primary")
    && (g.local_state == "Synced")
    && is_on g.ready
    && elim g.cluster_uuid [ none ↦ false | some uuid ↦ agrees here uuid ]

-- `isActivePrimary`
unfoldable pub is_active_primary : List Node → List Evidence → Evidence → Bool
is_active_primary nodes items item =
    let name = name_of (find (λ n. n.local) nodes) in
    let here = local_uuid (find (λ e. e.node == name) items) in
    truthy item.active && primary_of here item.galera

abbrev pub evidence_code : EvidenceError → Code
evidence_code incomplete_recovery_evidence = Ep.incomplete_recovery_evidence
evidence_code invalid_recovery_evidence = Ep.invalid_recovery_evidence
evidence_code stale_recovery_evidence = Ep.stale_recovery_evidence

-- What reading the evidence of each node gives; `Promise.allSettled` has it in the order of the nodes.
abbrev pub Results : Type 0
Results = Node → Result Failure Evidence

unfoldable pub fulfilled : List (Result Failure Evidence) → List Evidence
fulfilled [] = []
fulfilled (ok e ∷ rs) = e ∷ fulfilled rs
fulfilled (err f ∷ rs) = fulfilled rs

unfoldable pub rejected : List (Result Failure Evidence) → List Failure
rejected [] = []
rejected (ok e ∷ rs) = rejected rs
rejected (err f ∷ rs) = f ∷ rejected rs

-- What `collect` returns.
pub record Collection : Type 0 where
  pub items : List Evidence
  pub failures : List Failure

abbrev pub majority : ℕ → ℕ
majority n = n / 2 + 1

abbrev pub settle :
    ℕ
    → List Evidence
    → List Failure
    → Result EvidenceError (List Evidence)
    → Result Failure Collection
settle needed items failures (err e) = err (record { code = some (evidence_code e) })
settle needed items [] (ok valid) = ok (record { items = valid; failures = [] })
settle needed items (f ∷ fs) (ok valid) =
    if ltb (length valid) needed then err f else ok (record { items = valid; failures = f ∷ fs })

abbrev pub no_evidence : List Evidence → List Failure → Option Failure
no_evidence [] (f ∷ fs) = some f
no_evidence _ _ = none

-- `collect`
unfoldable pub collect : Config → Results → ℕ → Result Failure Collection
unfolding fulfilled rejected is_active_primary
collect c results now =
    let items = fulfilled (map results c.nodes) in
    let failures = rejected (map results c.nodes) in
    let checked =
      settle (majority (length c.nodes)) items failures
        (validate_recovery_evidence now c.max_evidence_age items) in
    if any (is_active_primary c.nodes items) items
    then ok (record { items = items; failures = [] })
    else elim (no_evidence items failures) [ some f ↦ err f | none ↦ checked ]

-- A refusal as it is stored: `{ version: 1, phase: 'blocked', code, evidence, updatedAt }`.
unfoldable pub blocked_record : Option Code → List Evidence → ℕ → Decision
blocked_record code items now = record {
  version = 1;
  epoch = none;
  cluster_id = none;
  evidence_digest = none;
  winner = none;
  quorum = none;
  phase = Ep.blocked;
  acknowledgements = none;
  required_acknowledgements = none;
  operator_forced = false;
  membership = none;
  code = code;
  evidence = items;
  divergent = [];
  created_at = now;
  updated_at = now;
}

pub data Plan : Type 0 where
  blocked_plan : Decision → Plan
  join_plan : (expected_membership : Option ℕ) → Evidence → Plan
  bootstrap_plan : Decision → Plan

-- `current = …; await persist(current); await publishEvent(…); return { … }`
unfoldable pub refuse : Option Code → List Evidence → ℕ → M Plan
unfolding persist blocked_record
refuse code items now = do
  let d = blocked_record code items now
  remember d
  persist d none
  publish (refused_event code)
  pure (blocked_plan d)

abbrev pub code_or : Failure → Code
code_or f = get_or f.code Ep.recovery_evidence_unavailable

abbrev is_mismatch : Failure → Bool
is_mismatch f = elim f.code [ some Ep.recovery_evidence_identity_mismatch ↦ true | _ ↦ false ]

abbrev incomplete_code : List Failure → Code
incomplete_code failures =
    if any is_mismatch failures
    then Ep.recovery_evidence_identity_mismatch
    else Ep.insufficient_recovery_evidence

-- `clusterSize` where it is a positive integer.
abbrev membership_of : Option Galera → Option ℕ
membership_of none = none
membership_of (some g) = elim g.cluster_size [
  | none ↦ none
  | some n ↦ if ltb 0 n then some n else none
]

-- The code of a selection that is not eligible.
abbrev refusal_code : Refusal → Option Code
refusal_code Cand.split_brain = some Ep.split_brain
refusal_code Cand.insufficient_evidence = some Ep.insufficient_recovery_evidence
refusal_code _ = none

abbrev pub winner_of : Evidence → Winner
winner_of e = member e.node e.uuid (seqno_of e)

unfoldable pub store_plan : Decision → M Plan
unfolding persist
store_plan d = do remember d; persist d none; publish candidate_selected; pure (bootstrap_plan d)

-- The end of `plan`, on the selection.
unfoldable pub plan_selected : Config → List Evidence → ℕ → Selection → M Plan
unfolding refuse store_plan
plan_selected c items now (refused r states hs) = refuse (refusal_code r) items now
plan_selected c items now (eligible g none cs dv hs) = throw type_error
plan_selected c items now (eligible g (some w) cs dv hs) = do
  epoch ←
      lift (create_recovery_epoch c.host w.uuid items (winner_of w) (map (λ n. n.name) c.nodes) now)
  store_plan (record epoch { evidence = items; divergent = dv })

-- With an active Primary at hand the plan is to join it; otherwise all nodes must have reported.
unfoldable pub plan_without : Config → Collection → ℕ → Option Evidence → M Plan
unfolding refuse plan_selected
plan_without c got now (some item) = pure (join_plan (membership_of item.galera) item)
plan_without c got now none =
    if ltb (length got.items) (length c.nodes)
    then refuse (some (incomplete_code got.failures)) got.items now
    else plan_selected c got.items now
        (select_candidate c.host.collation (majority (length c.nodes)) got.items)

unfoldable pub plan_collected : Config → ℕ → Result Failure Collection → M Plan
unfolding refuse plan_without
plan_collected c now (err f) = refuse (some (code_or f)) [] now
plan_collected c now (ok got) = do
  publish evidence_collected
  plan_without c got now (find (is_active_primary c.nodes got.items) got.items)

-- `plan`
unfoldable pub plan : Config → Results → ℕ → M Plan
unfolding plan_collected
plan c results now = plan_collected c now (collect c results now)
