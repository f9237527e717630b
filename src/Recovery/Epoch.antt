-- ===== src/Recovery/Epoch.antt =====
-- Recovery epochs and their phases (cold-bootstrap/recovery-epoch.mjs).

use elera.Prelude.{
  ℕ, String, Bool, true, false, not, ◌&&◌, ◌||◌, Option, none, some, List, [], map, ltb, nat_eqb,
  ◌==◌, nat_eq, string_eq, if◌then◌else◌, is_some, length, any, includes, dedupe,
}
use elera.Prelude.Int.{ℤ}
use elera.Prelude.Sort.{sort}
use elera.Prelude.Text.{append, text_lt}
use elera.Prelude.Result.{Result, ok, err, ◌>>◌, throw_if}
use elera.Collation.{Collation}
use elera.Recovery.Evidence.{Evidence, DataDirectory, Galera}

pub data EpochPhase : Type 0 where
  evidence authorized bootstrapping complete blocked : EpochPhase

abbrev pub phase_index : EpochPhase → ℕ
phase_index evidence = 0
phase_index authorized = 1
phase_index bootstrapping = 2
phase_index complete = 3
phase_index blocked = 4

abbrev pub same_phase : EpochPhase → EpochPhase → Bool
same_phase a b = nat_eqb (phase_index a) (phase_index b)

-- `transitions.get(from)?.has(to)`
unfoldable pub permits : EpochPhase → EpochPhase → Bool
permits evidence authorized = true
permits evidence blocked = true
permits authorized bootstrapping = true
permits authorized blocked = true
permits bootstrapping complete = true
permits bootstrapping blocked = true
permits blocked evidence = true
permits _ _ = false

-- The winner is an object, until the completion writes the name alone in its place.
pub data Winner : Type 0 where
  member : (node uuid : String) → (seqno : ℤ) → Winner
  name_only : String → Winner

-- `winner?.node`
unfoldable pub winner_node : Option Winner → Option String
winner_node (some (member n u s)) = some n
winner_node _ = none

pub data Code : Type 0 where
  recovery_evidence_unavailable incomplete_recovery_evidence invalid_recovery_evidence : Code
  stale_recovery_evidence recovery_evidence_identity_mismatch insufficient_recovery_evidence : Code
  split_brain recovery_evidence_changed recovery_epoch_conflict : Code
  invalid_recovery_epoch_transition other_code : Code

-- A decision as it is stored: an epoch with what its phases add, or the record of a refusal, which
-- has no epoch. Members that only describe (`reason`, `errors`, `histories`) are left out.
pub record Decision : Type 0 where
  pub version : ℕ
  pub epoch : Option String
  pub cluster_id : Option String
  pub evidence_digest : Option String
  pub winner : Option Winner
  pub quorum : Option (List String)
  pub phase : EpochPhase
  -- The identified members (`acknowledgementsBy` on disk, where the Set `acknowledgements` is `{}`).
  pub acknowledgements : Option (List String)
  pub required_acknowledgements : Option ℕ
  pub operator_forced : Bool
  pub membership : Option (List String)
  pub code : Option Code
  pub evidence : List Evidence
  pub divergent : List Evidence
  pub created_at : ℕ
  pub updated_at : ℕ

-- What the digest of an epoch covers.
pub record Canonical : Type 0 where
  pub node : String
  pub uuid : String
  pub seqno : Option ℤ
  pub saved_seqno : Option ℤ
  pub recovered_seqno : Option ℤ
  pub data_directory : Option DataDirectory
  pub galera : Option Galera
  pub active : Bool

-- `Boolean(active)`
abbrev pub truthy : Option Bool → Bool
truthy none = false
truthy (some b) = b

abbrev pub canonical : Evidence → Canonical
canonical e = record {
  node = e.node;
  uuid = e.uuid;
  seqno = e.seqno;
  saved_seqno = e.saved_seqno;
  recovered_seqno = e.recovered_seqno;
  data_directory = e.data_directory;
  galera = e.galera;
  active = truthy e.active;
}

-- What comes from outside the repository: the collation, and the hash (node:crypto) of the JSON text.
pub record Host : Type 0 where
  pub collation : Collation
  pub digest : List Canonical → String

unfoldable pub canonical_evidence : Host → List Evidence → List Canonical
canonical_evidence h es = map canonical (sort (λ a b. h.collation.leq a.node b.node) es)

pub data EpochError : Type 0 where
  incomplete_epoch_data invalid_transition no_acknowledgements invalid_quorum : EpochError
  lacks_authorization unknown_member duplicate_acknowledgements cluster_mismatch : EpochError
  winner_mismatch missing_quorum : EpochError

-- `[...new Set(names)].sort()`
unfoldable pub sorted_names : List String → List String
sorted_names names = sort (λ a b. not (text_lt b a)) (dedupe names)

-- `createRecoveryEpoch`, for a winner that is one of the states.
unfoldable pub create_recovery_epoch :
    Host → String → List Evidence → Winner → List String → ℕ → Result EpochError Decision
unfolding canonical_evidence sorted_names
create_recovery_epoch h cluster_id es (name_only n) quorum now = err incomplete_epoch_data
create_recovery_epoch h cluster_id es (member node uuid seqno) quorum now =
    let digest = h.digest (canonical_evidence h es) in
    if cluster_id == "" || node == "" || nat_eqb (length quorum) 0
    then err incomplete_epoch_data
    else ok (record {
      version = 1;
      epoch = some (append cluster_id (append ":" digest));
      cluster_id = some cluster_id;
      evidence_digest = some digest;
      winner = some (member node uuid seqno);
      quorum = some (sorted_names quorum);
      phase = evidence;
      acknowledgements = none;
      required_acknowledgements = none;
      operator_forced = false;
      membership = none;
      code = none;
      evidence = [];
      divergent = [];
      created_at = now;
      updated_at = now;
    })

-- The `details` of a transition; a member that is absent leaves that of the epoch.
pub record Details : Type 0 where
  -- The identified members (`acknowledgementsBy` on disk, where the Set `acknowledgements` is `{}`).
  pub acknowledgements : Option (List String)
  pub required_acknowledgements : Option ℕ
  pub operator_forced : Bool
  pub winner : Option String
  pub cluster_id : Option String
  pub membership : Option (List String)

abbrev pub no_details : Details
no_details = record {
  acknowledgements = none;
  required_acknowledgements = none;
  operator_forced = false;
  winner = none;
  cluster_id = none;
  membership = none;
}

abbrev pub or_else : {A : Type 0} → Option A → Option A → Option A
or_else (some a) b = some a
or_else none b = b

abbrev pub named : Option String → Option Winner
named none = none
named (some n) = some (name_only n)

-- `{ ...epoch, ...details, phase, updatedAt }`
unfoldable pub merge : Decision → Details → EpochPhase → ℕ → Decision
merge epoch d phase now = record epoch {
  acknowledgements = or_else d.acknowledgements epoch.acknowledgements;
  required_acknowledgements = or_else d.required_acknowledgements epoch.required_acknowledgements;
  operator_forced = d.operator_forced || epoch.operator_forced;
  winner = or_else (named d.winner) epoch.winner;
  cluster_id = or_else d.cluster_id epoch.cluster_id;
  membership = or_else d.membership epoch.membership;
  phase = phase;
  updated_at = now;
}

abbrev pub get_or : {A : Type 0} → Option A → A → A
get_or none d = d
get_or (some a) d = a

-- The tests of the phase `authorized`, on the acknowledgements, the quorum and what is required.
unfoldable pub check_acknowledgements : List String → List String → ℕ → Result EpochError (Unit {0})
check_acknowledgements acks quorum required = do
  throw_if (ltb required 1 || ltb (length (dedupe quorum)) required) invalid_quorum
  throw_if (ltb (length (dedupe acks)) required) lacks_authorization
  throw_if (any (λ n. not (includes n quorum)) (dedupe acks)) unknown_member
  throw_if (not (nat_eqb (length (dedupe acks)) (length acks))) duplicate_acknowledgements

abbrev pub same_text? : Option String → Option String → Bool
same_text? none none = true
same_text? (some a) (some b) = a == b
same_text? _ _ = false

unfoldable pub enter_authorized :
    Decision
    → Details
    → ℕ
    → Option (List String)
    → Option (List String)
    → Result EpochError Decision
unfolding merge
enter_authorized epoch d now none quorum = err no_acknowledgements
enter_authorized epoch d now (some acks) none = err missing_quorum
enter_authorized epoch d now (some acks) (some quorum) = do
  check_acknowledgements acks quorum (get_or d.required_acknowledgements (length quorum))
  ok (merge epoch d authorized now)

-- What entering a phase asks for.
unfoldable pub enter : Decision → EpochPhase → Details → ℕ → Result EpochError Decision
unfolding merge enter_authorized winner_node
enter epoch authorized d now = enter_authorized epoch d now d.acknowledgements epoch.quorum
enter epoch complete d now = do
  throw_if (not (same_text? d.cluster_id epoch.cluster_id)) cluster_mismatch
  throw_if (not (same_text? d.winner (winner_node epoch.winner))) winner_mismatch
  ok (merge epoch d complete now)
enter epoch phase d now = ok (merge epoch d phase now)

-- `transitionRecoveryEpoch`
unfoldable pub transition_recovery_epoch :
    Decision → EpochPhase → Details → ℕ → Result EpochError Decision
unfolding enter
transition_recovery_epoch epoch phase d now = do
  throw_if (not (same_phase phase epoch.phase) && not (permits epoch.phase phase))
      invalid_transition
  enter epoch phase d now

-- `epoch.epoch === `${epoch.clusterId}:${epoch.evidenceDigest}``
abbrev pub names_epoch : Option String → Option String → Option String → Bool
names_epoch (some e) (some c) (some d) = e == append c (append ":" d)
names_epoch _ _ _ = false

-- An absent or empty text.
abbrev pub is_empty : Option String → Bool
is_empty none = true
is_empty (some s) = s == ""

-- `validateRecoveryEpoch`, which the protocol calls with the epoch's own cluster.
unfoldable pub validate_recovery_epoch : Decision → Option String → Bool
unfolding winner_node
validate_recovery_epoch epoch expected =
    nat_eqb epoch.version 1
    && same_text? epoch.cluster_id expected
    && not (is_empty epoch.evidence_digest)
    && not (is_empty (winner_node epoch.winner))
    && is_some epoch.quorum
    && not (same_phase epoch.phase blocked)
    && names_epoch epoch.epoch epoch.cluster_id epoch.evidence_digest
