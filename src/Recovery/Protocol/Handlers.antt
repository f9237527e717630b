-- ===== src/Recovery/Protocol/Handlers.antt =====
-- `retry`, `authorize`, `beginBootstrap` and `complete` of cold-bootstrap/protocol.mjs.
use elera.Prelude.{
  ℕ, String, Bool, true, false, not, ◌&&◌, ◌||◌, Option, none, some, List, [], ◌∷◌, ltb, nat_eqb,
  ◌==◌, nat_eq, string_eq, if◌then◌else◌, length,
}
use elera.Prelude.Sort.{sort}
use elera.Prelude.Text.{text_lt}
use elera.Prelude.Result.{Result, ok, err}
use elera.Recovery.Evidence.{Evidence}
use elera.Recovery.Epoch as Ep
use elera.Recovery.Epoch.{
  Decision, Host, Code, Winner, member, EpochPhase, EpochError, Details, no_details,
  create_recovery_epoch, transition_recovery_epoch, validate_recovery_epoch, winner_node,
  same_text?, same_phase, sorted_names, or_else, get_or, truthy,
}
use elera.Recovery.Protocol.Base.{
  Failure, refused_event, bootstrap_authorized, bootstrap_started, bootstrap_complete, type_error,
  Config, M, ◌>>=◌, ◌>>◌, pure, throw, guard, lift, publish, remember, persist, read, unknown_epoch,
  invalid_supervisor_quorum, authority_mismatch, not_revalidated, evidence_changed,
  completion_mismatch, membership_mismatch,
}
use elera.Recovery.Protocol.Planning.{Results, Collection, Plan, collect, plan, code_or}

-- What `retry` gives: the plan, or the current decision where the identities did not match.
pub data Retry : Type 0 where
  kept : Decision → Retry
  planned : Plan → Retry

abbrev pub has_mismatch : Option Decision → Bool
has_mismatch none = false
has_mismatch (some d) = elim d.code [
  | some Ep.recovery_evidence_identity_mismatch ↦ true
  | _ ↦ false
]

abbrev pub forget : M (Unit {0})
forget p = (ok tt, record p { current = none })

unfoldable pub retry_from : Config → Results → ℕ → Option Decision → M Retry
retry_from c results now (some d) =
    if has_mismatch (some d)
    then pure (kept d)
    else do forget; r ← plan c results now; pure (planned r)
retry_from c results now none = do forget; r ← plan c results now; pure (planned r)

-- `retry`
unfoldable pub retry : Config → Results → ℕ → M Retry
unfolding retry_from
retry c results now p = retry_from c results now p.current p

-- A read of `existing.quorum`, which a record of a refusal has not.
abbrev pub with_quorum : {A : Type 0} → Option (List String) → (List String → M A) → M A
with_quorum none f = throw type_error
with_quorum (some quorum) f = f quorum

-- `!existing || existing.epoch !== epoch || !validateRecoveryEpoch(existing, existing.clusterId)`
abbrev pub is_known : Decision → String → Bool
is_known d epoch = same_text? d.epoch (some epoch) && validate_recovery_epoch d d.cluster_id

abbrev pub bad_request : ℕ → List String → Bool
bad_request required quorum = ltb required 1 || ltb (length quorum) required

-- `force && supervisorQuorum === undefined ? existing.quorum.slice() : [...new Set(…)].sort()`
abbrev pub acknowledgements_by : Bool → Option ℕ → List String → List String → List String
acknowledgements_by true none quorum acks = quorum
acknowledgements_by _ _ quorum acks = sorted_names acks

abbrev pub authorization : List String → ℕ → Bool → Details
authorization by required force = record no_details {
  acknowledgements = some by;
  required_acknowledgements = some required;
  operator_forced = force;
}

-- `authorize`, past the reading of the quorum.
unfoldable pub authorize_quorum :
    Decision
    → List String
    → (acks : List String) → (force : Bool) → (supervisor_quorum : Option ℕ) → (now : ℕ)
    → M Decision
unfolding persist sorted_names
authorize_quorum existing quorum acks force supervisor_quorum now = do
  let required = get_or supervisor_quorum (length quorum)
  guard (not (bad_request required quorum)) invalid_supervisor_quorum
  let by = acknowledgements_by force supervisor_quorum quorum acks
  next ←
      lift (transition_recovery_epoch existing Ep.authorized (authorization by required force) now)
  remember next
  persist next existing.epoch
  publish bootstrap_authorized
  pure next

abbrev pub authorize_existing :
    Option Decision
    → (epoch : String) → (acks : List String) → (force : Bool) → (supervisor_quorum : Option ℕ)
    → (now : ℕ) → M Decision
authorize_existing none epoch acks force sq now = throw unknown_epoch
authorize_existing (some existing) epoch acks force sq now = do
  guard (is_known existing epoch) unknown_epoch
  with_quorum existing.quorum (λ quorum. authorize_quorum existing quorum acks force sq now)

-- `authorize`
unfoldable pub authorize : String → List String → Bool → Option ℕ → ℕ → M Decision
unfolding authorize_quorum read
authorize epoch acks force supervisor_quorum now = do
  existing ← read
  authorize_existing existing epoch acks force supervisor_quorum now

abbrev pub blocked_as : Decision → Code → List Evidence → ℕ → Decision
blocked_as existing code items now = record existing {
  phase = Ep.blocked;
  code = some code;
  evidence = items;
  updated_at = now;
}

-- `current = { ...existing, phase: 'blocked', code, evidence, … }`, its storing and its event.
unfoldable pub block : Decision → Code → List Evidence → ℕ → M (Unit {0})
unfolding persist
block existing code items now = do
  let d = blocked_as existing code items now
  remember d
  persist d existing.epoch
  publish (refused_event (some code))

abbrev pub cluster_text : Option String → String
cluster_text none = ""
cluster_text (some s) = s

-- `createRecoveryEpoch({ winner: existing.winner, … })`; a name alone has no sequence number.
abbrev pub refreshed : Config → Decision → List Evidence → ℕ → Result EpochError Decision
refreshed c existing items now = elim existing.winner [
  | none ↦ err Ep.incomplete_epoch_data
  | some w ↦
      create_recovery_epoch c.host (cluster_text existing.cluster_id) items w
        (get_or existing.quorum []) now
]

-- Past the comparison of the digests: the transition, or the refusal.
unfoldable pub begin_refreshed : Decision → List Evidence → ℕ → Bool → M Decision
unfolding block persist
begin_refreshed existing items now true = do
  next ← lift (transition_recovery_epoch existing Ep.bootstrapping no_details now)
  remember next
  persist next existing.epoch
  publish bootstrap_started
  pure next
begin_refreshed existing items now false = do
  block existing Ep.recovery_evidence_changed items now
  throw evidence_changed

unfoldable pub begin_collected : Config → Decision → List Evidence → ℕ → M Decision
unfolding begin_refreshed
begin_collected c existing items now = do
  fresh ← lift (refreshed c existing items now)
  begin_refreshed existing items now (same_text? fresh.evidence_digest existing.evidence_digest)

-- `try { … await collect() } catch (error) { … }`
unfoldable pub begin_settled : Config → Decision → ℕ → Result Failure Collection → M Decision
unfolding begin_collected block
begin_settled c existing now (ok got) = begin_collected c existing got.items now
begin_settled c existing now (err f) = do
  block existing (code_or f) existing.evidence now
  throw not_revalidated

unfoldable pub begin_existing : Config → Decision → (winner : String) → Results → ℕ → M Decision
unfolding begin_settled
begin_existing c existing winner results now = do
  guard
      (same_phase existing.phase Ep.authorized
        && same_text? (some winner) (winner_node existing.winner))
      authority_mismatch
  begin_settled c existing now (collect c results now)

abbrev pub begin_read : Config → Option Decision → String → String → Results → ℕ → M Decision
begin_read c none epoch winner results now = throw unknown_epoch
begin_read c (some existing) epoch winner results now = do
  guard (is_known existing epoch) unknown_epoch
  begin_existing c existing winner results now

-- `beginBootstrap`
unfoldable pub begin_bootstrap : Config → String → String → Results → ℕ → M Decision
unfolding begin_existing read
begin_bootstrap c epoch winner results now = do
  existing ← read
  begin_read c existing epoch winner results now

-- `[...new Set(membership)].sort()` against `existing.quorum.slice().sort()`.
abbrev same_names : List String → List String → Bool
same_names [] [] = true
same_names (a ∷ xs) (b ∷ ys) = a == b && same_names xs ys
same_names _ _ = false

abbrev pub same_membership : List String → List String → Bool
same_membership membership quorum =
    nat_eqb (length membership) (length quorum)
    && same_names (sorted_names membership) (sort (λ a b. not (text_lt b a)) quorum)

abbrev pub completion : String → String → List String → Details
completion winner cluster_id membership = record no_details {
  winner = some winner;
  cluster_id = some cluster_id;
  membership = some membership;
}

unfoldable pub complete_quorum :
    Decision → List String → String → String → List String → ℕ → M Decision
unfolding persist sorted_names
complete_quorum existing quorum winner cluster_id membership now = do
  guard (same_membership membership quorum) membership_mismatch
  next ←
      lift (
        transition_recovery_epoch existing Ep.complete (completion winner cluster_id membership)
          now)
  remember next
  persist next existing.epoch
  publish bootstrap_complete
  pure next

unfoldable pub complete_existing : Decision → String → String → List String → ℕ → M Decision
unfolding complete_quorum
complete_existing existing winner cluster_id membership now = do
  guard
      (same_text? (some winner) (winner_node existing.winner)
        && same_text? (some cluster_id) existing.cluster_id)
      completion_mismatch
  with_quorum existing.quorum
      (λ quorum. complete_quorum existing quorum winner cluster_id membership now)

abbrev pub complete_read : Option Decision → String → String → String → List String → ℕ → M Decision
complete_read none epoch winner cluster_id membership now = throw unknown_epoch
complete_read (some existing) epoch winner cluster_id membership now = do
  guard (same_text? existing.epoch (some epoch)) unknown_epoch
  complete_existing existing winner cluster_id membership now

-- `complete`
unfoldable pub complete : String → String → String → List String → ℕ → M Decision
unfolding complete_existing read
complete epoch winner cluster_id membership now = do
  existing ← read
  complete_read existing epoch winner cluster_id membership now
