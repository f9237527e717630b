-- ===== src/Runtime/Plans.antt =====
-- The steps of a start, and its plans: the retries of the recovery plan and the clean restart
-- (runtime/recovery-plan-retry.mjs, runtime/clean-restart-recovery.mjs,
-- runtime/recovery-startup.mjs).
use elera.Prelude.{
  ℕ, zero, suc, ◌+◌, ◌-◌, ◌*◌, ◌/◌, min, max, String, Bool, true, false, not, ◌&&◌, ◌||◌, Option,
  none, some, List, ◌==◌, nat_eq, string_eq, if◌then◌else◌, any,
}
use elera.Prelude.Result.{Result, ok, err}
use elera.Recovery.Evidence.{Evidence, Galera}
use elera.Recovery.State.{Recovery, Phase, Details, StateError, set}
use elera.Recovery.Startup.{Start, Argument, ExplicitMode, join}
use elera.Recovery.Epoch as Ep
use elera.Recovery.Epoch.{Decision, Winner, winner_node, name_only, truthy}
use elera.Recovery.Protocol.Base as Base
use elera.Recovery.Protocol.Base.{M, Config, Protocol, ProtocolError}
use elera.Recovery.Protocol.Planning as Plan
use elera.Recovery.Protocol.Planning.{Results, plan}
use elera.Recovery.Protocol.Handlers.{retry}
use elera.Runtime.Authorization.{Supervisor, Setting, Member, AuthorizationError}
use elera.Runtime.DataDirectory.{Directory, DirectoryError}

pub data StartError : Type 0 where
  invalid_explicit_mode decision_not_written : StartError
  state_error : StateError → StartError
  protocol_error : ProtocolError → StartError
  authorization_error : AuthorizationError → StartError
  directory_error : DirectoryError → StartError

-- What the start reads: the configuration, the marker of a clean restart, what the peers and the
-- protocol answer to each attempt, whether the text of a reason tells of a split brain, and whether
-- the winner's completion is observed.
pub record Scene : Type 0 where
  pub elera : Bool
  pub unified : Bool
  pub name : String
  pub mode : ExplicitMode
  pub join_address : Option String
  pub marker : Bool
  pub timeout_ms : ℕ
  pub peers : ℕ → List Evidence
  pub evidence : ℕ → Results × ℕ
  pub tells_conflict : Decision → Bool
  pub members : List Member
  pub decision_writable : Bool
  pub completes : Bool
  pub directory : Directory
  pub setting : Setting

-- The result: the decision, the arguments, and whether the listener of the start stays open.
pub record Prepared : Type 0 where
  pub decision : Start
  pub args : List Argument
  pub listening : Bool

abbrev pub Step : Type 0 → Type 0
Step A = Supervisor → Supervisor × Result StartError A

unfoldable pub then_step :
    {A B : Type 0}
    → Supervisor × Result StartError A
    → (A → Step B)
    → Supervisor × Result StartError B
then_step (s, err e) k = (s, err e)
then_step (s, ok a) k = k a s

infixl 5 ◌>>=◌ ◌>>◌
abbrev pub ◌>>=◌ : {A B : Type 0} → Step A → (A → Step B) → Step B
◌>>=◌ m k s = then_step (m s) k

abbrev pub ◌>>◌ : {B : Type 0} → Step (Unit {0}) → Step B → Step B
m >> n = m >>= λ _. n

abbrev pub pure : {A : Type 0} → A → Step A
pure a s = (s, ok a)

unfoldable pub moved :
    Supervisor → Result StateError Recovery → Supervisor × Result StartError (Unit {0})
moved s (err e) = (s, err (state_error e))
moved s (ok r) = (record s { recovery = r }, ok tt)

-- `recoveryState.set(…)`
unfoldable pub set_recovery : Phase → Details → Step (Unit {0})
unfolding moved set
set_recovery next d s = moved s (set s.recovery next d)

unfoldable pub called :
    {A : Type 0} → Supervisor → Result ProtocolError A × Protocol → Supervisor × Result StartError A
called s (err e, p) = (record s { protocol = p }, err (protocol_error e))
called s (ok a, p) = (record s { protocol = p }, ok a)

-- A call of the recovery protocol.
unfoldable pub call : {A : Type 0} → M A → Step A
unfolding called
call m s = called s (m s.protocol)

-- `Math.max(1, Math.min(15, Math.ceil(startupTimeoutMs / 1000)))`
unfoldable pub attempts_of : ℕ → ℕ
attempts_of ms = max 1 (min 15 ((ms + 999) / 1000))

abbrev pub is_blocked_plan : Plan.Plan → Bool
is_blocked_plan (Plan.blocked_plan d) = true
is_blocked_plan _ = false

abbrev is_split_brain : Option Ep.Code → Bool
is_split_brain (some Ep.split_brain) = true
is_split_brain _ = false

-- `plan.mode !== 'blocked'`, or a conflict, which no retry resolves.
abbrev pub is_settled : (Decision → Bool) → Plan.Plan → Bool
is_settled tells (Plan.blocked_plan d) = is_split_brain d.code || tells d
is_settled tells _ = true

unfoldable pub retry_unless : Bool → Plan.Plan → M Plan.Plan → M Plan.Plan
retry_unless true p again = Base.pure p
retry_unless false p again = again

-- The loop of `resolveRecoveryPlan`, with the attempts that may follow this one, the `i`-th.
unfoldable pub resolve_from : Scene → ℕ → ℕ → M Plan.Plan
unfolding retry_unless
resolve_from w zero i = plan w.setting.config (w.evidence (i * 2)).0 (w.evidence (i * 2)).1
resolve_from w (suc more) i =
    let again = resolve_from w more (suc i) in
    Base.◌>>=◌ (plan w.setting.config (w.evidence (i * 2)).0 (w.evidence (i * 2)).1) (λ p.
      retry_unless (is_settled w.tells_conflict p) p (
        Base.◌>>=◌ (retry w.setting.config (w.evidence (i * 2 + 1)).0 (w.evidence (i * 2 + 1)).1)
          (λ _. again)))

-- `resolveRecoveryPlan`
unfoldable pub resolve_recovery_plan : Scene → M Plan.Plan
unfolding resolve_from attempts_of
resolve_recovery_plan w = resolve_from w (attempts_of w.timeout_ms - 1) 0

abbrev is_primary : Option Galera → Bool
is_primary none = false
is_primary (some g) = g.cluster_status == "Primary"

-- Another node that is an active Primary.
abbrev pub is_active_peer : String → Evidence → Bool
is_active_peer name e = not (e.node == name) && truthy e.active && is_primary e.galera

abbrev pub clean_join : Start
clean_join = record {
  mode = join;
  winner = none;
  local_winner = false;
  bootstrap_complete = true;
  epoch = none;
  expected_membership = none;
}

-- The attempts of `resolveCleanRestart`, from the `i`-th on: whether a peer was found.
unfoldable pub finds_peer : Scene → ℕ → ℕ → Bool
finds_peer w zero i = false
finds_peer w (suc n) i = any (is_active_peer w.name) (w.peers i) || finds_peer w n (suc i)

-- `resolveCleanRestart`
unfoldable pub resolve_clean_restart : Scene → Option Start
unfolding finds_peer attempts_of
resolve_clean_restart w =
    if w.marker && finds_peer w (attempts_of w.timeout_ms) 0 then some clean_join else none
