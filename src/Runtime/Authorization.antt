-- ===== src/Runtime/Authorization.antt =====
-- The authorization of a bootstrap at the start of a supervisor
-- (runtime/recovery-authorization.mjs, cluster/cold-bootstrap/promote-state.mjs): the leases of the
-- members, the recovery protocol, the recovery state and the Galera state file.
pub mod Leased
use elera.Prelude.{
  ℕ, zero, suc, ◌+◌, ◌-◌, ◌*◌, ◌/◌, ◌%◌, ◌^◌, ◌≤◌, ◌<◌, min, max, String, ◌≡◌, refl, sym, ap, ap₂,
  subst, ◌∙◌, ◌≢◌, ◌↔◌, ◌⊎◌, inl, inr, Bool, true, false, not, ◌&&◌, ◌||◌, Option, none, some, List,
  [], ◌∷◌, ◌++◌, map, Memᴰ, arith, eq_iff, ltb, leb, nat_eqb, Eq, ◌==◌, nat_eq, string_eq,
  if◌then◌else◌, ltb→lt, lt→ltb, leb→le, Bool-cases, Option-cases, &&-left, &&-right, is_some,
  length, filter, any, all, find, count, head?, get_last?, length-append, length-filter,
  count-le-length, mem-filter, mem-filter_of, any_of_mem, mem_of_any, all_mem, any-false_mem,
  find-some, find-none, count-add-le, mem_of_count, count_le_of, count_pos, includes, dedupe,
  dedupe_onto, nat_eqb_iff,
}
use elera.Prelude.Result.{Result, ok, err}
use elera.Recovery.State as St
use elera.Recovery.State.{Recovery, Phase, Details, StateError, EpochId, set}
use elera.Recovery.Startup.{Start, Argument, is_bootstrap, startup_arguments, bootstrap, blocked}
use elera.Recovery.Protocol.Base.{Protocol, Config, ProtocolError, unknown_epoch, read}
use elera.Recovery.Protocol.Planning.{Results}
use elera.Recovery.Protocol.Handlers.{authorize, begin_bootstrap}
use elera.Recovery.Epoch.{Decision}

-- A configured member, with what the request for its lease came to: the host name of its URL,
-- where that parses, and whether a lease was granted. A request that fails grants nothing.
pub record Member : Type 0 where
  pub name : String
  pub local : Bool
  pub host : Option String
  pub granted : Bool

-- grastate.dat: not there, not accessible, with no line `safe_to_bootstrap: 0` or `1`, or with one.
pub data StateFile : Type 0 where
  absent inaccessible malformed : StateFile
  safe_to_bootstrap : Bool → StateFile

pub data AuthorizationError : Type 0 where
  mismatched_url state_inaccessible state_malformed state_not_written : AuthorizationError
  bad_state : StateError → AuthorizationError

-- What the authorization changes.
pub record Supervisor : Type 0 where
  pub protocol : Protocol
  pub recovery : Recovery
  pub state_file : StateFile

pub record Authorized : Type 0 where
  pub decision : Start
  pub args : Option (List Argument)

abbrev pub Outcome : Type 0
Outcome = Supervisor × Result AuthorizationError Authorized

-- What the authorization reads: the configuration of the protocol, the evidence that it collects
-- anew, the time, whether the promoted state file can be written, the arguments of MariaDB, the
-- reason of the decision and the messages of errors.
pub record Setting : Type 0 where
  pub config : Config
  pub results : Results
  pub now : ℕ
  pub writable : Bool
  pub arguments : List Argument
  pub reason : Option String
  pub message : ProtocolError → String

abbrev pub refused : Supervisor → Start → Outcome
refused s d = (s, ok (record { decision = record d { mode = blocked }; args = none }))

-- `members.some((node) => node.local && node.name === decision.winner)`, of a winner that is named.
unfoldable pub is_local_winner : Option String → List Member → Bool
is_local_winner none ms = false
is_local_winner (some w) ms = not (w == "") && any (λ m. m.local && m.name == w) ms

abbrev pub is_own_host : Member → Bool
is_own_host m = same m.host
  where
    same : Option String → Bool
    same none = false
    same (some h) = h == m.name

-- `claims.filter(Boolean).length < Math.floor(members.length / 2) + 1`, as what it refuses
unfoldable pub has_lease_quorum : List Member → Bool
has_lease_quorum ms = leb (length ms / 2 + 1) (count (λ m. m.granted) ms)

abbrev pub epoch_id : Option String → Option EpochId
epoch_id none = none
epoch_id (some e) = some (St.text e)

abbrev pub details_of : Option String → Start → Details
details_of reason d = record { reason = reason; epoch = epoch_id d.epoch; members = [] }

unfoldable pub with_recovery :
    Supervisor → Result StateError Recovery → (Supervisor → Outcome) → Outcome
with_recovery s (err e) next = (s, err (bad_state e))
with_recovery s (ok r) next = next (record s { recovery = r })

-- `recoveryState.set('blocked-ambiguous', …)`, and the blocked decision.
unfoldable pub block : String → Supervisor → Start → Outcome
unfolding with_recovery set
block reason s d =
    with_recovery s (set s.recovery St.blocked_ambiguous (details_of (some reason) d))
      (λ s'. refused s' d)

-- `promoteSafeToBootstrap`; a file that says so already is left alone.
unfoldable pub promote_safe_to_bootstrap : Bool → StateFile → Result AuthorizationError StateFile
promote_safe_to_bootstrap writable (safe_to_bootstrap true) = ok (safe_to_bootstrap true)
promote_safe_to_bootstrap true (safe_to_bootstrap false) = ok (safe_to_bootstrap true)
promote_safe_to_bootstrap false (safe_to_bootstrap false) = err state_not_written
promote_safe_to_bootstrap writable malformed = err state_malformed
promote_safe_to_bootstrap writable absent = ok absent
promote_safe_to_bootstrap writable inaccessible = err state_inaccessible

unfoldable pub promoted :
    Setting → Supervisor → Start → Result AuthorizationError StateFile → Outcome
promoted w s d (err e) = (s, err e)
promoted w s d (ok f) = (
  record s { state_file = f },
  ok (record { decision = d; args = some (startup_arguments w.arguments d none) }),
)

-- Past the protocol: the state of the recovery, the state file, the arguments.
unfoldable pub start_authorized : Setting → Supervisor → Start → Outcome
unfolding with_recovery set promoted promote_safe_to_bootstrap
start_authorized w s d =
    with_recovery s (set s.recovery St.recovery_authorized (details_of w.reason d))
      (λ s'. promoted w s' d (promote_safe_to_bootstrap w.writable s'.state_file))

-- `beginBootstrap` threw, or returned.
unfoldable pub after_begin :
    Setting → Supervisor → Start → Result ProtocolError Decision × Protocol → Outcome
unfolding block start_authorized
after_begin w s d (err e, p) = block (w.message e) (record s { protocol = p }) d
after_begin w s d (ok x, p) = start_authorized w (record s { protocol = p }) d

-- `authorize` threw, or returned.
unfoldable pub after_authorize :
    Setting
    → Supervisor
    → Start
    → (epoch winner : String) → Result ProtocolError Decision × Protocol
    → Outcome
unfolding after_begin begin_bootstrap
after_authorize w s d epoch winner (err e, p) = block (w.message e) (record s { protocol = p }) d
after_authorize w s d epoch winner (ok x, p) =
    after_begin w s d (begin_bootstrap w.config epoch winner w.results w.now p)

abbrev pub acknowledgements_of : List Member → List String
acknowledgements_of ms = map (λ m. m.name) (filter (λ m. m.granted) ms)

-- With the leases of a majority. A decision that names no epoch is unknown to the protocol.
unfoldable pub authorize_leased :
    Setting → Supervisor → Start → List Member → Option String → Option String → Outcome
unfolding after_authorize block authorize read
authorize_leased w s d ms (some epoch) (some winner) =
    after_authorize w s d epoch winner
      (authorize epoch (acknowledgements_of ms) false none w.now s.protocol)
authorize_leased w s d ms _ _ =
    block (w.message unknown_epoch) (record s { protocol = (read s.protocol).1 }) d

unfoldable pub authorize_winner : Setting → Supervisor → Start → List Member → Outcome
unfolding authorize_leased block has_lease_quorum
authorize_winner w s d ms =
    if not (all is_own_host ms)
    then (s, err mismatched_url)
    else if not (has_lease_quorum ms)
    then block "recovery lease quorum was not acquired" s d
    else authorize_leased w s d ms d.epoch d.winner

-- `authorizeSupervisorRecovery`
unfoldable pub authorize_supervisor_recovery : Setting → Supervisor → Start → List Member → Outcome
unfolding authorize_winner is_local_winner
authorize_supervisor_recovery w s d ms =
    if not (d.local_winner && is_bootstrap d.mode)
    then (s, ok (record { decision = d; args = none }))
    else if not (is_local_winner d.winner ms)
    then refused s d
    else authorize_winner w s d ms
