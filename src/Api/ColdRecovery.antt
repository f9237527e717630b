-- ===== src/Api/ColdRecovery.antt =====
-- The routes of the cold recovery and of its control (api/routes/cold-recovery.mjs,
-- api/routes/recovery.mjs).
use elera.Prelude.{
  String, Bool, true, false, not, ◌&&◌, ◌||◌, Option, none, some, ◌==◌, nat_eq, string_eq,
  if◌then◌else◌,
}
use elera.Http.{Method, is_get, is_post, starts_with}
use elera.Api.{
  Auth, Handled, passed, replied, answers, has_scope_or_all, when_allowed, when_confirmed,
}

pub data ProtocolCall : Type 0 where
  evidence status plan retry begin_bootstrap complete : ProtocolCall
  authorize : (force : Bool) → ProtocolCall

-- `force` of a body (`=== true`); `none` where the body does not parse.
abbrev pub authorize_route : Auth → Option Bool → Handled ProtocolCall
authorize_route auth none = replied 400
authorize_route auth (some force) =
    if force && not auth.root then replied 403 else answers (authorize (force && auth.root)) 202

abbrev pub with_body : {C A : Type 0} → Option A → Handled C → Handled C
with_body none h = replied 400
with_body (some a) h = h

-- There is no protocol yet.
unfoldable pub without_protocol : Method → String → Auth → (internal : Bool) → Handled ProtocolCall
unfolding has_scope_or_all
without_protocol m path auth internal =
    if not (has_scope_or_all auth "recovery:read") && not internal
    then passed
    else if is_post m && path == "/api/v1/cluster/cold-recovery/plan"
    then replied 200
    else replied 503

unfoldable pub with_protocol :
    Method → String → Auth → (internal : Bool) → Option Bool → Handled ProtocolCall
unfolding has_scope_or_all
with_protocol m path auth internal body =
    let reads = has_scope_or_all auth "recovery:read" in
    let writes = internal || has_scope_or_all auth "recovery:write" in
    if is_get m && path == "/api/v1/cluster/cold-recovery/evidence"
    then when_allowed reads (answers evidence 200)
    else if is_get m && path == "/api/v1/cluster/cold-recovery/status"
    then when_allowed reads (answers status 200)
    else if is_post m && path == "/api/v1/cluster/cold-recovery/plan"
    then when_allowed reads (answers plan 200)
    else if is_post m && path == "/api/v1/cluster/cold-recovery/retry"
    then when_allowed writes (answers retry 200)
    else if is_post m && path == "/api/v1/cluster/cold-recovery/authorize"
    then when_allowed writes (authorize_route auth body)
    else if is_post m && path == "/api/v1/cluster/cold-recovery/bootstrap"
    then when_allowed writes (with_body body (answers begin_bootstrap 202))
    else if is_post m && path == "/api/v1/cluster/cold-recovery/complete"
    then when_allowed writes (with_body body (answers complete 202))
    else passed

-- `handleColdRecoveryRoute`
unfoldable pub handle_cold_recovery_route :
    (protocol : Bool)
    → Method
    → String
    → Auth
    → (internal : Bool) → Option Bool
    → Handled ProtocolCall
unfolding without_protocol with_protocol starts_with
handle_cold_recovery_route protocol m path auth internal body =
    if protocol
    then with_protocol m path auth internal body
    else if starts_with path "/api/v1/cluster/cold-recovery/"
    then without_protocol m path auth internal
    else passed

pub data RecoveryCall : Type 0 where
  recovery_status events abort acknowledge : RecoveryCall

-- `handleRecoveryRoute`; `confirm` is `none` where the body does not parse.
unfoldable pub handle_recovery_route :
    (recovery : Bool) → Method → String → Auth → Option Bool → Handled RecoveryCall
unfolding has_scope_or_all
handle_recovery_route false m path auth confirm = passed
handle_recovery_route true m path auth confirm =
    if is_get m && path == "/api/v1/recovery/status"
    then when_allowed (has_scope_or_all auth "recovery:read") (answers recovery_status 200)
    else if is_get m && path == "/api/v1/recovery/events"
    then when_allowed (has_scope_or_all auth "recovery:read") (answers events 200)
    else if is_post m && path == "/api/v1/recovery/acknowledge"
    then when_allowed (has_scope_or_all auth "recovery:acknowledge")
        (acted confirm (answers acknowledge 202))
    else if is_post m && path == "/api/v1/recovery/abort"
    then when_allowed (has_scope_or_all auth "recovery:abort") (acted confirm (answers abort 202))
    else passed
  where
    acted : Option Bool → Handled RecoveryCall → Handled RecoveryCall
    acted none h = replied 400
    acted (some b) h = when_confirmed b h
