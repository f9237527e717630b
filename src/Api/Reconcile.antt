-- ===== src/Api/Reconcile.antt =====
-- The routes for reconciling metadata and restoring it (api/routes/reconcile.mjs).
use elera.Prelude.{
  String, Bool, not, ◌&&◌, ◌||◌, Option, none, some, ◌==◌, nat_eq, string_eq, if◌then◌else◌,
}
use elera.Http.{Method, is_post, starts_with}
use elera.Api.{Auth, Handled, passed, called, answers, has_scope}

-- A body, with its values as JSON texts; a value is `none` where it is missing or null. A body that
-- does not parse is the empty object.
pub record Body : Type 0 where
  pub whole : String
  pub desired : Option String
  pub accounts : Option String
  pub desired_accounts : Option String

-- What a call is given: a value of the body, or an object with accounts alone.
pub data Payload : Type 0 where
  json : String → Payload
  only_accounts : String → Payload

pub data ReconcileCall : Type 0 where
  plan verify : Payload → ReconcileCall
  apply : Payload → Body → ReconcileCall

abbrev or_text : Option String → String → String
or_text none t = t
or_text (some s) t = s

-- `desiredPayload`
unfoldable pub desired_payload : Body → String → Payload
desired_payload b fallback = json (or_text b.desired fallback)

abbrev first_of : Option String → Option String → String
first_of (some a) b = a
first_of none (some b) = b
first_of none none = "[]"

-- `accountPayload`
unfoldable pub account_payload : Body → Payload
account_payload b = only_accounts (first_of b.accounts b.desired_accounts)

unfoldable pub reconcile_post : String → Body → Handled ReconcileCall
unfolding desired_payload account_payload
reconcile_post path b =
    if path == "/api/v1/reconcile/plan"
    then answers (plan (desired_payload b b.whole)) 200
    else if path == "/api/v1/reconcile/apply"
    then answers (apply (desired_payload b "{}") b) 200
    else if path == "/api/v1/reconcile/verify"
    then called (verify (desired_payload b b.whole)) 200 503
    else if path == "/api/v1/restores/metadata/plan"
    then answers (plan (desired_payload b b.whole)) 200
    else if path == "/api/v1/restores/metadata/apply"
    then answers (apply (desired_payload b "{}") b) 200
    else if path == "/api/v1/restores/accounts/plan"
    then answers (plan (account_payload b)) 200
    else if path == "/api/v1/restores/accounts/apply"
    then answers (apply (account_payload b) b) 200
    else if path == "/api/v1/restores/accounts/verify"
    then called (verify (account_payload b)) 200 503
    else passed

-- `handleReconcileRoute`
unfoldable pub handle_reconcile_route :
    (reconciler : Bool) → Method → String → Auth → Body → Handled ReconcileCall
unfolding reconcile_post starts_with has_scope
handle_reconcile_route reconciler m path auth b =
    if not reconciler
      || not (starts_with path "/api/v1/reconcile/") && not (starts_with path "/api/v1/restores/")
    then passed
    else if not (has_scope auth "metadata:reconcile")
    then passed
    else if is_post m
    then reconcile_post path b
    else passed
