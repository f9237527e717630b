-- ===== src/Api/Credentials.antt =====
-- The routes of the credentials (control-api.mjs, routing-policy.mjs).
use elera.Prelude.{
  String, Bool, true, false, not, ◌&&◌, ◌||◌, Option, none, some, List, ◌==◌, nat_eq, string_eq,
  if◌then◌else◌, all,
}
use elera.Http.{Method, is_post}
use elera.Api.{Handled, passed, replied, answers}

pub data CredentialCall : Type 0 where
  lease_credentials refresh_credentials revoke_credentials : CredentialCall

-- The list of routes of a request for a lease.
pub data Wanted : Type 0 where
  unstated no_list : Wanted
  listed : List String → Wanted

pub record LeaseRequest : Type 0 where
  pub database : Option String
  pub identity : Option String
  pub routes : Wanted

abbrev is_set : Option String → Bool
is_set none = false
is_set (some s) = not (s == "")

abbrev is_policy : String → Bool
is_policy s = s == "primary" || s == "balanced"

abbrev are_policies : Wanted → Bool
are_policies unstated = true
are_policies no_list = false
are_policies (listed rs) = all is_policy rs

-- `validateCredentialLeaseRequest`, as what it lets through.
unfoldable pub is_lease_request : LeaseRequest → Bool
is_lease_request r = is_set r.database && is_set r.identity && are_policies r.routes

-- The bodies: one that does not parse is `none`.
abbrev lease_body : (leases : Bool) → Option LeaseRequest → Handled CredentialCall
lease_body leases none = replied 400
lease_body leases (some r) =
    if not (is_lease_request r)
    then replied 400
    else if leases
    then answers lease_credentials 200
    else replied 501

abbrev managed_body : (manages parses : Bool) → CredentialCall → Handled CredentialCall
managed_body manages parses c =
    if not parses then replied 400 else if manages then answers c 200 else replied 501

-- The end of `handler`: whether `leaseCredentials` and `managed.lease` are functions, and the body.
unfoldable pub handle_credentials :
    (leases manages : Bool)
    → Method
    → String
    → Option LeaseRequest
    → (parses : Bool) → Handled CredentialCall
unfolding is_lease_request
handle_credentials leases manages m path body parses =
    if is_post m && path == "/api/v1/credentials/lease"
    then lease_body leases body
    else if is_post m && path == "/api/v1/credentials/revoke"
    then managed_body manages parses revoke_credentials
    else if is_post m && path == "/api/v1/credentials/refresh"
    then managed_body manages parses refresh_credentials
    else passed
