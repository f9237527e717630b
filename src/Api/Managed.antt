-- ===== src/Api/Managed.antt =====
-- The routes of the managed databases, identities, tokens and applications
-- (api/routes/managed.mjs, api/routes/applications.mjs).
use elera.Prelude.{
  ℕ, String, Bool, true, false, not, ◌&&◌, ◌||◌, Option, none, some, List, [], ◌∷◌, ◌==◌, nat_eq,
  string_eq, if◌then◌else◌, includes,
}
use elera.Prelude.Text.{codes, split_on}
use elera.Http.{Method, is_get, is_post, same_codes}
use elera.Api.{Auth, Handled, passed, replied, called, answers, has_scope}

-- The members of a body that decide what a route does.
pub record Body : Type 0 where
  pub application : Option String
  pub name : Option String
  pub token_name : Option String
  pub dry_run : Bool
  pub has_scopes : Bool

-- The calls of the managed service, with the application that they are for, where they name one.
pub data ManagedCall : Type 0 where
  export_all list_databases rotate_identity revoke_identity : ManagedCall
  list_identities create_database create_identity issue_token revoke_token :
      Option String → ManagedCall
  delete_database : String → ManagedCall

-- `!application || auth.application === application`
unfoldable pub own_application : Auth → Option String → Bool
own_application a none = true
own_application a (some t) = t == "" || same a.application
  where
    same : Option String → Bool
    same none = false
    same (some o) = o == t

-- `allowed`
unfoldable pub may_manage : Auth → String → Option String → Bool
unfolding own_application has_scope
may_manage a scope application =
    has_scope a scope || (includes "app:admin" a.scopes && own_application a application)

abbrev is_word : List ℕ → String → Bool
is_word c w = same_codes c (codes w)

-- path.match(/^\/api\/v1\/databases\/([^/]+)\/delete$/), on the pieces between the slashes.
unfoldable pub deleted_database : List (List ℕ) → Option (List ℕ)
unfolding codes
deleted_database (a ∷ b ∷ c ∷ d ∷ name ∷ v ∷ []) =
    if is_word a ""
      && is_word b "api"
      && is_word c "v1"
      && is_word d "databases"
      && not (is_word name "")
      && is_word v "delete"
    then some name
    else none
deleted_database _ = none

-- The body is read before the test of its application; one that does not parse throws.
abbrev pub for_application :
    Auth → String → Option Body → (Body → Handled ManagedCall) → Handled ManagedCall
for_application a scope none k = replied 400
for_application a scope (some b) k = if may_manage a scope b.application then k b else passed

-- The test first, then the body.
abbrev pub then_body :
    Auth → String → Option Body → (Body → Handled ManagedCall) → Handled ManagedCall
then_body a scope none k = if may_manage a scope none then replied 400 else passed
then_body a scope (some b) k = if may_manage a scope none then k b else passed

abbrev pub delete_of : Option String → Body → Handled ManagedCall
delete_of none b = replied 500
delete_of (some name) b =
    called (delete_database name) (if b.dry_run then 200 else 202) (if b.dry_run then 200 else 202)

abbrev pub first_some : Option String → Option String → Option String
first_some (some a) b = some a
first_some none b = b

abbrev application_of : Option Body → Option String
application_of none = none
application_of (some b) = b.application

-- The paths that are no deletion. `query` is the search parameter `application`.
unfoldable pub managed_path :
    Method → String → (query : Option String) → Auth → Option Body → Handled ManagedCall
unfolding may_manage
managed_path m path query a body =
    if is_get m && path == "/api/v1/identities"
    then (if may_manage a "identity:read" none
        then answers (list_identities (first_some query (application_of body))) 200
        else passed)
    else if is_post m && path == "/api/v1/identities"
    then for_application a "identity:provision" body
        (λ b. answers (create_identity b.application) 200)
    else if is_post m && path == "/api/v1/identities/rotate"
    then then_body a "identity:rotate" body (λ b. answers rotate_identity 200)
    else if is_post m && path == "/api/v1/tokens"
    then for_application a "token:create" body
        (λ b. if b.has_scopes then answers (issue_token b.application) 200 else replied 400)
    else if is_post m && path == "/api/v1/tokens/revoke"
    then for_application a "token:revoke" body (λ b. answers (revoke_token b.application) 200)
    else if is_post m && path == "/api/v1/identities/revoke"
    then then_body a "identity:revoke" body (λ b. answers revoke_identity 200)
    else passed

abbrev pub with_deletion :
    (List ℕ → Option String)
    → Method
    → String
    → Option String
    → Auth
    → Option Body
    → Option (List ℕ)
    → Handled ManagedCall
with_deletion decode m path query a body none = managed_path m path query a body
with_deletion decode m path query a body (some name) =
    if is_post m
    then then_body a "database:delete" body (delete_of (decode name))
    else managed_path m path query a body

-- `handleManagedRoute`; `decode` is `decodeURIComponent`.
unfoldable pub handle_managed_route :
    (managed : Bool) (decode : List ℕ → Option String)
    → Method
    → String
    → (query : Option String) → Auth
    → Option Body
    → Handled ManagedCall
unfolding managed_path deleted_database may_manage codes split_on
handle_managed_route managed decode m path query a body =
    if not managed
    then passed
    else if is_get m && path == "/api/v1/metadata/export"
    then (if may_manage a "metadata:read" none then answers export_all 200 else passed)
    else if is_get m && path == "/api/v1/databases"
    then (if may_manage a "database:read" none then answers list_databases 200 else passed)
    else if is_post m && path == "/api/v1/databases"
    then for_application a "database:provision" body
        (λ b. answers (create_database b.application) 200)
    else with_deletion decode m path query a body (deleted_database (split_on b'/' (codes path)))

pub data ApplicationCall : Type 0 where
  create_application issue_admin_token : Option String → ApplicationCall
  application_status : String → ApplicationCall

abbrev pub when_root :
    Auth → Option Body → (Body → Handled ApplicationCall) → Handled ApplicationCall
when_root a none k = if a.root then replied 400 else passed
when_root a (some b) k = if a.root then k b else passed

-- path.match(/^\/api\/v1\/applications\/([^/]+)$/)
unfoldable pub named_application : List (List ℕ) → Option (List ℕ)
unfolding codes
named_application (a ∷ b ∷ c ∷ d ∷ name ∷ []) =
    if is_word a ""
      && is_word b "api"
      && is_word c "v1"
      && is_word d "applications"
      && not (is_word name "")
    then some name
    else none
named_application _ = none

-- `auth.application && data.application !== auth.application`
abbrev pub is_foreign : Option String → Option String → Bool
is_foreign none o = false
is_foreign (some t) none = not (t == "")
is_foreign (some t) (some o) = not (t == "") && not (o == t)

-- The status of an application, which `owner` says the service names as its own.
abbrev pub status_of :
    (owner : String → Option String) → Auth → Option String → Handled ApplicationCall
status_of owner a none = replied 500
status_of owner a (some id) =
    if not a.root && is_foreign a.application (owner id)
    then called (application_status id) 403 403
    else answers (application_status id) 200

abbrev pub status_route :
    (List ℕ → Option String)
    → (owner : String → Option String) → Method
    → Auth
    → Option (List ℕ)
    → Handled ApplicationCall
status_route decode owner m a none = passed
status_route decode owner m a (some name) =
    if is_get m && has_scope a "app:admin" then status_of owner a (decode name) else passed

-- `handleApplicationRoute`
unfoldable pub handle_application_route :
    (applications : Bool) (decode : List ℕ → Option String) (owner : String → Option String)
    → Method
    → String
    → Auth
    → Option Body
    → Handled ApplicationCall
unfolding named_application has_scope codes split_on
handle_application_route applications decode owner m path a body =
    if not applications
    then passed
    else if is_post m && path == "/api/v1/applications"
    then when_root a body (λ b. answers (create_application (first_some b.name b.application)) 201)
    else if is_post m && path == "/api/v1/app-admin/tokens"
    then when_root a body (λ b. answers (issue_admin_token b.application) 201)
    else status_route decode owner m a (named_application (split_on b'/' (codes path)))
