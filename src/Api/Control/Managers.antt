-- ===== src/Api/Control/Managers.antt =====
-- Who reaches the managed resources (api/routes/managed.mjs, api/routes/applications.mjs).
use elera.Prelude.{
  ℕ, String, ◌≡◌, refl, inl, inr, Bool, true, false, not, ◌&&◌, Option, none, some, List, arith,
  ◌==◌, nat_eq, string_eq, if◌then◌else◌, Bool-cases, &&-right,
}
use elera.Http.{Method, is_post, is_get}
use elera.Api.{Auth, passed, answers, has_scope}
use elera.Prelude.Text.{codes, split_on}
use elera.Api.Managed as Man
use elera.Api.Managed.{
  ManagedCall, ApplicationCall, handle_managed_route, managed_path, may_manage,
  handle_application_route, for_application, then_body, with_deletion, status_of, status_route,
  delete_of, when_root, is_foreign, deleted_database, named_application,
}
use elera.Api.Control.Table.{calls_only, may_manage_call, may_apply}

pub managed_path-permitted :
    (m : Method) (path : String) (query : Option String) (u : Auth) (body : Option Man.Body)
    → calls_only (may_manage_call u) (managed_path m path query u body) ≡ true
unfolding managed_path
managed_path-permitted m path query u none = ground arith
managed_path-permitted m path query u (some b) = ground arith

pub deletion-permitted :
    (decode : List ℕ → Option String) (m : Method) (path : String) (query : Option String)
    (u : Auth) (body : Option Man.Body) (found : Option (List ℕ))
    → calls_only (may_manage_call u) (with_deletion decode m path query u body found) ≡ true
deletion-permitted decode m path query u body none = managed_path-permitted m path query u body
deletion-permitted decode m path query u body (some name) = elim (Bool-cases (is_post m)) [
  | inr f ↦ rw f (managed_path-permitted m path query u body)
  | inl t ↦ rw t (on body (decode name))
]
  where
    on :
        (b : Option Man.Body) (n : Option String)
        → calls_only (may_manage_call u) (then_body u "database:delete" b (delete_of n)) ≡ true
    on none n = ground arith
    on (some b) none = ground arith
    on (some b) (some n) = ground arith

pub managed-permitted :
    (has : Bool) (decode : List ℕ → Option String) (m : Method) (path : String)
    (query : Option String) (u : Auth) (body : Option Man.Body)
    → calls_only (may_manage_call u) (handle_managed_route has decode m path query u body) ≡ true
unfolding handle_managed_route
managed-permitted false decode m path query u body = refl
managed-permitted true decode m path query u body =
    chosen (is_get m && path == "/api/v1/metadata/export") (is_get m && path == "/api/v1/databases")
      (is_post m && path == "/api/v1/databases") body
  where
    chosen :
        (x y z : Bool) (b : Option Man.Body)
        → calls_only (may_manage_call u) (
            if x
            then (if may_manage u "metadata:read" none then answers Man.export_all 200 else passed)
            else if y
            then (if may_manage u "database:read" none
                then answers Man.list_databases 200
                else passed)
            else if z
            then for_application u "database:provision" b
                (λ b. answers (Man.create_database b.application) 200)
            else with_deletion decode m path query u body
                (deleted_database (split_on b'/' (codes path))))
          ≡ true
    chosen true y z b = ground arith
    chosen false true z b = ground arith
    chosen false false true none = refl
    chosen false false true (some b) = ground arith
    chosen false false false b =
        deletion-permitted decode m path query u body
          (deleted_database (split_on b'/' (codes path)))

pub status-permitted :
    (decode : List ℕ → Option String) (owner : String → Option String) (m : Method) (u : Auth)
    (found : Option (List ℕ))
    → calls_only (may_apply u) (status_route decode owner m u found) ≡ true
status-permitted decode owner m u none = refl
status-permitted decode owner m u (some name) =
    elim (Bool-cases (is_get m && has_scope u "app:admin")) [
      | inr f ↦ rw f refl
      | inl t ↦ rw t (on (decode name) (&&-right (is_get m) _ t))
    ]
  where
    on :
        (n : Option String)
        → has_scope u "app:admin" ≡ true
        → calls_only (may_apply u) (status_of owner u n) ≡ true
    on none t = refl
    on (some n) t = elim (Bool-cases (not u.root && is_foreign u.application (owner n))) [
      | inl f ↦ rw f t
      | inr f ↦ rw f t
    ]

pub application-permitted :
    (has : Bool) (decode : List ℕ → Option String) (owner : String → Option String) (m : Method)
    (path : String) (u : Auth) (body : Option Man.Body)
    → calls_only (may_apply u) (handle_application_route has decode owner m path u body) ≡ true
unfolding handle_application_route
application-permitted false decode owner m path u body = refl
application-permitted true decode owner m path u body =
    chosen (is_post m && path == "/api/v1/applications")
      (is_post m && path == "/api/v1/app-admin/tokens") body
  where
    chosen :
        (x y : Bool) (b : Option Man.Body)
        → calls_only (may_apply u) (
            if x
            then when_root u b
                (λ b. answers (Man.create_application (Man.first_some b.name b.application)) 201)
            else if y
            then when_root u b (λ b. answers (Man.issue_admin_token b.application) 201)
            else status_route decode owner m u (named_application (split_on b'/' (codes path))))
          ≡ true
    chosen true y none = ground arith
    chosen true y (some b) = ground arith
    chosen false true none = ground arith
    chosen false true (some b) = ground arith
    chosen false false b =
        status-permitted decode owner m u (named_application (split_on b'/' (codes path)))
