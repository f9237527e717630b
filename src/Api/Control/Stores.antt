-- ===== src/Api/Control/Stores.antt =====
-- Who reaches the stores, the reset and the recovery (api/routes/reconcile.mjs,
-- api/routes/artifacts.mjs, api/routes/node-data-reset.mjs, api/routes/cold-recovery.mjs,
-- api/routes/recovery.mjs).
use elera.Prelude.{
  ℕ, String, ◌≡◌, refl, inl, inr, Bool, true, false, not, ◌&&◌, ◌||◌, Option, none, some, List,
  arith, ◌==◌, nat_eq, string_eq, Bool-cases,
}
use elera.Http.{Method, get, post, put, delete, other, is_post, is_get, starts_with}
use elera.Api.{Auth, has_scope, has_scope_or_all}
use elera.Api.Reconcile as Rec
use elera.Api.Reconcile.{ReconcileCall, handle_reconcile_route, reconcile_post}
use elera.Api.Artifacts.{handle_artifact_route, one_secret, decoded, matched}
use elera.Api.Initialization.{handle_node_data_reset_route}
use elera.Api.ColdRecovery.{handle_cold_recovery_route, without_protocol, handle_recovery_route}
use elera.Api.Control.Table.{calls_only, may_reconcile, may_keep, may_recover}

pub reconcile_post-permitted :
    (u : Auth) (path : String) (b : Rec.Body)
    → has_scope u "metadata:reconcile" ≡ true
    → calls_only (may_reconcile u) (reconcile_post path b) ≡ true
unfolding reconcile_post
reconcile_post-permitted u path b t = ground arith

pub reconcile-permitted :
    (has : Bool) (m : Method) (path : String) (u : Auth) (b : Rec.Body)
    → calls_only (may_reconcile u) (handle_reconcile_route has m path u b) ≡ true
unfolding handle_reconcile_route
reconcile-permitted has m path u b =
    elim (Bool-cases (
      not has
      || not (starts_with path "/api/v1/reconcile/")
        && not (starts_with path "/api/v1/restores/"))) [
          | inl t ↦ rw t refl
          | inr f ↦ elim (Bool-cases (has_scope u "metadata:reconcile")) [
            | inr g ↦ rw (f, g) refl
            | inl t ↦ elim (Bool-cases (is_post m)) [
              | inl q ↦ rw (f, t, q) (reconcile_post-permitted u path b t)
              | inr q ↦ rw (f, t, q) refl
            ]
          ]
        ]

pub one_secret-permitted :
    (m : Method) (path : String) (u : Auth) (body : Option String) (name : String)
    → calls_only (may_keep u) (one_secret m path u body name) ≡ true
unfolding one_secret
one_secret-permitted get path u body name = ground arith
one_secret-permitted post path u body name = ground arith
one_secret-permitted put path u none name = ground arith
one_secret-permitted put path u (some b) name = ground arith
one_secret-permitted delete path u body name = ground arith
one_secret-permitted other path u body name = refl

pub matched-permitted :
    (decode : List ℕ → Option String) (m : Method) (path : String) (u : Auth) (body : Option String)
    (found : Option (List ℕ))
    → calls_only (may_keep u) (matched decode m path u body found) ≡ true
matched-permitted decode m path u body none = refl
matched-permitted decode m path u body (some n) = on (decode n)
  where
    on : (name : Option String) → calls_only (may_keep u) (decoded m path u body name) ≡ true
    on none = refl
    on (some name) = one_secret-permitted m path u body name

pub artifact-permitted :
    (has : Bool) (decode : List ℕ → Option String) (m : Method) (path : String) (u : Auth)
    (body : Option String)
    → calls_only (may_keep u) (handle_artifact_route has decode m path u body) ≡ true
unfolding handle_artifact_route
artifact-permitted has decode m path u body =
    elim (Bool-cases (not has || not (starts_with path "/api/v1/secrets"))) [
      | inl t ↦ rw t refl
      | inr f ↦ elim (Bool-cases (is_get m && path == "/api/v1/secrets")) [
        | inr g ↦ rw (f, g) (matched-permitted decode m path u body _)
        | inl t ↦ elim (Bool-cases (has_scope u "backup:read")) [
          | inl q ↦ rw (f, t, q) q
          | inr q ↦ rw (f, t, q) refl
        ]
      ]
    ]

pub reset-permitted :
    (m : Method) (path : String) (u : Auth) (parses : Bool)
    → calls_only (λ c. u.root) (handle_node_data_reset_route m path u parses) ≡ true
unfolding handle_node_data_reset_route
reset-permitted m path u parses = ground arith

pub without_protocol-permitted :
    (m : Method) (path : String) (u : Auth) (internal : Bool)
    → calls_only (λ c. false) (without_protocol m path u internal) ≡ true
unfolding without_protocol
without_protocol-permitted m path u internal =
    elim (Bool-cases (not (has_scope_or_all u "recovery:read") && not internal)) [
      | inl t ↦ rw t refl
      | inr f ↦ elim (Bool-cases (is_post m && path == "/api/v1/cluster/cold-recovery/plan")) [
        | inl t ↦ rw (f, t) refl
        | inr g ↦ rw (f, g) refl
      ]
    ]

-- The control API gives its recovery routes no protocol.
pub cold-permitted :
    (m : Method) (path : String) (u : Auth) (internal : Bool) (body : Option Bool)
    → calls_only (λ c. false) (handle_cold_recovery_route false m path u internal body) ≡ true
unfolding handle_cold_recovery_route
cold-permitted m path u internal body =
    elim (Bool-cases (starts_with path "/api/v1/cluster/cold-recovery/")) [
      | inl t ↦ rw t (without_protocol-permitted m path u internal)
      | inr f ↦ rw f refl
    ]

pub recovery-permitted :
    (has : Bool) (m : Method) (path : String) (u : Auth) (confirm : Option Bool)
    → calls_only (may_recover u) (handle_recovery_route has m path u confirm) ≡ true
unfolding handle_recovery_route
recovery-permitted false m path u confirm = refl
recovery-permitted true m path u none = ground arith
recovery-permitted true m path u (some b) = ground arith
