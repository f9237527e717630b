-- ===== src/Api/Control/Permitted.antt =====
-- Which clients reach which services (control-api.mjs, api/routes/*.mjs).
use elera.Prelude.{
  ℕ, ◌≡◌, refl, sym, ap, ◌∙◌, inl, inr, Bool, true, false, Option, none, some, nat_eq, string_eq,
  if◌then◌else◌, Bool-cases,
}
use elera.Http.{starts_with}
use elera.Api.{Auth, Handled, passed, replied, called}
use elera.Api.Initialization.{MetadataCall, InitializationCall}
use elera.Api.Control.{
  Service, Request, Api, credentials, last_routes, is_left_out, reconciler, artifacts,
  initialization, metadata, data_reset, protocol, recovery, managed, applications, routing, lift,
  or_next, routes, serve, handler, client_of,
}
use elera.Api.Control.Table.{calls_only, permitted}
use elera.Api.Control.Stores.{
  reconcile-permitted, artifact-permitted, reset-permitted, cold-permitted, recovery-permitted,
}
use elera.Api.Control.Managers.{managed-permitted, application-permitted}
use elera.Api.Control.Routers.{
  routing_admin-permitted, routing-permitted, resync-permitted, traffic-permitted,
}

module _ {C : Type 0} (q : Service → Bool) (f : C → Service) where
  lift-only : (h : Handled C) → calls_only (λ c. q (f c)) h ≡ true → calls_only q (lift f h) ≡ true
  unfolding lift
  lift-only passed e = refl
  lift-only (replied n) e = refl
  lift-only (called c n m) e = e

or_next-only :
    (q : Service → Bool) (h k : Handled Service)
    → calls_only q h ≡ true
    → calls_only q k ≡ true
    → calls_only q (or_next h k) ≡ true
unfolding or_next
or_next-only q passed k e f = f
or_next-only q (replied n) k e f = refl
or_next-only q (called c n m) k e f = e

open-permitted : {C : Type 0} (h : Handled C) → calls_only (λ c. true) h ≡ true
open-permitted passed = refl
open-permitted (replied n) = refl
open-permitted (called c n m) = refl

metadata-permitted :
    (u : Auth) (b : Bool) (h : Handled MetadataCall)
    → calls_only (permitted u) (if b then lift metadata h else passed) ≡ true
metadata-permitted u false h = refl
metadata-permitted u true h = lift-only (permitted u) metadata h (open-permitted h)

initialization-permitted :
    (u : Auth) (h : Handled InitializationCall)
    → calls_only (permitted u) (lift initialization h) ≡ true
unfolding lift
initialization-permitted u passed = refl
initialization-permitted u (replied n) = refl
initialization-permitted u (called c n m) = refl

last_routes-permitted :
    (a : Api) (r : Request) (u : Auth) → calls_only (permitted u) (last_routes a r) ≡ true
unfolding last_routes
last_routes-permitted a r u =
    or_next-only (permitted u) _ (replied 404)
      (lift-only (permitted u) credentials _ (open-permitted _)) refl

routes-permitted :
    (a : Api) (r : Request) (u : Auth) → calls_only (permitted u) (routes a r u) ≡ true
unfolding routes
routes-permitted a r u =
    let q = permitted u in
    or_next-only q _ _
      (lift-only q recovery _ (recovery-permitted a.has_recovery r.method r.path u r.confirm))
      (or_next-only q _ _
        (lift-only q protocol _ (cold-permitted r.method r.path u r.internal r.force))
        (or_next-only q _ _
          (lift-only q routing _ (traffic-permitted r.method r.path r.propagated u))
          (or_next-only q _ _ (initialization-permitted u _) (
            or_next-only q _ _ (metadata-permitted u a.has_metadata _) (
              or_next-only q _ _
                (lift-only q applications _ (
                  application-permitted a.has_applications a.decode a.owner r.method r.path u
                    r.managed))
                (or_next-only q _ _ (lift-only q data_reset _ (reset-permitted r.method r.path u _))
                  (or_next-only q _ _
                    (lift-only q managed _ (
                      managed-permitted a.has_managed a.decode r.method r.path r.application u
                        r.managed))
                    (or_next-only q _ _
                      (lift-only q reconciler _
                        (reconcile-permitted a.has_reconciler r.method r.path u r.reconcile))
                      (or_next-only q _ _
                        (lift-only q artifacts _
                          (artifact-permitted a.has_artifacts a.decode r.method r.path u r.text))
                        (or_next-only q _ _
                          (lift-only q routing _ (
                            routing_admin-permitted a.has_bundles r.method r.path r.application u
                              r.routing))
                          (or_next-only q _ _
                            (lift-only q routing _
                              (routing-permitted r.method r.path r.identity u _))
                            (lift-only q routing _
                              (resync-permitted r.method r.path r.application u)))))))))))))

-- At the paths of the routes for recovery, cold recovery, traffic, initialization, metadata,
-- applications, the data reset, the managed resources, reconciliation, artifacts, routing and
-- credentials, the control API calls a service only for a client that it knows, as root or by its
-- token, and that has the authority of the table: the scope of the call, an application of its own
-- where an administrator of applications names one, or root. Any client that it knows may call what
-- the table leaves open: initialization, metadata, traffic, some calls of the routing, and to lease,
-- refresh or revoke credentials.
pub handler-permitted :
    (a : Api) (r : Request) (c : Service) (n m : ℕ)
    → is_left_out r.path ≡ false
    → handler a r ≡ called c n m
    → (u : Auth) × (client_of a r ≡ some u) × (permitted u c ≡ true)
unfolding handler serve
handler-permitted a r c n m o h = elim (Bool-cases (starts_with r.path "/api/v1/")) [
  | inr f ↦ absurd (cc (rw f at h))
  | inl t ↦ on (client_of a r) refl (rw t at h)
]
  where
    on :
        (o : Option Auth)
        → client_of a r ≡ o
        → serve a r o ≡ called c n m
        → (u : Auth) × (client_of a r ≡ some u) × (permitted u c ≡ true)
    on none e h = absurd (cc)
    on (some u) e h = (
      u,
      e,
      sym (ap (λ x. calls_only (permitted u) x) h)
          ∙ or_next-only (permitted u) (routes a r u) (last_routes a r) (routes-permitted a r u)
              (last_routes-permitted a r u),
    )
