-- ===== src/Examples/Control.antt =====
-- The pending node and the control API on concrete requests.
use elera.Prelude.{
  ◌≤◌, ◌≡◌, refl, ◌⊎◌, true, false, none, some, List, [], ◌∷◌, nat_eq, string_eq, count,
}
use elera.Http.{post}
use elera.Lifecycle.PendingInit as Pend
use elera.Lifecycle.PendingInit.{
  Server, is_authorized, handle, initialize, cold_evidence, join, perform,
}
use elera.Lifecycle.PendingInit.Recovering.{IsRecovery}
use elera.Lifecycle.PendingInit.Guarded.{Served, handle-Guarded}
use elera.Lifecycle.PendingInit.Listener as Listen
use elera.Lifecycle.PendingInit.Listener.{run, start, step, is_close, run-closes}
use elera.Api.{Auth}
use elera.Api.Reconcile as Rec
use elera.Api.Control.{Api, Request, reconciler, handler, client_of}
use elera.Api.Control.Table.{permitted}
use elera.Api.Control.Permitted.{handler-permitted}

abbrev pending_server : Server
pending_server = record {
  root_token = some "t";
  name = "a.x";
  members = "a.x" ∷ "b.x" ∷ [];
  recovery_required = true;
  protocol = true;
  has = λ o. true;
  cold_evidence = true;
  data_reset = true;
}

abbrev join_request : Pend.Request
join_request = record {
  method = post;
  url = "/api/v1/cluster/join";
  path = "/api/v1/cluster/join";
  authorization = some "Bearer t";
  body = some (record { confirm = true; action = none; node = none });
}

handle-Guarded_example :
    (is_authorized pending_server join_request ≡ true)
    × ((initialize join ≡ cold_evidence)
        ⊎ Served pending_server false join_request (initialize join)
        ⊎ ((pending_server.recovery_required ≡ true) × IsRecovery pending_server (initialize join)))
unfolding handle
handle-Guarded_example = handle-Guarded pending_server false join_request (initialize join) refl

abbrev events : List Listen.Event
events = Listen.tick ∷ Listen.recovery_join ∷ Listen.signal ∷ Listen.stop ∷ []

run-closes_example :
    (count is_close (run events (start true true)).effects ≤ 1)
    × ((run events (start true true)).listener_closed ≡ true
        → step Listen.tick (run events (start true true)) ≡ run events (start true true))
run-closes_example = run-closes true true events

abbrev reconcilers : Auth
reconcilers = record {
  root = false;
  scopes = "metadata:reconcile" ∷ [];
  application = none;
  identity = none;
}

abbrev api : Api
api = record {
  root_token = some "t";
  scoped = λ s. some reconcilers;
  decode = λ cs. none;
  owner = λ s. none;
  has_recovery = true;
  has_metadata = true;
  metadata_initializes = true;
  has_applications = true;
  has_managed = true;
  has_reconciler = true;
  has_artifacts = true;
  has_bundles = true;
  has_leases = true;
  managed_leases = true;
}

abbrev plan_body : Rec.Body
plan_body = record { whole = "{}"; desired = none; accounts = none; desired_accounts = none }

abbrev plan_request : Request
plan_request = record {
  method = post;
  path = "/api/v1/reconcile/plan";
  bearer = some "s";
  internal = false;
  propagated = false;
  application = none;
  identity = none;
  confirm = none;
  force = none;
  text = some "{}";
  reconcile = plan_body;
  managed = none;
  routing = none;
  lease = none;
}

handler-permitted_example :
    (u : Auth) × (client_of api plan_request ≡ some u)
    × (permitted u (reconciler (Rec.plan (Rec.json "{}"))) ≡ true)
unfolding handler
handler-permitted_example =
    handler-permitted api plan_request (reconciler (Rec.plan (Rec.json "{}"))) 200 200 refl refl
