-- ===== src/Recovery/Bootstrap/Started.antt =====
-- When the operator's cold bootstrap starts a node (cluster/cold-bootstrap/service.mjs).
use elera.Prelude.{
  String, ◌≡◌, refl, ap, ◌∙◌, inl, inr, Bool, true, false, Option, none, some, eq_iff, ◌==◌, nat_eq,
  string_eq, Bool-cases,
}
use elera.Prelude.Dict.{get-put}
use elera.Prelude.Result.{Result, ok, err}
use elera.Recovery.Evidence.{Evidence}
use elera.Recovery.Bootstrap.{
  World, Service, Run, execute, execute_new, locked_or, run_planned, compare_plans, planned,
  same_candidate, verified, answer_or_run, load_completed, remember, ServiceError,
}

compare_plans-started :
    (w : World) (a b : Option Evidence) (node : String)
    → (compare_plans w a b).started ≡ some node
    → (x y : Evidence) × (a ≡ some x)
      × (b ≡ some y)
      × (same_candidate x y ≡ true)
      × (verified w.verify y ≡ true)
      × (y.node ≡ node)
unfolding compare_plans
compare_plans-started w none b node h = absurd (cc)
compare_plans-started w (some x) none node h = absurd (cc)
compare_plans-started w (some x) (some y) node h = elim (Bool-cases (same_candidate x y)) [
  | inr f ↦ absurd (cc (rw f at h))
  | inl t ↦ elim (Bool-cases (verified w.verify y)) [
    | inr f ↦ absurd (cc (rw (t, f) at h))
    | inl v ↦ (x, y, refl, refl, t, v, inj (rw (t, v) at h))
  ]
]
  where
    inj : {p q : String} → some p ≡ some q → p ≡ q
    inj e = cc

run_planned-started :
    (w : World) (p q : Result ServiceError (Option Evidence)) (node : String)
    → (run_planned w p q).started ≡ some node
    → (x y : Evidence) × (p ≡ ok (some x))
      × (q ≡ ok (some y))
      × (same_candidate x y ≡ true)
      × (verified w.verify y ≡ true)
      × (y.node ≡ node)
unfolding run_planned
run_planned-started w (err e) q node h = absurd (cc)
run_planned-started w (ok a) (err e) node h = absurd (cc)
run_planned-started w (ok a) (ok b) node h =
    let (x, y, p, q, s, v, n) = compare_plans-started w a b node h in
    (x, y, ap ok p, ap ok q, s, v, n)

-- The service starts a node only for a request that is confirmed, gets the lock and was not answered
-- before, and when both plans select a candidate with the same node, cluster and sequence number
-- and the second candidate, which is of that node, is verified.
pub execute-started :
    (w : World) (s : Service) (confirm : Bool) (key : Option String) (node : String)
    → (execute w s confirm key).0.started ≡ some node
    → (confirm ≡ true)
      × (load_completed s key ≡ none)
      × (w.locked ≡ false)
      × (x y : Evidence) × (planned w w.first ≡ ok (some x))
      × (planned w w.second ≡ ok (some y))
      × (same_candidate x y ≡ true)
      × (verified w.verify y ≡ true)
      × (y.node ≡ node)
unfolding execute execute_new locked_or
execute-started w s false key node h = absurd (cc)
execute-started w s true key node h = on (load_completed s key) h
  where
    unlocked :
        (l : Bool)
        → (locked_or l s (
          run_planned w (planned w w.first) (planned w w.second),
          remember s key (run_planned w (planned w w.first) (planned w w.second)).result,
        )).0.started
          ≡ some node
        → (true ≡ true)
          × (Path (Option Evidence) none none)
          × (l ≡ false)
          × (x y : Evidence) × (planned w w.first ≡ ok (some x))
          × (planned w w.second ≡ ok (some y))
          × (same_candidate x y ≡ true)
          × (verified w.verify y ≡ true)
          × (y.node ≡ node)
    unlocked true k = absurd (cc)
    unlocked false k =
        let (x, y, p, q, c, v, n) =
          run_planned-started w (planned w w.first) (planned w w.second) node k in
        (refl, refl, refl, x, y, p, q, c, v, n)

    on :
        (o : Option Evidence)
        → (answer_or_run w s key o).0.started ≡ some node
        → (true ≡ true)
          × (o ≡ none)
          × (w.locked ≡ false)
          × (x y : Evidence) × (planned w w.first ≡ ok (some x))
          × (planned w w.second ≡ ok (some y))
          × (same_candidate x y ≡ true)
          × (verified w.verify y ≡ true)
          × (y.node ≡ node)
    on (some e) k = absurd (cc)
    on none k = unlocked w.locked k

load_completed-remember :
    (s : Service) (key : String) (e : Evidence)
    → (key == "") ≡ false
    → load_completed (remember s (some key) (ok e)) (some key) ≡ some e
unfolding load_completed
load_completed-remember s key e n =
    rw (n, get-put s.completed key e key, (eq_iff key key).1 refl) refl

-- A confirmed request with a key that succeeds is answered with the same candidate when it comes
-- again, in whatever circumstances, without starting a node.
pub execute-again :
    (w w' : World) (s : Service) (key : String) (e : Evidence)
    → (key == "") ≡ false
    → (execute w s true (some key)).0.result ≡ ok e
    → (execute w' (execute w s true (some key)).1 true (some key)).0
      ≡ record { started = none; result = ok e }
unfolding execute execute_new locked_or
execute-again w w' s key e n h =
    ap (λ o. (answer_or_run w' (execute w s true (some key)).1 (some key) o).0)
      (kept (load_completed s (some key)) refl h)
  where
    new :
        (l : Bool) (r : Run)
        → (locked_or l s (r, remember s (some key) r.result)).0.result ≡ ok e
        → load_completed (locked_or l s (r, remember s (some key) r.result)).1 (some key) ≡ some e
    new true r k = absurd (cc)
    new false r k =
        ap (λ x. load_completed (remember s (some key) x) (some key)) k
        ∙ load_completed-remember s key e n

    kept :
        (o : Option Evidence)
        → load_completed s (some key) ≡ o
        → (answer_or_run w s (some key) o).0.result ≡ ok e
        → load_completed (answer_or_run w s (some key) o).1 (some key) ≡ some e
    kept (some x) q k = q ∙ ap some (inj k)
      where
        inj : {x y : Evidence} → Path (Result ServiceError Evidence) (ok x) (ok y) → x ≡ y
        inj p = cc
    kept none q k = new w.locked (run_planned w (planned w w.first) (planned w w.second)) k
