-- ===== src/Lifecycle/PendingInit/Recovering.antt =====
-- What the recovery routes of a pending node call (lifecycle/pending-init/recovery-routes.mjs).
use elera.Prelude.{
  ℕ, String, ◌≡◌, refl, subst, Bool, true, false, not, ◌&&◌, ◌||◌, Option, none, some, arith, ◌==◌,
  nat_eq, string_eq, if◌then◌else◌,
}
use elera.Http.{is_text, is_get, is_post, ends_with}
use elera.Lifecycle.PendingInit.{
  Server, Request, Body, Answer, Call, reply, perform, cold_evidence, status, evidence, plan, retry,
  authorize, begin_bootstrap, complete, reset, join_node, initialize, is_authorized, with_body,
  join_route, operation_route, recovery_route, handle_pending_recovery_route, unless_allowed,
  is_named, is_member, when_protocol, join_call, is_operation,
}

-- One branch of a conditional answered.
pub split :
    {A C : Type 0} (b : Bool) (x y : A) {a : A}
    → (b ≡ true → x ≡ a → C)
    → (b ≡ false → y ≡ a → C)
    → (if b then x else y) ≡ a
    → C
split true x y f g h = f refl h
split false x y f g h = g refl h

pub no_call : {C : Type 0} (n : ℕ) {c : Call} → reply n ≡ perform c → C
no_call n h = absurd (cc)

pub allowed-perform :
    (s : Server) (r : Request) (a : Answer) {c : Call}
    → unless_allowed s r a ≡ perform c
    → (is_authorized s r ≡ true) × (a ≡ perform c)
allowed-perform s r a =
    split (is_authorized s r) a (reply 401) (λ t h. (t, h)) (λ f h. no_call 401 h)

pub with_body-perform :
    (o : Option Body) (k : Body → Answer) {c : Call}
    → with_body o k ≡ perform c
    → (b : Body) × (o ≡ some b) × (k b ≡ perform c)
with_body-perform none k h = no_call 400 h
with_body-perform (some b) k h = (b, refl, h)

-- What the recovery routes call: nothing that initializes or resets, and a join only of another
-- member.
abbrev pub IsRecovery : Server → Call → Type 0
IsRecovery s (initialize o) = ⊥
IsRecovery s reset = ⊥
IsRecovery s cold_evidence = ⊥
IsRecovery s (join_node n) = (is_member s (some n) ≡ true) × ((n == s.name) ≡ false)
IsRecovery s c = Unit {0}

pub by_call : (s : Server) {x c : Call} → IsRecovery s x → perform x ≡ perform c → IsRecovery s c
by_call s {x} {c} i h = subst (λ y. IsRecovery s y) (inj h) i
  where
    inj : {x y : Call} → Path Answer (perform x) (perform y) → x ≡ y
    inj e = cc

pub no_some : {C : Type 0} {a : Answer} → Path (Option Answer) none (some a) → C
no_some h = absurd (cc)

pub some_inj : {x y : Answer} → Path (Option Answer) (some x) (some y) → x ≡ y
some_inj e = cc

pub when_protocol-perform :
    (s : Server) (a : Answer) {c : Call} → when_protocol s a ≡ perform c → a ≡ perform c
when_protocol-perform s a = split s.protocol a (reply 503) (λ _ h. h) (λ _ h. no_call 503 h)

pub join_route-perform :
    (s : Server) (b : Body) {c : Call} → join_route s b ≡ perform c → IsRecovery s c
unfolding join_route
join_route-perform s b {c} = on b.node
  where
    on :
        (n : Option String)
        → (if not (is_named n)
            then reply 400
            else if is_text n s.name
            then reply 409
            else if not (is_member s n)
            then reply 400
            else join_call n)
          ≡ perform c
        → IsRecovery s c
    on none h = no_call 400 h
    on (some n) h =
        split (not (is_named (some n))) _ _ (λ _ h. no_call 400 h)
          (λ _.
            split (n == s.name) _ _ (λ _ h. no_call 409 h)
              (λ other.
                split (not (is_member s (some n))) _ _ (λ _ h. no_call 400 h)
                  (λ m h. by_call s {x = join_node n} (ground arith, other) h)))
          h

pub operation_route-perform :
    (s : Server) (r : Request) {c : Call} → operation_route s r ≡ perform c → IsRecovery s c
unfolding operation_route
operation_route-perform s r {c} h =
    let (b, _, e) = with_body-perform r.body _ (when_protocol-perform s _ h) in
    split _ _ _
      (λ _ k. by_operation (ends_with r.path "/authorize") (ends_with r.path "/bootstrap") k)
      (λ _ k. no_call 503 k) e
  where
    by_operation :
        (x y : Bool)
        → perform (if x then authorize else if y then begin_bootstrap else complete) ≡ perform c
        → IsRecovery s c
    by_operation true y k = by_call s {x = authorize} tt k
    by_operation false true k = by_call s {x = begin_bootstrap} tt k
    by_operation false false k = by_call s {x = complete} tt k

pub recovery_route-perform :
    (s : Server) (r : Request) {c : Call} → recovery_route s r ≡ some (perform c) → IsRecovery s c
unfolding recovery_route
recovery_route-perform s r {c} h =
    split (is_get r.method && ends_with r.path "/status") (some (perform status)) _
      (λ _ h. by_call s {x = status} tt (some_inj h))
      (λ _.
        split (is_get r.method && ends_with r.path "/evidence") (some (perform evidence)) _
          (λ _ h. by_call s {x = evidence} tt (some_inj h))
          (λ _.
            split (not (is_post r.method)) none _ (λ _ h. no_some h)
              (λ _.
                split (ends_with r.path "/plan" || ends_with r.path "/retry") _ _
                  (λ _ h.
                    by_plan (ends_with r.path "/retry") (when_protocol-perform s _ (some_inj h)))
                  (λ _.
                    split (is_operation r.path) (some (operation_route s r)) _
                      (λ _ h. operation_route-perform s r (some_inj h))
                      (λ _.
                        split (ends_with r.path "/join") (some (with_body r.body (join_route s)))
                          none
                          (λ _ h.
                            let (b, _, e) = with_body-perform r.body (join_route s) (some_inj h) in
                            join_route-perform s b e)
                          (λ _ h. no_some h))))))
      h
  where
    by_plan : (x : Bool) → perform (if x then retry else plan) ≡ perform c → IsRecovery s c
    by_plan true k = by_call s {x = retry} tt k
    by_plan false k = by_call s {x = plan} tt k

pub handle-IsRecovery-perform :
    (s : Server) (r : Request) {c : Call}
    → handle_pending_recovery_route s r ≡ some (perform c)
    → (is_authorized s r ≡ true) × (s.recovery_required ≡ true) × IsRecovery s c
unfolding handle_pending_recovery_route
handle-IsRecovery-perform s r {c} h =
    split _ _ _ (λ _ h. no_some h)
      (λ f.
        split _ _ _ (λ _ h. no_call 401 (some_inj h))
          (λ a h. (unnot a, required _ _ f, recovery_route-perform s r h)))
      h
  where
    unnot : {x : Bool} → not x ≡ false → x ≡ true
    unnot {x} e = ground arith

    required : (x y : Bool) → (not x || y) ≡ false → x ≡ true
    required x y e = ground arith
