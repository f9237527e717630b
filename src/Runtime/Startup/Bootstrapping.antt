-- ===== src/Runtime/Startup/Bootstrapping.antt =====
-- When a supervisor starts as the node that bootstraps (runtime/recovery-startup.mjs).
use elera.Prelude.{
  String, ◌≡◌, refl, sym, ap, subst, ◌∙◌, ◌⊎◌, inl, inr, Bool, true, false, not, ◌&&◌, ◌||◌, Option,
  none, some, arith, nat_eq, string_eq, Bool-cases,
}
use elera.Prelude.Result.{Result, ok, err}
use elera.Recovery.State as St
use elera.Recovery.Startup.{
  Start, Mode, Explicit, explicit_startup, no_decision, invalid, explicit,
  recovery_startup_decision, resolve_rejoin, is_bootstrap, bootstrap, join, standalone, rejoin,
  blocked, ExplicitMode, unset, unknown, set_to, is_startup_mode,
}
use elera.Fqdn.{fqdn_any_length}
use elera.Runtime.Authorization.{
  Supervisor, Authorized, AuthorizationError, authorize_supervisor_recovery,
}
use elera.Runtime.Authorization.Leased.{IsBootstrapping, IsLeased, authorize-IsLeased}
use elera.Runtime.DataDirectory.{
  Action, DirectoryError, inspect_data_directory, fail, start, initialize,
}
use elera.Runtime.Plans.{
  Scene, Prepared, Step, StartError, then_step, set_recovery, moved, call, resolve_recovery_plan,
  resolve_clean_restart, clean_join, finds_peer, attempts_of,
}
use elera.Runtime.Startup.{
  planned_of, record_decision, authorized_by, note_rejoin, permit, permit_rejoin, conclude, recover,
  start_from, prepare_supervisor_recovery, waits, is_blocked, standalone_start,
}

then_step-ok :
    {A B : Type 0} (m : Supervisor × Result StartError A) (k : A → Step B) {b : B}
    → (then_step m k).1 ≡ ok b
    → (a : A) × (m.1 ≡ ok a) × (then_step m k ≡ k a m.0)
unfolding then_step
then_step-ok (s, err e) k h = absurd (cc)
then_step-ok (s, ok a) k h = (a, refl, refl)

ok_inj : {A : Type 0} {x y : A} → Path (Result StartError A) (ok x) (ok y) → x ≡ y
ok_inj e = cc

-- A rejoin leaves no node bootstrapping that was not.
resolve_rejoin-IsBootstrapping :
    (d : Start) (c : Bool) → IsBootstrapping (resolve_rejoin d c) → IsBootstrapping d
unfolding resolve_rejoin
resolve_rejoin-IsBootstrapping d c h = ground arith

moved-protocol :
    (s : Supervisor) (r : Result St.StateError St.Recovery) → (moved s r).0.protocol ≡ s.protocol
unfolding moved
moved-protocol s (err e) = refl
moved-protocol s (ok r) = refl

note_rejoin-protocol :
    (w : Scene) (d : Start) (s : Supervisor) → (note_rejoin w d s).0.protocol ≡ s.protocol
unfolding note_rejoin set_recovery
note_rejoin-protocol w d s = elim (Bool-cases (waits d && not w.completes)) [
  | inl t ↦ rw t (moved-protocol s _)
  | inr f ↦ rw f refl
]

not_bootstrapping : (b : Bool) → (b && false) ≡ true → ⊥
not_bootstrapping b h = absurd (ground arith)

permit-bootstrapping :
    (d : Start) (r : Result DirectoryError Action) {d' : Start}
    → permit d r ≡ ok d'
    → IsBootstrapping d'
    → d' ≡ d
unfolding permit
permit-bootstrapping d (err e) h b = absurd (cc)
permit-bootstrapping d (ok fail) h b = sym (ok_inj h)
permit-bootstrapping d (ok initialize) h b = sym (ok_inj h)
permit-bootstrapping d (ok start) h b =
    absurd (not_bootstrapping d.local_winner (subst IsBootstrapping (sym (ok_inj h)) b))

permit_rejoin-bootstrapping :
    (w : Scene) (d : Start) (s : Supervisor) {d' : Start}
    → (permit_rejoin w d s).1 ≡ ok d'
    → IsBootstrapping d'
    → (d' ≡ d) × ((permit_rejoin w d s).0 ≡ s)
unfolding permit_rejoin
permit_rejoin-bootstrapping w d s {d'} h b = elim (Bool-cases (is_blocked d.mode)) [
  | inl t ↦ (permit-bootstrapping d (inspect_data_directory w.directory false) (rw t at h) b, refl)
  | inr f ↦ (sym (ok_inj (rw f at h)), refl)
]

conclude-IsBootstrapping :
    (w : Scene) (a : Authorized) (s : Supervisor) (p : Prepared)
    → (conclude w a s).1 ≡ ok p
    → IsBootstrapping p.decision
    → IsBootstrapping a.decision × ((conclude w a s).0.protocol ≡ s.protocol)
unfolding conclude
conclude-IsBootstrapping w a s p h b =
    let (u, e1, q1) = then_step-ok (note_rejoin w a.decision s) _ h in
    let (d, e2, q2) =
      then_step-ok
        (permit_rejoin w (resolve_rejoin a.decision w.completes) (note_rejoin w a.decision s).0) _
        (sym (ap (λ x. x.1) q1) ∙ h) in
    let pe = ap (λ (x : Prepared). x.decision) (ok_inj (sym (ap (λ x. x.1) (q1 ∙ q2)) ∙ h)) in
    let bd = subst IsBootstrapping (sym pe) b in
    let (same, kept) =
      permit_rejoin-bootstrapping w (resolve_rejoin a.decision w.completes)
        (note_rejoin w a.decision s).0 e2 bd in
    (
      resolve_rejoin-IsBootstrapping a.decision w.completes (subst IsBootstrapping same bd),
      ap (λ x. x.0.protocol) (q1 ∙ q2)
          ∙ ap (λ x. x.protocol) kept
          ∙ note_rejoin-protocol w a.decision s,
    )

authorized_by-ok :
    (r : Supervisor × Result AuthorizationError Authorized) {a : Authorized}
    → (authorized_by r).1 ≡ ok a
    → (r.1 ≡ ok a) × ((authorized_by r).0 ≡ r.0)
unfolding authorized_by
authorized_by-ok (s, err e) h = absurd (cc)
authorized_by-ok (s, ok x) h = (ap ok (ok_inj h), refl)

-- What stands behind a node that bootstraps with no explicit mode: the state that the authorization
-- began from, and what it left in the protocol.
abbrev pub WasAuthorized : Scene → Prepared → Supervisor → Type 0
WasAuthorized w p after =
    (s : Supervisor) × (d : Start) × (left : Supervisor) × IsLeased w.setting s d w.members left
    × (after.protocol ≡ left.protocol)

recover-bootstrapping :
    (w : Scene) (o : Option Start) (s : Supervisor) (p : Prepared)
    → (o ≡ none) ⊎ (o ≡ some clean_join)
    → (recover w o s).1 ≡ ok p
    → IsBootstrapping p.decision
    → WasAuthorized w p (recover w o s).0
unfolding recover
recover-bootstrapping w (some d) s p (inl e) h b = absurd (cc)
recover-bootstrapping w (some d) s p (inr e) h b =
    absurd
      (off (subst IsBootstrapping (sym (ap (λ (x : Prepared). x.decision) (ok_inj h)) ∙ same e) b))
  where
    same : {x y : Start} → Path (Option Start) (some x) (some y) → x ≡ y
    same e = cc

    off : IsBootstrapping clean_join → ⊥
    off t = cc
recover-bootstrapping w none s p e h b =
    let (pl, e1, q1) = then_step-ok (call (resolve_recovery_plan w) s) _ h in
    let s1 = (call (resolve_recovery_plan w) s).0 in
    let d = recovery_startup_decision (planned_of pl) w.name in
    let (u, e2, q2) = then_step-ok (record_decision w d s1) _ (sym (ap (λ x. x.1) q1) ∙ h) in
    let s2 = (record_decision w d s1).0 in
    let out = authorize_supervisor_recovery w.setting s2 d w.members in
    let (a, e3, q3) =
      then_step-ok (authorized_by out) (conclude w) (sym (ap (λ x. x.1) (q1 ∙ q2)) ∙ h) in
    let (ea, es) = authorized_by-ok out e3 in
    let whole = q1 ∙ q2 ∙ q3 in
    let (ba, kept) =
      conclude-IsBootstrapping w a (authorized_by out).0 p (sym (ap (λ x. x.1) whole) ∙ h) b in
    (
      s2,
      d,
      out.0,
      authorize-IsLeased w.setting s2 d w.members a (ea, ba),
      ap (λ x. x.0.protocol) whole ∙ kept ∙ ap (λ x. x.protocol) es,
    )

clean-cases :
    (w : Scene) → (resolve_clean_restart w ≡ none) ⊎ (resolve_clean_restart w ≡ some clean_join)
unfolding resolve_clean_restart
clean-cases w = elim (Bool-cases (w.marker && finds_peer w (attempts_of w.timeout_ms) 0)) [
  | inl t ↦ inr (rw t refl)
  | inr f ↦ inl (rw f refl)
]

-- Only the explicit mode `bootstrap` gives an explicit decision to bootstrap.
explicit-bootstrapping :
    (m : ExplicitMode) (name : String) {d : Start}
    → explicit_startup m name ≡ explicit d
    → IsBootstrapping d
    → m ≡ set_to bootstrap
unfolding explicit_startup
explicit-bootstrapping unset name h b = absurd (cc)
explicit-bootstrapping unknown name h b = absurd (cc)
explicit-bootstrapping (set_to m) name {d} h b =
    elim (Bool-cases (not (is_startup_mode m) || not (fqdn_any_length name))) [
      | inl t ↦ absurd (cc (rw t at h))
      | inr f ↦ by m (subst IsBootstrapping (sym (inj (rw f at h))) b)
    ]
  where
    inj : {x y : Start} → Path Explicit (explicit x) (explicit y) → x ≡ y
    inj e = cc

    by : (m : Mode) → (is_bootstrap m && is_bootstrap m) ≡ true → set_to m ≡ set_to bootstrap
    by bootstrap t = refl
    by join t = absurd (cc)
    by standalone t = absurd (cc)
    by rejoin t = absurd (cc)
    by blocked t = absurd (cc)

-- A supervisor prepares to bootstrap the cluster only in cluster mode, and only where the explicit
-- mode says so, or after an authorization that ended with a node that bootstraps: the leases of a
-- majority, and the protocol's stored decision in the phase bootstrapping, which is what it leaves.
pub prepare-bootstrapping :
    (w : Scene) (s : Supervisor) (p : Prepared)
    → (prepare_supervisor_recovery w s).1 ≡ ok p
    → IsBootstrapping p.decision
    → (w.elera ≡ true)
      × ((w.mode ≡ set_to bootstrap) ⊎ WasAuthorized w p (prepare_supervisor_recovery w s).0)
unfolding prepare_supervisor_recovery start_from
prepare-bootstrapping w s p h b = elim (Bool-cases w.elera) [
  | inr f ↦
      absurd (
        off
          (subst IsBootstrapping (sym (ap (λ (x : Prepared). x.decision) (ok_inj (rw f at h)))) b))
  | inl t ↦ rw t (refl, on (explicit_startup w.mode w.name) refl (rw t at h))
]
  where
    off : IsBootstrapping standalone_start → ⊥
    off t = cc

    on :
        (x : Explicit)
        → explicit_startup w.mode w.name ≡ x
        → (start_from w x s).1 ≡ ok p
        → (w.mode ≡ set_to bootstrap) ⊎ WasAuthorized w p (start_from w x s).0
    on invalid e h = absurd (cc)
    on (explicit d) e h = inl (
        explicit-bootstrapping w.mode w.name e
          (subst IsBootstrapping (sym (ap (λ (x : Prepared). x.decision) (ok_inj h))) b))
    on no_decision e h =
        let m = set_recovery St.collecting_evidence St.no_details s in
        let (u, e1, q1) = then_step-ok m (λ _. recover w (resolve_clean_restart w)) h in
        let o = resolve_clean_restart w in
        let was = recover-bootstrapping w o m.0 p (clean-cases w) (sym (ap (λ x. x.1) q1) ∙ h) b in
        inr (subst (λ z. WasAuthorized w p z.0) (sym q1) was)
