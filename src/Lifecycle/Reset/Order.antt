-- ===== src/Lifecycle/Reset/Order.antt =====
-- When a reset removes the data directory (lifecycle/node-data-reset.mjs).
use elera.Prelude.{
  String, ◌≡◌, refl, sym, ap, subst, ◌∙◌, ◌≢◌, inl, inr, Bool, true, false, not, ◌&&◌, ◌||◌, Option,
  none, some, List, [], Memᴰ, arith, ◌==◌, nat_eq, string_eq, Bool-cases, is_some,
}
use mathlib.Core.List.Memᴰ
use elera.Prelude.Dict.{Dict}
use elera.Prelude.Result.{Result, ok, err}
use elera.Prelude.Text.{append}
use elera.Lifecycle.Reset.{
  Run, World, Request, Effect, Validation, Status, ResetError, ResetResult, after, guard, pure,
  validate, check_status, perform, isolate, erase, rejoin_node, rejoin_check, reset_validated,
  reset_new, reset, find_answer, is_text, status_of, dry_run_of, donor_for, when, fence,
  exclude_routing, stop, remove, restart, reinclude, audit, is_resync, select_donor, the_donors,
  ensure, with_value, answer_or, not_fenced, status_unavailable,
}

module _ {A B : Type 0} where
  -- What is done in a run is done in its first part, or in the rest, where that part succeeds.
  after-mem :
      {C : Type 0} (e : Effect) (t : List Effect) (r : Result ResetError A) (k : A → Run B)
      → Memᴰ e (after t r k).trace
      → (Memᴰ e t → C)
      → ((a : A) → r ≡ ok a → Memᴰ e (k a).trace → C)
      → C
  unfolding after
  after-mem e t (err x) k m f g = f m
  after-mem e t (ok a) k m f g = elim (Memᴰ.append_cases t m) [ inl l ↦ f l | inr q ↦ g a refl q ]

  after-result :
      (t : List Effect) (r : Result ResetError A) (k : A → Run B) {b : B}
      → (after t r k).result ≡ ok b
      → (a : A) × (r ≡ ok a) × ((k a).result ≡ ok b)
  unfolding after
  after-result t (err x) k h = absurd (cc)
  after-result t (ok a) k h = (a, refl, h)

ensure-ok :
    {A : Type 0} (b : Bool) (e : ResetError) (m : Result ResetError A) {a : A}
    → ensure b e m ≡ ok a
    → (b ≡ true) × (m ≡ ok a)
unfolding ensure
ensure-ok true e m h = (refl, h)
ensure-ok false e m h = absurd (cc)

with_value-ok :
    {A B : Type 0} (r : Result ResetError A) (k : A → Result ResetError B) {b : B}
    → with_value r k ≡ ok b
    → (a : A) × (r ≡ ok a) × (k a ≡ ok b)
unfolding with_value
with_value-ok (ok a) k h = (a, refl, h)
with_value-ok (err e) k h = absurd (cc)

-- What a validation has checked.
pub validate-ok :
    (w : World) (r : Request) (v : Validation)
    → validate w r ≡ ok v
    → (is_text r.node w.node ≡ true)
      × (is_text r.confirmation (append "RESET " w.node) ≡ true)
      × (dry_run_of r.dry_run ≡ ok v.dry_run)
      × (v.resync ≡ is_resync r.disposition)
      × (s : Status) × (status_of (w.offline_recovery && r.offline) w.status ≡ ok s)
      × ((v.resync || not (s.ready || s.local_state == "Synced" || s.cluster_status == "Primary"))
          ≡ true)
      × ((w.recovery_active || s.recovery_blocked) ≡ false)
unfolding validate check_status
validate-ok w r v h =
    let (a1, h1) = ensure-ok _ _ _ h in
    let (a2, h2) = ensure-ok _ _ _ h1 in
    let (a3, h3) = ensure-ok _ _ _ h2 in
    let (d, ed, h4) = with_value-ok _ _ h3 in
    let (a5, h5) = ensure-ok _ _ _ h4 in
    let (s, es, h6) = with_value-ok _ _ h5 in
    let (a7, h7) = ensure-ok _ _ _ h6 in
    let (a8, h8) = ensure-ok _ _ _ h7 in
    let (a9, h9) = ensure-ok _ _ _ h8 in
    let e = ok_inj h9 in
    (
      a1,
      a3,
      ed ∙ ap (λ x. ok x.dry_run) e,
      sym (ap (λ x. x.resync) e),
      s,
      es,
      subst
          (λ b.
            (b || not (s.ready || s.local_state == "Synced" || s.cluster_status == "Primary"))
            ≡ true)
          (ap (λ x. x.resync) e) a7,
      off_of_not a8,
    )
  where
    off_of_not : {b : Bool} → not b ≡ true → b ≡ false
    off_of_not {b} h = ground arith

    ok_inj : {x y : Validation} → Path (Result ResetError Validation) (ok x) (ok y) → x ≡ y
    ok_inj e = cc

perform-mem : (w : World) (x e : Effect) → Memᴰ e (perform w x).trace → e ≡ x
unfolding perform
perform-mem w x e m = Memᴰ.eq_of_singleton m

guard-mem : (b : Bool) (x : ResetError) (e : Effect) {A : Type 0} → Memᴰ e (guard b x).trace → A
unfolding guard
guard-mem true x e m = absurd (Memᴰ.not-nil m)
guard-mem false x e m = absurd (Memᴰ.not-nil m)

guard-ok : (b : Bool) (e : ResetError) {u : Unit {0}} → (guard b e).result ≡ ok u → b ≡ true
unfolding guard
guard-ok true e h = refl
guard-ok false e h = absurd (cc)

perform-ok :
    (w : World) (x : Effect) {u : Unit {0}} → (perform w x).result ≡ ok u → w.works x ≡ true
unfolding perform
perform-ok w x h = elim (Bool-cases (w.works x)) [ inl t ↦ t | inr f ↦ absurd (cc (rw f at h)) ]

donor_for-mem :
    (w : World) (r : Request) (b : Bool) (e : Effect) {A : Type 0}
    → Memᴰ e (donor_for w r b).trace
    → A
unfolding donor_for
donor_for-mem w r false e m = absurd (Memᴰ.not-nil m)
donor_for-mem w r true e m =
    after-mem e _ _ _ m (λ l. absurd (Memᴰ.not-nil l)) (λ d q k. absurd (Memᴰ.not-nil k))

donor_for-ok :
    (w : World) (r : Request) (b : Bool) {d : Option String}
    → (donor_for w r b).result ≡ ok d
    → b ≡ true
    → (n : String) × (select_donor w.collation w.node (the_donors w r) ≡ ok n) × (d ≡ some n)
unfolding donor_for
donor_for-ok w r false h t = absurd (cc)
donor_for-ok w r true {d} h t =
    let (n, e, k) =
      after-result [] (select_donor w.collation w.node (the_donors w r)) (λ d. pure (some d)) h in
    (n, e, sym (inj k))
  where
    inj : {x y : Option String} → Path (Result ResetError (Option String)) (ok x) (ok y) → x ≡ y
    inj e = cc

-- A directory is removed only after the process was stopped.
erase-mem : (w : World) → Memᴰ remove (erase w).trace → w.works stop ≡ true
unfolding erase
erase-mem w m =
    after-mem remove _ _ _ m (λ l. absurd (no_stop (perform-mem w stop remove l)))
      (λ u q k. perform-ok w stop q)
  where
    no_stop : remove ≢ stop
    no_stop e = cc

isolate-ok :
    (w : World) (r : Request) {u : Unit {0}}
    → (isolate w r).result ≡ ok u
    → (w.fenced && w.excluded) ≡ true
unfolding isolate perform after guard
isolate-ok w r h = elim (Bool-cases (w.works fence)) [
  | inr f ↦ absurd (cc (rw f at h))
  | inl t ↦ elim (Bool-cases (w.works exclude_routing)) [
    | inr f ↦ absurd (cc (rw (t, f) at h))
    | inl t' ↦ elim (Bool-cases (w.fenced && w.excluded)) [
      | inr f ↦ absurd (cc (rw (t, t', f) at h))
      | inl i ↦ i
    ]
  ]
]

isolate-mem : (w : World) (r : Request) → Memᴰ remove (isolate w r).trace → ⊥
unfolding isolate
isolate-mem w r m =
    after-mem remove _ _ _ m (λ l. one (perform-mem w fence remove l))
      (λ u q m1.
        after-mem remove _ _ _ m1 (λ l. two (perform-mem w exclude_routing remove l))
          (λ u q m2.
            two_guards (w.fenced && w.excluded) (r.offline || is_some w.status_again) not_fenced
              status_unavailable m2))
  where
    one : remove ≡ fence → ⊥
    one e = cc

    two_guards :
        (a b : Bool) (x y : ResetError)
        → Memᴰ remove (after (guard a x).trace (guard a x).result (λ _. guard b y)).trace
        → ⊥
    two_guards a b x y m =
        after-mem remove (guard a x).trace (guard a x).result (λ _. guard b y) m
          (λ l. guard-mem a x remove l) (λ u q l. guard-mem b y remove l)

    two : remove ≡ exclude_routing → ⊥
    two e = cc

rejoin_node-mem : (w : World) → Memᴰ remove (rejoin_node w).trace → ⊥
unfolding rejoin_node
rejoin_node-mem w m =
    after-mem remove _ _ _ m (λ l. one (perform-mem w restart remove l))
      (λ u q m1.
        after-mem remove (rejoin_check w.rejoined).trace (rejoin_check w.rejoined).result
          (λ _. perform w reinclude) m1 (λ l. check w.rejoined l)
          (λ u q l. two (perform-mem w reinclude remove l)))
  where
    one : remove ≡ restart → ⊥
    one e = cc

    two : remove ≡ reinclude → ⊥
    two e = cc

    check : (s : Option Status) → Memᴰ remove (rejoin_check s).trace → ⊥
    check none l = Memᴰ.not-nil l
    check (some s) l = guard-mem _ _ remove l

-- What holds when a directory is removed by a validated request.
abbrev pub IsSafe : World → Request → Validation → Type 0
IsSafe w r v =
    (v.dry_run ≡ false)
    × (w.works stop ≡ true)
    × (v.resync ≡ true
        → ((w.fenced && w.excluded) ≡ true)
          × (n : String) × (select_donor w.collation w.node (the_donors w r) ≡ ok n))

reset_validated-mem :
    (w : World) (r : Request) (v : Validation)
    → Memᴰ remove (reset_validated w r v).trace
    → IsSafe w r v
unfolding reset_validated when
reset_validated-mem w r v m =
    after-mem remove _ _ _ m (λ l. donor_for-mem w r v.resync remove l)
      (λ d q m1.
        after-mem remove _ _ _ m1 (λ l. absurd (when_isolate (not v.dry_run && v.resync) l))
          (λ u q1 m2.
            after-mem remove (when (not v.dry_run) (erase w)).trace
              (when (not v.dry_run) (erase w)).result _ m2
              (λ l. found q q1 (when_erase (not v.dry_run) l))
              (λ u2 q2 m3. absurd (
                after-mem remove _ _ _ m3 (λ l. when_rejoin (not v.dry_run && v.resync) l)
                  (λ u3 q3 l. last (Memᴰ.eq_of_singleton l))))))
  where
    last : remove ≡ audit → ⊥
    last e = cc

    when_isolate : (b : Bool) → Memᴰ remove (when b (isolate w r)).trace → ⊥
    when_isolate true l = isolate-mem w r l
    when_isolate false l = Memᴰ.not-nil l

    when_rejoin : (b : Bool) → Memᴰ remove (when b (rejoin_node w)).trace → ⊥
    when_rejoin true l = rejoin_node-mem w l
    when_rejoin false l = Memᴰ.not-nil l

    when_erase :
        (b : Bool) → Memᴰ remove (when b (erase w)).trace → (b ≡ true) × (w.works stop ≡ true)
    when_erase true l = (refl, erase-mem w l)
    when_erase false l = absurd (Memᴰ.not-nil l)

    isolated :
        (b : Bool) {u : Unit {0}}
        → (when b (isolate w r)).result ≡ ok u
        → b ≡ true
        → (w.fenced && w.excluded) ≡ true
    isolated true h t = isolate-ok w r h
    isolated false h t = absurd (cc)

    found :
        {d : Option String} {u : Unit {0}}
        → (donor_for w r v.resync).result ≡ ok d
        → (when (not v.dry_run && v.resync) (isolate w r)).result ≡ ok u
        → (not v.dry_run ≡ true) × (w.works stop ≡ true)
        → IsSafe w r v
    found q q1 (n, s) = (
      ground arith,
      s,
      λ t.
          let (name, e, k) = donor_for-ok w r v.resync q t in
          (isolated (not v.dry_run && v.resync) q1 (rw (n, t) refl), name, e),
    )

-- A reset removes the data directory only for a request that passed the validation, is no dry run
-- and was not answered before, and after the process was stopped; for the resync of a single
-- member it has also found a donor and seen the node fenced and excluded from the routes.
pub reset-removes :
    (w : World) (answers : Dict ResetResult) (r : Request)
    → Memᴰ remove (reset w answers r).0.trace
    → (find_answer answers r.idempotency_key ≡ none)
      × (v : Validation) × (validate w r ≡ ok v)
      × (v.dry_run ≡ false)
      × (w.works stop ≡ true)
      × (v.resync ≡ true
          → ((w.fenced && w.excluded) ≡ true)
            × (n : String) × (select_donor w.collation w.node (the_donors w r) ≡ ok n))
unfolding reset answer_or reset_new
reset-removes w answers r m = on (find_answer answers r.idempotency_key) m
  where
    on :
        (o : Option ResetResult)
        → Memᴰ remove (answer_or w answers r o).0.trace
        → (o ≡ none)
          × (v : Validation) × (validate w r ≡ ok v)
          × (v.dry_run ≡ false)
          × (w.works stop ≡ true)
          × (v.resync ≡ true
              → ((w.fenced && w.excluded) ≡ true)
                × (n : String) × (select_donor w.collation w.node (the_donors w r) ≡ ok n))
    on (some a) l = absurd (Memᴰ.not-nil l)
    on none l =
        after-mem remove [] (validate w r) (λ v. reset_validated w r v) l
          (λ k. absurd (Memᴰ.not-nil k))
          (λ v e k. let (d, s, i) = reset_validated-mem w r v k in (refl, v, e, d, s, i))
