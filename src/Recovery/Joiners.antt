-- ===== src/Recovery/Joiners.antt =====
-- The recovery of the other members one at a time (runtime/sequential-joiners.mjs).
use elera.Prelude.{
  ℕ, String, ◌≡◌, refl, sym, ap, ◌∙◌, inl, inr, Bool, true, false, not, ◌&&◌, ◌||◌, Option, none,
  some, List, [], ◌∷◌, ◌++◌, arith, nat_eqb, nat_eq, string_eq, if◌then◌else◌, Bool-cases, length,
  any, all, dedupe,
}
use elera.Prelude.Result.{Result, ok, err}
use elera.Prelude.Text.{codes}
use elera.Recovery.State.{
  Recovery, joining, complete, cluster_unavailable, EpochId, same_epoch?, set, snapshot, StateError,
  Details,
}

pub data JoinError : Type 0 where
  bad_joiners stale_recovery_epoch joiner_not_ready publish_failed : JoinError
  state_error : StateError → JoinError

-- What is around the loop: whether a joiner can be started, whether it is verified once it runs, and
-- whether the recovery can be published.
pub record World : Type 0 where
  pub starts : String → Bool
  pub is_valid : String → Bool
  pub publishes : Bool

abbrev pub Step : Type 0
Step = Result JoinError (List String) × Recovery

-- A stale epoch: both are defined and differ.
abbrev pub is_stale : Option EpochId → Option EpochId → Bool
is_stale (some a) (some b) = not (same_epoch? (some a) (some b))
is_stale _ _ = false

abbrev details : Option EpochId → List String → Details
details epoch members = record { reason = none; epoch = epoch; members = members }

-- The handler of an error in the loop; an error of `set` itself takes its place.
unfoldable pub fail : JoinError → Option EpochId → List String → Recovery → Step
fail e epoch completed r = on (set r cluster_unavailable (details epoch completed))
  where
    on : Result StateError Recovery → Step
    on (ok r') = (err e, r')
    on (err x) = (err (state_error x), r)

-- After the last joiner.
unfoldable pub finish : World → Option EpochId → List String → Recovery → Step
finish w epoch completed r = on (set r complete (details epoch completed))
  where
    on : Result StateError Recovery → Step
    on (ok r') = if w.publishes then (ok completed, r') else (err publish_failed, r')
    on (err x) = (err (state_error x), r)

-- The loop, with the members completed so far.
unfoldable pub join_each : World → Option EpochId → List String → List String → Recovery → Step
unfolding fail finish
join_each w epoch [] completed r = finish w epoch completed r
join_each w epoch (j ∷ js) completed r =
    let rest = join_each w epoch js (completed ++ j ∷ []) r in
    if is_stale epoch (snapshot r).epoch
    then fail stale_recovery_epoch epoch completed r
    else if not (w.starts j && w.is_valid j)
    then fail joiner_not_ready epoch completed r
    else rest

abbrev has_dot : String → Bool
has_dot s = includes_dot (codes s)
  where
    includes_dot : List ℕ → Bool
    includes_dot = any (λ c. nat_eqb c b'.')

abbrev has_duplicate : List String → Bool
has_duplicate names = not (nat_eqb (length (dedupe names)) (length names))

-- After `recoveryState.set('joining', ...)`.
unfoldable pub started :
    World → Option EpochId → List String → Recovery → Result StateError Recovery → Step
unfolding join_each
started w epoch joiners r (ok r') = join_each w epoch joiners [] r'
started w epoch joiners r (err x) = (err (state_error x), r)

-- `recoverJoinersSequentially`
unfoldable pub recover_joiners : World → Option EpochId → List String → Recovery → Step
unfolding started
recover_joiners w epoch joiners r =
    if any (λ j. not (has_dot j)) joiners || has_duplicate joiners
    then (err bad_joiners, r)
    else started w epoch joiners r (set r joining (details epoch []))

fail-err :
    (e : JoinError) (epoch : Option EpochId) (completed : List String) (r : Recovery)
    {done : List String}
    → (fail e epoch completed r).0 ≡ ok done
    → ⊥
unfolding fail
fail-err e epoch completed r h = ground (arith)

append_snoc : {A : Type 0} (xs : List A) (y : A) (ys : List A) → (xs ++ y ∷ []) ++ ys ≡ xs ++ y ∷ ys
append_snoc [] y ys = refl
append_snoc (x ∷ xs) y ys = ap (λ l. x ∷ l) (append_snoc xs y ys)

append_none : {A : Type 0} (xs : List A) → xs ++ [] ≡ xs
append_none [] = refl
append_none (x ∷ xs) = ap (λ l. x ∷ l) (append_none xs)

finish-ok :
    (w : World) (epoch : Option EpochId) (completed : List String) (r : Recovery)
    (done : List String)
    → (finish w epoch completed r).0 ≡ ok done
    → done ≡ completed
unfolding finish
finish-ok w epoch completed r done h = ground arith

join_each-ok :
    (w : World) (epoch : Option EpochId) (js completed : List String) (r : Recovery)
    (done : List String)
    → (join_each w epoch js completed r).0 ≡ ok done
    → (done ≡ completed ++ js) × (all (λ j. w.starts j && w.is_valid j) js ≡ true)
unfolding join_each
join_each-ok w epoch [] completed r done h =
    (finish-ok w epoch completed r done h ∙ sym (append_none completed), refl)
join_each-ok w epoch (j ∷ js) completed r done h =
    elim (Bool-cases (is_stale epoch (snapshot r).epoch)) [
      | inl t ↦ absurd (fail-err stale_recovery_epoch epoch completed r (rw t at h))
      | inr f ↦ elim (Bool-cases (w.starts j && w.is_valid j)) [
        | inr x ↦ absurd (fail-err joiner_not_ready epoch completed r (rw (f, x) at h))
        | inl t ↦
            let (e, a) = join_each-ok w epoch js (completed ++ j ∷ []) r done (rw (f, t) at h) in
            (e ∙ append_snoc completed j js, rw t a)
      ]
    ]

-- A recovery of joiners that succeeds has started and verified every one of them, and reports them
-- all, in their order.
pub recover_joiners-ok :
    (w : World) (epoch : Option EpochId) (joiners : List String) (r : Recovery) (done : List String)
    → (recover_joiners w epoch joiners r).0 ≡ ok done
    → (done ≡ joiners) × (all (λ j. w.starts j && w.is_valid j) joiners ≡ true)
unfolding recover_joiners started
recover_joiners-ok w epoch joiners r done h =
    elim (Bool-cases (any (λ j. not (has_dot j)) joiners || has_duplicate joiners)) [
      | inl t ↦ absurd (cc (rw t at h))
      | inr f ↦ on (set r joining (details epoch [])) (rw f at h)
    ]
  where
    on :
        (s : Result StateError Recovery)
        → (started w epoch joiners r s).0 ≡ ok done
        → (done ≡ joiners) × (all (λ j. w.starts j && w.is_valid j) joiners ≡ true)
    on (ok r') k = join_each-ok w epoch joiners [] r' done k
    on (err x) k = absurd (cc)
