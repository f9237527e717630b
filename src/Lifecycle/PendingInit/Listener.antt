-- ===== src/Lifecycle/PendingInit/Listener.antt =====
-- The listener of a pending node and its timer (lifecycle/pending-init/runtime.mjs).
use elera.Prelude.{
  ℕ, ◌+◌, ◌≤◌, ◌≡◌, refl, ◌∙◌, Bool, true, false, ◌&&◌, List, [], ◌∷◌, ◌++◌, arith, nat_eq,
  string_eq, if◌then◌else◌, count,
}
use elera.Lifecycle.PendingInit.{Operation, bootstrap, join, join_pending, standalone_init}

pub data Effect : Type 0 where
  close_listener retry remove_handlers : Effect
  hand_off : (bootstrap_cluster : Bool) → Effect

-- The variables of `startPendingInitRuntime`; `ticking` says whether the retry timer runs.
pub record Runtime : Type 0 where
  pub shutting_down : Bool
  pub listener_closed : Bool
  pub ticking : Bool
  pub effects : List Effect

-- What happens to the runtime: a join or a bootstrap was handed over (a bootstrap may answer
-- `false`), the data was initialized, the timer ticked, a signal came.
pub data Event : Type 0 where
  recovery_join tick signal stop : Event
  recovery_bootstrap : (result : Bool) → Event
  initialized : Operation → Event

abbrev pub emit : Effect → Runtime → Runtime
emit e r = record r { effects = r.effects ++ e ∷ [] }

-- `closePending`
unfoldable pub close_pending : Runtime → Runtime
close_pending r =
    if r.listener_closed
    then r
    else emit close_listener (record r { listener_closed = true; ticking = false })

-- `shutdown`, whose handlers are removed when the listener is closed.
unfoldable pub shutdown : Runtime → Runtime
shutdown r =
    if r.shutting_down
    then r
    else if r.listener_closed
    then emit remove_handlers (record r { shutting_down = true; ticking = false })
    else emit remove_handlers (
        emit close_listener
          (record r { shutting_down = true; listener_closed = true; ticking = false }))

abbrev is_bootstrap : Operation → Bool
is_bootstrap bootstrap = true
is_bootstrap _ = false

-- `onInitialized`
unfoldable pub on_initialized : Operation → Runtime → Runtime
unfolding close_pending
on_initialized join_pending r = r
on_initialized o r = emit (hand_off (is_bootstrap o)) (close_pending r)

unfoldable pub step : Event → Runtime → Runtime
unfolding close_pending shutdown on_initialized
step recovery_join r = close_pending r
step (recovery_bootstrap b) r = if b then close_pending r else r
step (initialized o) r = on_initialized o r
step tick r = if r.ticking then emit retry r else r
step signal r = shutdown r
step stop r = shutdown (record r { ticking = false })

-- The runtime once it listens; the timer runs where a recovery is required that can be retried.
abbrev pub start : (recovery_required can_retry : Bool) → Runtime
start required can_retry = record {
  shutting_down = false;
  listener_closed = false;
  ticking = required && can_retry;
  effects = [];
}

unfoldable pub run : List Event → Runtime → Runtime
unfolding step
run [] r = r
run (e ∷ es) r = run es (step e r)

abbrev pub is_close : Effect → Bool
is_close close_listener = true
is_close _ = false

abbrev pub is_retry : Effect → Bool
is_retry retry = true
is_retry _ = false

count-append :
    {A : Type 0} (p : A → Bool) (xs : List A) (x : A)
    → count p (xs ++ x ∷ []) ≡ count p xs + (if p x then 1 else 0)
count-append p [] x = ground arith
count-append p (y ∷ ys) x = ground (arith, count-append p ys x)

-- The number of closings is the listener's state, and a closed listener has no timer.
abbrev IsConsistent : Runtime → Type 0
IsConsistent r =
    (count is_close r.effects ≡ (if r.listener_closed then 1 else 0))
    × (r.listener_closed ≡ true → r.ticking ≡ false)

emit-IsConsistent :
    (e : Effect) (r : Runtime) → is_close e ≡ false → IsConsistent r → IsConsistent (emit e r)
emit-IsConsistent e r h (c, t) = (count-append is_close r.effects e ∙ rw h (omega (arith, c)), t)

if-IsConsistent :
    (b : Bool) (x y : Runtime)
    → (b ≡ true → IsConsistent x)
    → (b ≡ false → IsConsistent y)
    → IsConsistent (if b then x else y)
if-IsConsistent true x y f g = f refl
if-IsConsistent false x y f g = g refl

-- Closing an open listener once.
closed-IsConsistent :
    (r r' : Runtime)
    → r.listener_closed ≡ false
    → r'.effects ≡ r.effects ++ close_listener ∷ []
    → r'.listener_closed ≡ true
    → r'.ticking ≡ false
    → IsConsistent r
    → IsConsistent r'
closed-IsConsistent r r' o e l t (c, _) =
    (rw (e, l) (count-append is_close r.effects close_listener ∙ omega (arith, rw o at c)), λ _. t)

close_pending-IsConsistent : (r : Runtime) → IsConsistent r → IsConsistent (close_pending r)
unfolding close_pending
close_pending-IsConsistent r k =
    if-IsConsistent r.listener_closed r _ (λ _. k)
      (λ o.
        closed-IsConsistent r
          (emit close_listener (record r { listener_closed = true; ticking = false })) o refl refl
          refl k)

shutdown-IsConsistent : (r : Runtime) → IsConsistent r → IsConsistent (shutdown r)
unfolding shutdown
shutdown-IsConsistent r k =
    if-IsConsistent r.shutting_down r _ (λ _. k)
      (λ _.
        if-IsConsistent r.listener_closed _ _
          (λ _.
            emit-IsConsistent remove_handlers (record r { shutting_down = true; ticking = false })
              refl (k.0, λ _. refl))
          (λ o.
            let shut =
              emit close_listener
                (record r { shutting_down = true; listener_closed = true; ticking = false }) in
            emit-IsConsistent remove_handlers shut refl
              (closed-IsConsistent r shut o refl refl refl k)))

on_initialized-IsConsistent :
    (o : Operation) (r : Runtime) → IsConsistent r → IsConsistent (on_initialized o r)
unfolding on_initialized
on_initialized-IsConsistent join_pending r k = k
on_initialized-IsConsistent standalone_init r k =
    emit-IsConsistent (hand_off false) (close_pending r) refl (close_pending-IsConsistent r k)
on_initialized-IsConsistent bootstrap r k =
    emit-IsConsistent (hand_off true) (close_pending r) refl (close_pending-IsConsistent r k)
on_initialized-IsConsistent join r k =
    emit-IsConsistent (hand_off false) (close_pending r) refl (close_pending-IsConsistent r k)

step-IsConsistent : (e : Event) (r : Runtime) → IsConsistent r → IsConsistent (step e r)
unfolding step
step-IsConsistent recovery_join r k = close_pending-IsConsistent r k
step-IsConsistent (recovery_bootstrap b) r k =
    if-IsConsistent b _ r (λ _. close_pending-IsConsistent r k) (λ _. k)
step-IsConsistent (initialized o) r k = on_initialized-IsConsistent o r k
step-IsConsistent tick r k =
    if-IsConsistent r.ticking _ r (λ _. emit-IsConsistent retry r refl k) (λ _. k)
step-IsConsistent signal r k = shutdown-IsConsistent r k
step-IsConsistent stop r k = shutdown-IsConsistent (record r { ticking = false }) (k.0, λ _. refl)

run-IsConsistent : (es : List Event) (r : Runtime) → IsConsistent r → IsConsistent (run es r)
unfolding run
run-IsConsistent [] r k = k
run-IsConsistent (e ∷ es) r k = run-IsConsistent es (step e r) (step-IsConsistent e r k)

-- Whatever happens to a pending node, in whatever order, its listener is closed at most once, and
-- after that its timer asks for no retry any more.
pub run-closes :
    (required can_retry : Bool) (es : List Event)
    → (count is_close (run es (start required can_retry)).effects ≤ 1)
      × ((run es (start required can_retry)).listener_closed ≡ true
          → step tick (run es (start required can_retry)) ≡ run es (start required can_retry))
unfolding step
run-closes required can_retry es =
    let r = run es (start required can_retry) in
    let (c, t) = run-IsConsistent es (start required can_retry) (refl, λ h. absurd (cc)) in
    (bound r.listener_closed c, λ h. rw (t h) refl)
  where
    bound : {n : ℕ} (b : Bool) → n ≡ (if b then 1 else 0) → n ≤ 1
    bound true e = omega (arith, e)
    bound false e = omega (arith, e)
