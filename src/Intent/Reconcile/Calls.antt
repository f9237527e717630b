-- ===== src/Intent/Reconcile/Calls.antt =====
-- What a reconciliation calls (intent/reconcile.mjs).
use elera.Prelude.{
  String, ◌≡◌, refl, sym, subst, ◌⊎◌, inl, inr, Bool, true, false, Option, some, List, [], ◌∷◌,
  Memᴰ, ◌==◌, nat_eq, string_eq, Bool-cases,
}
use mathlib.Core.List.Memᴰ
use elera.Prelude.Result.{ok}
use elera.Intent.{
  Intent, Fault, Change, validate_intent, unless_faults, faults, plan_intent, planned, change_of,
  same_cluster, no_op, unsafe, restart, reload,
}
use elera.Intent.Reconcile.{
  Call, Callbacks, apply_call, reload_call, restart_call, last_call, settle, apply_change,
  carry_out, carry_planned, reconcile_intent,
}

-- When a change may lead to a call.
abbrev pub MayCall : Callbacks → Intent → Change → Call → Type 0
MayCall c d change (apply_call e) = (e ≡ d) × ((change ≡ restart) ⊎ (change ≡ reload))
MayCall c d change restart_call = (change ≡ restart) × (c.works (apply_call d) ≡ true)
MayCall c d change reload_call = (change ≡ reload) × (c.works (apply_call d) ≡ true)

last_call-mem :
    (c : Callbacks) (d : Intent) (b : Bool) (x y : Call)
    → Memᴰ x (last_call c (apply_call d ∷ []) b y).calls
    → (x ≡ apply_call d) ⊎ (x ≡ y)
unfolding last_call
last_call-mem c d false x y m = inl (Memᴰ.eq_of_singleton m)
last_call-mem c d true x y m = elim (Memᴰ.cases_cons m) [
  | inl e ↦ inl e
  | inr m' ↦ inr (Memᴰ.eq_of_singleton m')
]

-- A change that leads to calls at all.
abbrev IsCalling : Change → Type 0
IsCalling change = (change ≡ restart) ⊎ (change ≡ reload)

applies :
    (c : Callbacks) (d : Intent) (change : Change) {x : Call}
    → IsCalling change
    → x ≡ apply_call d
    → MayCall c d change x
applies c d change i e = subst (λ y. MayCall c d change y) (sym e) (refl, i)

settle-MayCall :
    (c : Callbacks) (d : Intent) (change : Change) (x : Call)
    → IsCalling change
    → c.works (apply_call d) ≡ true
    → Memᴰ x (settle c d change).calls
    → MayCall c d change x
unfolding settle
settle-MayCall c d no_op x i h m = applies c d no_op i (Memᴰ.eq_of_singleton m)
settle-MayCall c d unsafe x i h m = applies c d unsafe i (Memᴰ.eq_of_singleton m)
settle-MayCall c d restart x i h m = elim (last_call-mem c d c.has_restart x restart_call m) [
  | inl e ↦ applies c d restart i e
  | inr e ↦ subst (λ y. MayCall c d restart y) (sym e) (refl, h)
]
settle-MayCall c d reload x i h m = elim (last_call-mem c d c.has_reload x reload_call m) [
  | inl e ↦ applies c d reload i e
  | inr e ↦ subst (λ y. MayCall c d reload y) (sym e) (refl, h)
]

apply_change-MayCall :
    (c : Callbacks) (d : Intent) (change : Change) (x : Call)
    → IsCalling change
    → Memᴰ x (apply_change c d change).calls
    → MayCall c d change x
unfolding apply_change
apply_change-MayCall c d change x i m = elim (Bool-cases c.has_apply) [
  | inr f ↦ absurd (Memᴰ.not-nil (rw f at m))
  | inl t ↦ elim (Bool-cases (c.works (apply_call d))) [
    | inl h ↦ settle-MayCall c d change x i h (rw (t, h) at m)
    | inr f ↦ applies c d change i (Memᴰ.eq_of_singleton (rw (t, f) at m))
  ]
]

carry_out-MayCall :
    (c : Callbacks) (d : Intent) (change : Change) (x : Call)
    → Memᴰ x (carry_out c d change).calls
    → IsCalling change × MayCall c d change x
unfolding carry_out
carry_out-MayCall c d unsafe x m = absurd (Memᴰ.not-nil m)
carry_out-MayCall c d no_op x m = absurd (Memᴰ.not-nil m)
carry_out-MayCall c d restart x m = (inl refl, apply_change-MayCall c d restart x (inl refl) m)
carry_out-MayCall c d reload x m = (inr refl, apply_change-MayCall c d reload x (inr refl) m)

-- A change of an intent that was active keeps the identity of the cluster, or is unsafe.
calling-same :
    (hash : Intent → String) (d a : Intent)
    → IsCalling (change_of hash d (some a))
    → same_cluster hash d a ≡ true
calling-same hash d a i = elim (Bool-cases (hash d == hash a)) [
  | inl t ↦ absurd (none_calling (rw t at i))
  | inr f ↦ elim (Bool-cases (same_cluster hash d a)) [
    | inl s ↦ s
    | inr g ↦ absurd (unsafe_calling (rw (f, g) at i))
  ]
]
  where
    none_calling : IsCalling no_op → ⊥
    none_calling (inl e) = cc
    none_calling (inr e) = cc

    unsafe_calling : IsCalling unsafe → ⊥
    unsafe_calling (inl e) = cc
    unsafe_calling (inr e) = cc

-- A reconciliation calls nothing unless the desired intent is valid and an intent that is active
-- has its cluster name and members. It applies only the desired intent; it restarts only for a
-- restart and reloads only for a reload, each after `apply` worked.
pub reconcile_intent-MayCall :
    (hash : Intent → String) (c : Callbacks) (desired : Intent) (active : Option Intent) (x : Call)
    → Memᴰ x (reconcile_intent hash c desired active).calls
    → (validate_intent desired ≡ ok desired)
      × MayCall c desired (change_of hash desired active) x
      × ((a : Intent) → active ≡ some a → same_cluster hash desired a ≡ true)
unfolding reconcile_intent carry_planned plan_intent validate_intent
reconcile_intent-MayCall hash c desired active x m = on (faults desired) m
  where
    on :
        (fs : List Fault)
        → Memᴰ x (carry_planned c desired (planned hash active (unless_faults desired fs))).calls
        → (unless_faults desired fs ≡ ok desired)
          × MayCall c desired (change_of hash desired active) x
          × ((a : Intent) → active ≡ some a → same_cluster hash desired a ≡ true)
    on (f ∷ fs) m = absurd (Memᴰ.not-nil m)
    on [] m =
        let (i, k) = carry_out-MayCall c desired (change_of hash desired active) x m in
        (refl, k, λ a e. calling-same hash desired a (rw e at i))
