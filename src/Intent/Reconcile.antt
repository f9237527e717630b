-- ===== src/Intent/Reconcile.antt =====
-- Bringing a new intent into effect (intent/reconcile.mjs).
pub mod Calls
use elera.Prelude.{
  ℕ, zero, suc, ◌+◌, ◌-◌, ◌*◌, ◌/◌, ◌%◌, ◌^◌, ◌≤◌, ◌<◌, min, max, String, ◌≡◌, refl, sym, ap, ap₂,
  subst, ◌∙◌, ◌≢◌, ◌↔◌, ◌⊎◌, inl, inr, Bool, true, false, not, ◌&&◌, ◌||◌, Option, none, some, List,
  [], ◌∷◌, ◌++◌, map, Memᴰ, arith, eq_iff, ltb, leb, nat_eqb, Eq, ◌==◌, nat_eq, string_eq,
  if◌then◌else◌, ltb→lt, lt→ltb, leb→le, Bool-cases, Option-cases, &&-left, &&-right, is_some,
  length, filter, any, all, find, count, head?, get_last?, length-append, length-filter,
  count-le-length, mem-filter, mem-filter_of, any_of_mem, mem_of_any, all_mem, any-false_mem,
  find-some, find-none, count-add-le, mem_of_count, count_le_of, count_pos, includes, dedupe,
  dedupe_onto, nat_eqb_iff,
}
use elera.Prelude.Result.{Result, ok, err}
use elera.Intent.{
  Intent, IntentError, Plan, Change, validate_intent, plan_intent, change_of, is_change, planned,
  plan_valid, unsafe_change, no_apply, callback_failed, no_op, unsafe, restart, reload,
}

pub data Call : Type 0 where
  apply_call : Intent → Call
  reload_call restart_call : Call

-- Which callbacks there are, and which of them work.
pub record Callbacks : Type 0 where
  pub has_apply : Bool
  pub has_reload : Bool
  pub has_restart : Bool
  pub works : Call → Bool

pub record Outcome : Type 0 where
  pub calls : List Call
  pub result : Result IntentError Bool

abbrev pub thrown : IntentError → Outcome
thrown e = record { calls = []; result = err e }

-- `await reload?.()`: the last call, where there is one.
unfoldable pub last_call : Callbacks → List Call → Bool → Call → Outcome
last_call c before false x = record { calls = before; result = ok true }
last_call c before true x = record {
  calls = before ++ x ∷ [];
  result = if c.works x then ok true else err callback_failed;
}

-- What follows a call of `apply` that worked.
unfoldable pub settle : Callbacks → Intent → Change → Outcome
unfolding last_call
settle c d reload = last_call c (apply_call d ∷ []) c.has_reload reload_call
settle c d restart = last_call c (apply_call d ∷ []) c.has_restart restart_call
settle c d _ = record { calls = apply_call d ∷ []; result = ok true }

unfoldable pub apply_change : Callbacks → Intent → Change → Outcome
unfolding settle
apply_change c d change =
    if not c.has_apply
    then thrown no_apply
    else if c.works (apply_call d)
    then settle c d change
    else record { calls = apply_call d ∷ []; result = err callback_failed }

unfoldable pub carry_out : Callbacks → Intent → Change → Outcome
unfolding apply_change
carry_out c d unsafe = thrown unsafe_change
carry_out c d no_op = record { calls = []; result = ok false }
carry_out c d restart = apply_change c d restart
carry_out c d reload = apply_change c d reload

unfoldable pub carry_planned : Callbacks → Intent → Result IntentError Plan → Outcome
unfolding carry_out
carry_planned c d (err e) = thrown e
carry_planned c d (ok p) = carry_out c d p.change

-- `reconcileIntent`: the calls, and `true` for applied, `false` for unchanged.
unfoldable pub reconcile_intent : (Intent → String) → Callbacks → Intent → Option Intent → Outcome
unfolding carry_planned plan_intent
reconcile_intent hash c desired active = carry_planned c desired (plan_intent hash desired active)
