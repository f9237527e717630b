-- ===== src/Lifecycle/Reset.antt =====
-- The reset of a node's data directory (lifecycle/node-data-reset.mjs,
-- lifecycle/node-reset-validation.mjs, lifecycle/node-reset-donors.mjs,
-- lifecycle/node-reset-readiness.mjs).
pub mod Order
use elera.Prelude.{
  ℕ, zero, suc, ◌+◌, ◌-◌, ◌*◌, ◌/◌, ◌%◌, ◌^◌, ◌≤◌, ◌<◌, min, max, String, ◌≡◌, refl, sym, ap, ap₂,
  subst, ◌∙◌, ◌≢◌, ◌↔◌, ◌⊎◌, inl, inr, Bool, true, false, not, ◌&&◌, ◌||◌, Option, none, some, List,
  [], ◌∷◌, ◌++◌, map, Memᴰ, arith, eq_iff, ltb, leb, nat_eqb, Eq, ◌==◌, nat_eq, string_eq,
  if◌then◌else◌, ltb→lt, lt→ltb, leb→le, Bool-cases, Option-cases, &&-left, &&-right, is_some,
  length, filter, any, all, find, count, head?, get_last?, length-append, length-filter,
  count-le-length, mem-filter, mem-filter_of, any_of_mem, mem_of_any, all_mem, any-false_mem,
  find-some, find-none, count-add-le, mem_of_count, count_le_of, count_pos, includes, dedupe,
  dedupe_onto, nat_eqb_iff,
}
use elera.Prelude.Dict.{Dict, get, put}
use elera.Prelude.Sort.{sort}
use elera.Prelude.Result.{Result, ok, err}
use elera.Collation.{Collation}
use elera.Prelude.Text.{append}

-- The status variables that the reset reads; a variable that is missing is the empty text.
pub record Status : Type 0 where
  pub ready : Bool
  pub local_state : String
  pub wsrep_ready : String
  pub cluster_status : String
  pub initialized : Bool
  pub recovery_blocked : Bool

pub record Donor : Type 0 where
  pub node : String
  pub healthy : Bool
  pub primary : Bool

pub data Disposition : Type 0 where
  single_member_resync reset_initialized_data unnamed : Disposition

pub data DryRun : Type 0 where
  left_out not_boolean : DryRun
  given : Bool → DryRun

pub record Request : Type 0 where
  pub node : Option String
  pub data_dir : Option String
  pub confirmation : Option String
  pub dry_run : DryRun
  pub idempotency_key : Option String
  pub offline : Bool
  pub force : Bool
  pub disposition : Disposition
  pub donor : Option Donor

-- What the reset makes happen, in its order.
pub data Effect : Type 0 where
  fence exclude_routing stop remove restart reinclude audit : Effect

pub data ResetError : Type 0 where
  wrong_node wrong_directory not_confirmed bad_dry_run needs_key status_unavailable : ResetError
  healthy_node active_recovery needs_force no_donor not_fenced not_rejoined not_primary : ResetError
  failed : Effect → ResetError

-- `createNodeDataReset` with the answers of the code around it: a status is `none` where reading
-- it throws, an effect fails where `works` says no, and `rejoined` is what `waitForRejoin` returns.
pub record World : Type 0 where
  pub collation : Collation
  pub node : String
  pub data_dir : String
  pub resolve : String → String
  pub offline_recovery : Bool
  pub status : Option Status
  pub status_again : Option Status
  pub recovery_active : Bool
  pub donors : List Donor
  pub works : Effect → Bool
  pub fenced : Bool
  pub excluded : Bool
  pub rejoined : Option Status

pub record Validation : Type 0 where
  pub dry_run : Bool
  pub resync : Bool
  pub initialized : Bool

pub data Next : Type 0 where
  rejoin explicit_recovery reincluded : Next

pub record ResetResult : Type 0 where
  pub dry_run : Bool
  pub initialized : Bool
  pub resync : Bool
  pub donor : Option String
  pub next : Next

-- A run: what it did, and what it returned or threw.
pub record Run (A : Type 0) : Type 0 where
  pub trace : List Effect
  pub result : Result ResetError A

abbrev pub pure : {A : Type 0} → A → Run A
pure a = record { trace = []; result = ok a }

abbrev pub throw : {A : Type 0} → ResetError → Run A
throw e = record { trace = []; result = err e }

unfoldable pub after : {A B : Type 0} → List Effect → Result ResetError A → (A → Run B) → Run B
after t (err e) k = record { trace = t; result = err e }
after t (ok a) k = record { trace = t ++ (k a).trace; result = (k a).result }

infixr 5 ◌>>=◌ ◌>>◌
abbrev pub ◌>>=◌ : {A B : Type 0} → Run A → (A → Run B) → Run B
m >>= k = after m.trace m.result k

abbrev pub ◌>>◌ : {B : Type 0} → Run (Unit {0}) → Run B → Run B
m >> k = m >>= λ _. k

unfoldable pub guard : Bool → ResetError → Run (Unit {0})
guard true e = pure tt
guard false e = throw e

-- An effect is in the trace whether it works or fails.
unfoldable pub perform : World → Effect → Run (Unit {0})
perform w e = record { trace = e ∷ []; result = if w.works e then ok tt else err (failed e) }

unfoldable pub when : Bool → Run (Unit {0}) → Run (Unit {0})
when true m = m
when false m = pure tt

abbrev pub is_synced_primary : Status → Bool
is_synced_primary s =
    s.local_state == "Synced" && s.wsrep_ready == "ON" && s.cluster_status == "Primary"

abbrev pub is_text : Option String → String → Bool
is_text none b = false
is_text (some a) b = a == b

abbrev pub right_directory : World → Option String → Bool
right_directory w none = true
right_directory w (some d) = w.resolve d == w.resolve w.data_dir

abbrev pub dry_run_of : DryRun → Result ResetError Bool
dry_run_of left_out = ok false
dry_run_of (given b) = ok b
dry_run_of not_boolean = err bad_dry_run

abbrev pub lift : {A : Type 0} → Result ResetError A → Run A
lift r = record { trace = []; result = r }

abbrev pub has_key : Option String → Bool
has_key none = false
has_key (some k) = not (k == "")

-- `{ ready: false, values: {} }`
abbrev pub offline_status : Status
offline_status = record {
  ready = false;
  local_state = "";
  wsrep_ready = "";
  cluster_status = "";
  initialized = false;
  recovery_blocked = false;
}

abbrev pub status_of : Bool → Option Status → Result ResetError Status
status_of may_be_offline (some s) = ok s
status_of true none = ok offline_status
status_of false none = err status_unavailable

abbrev pub is_resync : Disposition → Bool
is_resync single_member_resync = true
is_resync _ = false

abbrev pub is_named : Disposition → Bool
is_named unnamed = false
is_named _ = true

-- `if (bad) throw e;` and what follows it.
unfoldable pub ensure : {A : Type 0} → Bool → ResetError → Result ResetError A → Result ResetError A
ensure true e m = m
ensure false e m = err e

-- A value that is read, or the error in its place, and what follows it.
unfoldable pub with_value :
    {A B : Type 0} → Result ResetError A → (A → Result ResetError B) → Result ResetError B
with_value (ok a) k = k a
with_value (err e) k = err e

-- The refusals on the status of the node.
unfoldable pub check_status :
    World → Request → (dry_run : Bool) → Status → Result ResetError Validation
unfolding ensure
check_status w r dry_run s =
    let resync = is_resync r.disposition in
    let initialized = s.local_state == "Initialized" || s.initialized in
    ensure (resync || not (s.ready || s.local_state == "Synced" || s.cluster_status == "Primary"))
      healthy_node
      (ensure (not (w.recovery_active || s.recovery_blocked)) active_recovery (
        ensure (not initialized || (r.force && is_named r.disposition)) needs_force
          (ok (record { dry_run = dry_run; resync = resync; initialized = initialized }))))

-- `validateNodeDataReset`; `confirmation` is `RESET <node>`.
unfoldable pub validate : World → Request → Result ResetError Validation
unfolding check_status ensure with_value
validate w r = ensure (is_text r.node w.node) wrong_node (
    ensure (right_directory w r.data_dir) wrong_directory (
      ensure (is_text r.confirmation (append "RESET " w.node)) not_confirmed (
        with_value (dry_run_of r.dry_run) (λ dry_run.
          ensure (dry_run || has_key r.idempotency_key) needs_key (
            with_value (status_of (w.offline_recovery && r.offline) w.status)
              (λ s. check_status w r dry_run s))))))

-- `selectRecoveryDonor`
unfoldable pub select_donor : Collation → String → List Donor → Result ResetError String
select_donor c node donors = first (
    head? (
      sort (λ a b. c.leq a.node b.node)
        (filter (λ d. d.healthy && d.primary && not (d.node == node)) donors)))
  where
    first : Option Donor → Result ResetError String
    first none = err no_donor
    first (some d) = ok d.node

abbrev pub the_donors : World → Request → List Donor
the_donors w r = if r.offline then of_option r.donor else w.donors
  where
    of_option : Option Donor → List Donor
    of_option none = []
    of_option (some d) = d ∷ []

unfoldable pub donor_for : World → Request → Bool → Run (Option String)
unfolding after
donor_for w r false = pure none
donor_for w r true = lift (select_donor w.collation w.node (the_donors w r)) >>= λ d. pure (some d)

-- Fencing and routing exclusion, before a resync.
unfoldable pub isolate : World → Request → Run (Unit {0})
unfolding perform after guard
isolate w r =
    perform w fence
    >> perform w exclude_routing
    >> guard (w.fenced && w.excluded) not_fenced
    >> guard (r.offline || is_some w.status_again) status_unavailable

abbrev pub rejoin_check : Option Status → Run (Unit {0})
rejoin_check none = throw not_rejoined
rejoin_check (some s) = guard (is_synced_primary s) not_primary

-- The restart and the rejoin of a resync.
unfoldable pub rejoin_node : World → Run (Unit {0})
unfolding perform after guard
rejoin_node w = perform w restart >> rejoin_check w.rejoined >> perform w reinclude

unfoldable pub erase : World → Run (Unit {0})
unfolding perform after
erase w = perform w stop >> perform w remove

-- The part of `reset` after the validation.
unfoldable pub reset_validated : World → Request → Validation → Run ResetResult
unfolding isolate erase rejoin_node perform after donor_for when
reset_validated w r v = donor_for w r v.resync >>= λ donor.
    when (not v.dry_run && v.resync) (isolate w r)
    >> when (not v.dry_run) (erase w)
    >> when (not v.dry_run && v.resync) (rejoin_node w)
    >> record {
      trace = audit ∷ [];
      result = ok (record {
        dry_run = v.dry_run;
        initialized = v.initialized;
        resync = v.resync;
        donor = donor;
        next = if not v.resync then explicit_recovery else if v.dry_run then rejoin else reincluded;
      });
    }

-- `reset` of a request that was not answered before.
unfoldable pub reset_new : World → Request → Run ResetResult
unfolding validate reset_validated after
reset_new w r = lift (validate w r) >>= λ v. reset_validated w r v

abbrev pub find_answer : Dict ResetResult → Option String → Option ResetResult
find_answer answers none = none
find_answer answers (some k) = get answers k

abbrev pub keep_answer :
    Dict ResetResult → Option String → Result ResetError ResetResult → Dict ResetResult
keep_answer answers (some k) (ok a) = if k == "" then answers else put answers k a
keep_answer answers _ _ = answers

-- The answer that was kept, or a new run.
unfoldable pub answer_or :
    World → Dict ResetResult → Request → Option ResetResult → Run ResetResult × Dict ResetResult
unfolding reset_new
answer_or w answers r (some a) = (pure a, answers)
answer_or w answers r none =
    (reset_new w r, keep_answer answers r.idempotency_key (reset_new w r).result)

-- `reset`, with the answers kept by their idempotency keys.
unfoldable pub reset : World → Dict ResetResult → Request → Run ResetResult × Dict ResetResult
unfolding answer_or
reset w answers r = answer_or w answers r (find_answer answers r.idempotency_key)
