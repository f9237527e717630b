-- ===== src/Intent/State.antt =====
-- The intent on disk: the active one, its rendering and the last known good one
-- (intent/state.mjs).
pub mod Applied
pub mod Register
use elera.Prelude.{
  ℕ, zero, suc, ◌+◌, ◌-◌, ◌*◌, ◌/◌, ◌%◌, ◌^◌, ◌≤◌, ◌<◌, min, max, String, ◌≡◌, refl, sym, ap, ap₂,
  subst, ◌∙◌, ◌≢◌, ◌↔◌, ◌⊎◌, inl, inr, Bool, true, false, not, ◌&&◌, ◌||◌, Option, none, some, List,
  [], ◌∷◌, ◌++◌, map, Memᴰ, arith, eq_iff, ltb, leb, nat_eqb, Eq, ◌==◌, nat_eq, string_eq,
  if◌then◌else◌, ltb→lt, lt→ltb, leb→le, Bool-cases, Option-cases, &&-left, &&-right, is_some,
  length, filter, any, all, find, count, head?, get_last?, length-append, length-filter,
  count-le-length, mem-filter, mem-filter_of, any_of_mem, mem_of_any, all_mem, any-false_mem,
  find-some, find-none, count-add-le, mem_of_count, count_le_of, count_pos, includes, dedupe,
  dedupe_onto, nat_eqb_iff,
}
use elera.Prelude.Result.{Result, ok, err}
use elera.Intent.{
  Intent, IntentError, Plan, Change, unreadable, not_written, no_op, restart, reload,
}
use elera.Intent.Render.{Line, Rendered, render_intent}

-- What a file holds. An intent that is written is read back as it was written.
pub data File : Type 0 where
  missing broken : File
  holds : Intent → File

pub record Disk : Type 0 where
  pub active : File
  pub rendered : Option (List Line)
  pub previous : File

-- One `atomicWrite`: whether the temporary file is written, and whether it is renamed.
pub record Attempt : Type 0 where
  pub written : Bool
  pub renamed : Bool

-- What the file system answers to one `apply`.
pub record Answers : Type 0 where
  pub directory : Bool
  pub previous : Attempt
  pub active : Attempt
  pub rendered : Attempt
  pub restored : Attempt

-- The target changes when both steps of the write work, and not before.
unfoldable pub lands : Attempt → Bool
lands a = a.written && a.renamed

-- `readActive`
unfoldable pub read_active : File → Result IntentError (Option Intent)
read_active missing = ok none
read_active broken = err unreadable
read_active (holds d) = ok (some d)

unfoldable pub then_with :
    {A B : Type 0} → Result IntentError A → (A → Result IntentError B) → Result IntentError B
then_with (err e) k = err e
then_with (ok a) k = k a

pub record Verdict : Type 0 where
  pub agrees : Bool
  pub desired_hash : String
  pub active_hash : Option String

pub record Receipt : Type 0 where
  pub hash : String
  pub had_previous : Bool

module _ (hash : Intent → String) where
  abbrev plan_rendered : Rendered → Option Rendered → Plan
  plan_rendered r none = record {
    change = restart;
    changed = true;
    desired_hash = r.hash;
    active_hash = none;
  }
  plan_rendered r (some a) = record {
    change = if a.hash == r.hash then no_op else reload;
    changed = not (a.hash == r.hash);
    desired_hash = r.hash;
    active_hash = some a.hash;
  }

  abbrev render_active : Option Intent → Result IntentError (Option Rendered)
  render_active none = ok none
  render_active (some a) = then_with (render_intent hash a) (λ r. ok (some r))

  -- `plan`
  unfoldable pub plan : Disk → Intent → Result IntentError Plan
  unfolding then_with read_active render_intent
  plan disk intent = then_with (render_intent hash intent) (λ r.
      then_with (read_active disk.active)
        (λ active. then_with (render_active active) (λ a. ok (plan_rendered r a))))

  abbrev verdict : Rendered → Option Rendered → Verdict
  verdict r none = record { agrees = false; desired_hash = r.hash; active_hash = none }
  verdict r (some a) = record {
    agrees = a.hash == r.hash;
    desired_hash = r.hash;
    active_hash = some a.hash;
  }

  -- `verify`
  unfoldable pub verify : Disk → Intent → Result IntentError Verdict
  unfolding then_with read_active render_intent
  verify disk intent = then_with (render_intent hash intent) (λ r.
      then_with (read_active disk.active)
        (λ active. then_with (render_active active) (λ a. ok (verdict r a))))

-- The writes of `apply`, each after the one before it landed; where one fails, the disk so far.
pub data Written : Type 0 where
  failed_at : Disk → Written
  done : Disk → Written

unfoldable pub write_previous : Answers → Option Intent → Disk → Written
unfolding lands
write_previous w none disk = done disk
write_previous w (some a) disk =
    if lands w.previous then done (record disk { previous = holds a }) else failed_at disk

unfoldable pub write_active : Answers → Rendered → Written → Written
unfolding lands
write_active w r (failed_at disk) = failed_at disk
write_active w r (done disk) =
    if lands w.active then done (record disk { active = holds r.intent }) else failed_at disk

unfoldable pub write_rendered : Answers → Rendered → Written → Written
unfolding lands
write_rendered w r (failed_at disk) = failed_at disk
write_rendered w r (done disk) =
    if lands w.rendered then done (record disk { rendered = some r.mariadb }) else failed_at disk

-- The `catch` of `apply`: the active intent is written back, and a failure of that is swallowed.
unfoldable pub roll_back : Answers → Option Intent → Disk → Disk
unfolding lands
roll_back w none disk = disk
roll_back w (some a) disk = if lands w.restored then record disk { active = holds a } else disk

unfoldable pub finish :
    Answers → Rendered → Option Intent → Written → Disk × Result IntentError Receipt
unfolding roll_back
finish w r active (failed_at disk) = (roll_back w active disk, err not_written)
finish w r active (done disk) = (disk, ok (record { hash = r.hash; had_previous = is_some active }))

unfoldable pub apply_read :
    Answers → Disk → Rendered → Option Intent → Disk × Result IntentError Receipt
unfolding finish write_rendered write_active write_previous
apply_read w disk r active =
    if w.directory
    then finish w r active (write_rendered w r (write_active w r (write_previous w active disk)))
    else (disk, err not_written)

unfoldable pub apply_rendered :
    Answers
    → Disk
    → Rendered
    → Result IntentError (Option Intent)
    → Disk × Result IntentError Receipt
unfolding apply_read
apply_rendered w disk r (err e) = (disk, err e)
apply_rendered w disk r (ok active) = apply_read w disk r active

unfoldable pub apply_checked :
    Answers → Disk → Result IntentError Rendered → Disk × Result IntentError Receipt
unfolding apply_rendered read_active
apply_checked w disk (err e) = (disk, err e)
apply_checked w disk (ok r) = apply_rendered w disk r (read_active disk.active)

-- `apply`
unfoldable pub apply :
    (Intent → String) → Answers → Disk → Intent → Disk × Result IntentError Receipt
unfolding apply_checked render_intent
apply hash w disk intent = apply_checked w disk (render_intent hash intent)
