-- ===== src/Examples/Starts.antt =====
-- The intent and the start of a supervisor on concrete data.
use elera.Prelude.{
  ℕ, ◌≤◌, String, ◌≡◌, refl, true, false, not, ◌&&◌, Option, none, some, List, [], ◌∷◌, map, Memᴰ,
  nat_eqb, nat_eq, string_eq, if◌then◌else◌,
}
use elera.Prelude.Int.{ℤ, pos}
use elera.Prelude.Result.{ok}
use elera.Intent.{
  Intent, Member, validate_intent, or_empty, texts, is_truthy, is_empty, same_cluster, change_of,
  not_written,
}
use elera.Intent.Render.{render_mariadb_config}
use elera.Intent.Reconcile.{Callbacks, reload_call, reconcile_intent}
use elera.Intent.Reconcile.Calls.{MayCall, reconcile_intent-MayCall}
use elera.Intent.State.{Disk, Attempt, Answers, Receipt, missing, holds, apply, verify, lands}
use elera.Intent.State.Applied.{apply-verify, apply-failed}
use elera.Intent.State.Register.{Request, IsRegister, hold, apply_all, apply_all-IsRegister}
use elera.Intent.Valid.{AreNamed, IsDistinct, validate_intent-ok}

abbrev member : String → Member
member n = record { name = some n; address = some n; port = some 3306 }

abbrev intent : ℕ → Intent
intent interval = record {
  api_version = some "elera.eliware.dev/v1alpha1";
  kind = some "SupervisorIntent";
  cluster_name = some "c";
  members = some (member "a.x" ∷ member "b.x" ∷ []);
  mariadb_port = some (pos 3306);
  data_dir = none;
  health_interval = some (pos interval);
  query_timeout = some (pos 5000);
}

abbrev interval_of : Option ℤ → String
interval_of (some (pos n)) = if nat_eqb n 100 then "short" else "long"
interval_of _ = "long"

abbrev hash : Intent → String
hash d = interval_of d.health_interval

abbrev lands_well : Attempt
lands_well = record { written = true; renamed = true }

abbrev fails : Attempt
fails = record { written = true; renamed = false }

abbrev working : Answers
working = record {
  directory = true;
  previous = lands_well;
  active = lands_well;
  rendered = lands_well;
  restored = lands_well;
}

abbrev failing : Answers
failing = record working { rendered = fails }

abbrev old : Disk
old = record { active = holds (intent 100); rendered = none; previous = missing }

abbrev new : Disk
new = record {
  active = holds (intent 1000);
  rendered = some (render_mariadb_config (intent 1000));
  previous = holds (intent 100);
}

abbrev receipt : Receipt
receipt = record { hash = "long"; had_previous = true }

apply-verify_example :
    (new.active ≡ holds (intent 1000))
    × (new.rendered ≡ some (render_mariadb_config (intent 1000)))
    × ((b : Intent) → old.active ≡ holds b → new.previous ≡ holds b)
    × (verify hash new (intent 1000)
        ≡ ok (record { agrees = true; desired_hash = "long"; active_hash = some "long" }))
unfolding apply validate_intent elera.Fqdn.fqdn
apply-verify_example = apply-verify hash working old new (intent 1000) receipt refl

abbrev kept : Disk
kept = record old { previous = holds (intent 100) }

apply-failed_example :
    (kept.rendered ≡ old.rendered)
    × ((b : Intent) → old.active ≡ holds b → lands failing.restored ≡ true → kept.active ≡ holds b)
unfolding apply validate_intent elera.Fqdn.fqdn
apply-failed_example = apply-failed hash failing old kept (intent 1000) not_written refl

abbrev callbacks : Callbacks
callbacks = record { has_apply = true; has_reload = true; has_restart = true; works = λ c. true }

reconcile_intent-MayCall_example :
    (validate_intent (intent 1000) ≡ ok (intent 1000))
    × MayCall callbacks (intent 1000) (change_of hash (intent 1000) (some (intent 100))) reload_call
    × ((a : Intent) → some (intent 100) ≡ some a → same_cluster hash (intent 1000) a ≡ true)
unfolding reconcile_intent elera.Fqdn.fqdn
reconcile_intent-MayCall_example =
    reconcile_intent-MayCall hash callbacks (intent 1000) (some (intent 100)) reload_call
      (Memᴰ.tail (Memᴰ.head refl))

validate_intent-ok_example :
    (intent 100 ≡ intent 100)
    × AreNamed (or_empty (intent 100).members)
    × IsDistinct (texts (map (λ m. m.name) (or_empty (intent 100).members)))
    × (is_truthy (intent 100).cluster_name && not (is_empty (or_empty (intent 100).members)) ≡ true)
    × (n : ℕ) × ((intent 100).mariadb_port ≡ some (pos n))
    × (1 ≤ n)
    × (n ≤ 65535)
unfolding validate_intent elera.Fqdn.fqdn
validate_intent-ok_example = validate_intent-ok (intent 100) (intent 100) refl

abbrev requests : List Request
requests =
    (failing, intent 200)
    ∷ (working, intent 1000)
    ∷ (record working { active = fails }, intent 300)
    ∷ []

apply_all-IsRegister_example :
    IsRegister (hold (intent 1000) requests) (apply_all hash requests new)
unfolding lands
apply_all-IsRegister_example =
    apply_all-IsRegister hash requests new (intent 1000) (refl, refl) refl
