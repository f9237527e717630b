-- ===== src/Examples/Shutdowns.antt =====
-- The shutdown of a supervisor on concrete data.
use elera.Prelude.{◌≡◌, refl, Bool, true, false, List, [], ◌∷◌, nat_eq, string_eq, any, all}
use elera.Lifecycle.Drain.{stopped}
use elera.Lifecycle.Shutdown.{Effect, before_maria_stop, propagate_drain, serving_supervisor, run}
use elera.Lifecycle.Shutdown.Once.{
  whole_shutdown, needed_before, is_mariadb, run-mariadb, run-stopped,
}

-- The marker cannot be written.
abbrev full : Effect → Bool
full before_maria_stop = false
full _ = true

-- The other nodes cannot be reached.
abbrev alone : Effect → Bool
alone propagate_drain = false
alone _ = true

abbrev later : List (Effect → Bool)
later = alone ∷ full ∷ []

run-mariadb_example :
    any is_mariadb (run (full ∷ later) serving_supervisor).calls ≡ all full needed_before
run-mariadb_example = run-mariadb full later

run-stopped_example :
    ((run (alone ∷ later) serving_supervisor).state ≡ stopped)
    × ((run (alone ∷ later) serving_supervisor).calls ≡ whole_shutdown)
run-stopped_example = run-stopped alone later refl

never-mariadb : any is_mariadb (run (full ∷ later) serving_supervisor).calls ≡ false
unfolding run
never-mariadb = refl
