-- ===== src/Recovery/Startup/Arguments.antt =====
-- When a node starts a new cluster (cluster/cold-bootstrap/startup-arguments.mjs).
use elera.Prelude.{
  String, ◌≡◌, refl, Bool, true, false, not, Option, none, some, List, map, Memᴰ, nat_eq, string_eq,
  filter, mem-filter,
}
use elera.Prelude.Lists.{mem_of_map}
use elera.Recovery.Startup.{
  Mode, bootstrap, join, standalone, rejoin, blocked, Start, Argument, new_cluster, cluster_address,
  other, is_new_cluster, with_address, startup_arguments, arguments_for,
}

no_new_cluster :
    (args : List Argument) → Memᴰ new_cluster (filter (λ a. not (is_new_cluster a)) args) → ⊥
no_new_cluster args m = off (mem-filter (λ a. not (is_new_cluster a)) args m).1
  where
    off : false ≡ true → ⊥
    off e = cc

no_mapped :
    (a : String) (args : List Argument)
    → Memᴰ new_cluster (map (with_address a) (filter (λ x. not (is_new_cluster x)) args))
    → ⊥
no_mapped a args m =
    let (x, k, e) = mem_of_map (with_address a) (filter (λ x. not (is_new_cluster x)) args) m in
    on x (mem-filter (λ x. not (is_new_cluster x)) args k).1 e
  where
    on : (x : Argument) → not (is_new_cluster x) ≡ true → new_cluster ≡ with_address a x → ⊥
    on new_cluster t e = cc
    on (cluster_address b) t e = cc
    on (other s) t e = cc

-- The database is told to start a new cluster only by the local winner of a decision to bootstrap,
-- whatever arguments it was given and whatever address there is to join.
pub startup_arguments-new_cluster :
    (args : List Argument) (d : Start) (address : Option String)
    → Memᴰ new_cluster (startup_arguments args d address)
    → (d.mode ≡ bootstrap) × (d.local_winner ≡ true)
unfolding startup_arguments
startup_arguments-new_cluster args d address m = on d.mode d.local_winner address m
  where
    on :
        (mode : Mode) (l : Bool) (a : Option String)
        → Memᴰ new_cluster (arguments_for mode l a (filter (λ a. not (is_new_cluster a)) args))
        → (mode ≡ bootstrap) × (l ≡ true)
    on bootstrap true a k = (refl, refl)
    on bootstrap false a k = absurd (no_new_cluster args k)
    on join l (some a) k = absurd (no_mapped a args k)
    on join l none k = absurd (no_new_cluster args k)
    on standalone l a k = absurd (no_new_cluster args k)
    on rejoin l a k = absurd (no_new_cluster args k)
    on blocked l a k = absurd (no_new_cluster args k)
