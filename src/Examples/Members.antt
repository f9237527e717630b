-- ===== src/Examples/Members.antt =====
-- Observations, quorum, lifecycle requests and names on concrete data.
use elera.Prelude.{
  ℕ, zero, suc, ◌+◌, ◌-◌, ◌*◌, ◌/◌, ◌%◌, ◌^◌, ◌≤◌, ◌<◌, min, max, String, ◌≡◌, refl, sym, ap, ap₂,
  subst, ◌∙◌, ◌≢◌, ◌↔◌, ◌⊎◌, inl, inr, Bool, true, false, not, ◌&&◌, ◌||◌, Option, none, some, List,
  [], ◌∷◌, ◌++◌, map, Memᴰ, arith, eq_iff, ltb, leb, nat_eqb, Eq, ◌==◌, nat_eq, string_eq,
  if◌then◌else◌, ltb→lt, lt→ltb, leb→le, Bool-cases, Option-cases, &&-left, &&-right, is_some,
  length, filter, any, all, find, count, head?, get_last?, length-append, length-filter,
  count-le-length, mem-filter, mem-filter_of, any_of_mem, mem_of_any, all_mem, any-false_mem,
  find-some, find-none, count-add-le, mem_of_count, count_le_of, count_pos, includes, dedupe,
  dedupe_onto, nat_eqb_iff,
}
use elera.Prelude.Dict.{get}
use elera.Fqdn.{fqdn, fqdn_loose, fqdn_any_length}
use elera.Cluster.Observation.{Observation, int, create_observation, is_fresh}
use elera.Cluster.Quorum.{evaluate_quorum}
use elera.Cluster.Quorum.Agreement.{evaluate_quorum-fresh, evaluate_quorum-agree}
use elera.Cluster.Lifecycle.{Situation}

abbrev seen : String → ℕ → Observation
seen node at = record {
  node_id = node;
  cluster_id = "c";
  state = "Synced";
  synced = some true;
  primary = "Primary";
  health = "ok";
  load = record { threads_connected = some 3; recv_queue = none };
  drain = false;
  address = some node;
  sql_port = int 3306;
  observed_at = int at;
  weight = none;
}

abbrev two : List Observation
two = seen "a.x" 10 ∷ seen "b.x" 20 ∷ []

evaluate_quorum-agree_example :
    (Path String "c" "c")
    × (Path String "Primary" "Primary")
    × (3 < 2 * length (evaluate_quorum two 100 3000 (some 3)).observations)
unfolding evaluate_quorum create_observation fqdn elera.Fqdn.is_ipv4 elera.Prelude.Dict.put
evaluate_quorum-agree_example =
    evaluate_quorum-agree two 100 3000 3 (seen "a.x" 10) (seen "b.x" 20) refl (Memᴰ.head refl)
      (Memᴰ.tail (Memᴰ.head refl))

evaluate_quorum-fresh_example :
    (is_fresh 100 3000 (seen "a.x" 10) ≡ true)
    × (raw : Observation) × Memᴰ raw two
    × (create_observation 100 raw ≡ some (seen "a.x" 10))
unfolding evaluate_quorum create_observation fqdn elera.Fqdn.is_ipv4 elera.Prelude.Dict.put
evaluate_quorum-fresh_example =
    evaluate_quorum-fresh two 100 3000 (some 3) (seen "a.x" 10) (Memᴰ.head refl)

abbrev here : Situation
here = record {
  enabled = true;
  ready = false;
  state = "Offline";
  synced = false;
  quorum = true;
  node_id = "a.x";
}
