-- ===== src/Cluster/Quorum.antt =====
-- Quorum over observations (cluster/quorum.mjs, cluster/quorum-readiness.mjs).
pub mod Agreement
use elera.Prelude.{
  ℕ, zero, suc, ◌+◌, ◌-◌, ◌*◌, ◌/◌, ◌%◌, ◌^◌, ◌≤◌, ◌<◌, min, max, String, ◌≡◌, refl, sym, ap, ap₂,
  subst, ◌∙◌, ◌≢◌, ◌↔◌, ◌⊎◌, inl, inr, Bool, true, false, not, ◌&&◌, ◌||◌, Option, none, some, List,
  [], ◌∷◌, ◌++◌, map, Memᴰ, arith, eq_iff, ltb, leb, nat_eqb, Eq, ◌==◌, nat_eq, string_eq,
  if◌then◌else◌, ltb→lt, lt→ltb, leb→le, Bool-cases, Option-cases, &&-left, &&-right, is_some,
  length, filter, any, all, find, count, head?, get_last?, length-append, length-filter,
  count-le-length, mem-filter, mem-filter_of, any_of_mem, mem_of_any, all_mem, any-false_mem,
  find-some, find-none, count-add-le, mem_of_count, count_le_of, count_pos, includes, dedupe,
  dedupe_onto, nat_eqb_iff,
}
use elera.Prelude.Dict.{Dict, put, values}
use elera.Cluster.Observation.{Observation, create_observation, is_fresh}

pub data Reason : Type 0 where
  quorum_established invalid_observations insufficient_fresh_observations : Reason
  conflicting_clusters conflicting_primaries : Reason

pub record Quorum : Type 0 where
  pub quorum : Bool
  pub cluster_id : Option String
  pub primary : Option String
  pub observations : List Observation
  pub required : ℕ
  pub reason : Reason

-- `input.flatMap((item) => { try { return [createObservation(item)]; } catch { return []; } })`
unfoldable pub valid_observations : ℕ → List Observation → List Observation
valid_observations now [] = []
valid_observations now (raw ∷ raws) =
    let rest = valid_observations now raws in
    elim (create_observation now raw) [ none ↦ rest | some o ↦ o ∷ rest ]

-- `new Map(fresh.map((item) => [item.nodeId, item]))`: of several for one node the last.
unfoldable pub by_node : Dict Observation → List Observation → Dict Observation
by_node m [] = m
by_node m (o ∷ os) = by_node (put m o.node_id o) os

-- `Number.isInteger(n) && n > 0 ? Math.floor(n / 2) + 1 : 1`
abbrev pub required_for : Option ℕ → ℕ
required_for none = 1
required_for (some n) = if ltb 0 n then n / 2 + 1 else 1

abbrev the_only : List String → Option String
the_only (x ∷ []) = some x
the_only _ = none

-- `evaluateQuorum`
unfoldable pub evaluate_quorum : List Observation → ℕ → ℕ → Option ℕ → Quorum
unfolding valid_observations by_node is_fresh
evaluate_quorum input now max_age expected =
    let valid = valid_observations now input in
    let unique = values (by_node [] (filter (is_fresh now max_age) valid)) in
    let clusters = dedupe (map (λ o. o.cluster_id) unique) in
    let primaries = dedupe (map (λ o. o.primary) unique) in
    let required = required_for expected in
    let one_cluster = nat_eqb (length clusters) 1 in
    let one_primary = nat_eqb (length primaries) 1 in
    let quorum = leb required (length unique) && one_cluster && one_primary in
    record {
      quorum = quorum;
      cluster_id = the_only clusters;
      primary = the_only primaries;
      observations = unique;
      required = required;
      reason =
          if quorum
          then quorum_established
          else if not (nat_eqb (length valid) (length input))
          then invalid_observations
          else if ltb (length unique) required
          then insufficient_fresh_observations
          else if not one_cluster
          then conflicting_clusters
          else conflicting_primaries;
    }

-- `isQuorumReady`: the configured size and the size that the database reports, `none` where either
-- is no integer.
unfoldable pub is_quorum_ready : Option ℕ → Option ℕ → Bool
is_quorum_ready (some size) (some members) = leb 1 size && leb (size / 2 + 1) members
is_quorum_ready _ _ = false
