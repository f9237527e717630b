-- ===== src/Cluster/Shutdown.antt =====
-- The condition under which a node shuts down (cluster/shutdown-condition.mjs).
use elera.Prelude.{
  ℕ, String, Bool, false, not, ◌&&◌, Option, none, some, List, [], ◌∷◌, leb, ◌==◌, nat_eq,
  string_eq, if◌then◌else◌, filter,
}
use elera.Prelude.Dict.{values}
use elera.Fqdn.{fqdn}
use elera.Cluster.Observation.{Observation}
use elera.Cluster.Quorum.{by_node}

pub data Condition : Type 0 where
  standalone total_cluster_unavailable last_survivor cluster_member : Condition

abbrev is_true : Option Bool → Bool
is_true (some b) = b
is_true none = false

abbrev pub is_serving : Observation → Bool
is_serving o =
    fqdn o.node_id
    && is_true o.synced
    && (o.primary == "Primary")
    && (o.health == "ok")
    && not o.drain

abbrev condition_of : String → List Observation → Condition
condition_of here [] = total_cluster_unavailable
condition_of here (o ∷ []) = if o.node_id == here then last_survivor else cluster_member
condition_of here (o ∷ p ∷ os) = cluster_member

-- `shutdownCondition`; the size is `none` where it is no integer.
unfoldable pub shutdown_condition : Option ℕ → List Observation → String → Condition
unfolding by_node
shutdown_condition none os here = standalone
shutdown_condition (some size) os here =
    if leb size 1
    then standalone
    else condition_of here (values (by_node [] (filter is_serving os)))
