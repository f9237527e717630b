-- ===== src/Cluster/Observation.antt =====
-- Observations of members and the stores that keep them (cluster/observation.mjs,
-- cluster/observation-store.mjs, cluster/durable-observation-store.mjs).
pub mod Ages
pub mod Durable
use elera.Prelude.{
  ℕ, zero, suc, ◌+◌, ◌-◌, ◌*◌, ◌/◌, ◌%◌, ◌^◌, ◌≤◌, ◌<◌, min, max, String, ◌≡◌, refl, sym, ap, ap₂,
  subst, ◌∙◌, ◌≢◌, ◌↔◌, ◌⊎◌, inl, inr, Bool, true, false, not, ◌&&◌, ◌||◌, Option, none, some, List,
  [], ◌∷◌, ◌++◌, map, Memᴰ, arith, eq_iff, ltb, leb, nat_eqb, Eq, ◌==◌, nat_eq, string_eq,
  if◌then◌else◌, ltb→lt, lt→ltb, leb→le, Bool-cases, Option-cases, &&-left, &&-right, is_some,
  length, filter, any, all, find, count, head?, get_last?, length-append, length-filter,
  count-le-length, mem-filter, mem-filter_of, any_of_mem, mem_of_any, all_mem, any-false_mem,
  find-some, find-none, count-add-le, mem_of_count, count_le_of, count_pos, includes, dedupe,
  dedupe_onto, nat_eqb_iff,
}
use elera.Prelude.Dict.{Dict, get, put, values}
use elera.Fqdn.{fqdn, is_ipv4}

-- A member of a request that should be a number: left out, of another kind, or a number.
pub data Number : Type 0 where
  absent invalid : Number
  int : ℕ → Number

-- The counters that routing reads of the status variables.
pub record Load : Type 0 where
  pub threads_connected : Option ℕ
  pub recv_queue : Option ℕ

-- A text that is missing is the empty one; `synced` is `none` where it is no Boolean.
pub record Observation : Type 0 where
  pub node_id : String
  pub cluster_id : String
  pub state : String
  pub synced : Option Bool
  pub primary : String
  pub health : String
  pub load : Load
  pub drain : Bool
  pub address : Option String
  pub sql_port : Number
  pub observed_at : Number
  pub weight : Option ℕ

-- The `isFqdn` of observation.mjs refuses IP addresses.
unfoldable pub is_node_name : String → Bool
is_node_name s = fqdn s && not (is_ipv4 s)

abbrev pub or_default : Number → ℕ → Number
or_default absent n = int n
or_default x n = x

abbrev pub bad_address : Option String → Bool
bad_address none = false
bad_address (some a) = not (is_node_name a)

abbrev pub bad_port : Number → Bool
bad_port (int p) = ltb p 1 || ltb 65535 p
bad_port _ = true

abbrev pub is_int : Number → Bool
is_int (int n) = true
is_int _ = false

-- `createObservation`; `none` is the TypeError. It keeps no weight.
unfoldable pub create_observation : ℕ → Observation → Option Observation
unfolding is_node_name
create_observation now raw =
    let port = or_default raw.sql_port 3306 in
    let seen = or_default raw.observed_at now in
    if not (is_node_name raw.node_id)
      || raw.cluster_id == ""
      || raw.state == ""
      || not (is_some raw.synced)
      || raw.primary == ""
      || raw.health == ""
      || bad_address raw.address
      || not (is_int seen)
      || bad_port port
    then none
    else some (record raw { sql_port = port; observed_at = seen; weight = none })

-- `isFresh`, with a time that is a number.
abbrev pub is_fresh_at : ℕ → ℕ → Number → Bool
is_fresh_at now max_age (int t) = leb now (t + max_age)
is_fresh_at now max_age _ = false

unfoldable pub is_fresh : ℕ → ℕ → Observation → Bool
is_fresh now max_age o = is_fresh_at now max_age o.observed_at

pub data Upsert : Type 0 where
  added updated : Upsert
  invalid_identity invalid_timestamp stale : Upsert

-- The store: observations by node.
abbrev pub Store : Type 0
Store = Dict Observation

abbrev pub time_of : Number → ℕ
time_of (int t) = t
time_of _ = 0

abbrev upsert_over : Store → Observation → ℕ → Option Observation → Store × Upsert
upsert_over s o t none = (put s o.node_id o, added)
upsert_over s o t (some current) =
    if ltb t (time_of current.observed_at) then (s, stale) else (put s o.node_id o, updated)

abbrev upsert_at : Store → Observation → Number → Store × Upsert
upsert_at s o (int t) = upsert_over s o t (get s o.node_id)
upsert_at s o _ = (s, invalid_timestamp)

-- `upsert`: refused for a bad name or time, or when the store has a later observation.
unfoldable pub upsert : Store → Observation → Store × Upsert
upsert s o = if not (fqdn o.node_id) then (s, invalid_identity) else upsert_at s o o.observed_at

abbrev pub accepted : Upsert → Bool
accepted added = true
accepted updated = true
accepted _ = false

-- `snapshot`, `all` and `clear`.
unfoldable pub snapshot : Store → ℕ → ℕ → List Observation
unfolding is_fresh
snapshot s now max_age = filter (is_fresh now max_age) (values s)

unfoldable pub all_entries : Store → List Observation
all_entries s = values s

unfoldable pub clear : Store → Store
clear s = []
