-- ===== src/Routing/Decision.antt =====
-- The routes of an application (routing/decision.mjs).
pub mod Writer
pub mod Election
use elera.Prelude.{
  ℕ, zero, suc, ◌+◌, ◌-◌, ◌*◌, ◌/◌, ◌%◌, ◌^◌, ◌≤◌, ◌<◌, min, max, String, ◌≡◌, refl, sym, ap, ap₂,
  subst, ◌∙◌, ◌≢◌, ◌↔◌, ◌⊎◌, inl, inr, Bool, true, false, not, ◌&&◌, ◌||◌, Option, none, some, List,
  [], ◌∷◌, ◌++◌, map, Memᴰ, arith, eq_iff, ltb, leb, nat_eqb, Eq, ◌==◌, nat_eq, string_eq,
  if◌then◌else◌, ltb→lt, lt→ltb, leb→le, Bool-cases, Option-cases, &&-left, &&-right, is_some,
  length, filter, any, all, find, count, head?, get_last?, length-append, length-filter,
  count-le-length, mem-filter, mem-filter_of, any_of_mem, mem_of_any, all_mem, any-false_mem,
  find-some, find-none, count-add-le, mem_of_count, count_le_of, count_pos, includes, dedupe,
  dedupe_onto, nat_eqb_iff,
}
use elera.Prelude.Dict.{Dict, get}
use elera.Prelude.Sort.{sort}
use elera.Prelude.Text.{append}
use elera.Collation.{Collation}
use elera.Cluster.Observation.{
  Observation, Number, absent, invalid, int, or_default, is_fresh_at, Load,
}

pub record Route : Type 0 where
  pub host : Option String
  pub port : Number
  pub node_id : String
  pub weight : Option ℕ

-- SHA-256, read as a number and as a text, and `localeCompare`: code outside the repository.
pub record Host : Type 0 where
  pub collation : Collation
  pub hash : Option String → ℕ
  pub digest : List Route → List Route → String

pub record Routes : Type 0 where
  pub primary : List Route
  pub balanced : List Route
  pub bundle_version : String

-- `a ?? b`
abbrev pub or_else : Option ℕ → Option ℕ → Option ℕ
or_else none b = b
or_else (some a) b = some a

abbrev pub or_nat : Option ℕ → ℕ → ℕ
or_nat none d = d
or_nat (some n) d = n

abbrev pub load_of : Observation → ℕ
load_of o = or_nat (or_else o.load.threads_connected o.load.recv_queue) 0

abbrev pub weight_of : Observation → ℕ
weight_of o = max 1 (or_nat o.weight 100)

-- `score(a) < score(b)`: the quotients of load and weight, compared by their cross products.
unfoldable pub score_lt : Observation → Observation → Bool
score_lt a b = ltb (load_of a * weight_of b) (load_of b * weight_of a)

abbrev pub is_positive : Number → Bool
is_positive (int p) = ltb 0 p
is_positive _ = false

abbrev pub is_true : Option Bool → Bool
is_true (some b) = b
is_true none = false

abbrev pub has_text : Option String → Bool
has_text none = false
has_text (some s) = not (s == "")

-- `eligible`, of one observation
unfoldable pub is_eligible : Observation → Bool
is_eligible o =
    is_true o.synced
    && o.primary == "Primary"
    && o.health == "ok"
    && not o.drain
    && has_text o.address
    && is_positive (or_default o.sql_port 3306)

-- `routeNode`
unfoldable pub route_node : Dict ℕ → Observation → Route
route_node weights o = record {
  host = o.address;
  port = or_default o.sql_port 3306;
  node_id = o.node_id;
  weight = or_else (get weights o.node_id) o.weight;
}

-- The comparison of the readers: by score, and of one score by name.
unfoldable pub reads_before : Collation → Observation → Observation → Bool
unfolding score_lt
reads_before c a b = score_lt a b || not (score_lt b a) && c.leq a.node_id b.node_id

abbrev pub named_before : Collation → Observation → Observation → Bool
named_before c a b = c.leq a.node_id b.node_id

-- `item.address === previousWriterHost`
abbrev pub same_address : Option String → Option String → Bool
same_address none none = true
same_address (some a) (some b) = a == b
same_address _ _ = false

-- `xs[n]`, for an index in range, with the first one else
abbrev pub at_index : Observation → ℕ → List Observation → Observation
at_index d n [] = d
at_index d zero (x ∷ xs) = x
at_index d (suc n) (x ∷ xs) = at_index d n xs

-- The members that may serve: fresh and eligible.
unfoldable pub candidates : ℕ → ℕ → List Observation → List Observation
unfolding is_eligible
candidates now max_age os =
    filter is_eligible (filter (λ o. is_fresh_at now max_age o.observed_at) os)

abbrev pub or_elected : Option Observation → Observation → Observation
or_elected none o = o
or_elected (some preferred) o = preferred

-- `preferred ?? stable[hash % stable.length]`; `first` stands for the index that is never out of
-- range.
unfoldable pub elect :
    ℕ → (previous : Option String) → (ordered stable : List Observation) → Observation → Observation
elect hash previous ordered stable first =
    or_elected (find (λ o. same_address o.address previous) ordered)
      (at_index first (hash % length stable) stable)

-- The writer and after it all others, in the order of the readers.
unfoldable pub order_primary : Observation → List Observation → List Observation
order_primary writer ordered = writer ∷ filter (λ o. not (o.node_id == writer.node_id)) ordered

-- `${application ?? "unknown"}:empty`
abbrev pub empty_version : Option String → String
empty_version none = "unknown:empty"
empty_version (some a) = append a ":empty"

-- The routes for the ordered members; `none` is the head of an empty list.
unfoldable pub routes_for :
    Host
    → (application : Option String) → (weights : Dict ℕ) → (previous : Option String)
    → (ordered stable : List Observation) → Option Observation
    → Routes
unfolding route_node elect order_primary
routes_for host application weights previous ordered stable none = record {
  primary = [];
  balanced = [];
  bundle_version = empty_version application;
}
routes_for host application weights previous ordered stable (some first) =
    let writer = elect (host.hash application) previous ordered stable first in
    let primary = map (route_node weights) (order_primary writer ordered) in
    let balanced = map (route_node weights) ordered in
    record { primary = primary; balanced = balanced; bundle_version = host.digest primary balanced }

-- `calculateRoutes`. The writer is the head of `primary`, the failover its tail.
unfoldable pub calculate_routes :
    Host
    → (application : Option String) → List Observation
    → (weights : Dict ℕ) → (previous : Option String) → (now max_age : ℕ) → Routes
unfolding candidates routes_for reads_before
calculate_routes host application observations weights previous now max_age =
    let nodes = candidates now max_age observations in
    let ordered = sort (reads_before host.collation) nodes in
    let stable = sort (named_before host.collation) nodes in
    routes_for host application weights previous ordered stable (head? ordered)
