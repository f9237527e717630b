-- ===== src/Routing/Assignment.antt =====
-- The writer that an application is assigned to (routing/quorum-assignment.mjs,
-- routing/assignment-store.mjs), and the bundle service that assigns it (routing/bundle-service.mjs,
-- routing/address-validation.mjs).
pub mod Lease
pub mod Handout
use elera.Prelude.{
  ℕ, zero, suc, ◌+◌, ◌-◌, ◌*◌, ◌/◌, ◌%◌, ◌^◌, ◌≤◌, ◌<◌, min, max, String, ◌≡◌, refl, sym, ap, ap₂,
  subst, ◌∙◌, ◌≢◌, ◌↔◌, ◌⊎◌, inl, inr, Bool, true, false, not, ◌&&◌, ◌||◌, Option, none, some, List,
  [], ◌∷◌, ◌++◌, map, Memᴰ, arith, eq_iff, ltb, leb, nat_eqb, Eq, ◌==◌, nat_eq, string_eq,
  if◌then◌else◌, ltb→lt, lt→ltb, leb→le, Bool-cases, Option-cases, &&-left, &&-right, is_some,
  length, filter, any, all, find, count, head?, get_last?, length-append, length-filter,
  count-le-length, mem-filter, mem-filter_of, any_of_mem, mem_of_any, all_mem, any-false_mem,
  find-some, find-none, count-add-le, mem_of_count, count_le_of, count_pos, includes, dedupe,
  dedupe_onto, nat_eqb_iff,
}
use elera.Prelude.Dict.{Dict, get, put, keys}
use elera.Cluster.Observation.{Observation}
use elera.Cluster.Quorum.{Quorum, evaluate_quorum}
use elera.Cluster.Quorum as Q
use elera.Routing.Decision.{is_true}

-- The assignments in memory and in the file; `loaded` once the file has been read.
pub record Store : Type 0 where
  pub memory : Dict String
  pub file : Dict String
  pub loaded : Bool

-- `memory.set` for each entry of the file.
unfoldable pub put_all : Dict String → Dict String → Dict String
put_all m [] = m
put_all m ((k, v) ∷ kvs) = put_all (put m k v) kvs

-- `loaded ??= load()`
unfoldable pub load : Store → Store
unfolding put_all
load s = if s.loaded then s else record s { memory = put_all s.memory s.file; loaded = true }

-- `peek`, `applications`, `get` and `set` of the store.
unfoldable pub peek : Store → String → Option String
peek s application = get s.memory application

unfoldable pub applications : Store → List String
applications s = keys s.memory

unfoldable pub get_assigned : Store → String → Option String × Store
unfolding load
get_assigned s application = let s' = load s in (get s'.memory application, s')

unfoldable pub set_assigned : Store → String → String → Store
unfolding load
set_assigned s application writer =
    let s' = load s in
    let memory = put s'.memory application writer in record s' { memory = memory; file = memory }

pub data AssignError : Type 0 where
  quorum_required : Q.Reason → AssignError
  writer_ineligible : AssignError

-- `item.address === writer && item.synced && ... && !item.drain`
unfoldable pub may_write : String → Observation → Bool
may_write writer o =
    same o.address && is_true o.synced && o.primary == "Primary" && o.health == "ok" && not o.drain
  where
    same : Option String → Bool
    same none = false
    same (some a) = a == writer

pub data Outcome : Type 0 where
  assigned : Store → Outcome
  refused : AssignError → Outcome

-- `write` of the coordinator, by the configured size of the cluster.
unfoldable pub assign : Store → ℕ → Option ℕ → String → String → List Observation → Outcome
unfolding may_write
assign s now size application writer observations =
    let quorum = evaluate_quorum observations now 3000 size in
    if not quorum.quorum
    then refused (quorum_required quorum.reason)
    else if not (any (may_write writer) quorum.observations)
    then refused writer_ineligible
    else assigned (set_assigned s application writer)
