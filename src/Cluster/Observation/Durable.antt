-- ===== src/Cluster/Observation/Durable.antt =====
-- The store that is kept on disk (cluster/durable-observation-store.mjs). The writes are queued, one
-- behind the other; a write that fails is logged and changes nothing, for the file is replaced by a
-- rename.
use elera.Prelude.{
  ℕ, Bool, true, false, Option, none, some, List, [], ◌∷◌, nat_eq, string_eq, if◌then◌else◌,
}
use elera.Cluster.Observation.{
  Observation, Store, Upsert, upsert, accepted, create_observation, clear, all_entries,
}
use elera.Cluster.Observation.Ages.{upsert_all}

-- What the file holds: nothing, a text that is no array of JSON, or the items of an array.
pub data File : Type 0 where
  missing unreadable : File
  items : List Observation → File

pub record Durable : Type 0 where
  pub store : Store
  pub file : File

-- `persist`, by a write that may fail.
unfoldable pub persist : Bool → Durable → Durable
unfolding all_entries
persist true d = record d { file = items (all_entries d.store) }
persist false d = d

abbrev create_all : ℕ → List Observation → Option (List Observation)
create_all now [] = some []
create_all now (raw ∷ raws) = create_cons (create_observation now raw) (create_all now raws)
  where
    create_cons : Option Observation → Option (List Observation) → Option (List Observation)
    create_cons (some o) (some os) = some (o ∷ os)
    create_cons _ _ = none

abbrev load_items : Durable → Option (List Observation) → Durable
load_items d none = d
load_items d (some os) = record d { store = upsert_all d.store os }

abbrev load_file : ℕ → Durable → File → Durable
load_file now d (items raws) = load_items d (create_all now raws)
load_file now d _ = d

-- `initialize`: every item is created before the first is stored.
unfoldable pub initialize : ℕ → Durable → Durable
unfolding upsert_all
initialize now d = load_file now d d.file

-- `upsert` and `clear`, with the write that each starts.
unfoldable pub durable_upsert : Bool → Durable → Observation → Durable × Upsert
unfolding persist
durable_upsert wrote d o =
    let (s, result) = upsert d.store o in
    let d' = record d { store = s } in (if accepted result then persist wrote d' else d', result)

unfoldable pub durable_clear : Bool → Durable → Durable
unfolding persist clear
durable_clear wrote d = persist wrote (record d { store = clear d.store })
