-- ===== src/Cluster/Observation/Ages.antt =====
-- The observation of a node never gives way to an earlier one.
use elera.Prelude.{
  ℕ, suc, ◌≤◌, String, ◌≡◌, ◌⊎◌, true, ◌&&◌, Option, none, some, List, [], ◌∷◌, arith, eq_iff, ◌==◌,
  nat_eq, string_eq, if◌then◌else◌,
}
use elera.Prelude.Dict.{get, get-put}
use elera.Cluster.Observation.{Observation, Store, upsert, time_of, accepted, create_observation}

-- The age of a node's entry: 0 if there is none.
abbrev pub age : Option Observation → ℕ
age none = 0
age (some o) = suc (time_of o.observed_at)

pub get-upsert :
    (s : Store) (o : Observation) (k : String)
    → (get (upsert s o).0 k ≡ get s k)
      ⊎ ((accepted (upsert s o).1 ≡ true) × (k ≡ o.node_id) × (get (upsert s o).0 k ≡ some o))
unfolding upsert
get-upsert s o k = ground (arith, get-put s o.node_id o k, eq_iff o.node_id k)

upsert-age : (s : Store) (o : Observation) (k : String) → age (get s k) ≤ age (get (upsert s o).0 k)
unfolding upsert
upsert-age s o k = ground (arith, get-put s o.node_id o k, eq_iff o.node_id k)

unfoldable pub upsert_all : Store → List Observation → Store
upsert_all s [] = s
upsert_all s (o ∷ os) = upsert_all (upsert s o).0 os

-- Over any sequence of observations the time of a node's entry never falls, and an entry stays.
pub upsert_all-age :
    (s : Store) (os : List Observation) (k : String) → age (get s k) ≤ age (get (upsert_all s os) k)
unfolding upsert_all
upsert_all-age s [] k = omega arith
upsert_all-age s (o ∷ os) k = omega (arith, upsert-age s o k, upsert_all-age (upsert s o).0 os k)

-- An accepted observation is what the store then holds of its node, and a refused one leaves every
-- entry as it was.
pub upsert_lem :
    (s : Store) (o : Observation) (k : String)
    → get (upsert s o).0 k ≡ (if accepted (upsert s o).1 && o.node_id == k then some o else get s k)
unfolding upsert
upsert_lem s o k = ground (arith, get-put s o.node_id o k)

-- A created observation passes the tests of creation again, unchanged.
pub create_observation_idem :
    (now later : ℕ) (raw : Observation) {o : Observation}
    → create_observation now raw ≡ some o
    → create_observation later o ≡ some o
unfolding create_observation
create_observation_idem now later raw h = ground arith
