-- ===== src/Health.antt =====
-- The health of a node (health.mjs).
use elera.Prelude.{
  ℕ, ◌-◌, ◌*◌, ◌/◌, ◌≤◌, min, max, String, ◌≡◌, refl, ◌⊎◌, inl, inr, Bool, true, false, not, ◌&&◌,
  ◌||◌, Option, none, some, arith, ltb, leb, ◌==◌, nat_eq, string_eq, if◌then◌else◌, Bool-cases,
}
use elera.Cluster.Quorum.{is_quorum_ready}
use elera.Recovery.State.{Phase, complete}

-- The status variables; one that is missing is the empty text, or no number. `paused` is the
-- fraction of time that flow control paused: a numerator over a positive denominator.
pub record Values : Type 0 where
  pub local_state : String
  pub wsrep_ready : String
  pub status : String
  pub size : Option ℕ
  pub recv : Option ℕ
  pub send : Option ℕ
  pub paused : Option (ℕ × ℕ)

-- What `getRecoveryState` returns: the state, and whether its reason starts with
-- `explicit bootstrap`.
pub record RecoveryView : Type 0 where
  pub state : Phase
  pub is_explicit : Bool

abbrev pub galera_ready : Values → Bool
galera_ready v = v.local_state == "Synced" && v.wsrep_ready == "ON" && v.status == "Primary"

abbrev pub blocks : Phase → Bool
blocks complete = false
blocks _ = true

abbrev pub recovery_blocked : Option RecoveryView → Values → Bool
recovery_blocked none v = false
recovery_blocked (some r) v = not (galera_ready v) && blocks r.state

abbrev pub is_complete : Phase → Bool
is_complete complete = true
is_complete _ = false

abbrev pub expected_size : Option RecoveryView → ℕ → ℕ
expected_size none n = n
expected_size (some r) n = if is_complete r.state && r.is_explicit then 1 else n

-- `ready` of `fetchStatus`
unfoldable pub is_ready : (elera : Bool) → (cluster_size : ℕ) → Option RecoveryView → Values → Bool
unfolding is_quorum_ready
is_ready elera cluster_size r v =
    not elera
    || not (recovery_blocked r v)
      && galera_ready v
      && is_quorum_ready (some (expected_size r cluster_size)) v.size

abbrev penalty : ℕ → ℕ → ℕ × ℕ → ℕ
penalty recv send (p, q) =
    if ltb 16 recv || ltb 16 send || leb q (20 * p)
    then 0
    else max 1 (100 - min 40 (max recv send * 40 / 16) - min 20 (400 * p / q))

abbrev weight_of : Option ℕ → Option ℕ → Option (ℕ × ℕ) → ℕ
weight_of (some recv) (some send) (some paused) = penalty recv send paused
weight_of _ _ _ = 0

-- `calculateWeight`, with the pause as a fraction in place of a floating-point number.
unfoldable pub calculate_weight : Values → ℕ
calculate_weight v = if not (galera_ready v) then 0 else weight_of v.recv v.send v.paused

capped :
    (x y : ℕ) → (40 ≤ max 1 (100 - min 40 x - min 20 y)) × (max 1 (100 - min 40 x - min 20 y) ≤ 100)
capped x y = (omega arith, omega arith)

penalty-bounds :
    (recv send : ℕ) (paused : ℕ × ℕ)
    → (penalty recv send paused ≡ 0)
      ⊎ ((40 ≤ penalty recv send paused) × (penalty recv send paused ≤ 100))
penalty-bounds recv send (p, q) = elim (Bool-cases (ltb 16 recv || ltb 16 send || leb q (20 * p))) [
  | inl t ↦ inl (rw t refl)
  | inr f ↦ inr (rw f (capped (max recv send * 40 / 16) (400 * p / q)))
]

-- A node's weight is 0 or between 40 and 100, and it is 0 unless Galera reports the node synced,
-- ready and in the primary component.
pub calculate_weight-bounds :
    (v : Values)
    → (calculate_weight v ≡ 0)
      ⊎ ((galera_ready v ≡ true) × (40 ≤ calculate_weight v) × (calculate_weight v ≤ 100))
unfolding calculate_weight
calculate_weight-bounds v = elim (Bool-cases (galera_ready v)) [
  | inr f ↦ inl (rw f refl)
  | inl t ↦ rw t (on v.recv v.send v.paused)
]
  where
    on :
        (r s : Option ℕ) (p : Option (ℕ × ℕ))
        → (weight_of r s p ≡ 0) ⊎ ((true ≡ true) × (40 ≤ weight_of r s p) × (weight_of r s p ≤ 100))
    on none s p = inl refl
    on (some r) none p = inl refl
    on (some r) (some s) none = inl refl
    on (some r) (some s) (some p) = elim (penalty-bounds r s p) [
      | inl e ↦ inl e
      | inr (a, b) ↦ inr (refl, a, b)
    ]

-- A node of a cluster is ready exactly when Galera reports it synced, ready and in the primary
-- component and the component has a majority of the expected size: whatever state the recovery is
-- in, it only lowers the expected size to one, after an explicit bootstrap.
pub is_ready_iff :
    (cluster_size : ℕ) (r : Option RecoveryView) (v : Values)
    → is_ready true cluster_size r v
      ≡ (galera_ready v && is_quorum_ready (some (expected_size r cluster_size)) v.size)
unfolding is_ready
is_ready_iff cluster_size none v = refl
is_ready_iff cluster_size (some r) v = ground arith
