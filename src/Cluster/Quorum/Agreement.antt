-- ===== src/Cluster/Quorum/Agreement.antt =====
-- What an established quorum rests on.
use elera.Prelude.{
  ℕ, ◌*◌, ◌<◌, String, ◌≡◌, refl, sym, ap, ap₂, ◌∙◌, ◌⊎◌, inl, inr, Bool, true, not, ◌&&◌, ◌||◌,
  Option, none, some, List, [], ◌∷◌, map, Memᴰ, arith, eq_iff, nat_eqb, ◌==◌, nat_eq, string_eq,
  Bool-cases, &&-left, &&-right, length, filter, all, mem-filter, includes, dedupe,
}
use mathlib.Core.List.Memᴰ
use elera.Prelude.Lists.{mem-dedupe, mem-map}
use elera.Prelude.Dict.{Dict, put, values, keys}
use elera.Cluster.Observation.{Observation, is_fresh, create_observation}
use elera.Cluster.Quorum.{evaluate_quorum, valid_observations, by_node}

-- No name twice.
unfoldable pub distinct : List String → Bool
distinct [] = true
distinct (x ∷ xs) = not (includes x xs) && distinct xs

includes-put :
    (x : String) (m : Dict Observation) (k : String) (o : Observation)
    → includes x (keys (put m k o)) ≡ (includes x (keys m) || k == x)
unfolding put
includes-put x [] k o = ground arith
includes-put x ((j, w) ∷ m) k o =
    ground (arith, includes-put x m k o, eq_iff j k, eq_iff j x, eq_iff k x)

distinct-put :
    (m : Dict Observation) (k : String) (o : Observation)
    → distinct (keys m) ≡ true
    → distinct (keys (put m k o)) ≡ true
unfolding put distinct
distinct-put [] k o h = refl
distinct-put ((j, w) ∷ m) k o h =
    ground (arith, distinct-put m k o, includes-put j m k o, eq_iff j k, eq_iff k j)

-- Each entry stands under the name of its node.
abbrev named : Dict Observation → Bool
named = all (λ e. e.1.node_id == e.0)

named-put :
    (m : Dict Observation) (o : Observation) → named m ≡ true → named (put m o.node_id o) ≡ true
unfolding put
named-put [] o h = ground (arith, eq_iff o.node_id o.node_id)
named-put ((j, w) ∷ m) o h = ground (arith, named-put m o, eq_iff j o.node_id, eq_iff o.node_id j)

names_of_values : (m : Dict Observation) → named m ≡ true → map (λ o. o.node_id) (values m) ≡ keys m
names_of_values [] h = refl
names_of_values ((j, w) ∷ m) h =
    ap₂ ◌∷◌ ((eq_iff w.node_id j).0 (&&-left (w.node_id == j) (named m) h))
      (names_of_values m (&&-right (w.node_id == j) (named m) h))

by_node-facts :
    (m : Dict Observation) (os : List Observation)
    → distinct (keys m) ≡ true
    → named m ≡ true
    → (distinct (keys (by_node m os)) ≡ true) × (named (by_node m os) ≡ true)
unfolding by_node
by_node-facts m [] d n = (d, n)
by_node-facts m (o ∷ os) d n =
    by_node-facts (put m o.node_id o) os (distinct-put m o.node_id o d) (named-put m o n)

mem-put :
    {x : Observation} (m : Dict Observation) (k : String) (o : Observation)
    → Memᴰ x (values (put m k o))
    → (x ≡ o) ⊎ Memᴰ x (values m)
unfolding put
mem-put [] k o h = Memᴰ.cases_cons h
mem-put {x} ((j, w) ∷ m) k o h = elim (Bool-cases (j == k)) [
  | inl t ↦ elim (Memᴰ.cases_cons (rw t at h)) [ inl e ↦ inl e | inr r ↦ inr (Memᴰ.tail r) ]
  | inr f ↦ elim (Memᴰ.cases_cons (rw f at h)) [
    | inl e ↦ inr (Memᴰ.head e)
    | inr r ↦ elim (mem-put m k o r) [ inl e ↦ inl e | inr q ↦ inr (Memᴰ.tail q) ]
  ]
]

mem-by_node :
    {x : Observation} (m : Dict Observation) (os : List Observation)
    → Memᴰ x (values (by_node m os))
    → Memᴰ x (values m) ⊎ Memᴰ x os
unfolding by_node
mem-by_node m [] h = inl h
mem-by_node m (o ∷ os) h = elim (mem-by_node (put m o.node_id o) os h) [
  | inl v ↦ elim (mem-put m o.node_id o v) [ inl e ↦ inr (Memᴰ.head e) | inr q ↦ inl q ]
  | inr r ↦ inr (Memᴰ.tail r)
]

mem-valid :
    {x : Observation} (now : ℕ) (raws : List Observation)
    → Memᴰ x (valid_observations now raws)
    → (raw : Observation) × Memᴰ raw raws × (create_observation now raw ≡ some x)
unfolding valid_observations
mem-valid now [] h = absurd (Memᴰ.not-nil h)
mem-valid {x} now (r ∷ raws) h = on (create_observation now r) refl (λ m. mem-valid now raws m) h
  where
    on :
        (c : Option Observation)
        → create_observation now r ≡ c
        → (Memᴰ x (valid_observations now raws)
            → (raw : Observation) × Memᴰ raw raws × (create_observation now raw ≡ some x))
        → Memᴰ x (elim c [
          | none ↦ valid_observations now raws
          | some o ↦ o ∷ valid_observations now raws
        ])
        → (raw : Observation) × Memᴰ raw (r ∷ raws) × (create_observation now raw ≡ some x)
    on none e below m = let (raw, q, t) = below m in (raw, Memᴰ.tail q, t)
    on (some o) e below (Memᴰ.head p) = (r, Memᴰ.head refl, e ∙ ap some (sym p))
    on (some o) e below (Memᴰ.tail m) = let (raw, q, t) = below m in (raw, Memᴰ.tail q, t)

one_value :
    (f : Observation → String) {a b : Observation} (xs : List Observation)
    → nat_eqb (length (dedupe (map f xs))) 1 ≡ true
    → Memᴰ a xs
    → Memᴰ b xs
    → f a ≡ f b
one_value f {a} {b} xs h ma mb =
    on (dedupe (map f xs)) h (mem-dedupe (map f xs) (mem-map f xs ma))
      (mem-dedupe (map f xs) (mem-map f xs mb))
  where
    on : (l : List String) → nat_eqb (length l) 1 ≡ true → Memᴰ (f a) l → Memᴰ (f b) l → f a ≡ f b
    on [] k p q = absurd (Memᴰ.not-nil p)
    on (x ∷ []) k p q = Memᴰ.eq_of_singleton p ∙ sym (Memᴰ.eq_of_singleton q)
    on (x ∷ y ∷ l) k p q = absurd (ground arith)

-- The observations that a quorum is counted over are of distinct nodes.
pub evaluate_quorum-distinct :
    (input : List Observation) (now max_age : ℕ) (expected : Option ℕ)
    → distinct (map (λ o. o.node_id) (evaluate_quorum input now max_age expected).observations)
      ≡ true
unfolding evaluate_quorum distinct
evaluate_quorum-distinct input now max_age expected =
    let (d, n) =
      by_node-facts [] (filter (is_fresh now max_age) (valid_observations now input)) refl refl in
    rw (names_of_values _ n) d

-- Each observation that a quorum is counted over was created from one of the input, and is fresh.
pub evaluate_quorum-fresh :
    (input : List Observation) (now max_age : ℕ) (expected : Option ℕ) (x : Observation)
    → Memᴰ x (evaluate_quorum input now max_age expected).observations
    → (is_fresh now max_age x ≡ true)
      × (raw : Observation) × Memᴰ raw input
      × (create_observation now raw ≡ some x)
unfolding evaluate_quorum
evaluate_quorum-fresh input now max_age expected x m =
    elim (mem-by_node [] (filter (is_fresh now max_age) (valid_observations now input)) m) [
      | inl v ↦ absurd (Memᴰ.not-nil v)
      | inr r ↦
          let (mv, t) = mem-filter (is_fresh now max_age) (valid_observations now input) r in
          let (raw, q, e) = mem-valid now input mv in (t, raw, q, e)
    ]

-- With quorum at least a majority of the expected size is counted, and all of it agree on the
-- cluster and on its component.
pub evaluate_quorum-agree :
    (input : List Observation) (now max_age : ℕ) (expected : ℕ) (x y : Observation)
    → (evaluate_quorum input now max_age (some expected)).quorum ≡ true
    → Memᴰ x (evaluate_quorum input now max_age (some expected)).observations
    → Memᴰ y (evaluate_quorum input now max_age (some expected)).observations
    → (x.cluster_id ≡ y.cluster_id)
      × (x.primary ≡ y.primary)
      × (expected < 2 * length (evaluate_quorum input now max_age (some expected)).observations)
unfolding evaluate_quorum
evaluate_quorum-agree input now max_age expected x y q mx my =
    let unique = (evaluate_quorum input now max_age (some expected)).observations in
    (
      one_value (λ o. o.cluster_id) unique (ground arith) mx my,
      one_value (λ o. o.primary) unique (ground arith) mx my,
      ground arith,
    )
