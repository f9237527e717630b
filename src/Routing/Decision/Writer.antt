-- ===== src/Routing/Decision/Writer.antt =====
-- Which members the routes name, and in which places (routing/decision.mjs).
use elera.Prelude.{
  ℕ, zero, suc, ◌%◌, String, ◌≡◌, refl, ◌⊎◌, inl, inr, true, false, not, Option, none, some, List,
  [], ◌∷◌, map, Memᴰ, arith, eq_iff, ◌==◌, nat_eq, string_eq, Bool-cases, length, filter, find,
  head?, mem-filter, mem-filter_of, find-some, find-none,
}
use mathlib.Core.List.Memᴰ
use elera.Prelude.Dict.{Dict}
use elera.Prelude.Sort.{sort, mem-sort, sort_mem, head?_mem}
use elera.Prelude.Lists.{mem-map, mem_of_map}
use elera.Cluster.Observation.{Observation, is_fresh_at}
use elera.Routing.Decision.{
  Host, Routes, Route, calculate_routes, candidates, elect, order_primary, route_node, reads_before,
  named_before, same_address, at_index, or_elected, routes_for, is_eligible,
}

at_index_mem :
    (d : Observation) (n : ℕ) (xs ys : List Observation)
    → Memᴰ d ys
    → ((x : Observation) → Memᴰ x xs → Memᴰ x ys)
    → Memᴰ (at_index d n xs) ys
at_index_mem d n [] ys m h = m
at_index_mem d zero (x ∷ xs) ys m h = h x (Memᴰ.head refl)
at_index_mem d (suc n) (x ∷ xs) ys m h = at_index_mem d n xs ys m (λ y k. h y (Memᴰ.tail k))

elect_mem :
    (hash : ℕ) (previous : Option String) (ordered stable nodes : List Observation)
    (first : Observation)
    → ((x : Observation) → Memᴰ x ordered → Memᴰ x nodes)
    → ((x : Observation) → Memᴰ x stable → Memᴰ x nodes)
    → Memᴰ first nodes
    → Memᴰ (elect hash previous ordered stable first) nodes
unfolding elect
elect_mem hash previous ordered stable nodes first h k m =
    on (find (λ o. same_address o.address previous) ordered)
      (λ w e. h w (find-some (λ o. same_address o.address previous) ordered e).0)
  where
    on :
        (f : Option Observation)
        → ((w : Observation) → f ≡ some w → Memᴰ w nodes)
        → Memᴰ (or_elected f (at_index first (hash % length stable) stable)) nodes
    on none g = at_index_mem first (hash % length stable) stable nodes m k
    on (some w) g = g w refl

elect_sticky :
    (hash : ℕ) (previous : Option String) (ordered stable : List Observation)
    (first o : Observation)
    → Memᴰ o ordered
    → same_address o.address previous ≡ true
    → same_address (elect hash previous ordered stable first).address previous ≡ true
unfolding elect
elect_sticky hash previous ordered stable first o m t =
    on (find (λ o. same_address o.address previous) ordered)
      (λ w e. (find-some (λ o. same_address o.address previous) ordered e).1)
      (λ e. find-none (λ o. same_address o.address previous) ordered e m)
  where
    on :
        (f : Option Observation)
        → ((w : Observation) → f ≡ some w → same_address w.address previous ≡ true)
        → (f ≡ none → same_address o.address previous ≡ false)
        → same_address
            (or_elected f (at_index first (hash % length stable) stable)).address
            previous
          ≡ true
    on none g n = absurd (ground (arith, n refl))
    on (some w) g n = g w refl

-- What the routes for some members are, when there is one.
at_some :
    (host : Host) (application : Option String) (weights : Dict ℕ) (previous : Option String)
    (ordered stable : List Observation) (o : Observation) (P : Routes → Type 0)
    → Memᴰ o ordered
    → ((first : Observation)
        → Memᴰ first ordered
        → P (routes_for host application weights previous ordered stable (some first)))
    → P (routes_for host application weights previous ordered stable (head? ordered))
at_some host application weights previous [] stable o P m k = absurd (Memᴰ.not-nil m)
at_some host application weights previous (x ∷ xs) stable o P m k = k x (Memᴰ.head refl)

order_primary_mem :
    (w o : Observation) (xs : List Observation)
    → Memᴰ o xs
    → Memᴰ o.node_id (map (λ x. x.node_id) (order_primary w xs))
unfolding order_primary
order_primary_mem w o xs m = elim (Bool-cases (o.node_id == w.node_id)) [
  | inl t ↦ Memᴰ.head ((eq_iff o.node_id w.node_id).0 t)
  | inr f ↦ Memᴰ.tail (
      mem-map (λ x. x.node_id) (filter (λ x. not (x.node_id == w.node_id)) xs)
        (mem-filter_of (λ x. not (x.node_id == w.node_id)) xs m (rw f refl)))
]

mem_of_order_primary :
    {o : Observation} (w : Observation) (xs : List Observation)
    → Memᴰ o (order_primary w xs)
    → (o ≡ w) ⊎ Memᴰ o xs
unfolding order_primary
mem_of_order_primary {o} w xs m = elim (Memᴰ.cases_cons m) [
  | inl e ↦ inl e
  | inr r ↦ inr (mem-filter (λ x. not (x.node_id == w.node_id)) xs r).0
]

module _ (host : Host) (application : Option String) (os : List Observation) (weights : Dict ℕ)
    (previous : Option String) (now max_age : ℕ) where
  abbrev nodes : List Observation
  nodes = candidates now max_age os

  abbrev ordered : List Observation
  ordered = sort (reads_before host.collation) nodes

  abbrev stable : List Observation
  stable = sort (named_before host.collation) nodes

  abbrev routes : Routes
  routes = calculate_routes host application os weights previous now max_age

  abbrev writer : Observation → Observation
  writer first = elect (host.hash application) previous ordered stable first

  writer_mem : (first : Observation) → Memᴰ first ordered → Memᴰ (writer first) nodes
  writer_mem first k =
      elect_mem (host.hash application) previous ordered stable nodes first
        (λ x m. mem-sort (reads_before host.collation) nodes m)
        (λ x m. mem-sort (named_before host.collation) nodes m)
        (mem-sort (reads_before host.collation) nodes k)

  -- Every fresh and eligible member is a reader of the routes, and its name is among the
  -- primary routes: the writer and the members to fail over to.
  pub calculate_routes-complete :
      (o : Observation)
      → Memᴰ o (candidates now max_age os)
      → Memᴰ
          (route_node weights o)
          (calculate_routes host application os weights previous now max_age).balanced
        × Memᴰ o.node_id (
            map
              (λ r. r.node_id)
              (calculate_routes host application os weights previous now max_age).primary)
  unfolding calculate_routes routes_for route_node
  calculate_routes-complete o m =
      let m' = sort_mem (reads_before host.collation) nodes m in
      at_some host application weights previous ordered stable o
        (λ r.
          Memᴰ (route_node weights o) r.balanced × Memᴰ o.node_id (map (λ r. r.node_id) r.primary))
        m'
        (λ first k. (
          mem-map (route_node weights) ordered m',
          names (order_primary (writer first) ordered)
              (order_primary_mem (writer first) o ordered m'),
        ))
    where
      names :
          (xs : List Observation)
          → Memᴰ o.node_id (map (λ x. x.node_id) xs)
          → Memᴰ o.node_id (map (λ r. r.node_id) (map (route_node weights) xs))
      names [] q = q
      names (x ∷ xs) (Memᴰ.head e) = Memᴰ.head e
      names (x ∷ xs) (Memᴰ.tail q) = Memᴰ.tail (names xs q)

  -- While some member is fresh and eligible the routes have a writer, which is one of them; and
  -- as long as one of them has the address of the writer before, the writer keeps that address.
  pub calculate_routes-writer :
      (o : Observation)
      → Memᴰ o (candidates now max_age os)
      → (w : Observation) × Memᴰ w (candidates now max_age os)
        × (head? (calculate_routes host application os weights previous now max_age).primary
            ≡ some (route_node weights w))
        × ((p : Observation)
            → Memᴰ p (candidates now max_age os)
            → same_address p.address previous ≡ true
            → same_address w.address previous ≡ true)
  unfolding calculate_routes routes_for order_primary
  calculate_routes-writer o m =
      at_some host application weights previous ordered stable o
        (λ r.
          (w : Observation) × Memᴰ w nodes
          × (head? r.primary ≡ some (route_node weights w))
          × ((p : Observation)
              → Memᴰ p nodes
              → same_address p.address previous ≡ true
              → same_address w.address previous ≡ true))
        (sort_mem (reads_before host.collation) nodes m)
        (λ first k. (
          writer first,
          writer_mem first k,
          refl,
          λ p q t.
              elect_sticky (host.hash application) previous ordered stable first p
                (sort_mem (reads_before host.collation) nodes q) t,
        ))

  -- Each route, for writing or for reading, is of a member that is fresh and eligible.
  pub calculate_routes-eligible :
      (r : Route)
      → Memᴰ r (calculate_routes host application os weights previous now max_age).primary
        ⊎ Memᴰ r (calculate_routes host application os weights previous now max_age).balanced
      → (o : Observation) × Memᴰ o os
        × (is_fresh_at now max_age o.observed_at ≡ true)
        × (is_eligible o ≡ true)
        × (r ≡ route_node weights o)
  unfolding calculate_routes candidates routes_for
  calculate_routes-eligible r m =
      let (o, q, e) = of_routes (head? ordered) (λ f h. head?_mem ordered h) m in
      let (q', t) =
        mem-filter is_eligible (filter (λ o. is_fresh_at now max_age o.observed_at) os) q in
      let (q'', s) = mem-filter (λ o. is_fresh_at now max_age o.observed_at) os q' in
      (o, q'', s, t, e)
    where
      of_routes :
          (h : Option Observation)
          → ((f : Observation) → h ≡ some f → Memᴰ f ordered)
          → Memᴰ r (routes_for host application weights previous ordered stable h).primary
            ⊎ Memᴰ r (routes_for host application weights previous ordered stable h).balanced
          → (o : Observation) × Memᴰ o nodes × (r ≡ route_node weights o)
      of_routes none g (inl q) = absurd (Memᴰ.not-nil q)
      of_routes none g (inr q) = absurd (Memᴰ.not-nil q)
      of_routes (some f) g (inl q) =
          let (o, p, e) = mem_of_map (route_node weights) (order_primary (writer f) ordered) q in
          let w = writer f in
          (
            o,
            elim (mem_of_order_primary w ordered p) [
              | inl e' ↦ Memᴰ.cast e' (writer_mem f (g f refl))
              | inr m' ↦ mem-sort (reads_before host.collation) nodes m'
            ],
            e,
          )
      of_routes (some f) g (inr q) =
          let (o, p, e) = mem_of_map (route_node weights) ordered q in
          (o, mem-sort (reads_before host.collation) nodes p, e)
