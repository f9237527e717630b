-- ===== src/Routing/Decision/Election.antt =====
-- The first election of a writer, from members whose load every supervisor sees differently
-- (routing/decision.mjs).
use elera.Prelude.{
  ℕ, zero, suc, ◌%◌, ◌<◌, String, ◌≡◌, refl, sym, ap, subst, ◌∙◌, inl, inr, Bool, true, false,
  Option, none, some, List, [], ◌∷◌, map, Memᴰ, arith, nat_eq, string_eq, Bool-cases, length,
  filter, find, head?, find-some,
}
use mathlib.Core.List.Memᴰ
use elera.Prelude.Dict.{Dict}
use elera.Prelude.Sort.{sort, insert, head?-some_of_mem, sort_mem, mem-sort}
use elera.Prelude.Lists.{mem-map, mem_of_map}
use elera.Collation.{Collation}
use elera.Cluster.Observation.{Observation, is_fresh_at}
use elera.Routing.Decision.{
  Host, Route, calculate_routes, candidates, elect, order_primary, route_node, reads_before,
  named_before, same_address, at_index, or_elected, routes_for, is_eligible,
}

module _ {A : Type 0} (f : A → A) where
  filter-map :
      (p : A → Bool)
      → ((x : A) → p (f x) ≡ p x)
      → (xs : List A) → filter p (map f xs) ≡ map f (filter p xs)
  filter-map p h [] = refl
  filter-map p h (x ∷ xs) = elim (Bool-cases (p x)) [
    | inl t ↦ rw (h x, t) (ap (λ l. f x ∷ l) (filter-map p h xs))
    | inr e ↦ rw (h x, e) (filter-map p h xs)
  ]

  module _ (before : A → A → Bool) (h : (x y : A) → before (f x) (f y) ≡ before x y) where
    insert-map : (a : A) (xs : List A) → insert before (f a) (map f xs) ≡ map f (insert before a xs)
    unfolding insert
    insert-map a [] = refl
    insert-map a (x ∷ xs) = elim (Bool-cases (before a x)) [
      | inl t ↦ rw (h a x, t) refl
      | inr e ↦ rw (h a x, e) (ap (λ l. f x ∷ l) (insert-map a xs))
    ]

    sort-map : (xs : List A) → sort before (map f xs) ≡ map f (sort before xs)
    unfolding sort
    sort-map [] = refl
    sort-map (x ∷ xs) = rw (sort-map xs) (insert-map x (sort before xs))

  length-map : (xs : List A) → length (map f xs) ≡ length xs
  length-map [] = refl
  length-map (x ∷ xs) = ap suc (length-map xs)

-- An observation without its load.
abbrev pub unload : Observation → Observation
unload o = record o { load = record { threads_connected = none; recv_queue = none } }

candidates-unload :
    (now max_age : ℕ) (os : List Observation)
    → candidates now max_age (map unload os) ≡ map unload (candidates now max_age os)
unfolding candidates is_eligible
candidates-unload now max_age os =
    ap (filter is_eligible)
      (filter-map unload (λ o. is_fresh_at now max_age o.observed_at) (λ x. refl) os)
    ∙ filter-map unload is_eligible (λ x. refl)
        (filter (λ o. is_fresh_at now max_age o.observed_at) os)

stable-unload :
    (c : Collation) (now max_age : ℕ) (os os' : List Observation)
    → map unload os ≡ map unload os'
    → map unload (sort (named_before c) (candidates now max_age os))
      ≡ map unload (sort (named_before c) (candidates now max_age os'))
stable-unload c now max_age os os' e =
    sym (side os) ∙ ap (λ l. sort (named_before c) (candidates now max_age l)) e ∙ side os'
  where
    side :
        (xs : List Observation)
        → sort (named_before c) (candidates now max_age (map unload xs))
          ≡ map unload (sort (named_before c) (candidates now max_age xs))
    side xs =
        ap (sort (named_before c)) (candidates-unload now max_age xs)
        ∙ sort-map unload (named_before c) (λ x y. refl) (candidates now max_age xs)

-- The element at a valid index does not depend on the element given for an invalid one, up to the load.
at_index-unload :
    (d d' : Observation) (n : ℕ) (xs ys : List Observation)
    → map unload xs ≡ map unload ys
    → n < length xs
    → unload (at_index d n xs) ≡ unload (at_index d' n ys)
at_index-unload d d' n [] ys e h = absurd (omega arith)
at_index-unload d d' n (x ∷ xs) [] e h = absurd (cc)
at_index-unload d d' zero (x ∷ xs) (y ∷ ys) e h = cc
at_index-unload d d' (suc n) (x ∷ xs) (y ∷ ys) e h = at_index-unload d d' n xs ys (cc) (omega arith)

elect_unseen :
    (hash : ℕ) (previous : Option String) (ordered stable : List Observation) (first : Observation)
    → ((p : Observation) → Memᴰ p ordered → same_address p.address previous ≡ false)
    → elect hash previous ordered stable first ≡ at_index first (hash % length stable) stable
unfolding elect
elect_unseen hash previous ordered stable first h =
    on (find (λ o. same_address o.address previous) ordered)
      (λ w e. find-some (λ o. same_address o.address previous) ordered e)
  where
    on :
        (f : Option Observation)
        → ((w : Observation)
            → f ≡ some w
            → Memᴰ w ordered × (same_address w.address previous ≡ true))
        → or_elected f (at_index first (hash % length stable) stable)
          ≡ at_index first (hash % length stable) stable
    on none g = refl
    on (some w) g = let (m, t) = g w refl in absurd (ground (arith, h w m))

mod_lt : (n k : ℕ) → 0 < k → n % k < k
mod_lt n k h = omega arith

length_pos : {A : Type 0} {a : A} (xs : List A) → Memᴰ a xs → 0 < length xs
length_pos [] m = absurd (Memᴰ.not-nil m)
length_pos (x ∷ xs) m = omega arith

module _ (host : Host) (application : Option String) (weights : Dict ℕ)
    (previous : Option String) where
  -- No member has the address of the writer before.
  abbrev Unseen : List Observation → Type 0
  Unseen ns = (p : Observation) → Memᴰ p ns → same_address p.address previous ≡ false

  abbrev stable_of : List Observation → List Observation
  stable_of ns = sort (named_before host.collation) ns

  -- The writer's route among some candidates.
  abbrev head_of : List Observation → Option Route
  head_of ns =
      let ordered = sort (reads_before host.collation) ns in
      head?
        (routes_for host application weights previous ordered (stable_of ns)
          (head? ordered)).primary

  elected :
      (x : Observation) (ns : List Observation)
      → Memᴰ x ns
      → Unseen ns
      → (d : Observation) × (head_of ns
          ≡ some (
              route_node weights
                (at_index d (host.hash application % length (stable_of ns)) (stable_of ns))))
  unfolding routes_for order_primary
  elected x ns m u =
      let (first, e) =
        head?-some_of_mem (sort (reads_before host.collation) ns)
          (sort_mem (reads_before host.collation) ns m) in
      (
        first,
        ap
              (λ h.
                head?
                  (routes_for host application weights previous
                    (sort (reads_before host.collation) ns) (stable_of ns) h).primary)
              e
            ∙ ap (λ w. some (route_node weights w))
                (elect_unseen (host.hash application) previous
                  (sort (reads_before host.collation) ns) (stable_of ns) first
                  (λ p q. u p (mem-sort (reads_before host.collation) ns q))),
      )

  Unseen-unload :
      (ns ns' : List Observation) → map unload ns ≡ map unload ns' → Unseen ns → Unseen ns'
  Unseen-unload ns ns' e u p m =
      let (p', m', e') =
        mem_of_map unload ns (subst (λ l. Memᴰ (unload p) l) (sym e) (mem-map unload ns' m)) in
      ap (λ o. same_address o.address previous) e' ∙ u p' m'

  head_of-unload :
      (ns ns' : List Observation)
      → map unload ns ≡ map unload ns'
      → map unload (stable_of ns) ≡ map unload (stable_of ns')
      → Unseen ns
      → head_of ns ≡ head_of ns'
  unfolding routes_for route_node sort
  head_of-unload [] [] e s u = refl
  head_of-unload [] (y ∷ ys) e s u = absurd (cc)
  head_of-unload (x ∷ xs) [] e s u = absurd (cc)
  head_of-unload (x ∷ xs) (y ∷ ys) e s u =
      let n = host.hash application in
      let (d, h) = elected x (x ∷ xs) (Memᴰ.head refl) u in
      let (d', h') = elected y (y ∷ ys) (Memᴰ.head refl) (Unseen-unload (x ∷ xs) (y ∷ ys) e u) in
      let len : length (stable_of (x ∷ xs)) ≡ length (stable_of (y ∷ ys)) =
        sym (length-map unload (stable_of (x ∷ xs)))
        ∙ ap length s
        ∙ length-map unload (stable_of (y ∷ ys)) in
      let pos =
        length_pos (stable_of (x ∷ xs))
          (sort_mem (named_before host.collation) (x ∷ xs) (Memᴰ.head refl)) in
      h
      ∙ ap (λ o. some (route_node weights o))
          (at_index-unload d d' (n % length (stable_of (x ∷ xs))) (stable_of (x ∷ xs))
            (stable_of (y ∷ ys)) s (mod_lt n (length (stable_of (x ∷ xs))) pos))
      ∙ ap (λ k. some (route_node weights (at_index d' (n % k) (stable_of (y ∷ ys))))) len
      ∙ sym h'

-- Two supervisors whose observations differ only in the load route the writes of an application to
-- the same member, when no fresh and eligible member has the address of an earlier writer.
pub calculate_routes-agree :
    (host : Host) (application : Option String) (weights : Dict ℕ) (previous : Option String)
    (now max_age : ℕ) (os os' : List Observation)
    → map unload os ≡ map unload os'
    → ((p : Observation)
        → Memᴰ p (candidates now max_age os)
        → same_address p.address previous ≡ false)
    → head? (calculate_routes host application os weights previous now max_age).primary
      ≡ head? (calculate_routes host application os' weights previous now max_age).primary
unfolding calculate_routes
calculate_routes-agree host application weights previous now max_age os os' e u =
    head_of-unload host application weights previous (candidates now max_age os)
      (candidates now max_age os')
      (sym (candidates-unload now max_age os)
        ∙ ap (candidates now max_age) e
        ∙ candidates-unload now max_age os')
      (stable-unload host.collation now max_age os os' e) u
