-- ===== src/Routing/Assignment/Handout.antt =====
-- What a lease hands out (routing/bundle-service.mjs).
use elera.Prelude.{
  ℕ, String, ◌≡◌, refl, subst, inl, inr, true, false, ◌&&◌, Option, none, some, List, ◌++◌, nat_eq,
  string_eq, Bool-cases, all,
}
use elera.Prelude.Result.{Result, ok}
use elera.Cluster.Observation.{Observation}
use elera.Routing.Decision.{Routes}
use elera.Routing.Assignment.{Outcome, assigned, refused, get_assigned}
use elera.Routing.Assignment.Lease.{
  Config, Service, Grant, Bundle, LeaseError, lease, lease_granted, lease_with, bundle_of, is_named,
  is_set, differ, or_text, or_else, current_routes, reassign,
}

-- Every route of the bundle names its member by a qualified name, and the bundle is of this node
-- and for the application of the grant.
abbrev pub IsNamed : Config → Grant → Bundle → Type 0
IsNamed c g b =
    (all is_named (b.primary ++ b.balanced) ≡ true)
    × (b.node_identity ≡ c.identity)
    × (b.application ≡ or_text g.application "default")

bundle_of-IsNamed :
    (c : Config) (g : Grant) (r : Routes) (o : Option Routes) {b : Bundle}
    → bundle_of c g r o ≡ ok b
    → IsNamed c g b
unfolding bundle_of
bundle_of-IsNamed c g r none h = absurd (cc)
bundle_of-IsNamed c g r (some x) {b} h =
    elim (Bool-cases (all is_named (x.primary ++ x.balanced))) [
      | inl t ↦ let e = rw t at h in subst (IsNamed c g) (ok_inj e) (t, refl, refl)
      | inr f ↦ absurd (cc (rw f at h))
    ]
  where
    ok_inj : {x y : Bundle} → Path (Result LeaseError Bundle) (ok x) (ok y) → x ≡ y
    ok_inj e = cc

lease_with-IsNamed :
    (c : Config) (s : Service) (g : Grant) (now : ℕ) (key : String) (os : List Observation)
    (r : Routes) (o : Outcome) {b : Bundle}
    → (lease_with c s g now key os r o).0 ≡ ok b
    → IsNamed c g b
unfolding lease_with
lease_with-IsNamed c s g now key os r (refused e) h = absurd (cc)
lease_with-IsNamed c s g now key os r (assigned store) h = bundle_of-IsNamed c g r _ h

lease_granted-IsNamed :
    (c : Config) (s : Service) (g : Grant) (application : Option String) (now : ℕ)
    (os : List Observation) {b : Bundle}
    → (lease_granted c s g application now os).0 ≡ ok b
    → IsNamed c (record g { application = or_else g.application application }) b
unfolding lease_granted
lease_granted-IsNamed c s g application now os h =
    let key = or_text (or_else g.application application) "default" in
    lease_with-IsNamed c (record s { store = (get_assigned s.store key).1 })
      (record g { application = or_else g.application application }) now key os
      (current_routes c s now key os) (reassign c s now key os) h

-- A lease that succeeds hands out a bundle of this node, whose routes all name their members by
-- qualified names. The request did not contradict the application that the metadata granted. The
-- bundle is for that application, for the one of the request where the metadata granted none, and
-- for "default" where there is neither.
pub lease-IsNamed :
    (c : Config) (s : Service) (g : Grant) (application : Option String) (now : ℕ)
    (os : List Observation) (b : Bundle)
    → (lease c s g application now os).0 ≡ ok b
    → ((is_set application && is_set g.application && differ application g.application) ≡ false)
      × (all is_named (b.primary ++ b.balanced) ≡ true)
      × (b.node_identity ≡ c.identity)
      × (b.application ≡ or_text (or_else g.application application) "default")
unfolding lease
lease-IsNamed c s g application now os b h =
    elim (Bool-cases
      (is_set application && is_set g.application && differ application g.application)) [
        | inl t ↦ absurd (cc (rw t at h))
        | inr f ↦
            elim (Bool-cases (is_set g.node_identity && differ g.node_identity (some c.identity))) [
              | inl t ↦ absurd (cc (rw (f, t) at h))
              | inr n ↦
                  let (a, i, p) = lease_granted-IsNamed c s g application now os (rw (f, n) at h) in
                  (f, a, i, p)
            ]
      ]
