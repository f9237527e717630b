-- ===== src/Lifecycle/Drain/Requests.antt =====
-- The requests that a drain waits for (lifecycle/drain-manager.mjs, lifecycle/drain-events.mjs).
use elera.Prelude.{
  ℕ, suc, ◌+◌, ◌≤◌, max, ◌≡◌, refl, Bool, true, false, not, ◌&&◌, Option, none, some, List, [], ◌∷◌,
  arith, ltb, nat_eqb, ◌==◌, nat_eq, string_eq, &&-left, length, filter, any, all, includes,
  nat_eqb_iff,
}
use elera.Lifecycle.Drain.{
  Manager, Call, begin, end, enter, release, call, run, create_drain_manager, Publisher, publish,
  next_version, Event, drain, recovery,
}

-- The counter is the number of open requests, which are numbered below the next one, each once.
distinct : List ℕ → Bool
distinct [] = true
distinct (x ∷ xs) = not (includes x xs) && distinct xs

abbrev below : ℕ → List ℕ → Bool
below n = all (λ k. ltb k n)

abbrev is_counted : Manager → Bool
is_counted m =
    nat_eqb m.active (length m.open_requests)
    && distinct m.open_requests
    && below m.next m.open_requests

not_below : (n : ℕ) (xs : List ℕ) → below n xs ≡ true → includes n xs ≡ false
not_below n [] h = refl
not_below n (x ∷ xs) h = ground (arith, not_below n xs)

below_suc : (n : ℕ) (xs : List ℕ) → below n xs ≡ true → below (n + 1) xs ≡ true
below_suc n [] h = refl
below_suc n (x ∷ xs) h = ground (arith, below_suc n xs)

below-filter :
    (n k : ℕ) (xs : List ℕ) → below n xs ≡ true → below n (filter (λ x. not (x == k)) xs) ≡ true
below-filter n k [] h = refl
below-filter n k (x ∷ xs) h = ground (arith, below-filter n k xs)

kept : (k : ℕ) (xs : List ℕ) → includes k xs ≡ false → filter (λ x. not (x == k)) xs ≡ xs
kept k [] h = refl
kept k (x ∷ xs) h = ground (arith, kept k xs)

includes-filter :
    (n k : ℕ) (xs : List ℕ)
    → includes n xs ≡ false
    → includes n (filter (λ x. not (x == k)) xs) ≡ false
includes-filter n k [] h = refl
includes-filter n k (x ∷ xs) h = ground (arith, includes-filter n k xs)

distinct-filter :
    (k : ℕ) (xs : List ℕ) → distinct xs ≡ true → distinct (filter (λ x. not (x == k)) xs) ≡ true
unfolding distinct
distinct-filter k [] h = refl
distinct-filter k (x ∷ xs) h = ground (arith, distinct-filter k xs, includes-filter x k xs)

length-released :
    (k : ℕ) (xs : List ℕ)
    → distinct xs ≡ true
    → includes k xs ≡ true
    → length xs ≡ suc (length (filter (λ x. not (x == k)) xs))
unfolding distinct
length-released k [] d h = absurd (cc)
length-released k (x ∷ xs) d h = ground (arith, length-released k xs, kept k xs)

call-is_counted : (c : Call) (m : Manager) → is_counted m ≡ true → is_counted (call c m) ≡ true
unfolding call distinct
call-is_counted begin m h = ground arith
call-is_counted end m h = ground arith
call-is_counted enter m h =
    ground (arith, not_below m.next m.open_requests, below_suc m.next m.open_requests)
call-is_counted (release n) m h = ground (
  arith,
  length-released n m.open_requests,
  distinct-filter n m.open_requests,
  below-filter m.next n m.open_requests,
)

run-is_counted : (m : Manager) (cs : List Call) → is_counted m ≡ true → is_counted (run m cs) ≡ true
unfolding run
run-is_counted m [] h = h
run-is_counted m (c ∷ cs) h = run-is_counted (call c m) cs (call-is_counted c m h)

-- After any calls of the manager, in any order, its counter is the number of the requests that have
-- entered and have not been released, however often a release was called.
pub run-active :
    (cs : List Call)
    → (run create_drain_manager cs).active ≡ length (run create_drain_manager cs).open_requests
unfolding distinct
run-active cs =
    (nat_eqb_iff _ _).0 (&&-left _ _ (&&-left _ _ (run-is_counted create_drain_manager cs refl)))

abbrev pub is_end : Call → Bool
is_end end = true
is_end _ = false

call-drains :
    (m : Manager) (c : Call)
    → m.draining ≡ true
    → is_end c ≡ false
    → ((call c m).draining ≡ true) × ((call c m).active ≤ m.active)
unfolding call
call-drains m begin d n = (ground arith, ground arith)
call-drains m end d n = absurd (cc)
call-drains m enter d n = (ground arith, ground arith)
call-drains m (release k) d n = (ground arith, ground arith)

-- While a supervisor drains and the drain is not ended, it goes on draining and no call raises the
-- number of active requests.
pub run-drains :
    (m : Manager) (cs : List Call)
    → m.draining ≡ true
    → any is_end cs ≡ false
    → ((run m cs).draining ≡ true) × ((run m cs).active ≤ m.active)
unfolding run
run-drains m [] d n = (d, omega arith)
run-drains m (c ∷ cs) d n =
    let (d1, l1) = call-drains m c d (ground arith) in
    let (d2, l2) = run-drains (call c m) cs d1 (ground arith) in (d2, omega (arith, l1, l2))

abbrev version_of : Event → ℕ
version_of (drain v) = v
version_of (recovery v) = v

-- The versions of the events, from the last one on, fall.
unfoldable pub is_falling : ℕ → List Event → Bool
is_falling bound [] = true
is_falling bound (e ∷ es) = ltb (version_of e) bound && is_falling (version_of e) es

abbrev pub publish_all : Publisher → List (Bool × Option Bool × ℕ) → Publisher
publish_all p [] = p
publish_all p ((draining, ready, now) ∷ cs) = publish_all (publish p draining ready now) cs

falls :
    (v now : ℕ) (es : List Event)
    → is_falling (v + 1) es ≡ true
    → (ltb (max (v + 1) now) (max (v + 1) now + 1) && is_falling (max (v + 1) now) es) ≡ true
unfolding is_falling
falls v now [] k = ground arith
falls v now (e ∷ es) k = ground arith

publish-is_falling :
    (p : Publisher) (draining : Bool) (ready : Option Bool) (now : ℕ)
    → is_falling (p.version + 1) p.published ≡ true
    → is_falling
        ((publish p draining ready now).version + 1)
        (publish p draining ready now).published
      ≡ true
unfolding publish next_version is_falling
publish-is_falling p true ready now h = falls p.version now p.published h
publish-is_falling p false (some true) now h = falls p.version now p.published h
publish-is_falling p false (some false) now h = h
publish-is_falling p false none now h = h

-- Whatever the clock says and however often the supervisor drains and recovers, every event that it
-- publishes has a higher version than the one before.
pub publish_all-is_falling :
    (p : Publisher) (calls : List (Bool × Option Bool × ℕ))
    → is_falling (p.version + 1) p.published ≡ true
    → is_falling ((publish_all p calls).version + 1) (publish_all p calls).published ≡ true
publish_all-is_falling p [] h = h
publish_all-is_falling p ((draining, ready, now) ∷ cs) h =
    publish_all-is_falling (publish p draining ready now) cs
      (publish-is_falling p draining ready now h)
