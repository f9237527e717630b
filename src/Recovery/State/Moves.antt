-- ===== src/Recovery/State/Moves.antt =====
-- How the recovery state moves, over any sequence of calls of `set`.
use elera.Prelude.{
  ℕ, suc, ◌≤◌, ◌≡◌, ◌⊎◌, Bool, true, false, not, ◌||◌, Option, none, some, List, [], ◌∷◌, arith,
  nat_eq, string_eq, all,
}
use elera.Prelude.Result.{Result, ok, err}
use elera.Recovery.State.{
  Phase, pending, recovery_authorized, bootstrapping, EpochId, number, Details, Recovery,
  StateError, allows, same_phase, set, is_stale_epoch,
}

-- A successful call either changes nothing or moves to the requested state along `TRANSITIONS`.
pub set-Moves :
    (r : Recovery) (next : Phase) (d : Details) {r' : Recovery}
    → set r next d ≡ ok r'
    → (r' ≡ r) ⊎ ((r'.state ≡ next) × ((same_phase next r.state || allows r.state next) ≡ true))
unfolding set
set-Moves r next d h = ground arith

-- A sequence of calls; one that throws leaves the state as it was.
abbrev pub keep : Recovery → Result StateError Recovery → Recovery
keep r (ok r') = r'
keep r (err e) = r

unfoldable pub run : Recovery → List (Phase × Details) → Recovery
run r [] = r
run r ((next, d) ∷ calls) = run (keep r (set r next d)) calls

-- Neither fresh nor authorized to bootstrap.
abbrev pub is_unauthorized : Phase → Bool
is_unauthorized pending = false
is_unauthorized recovery_authorized = false
is_unauthorized bootstrapping = false
is_unauthorized _ = true

unauthorized-allows :
    (p q : Phase)
    → is_unauthorized p ≡ true
    → same_phase q recovery_authorized ≡ false
    → (same_phase q p || allows p q) ≡ true
    → is_unauthorized q ≡ true
unfolding allows
unauthorized-allows p q h n a = ground arith

abbrev pub never_authorizes : List (Phase × Details) → Bool
never_authorizes = all (λ c. not (same_phase c.0 recovery_authorized))

keep-unauthorized :
    (r : Recovery) (next : Phase) (d : Details)
    → is_unauthorized r.state ≡ true
    → same_phase next recovery_authorized ≡ false
    → is_unauthorized (keep r (set r next d)).state ≡ true
unfolding set
keep-unauthorized r next d h n = ground (arith, unauthorized-allows r.state next)

-- From a state that is neither pending nor authorized nor bootstrapping, no sequence of calls that
-- never sets recovery-authorized makes the supervisor bootstrap, or pending again.
pub run-unauthorized :
    (r : Recovery) (calls : List (Phase × Details))
    → is_unauthorized r.state ≡ true
    → never_authorizes calls ≡ true
    → is_unauthorized (run r calls).state ≡ true
unfolding run
run-unauthorized r [] h n = h
run-unauthorized r ((next, d) ∷ calls) h n =
    run-unauthorized (keep r (set r next d)) calls (keep-unauthorized r next d h (ground arith))
      (ground arith)

-- A numbered epoch, or none.
abbrev pub is_numbered : Option EpochId → Bool
is_numbered none = true
is_numbered (some (number n)) = true
is_numbered (some _) = false

abbrev pub epoch_rank : Option EpochId → ℕ
epoch_rank (some (number n)) = suc n
epoch_rank _ = 0

keep-epoch :
    (r : Recovery) (next : Phase) (d : Details)
    → is_numbered r.epoch ≡ true
    → is_numbered d.epoch ≡ true
    → (is_numbered (keep r (set r next d)).epoch ≡ true)
      × (epoch_rank r.epoch ≤ epoch_rank (keep r (set r next d)).epoch)
unfolding set is_stale_epoch
keep-epoch r next d h k = ground arith

-- With numbered epochs the epoch of the state never falls, whatever the calls.
pub run-epoch :
    (r : Recovery) (calls : List (Phase × Details))
    → is_numbered r.epoch ≡ true
    → all (λ c. is_numbered c.1.epoch) calls ≡ true
    → epoch_rank r.epoch ≤ epoch_rank (run r calls).epoch
unfolding run
run-epoch r [] h n = omega arith
run-epoch r ((next, d) ∷ calls) h n = omega (
  arith,
  (keep-epoch r next d h (ground arith)).1,
  run-epoch (keep r (set r next d)) calls (keep-epoch r next d h (ground arith)).0 (ground arith),
)
