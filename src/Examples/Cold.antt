-- ===== src/Examples/Cold.antt =====
-- Cold recovery on concrete data: candidates, leases, startup, the operator's bootstrap.
use elera.Prelude.{
  ℕ, zero, suc, ◌+◌, ◌-◌, ◌*◌, ◌/◌, ◌%◌, ◌^◌, ◌≤◌, ◌<◌, min, max, String, ◌≡◌, refl, sym, ap, ap₂,
  subst, ◌∙◌, ◌≢◌, ◌↔◌, ◌⊎◌, inl, inr, Bool, true, false, not, ◌&&◌, ◌||◌, Option, none, some, List,
  [], ◌∷◌, ◌++◌, map, Memᴰ, arith, eq_iff, ltb, leb, nat_eqb, Eq, ◌==◌, nat_eq, string_eq,
  if◌then◌else◌, ltb→lt, lt→ltb, leb→le, Bool-cases, Option-cases, &&-left, &&-right, is_some,
  length, filter, any, all, find, count, head?, get_last?, length-append, length-filter,
  count-le-length, mem-filter, mem-filter_of, any_of_mem, mem_of_any, all_mem, any-false_mem,
  find-some, find-none, count-add-le, mem_of_count, count_le_of, count_pos, includes, dedupe,
  dedupe_onto, nat_eqb_iff,
}
use elera.Prelude.Int.{pos, ◌≤ℤ◌}
use elera.Prelude.Result.{ok}
use elera.Collation.{unit_collation}
use elera.Recovery.Evidence.{Evidence}
use elera.Recovery.Candidate.{select_candidate, of_history, seqno_of}
use elera.Recovery.Candidate.Authority.{candidate-highest, candidate-least, candidate-unrivalled}
use elera.Recovery.Lease.{
  Contact, lost, answered, File, free, claim, claim_all, has_majority, leased, is_granted,
}
use elera.Recovery.Lease.Exclusive.{claim_all-agree, claim-exclusive}
use elera.Recovery.Startup.{Argument}
use elera.Recovery.Bootstrap.{
  World, Service, Readers, execute, load_completed, planned, same_candidate, verified,
}
use elera.Recovery.Bootstrap.Started.{execute-started, execute-again}

abbrev ev : String → String → ℕ → Evidence
ev node uuid n = record {
  node = node;
  uuid = uuid;
  seqno = some (pos n);
  saved_seqno = none;
  recovered_seqno = none;
  data_directory = none;
  galera = none;
  active = some false;
  generation = some 1;
  observed_at = some 100;
}

abbrev states : List Evidence
states = ev "a.x" "u" 5 ∷ ev "b.x" "u" 7 ∷ ev "c.x" "u" 7 ∷ ev "d.x" "v" 7 ∷ []

candidate-highest_example : seqno_of (ev "a.x" "u" 5) ≤ℤ seqno_of (ev "b.x" "u" 7)
unfolding select_candidate elera.Fqdn.fqdn elera.Prelude.Sort.sort elera.Prelude.Text.codes_lt
candidate-highest_example =
    candidate-highest unit_collation 1 states {w = ev "b.x" "u" 7} refl (ev "a.x" "u" 5)
      (Memᴰ.head refl)

candidate-least_example : unit_collation.leq "b.x" "c.x" ≡ true
unfolding select_candidate elera.Fqdn.fqdn elera.Prelude.Sort.sort elera.Prelude.Text.codes_lt
candidate-least_example =
    candidate-least unit_collation 1 states {w = ev "b.x" "u" 7} refl (ev "c.x" "u" 7)
      (Memᴰ.tail (Memᴰ.tail (Memᴰ.head refl))) refl refl

v_is_not_u : Path String "v" "u" → ⊥
v_is_not_u e = off ((eq_iff "v" "u").1 e)
  where
    off : Path Bool false true → ⊥
    off p = cc

candidate-unrivalled_example : length (of_history "v" states) < length (of_history "u" states)
unfolding select_candidate elera.Fqdn.fqdn elera.Prelude.Sort.sort elera.Prelude.Text.codes_lt
candidate-unrivalled_example =
    candidate-unrivalled unit_collation 1 states {w = ev "b.x" "u" 7} refl (ev "d.x" "v" 7)
      (Memᴰ.tail (Memᴰ.tail (Memᴰ.tail (Memᴰ.head refl)))) v_is_not_u refl

abbrev files : List File
files = free ∷ free ∷ free ∷ []

abbrev same : String → String → Bool
same a b = a == b

-- The last member loses its answer to the first claim.
abbrev reached : ℕ → Contact
reached i = if i == 2 then lost else answered

claim_all-agree_example : (same "e" "e" && same "a.x" "a.x") ≡ true
unfolding claim_all claim has_majority elera.Fqdn.fqdn_any_length
claim_all-agree_example =
    claim_all-agree reached (λ i. answered) files 0 10 "e" "a.x" "e" "a.x" refl refl refl

claim-exclusive_example :
    (is_granted
        (claim
          (leased (record { epoch = "e"; winner = "a.x"; claimed_at = some 0 }))
          10
          "f"
          "b.x").0
      ≡ false)
    × ((claim (leased (record { epoch = "e"; winner = "a.x"; claimed_at = some 0 })) 10 "f" "b.x").1
        ≡ leased (record { epoch = "e"; winner = "a.x"; claimed_at = some 0 }))
unfolding claim elera.Fqdn.fqdn_any_length
claim-exclusive_example =
    claim-exclusive free 0 10 "e" "a.x" "f" "b.x"
      (record { epoch = "e"; winner = "a.x"; claimed_at = some 0 }) 0 refl refl refl (omega arith)
      refl

abbrev no_other : List Argument
no_other = []

abbrev readers : Readers
readers = record {
  online = λ n. some false;
  read_state = λ n. some (ev n "u" 7);
  recover = λ n. none;
}

abbrev world : World
world = record {
  collation = unit_collation;
  nodes = "a.x" ∷ "b.x" ∷ [];
  first = readers;
  second = readers;
  verify = none;
  locked = false;
  bootstraps = λ n. true;
}

abbrev service : Service
service = record { completed = []; stored = some [] }

execute-started_example :
    (true ≡ true)
    × (load_completed service (some "k") ≡ none)
    × (false ≡ false)
    × (x y : Evidence) × (planned world readers ≡ ok (some x))
    × (planned world readers ≡ ok (some y))
    × (same_candidate x y ≡ true)
    × (verified none y ≡ true)
    × (y.node ≡ "a.x")
unfolding execute elera.Prelude.Dict.get elera.Fqdn.fqdn_any_length select_candidate elera.Fqdn.fqdn
    elera.Prelude.Sort.sort elera.Prelude.Text.codes_lt
execute-started_example = execute-started world service true (some "k") "a.x" refl

execute-again_example :
    (execute world (execute world service true (some "k")).1 true (some "k")).0
    ≡ record { started = none; result = ok (ev "a.x" "u" 7) }
unfolding execute elera.Prelude.Dict.get elera.Fqdn.fqdn_any_length select_candidate elera.Fqdn.fqdn
    elera.Prelude.Sort.sort elera.Prelude.Text.codes_lt
execute-again_example = execute-again world world service "k" (ev "a.x" "u" 7) refl refl
