-- ===== src/Recovery/Candidate.antt =====
-- The choice of the node that bootstraps a dead cluster (cold-bootstrap/candidate.mjs).
pub mod Authority
use elera.Prelude.{
  ℕ, zero, suc, ◌+◌, ◌-◌, ◌*◌, ◌/◌, ◌%◌, ◌^◌, ◌≤◌, ◌<◌, min, max, String, ◌≡◌, refl, sym, ap, ap₂,
  subst, ◌∙◌, ◌≢◌, ◌↔◌, ◌⊎◌, inl, inr, Bool, true, false, not, ◌&&◌, ◌||◌, Option, none, some, List,
  [], ◌∷◌, ◌++◌, map, Memᴰ, arith, eq_iff, ltb, leb, nat_eqb, Eq, ◌==◌, nat_eq, string_eq,
  if◌then◌else◌, ltb→lt, lt→ltb, leb→le, Bool-cases, Option-cases, &&-left, &&-right, is_some,
  length, filter, any, all, find, count, head?, get_last?, length-append, length-filter,
  count-le-length, mem-filter, mem-filter_of, any_of_mem, mem_of_any, all_mem, any-false_mem,
  find-some, find-none, count-add-le, mem_of_count, count_le_of, count_pos, includes, dedupe,
  dedupe_onto, nat_eqb_iff,
}
use elera.Prelude.Int.{ℤ, pos, negsuc, ltb_ℤ, eqb_ℤ, max_ℤ, pos_part, neg_part}
use elera.Prelude.Sort.{sort}
use elera.Collation.{Collation}
use elera.Fqdn.{fqdn}
use elera.Recovery.Evidence.{Evidence}

-- The states of one cluster history, with the highest sequence number among them.
pub record History : Type 0 where
  pub uuid : String
  pub candidates : List Evidence
  pub highest : ℤ

pub data Refusal : Type 0 where
  no_state_evidence : Refusal  -- thrown
  incomplete_evidence split_brain insufficient_evidence no_recoverable_seqno : Refusal

pub data Grounds : Type 0 where
  equivalent_candidates strongest_history unique_highest : Grounds

pub data Selection : Type 0 where
  refused : Refusal → List Evidence → List History → Selection
  eligible :
      Grounds
      → (candidate : Option Evidence) → (candidates divergent : List Evidence)
      → (histories : List History) → Selection

-- Past the first test of `selectCandidate` every state has a sequence number.
abbrev pub seqno_or : Option ℤ → ℤ
seqno_or none = negsuc 0
seqno_or (some n) = n

abbrev pub seqno_of : Evidence → ℤ
seqno_of e = seqno_or e.seqno

-- `Math.max(...)` of the states of a history, of which there is at least one.
unfoldable pub highest_of : List Evidence → ℤ
highest_of [] = negsuc 0
highest_of (e ∷ []) = seqno_of e
highest_of (e ∷ f ∷ es) = max_ℤ (seqno_of e) (highest_of (f ∷ es))

abbrev pub of_history : String → List Evidence → List Evidence
of_history uuid = filter (λ s. s.uuid == uuid)

unfoldable pub history : List Evidence → String → History
unfolding highest_of
history states uuid = record {
  uuid = uuid;
  candidates = of_history uuid states;
  highest = highest_of (of_history uuid states);
}

-- `Map.groupBy(states, (state) => state.uuid)`, one history for each uuid.
unfoldable pub histories : List Evidence → List History
unfolding history
histories states = map (history states) (dedupe (map (λ s. s.uuid) states))

-- Higher sequence number first, then more states, then the lesser uuid.
unfoldable pub ranks_before : Collation → History → History → Bool
ranks_before c left right =
    if ltb_ℤ right.highest left.highest
    then true
    else if ltb_ℤ left.highest right.highest
    then false
    else if ltb (length right.candidates) (length left.candidates)
    then true
    else if ltb (length left.candidates) (length right.candidates)
    then false
    else c.leq left.uuid right.uuid

unfoldable pub ties_with : History → History → Bool
ties_with strongest h =
    eqb_ℤ h.highest strongest.highest && nat_eqb (length h.candidates) (length strongest.candidates)

abbrev pub is_incomplete : Evidence → Bool
is_incomplete s = not (fqdn s.node) || (s.uuid == "") || not (is_some s.seqno)

-- The one winner, or of several the one whose name comes first.
abbrev pub grounds : List Evidence → List History → Grounds
grounds (w ∷ []) (h ∷ []) = unique_highest
grounds (w ∷ []) ranked = strongest_history
grounds ws ranked = equivalent_candidates

unfoldable pub choose : Collation → List Evidence → Option Evidence
choose c (w ∷ []) = some w
choose c ws = head? (sort (λ a b. c.leq a.node b.node) ws)

unfoldable pub select_ranked : Collation → ℕ → List Evidence → List History → Selection
unfolding choose ties_with
select_ranked c minimum states [] = refused no_state_evidence states []
select_ranked c minimum states (strongest ∷ others) =
    let ranked = strongest ∷ others in
    let winners = filter (λ s. eqb_ℤ (seqno_of s) strongest.highest) strongest.candidates in
    if ltb 1 (length (filter (ties_with strongest) ranked))
    then refused split_brain states ranked
    else if ltb (length strongest.candidates) minimum
    then refused insufficient_evidence states ranked
    else if ltb_ℤ strongest.highest (pos 0)
    then refused no_recoverable_seqno states []
    else eligible (grounds winners ranked) (choose c winners) strongest.candidates
        (filter (λ s. not (s.uuid == strongest.uuid)) states) ranked

-- `selectCandidate`; `minimum` is `minimumHistorySize`.
unfoldable pub select_candidate : Collation → ℕ → List Evidence → Selection
unfolding select_ranked histories ranks_before
select_candidate c minimum [] = refused no_state_evidence [] []
select_candidate c minimum (s ∷ states) =
    if any is_incomplete (s ∷ states)
    then refused incomplete_evidence (s ∷ states) []
    else select_ranked c minimum (s ∷ states) (sort (ranks_before c) (histories (s ∷ states)))
