-- ===== src/Recovery/State.antt =====
-- The recovery state of a supervisor (cold-bootstrap/recovery-state.mjs).
pub mod Moves
use elera.Prelude.{
  ℕ, zero, suc, ◌+◌, ◌-◌, ◌*◌, ◌/◌, ◌%◌, ◌^◌, ◌≤◌, ◌<◌, min, max, String, ◌≡◌, refl, sym, ap, ap₂,
  subst, ◌∙◌, ◌≢◌, ◌↔◌, ◌⊎◌, inl, inr, Bool, true, false, not, ◌&&◌, ◌||◌, Option, none, some, List,
  [], ◌∷◌, ◌++◌, map, Memᴰ, arith, eq_iff, ltb, leb, nat_eqb, Eq, ◌==◌, nat_eq, string_eq,
  if◌then◌else◌, ltb→lt, lt→ltb, leb→le, Bool-cases, Option-cases, &&-left, &&-right, is_some,
  length, filter, any, all, find, count, head?, get_last?, length-append, length-filter,
  count-le-length, mem-filter, mem-filter_of, any_of_mem, mem_of_any, all_mem, any-false_mem,
  find-some, find-none, count-add-le, mem_of_count, count_le_of, count_pos, includes, dedupe,
  dedupe_onto, nat_eqb_iff,
}
use elera.Prelude.Text.{codes, codes_lt, decimal}
use elera.Prelude.Result.{Result, ok, err}

pub data Phase : Type 0 where
  pending collecting_evidence awaiting_quorum recovery_authorized bootstrapping joining complete :
      Phase
  cluster_unavailable blocked_ambiguous : Phase

-- An epoch is a number or a text, or null; undefined is the `none` of an optional epoch.
pub data EpochId : Type 0 where
  null_epoch : EpochId
  number : ℕ → EpochId
  text : String → EpochId

-- `TRANSITIONS.get(from)?.has(to)`
unfoldable pub allows : Phase → Phase → Bool
allows pending collecting_evidence = true
allows pending joining = true
allows pending bootstrapping = true
allows pending cluster_unavailable = true
allows pending blocked_ambiguous = true
allows collecting_evidence awaiting_quorum = true
allows collecting_evidence joining = true
allows collecting_evidence blocked_ambiguous = true
allows collecting_evidence cluster_unavailable = true
allows awaiting_quorum recovery_authorized = true
allows awaiting_quorum blocked_ambiguous = true
allows awaiting_quorum cluster_unavailable = true
allows recovery_authorized bootstrapping = true
allows recovery_authorized blocked_ambiguous = true
allows recovery_authorized cluster_unavailable = true
allows bootstrapping joining = true
allows bootstrapping complete = true
allows bootstrapping cluster_unavailable = true
allows joining joining = true
allows joining complete = true
allows joining cluster_unavailable = true
allows complete collecting_evidence = true
allows complete cluster_unavailable = true
allows cluster_unavailable collecting_evidence = true
allows cluster_unavailable blocked_ambiguous = true
allows cluster_unavailable complete = true
allows cluster_unavailable joining = true
allows blocked_ambiguous collecting_evidence = true
allows blocked_ambiguous joining = true
allows _ _ = false

-- `===` on the nine names, by their numbers.
abbrev pub index : Phase → ℕ
index pending = 0
index collecting_evidence = 1
index awaiting_quorum = 2
index recovery_authorized = 3
index bootstrapping = 4
index joining = 5
index complete = 6
index cluster_unavailable = 7
index blocked_ambiguous = 8

abbrev pub same_phase : Phase → Phase → Bool
same_phase a b = nat_eqb (index a) (index b)

-- `String(epoch)`
abbrev pub epoch_text : EpochId → List ℕ
epoch_text null_epoch = codes "null"
epoch_text (number n) = decimal n
epoch_text (text s) = codes s

abbrev pub same_epoch : EpochId → EpochId → Bool
same_epoch null_epoch null_epoch = true
same_epoch (number a) (number b) = nat_eqb a b
same_epoch (text a) (text b) = a == b
same_epoch _ _ = false

abbrev pub same_epoch? : Option EpochId → Option EpochId → Bool
same_epoch? none none = true
same_epoch? (some a) (some b) = same_epoch a b
same_epoch? _ _ = false

-- Two numbers by their order, any others by that of their texts.
abbrev pub earlier_epoch : EpochId → EpochId → Bool
earlier_epoch (number a) (number b) = ltb a b
earlier_epoch a b = codes_lt (epoch_text a) (epoch_text b)

-- `details`: the reason, the epoch, and the members that callers add.
pub record Details : Type 0 where
  pub reason : Option String
  pub epoch : Option EpochId
  pub members : List String

pub record Recovery : Type 0 where
  pub state : Phase
  pub reason : Option String
  pub epoch : Option EpochId
  pub context : Details

abbrev pub no_details : Details
no_details = record { reason = none; epoch = none; members = [] }

-- `createRecoveryState`
abbrev pub create_recovery_state : Phase → Recovery
create_recovery_state initial = record {
  state = initial;
  reason = none;
  epoch = none;
  context = no_details;
}

unfoldable pub is_stale_epoch : Option EpochId → Option EpochId → Bool
is_stale_epoch none current = false
is_stale_epoch (some a) none = false
is_stale_epoch (some a) (some b) = if same_epoch a b then false else earlier_epoch a b

-- `details.epoch ?? epoch`
abbrev pub or_current : Option EpochId → Option EpochId → Option EpochId
or_current none current = current
or_current (some null_epoch) current = current
or_current e current = e

pub data StateError : Type 0 where
  invalid_recovery_transition : Phase → Phase → StateError

-- `set`, which returns the new state; a stale epoch, and an unavailable cluster that is reported
-- for the epoch just completed, change nothing.
unfoldable pub set : Recovery → Phase → Details → Result StateError Recovery
unfolding is_stale_epoch
set r next d =
    if is_stale_epoch d.epoch r.epoch
    then ok r
    else if same_phase r.state complete
        && same_phase next cluster_unavailable
        && same_epoch? d.epoch r.epoch
    then ok r
    else if not (same_phase next r.state) && not (allows r.state next)
    then err (invalid_recovery_transition r.state next)
    else ok (record {
      state = next;
      reason = d.reason;
      epoch = or_current d.epoch r.epoch;
      context = d;
    })

-- `snapshot`: the reason and the epoch of the state come over those of the context.
pub record Snapshot : Type 0 where
  pub state : Phase
  pub reason : Option String
  pub epoch : Option EpochId
  pub members : List String

abbrev first_some : {A : Type 0} → Option A → Option A → Option A
first_some none b = b
first_some (some a) b = some a

-- `...(reason ? { reason } : {})`: an empty reason is left to the context.
abbrev non_empty : Option String → Option String
non_empty none = none
non_empty (some s) = if s == "" then none else some s

unfoldable pub snapshot : Recovery → Snapshot
snapshot r = record {
  state = r.state;
  reason = first_some (non_empty r.reason) r.context.reason;
  epoch = first_some r.epoch r.context.epoch;
  members = r.context.members;
}
