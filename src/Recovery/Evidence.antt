-- ===== src/Recovery/Evidence.antt =====
-- What a supervisor reports of its node, and its validation (cold-bootstrap/evidence-validation.mjs).
-- A text that is missing is the empty text, which the code refuses alike.
pub mod Validity
use elera.Prelude.{
  ℕ, zero, suc, ◌+◌, ◌-◌, ◌*◌, ◌/◌, ◌%◌, ◌^◌, ◌≤◌, ◌<◌, min, max, String, ◌≡◌, refl, sym, ap, ap₂,
  subst, ◌∙◌, ◌≢◌, ◌↔◌, ◌⊎◌, inl, inr, Bool, true, false, not, ◌&&◌, ◌||◌, Option, none, some, List,
  [], ◌∷◌, ◌++◌, map, Memᴰ, arith, eq_iff, ltb, leb, nat_eqb, Eq, ◌==◌, nat_eq, string_eq,
  if◌then◌else◌, ltb→lt, lt→ltb, leb→le, Bool-cases, Option-cases, &&-left, &&-right, is_some,
  length, filter, any, all, find, count, head?, get_last?, length-append, length-filter,
  count-le-length, mem-filter, mem-filter_of, any_of_mem, mem_of_any, all_mem, any-false_mem,
  find-some, find-none, count-add-le, mem_of_count, count_le_of, count_pos, includes, dedupe,
  dedupe_onto, nat_eqb_iff,
}
use elera.Prelude.Int.{ℤ}
use elera.Prelude.Result.{Result, ok, err, ◌>>=◌, ◌>>◌, throw_if}
use elera.Fqdn.{fqdn}

pub record DataDirectory : Type 0 where
  pub valid : Bool
  pub reason : String

-- `ready` is a text of the database ('ON') or a Boolean.
pub data Flag : Type 0 where
  text : String → Flag
  bool : Bool → Flag

pub record Galera : Type 0 where
  pub cluster_uuid : Option String
  pub cluster_status : String
  pub local_state : String
  pub ready : Option Flag
  pub cluster_size : Option ℕ

-- `seqno`, `generation` and `observed_at` are `none` where the value is no integer, `active` where
-- it is no Boolean. Times are in milliseconds.
pub record Evidence : Type 0 where
  pub node : String
  pub uuid : String
  pub seqno : Option ℤ
  pub saved_seqno : Option ℤ
  pub recovered_seqno : Option ℤ
  pub data_directory : Option DataDirectory
  pub galera : Option Galera
  pub active : Option Bool
  pub generation : Option ℕ
  pub observed_at : Option ℕ

pub data EvidenceError : Type 0 where
  incomplete_recovery_evidence invalid_recovery_evidence stale_recovery_evidence : EvidenceError

-- `item.dataDirectory && item.dataDirectory.valid !== true`
abbrev pub bad_directory : Option DataDirectory → Bool
bad_directory none = false
bad_directory (some d) = not d.valid

-- `!Number.isInteger(item.generation) || item.generation < 1`
abbrev pub bad_generation : Option ℕ → Bool
bad_generation none = true
bad_generation (some g) = ltb g 1

-- The long condition of the loop, for an item behind the nodes `seen`.
unfoldable pub is_malformed : List String → Evidence → Bool
is_malformed seen item =
    not (fqdn item.node)
    || includes item.node seen
    || (item.uuid == "")
    || not (is_some item.seqno)
    || bad_generation item.generation
    || not (is_some item.active)
    || bad_directory item.data_directory
    || not (is_some item.observed_at)

-- `Math.abs(currentTime - observedTime) > maxAgeMs`
abbrev pub is_stale : ℕ → ℕ → Option ℕ → Bool
is_stale now max_age none = false
is_stale now max_age (some t) = ltb max_age ((now - t) + (t - now))

unfoldable pub check_items : ℕ → ℕ → List String → List Evidence → Result EvidenceError (Unit {0})
check_items now max_age seen [] = ok tt
check_items now max_age seen (item ∷ items) =
    let rest = check_items now max_age (seen ++ item.node ∷ []) items in
    if is_malformed seen item
    then err invalid_recovery_evidence
    else if is_stale now max_age item.observed_at
    then err stale_recovery_evidence
    else rest

-- `validateRecoveryEvidence`
unfoldable pub validate_recovery_evidence :
    ℕ → ℕ → List Evidence → Result EvidenceError (List Evidence)
unfolding check_items
validate_recovery_evidence now max_age [] = err incomplete_recovery_evidence
validate_recovery_evidence now max_age (item ∷ items) = do
  check_items now max_age [] (item ∷ items)
  ok (item ∷ items)
