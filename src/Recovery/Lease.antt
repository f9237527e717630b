-- ===== src/Recovery/Lease.antt =====
-- The recovery lease that each node grants to one epoch
-- (cluster/cold-bootstrap/lease.mjs), and the majority of leases that a winner needs before it may
-- bootstrap (runtime/recovery-authorization.mjs).
pub mod Exclusive
use elera.Prelude.{
  ℕ, zero, suc, ◌+◌, ◌-◌, ◌*◌, ◌/◌, ◌%◌, ◌^◌, ◌≤◌, ◌<◌, min, max, String, ◌≡◌, refl, sym, ap, ap₂,
  subst, ◌∙◌, ◌≢◌, ◌↔◌, ◌⊎◌, inl, inr, Bool, true, false, not, ◌&&◌, ◌||◌, Option, none, some, List,
  [], ◌∷◌, ◌++◌, map, Memᴰ, arith, eq_iff, ltb, leb, nat_eqb, Eq, ◌==◌, nat_eq, string_eq,
  if◌then◌else◌, ltb→lt, lt→ltb, leb→le, Bool-cases, Option-cases, &&-left, &&-right, is_some,
  length, filter, any, all, find, count, head?, get_last?, length-append, length-filter,
  count-le-length, mem-filter, mem-filter_of, any_of_mem, mem_of_any, all_mem, any-false_mem,
  find-some, find-none, count-add-le, mem_of_count, count_le_of, count_pos, includes, dedupe,
  dedupe_onto, nat_eqb_iff,
}
use elera.Fqdn.{fqdn_any_length}

-- What the lease file holds. `claimed_at` is `none` where the text is no date.
pub record Held : Type 0 where
  pub epoch : String
  pub winner : String
  pub claimed_at : Option ℕ

-- A file that is not there, one that does not parse, or a lease.
pub data File : Type 0 where
  free garbled : File
  leased : Held → File

pub data Answer : Type 0 where
  granted existing held_by_another invalid : Answer

-- `staleAfterMs`, with its default
abbrev pub stale_after : ℕ
stale_after = 120000

abbrev pub is_stale : ℕ → Option ℕ → Bool
is_stale now none = false
is_stale now (some t) = ltb (t + stale_after) now

abbrev pub same_claim : Held → String → String → Bool
same_claim h epoch winner = h.epoch == epoch && h.winner == winner

-- `openFile(path, 'wx')` of a path that is free, at the time `now`.
abbrev pub take : ℕ → String → String → Answer × File
take now epoch winner =
    (granted, leased (record { epoch = epoch; winner = winner; claimed_at = some now }))

unfoldable pub claim_file : File → ℕ → String → String → Answer × File
claim_file free now epoch winner = take now epoch winner
claim_file garbled now epoch winner = (held_by_another, garbled)
claim_file (leased h) now epoch winner =
    if same_claim h epoch winner
    then (existing, leased h)
    else if is_stale now h.claimed_at
    then take now epoch winner
    else (held_by_another, leased h)

-- `claim`
unfoldable pub claim : File → ℕ → String → String → Answer × File
unfolding claim_file
claim file now epoch winner =
    if epoch == "" || not (fqdn_any_length winner)
    then (invalid, file)
    else claim_file file now epoch winner

abbrev pub is_granted : Answer → Bool
is_granted granted = true
is_granted existing = true
is_granted _ = false

-- What becomes of one request for a lease: the member is not reached, it claims but its answer is
-- lost or is no success, or its answer arrives.
pub data Contact : Type 0 where
  unreached lost answered : Contact

-- One member: whether the claim counts, and its file afterwards. What is thrown counts as refused.
unfoldable pub ask : Contact → File → ℕ → String → String → Bool × File
unfolding claim
ask unreached file now epoch winner = (false, file)
ask lost file now epoch winner = (false, (claim file now epoch winner).1)
ask answered file now epoch winner =
    (is_granted (claim file now epoch winner).0, (claim file now epoch winner).1)

-- The claims at the members, each at its own file; `contact` says what becomes of each request.
unfoldable pub claim_all :
    (contact : ℕ → Contact) → List File → ℕ → String → String → List (Bool × File)
unfolding ask
claim_all contact [] now epoch winner = []
claim_all contact (f ∷ fs) now epoch winner =
    ask (contact 0) f now epoch winner ∷ claim_all (λ i. contact (suc i)) fs now epoch winner

-- `claims.filter(Boolean).length < Math.floor(members.length / 2) + 1`, as what it refuses
unfoldable pub has_majority : List (Bool × File) → Bool
has_majority claims = leb (length claims / 2 + 1) (count (λ c. c.0) claims)
