-- ===== src/Recovery/Lease/Exclusive.antt =====
-- No two epochs hold a majority of leases (cluster/cold-bootstrap/lease.mjs,
-- runtime/recovery-authorization.mjs).
use elera.Prelude.{
  ℕ, suc, ◌+◌, ◌≤◌, String, ◌≡◌, refl, sym, ap, ap₂, ◌∙◌, ◌⊎◌, inl, inr, Bool, true, false, not,
  ◌&&◌, ◌||◌, Option, none, some, List, [], ◌∷◌, map, arith, eq_iff, ltb, leb, ◌==◌, nat_eq,
  string_eq, leb→le, Bool-cases, Option-cases, &&-left, &&-right, length, all, count, if◌then◌else◌,
}
use elera.Fqdn.{fqdn_any_length}
use elera.Recovery.Lease.{
  Held, File, free, garbled, leased, stale_after, is_stale, Contact, unreached, lost, answered, ask,
  same_claim, claim_file, claim, is_granted, claim_all, has_majority,
}

-- The file after a granted claim holds that claim.
Holds : File → String → String → Type 0
Holds file epoch winner = (h : Held) × (file ≡ leased h) × (h.epoch ≡ epoch) × (h.winner ≡ winner)

file-Holds :
    (file : File) (now : ℕ) (epoch winner : String)
    → is_granted (claim_file file now epoch winner).0 ≡ true
    → Holds (claim_file file now epoch winner).1 epoch winner
unfolding claim_file Holds
file-Holds free now epoch winner g =
    (record { epoch = epoch; winner = winner; claimed_at = some now }, refl, refl, refl)
file-Holds garbled now epoch winner g = absurd (cc)
file-Holds (leased h) now epoch winner g = elim (Bool-cases (same_claim h epoch winner)) [
  | inl t ↦ rw t (
    h,
    refl,
    (eq_iff h.epoch epoch).0 (&&-left _ _ t),
    (eq_iff h.winner winner).0 (&&-right _ _ t),
  )
  | inr f ↦ elim (Bool-cases (is_stale now h.claimed_at)) [
    | inl s ↦
        rw (f, s)
          (record { epoch = epoch; winner = winner; claimed_at = some now }, refl, refl, refl)
    | inr k ↦ absurd (cc (rw (f, k) at g))
  ]
]

claim-Holds :
    (file : File) (now : ℕ) (epoch winner : String)
    → is_granted (claim file now epoch winner).0 ≡ true
    → Holds (claim file now epoch winner).1 epoch winner
unfolding claim
claim-Holds file now epoch winner g =
    elim (Bool-cases (epoch == "" || not (fqdn_any_length winner))) [
      | inl t ↦ absurd (cc (rw t at g))
      | inr f ↦ rw f (file-Holds file now epoch winner (rw f at g))
    ]

-- Another claim on a lease that is not stale.
refused :
    (h : Held) (t later : ℕ) (epoch winner : String)
    → h.claimed_at ≡ some t
    → later ≤ t + stale_after
    → same_claim h epoch winner ≡ false
    → (is_granted (claim (leased h) later epoch winner).0 ≡ false)
      × ((claim (leased h) later epoch winner).1 ≡ leased h)
unfolding claim claim_file
refused h t later epoch winner c l n =
    elim (Bool-cases (epoch == "" || not (fqdn_any_length winner))) [
      | inl b ↦ rw b (refl, refl)
      | inr f ↦ rw (f, n, c, not_stale) (refl, refl)
    ]
  where
    not_stale : ltb (t + stale_after) later ≡ false
    not_stale = ground arith

-- While the lease that a granted claim left is not stale, a claim of another epoch or winner is not
-- granted and leaves the file as it is.
pub claim-exclusive :
    (file : File) (now later : ℕ) (epoch winner epoch' winner' : String) (h : Held) (t : ℕ)
    → is_granted (claim file now epoch winner).0 ≡ true
    → (claim file now epoch winner).1 ≡ leased h
    → h.claimed_at ≡ some t
    → later ≤ t + stale_after
    → (epoch == epoch' && winner == winner') ≡ false
    → (is_granted (claim (leased h) later epoch' winner').0 ≡ false)
      × ((claim (leased h) later epoch' winner').1 ≡ leased h)
unfolding Holds
claim-exclusive file now later epoch winner epoch' winner' h t g f c l n =
    let (h', e, p, q) = claim-Holds file now epoch winner g in
    let same : h' ≡ h = inj (sym e ∙ f) in
    refused h t later epoch' winner' c l (
      ap₂ (λ a b. a == epoch' && b == winner') (ap (λ x. x.epoch) (sym same) ∙ p)
        (ap (λ x. x.winner) (sym same) ∙ q)
      ∙ n)
  where
    inj : {x y : Held} → leased x ≡ leased y → x ≡ y
    inj e = cc

-- The lease of a file is not stale before the time `later`.
abbrev pub is_current : ℕ → File → Bool
is_current later (leased h) = on h.claimed_at
  where
    on : Option ℕ → Bool
    on none = false
    on (some t) = leb later (t + stale_after)
is_current later _ = false

-- The files after the claims.
abbrev pub files_of : List (Bool × File) → List File
files_of = map (λ c. c.1)

-- A claim that counted left a lease that is not stale before the time `later`.
abbrev pub is_kept : ℕ → Bool × File → Bool
is_kept later (counted, file) = not counted || is_current later file

-- Of a lease that was granted and is current, no other claim gets a grant.
one_or_other :
    (file : File) (now later : ℕ) (epoch winner epoch' winner' : String)
    → (epoch == epoch' && winner == winner') ≡ false
    → is_granted (claim file now epoch winner).0 ≡ true
    → is_current later (claim file now epoch winner).1 ≡ true
    → is_granted (claim (claim file now epoch winner).1 later epoch' winner').0 ≡ false
unfolding Holds
one_or_other file now later epoch winner epoch' winner' n g k =
    let (h, e, p, q) = claim-Holds file now epoch winner g in
    on h e (rw e at k) (Option-cases h.claimed_at)
  where
    on :
        (h : Held)
        → (claim file now epoch winner).1 ≡ leased h
        → is_current later (leased h) ≡ true
        → (h.claimed_at ≡ none) ⊎ ((t : ℕ) × (h.claimed_at ≡ some t))
        → is_granted (claim (claim file now epoch winner).1 later epoch' winner').0 ≡ false
    on h e k (inl z) = absurd (cc (rw z at k))
    on h e k (inr (t, z)) =
        rw e
          (claim-exclusive file now later epoch winner epoch' winner' h t g e z
            (leb→le later (t + stale_after) (rw z at k)) n).0

-- At one member, two claims of which the first was kept do not both count.
asked_once :
    (a b : Contact) (file : File) (now later : ℕ) (epoch winner epoch' winner' : String)
    → (epoch == epoch' && winner == winner') ≡ false
    → is_kept later (ask a file now epoch winner) ≡ true
    → (ask a file now epoch winner).0 ≡ true
    → (ask b (ask a file now epoch winner).1 later epoch' winner').0 ≡ false
unfolding ask
asked_once unreached b file now later epoch winner epoch' winner' n k g = cc
asked_once lost b file now later epoch winner epoch' winner' n k g = cc
asked_once answered unreached file now later epoch winner epoch' winner' n k g = refl
asked_once answered lost file now later epoch winner epoch' winner' n k g = refl
asked_once answered answered file now later epoch winner epoch' winner' n k g =
    one_or_other file now later epoch winner epoch' winner' n g (rw g at k)

grants_apart :
    (contact contact' : ℕ → Contact) (files : List File) (now later : ℕ)
    (epoch winner epoch' winner' : String)
    → (epoch == epoch' && winner == winner') ≡ false
    → all (is_kept later) (claim_all contact files now epoch winner) ≡ true
    → count (λ c. c.0) (claim_all contact files now epoch winner)
        + count
            (λ c. c.0)
            (claim_all contact'
              (files_of (claim_all contact files now epoch winner))
              later
              epoch'
              winner')
      ≤ length files
unfolding claim_all
grants_apart contact contact' [] now later epoch winner epoch' winner' n a = omega arith
grants_apart contact contact' (f ∷ fs) now later epoch winner epoch' winner' n a =
    let below =
      grants_apart (λ i. contact (suc i)) (λ i. contact' (suc i)) fs now later epoch winner epoch'
        winner' n (&&-right _ _ a) in
    let once =
      asked_once (contact 0) (contact' 0) f now later epoch winner epoch' winner' n
        (&&-left _ _ a) in
    added (ask (contact 0) f now epoch winner).0
      (ask (contact' 0) (ask (contact 0) f now epoch winner).1 later epoch' winner').0 _ _ _ once
      below
  where
    added :
        (x y : Bool) (m k l : ℕ)
        → (x ≡ true → y ≡ false)
        → m + k ≤ l
        → (if x then suc m else m) + (if y then suc k else k) ≤ suc l
    added true true m k l o h = absurd (cc (o refl))
    added true false m k l o h = omega arith
    added false true m k l o h = omega arith
    added false false m k l o h = omega arith

length-claim_all :
    (contact : ℕ → Contact) (files : List File) (now : ℕ) (epoch winner : String)
    → length (claim_all contact files now epoch winner) ≡ length files
unfolding claim_all
length-claim_all contact [] now epoch winner = refl
length-claim_all contact (f ∷ fs) now epoch winner =
    ap suc (length-claim_all (λ i. contact (suc i)) fs now epoch winner)

-- Two claims that go round the same members, each of which may not be reached or lose its answer,
-- the second at a time when no lease that counted in the first is stale or undated: where both
-- count a majority of grants, they are of one epoch and one winner.
pub claim_all-agree :
    (contact contact' : ℕ → Contact) (files : List File) (now later : ℕ)
    (epoch winner epoch' winner' : String)
    → all (is_kept later) (claim_all contact files now epoch winner) ≡ true
    → has_majority (claim_all contact files now epoch winner) ≡ true
    → has_majority (
        claim_all contact'
          (files_of (claim_all contact files now epoch winner))
          later
          epoch'
          winner')
      ≡ true
    → (epoch == epoch' && winner == winner') ≡ true
unfolding has_majority
claim_all-agree contact contact' files now later epoch winner epoch' winner' a m m' =
    elim (Bool-cases (epoch == epoch' && winner == winner')) [
      | inl t ↦ t
      | inr f ↦
          let round = claim_all contact files now epoch winner in
          let apart =
            grants_apart contact contact' files now later epoch winner epoch' winner' f a in
          let l = length-claim_all contact files now epoch winner in
          let l' = length-claim_all contact' (files_of round) later epoch' winner' in
          let l'' = length_files (claim_all contact files now epoch winner) in
          let q = leb→le _ _ m in let q' = leb→le _ _ m' in absurd (omega arith)
    ]
  where
    length_files : (cs : List (Bool × File)) → length (files_of cs) ≡ length cs
    length_files [] = refl
    length_files (c ∷ cs) = ap suc (length_files cs)
