-- ===== src/Fqdn/Forms.antt =====
-- How the three forms of `isFqdn` relate.
use elera.Prelude.{
  ℕ, ◌≤◌, String, ◌≡◌, refl, ◌↔◌, inl, inr, Bool, true, false, Option, none, some, List, [], ◌∷◌,
  arith, nat_eqb, nat_eq, string_eq, Bool-cases, &&-right, length, any, all, get_last?,
}
use elera.Prelude.Text.{codes, split_on, open_piece}
use elera.Fqdn.{
  is_loose_label, is_label, labels, ends_with_dot, last_is, fqdn_any_length, fqdn, fqdn_loose,
}

-- Every text has a piece, and a text with a separator has at least two.
length-open_piece :
    (b : Bool) (c : ℕ) (ps : List (List ℕ))
    → 1 ≤ length ps
    → (length ps ≤ length (open_piece b c ps)) × (b ≡ true → 2 ≤ length (open_piece b c ps))
length-open_piece b c [] h = absurd (omega arith)
length-open_piece b c (p ∷ ps) h = ground arith

split_on_pos : (sep : ℕ) (cs : List ℕ) → 1 ≤ length (split_on sep cs)
unfolding split_on
split_on_pos sep [] = omega arith
split_on_pos sep (c ∷ cs) = omega (
  arith,
  split_on_pos sep cs,
  length-open_piece (nat_eqb c sep) c (split_on sep cs) (split_on_pos sep cs),
)

split_on_two :
    (sep : ℕ) (cs : List ℕ) → any (λ c. nat_eqb c sep) cs ≡ true → 2 ≤ length (split_on sep cs)
unfolding split_on
split_on_two sep [] h = cc
split_on_two sep (c ∷ cs) h = ground (
  arith,
  split_on_two sep cs,
  length-open_piece (nat_eqb c sep) c (split_on sep cs) (split_on_pos sep cs),
)

-- A text that ends with the separator has an empty last piece, behind its first.
abbrev after_first : List (List ℕ) → Option (List ℕ)
after_first [] = none
after_first (p ∷ ps) = get_last? ps

after_first-open_piece :
    (b : Bool) (c : ℕ) (ps : List (List ℕ))
    → after_first ps ≡ some []
    → after_first (open_piece b c ps) ≡ some []
after_first-open_piece b c [] h = cc
after_first-open_piece b c (p ∷ []) h = cc
after_first-open_piece true c (p ∷ q ∷ ps) h = h
after_first-open_piece false c (p ∷ q ∷ ps) h = h

after_first-split_on :
    (sep : ℕ) (cs : List ℕ)
    → last_is sep (get_last? cs) ≡ true
    → after_first (split_on sep cs) ≡ some []
unfolding split_on
after_first-split_on sep [] h = cc
after_first-split_on sep (c ∷ []) h = rw h refl
after_first-split_on sep (c ∷ d ∷ cs) h =
    after_first-open_piece (nat_eqb c sep) c (split_on sep (d ∷ cs))
      (after_first-split_on sep (d ∷ cs) h)

all_last :
    (p : List ℕ → Bool) (ps : List (List ℕ)) {l : List ℕ}
    → all p ps ≡ true
    → get_last? ps ≡ some l
    → p l ≡ true
all_last p [] a h = cc
all_last p (q ∷ []) a h = ground arith
all_last p (q ∷ r ∷ ps) a h = all_last p (r ∷ ps) (&&-right (p q) _ a) h

every_after_first :
    (p : List ℕ → Bool) (ps : List (List ℕ)) {l : List ℕ}
    → all p ps ≡ true
    → after_first ps ≡ some l
    → p l ≡ true
every_after_first p [] a h = cc
every_after_first p (q ∷ ps) a h = all_last p ps (&&-right (p q) _ a) h

-- So no name whose labels are all proper ends with a dot.
no_final_dot : (s : String) → all is_loose_label (labels s) ≡ true → ends_with_dot s ≡ false
unfolding is_loose_label
no_final_dot s h = elim (Bool-cases (ends_with_dot s)) [
  | inl t ↦
      cc (every_after_first is_loose_label (labels s) h (after_first-split_on b'.' (codes s) t))
  | inr f ↦ f
]

all_loose : (ls : List (List ℕ)) → all is_label ls ≡ true → all is_loose_label ls ≡ true
unfolding is_label
all_loose [] h = refl
all_loose (l ∷ ls) h = ground (arith, all_loose ls)

-- A name passes the strict test exactly when it passes both of the others, which bound the whole
-- name and the single labels.
pub fqdn_iff : (s : String) → (fqdn s ≡ true) ↔ ((fqdn_loose s ≡ true) × (fqdn_any_length s ≡ true))
unfolding fqdn fqdn_loose fqdn_any_length
fqdn_iff s = (
  λ h. ground (arith, all_loose (labels s), no_final_dot s, split_on_two b'.' (codes s)),
  λ h. ground arith,
)
