-- ===== src/Collation.antt =====
-- `left.localeCompare(right) <= 0`: the order of texts by the collation of the host's locale, which
-- is no code of the repository. The program relies on its being a total preorder.
use elera.Prelude.{
  ℕ, String, ◌≡◌, refl, Bool, true, false, not, List, [], ◌∷◌, arith, nat_eq, string_eq,
}
use elera.Prelude.Text.{codes, codes_lt}

pub record Collation : Type 0 where
  pub leq : String → String → Bool
  pub total : (a b : String) → leq a b ≡ false → leq b a ≡ true
  pub trans : (a b c : String) → leq a b ≡ true → leq b c ≡ true → leq a c ≡ true

-- The order of the UTF-16 units is such a collation.
codes_total : (a b : List ℕ) → codes_lt b a ≡ true → codes_lt a b ≡ false
unfolding codes_lt
codes_total [] [] h = refl
codes_total [] (y ∷ ys) h = cc
codes_total (x ∷ xs) [] h = refl
codes_total (x ∷ xs) (y ∷ ys) h = ground (arith, codes_total xs ys)

codes_trans : (a b c : List ℕ) → codes_lt b a ≡ false → codes_lt c b ≡ false → codes_lt c a ≡ false
unfolding codes_lt
codes_trans [] [] [] h k = refl
codes_trans [] [] (z ∷ zs) h k = refl
codes_trans [] (y ∷ ys) [] h k = cc
codes_trans [] (y ∷ ys) (z ∷ zs) h k = refl
codes_trans (x ∷ xs) [] c h k = cc
codes_trans (x ∷ xs) (y ∷ ys) [] h k = cc
codes_trans (x ∷ xs) (y ∷ ys) (z ∷ zs) h k = ground (arith, codes_trans xs ys zs)

not_both : (b : Bool) → not b ≡ false → b ≡ true
not_both b h = ground arith

pub unit_total :
    (a b : String)
    → not (codes_lt (codes b) (codes a)) ≡ false
    → not (codes_lt (codes a) (codes b)) ≡ true
unit_total a b h = rw (codes_total (codes a) (codes b) (not_both _ h)) refl

pub unit_trans :
    (a b c : String)
    → not (codes_lt (codes b) (codes a)) ≡ true
    → not (codes_lt (codes c) (codes b)) ≡ true
    → not (codes_lt (codes c) (codes a)) ≡ true
unit_trans a b c h k = ground (arith, codes_trans (codes a) (codes b) (codes c))

abbrev pub unit_collation : Collation
unit_collation = record {
  leq = λ a b. not (codes_lt (codes b) (codes a));
  total = unit_total;
  trans = unit_trans;
}
