-- ===== src/Prelude/Lists.antt =====
-- Lists measured by native numbers, and the array methods of the source with Boolean tests.
use Prim.Native.Nat.{ℕ, suc, ◌+◌, ◌≤◌, ◌<◌}
use mathlib.Core.Path.{◌≡◌, refl, sym, ap}
use mathlib.Core.Bool.{Bool, true, false, ◌&&◌, ◌||◌}
use mathlib.Core.List.{List, [], ◌∷◌, ◌++◌, map, Memᴰ}
use mathlib.Core.List.Memᴰ
use mathlib.Core.Option.{Option, none, some}
use native.Mathlib.Omega.{arith}
use mathlib.Core.Logic.{◌⊎◌, inl, inr}
use elera.Prelude.Tests.{Eq, ◌==◌, if◌then◌else◌, Bool-cases, &&-left, &&-right}

module _ {ℓ} {A : Type ℓ} where
  abbrev pub length : List A → ℕ
  length [] = 0
  length (x ∷ xs) = suc (length xs)

  -- `xs.filter(p)`
  abbrev pub filter : (A → Bool) → List A → List A
  filter p [] = []
  filter p (x ∷ xs) = let rest = filter p xs in if p x then x ∷ rest else rest

  -- `xs.some(p)`
  abbrev pub any : (A → Bool) → List A → Bool
  any p [] = false
  any p (x ∷ xs) = p x || any p xs

  -- `xs.every(p)`
  abbrev pub all : (A → Bool) → List A → Bool
  all p [] = true
  all p (x ∷ xs) = p x && all p xs

  -- `xs.find(p)`
  abbrev pub find : (A → Bool) → List A → Option A
  find p [] = none
  find p (x ∷ xs) = let rest = find p xs in if p x then some x else rest

  -- `xs.filter(p).length`
  abbrev pub count : (A → Bool) → List A → ℕ
  count p [] = 0
  count p (x ∷ xs) = let rest = count p xs in if p x then suc rest else rest

  abbrev pub head? : List A → Option A
  head? [] = none
  head? (x ∷ xs) = some x

  -- `xs.at(-1)`
  abbrev pub get_last? : List A → Option A
  get_last? [] = none
  get_last? (x ∷ []) = some x
  get_last? (x ∷ y ∷ xs) = get_last? (y ∷ xs)

module _ {ℓ} {A : Type ℓ} where
  pub length-append : (xs ys : List A) → length (xs ++ ys) ≡ length xs + length ys
  length-append [] ys = omega arith
  length-append (x ∷ xs) ys = omega (arith, length-append xs ys)

  pub length-filter : (p : A → Bool) (xs : List A) → length (filter p xs) ≡ count p xs
  length-filter p [] = refl
  length-filter p (x ∷ xs) = ground (arith, length-filter p xs)

  pub count-le-length : (p : A → Bool) (xs : List A) → count p xs ≤ length xs
  count-le-length p [] = omega arith
  count-le-length p (x ∷ xs) = ground (arith, count-le-length p xs)

  -- What `filter` keeps is in the list and passes the test.
  pub mem-filter :
      (p : A → Bool) {a : A} (xs : List A) → Memᴰ a (filter p xs) → Memᴰ a xs × (p a ≡ true)
  mem-filter p [] m = absurd (Memᴰ.not-nil m)
  mem-filter p {a} (x ∷ xs) m = elim (Bool-cases (p x)) [
    | inl t ↦ here t (λ m. mem-filter p xs m) (Memᴰ.cases_cons (rw t at m))
    | inr f ↦ later (mem-filter p xs (rw f at m))
  ]
    where
      later : Memᴰ a xs × (p a ≡ true) → Memᴰ a (x ∷ xs) × (p a ≡ true)
      later (m', h) = (Memᴰ.tail m', h)

      here :
          p x ≡ true
          → (Memᴰ a (filter p xs) → Memᴰ a xs × (p a ≡ true))
          → (a ≡ x) ⊎ Memᴰ a (filter p xs)
          → Memᴰ a (x ∷ xs) × (p a ≡ true)
      here t below (inl e) = (Memᴰ.head e, rw e t)
      here t below (inr m') = later (below m')

  -- What is in the list and passes the test is kept.
  pub mem-filter_of :
      (p : A → Bool) {a : A} (xs : List A) → Memᴰ a xs → p a ≡ true → Memᴰ a (filter p xs)
  mem-filter_of p [] m h = absurd (Memᴰ.not-nil m)
  mem-filter_of p {a} (x ∷ xs) (Memᴰ.head e) h = rw (rw e at h) (Memᴰ.head e)
  mem-filter_of p {a} (x ∷ xs) (Memᴰ.tail m) h = elim (Bool-cases (p x)) [
    | inl t ↦ rw t (Memᴰ.tail (mem-filter_of p xs m h))
    | inr f ↦ rw f (mem-filter_of p xs m h)
  ]

  pub any_of_mem : (p : A → Bool) {a : A} (xs : List A) → Memᴰ a xs → p a ≡ true → any p xs ≡ true
  any_of_mem p [] m h = absurd (Memᴰ.not-nil m)
  any_of_mem p (x ∷ xs) (Memᴰ.head e) h = rw (rw e at h) refl
  any_of_mem p (x ∷ xs) (Memᴰ.tail m) h = ground (arith, any_of_mem p xs m h)

  pub mem_of_any :
      (p : A → Bool) (xs : List A) → any p xs ≡ true → (a : A) × Memᴰ a xs × (p a ≡ true)
  mem_of_any p [] h = cc
  mem_of_any p (x ∷ xs) h = elim (Bool-cases (p x)) [
    | inl t ↦ (x, Memᴰ.head refl, t)
    | inr f ↦ let (a, m, t) = mem_of_any p xs (rw f at h) in (a, Memᴰ.tail m, t)
  ]

  pub all_mem : (p : A → Bool) {a : A} (xs : List A) → all p xs ≡ true → Memᴰ a xs → p a ≡ true
  all_mem p [] h m = absurd (Memᴰ.not-nil m)
  all_mem p (x ∷ xs) h (Memᴰ.head e) = rw e (&&-left (p x) (all p xs) h)
  all_mem p (x ∷ xs) h (Memᴰ.tail m) = all_mem p xs (&&-right (p x) (all p xs) h) m

  pub any-false_mem :
      (p : A → Bool) {a : A} (xs : List A) → any p xs ≡ false → Memᴰ a xs → p a ≡ false
  any-false_mem p [] h m = absurd (Memᴰ.not-nil m)
  any-false_mem p (x ∷ xs) h (Memᴰ.head e) = rw e (ground arith)
  any-false_mem p (x ∷ xs) h (Memᴰ.tail m) = any-false_mem p xs (ground arith) m

  pub find-some :
      (p : A → Bool) (xs : List A) {a : A} → find p xs ≡ some a → Memᴰ a xs × (p a ≡ true)
  find-some p [] h = cc
  find-some p (x ∷ xs) {a} h = elim (Bool-cases (p x)) [
    | inl t ↦ (Memᴰ.head (ground arith), ground arith)
    | inr f ↦ let (m, t) = find-some p xs {a = a} (rw f at h) in (Memᴰ.tail m, t)
  ]

  pub find-none : (p : A → Bool) {a : A} (xs : List A) → find p xs ≡ none → Memᴰ a xs → p a ≡ false
  find-none p [] h m = absurd (Memᴰ.not-nil m)
  find-none p (x ∷ xs) h (Memᴰ.head e) = rw e (ground arith)
  find-none p (x ∷ xs) h (Memᴰ.tail m) = find-none p xs (ground arith) m

  -- Two majorities of one list share an element.
  pub count-add-le :
      (p q : A → Bool) (xs : List A)
      → count p xs + count q xs ≤ length xs + count (λ x. p x && q x) xs
  count-add-le p q [] = omega arith
  count-add-le p q (x ∷ xs) = ground (arith, count-add-le p q xs)

  pub mem_of_count :
      (p : A → Bool) (xs : List A) → 0 < count p xs → (a : A) × Memᴰ a xs × (p a ≡ true)
  mem_of_count p [] h = absurd (omega arith)
  mem_of_count p (x ∷ xs) h = elim (Bool-cases (p x)) [
    | inl t ↦ (x, Memᴰ.head refl, t)
    | inr f ↦ let (a, m, t) = mem_of_count p xs (rw f at h) in (a, Memᴰ.tail m, t)
  ]

  pub count_le_of :
      (p q : A → Bool) (xs : List A) → ((x : A) → p x ≡ true → q x ≡ true) → count p xs ≤ count q xs
  count_le_of p q [] h = omega arith
  count_le_of p q (x ∷ xs) h = ground (arith, count_le_of p q xs h, h x)

  pub count_pos : (p : A → Bool) {a : A} (xs : List A) → Memᴰ a xs → p a ≡ true → 0 < count p xs
  count_pos p [] m h = absurd (Memᴰ.not-nil m)
  count_pos p (x ∷ xs) (Memᴰ.head e) h = rw (rw e at h) (omega arith)
  count_pos p (x ∷ xs) (Memᴰ.tail m) h = ground (arith, count_pos p xs m h)

-- `new Set(xs)` in the order of insertion, and `set.has(a)`.
module _ {A : Type 0} ⦃e : Eq A⦄ where
  abbrev pub includes : A → List A → Bool
  includes a = any (λ x. x == a)

  abbrev pub dedupe_onto : List A → List A → List A
  dedupe_onto seen [] = seen
  dedupe_onto seen (x ∷ xs) = dedupe_onto (if includes x seen then seen else seen ++ x ∷ []) xs

  abbrev pub dedupe : List A → List A
  dedupe = dedupe_onto []

module _ {A : Type 0} ⦃e : Eq A⦄ where
  pub includes_of_mem : {a : A} (xs : List A) → Memᴰ a xs → includes a xs ≡ true
  includes_of_mem {a} xs m = any_of_mem (λ x. x == a) xs m ((e.beq_iff a a).1 refl)

  pub mem_of_includes : {a : A} (xs : List A) → includes a xs ≡ true → Memᴰ a xs
  mem_of_includes {a} xs h =
      let (b, m, t) = mem_of_any (λ x. x == a) xs h in Memᴰ.cast (sym ((e.beq_iff b a).0 t)) m

  -- `new Set` keeps exactly the elements of the list.
  pub mem-dedupe_onto_seen : {a : A} (seen xs : List A) → Memᴰ a seen → Memᴰ a (dedupe_onto seen xs)
  mem-dedupe_onto_seen seen [] m = m
  mem-dedupe_onto_seen seen (x ∷ xs) m = elim (Bool-cases (includes x seen)) [
    | inl t ↦ rw t (mem-dedupe_onto_seen seen xs m)
    | inr f ↦ rw f (mem-dedupe_onto_seen (seen ++ x ∷ []) xs (Memᴰ.append_left (x ∷ []) m))
  ]

  pub mem-dedupe_onto : {a : A} (seen xs : List A) → Memᴰ a xs → Memᴰ a (dedupe_onto seen xs)
  mem-dedupe_onto seen [] m = absurd (Memᴰ.not-nil m)
  mem-dedupe_onto seen (x ∷ xs) (Memᴰ.head p) = elim (Bool-cases (includes x seen)) [
    | inl t ↦ rw t (mem-dedupe_onto_seen seen xs (Memᴰ.cast p (mem_of_includes seen t)))
    | inr f ↦ rw f (mem-dedupe_onto_seen (seen ++ x ∷ []) xs (Memᴰ.append_right seen (Memᴰ.head p)))
  ]
  mem-dedupe_onto seen (x ∷ xs) (Memᴰ.tail m) =
      mem-dedupe_onto (if includes x seen then seen else seen ++ x ∷ []) xs m

  pub mem-dedupe : {a : A} (xs : List A) → Memᴰ a xs → Memᴰ a (dedupe xs)
  mem-dedupe = mem-dedupe_onto []

  pub mem_of_dedupe_onto :
      {a : A} (seen xs : List A) → Memᴰ a (dedupe_onto seen xs) → Memᴰ a seen ⊎ Memᴰ a xs
  mem_of_dedupe_onto seen [] m = inl m
  mem_of_dedupe_onto {a} seen (x ∷ xs) m = elim (Bool-cases (includes x seen)) [
    | inl t ↦ elim (mem_of_dedupe_onto seen xs (rw t at m)) [
      | inl s ↦ inl s
      | inr r ↦ inr (Memᴰ.tail r)
    ]
    | inr f ↦ elim (mem_of_dedupe_onto (seen ++ x ∷ []) xs (rw f at m)) [
      | inl s ↦ elim (Memᴰ.append_cases seen s) [
        | inl s' ↦ inl s'
        | inr r ↦ inr (Memᴰ.head (Memᴰ.eq_of_singleton r))
      ]
      | inr r ↦ inr (Memᴰ.tail r)
    ]
  ]

  pub mem_of_dedupe : {a : A} (xs : List A) → Memᴰ a (dedupe xs) → Memᴰ a xs
  mem_of_dedupe xs m = elim (mem_of_dedupe_onto [] xs m) [
    | inl s ↦ absurd (Memᴰ.not-nil s)
    | inr r ↦ r
  ]

module _ {ℓ κ} {A : Type ℓ} {B : Type κ} (f : A → B) where
  pub mem-map : {a : A} (xs : List A) → Memᴰ a xs → Memᴰ (f a) (map f xs)
  mem-map [] m = absurd (Memᴰ.not-nil m)
  mem-map (x ∷ xs) (Memᴰ.head e) = Memᴰ.head (ap f e)
  mem-map (x ∷ xs) (Memᴰ.tail m) = Memᴰ.tail (mem-map xs m)

  pub mem_of_map : {b : B} (xs : List A) → Memᴰ b (map f xs) → (a : A) × Memᴰ a xs × (b ≡ f a)
  mem_of_map [] m = absurd (Memᴰ.not-nil m)
  mem_of_map (x ∷ xs) (Memᴰ.head e) = (x, Memᴰ.head refl, e)
  mem_of_map (x ∷ xs) (Memᴰ.tail m) = let (a, m', e) = mem_of_map xs m in (a, Memᴰ.tail m', e)
