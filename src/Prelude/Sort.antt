-- ===== src/Prelude/Sort.antt =====
-- `xs.sort(compare)`: a stable sort, by a test that says that `a` may stand before `b`
-- (`compare(a, b) <= 0`).
use mathlib.Core.Path.{◌≡◌, refl}
use mathlib.Core.Bool.{Bool, true, false}
use mathlib.Core.Option.{some}
use mathlib.Core.List.{List, [], ◌∷◌, Memᴰ}
use mathlib.Core.List.Memᴰ
use mathlib.Core.Logic.{◌⊎◌, inl, inr}
use native.Mathlib.Omega.{arith}
use elera.Prelude.Tests.{if◌then◌else◌, Bool-cases}
use elera.Prelude.Lists.{count, head?}

module _ {ℓ} {A : Type ℓ} (before : A → A → Bool) where
  unfoldable pub insert : A → List A → List A
  insert a [] = a ∷ []
  insert a (x ∷ xs) = let rest = insert a xs in if before a x then a ∷ x ∷ xs else x ∷ rest

  unfoldable pub sort : List A → List A
  unfolding insert
  sort [] = []
  sort (x ∷ xs) = insert x (sort xs)

  pub count-insert : (p : A → Bool) (a : A) (xs : List A) → count p (insert a xs) ≡ count p (a ∷ xs)
  unfolding insert
  count-insert p a [] = refl
  count-insert p a (x ∷ xs) = ground (arith, count-insert p a xs)

  -- A sorted list has the elements of the list, each as often.
  pub count-sort : (p : A → Bool) (xs : List A) → count p (sort xs) ≡ count p xs
  unfolding sort
  count-sort p [] = refl
  count-sort p (x ∷ xs) = ground (arith, count-insert p x (sort xs), count-sort p xs)

  pub mem-insert : {b : A} (a : A) (xs : List A) → Memᴰ b (insert a xs) → (b ≡ a) ⊎ Memᴰ b xs
  unfolding insert
  mem-insert a [] m = Memᴰ.cases_cons m
  mem-insert {b} a (x ∷ xs) m = elim (Bool-cases (before a x)) [
    | inl t ↦ Memᴰ.cases_cons (rw t at m)
    | inr f ↦ at_tail (λ m. mem-insert a xs m) (Memᴰ.cases_cons (rw f at m))
  ]
    where
      shift : (b ≡ a) ⊎ Memᴰ b xs → (b ≡ a) ⊎ Memᴰ b (x ∷ xs)
      shift (inl e) = inl e
      shift (inr m') = inr (Memᴰ.tail m')

      at_tail :
          (Memᴰ b (insert a xs) → (b ≡ a) ⊎ Memᴰ b xs)
          → (b ≡ x) ⊎ Memᴰ b (insert a xs)
          → (b ≡ a) ⊎ Memᴰ b (x ∷ xs)
      at_tail below (inl e) = inr (Memᴰ.head e)
      at_tail below (inr m') = shift (below m')

  pub mem-sort : {b : A} (xs : List A) → Memᴰ b (sort xs) → Memᴰ b xs
  unfolding sort
  mem-sort [] m = m
  mem-sort {b} (x ∷ xs) m = pick (λ m. mem-sort xs m) (mem-insert x (sort xs) m)
    where
      pick : (Memᴰ b (sort xs) → Memᴰ b xs) → (b ≡ x) ⊎ Memᴰ b (sort xs) → Memᴰ b (x ∷ xs)
      pick below (inl e) = Memᴰ.head e
      pick below (inr m') = Memᴰ.tail (below m')

  pub insert_mem_self : (a : A) (xs : List A) → Memᴰ a (insert a xs)
  unfolding insert
  insert_mem_self a [] = Memᴰ.head refl
  insert_mem_self a (x ∷ xs) = elim (Bool-cases (before a x)) [
    | inl t ↦ rw t (Memᴰ.head refl)
    | inr f ↦ rw f (Memᴰ.tail (insert_mem_self a xs))
  ]

  pub insert_mem : {b : A} (a : A) (xs : List A) → Memᴰ b xs → Memᴰ b (insert a xs)
  unfolding insert
  insert_mem a [] m = absurd (Memᴰ.not-nil m)
  insert_mem {b} a (x ∷ xs) m = elim (Bool-cases (before a x)) [
    | inl t ↦ rw t (Memᴰ.tail m)
    | inr f ↦ rw f (later (λ m. insert_mem a xs m) (Memᴰ.cases_cons m))
  ]
    where
      later : (Memᴰ b xs → Memᴰ b (insert a xs)) → (b ≡ x) ⊎ Memᴰ b xs → Memᴰ b (x ∷ insert a xs)
      later below (inl e) = Memᴰ.head e
      later below (inr m') = Memᴰ.tail (below m')

  pub sort_mem : {b : A} (xs : List A) → Memᴰ b xs → Memᴰ b (sort xs)
  unfolding sort
  sort_mem [] m = m
  sort_mem (x ∷ xs) (Memᴰ.head e) = Memᴰ.cast e (insert_mem_self x (sort xs))
  sort_mem (x ∷ xs) (Memᴰ.tail m) = insert_mem x (sort xs) (sort_mem xs m)

-- Under a total and transitive order the head of a sorted list comes before all its elements.
module _ {ℓ} {A : Type ℓ} (before : A → A → Bool)
    (total : (a b : A) → before a b ≡ false → before b a ≡ true)
    (trans : (a b c : A) → before a b ≡ true → before b c ≡ true → before a c ≡ true) where
  -- `a` comes before each element.
  abbrev pub Heads : A → List A → Type ℓ
  Heads a xs = (b : A) → Memᴰ b xs → before a b ≡ true

  unfoldable pub IsSorted : List A → Type ℓ
  IsSorted [] = Unit
  IsSorted (x ∷ xs) = Heads x xs × IsSorted xs

  pub insert-IsSorted : (a : A) (xs : List A) → IsSorted xs → IsSorted (insert before a xs)
  unfolding insert IsSorted
  insert-IsSorted a [] s = (λ b m. absurd (Memᴰ.not-nil m), tt)
  insert-IsSorted a (x ∷ xs) (h, s) = elim (Bool-cases (before a x)) [
    | inl t ↦ rw t ((λ b m. through t b (Memᴰ.cases_cons m)), (h, s))
    | inr f ↦ rw f ((λ b m. under f b (mem-insert before a xs m)), insert-IsSorted a xs s)
  ]
    where
      through : before a x ≡ true → (b : A) → (b ≡ x) ⊎ Memᴰ b xs → before a b ≡ true
      through t b (inl e) = rw e t
      through t b (inr m) = trans a x b t (h b m)

      under : before a x ≡ false → (b : A) → (b ≡ a) ⊎ Memᴰ b xs → before x b ≡ true
      under f b (inl e) = rw e (total a x f)
      under f b (inr m) = h b m

  pub sort-IsSorted : (xs : List A) → IsSorted (sort before xs)
  unfolding sort IsSorted
  sort-IsSorted [] = tt
  sort-IsSorted (x ∷ xs) = insert-IsSorted x (sort before xs) (sort-IsSorted xs)

  before_refl : (a : A) → before a a ≡ true
  before_refl a = elim (Bool-cases (before a a)) [ inl t ↦ t | inr f ↦ total a a f ]

  head-least :
      (xs : List A) {a b : A} → IsSorted xs → head? xs ≡ some a → Memᴰ b xs → before a b ≡ true
  unfolding IsSorted
  head-least [] s h m = absurd (Memᴰ.not-nil m)
  head-least (x ∷ xs) {a} {b} (first, s) h (Memᴰ.head e) = cc (before_refl x, e, h)
  head-least (x ∷ xs) {a} {b} (first, s) h (Memᴰ.tail m) = cc (first b m, h)

  -- The head of the sorted list comes before every element.
  pub head-sort-least :
      (xs : List A) {a b : A} → head? (sort before xs) ≡ some a → Memᴰ b xs → before a b ≡ true
  head-sort-least xs h m = head-least (sort before xs) (sort-IsSorted xs) h (sort_mem before xs m)

module _ {ℓ} {A : Type ℓ} where
  pub head?_mem : (xs : List A) {a : A} → head? xs ≡ some a → Memᴰ a xs
  head?_mem [] h = cc
  head?_mem (x ∷ xs) h = Memᴰ.head (cc)

  pub head?-some_of_mem : {b : A} (xs : List A) → Memᴰ b xs → (a : A) × (head? xs ≡ some a)
  head?-some_of_mem [] m = absurd (Memᴰ.not-nil m)
  head?-some_of_mem (x ∷ xs) m = (x, refl)
