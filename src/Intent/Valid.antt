-- ===== src/Intent/Valid.antt =====
-- What a valid intent is (intent/model.mjs).
use elera.Prelude.{
  ℕ, suc, ◌+◌, ◌≤◌, String, ◌≡◌, refl, sym, ap, ◌∙◌, inl, inr, Bool, true, false, not, ◌&&◌, Option,
  none, some, List, [], ◌∷◌, ◌++◌, map, Memᴰ, arith, eq_iff, nat_eq, string_eq, leb→le, Bool-cases,
  &&-left, &&-right, length, length-append, includes, dedupe, dedupe_onto, nat_eqb_iff,
}
use mathlib.Core.List.Memᴰ
use elera.Prelude.Int.{ℤ, pos, negsuc}
use elera.Prelude.Result.{Result, ok}
use elera.Prelude.Lists.{includes_of_mem}
use elera.Fqdn.{fqdn}
use elera.Intent.{
  Intent, Member, Fault, IntentError, validate_intent, unless_faults, faults, fault_unless,
  member_faults, repeats, texts, or_empty, is_truthy, is_fqdn, same_text, is_empty, at_least,
  at_most,
}

-- No text stands twice.
abbrev pub IsDistinct : List String → Type 0
IsDistinct [] = Unit {0}
IsDistinct (x ∷ xs) = (Memᴰ x xs → ⊥) × IsDistinct xs

-- Every member has one qualified name, which is its address too.
abbrev pub AreNamed : List Member → Type 0
AreNamed [] = Unit {0}
AreNamed (m ∷ ms) =
    ((n : String) × (m.name ≡ some n) × (m.address ≡ some n) × (fqdn n ≡ true)) × AreNamed ms

append-nil : {A : Type 0} (xs ys : List A) → (xs ++ ys) ≡ [] → (xs ≡ []) × (ys ≡ [])
append-nil [] ys h = (refl, h)
append-nil (x ∷ xs) ys h = absurd (cc)

fault_unless-nil : (b : Bool) (e : Fault) → fault_unless b e ≡ [] → b ≡ true
unfolding fault_unless
fault_unless-nil true e h = refl
fault_unless-nil false e h = absurd (cc)

member_faults-nil : (i : ℕ) (ms : List Member) → member_faults i ms ≡ [] → AreNamed ms
unfolding member_faults
member_faults-nil i [] h = tt
member_faults-nil i (m ∷ ms) h =
    let (h1, r1) = append-nil _ _ h in
    let (h2, r2) = append-nil _ _ r1 in
    let (h3, r3) = append-nil _ _ r2 in
    (
      named m.name m.address (fault_unless-nil _ _ h1) (fault_unless-nil _ _ h3),
      member_faults-nil (suc i) ms r3,
    )
  where
    named :
        (a b : Option String)
        → is_fqdn a ≡ true
        → same_text a b ≡ true
        → (n : String) × (a ≡ some n) × (b ≡ some n) × (fqdn n ≡ true)
    named none b f s = absurd (cc)
    named (some a) none f s = absurd (cc)
    named (some a) (some b) f s = (a, refl, ap some (sym ((eq_iff a b).0 s)), f)

-- The new set has at most one element per text, and fewer where one repeats.
dedupe_onto-length :
    (seen xs : List String) → length (dedupe_onto seen xs) ≤ length seen + length xs
dedupe_onto-length seen [] = omega arith
dedupe_onto-length seen (x ∷ xs) = elim (Bool-cases (includes x seen)) [
  | inl t ↦ rw t (omega (arith, dedupe_onto-length seen xs))
  | inr f ↦
      rw f (omega (arith, dedupe_onto-length (seen ++ x ∷ []) xs, length-append seen (x ∷ [])))
]

dedupe_onto-IsDistinct :
    (seen xs : List String)
    → length (dedupe_onto seen xs) ≡ length seen + length xs
    → IsDistinct xs × ((a : String) → Memᴰ a seen → Memᴰ a xs → ⊥)
dedupe_onto-IsDistinct seen [] h = (tt, λ a s m. Memᴰ.not-nil m)
dedupe_onto-IsDistinct seen (x ∷ xs) h = elim (Bool-cases (includes x seen)) [
  | inl t ↦ absurd (omega (arith, dedupe_onto-length seen xs, rw t at h))
  | inr f ↦
      let (d, apart) =
        dedupe_onto-IsDistinct (seen ++ x ∷ []) xs
          ((rw f at h) ∙ omega (arith, length-append seen (x ∷ []))) in
      (
        (λ m. apart x (Memᴰ.append_right seen (Memᴰ.head refl)) m, d),
        λ a s m. elim (Memᴰ.cases_cons m) [
          | inl e ↦ absurd (cc (f, includes_of_mem seen (Memᴰ.cast (sym e) s)))
          | inr m' ↦ apart a (Memᴰ.append_left (x ∷ []) s) m'
        ],
      )
]

repeats-IsDistinct : (xs : List String) → not (repeats xs) ≡ true → IsDistinct xs
unfolding repeats
repeats-IsDistinct xs h =
    (dedupe_onto-IsDistinct [] xs
      (omega (arith, (nat_eqb_iff (length (dedupe xs)) (length xs)).0 (ground arith)))).0

valid_port :
    (p : Option ℤ)
    → (at_least 1 p && at_most 65535 p) ≡ true
    → (n : ℕ) × (p ≡ some (pos n)) × (1 ≤ n) × (n ≤ 65535)
valid_port none h = absurd (cc)
valid_port (some (negsuc n)) h = absurd (cc)
valid_port (some (pos n)) h = (n, refl, leb→le 1 n (&&-left _ _ h), leb→le n 65535 (&&-right _ _ h))

faults-nil :
    (d : Intent)
    → faults d ≡ []
    → AreNamed (or_empty d.members)
      × IsDistinct (texts (map (λ m. m.name) (or_empty d.members)))
      × (is_truthy d.cluster_name && not (is_empty (or_empty d.members)) ≡ true)
      × (n : ℕ) × (d.mariadb_port ≡ some (pos n))
      × (1 ≤ n)
      × (n ≤ 65535)
unfolding faults
faults-nil d h =
    let (h1, r1) = append-nil _ _ h in
    let (h2, r2) = append-nil _ _ r1 in
    let (h3, r3) = append-nil _ _ r2 in
    let (h4, r4) = append-nil _ _ r3 in
    let (h5, r5) = append-nil _ _ r4 in
    let (h6, r6) = append-nil _ _ r5 in
    let (h7, r7) = append-nil _ _ r6 in
    let (n, e, low, high) = valid_port d.mariadb_port (fault_unless-nil _ _ h7) in
    (
      member_faults-nil 0 _ h4,
      repeats-IsDistinct _ (fault_unless-nil _ _ h5),
      fault_unless-nil _ _ h3,
      n,
      e,
      low,
      high,
    )

-- An intent that `validateIntent` accepts is returned as it is. It names a cluster with at least
-- one member; every member has one qualified name, which is its address too, and no two the same;
-- the port of MariaDB is a TCP port.
pub validate_intent-ok :
    (d e : Intent)
    → validate_intent d ≡ ok e
    → (e ≡ d)
      × AreNamed (or_empty d.members)
      × IsDistinct (texts (map (λ m. m.name) (or_empty d.members)))
      × (is_truthy d.cluster_name && not (is_empty (or_empty d.members)) ≡ true)
      × (n : ℕ) × (d.mariadb_port ≡ some (pos n))
      × (1 ≤ n)
      × (n ≤ 65535)
unfolding validate_intent
validate_intent-ok d e h = on (faults d) refl h
  where
    inj : {x y : Intent} → Path (Result IntentError Intent) (ok x) (ok y) → x ≡ y
    inj e = cc

    on :
        (fs : List Fault)
        → faults d ≡ fs
        → unless_faults d fs ≡ ok e
        → (e ≡ d)
          × AreNamed (or_empty d.members)
          × IsDistinct (texts (map (λ m. m.name) (or_empty d.members)))
          × (is_truthy d.cluster_name && not (is_empty (or_empty d.members)) ≡ true)
          × (n : ℕ) × (d.mariadb_port ≡ some (pos n))
          × (1 ≤ n)
          × (n ≤ 65535)
    on [] q h =
        let (a, b, c, n, p, low, high) = faults-nil d q in (sym (inj h), a, b, c, n, p, low, high)
    on (f ∷ fs) q h = absurd (cc)
