-- ===== src/Lifecycle/PendingInit/Sql/Read.antt =====
-- What a quoted text says to the database (lifecycle/pending-init/sql.mjs). How MariaDB reads quoted
-- text is a parameter, with the rules of its manual that the quoting relies on.
use elera.Prelude.{
  ℕ, ◌≡◌, refl, ap, ◌∙◌, inl, inr, Bool, true, false, ◌&&◌, ◌||◌, Option, none, some, List, [], ◌∷◌,
  ◌++◌, nat_eqb, nat_eq, string_eq, if◌then◌else◌, Bool-cases, nat_eqb_iff,
}
use elera.Lifecycle.PendingInit.Sql.{double, sql_literal, sql_identifier}

-- The text that is read, and what follows its closing quote; `none` where no quote closes it.
abbrev pub Reading : Type 0
Reading = Option (List ℕ × List ℕ)

abbrev pub prefixed : ℕ → Reading → Reading
prefixed c none = none
prefixed c (some (text, rest)) = some (c ∷ text, rest)

abbrev pub opens : ℕ → List ℕ → Bool
opens q [] = false
opens q (c ∷ cs) = nat_eqb c q

abbrev pub is_special : ℕ → Bool → ℕ → Bool
is_special q escapes c = nat_eqb c q || escapes && nat_eqb c b'\\'

-- A reader of text within quotes `q`, from behind the opening quote on: a quote that no other
-- follows closes the text, two quotes are one, and other characters stand for themselves; with
-- `escapes`, two backslashes are one, and what else a backslash does is left open. So MariaDB reads
-- an identifier between backquotes without `escapes`, and, while the SQL mode NO_BACKSLASH_ESCAPES
-- is off, a literal with them.
pub record Reader (q : ℕ) (escapes : Bool) : Type 0 where
  pub read : List ℕ → Reading
  pub closes : (cs : List ℕ) → opens q cs ≡ false → read (q ∷ cs) ≡ some ([], cs)
  pub quote : (cs : List ℕ) → read (q ∷ q ∷ cs) ≡ prefixed q (read cs)
  pub backslash :
      (cs : List ℕ) → escapes ≡ true → read (b'\\' ∷ b'\\' ∷ cs) ≡ prefixed b'\\' (read cs)
  pub ordinary :
      (c : ℕ) (cs : List ℕ) → is_special q escapes c ≡ false → read (c ∷ cs) ≡ prefixed c (read cs)

-- A whole quoted text.
unfoldable pub read_text : {q : ℕ} {escapes : Bool} → Reader q escapes → List ℕ → Reading
read_text r [] = none
read_text {q = q} r (c ∷ cs) = if nat_eqb c q then r.read cs else none

snoc : (xs : List ℕ) (c : ℕ) (rest : List ℕ) → (xs ++ c ∷ []) ++ rest ≡ xs ++ c ∷ rest
snoc [] c rest = refl
snoc (x ∷ xs) c rest = ap (λ l. x ∷ l) (snoc xs c rest)

read-literal :
    (r : Reader b'\'' true) (cs rest : List ℕ)
    → opens b'\'' rest ≡ false
    → r.read (double b'\'' (double b'\\' cs) ++ b'\'' ∷ rest) ≡ some (cs, rest)
unfolding double
read-literal r [] rest h = r.closes rest h
read-literal r (c ∷ cs) rest h = elim (Bool-cases (nat_eqb c b'\\')) [
  | inl t ↦
      let e = (nat_eqb_iff c b'\\').0 t in rw (e, r.backslash _ refl, read-literal r cs rest h) refl
  | inr f ↦ elim (Bool-cases (nat_eqb c b'\'')) [
    | inl t ↦ let e = (nat_eqb_iff c b'\'').0 t in rw (e, r.quote _, read-literal r cs rest h) refl
    | inr g ↦
        rw (f, g) (r.ordinary c _ (rw (f, g) refl) ∙ ap (prefixed c) (read-literal r cs rest h))
  ]
]

read-identifier :
    (r : Reader b'`' false) (cs rest : List ℕ)
    → opens b'`' rest ≡ false
    → r.read (double b'`' cs ++ b'`' ∷ rest) ≡ some (cs, rest)
unfolding double
read-identifier r [] rest h = r.closes rest h
read-identifier r (c ∷ cs) rest h = elim (Bool-cases (nat_eqb c b'`')) [
  | inl t ↦ let e = (nat_eqb_iff c b'`').0 t in rw (e, r.quote _, read-identifier r cs rest h) refl
  | inr f ↦ rw f (r.ordinary c _ (rw f refl) ∙ ap (prefixed c) (read-identifier r cs rest h))
]

-- A text quoted as a literal or as an identifier is read back as it was, and the reading ends
-- exactly where the quoted text ends, whatever SQL follows it that does not begin with the same
-- quote: no text leaves its quotes. This holds of every reader that keeps the rules
-- of `Reader`, which are MariaDB's while the SQL mode NO_BACKSLASH_ESCAPES is off.
pub read_text-sql :
    (literals : Reader b'\'' true) (identifiers : Reader b'`' false) (cs rest : List ℕ)
    → opens b'\'' rest ≡ false
    → opens b'`' rest ≡ false
    → (read_text literals (sql_literal cs ++ rest) ≡ some (cs, rest))
      × (read_text identifiers (sql_identifier cs ++ rest) ≡ some (cs, rest))
unfolding read_text sql_literal sql_identifier
read_text-sql literals identifiers cs rest h k = (
  ap literals.read (snoc (double b'\'' (double b'\\' cs)) b'\'' rest)
      ∙ read-literal literals cs rest h,
  ap identifiers.read (snoc (double b'`' cs) b'`' rest) ∙ read-identifier identifiers cs rest k,
)
