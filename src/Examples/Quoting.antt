-- ===== src/Examples/Quoting.antt =====
-- Quoted texts on concrete data, with a reader that keeps the rules of quoted text.
use elera.Prelude.{
  ℕ, ◌≡◌, refl, inl, inr, Bool, true, false, ◌&&◌, none, some, List, [], ◌∷◌, ◌++◌, nat_eqb, nat_eq,
  string_eq, if◌then◌else◌, Bool-cases, nat_eqb_iff,
}
use elera.Lifecycle.PendingInit.Sql.{sql_literal, sql_identifier}
use elera.Lifecycle.PendingInit.Sql.Read.{
  Reading, Reader, prefixed, opens, is_special, read_text, read_text-sql,
}

-- The rules, with a backslash before any other character dropped.
unfoldable scan : (q : ℕ) → (escapes : Bool) → List ℕ → Reading
scan q e [] = none
scan q e (c ∷ []) = if nat_eqb c q then some ([], []) else none
scan q e (c ∷ d ∷ cs) =
    let skip = scan q e cs in
    let rest = scan q e (d ∷ cs) in
    if nat_eqb c q
    then if nat_eqb d q then prefixed q skip else some ([], d ∷ cs)
    else if e && nat_eqb c b'\\'
    then prefixed d skip
    else prefixed c rest

scan-closes :
    (q : ℕ) (e : Bool) (cs : List ℕ) → opens q cs ≡ false → scan q e (q ∷ cs) ≡ some ([], cs)
unfolding scan
scan-closes q e [] h = rw ((nat_eqb_iff q q).1 refl) refl
scan-closes q e (d ∷ cs) h = rw ((nat_eqb_iff q q).1 refl, h) refl

scan-quote : (q : ℕ) (e : Bool) (cs : List ℕ) → scan q e (q ∷ q ∷ cs) ≡ prefixed q (scan q e cs)
unfolding scan
scan-quote q e cs = rw ((nat_eqb_iff q q).1 refl) refl

scan-backslash :
    (q : ℕ) (e : Bool) (cs : List ℕ)
    → nat_eqb b'\\' q ≡ false
    → e ≡ true
    → scan q e (b'\\' ∷ b'\\' ∷ cs) ≡ prefixed b'\\' (scan q e cs)
unfolding scan
scan-backslash q true cs n h = rw n refl
scan-backslash q false cs n h = cc

scan-ordinary :
    (q : ℕ) (e : Bool) (c : ℕ) (cs : List ℕ)
    → is_special q e c ≡ false
    → scan q e (c ∷ cs) ≡ prefixed c (scan q e cs)
unfolding scan
scan-ordinary q e c [] h = elim (Bool-cases (nat_eqb c q)) [
  | inl t ↦ absurd (cc (rw t at h))
  | inr f ↦ rw f refl
]
scan-ordinary q e c (d ∷ cs) h = elim (Bool-cases (nat_eqb c q)) [
  | inl t ↦ absurd (cc (rw t at h))
  | inr f ↦ rw (f, rw f at h) refl
]

abbrev scanner : (q : ℕ) (e : Bool) → nat_eqb b'\\' q ≡ false → Reader q e
scanner q e n = record {
  read = scan q e;
  closes = scan-closes q e;
  quote = scan-quote q e;
  backslash = λ cs h. scan-backslash q e cs n h;
  ordinary = scan-ordinary q e;
}

-- A backslash, both quotes, and a letter; then a semicolon.
abbrev quotes : List ℕ
quotes = b'\\' ∷ b'\'' ∷ b'`' ∷ b'n' ∷ []

abbrev semicolon : List ℕ
semicolon = b';' ∷ []

read_text-sql_example :
    (read_text (scanner b'\'' true refl) (sql_literal quotes ++ semicolon)
      ≡ some (quotes, semicolon))
    × (read_text (scanner b'`' false refl) (sql_identifier quotes ++ semicolon)
        ≡ some (quotes, semicolon))
read_text-sql_example =
    read_text-sql (scanner b'\'' true refl) (scanner b'`' false refl) quotes semicolon refl refl
