-- ===== src/Runtime/DataDirectory.antt =====
-- What the data directory of MariaDB allows (lifecycle/data-directory.mjs).
use elera.Prelude.{
  String, ◌≡◌, refl, ap, inl, inr, Bool, true, false, ◌&&◌, List, [], ◌∷◌, nat_eq, string_eq,
  if◌then◌else◌, Bool-cases, includes,
}
use elera.Prelude.Result.{Result, ok, err}

-- What the file system answers: the directory is missing, cannot be looked at, is no directory, is
-- not writable, or has entries.
pub data Directory : Type 0 where
  missing inaccessible not_directory not_writable : Directory
  entries : List String → Directory

pub data Action : Type 0 where
  fail start initialize : Action

pub data DirectoryError : Type 0 where
  stat_failed : DirectoryError

abbrev pub is_empty : List String → Bool
is_empty [] = true
is_empty (x ∷ xs) = false

-- `inspectDataDirectory`
unfoldable pub inspect_data_directory :
    Directory → (bootstrap : Bool) → Result DirectoryError Action
inspect_data_directory inaccessible bootstrap = err stat_failed
inspect_data_directory (entries names) bootstrap =
    if includes "mysql" names
    then (if bootstrap then ok fail else ok start)
    else if is_empty names && bootstrap
    then ok initialize
    else ok fail
inspect_data_directory _ bootstrap = ok fail

-- A directory is initialized only where it is empty and the bootstrap is asked for; MariaDB starts
-- only on one with the system database, and never for a bootstrap.
pub inspect_data_directory-safe :
    (d : Directory) (b : Bool) (a : Action)
    → inspect_data_directory d b ≡ ok a
    → (a ≡ initialize → (d ≡ entries []) × (b ≡ true))
      × (a ≡ start
          → (b ≡ false)
            × (names : List String) × (d ≡ entries names)
            × (includes "mysql" names ≡ true))
unfolding inspect_data_directory
inspect_data_directory-safe d b a h = on d h
  where
    inj : {x y : Action} → Path (Result DirectoryError Action) (ok x) (ok y) → y ≡ x
    inj e = cc

    -- An action other than the two.
    failed :
        {d : Directory}
        → a ≡ fail
        → (a ≡ initialize → (d ≡ entries []) × (b ≡ true))
          × (a ≡ start
              → (b ≡ false)
                × (names : List String) × (d ≡ entries names)
                × (includes "mysql" names ≡ true))
    failed e = (λ q. absurd (cc), λ q. absurd (cc))

    empty : (names : List String) → (is_empty names && b) ≡ true → (names ≡ []) × (b ≡ true)
    empty [] t = (refl, t)
    empty (x ∷ xs) t = absurd (cc)

    with_entries :
        (names : List String)
        → inspect_data_directory (entries names) b ≡ ok a
        → (a ≡ initialize → (entries names ≡ entries []) × (b ≡ true))
          × (a ≡ start
              → (b ≡ false)
                × (ns : List String) × (entries names ≡ entries ns)
                × (includes "mysql" ns ≡ true))
    with_entries names h = elim (Bool-cases (includes "mysql" names)) [
      | inl t ↦ elim (Bool-cases b) [
        | inl u ↦ failed (inj (rw (t, u) at h))
        | inr g ↦ (λ q. absurd (cc (inj (rw (t, g) at h))), λ q. (g, names, refl, t))
      ]
      | inr f ↦ elim (Bool-cases (is_empty names && b)) [
        | inl t ↦ (
          λ q. (ap entries (empty names t).0, (empty names t).1),
          λ q. absurd (cc (inj (rw (f, t) at h))),
        )
        | inr g ↦ failed (inj (rw (f, g) at h))
      ]
    ]

    on :
        (d : Directory)
        → inspect_data_directory d b ≡ ok a
        → (a ≡ initialize → (d ≡ entries []) × (b ≡ true))
          × (a ≡ start
              → (b ≡ false)
                × (names : List String) × (d ≡ entries names)
                × (includes "mysql" names ≡ true))
    on missing h = failed (inj h)
    on inaccessible h = absurd (cc)
    on not_directory h = failed (inj h)
    on not_writable h = failed (inj h)
    on (entries names) h = with_entries names h
