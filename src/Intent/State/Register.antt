-- ===== src/Intent/State/Register.antt =====
-- The state of the intent as a register that holds the active intent (intent/state.mjs).
use elera.Prelude.{
  String, ◌≡◌, refl, sym, ap, subst, inl, inr, Bool, true, ◌&&◌, some, List, [], ◌∷◌, nat_eq,
  string_eq, if◌then◌else◌, Bool-cases, &&-left, &&-right, all,
}
use elera.Intent.{Intent, Fault, validate_intent, unless_faults, faults, is_empty}
use elera.Intent.Render.{Rendered, render_intent, rendered_of, render_mariadb_config}
use elera.Intent.State.{
  Disk, Answers, holds, lands, read_active, write_previous, write_active, write_rendered, roll_back,
  finish, apply_read, apply_rendered, apply_checked, apply,
}

-- A call of `apply`, with what the file system answers to it.
abbrev pub Request : Type 0
Request = Answers × Intent

-- The calls one after the other, whatever they return.
unfoldable pub apply_all : (Intent → String) → List Request → Disk → Disk
unfolding apply
apply_all hash [] disk = disk
apply_all hash ((w, d) ∷ rs) disk = apply_all hash rs (apply hash w disk d).0

-- The register takes an intent that is valid and whose writes all land.
abbrev pub is_taken : Request → Bool
is_taken (w, d) =
    is_empty (faults d) && w.directory && lands w.previous && lands w.active && lands w.rendered

unfoldable pub hold : Intent → List Request → Intent
hold c [] = c
hold c (r ∷ rs) = hold (if is_taken r then r.1 else c) rs

-- The disk stands for a register that holds `c`: the active file holds it, and the rendered file
-- what it renders to.
abbrev pub IsRegister : Intent → Disk → Type 0
IsRegister c disk = (disk.active ≡ holds c) × (disk.rendered ≡ some (render_mariadb_config c))

apply_read-IsRegister :
    (w : Answers) (old : Disk) (r : Rendered) (c : Intent)
    → r.mariadb ≡ render_mariadb_config r.intent
    → IsRegister c old
    → lands w.restored ≡ true
    → IsRegister
        (if w.directory && lands w.previous && lands w.active && lands w.rendered
          then r.intent
          else c)
        (apply_read w old r (some c)).0
unfolding apply_read finish write_rendered write_active write_previous roll_back
apply_read-IsRegister w old r c m (h, k) t = elim (Bool-cases w.directory) [
  | inr f ↦ rw f (h, k)
  | inl a ↦ elim (Bool-cases (lands w.previous)) [
    | inr f ↦ rw (a, f, t) (refl, k)
    | inl b ↦ elim (Bool-cases (lands w.active)) [
      | inr f ↦ rw (a, b, f, t) (refl, k)
      | inl e ↦ elim (Bool-cases (lands w.rendered)) [
        | inr f ↦ rw (a, b, e, f, t) (refl, k)
        | inl g ↦ rw (a, b, e, g) (refl, ap some m)
      ]
    ]
  ]
]

apply-IsRegister :
    (hash : Intent → String) (r : Request) (old : Disk) (c : Intent)
    → IsRegister c old
    → lands r.0.restored ≡ true
    → IsRegister (if is_taken r then r.1 else c) (apply hash r.0 old r.1).0
unfolding apply apply_checked apply_rendered read_active render_intent validate_intent
apply-IsRegister hash (w, d) old c k t = on (faults d)
  where
    on :
        (fs : List Fault)
        → IsRegister
            (if is_empty fs && w.directory && lands w.previous && lands w.active && lands w.rendered
              then d
              else c)
            (apply_checked w old (rendered_of hash (unless_faults d fs))).0
    on (f ∷ fs) = k
    on [] =
        let r : Rendered = record {
          hash = hash d;
          mariadb = render_mariadb_config d;
          intent = d;
        } in
        let taken = w.directory && lands w.previous && lands w.active && lands w.rendered in
        subst (λ o. IsRegister (if taken then d else c) (apply_rendered w old r o).0)
          (sym (ap read_active k.0)) (apply_read-IsRegister w old r c refl k t)

-- The three files refine a register. From a disk that stands for a register with an active intent,
-- any calls of `apply`, failing or not, lead to a disk that stands for the register after the same
-- calls, where a call is taken if its intent is valid and all its writes land, and changes nothing
-- otherwise; provided that each call can write the active intent back.
pub apply_all-IsRegister :
    (hash : Intent → String) (rs : List Request) (disk : Disk) (c : Intent)
    → IsRegister c disk
    → all (λ r. lands r.0.restored) rs ≡ true
    → IsRegister (hold c rs) (apply_all hash rs disk)
unfolding apply_all hold
apply_all-IsRegister hash [] disk c k t = k
apply_all-IsRegister hash ((w, d) ∷ rs) disk c k t =
    apply_all-IsRegister hash rs (apply hash w disk d).0 (if is_taken (w, d) then d else c)
      (apply-IsRegister hash (w, d) disk c k (&&-left (lands w.restored) _ t))
      (&&-right (lands w.restored) _ t)
