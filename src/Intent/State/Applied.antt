-- ===== src/Intent/State/Applied.antt =====
-- What `apply` leaves on disk, where it works and where it fails (intent/state.mjs).
use elera.Prelude.{
  String, ◌≡◌, refl, sym, ap, subst, ◌∙◌, inl, inr, true, Option, none, some, List, [], ◌∷◌, eq_iff,
  nat_eq, string_eq, Bool-cases,
}
use elera.Prelude.Result.{Result, ok, err}
use elera.Intent.{Intent, IntentError, Fault, validate_intent, unless_faults, faults}
use elera.Intent.Render.{Rendered, render_intent, render_mariadb_config, render_intent-ok}
use elera.Intent.State.{
  Disk, Answers, Receipt, File, holds, Written, done, failed_at, lands, read_active, then_with,
  verify, write_previous, write_active, write_rendered, roll_back, finish, apply_read,
  apply_rendered, apply_checked, apply,
}

-- The intent that the active file held before.
abbrev KeepsOld : Disk → Disk → Type 0
KeepsOld old disk = (a : Intent) → old.active ≡ holds a → disk.previous ≡ holds a

-- What the disk holds once an intent was applied to `old`.
abbrev IsApplied : Disk → Rendered → Disk → Type 0
IsApplied old r disk =
    (disk.active ≡ holds r.intent) × (disk.rendered ≡ some r.mariadb) × KeepsOld old disk

pair_inj :
    {d e : Disk} {x y : Result IntentError Receipt}
    → Path (Disk × Result IntentError Receipt) (d, x) (e, y)
    → (d ≡ e) × (x ≡ y)
pair_inj h = (ap (λ p. p.0) h, ap (λ p. p.1) h)

holds_inj : {a b : Intent} → Path File (holds a) (holds b) → a ≡ b
holds_inj h = cc

write_rendered-done :
    (w : Answers) (r : Rendered) (before : Written) {disk : Disk}
    → write_rendered w r before ≡ done disk
    → (d : Disk) × (before ≡ done d) × (disk ≡ record d { rendered = some r.mariadb })
unfolding write_rendered
write_rendered-done w r (failed_at d) h = absurd (cc)
write_rendered-done w r (done d) h = elim (Bool-cases (lands w.rendered)) [
  | inl t ↦ (d, refl, sym (inj (rw t at h)))
  | inr f ↦ absurd (cc (rw f at h))
]
  where
    inj : {x y : Disk} → Path Written (done x) (done y) → x ≡ y
    inj e = cc

write_active-done :
    (w : Answers) (r : Rendered) (before : Written) {disk : Disk}
    → write_active w r before ≡ done disk
    → (d : Disk) × (before ≡ done d) × (disk ≡ record d { active = holds r.intent })
unfolding write_active
write_active-done w r (failed_at d) h = absurd (cc)
write_active-done w r (done d) h = elim (Bool-cases (lands w.active)) [
  | inl t ↦ (d, refl, sym (inj (rw t at h)))
  | inr f ↦ absurd (cc (rw f at h))
]
  where
    inj : {x y : Disk} → Path Written (done x) (done y) → x ≡ y
    inj e = cc

write_previous-done :
    (w : Answers) (active : Option Intent) (old : Disk) {disk : Disk}
    → read_active old.active ≡ ok active
    → write_previous w active old ≡ done disk
    → KeepsOld old disk
unfolding write_previous read_active
write_previous-done w none old {disk} q h a e = absurd (cc (rw e at q))
write_previous-done w (some b) old {disk} q h a e = elim (Bool-cases (lands w.previous)) [
  | inl t ↦ sym (ap (λ d. d.previous) (inj (rw t at h))) ∙ ap holds (sym (same (rw e at q)))
  | inr f ↦ absurd (cc (rw f at h))
]
  where
    inj : {x y : Disk} → Path Written (done x) (done y) → x ≡ y
    inj e = cc

    same :
        {x y : Intent}
        → Path (Result IntentError (Option Intent)) (ok (some x)) (ok (some y))
        → x ≡ y
    same e = cc

apply_read-ok :
    (w : Answers) (old : Disk) (r : Rendered) (active : Option Intent) {disk : Disk} {a : Receipt}
    → read_active old.active ≡ ok active
    → apply_read w old r active ≡ (disk, ok a)
    → IsApplied old r disk × (a.hash ≡ r.hash)
unfolding apply_read finish
apply_read-ok w old r active {disk} {a} q h = elim (Bool-cases w.directory) [
  | inr f ↦ absurd (cc (ap (λ p. p.1) (rw f at h)))
  | inl t ↦ on _ refl (rw t at h)
]
  where
    hash_eq : {x y : Receipt} → Path (Result IntentError Receipt) (ok x) (ok y) → x.hash ≡ y.hash
    hash_eq {x} {y} e = ap (λ z. z.hash) (same e)
      where
        same : {x y : Receipt} → Path (Result IntentError Receipt) (ok x) (ok y) → x ≡ y
        same e = cc

    with_lines : Disk → Disk
    with_lines z = record z { rendered = some r.mariadb }

    on :
        (v : Written)
        → write_rendered w r (write_active w r (write_previous w active old)) ≡ v
        → finish w r active v ≡ (disk, ok a)
        → IsApplied old r disk × (a.hash ≡ r.hash)
    on (failed_at d) e h = absurd (cc (ap (λ p. p.1) h))
    on (done d) e h =
        let (d2, e2, k2) = write_rendered-done w r _ e in
        let (d1, e1, k1) = write_active-done w r _ e2 in
        let e0 = sym (ap (λ p. p.0) h) ∙ k2 ∙ ap with_lines k1 in
        (
          (
            ap (λ z. z.active) e0,
            ap (λ z. z.rendered) e0,
            λ b eb. ap (λ z. z.previous) e0 ∙ write_previous-done w active old q e1 b eb,
          ),
          hash_eq (sym (ap (λ p. p.1) h)),
        )

validate_intent-same : (d : Intent) {e : Intent} → validate_intent d ≡ ok e → d ≡ e
unfolding validate_intent
validate_intent-same d h = on (faults d) h
  where
    on : {e : Intent} (fs : List Fault) → unless_faults d fs ≡ ok e → d ≡ e
    on [] h = inj h
      where
        inj : {x y : Intent} → Path (Result IntentError Intent) (ok x) (ok y) → x ≡ y
        inj e = cc
    on (f ∷ fs) h = absurd (cc)

-- Reading back and rendering an active intent that is the rendered one.
verify_of-applied :
    (hash : Intent → String) (disk : Disk) (intent : Intent) (r : Rendered)
    → render_intent hash intent ≡ ok r
    → disk.active ≡ holds r.intent
    → verify hash disk intent
      ≡ ok (record { agrees = true; desired_hash = r.hash; active_hash = some r.hash })
unfolding verify then_with read_active
verify_of-applied hash disk intent r e h =
    let q = validate_intent-same intent (render_intent-ok hash intent e).0 in
    let again = subst (λ i. render_intent hash i ≡ ok r) q e in
    let self = (eq_iff r.hash r.hash).1 refl in rw (e, h, again, self) refl

-- Where `apply` succeeds, the active file holds the intent, the rendered file its configuration,
-- the previous file the intent that was active before, if there was one, and `verify` of the same
-- intent then agrees, with the hash that `apply` returned.
pub apply-verify :
    (hash : Intent → String) (w : Answers) (old disk : Disk) (intent : Intent) (a : Receipt)
    → apply hash w old intent ≡ (disk, ok a)
    → (disk.active ≡ holds intent)
      × (disk.rendered ≡ some (render_mariadb_config intent))
      × ((b : Intent) → old.active ≡ holds b → disk.previous ≡ holds b)
      × (verify hash disk intent
          ≡ ok (record { agrees = true; desired_hash = a.hash; active_hash = some a.hash }))
unfolding apply apply_checked apply_rendered
apply-verify hash w old disk intent a h = on (render_intent hash intent) refl h
  where
    read :
        (r : Rendered) (o : Result IntentError (Option Intent))
        → read_active old.active ≡ o
        → apply_rendered w old r o ≡ (disk, ok a)
        → IsApplied old r disk × (a.hash ≡ r.hash)
    read r (err e) q h = absurd (cc (ap (λ p. p.1) h))
    read r (ok active) q h = apply_read-ok w old r active q h

    on :
        (v : Result IntentError Rendered)
        → render_intent hash intent ≡ v
        → apply_checked w old v ≡ (disk, ok a)
        → (disk.active ≡ holds intent)
          × (disk.rendered ≡ some (render_mariadb_config intent))
          × ((b : Intent) → old.active ≡ holds b → disk.previous ≡ holds b)
          × (verify hash disk intent
              ≡ ok (record { agrees = true; desired_hash = a.hash; active_hash = some a.hash }))
    on (err e) q h = absurd (cc (ap (λ p. p.1) h))
    on (ok r) q h =
        let ((k1, k2, k3), eh) = read r (read_active old.active) refl h in
        let (v, er) = render_intent-ok hash intent q in
        let same = validate_intent-same intent v in
        (
          k1 ∙ ap holds (sym same),
          k2 ∙ ap some (ap (λ z. z.mariadb) er ∙ ap render_mariadb_config (sym same)),
          k3,
          rw eh (verify_of-applied hash disk intent r q k1),
        )

-- What the writes leave that did not all land.
IsUnrendered : Disk → Written → Type 0
IsUnrendered old (done d) = Unit {0}
IsUnrendered old (failed_at d) = d.rendered ≡ old.rendered

abbrev disk_of : Written → Disk
disk_of (done d) = d
disk_of (failed_at d) = d

write_previous-rendered :
    (w : Answers) (active : Option Intent) (old : Disk)
    → (disk_of (write_previous w active old)).rendered ≡ old.rendered
unfolding write_previous
write_previous-rendered w none old = refl
write_previous-rendered w (some b) old = elim (Bool-cases (lands w.previous)) [
  | inl t ↦ rw t refl
  | inr f ↦ rw f refl
]

write_active-rendered :
    (w : Answers) (r : Rendered) (before : Written)
    → (disk_of (write_active w r before)).rendered ≡ (disk_of before).rendered
unfolding write_active
write_active-rendered w r (failed_at d) = refl
write_active-rendered w r (done d) = elim (Bool-cases (lands w.active)) [
  | inl t ↦ rw t refl
  | inr f ↦ rw f refl
]

write_rendered-IsUnrendered :
    (w : Answers) (r : Rendered) (old : Disk) (before : Written)
    → (disk_of before).rendered ≡ old.rendered
    → IsUnrendered old (write_rendered w r before)
unfolding IsUnrendered write_rendered
write_rendered-IsUnrendered w r old (failed_at d) h = h
write_rendered-IsUnrendered w r old (done d) h = elim (Bool-cases (lands w.rendered)) [
  | inl t ↦ rw t tt
  | inr f ↦ rw f h
]

-- What a failed `apply` leaves of the disk, where `active` is what it read.
abbrev IsKept : Answers → Disk → Disk → Type 0
IsKept w old disk =
    (disk.rendered ≡ old.rendered)
    × ((b : Intent) → old.active ≡ holds b → lands w.restored ≡ true → disk.active ≡ holds b)

roll_back-IsKept :
    (w : Answers) (old d : Disk) (active : Option Intent)
    → read_active old.active ≡ ok active
    → d.rendered ≡ old.rendered
    → IsKept w old (roll_back w active d)
unfolding roll_back read_active
roll_back-IsKept w old d none q h = (h, λ b e t. absurd (cc (rw e at q)))
roll_back-IsKept w old d (some a) q h = elim (Bool-cases (lands w.restored)) [
  | inl t ↦ rw t (h, λ b e _. ap holds (sym (same (rw e at q))))
  | inr f ↦ rw f (h, λ b e t. absurd (cc))
]
  where
    same :
        {x y : Intent}
        → Path (Result IntentError (Option Intent)) (ok (some x)) (ok (some y))
        → x ≡ y
    same e = cc

apply_read-failed :
    (w : Answers) (old : Disk) (r : Rendered) (active : Option Intent) {disk : Disk}
    {e : IntentError}
    → read_active old.active ≡ ok active
    → apply_read w old r active ≡ (disk, err e)
    → IsKept w old disk
unfolding apply_read finish IsUnrendered
apply_read-failed w old r active {disk} {e} q h = elim (Bool-cases w.directory) [
  | inr f ↦
      let k = ap (λ p. p.0) (rw f at h) in
      (ap (λ z. z.rendered) (sym k), λ b eb t. ap (λ z. z.active) (sym k) ∙ eb)
  | inl t ↦
      let before = write_previous w active old in
      let next = write_active w r before in
      on (write_rendered w r next)
        (write_rendered-IsUnrendered w r old next
          (write_active-rendered w r before ∙ write_previous-rendered w active old))
        (rw t at h)
]
  where
    on :
        (v : Written) → IsUnrendered old v → finish w r active v ≡ (disk, err e) → IsKept w old disk
    on (done d) u h = absurd (cc (ap (λ p. p.1) h))
    on (failed_at d) u h =
        subst (λ z. IsKept w old z) (ap (λ p. p.0) h) (roll_back-IsKept w old d active q u)

-- Where `apply` throws, the rendered file is as it was; an intent that was active is active still,
-- provided that it can be written back.
pub apply-failed :
    (hash : Intent → String) (w : Answers) (old disk : Disk) (intent : Intent) (e : IntentError)
    → apply hash w old intent ≡ (disk, err e)
    → (disk.rendered ≡ old.rendered)
      × ((b : Intent) → old.active ≡ holds b → lands w.restored ≡ true → disk.active ≡ holds b)
unfolding apply apply_checked apply_rendered
apply-failed hash w old disk intent e h = on (render_intent hash intent) h
  where
    untouched : old ≡ disk → IsKept w old disk
    untouched k = (ap (λ z. z.rendered) (sym k), λ b eb t. ap (λ z. z.active) (sym k) ∙ eb)

    read :
        (r : Rendered) (o : Result IntentError (Option Intent))
        → read_active old.active ≡ o
        → apply_rendered w old r o ≡ (disk, err e)
        → IsKept w old disk
    read r (err x) q h = untouched (ap (λ p. p.0) h)
    read r (ok active) q h = apply_read-failed w old r active q h

    on :
        (v : Result IntentError Rendered)
        → apply_checked w old v ≡ (disk, err e)
        → IsKept w old disk
    on (err x) h = untouched (ap (λ p. p.0) h)
    on (ok r) h = read r (read_active old.active) refl h
