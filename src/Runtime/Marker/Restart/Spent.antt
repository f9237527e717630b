-- ===== src/Runtime/Marker/Restart/Spent.antt =====
-- A marker is spent by the clean restart that it permits (runtime/clean-restart-recovery.mjs).
use elera.Prelude.{
  ℕ, ◌+◌, ◌-◌, ◌≤◌, String, ◌≡◌, refl, inl, inr, Bool, true, false, not, ◌&&◌, Option, none, some,
  List, [], ◌∷◌, arith, eq_iff, ltb, nat_eq, string_eq, if◌then◌else◌, Bool-cases, &&-left,
  &&-right, all, count,
}
use elera.Intent.State.{lands}
use elera.Runtime.Marker.{
  Handle, Marker, MarkerFile, absent, garbled, keeps, Expected, read, consume, write, payload,
  expected_of, is_valid, in_time, is_wanted,
}
use elera.Runtime.Marker.Restart.{
  Act, stops, starts, joins, resolve, resolve_read, is_written, unlinks_well,
}

-- A marker whose age is not past the limit.
abbrev is_young : ℕ → ℕ → Option ℕ → Bool
is_young n now none = false
is_young n now (some t) = not (ltb n (now - t))

abbrev live : Handle → ℕ → MarkerFile → ℕ
live d now (keeps m) = if is_young d.max_age_ms now m.written_at then 1 else 0
live d now _ = 0

young-later :
    (n now later : ℕ) (o : Option ℕ)
    → now ≤ later
    → (if is_young n later o then 1 else 0) ≤ (if is_young n now o then 1 else 0)
young-later n now later none l = omega arith
young-later n now later (some t) l = ground arith

live-later :
    (d : Handle) (now later : ℕ) (f : MarkerFile) → now ≤ later → live d later f ≤ live d now f
live-later d now later absent l = omega arith
live-later d now later garbled l = omega arith
live-later d now later (keeps m) l = young-later d.max_age_ms now later m.written_at l

live-le : (d : Handle) (now : ℕ) (f : MarkerFile) → live d now f ≤ 1
live-le d now absent = omega arith
live-le d now garbled = omega arith
live-le d now (keeps m) = ground arith

wanted-own : (o : Option String) → is_wanted o o ≡ true
wanted-own none = refl
wanted-own (some s) = (eq_iff s s).1 refl

both : {a b : Bool} → a ≡ true → b ≡ true → (a && b) ≡ true
both {a = true} p q = q
both {a = false} p q = cc

-- A marker that was valid is valid for its nonce as long as it is in time.
valid-later :
    (d : Handle) (now later : ℕ) (m : Marker)
    → is_valid d (expected_of d) now m ≡ true
    → in_time later d.max_age_ms m.written_at ≡ true
    → is_valid d (record (expected_of d) { nonce = m.nonce }) later m ≡ true
unfolding is_valid
valid-later d now later m h t =
    let a = &&-left _ _ h in
    let b = &&-left _ _ a in
    let c = &&-left _ _ b in
    let e = &&-left _ _ c in
    both (both (both (both e (wanted-own m.nonce)) (&&-right _ _ b)) (&&-right _ _ a)) t

valid-in_time :
    (d : Handle) (e : Expected) (now : ℕ) (m : Marker)
    → is_valid d e now m ≡ true
    → in_time now d.max_age_ms m.written_at ≡ true
unfolding is_valid
valid-in_time d e now m h = &&-right _ _ h

-- Past its time a marker is too old, not too new.
old-later :
    (n now later : ℕ) (o : Option ℕ)
    → now ≤ later
    → in_time now n o ≡ true
    → in_time later n o ≡ false
    → is_young n later o ≡ false
old-later n now later none l h k = refl
old-later n now later (some t) l h k = ground arith

in_time-young : (n now : ℕ) (o : Option ℕ) → in_time now n o ≡ true → is_young n now o ≡ true
in_time-young n now none h = h
in_time-young n now (some t) h = &&-right _ _ h

-- What a start leaves: the file as it was, or, after a join, nothing that is young.
resolve-live :
    (d : Handle) (now later : ℕ) (peer : Bool) (f : MarkerFile)
    → now ≤ later
    → (if (resolve d now later peer true f).1 then 1 else 0)
        + live d later (resolve d now later peer true f).0
      ≤ live d now f
unfolding resolve resolve_read consume read
resolve-live d now later peer absent l = omega arith
resolve-live d now later peer garbled l = omega arith
resolve-live d now later false (keeps m) l = elim (Bool-cases (is_valid d (expected_of d) now m)) [
  | inl v ↦ rw v (omega (arith, live-later d now later (keeps m) l))
  | inr v ↦ rw v (omega (arith, live-later d now later (keeps m) l))
]
resolve-live d now later true (keeps m) l = elim (Bool-cases (is_valid d (expected_of d) now m)) [
  | inr v ↦ rw v (omega (arith, live-later d now later (keeps m) l))
  | inl v ↦
      let t = valid-in_time d (expected_of d) now m v in
      let y = in_time-young d.max_age_ms now m.written_at t in
      elim (Bool-cases (is_valid d (record (expected_of d) { nonce = m.nonce }) later m)) [
        | inl v' ↦ rw (v, v', y) (omega arith)
        | inr v' ↦ elim (Bool-cases (in_time later d.max_age_ms m.written_at)) [
          | inl i ↦ absurd (cc (valid-later d now later m v i, v'))
          | inr i ↦ rw (v, v', y, old-later d.max_age_ms now later m.written_at l t i) (omega arith)
        ]
      ]
]

joins-le-live :
    (d : Handle) (acts : List Act)
    → all unlinks_well acts ≡ true
    → (now : ℕ) (f : MarkerFile) → joins d acts now f ≤ live d now f + count is_written acts
unfolding joins write
joins-le-live d [] h now f = ground arith
joins-le-live d (stops c dt w ∷ acts) h now f = elim (Bool-cases (w.directory && lands w.file)) [
  | inl t ↦
      let k = joins-le-live d acts h (now + dt) (keeps (payload c (now + dt))) in
      let b = live-le d (now + dt) (keeps (payload c (now + dt))) in rw t (omega (arith, k, b))
  | inr t ↦ rw t (
      omega
        (arith, joins-le-live d acts h (now + dt) f, live-later d now (now + dt) f (omega arith)))
]
joins-le-live d (starts dt search peer false ∷ acts) h now f = cc
joins-le-live d (starts dt search peer true ∷ acts) h now f =
    let k =
      joins-le-live d acts h (now + dt + search)
        (resolve d (now + dt) (now + dt + search) peer true f).0 in
    omega (
      arith,
      k,
      resolve-live d (now + dt) (now + dt + search) peer f (omega arith),
      live-later d now (now + dt) f (omega arith),
    )

-- A marker permits one clean restart. In any stops and starts of a node on a file that starts
-- absent, on a clock that does not go back, and where each `unlink` of a marker works, no more
-- starts join as clean restarts than stops have written a marker; although a start joins whatever
-- its consumption of the marker returns.
pub joins-le-writes :
    (d : Handle) (acts : List Act) (now : ℕ)
    → all unlinks_well acts ≡ true
    → joins d acts now absent ≤ count is_written acts
joins-le-writes d acts now h = omega (arith, joins-le-live d acts h now absent)
