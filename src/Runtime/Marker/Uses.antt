-- ===== src/Runtime/Marker/Uses.antt =====
-- When a marker of a clean restart is accepted (runtime/clean-restart-marker.mjs).
use elera.Prelude.{
  ℕ, ◌+◌, ◌≤◌, String, ◌≡◌, refl, ap, ◌↔◌, Bool, true, false, ◌&&◌, Option, none, some, arith,
  eq_iff, ◌==◌, nat_eq, string_eq, if◌then◌else◌,
}
use elera.Prelude.Result.{Result, ok, err}
use elera.Intent.{same_text}
use elera.Intent.State.{lands}
use elera.Runtime.Marker.{
  Handle, MarkerFile, keeps, Works, MarkerError, not_written, write, read, payload, expected_of,
  is_valid, in_time,
}

same_text_iff : (a b : Option String) → same_text a b ≡ true ↔ a ≡ b
same_text_iff none none = (λ _. refl, λ _. refl)
same_text_iff none (some b) = (λ h. cc, λ h. cc)
same_text_iff (some a) none = (λ h. cc, λ h. cc)
same_text_iff (some a) (some b) = (λ h. ap some ((eq_iff a b).0 h), λ h. (eq_iff a b).1 cc)

in_time_iff : (now n t : ℕ) → in_time now n (some t) ≡ true ↔ ((t ≤ now) × (now ≤ t + n))
in_time_iff now n t = (λ h. ground arith, λ h. ground arith)

all_iff :
    (a b c : Bool) {P Q R : Type 0}
    → a ≡ true ↔ P
    → b ≡ true ↔ Q
    → c ≡ true ↔ R
    → (a && true && true && b && c ≡ true) ↔ (P × Q × R)
all_iff true true c p q r = (λ h. (p.0 refl, q.0 refl, r.0 h), λ (_, _, z). r.1 z)
all_iff true false c p q r = (λ h. cc, λ (x, y, z). q.1 y)
all_iff false b c p q r = (λ h. cc, λ (x, y, z). let e = p.1 x in cc)

is_valid-payload :
    (c d : Handle) (t now : ℕ)
    → is_valid d (expected_of d) now (payload c t) ≡ true
      ↔ ((c.node ≡ d.node) × (c.epoch ≡ d.epoch) × ((t ≤ now) × (now ≤ t + d.max_age_ms)))
unfolding is_valid
is_valid-payload c d t now =
    all_iff (c.node == d.node) (same_text c.epoch d.epoch) _ (eq_iff c.node d.node)
      (same_text_iff c.epoch d.epoch) (in_time_iff now d.max_age_ms t)

if-some : {A : Type 0} (b : Bool) (a : A) → (if b then some a else none) ≡ some a ↔ b ≡ true
if-some true a = (λ h. refl, λ h. refl)
if-some false a = (λ h. cc, λ h. cc)

write-ok :
    (c : Handle) (t : ℕ) (w : Works) (f : MarkerFile)
    → (write c t w f).1 ≡ ok tt
    → (write c t w f).0 ≡ keeps (payload c t)
unfolding write
write-ok c t w f h = on (w.directory && lands w.file) h
  where
    on :
        (b : Bool)
        → (if◌then◌else◌ {A = MarkerFile × Result MarkerError (Unit {0})} b
            (keeps (payload c t), ok tt)
            (f, err not_written)).1
          ≡ ok tt
        → (if◌then◌else◌ {A = MarkerFile × Result MarkerError (Unit {0})} b
            (keeps (payload c t), ok tt)
            (f, err not_written)).0
          ≡ keeps (payload c t)
    on true h = refl
    on false h = cc

-- `read` accepts what `write` has written exactly when the reader expects the same node and epoch,
-- and the reader's clock is not before the writer's and not more than the reader's `maxAgeMs` after
-- it. It then returns what was written. The nonce of the reader does not matter.
pub read-write :
    (c d : Handle) (then_at now : ℕ) (w : Works) (f : MarkerFile)
    → (write c then_at w f).1 ≡ ok tt
    → (read d (expected_of d) now (write c then_at w f).0 ≡ some (payload c then_at)) ↔ (
        (c.node ≡ d.node)
        × (c.epoch ≡ d.epoch)
        × ((then_at ≤ now) × (now ≤ then_at + d.max_age_ms)))
unfolding read
read-write c d t now w f h =
    let (f0, b0) = if-some (is_valid d (expected_of d) now (payload c t)) (payload c t) in
    let (f1, b1) = is_valid-payload c d t now in
    rw (write-ok c t w f h) (λ r. f1 (f0 r), λ k. b0 (b1 k))
