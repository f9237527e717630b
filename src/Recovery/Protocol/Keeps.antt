-- ===== src/Recovery/Protocol/Keeps.antt =====
-- Actions that keep the decisions of the protocol backed: a rule for each way to build one.
use elera.Prelude.{
  String, ◌≡◌, refl, Bool, true, false, Option, none, some, List, arith, nat_eq, string_eq,
}
use elera.Prelude.Result.{Result, ok, err}
use elera.Recovery.Epoch.{Decision, EpochError, or_else}
use elera.Recovery.Protocol.Handlers.{with_quorum}
use elera.Recovery.Protocol.Base.{
  Protocol, ProtocolError, Event, M, ◌>>=◌, continue, pure, throw, guard, lift, publish, remember,
  persist, read, epoch_error, type_error,
}
use elera.Recovery.Protocol.Backing.{is_backed, is_backed?, IsBacked}

pub record Keeps {A : Type 0} (m : M A) : Type 0 where
  pub at : (p : Protocol) → IsBacked p → IsBacked (m p).1

module _ {A : Type 0} where
  pub Keeps-pure : (a : A) → Keeps (pure a)
  Keeps-pure a = record { at = λ p h. h }

  pub Keeps-throw : (e : ProtocolError) → Keeps {A = A} (throw e)
  Keeps-throw e = record { at = λ p h. h }

pub Keeps-publish : (e : Event) → Keeps (publish e)
Keeps-publish e = record { at = λ p h. record { in_memory = h.in_memory; on_disk = h.on_disk } }

pub Keeps-guard : (b : Bool) (e : ProtocolError) → Keeps (guard b e)
Keeps-guard true e = Keeps-pure tt
Keeps-guard false e = Keeps-throw e

pub Keeps-remember : (d : Decision) → is_backed d ≡ true → Keeps (remember d)
Keeps-remember d k = record { at = λ p h. record { in_memory = k; on_disk = h.on_disk } }

pub Keeps-persist : (d : Decision) (e : Option String) → is_backed d ≡ true → Keeps (persist d e)
unfolding persist
Keeps-persist d none k = record { at = λ p h. record { in_memory = h.in_memory; on_disk = k } }
Keeps-persist d (some e) k = record { at = λ p h. ground arith }

module _ {A B : Type 0} where
  continue-Keeps :
      (r : Result ProtocolError A) (f : A → M B)
      → ((a : A) → r ≡ ok a → Keeps (f a))
      → Keeps (continue r f)
  continue-Keeps (ok a) f k = k a refl
  continue-Keeps (err e) f k = record { at = λ p h. h }

  pub Keeps-bind : (m : M A) (f : A → M B) → Keeps m → ((a : A) → Keeps (f a)) → Keeps (m >>= f)
  Keeps-bind m f km kf = record {
    at = λ p h. (continue-Keeps (m p).0 f (λ a _. kf a)).at (m p).1 (km.at p h);
  }

  -- The rest may use that `r` did not throw.
  pub Keeps-lift :
      (r : Result EpochError A) (f : A → M B)
      → ((a : A) → r ≡ ok a → Keeps (f a))
      → Keeps (lift r >>= f)
  Keeps-lift (ok a) f k = k a refl
  Keeps-lift (err e) f k = Keeps-throw (epoch_error e)

pub Keeps-guard-then :
    {B : Type 0} (b : Bool) (e : ProtocolError) (n : M B)
    → (b ≡ true → Keeps n)
    → Keeps (guard b e >>= λ _. n)
Keeps-guard-then true e n k = k refl
Keeps-guard-then false e n k = Keeps-throw e

pub Keeps-with_quorum :
    {B : Type 0} (q : Option (List String)) (f : List String → M B)
    → ((quorum : List String) → q ≡ some quorum → Keeps (f quorum))
    → Keeps (with_quorum q f)
Keeps-with_quorum none f k = Keeps-throw type_error
Keeps-with_quorum (some quorum) f k = k quorum refl

read_backed : (p : Protocol) → IsBacked p → is_backed? (or_else p.current p.stored) ≡ true
read_backed p h = ground arith

-- What is read is backed, since what was in memory or stored was.
pub Keeps-read :
    {B : Type 0} (f : Option Decision → M B)
    → ((o : Option Decision) → is_backed? o ≡ true → Keeps (f o))
    → Keeps (read >>= f)
unfolding read
Keeps-read f k = record {
  at = λ p h.
      let o = or_else p.current p.stored in
      (k o (read_backed p h)).at (record p { current = o })
        (record { in_memory = read_backed p h; on_disk = h.on_disk });
}
