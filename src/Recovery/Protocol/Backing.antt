-- ===== src/Recovery/Protocol/Backing.antt =====
-- Every decision past its authorization is backed by acknowledgements of its quorum.
use elera.Prelude.{
  ℕ, String, ◌≡◌, refl, Bool, true, false, not, ◌&&◌, ◌||◌, Option, none, some, List, [], ◌∷◌, Memᴰ,
  arith, leb, nat_eq, string_eq, length, any, all, any-false_mem, includes, dedupe,
}
use elera.Prelude.Lists.{mem-dedupe}
use elera.Prelude.Result.{ok}
use elera.Recovery.Epoch as Ep
use elera.Recovery.Epoch.{
  Decision, EpochPhase, Details, no_details, transition_recovery_epoch, check_acknowledgements,
  create_recovery_epoch, merge, enter, permits,
}
use elera.Recovery.Protocol.Base.{Protocol}

-- At least as many members of the quorum have acknowledged as were required, and one at least.
abbrev pub backed_by : Option (List String) → Option (List String) → Option ℕ → Bool
backed_by (some acks) (some quorum) (some required) =
    leb 1 required && leb required (length acks) && all (λ n. includes n quorum) acks
backed_by _ _ _ = false

abbrev pub needs_backing : EpochPhase → Bool
needs_backing Ep.evidence = false
needs_backing Ep.blocked = false
needs_backing _ = true

abbrev pub is_backed : Decision → Bool
is_backed d =
    not (needs_backing d.phase) || backed_by d.acknowledgements d.quorum d.required_acknowledgements

abbrev pub is_backed? : Option Decision → Bool
is_backed? none = true
is_backed? (some d) = is_backed d

-- What is in memory and what is stored.
pub record IsBacked (p : Protocol) : Type 0 where
  pub in_memory : is_backed? p.current ≡ true
  pub on_disk : is_backed? p.stored ≡ true

all_of_mem :
    (f : String → Bool) (xs : List String)
    → ((a : String) → Memᴰ a xs → f a ≡ true)
    → all f xs ≡ true
all_of_mem f [] h = refl
all_of_mem f (x ∷ xs) h =
    ground (arith, h x (Memᴰ.head refl), all_of_mem f xs (λ a m. h a (Memᴰ.tail m)))

true_of_not : (b : Bool) → not b ≡ false → b ≡ true
true_of_not b h = ground arith

acknowledged_members :
    (acks quorum : List String)
    → any (λ n. not (includes n quorum)) (dedupe acks) ≡ false
    → all (λ n. includes n quorum) acks ≡ true
acknowledged_members acks quorum h =
    all_of_mem (λ n. includes n quorum) acks
      λ a m.
        true_of_not _
          (any-false_mem (λ n. not (includes n quorum)) (dedupe acks) h (mem-dedupe acks m))

pub check_acknowledgements-backs :
    (acks quorum : List String) (required : ℕ)
    → check_acknowledgements acks quorum required ≡ ok tt
    → backed_by (some acks) (some quorum) (some required) ≡ true
unfolding check_acknowledgements
check_acknowledgements-backs acks quorum required h =
    ground (arith, acknowledged_members acks quorum)
