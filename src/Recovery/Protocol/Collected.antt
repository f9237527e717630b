-- ===== src/Recovery/Protocol/Collected.antt =====
-- What `collect` returns (cold-bootstrap/protocol.mjs).
use elera.Prelude.{
  ℕ, suc, ◌≤◌, ◌≡◌, refl, sym, ap, ◌∙◌, inl, inr, Option, none, some, List, [], ◌∷◌, map, arith,
  ltb, nat_eq, string_eq, Bool-cases, length, any,
}
use elera.Prelude.Result.{Result, ok, err, >>=-eq-ok}
use elera.Recovery.Evidence.{Evidence, EvidenceError, check_items, validate_recovery_evidence}
use elera.Recovery.Protocol.Base.{Node, Failure, Config}
use elera.Recovery.Protocol.Planning.{
  Results, Collection, collect, fulfilled, rejected, settle, no_evidence, is_active_primary,
  majority,
}

ok-injective : {E A : Type 0} {a b : A} → ◌≡◌ {A = Result E A} (ok a) (ok b) → a ≡ b
ok-injective h = cc

validate-same :
    (now max_age : ℕ) (items v : List Evidence)
    → validate_recovery_evidence now max_age items ≡ ok v
    → v ≡ items
unfolding validate_recovery_evidence
validate-same now max_age [] v h = cc
validate-same now max_age (i ∷ is) v h =
    let (u, c, e) = >>=-eq-ok (check_items now max_age [] (i ∷ is)) (λ _. ok (i ∷ is)) h in
    sym (ok-injective e)

settle-same :
    (needed : ℕ) (items : List Evidence) (fs : List Failure)
    (r : Result EvidenceError (List Evidence)) (got : Collection)
    → ((v : List Evidence) → r ≡ ok v → v ≡ items)
    → settle needed items fs r ≡ ok got
    → got.items ≡ items
settle-same needed items fs (err e) got k h = absurd (cc)
settle-same needed items [] (ok v) got k h =
    ap (λ (g : Collection). g.items) (sym (ok-injective h)) ∙ k v refl
settle-same needed items (f ∷ fs) (ok v) got k h = elim (Bool-cases (ltb (length v) needed)) [
  | inl t ↦ absurd (cc (rw t at h))
  | inr t ↦ ap (λ (g : Collection). g.items) (sym (ok-injective (rw t at h))) ∙ k v refl
]

checked-same :
    (items : List Evidence) (o : Option Failure) (r : Result Failure Collection) (got : Collection)
    → (r ≡ ok got → got.items ≡ items)
    → elim o [ some f ↦ err f | none ↦ r ] ≡ ok got
    → got.items ≡ items
checked-same items none r got k h = k h
checked-same items (some f) r got k h = absurd (cc)

-- The evidence that is collected is all that could be read.
collect-items :
    (c : Config) (results : Results) (now : ℕ) (got : Collection)
    → collect c results now ≡ ok got
    → got.items ≡ fulfilled (map results c.nodes)
unfolding collect
collect-items c results now got h =
    let items = fulfilled (map results c.nodes) in
    let fs = rejected (map results c.nodes) in
    elim (Bool-cases (any (is_active_primary c.nodes items) items)) [
      | inl t ↦ ap (λ (g : Collection). g.items) (sym (ok-injective (rw t at h)))
      | inr t ↦
          checked-same items (no_evidence items fs) _ got
            (settle-same (majority (length c.nodes)) items fs
              (validate_recovery_evidence now c.max_evidence_age items) got
              (validate-same now c.max_evidence_age items))
            (rw t at h)
    ]

fulfilled-le : (rs : List (Result Failure Evidence)) → length (fulfilled rs) ≤ length rs
unfolding fulfilled
fulfilled-le [] = omega arith
fulfilled-le (ok e ∷ rs) = omega (arith, fulfilled-le rs)
fulfilled-le (err f ∷ rs) = omega (arith, fulfilled-le rs)

all_fulfilled :
    (rs : List (Result Failure Evidence))
    → length rs ≤ length (fulfilled rs)
    → rs ≡ map ok (fulfilled rs)
unfolding fulfilled
all_fulfilled [] h = refl
all_fulfilled (ok e ∷ rs) h = ap (λ l. ok e ∷ l) (all_fulfilled rs (omega (arith, h)))
all_fulfilled (err f ∷ rs) h = absurd (omega (arith, h, fulfilled-le rs))

length-results : (results : Results) (ns : List Node) → length (map results ns) ≡ length ns
length-results results [] = refl
length-results results (n ∷ ns) = ap suc (length-results results ns)

-- As many items as nodes are the evidence of each node.
pub collect-all :
    (c : Config) (results : Results) (now : ℕ) (got : Collection)
    → collect c results now ≡ ok got
    → length c.nodes ≤ length got.items
    → map results c.nodes ≡ map ok got.items
collect-all c results now got h l =
    let e = collect-items c results now got h in
    let k = ap (λ (is : List Evidence). length is) e in
    all_fulfilled (map results c.nodes) (omega (arith, k, l, length-results results c.nodes))
    ∙ ap (map ok) (sym e)
