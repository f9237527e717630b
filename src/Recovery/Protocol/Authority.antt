-- ===== src/Recovery/Protocol/Authority.antt =====
-- When a plan lets a node bootstrap, and when the bootstrap begins.
use elera.Prelude.{
  ℕ, ◌≤◌, String, ◌≡◌, refl, sym, ap, ◌∙◌, inl, inr, Bool, true, false, ◌&&◌, Option, none, some,
  List, [], ◌∷◌, ◌++◌, map, arith, ltb, nat_eq, string_eq, Bool-cases, &&-left, &&-right, length,
  any, find,
}
use elera.Prelude.Result.{Result, ok, err}
use elera.Recovery.Evidence.{Evidence}
use elera.Recovery.Candidate.{Selection, refused, eligible, Grounds, History, select_candidate}
use elera.Recovery.Epoch as Ep
use elera.Recovery.Epoch.{
  Decision, Host, same_text?, create_recovery_epoch, transition_recovery_epoch, winner_node,
  or_else, EpochError, EpochPhase, same_phase, no_details, enter, merge, permits,
  validate_recovery_epoch,
}
use elera.Recovery.Protocol.Base.{
  Protocol, ProtocolError, Config, M, Node, read, Failure, evidence_collected, lift, guard, ◌>>=◌,
}
use elera.Recovery.Protocol.Collected.{collect-all}
use elera.Recovery.Protocol.Planning.{
  Results, Collection, bootstrap_plan, plan, refuse, plan_selected, plan_collected, plan_without,
  collect, store_plan, majority, winner_of, is_active_primary,
}
use elera.Recovery.Protocol.Handlers.{
  begin_bootstrap, begin_read, begin_existing, begin_settled, begin_collected, begin_refreshed,
  refreshed, is_known,
}

bootstrapping-phase :
    (existing : Decision) (now : ℕ) {d : Decision}
    → transition_recovery_epoch existing Ep.bootstrapping no_details now ≡ ok d
    → d.phase ≡ Ep.bootstrapping
unfolding transition_recovery_epoch permits
bootstrapping-phase existing now h = ground arith

-- A refreshed digest that differs never starts the bootstrap.
begin_refreshed-ok :
    (existing : Decision) (items : List Evidence) (now : ℕ) (same : Bool) (p : Protocol)
    {d : Decision}
    → (begin_refreshed existing items now same p).0 ≡ ok d
    → (same ≡ true)
      × (d.phase ≡ Ep.bootstrapping)
      × ((begin_refreshed existing items now same p).1.stored ≡ some d)
unfolding begin_refreshed
begin_refreshed-ok existing items now true p {d} h =
    (refl, ground (arith, bootstrapping-phase existing now {d = d}), ground arith)
begin_refreshed-ok existing items now false p h = absurd (ground arith)

-- A successful chain passed its guards and got its values.
lift-ok :
    {A B : Type 0} (r : Result EpochError A) (f : A → M B) (p : Protocol) {b : B}
    → ((lift r >>= f) p).0 ≡ ok b
    → (a : A) × (r ≡ ok a) × ((lift r >>= f) p ≡ f a p)
lift-ok (ok a) f p h = (a, refl, refl)
lift-ok (err e) f p h = cc

guard-ok :
    {B : Type 0} (t : Bool) (e : ProtocolError) (n : M B) (p : Protocol) {b : B}
    → ((guard t e >>= λ _. n) p).0 ≡ ok b
    → (t ≡ true) × ((guard t e >>= λ _. n) p ≡ n p)
guard-ok true e n p h = (refl, refl)
guard-ok false e n p h = cc

-- What a bootstrap that began says of the decision that it began from.
pub record Began (c : Config) (existing : Decision) (epoch winner : String) (results : Results)
    (now : ℕ) (d : Decision) (after : Protocol) : Type 0 where
  pub was_authorized : same_phase existing.phase Ep.authorized ≡ true
  pub same_epoch : same_text? existing.epoch (some epoch) ≡ true
  pub same_winner : same_text? (some winner) (winner_node existing.winner) ≡ true
  pub collected : Collection
  pub settled : collect c results now ≡ ok collected
  pub fresh : Decision
  pub recomputed : refreshed c existing collected.items now ≡ ok fresh
  pub unchanged : same_text? fresh.evidence_digest existing.evidence_digest ≡ true
  pub entered : d.phase ≡ Ep.bootstrapping
  pub recorded : after.stored ≡ some d

began_settled :
    (c : Config) (existing : Decision) (results : Results) (now : ℕ) (p : Protocol)
    (r : Result Failure Collection) {d : Decision}
    → collect c results now ≡ r
    → (begin_settled c existing now r p).0 ≡ ok d
    → (got : Collection) × (collect c results now ≡ ok got)
      × (fresh : Decision) × (refreshed c existing got.items now ≡ ok fresh)
      × (same_text? fresh.evidence_digest existing.evidence_digest ≡ true)
      × (d.phase ≡ Ep.bootstrapping)
      × ((begin_settled c existing now r p).1.stored ≡ some d)
unfolding begin_settled begin_collected
began_settled c existing results now p (err f) e h = absurd (ground arith)
began_settled c existing results now p (ok got) {d} e h =
    let f = λ (fresh : Decision).
      begin_refreshed existing got.items now
        (same_text? fresh.evidence_digest existing.evidence_digest) in
    let (fresh, q, same) = lift-ok (refreshed c existing got.items now) f p {b = d} h in
    let (t, ph, st) =
      begin_refreshed-ok existing got.items now
        (same_text? fresh.evidence_digest existing.evidence_digest) p {d = d}
        (sym (ap (λ x. x.0) same) ∙ h) in
    (got, e, fresh, q, t, ph, ap (λ x. x.1.stored) same ∙ st)

read-Began :
    (c : Config) (epoch winner : String) (results : Results) (now : ℕ) (p : Protocol)
    (o : Option Decision) {d : Decision}
    → (begin_read c o epoch winner results now p).0 ≡ ok d
    → (existing : Decision) × (o ≡ some existing)
      × Began c existing epoch winner results now d (begin_read c o epoch winner results now p).1
unfolding begin_existing
read-Began c epoch winner results now p none h = absurd (ground arith)
read-Began c epoch winner results now p (some existing) {d} h =
    let settled = begin_settled c existing now (collect c results now) in
    let authority =
      same_phase existing.phase Ep.authorized
      && same_text? (some winner) (winner_node existing.winner) in
    let (known, e₁) =
      guard-ok (is_known existing epoch) _ (begin_existing c existing winner results now) p {b = d}
        h in
    let (fits, e₂) = guard-ok authority _ settled p {b = d} (sym (ap (λ x. x.0) e₁) ∙ h) in
    let whole = e₁ ∙ e₂ in
    let (got, q, fresh, r, t, ph, st) =
      began_settled c existing results now p (collect c results now) {d = d} refl
        (sym (ap (λ x. x.0) whole) ∙ h) in
    (
      existing,
      refl,
      record {
        was_authorized = &&-left (same_phase existing.phase Ep.authorized) _ fits;
        same_epoch = &&-left (same_text? existing.epoch (some epoch)) _ known;
        same_winner = &&-right (same_phase existing.phase Ep.authorized) _ fits;
        collected = got;
        settled = q;
        fresh = fresh;
        recomputed = r;
        unchanged = t;
        entered = ph;
        recorded = ap (λ x. x.1.stored) whole ∙ st;
      },
    )

-- `beginBootstrap` succeeds only on the decision at hand, with its epoch and its winner, once it is
-- authorized and the evidence collected anew has the digest that was authorized; then it has stored
-- the decision in the phase bootstrapping.
pub begin_bootstrap-Began :
    (c : Config) (epoch winner : String) (results : Results) (now : ℕ) (p : Protocol) (d : Decision)
    → (begin_bootstrap c epoch winner results now p).0 ≡ ok d
    → (existing : Decision) × (or_else p.current p.stored ≡ some existing)
      × Began c existing epoch winner results now d (begin_bootstrap c epoch winner results now p).1
unfolding begin_bootstrap read
begin_bootstrap-Began c epoch winner results now p d h =
    let o = or_else p.current p.stored in
    read-Began c epoch winner results now (record p { current = o }) o h

created_winner :
    (h : Host) (cluster_id : String) (items : List Evidence) (w : Evidence) (quorum : List String)
    (now : ℕ) {e : Decision}
    → create_recovery_epoch h cluster_id items (winner_of w) quorum now ≡ ok e
    → winner_node e.winner ≡ some w.node
unfolding create_recovery_epoch winner_node
created_winner h cluster_id items w quorum now k = ground arith

-- The selection behind a plan to bootstrap.
abbrev pub Selected : Selection → Decision → Option Decision → Type 0
Selected s d stored =
    (g : Grounds) × (w : Evidence) × (cs dv : List Evidence) × (hs : List History) × (s
      ≡ eligible g (some w) cs dv hs)
    × (winner_node d.winner ≡ some w.node)
    × (stored ≡ some d)

stored_plan :
    (e : Decision) (p : Protocol) {d : Decision}
    → (store_plan e p).0 ≡ ok (bootstrap_plan d)
    → e ≡ d
unfolding store_plan
stored_plan e p h = ground arith

plan_selected-bootstrap :
    (c : Config) (items : List Evidence) (now : ℕ) (p : Protocol) (s : Selection) {d : Decision}
    → (plan_selected c items now s p).0 ≡ ok (bootstrap_plan d)
    → Selected s d (plan_selected c items now s p).1.stored
unfolding plan_selected
plan_selected-bootstrap c items now p (refused r ss hs) h = absurd (ground arith)
plan_selected-bootstrap c items now p (eligible g none cs dv hs) h = absurd (ground arith)
plan_selected-bootstrap c items now p (eligible g (some w) cs dv hs) {d} h =
    let names = map (λ (n : Node). n.name) c.nodes in
    let f = λ (epoch : Decision). store_plan (record epoch { evidence = items; divergent = dv }) in
    let (e, q, same) =
      lift-ok (create_recovery_epoch c.host w.uuid items (winner_of w) names now) f p
        {b = bootstrap_plan d} h in
    let is_d =
      stored_plan (record e { evidence = items; divergent = dv }) p
        (sym (ap (λ x. x.0) same) ∙ h) in
    (
      g,
      w,
      cs,
      dv,
      hs,
      refl,
      ap (λ (x : Decision). winner_node x.winner) (sym is_d)
          ∙ created_winner c.host w.uuid items w names now {e = e} q,
      ap (λ x. x.1.stored) same ∙ ap some is_d,
    )

any_of_find : (f : Evidence → Bool) (xs : List Evidence) → find f xs ≡ none → any f xs ≡ false
any_of_find f [] h = refl
any_of_find f (x ∷ xs) h = ground (arith, any_of_find f xs)

refused_bootstrap :
    (code : Option Ep.Code) (items : List Evidence) (now : ℕ) (p : Protocol) {d : Decision}
    → (refuse code items now p).0 ≡ ok (bootstrap_plan d)
    → ⊥
unfolding refuse
refused_bootstrap code items now p h = ground arith

plan_without-bootstrap :
    (c : Config) (got : Collection) (now : ℕ) (p : Protocol) (active : Option Evidence)
    {d : Decision}
    → (plan_without c got now active p).0 ≡ ok (bootstrap_plan d)
    → (active ≡ none)
      × (length c.nodes ≤ length got.items)
      × Selected
          (select_candidate c.host.collation (majority (length c.nodes)) got.items)
          d
          (plan_without c got now active p).1.stored
unfolding plan_without
plan_without-bootstrap c got now p (some item) h = absurd (ground arith)
plan_without-bootstrap c got now p none {d} h =
    elim (Bool-cases (ltb (length got.items) (length c.nodes))) [
      | inl t ↦ absurd (refused_bootstrap _ got.items now p {d = d} (rw t at h))
      | inr f ↦ (
        refl,
        ground arith,
        rw f (plan_selected-bootstrap c got.items now p _ {d = d} (rw f at h)),
      )
    ]

planned_bootstrap :
    (c : Config) (now : ℕ) (p : Protocol) (r : Result Failure Collection) (d : Decision)
    → (plan_collected c now r p).0 ≡ ok (bootstrap_plan d)
    → (got : Collection) × (r ≡ ok got)
      × (any (is_active_primary c.nodes got.items) got.items ≡ false)
      × (length c.nodes ≤ length got.items)
      × Selected
          (select_candidate c.host.collation (majority (length c.nodes)) got.items)
          d
          (plan_collected c now r p).1.stored
unfolding plan_collected
planned_bootstrap c now p (err f) d h = absurd (ground arith)
planned_bootstrap c now p (ok got) d h =
    let active = find (is_active_primary c.nodes got.items) got.items in
    let (none_active, all_there, chosen) =
      plan_without-bootstrap c got now (record p { events = p.events ++ evidence_collected ∷ [] })
        active {d = d} h in
    (
      got,
      refl,
      any_of_find (is_active_primary c.nodes got.items) got.items none_active,
      all_there,
      chosen,
    )

-- A plan to bootstrap rests on what was read of every configured node, each of which gave its
-- evidence, and on nothing else. None of it is of an active Primary, and the selection by a majority
-- on it is eligible; the decision is stored, and its winner is the selected.
pub plan-bootstrap :
    (c : Config) (results : Results) (now : ℕ) (p : Protocol) (d : Decision)
    → (plan c results now p).0 ≡ ok (bootstrap_plan d)
    → (got : Collection) × (collect c results now ≡ ok got)
      × (any (is_active_primary c.nodes got.items) got.items ≡ false)
      × (map results c.nodes ≡ map ok got.items)
      × Selected
          (select_candidate c.host.collation (majority (length c.nodes)) got.items)
          d
          (plan c results now p).1.stored
unfolding plan
plan-bootstrap c results now p d h =
    let (got, e, a, l, s) = planned_bootstrap c now p (collect c results now) d h in
    (got, e, a, collect-all c results now got e l, s)
