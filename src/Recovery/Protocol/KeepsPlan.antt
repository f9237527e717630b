-- ===== src/Recovery/Protocol/KeepsPlan.antt =====
-- `plan` and `retry` keep the decisions of the protocol backed.
use elera.Prelude.{
  ℕ, String, ◌≡◌, refl, inl, inr, Bool, true, false, Option, none, some, List, [], map, arith, ltb,
  nat_eq, string_eq, if◌then◌else◌, Bool-cases, length, find,
}
use elera.Prelude.Result.{Result, ok, err}
use elera.Recovery.Evidence.{Evidence}
use elera.Recovery.Candidate.{Selection, refused, eligible}
use elera.Recovery.Epoch as Ep
use elera.Recovery.Epoch.{
  Decision, EpochPhase, Details, no_details, transition_recovery_epoch, check_acknowledgements,
  create_recovery_epoch, merge, enter, enter_authorized, permits, Host, Winner, EpochError, Code,
  get_or, member, name_only,
}
use elera.Recovery.Protocol.Base.{
  Config, M, ◌>>=◌, ◌>>◌, pure, publish, remember, persist, Failure, Event, refused_event,
  type_error, evidence_collected, candidate_selected,
}
use elera.Recovery.Protocol.Planning.{
  Results, Collection, plan, refuse, blocked_record, plan_selected, plan_collected, collect,
  plan_without, winner_of, is_active_primary,
}
use elera.Recovery.Protocol.Handlers.{retry, retry_from, has_mismatch, forget, kept, planned}
use elera.Recovery.Protocol.Backing.{is_backed}
use elera.Recovery.Protocol.Keeps.{
  Keeps, Keeps-pure, Keeps-throw, Keeps-publish, Keeps-remember, Keeps-persist, Keeps-bind,
  Keeps-lift,
}

-- The tail that all writers share: remember, persist, publish, and return.
pub Keeps-record :
    {A : Type 0} (d : Decision) (e : Option String) (v : Event) (n : M A)
    → is_backed d ≡ true
    → Keeps n
    → Keeps (do remember d; persist d e; publish v; n)
Keeps-record d e v n k kn = Keeps-bind (remember d) _ (Keeps-remember d k) λ _.
    Keeps-bind (persist d e) _ (Keeps-persist d e k)
      λ _. Keeps-bind (publish v) _ (Keeps-publish v) λ _. kn

Keeps-refuse :
    (code : Option Code) (items : List Evidence) (now : ℕ) → Keeps (refuse code items now)
unfolding refuse blocked_record
Keeps-refuse code items now = Keeps-record _ none (refused_event code) _ refl (Keeps-pure _)

-- A new epoch is in the phase of evidence, which needs no acknowledgement.
create_recovery_epoch-backed :
    (h : Host) (cluster_id : String) (items : List Evidence) (w : Winner) (quorum : List String)
    (now : ℕ) {d : Decision}
    → create_recovery_epoch h cluster_id items w quorum now ≡ ok d
    → d.phase ≡ Ep.evidence
unfolding create_recovery_epoch
create_recovery_epoch-backed h cluster_id items (name_only n) quorum now e = cc
create_recovery_epoch-backed h cluster_id items (member n u s) quorum now e = ground arith

Keeps-plan_selected :
    (c : Config) (items : List Evidence) (now : ℕ) (s : Selection)
    → Keeps (plan_selected c items now s)
unfolding plan_selected
Keeps-plan_selected c items now (refused r states hs) = Keeps-refuse _ items now
Keeps-plan_selected c items now (eligible g none cs dv hs) = Keeps-throw type_error
Keeps-plan_selected c items now (eligible g (some w) cs dv hs) =
    Keeps-lift
      (create_recovery_epoch c.host w.uuid items (winner_of w) (map (λ n. n.name) c.nodes) now) _
      λ d e.
        Keeps-record _ none candidate_selected _
          (rw (create_recovery_epoch-backed c.host w.uuid items (winner_of w) _ now e) refl)
          (Keeps-pure _)

Keeps-plan_without :
    (c : Config) (got : Collection) (now : ℕ) (active : Option Evidence)
    → Keeps (plan_without c got now active)
unfolding plan_without
Keeps-plan_without c got now (some item) = Keeps-pure _
Keeps-plan_without c got now none = elim (Bool-cases (ltb (length got.items) (length c.nodes))) [
  | inl t ↦ rw t (Keeps-refuse _ got.items now)
  | inr f ↦ rw f (Keeps-plan_selected c got.items now _)
]

Keeps-plan_collected :
    (c : Config) (now : ℕ) (r : Result Failure Collection) → Keeps (plan_collected c now r)
unfolding plan_collected
Keeps-plan_collected c now (err f) = Keeps-refuse _ [] now
Keeps-plan_collected c now (ok got) =
    Keeps-bind (publish evidence_collected) _ (Keeps-publish _)
      λ _. Keeps-plan_without c got now (find (is_active_primary c.nodes got.items) got.items)

pub Keeps-plan : (c : Config) (results : Results) (now : ℕ) → Keeps (plan c results now)
unfolding plan
Keeps-plan c results now = Keeps-plan_collected c now (collect c results now)

Keeps-forget : Keeps forget
Keeps-forget = record { at = λ p h. record { in_memory = refl; on_disk = h.on_disk } }

Keeps-planned :
    (c : Config) (results : Results) (now : ℕ)
    → Keeps (do forget; r ← plan c results now; pure (planned r))
Keeps-planned c results now =
    Keeps-bind forget _ Keeps-forget
      λ _. Keeps-bind (plan c results now) _ (Keeps-plan c results now) λ r. Keeps-pure (planned r)

pub Keeps-retry : (c : Config) (results : Results) (now : ℕ) → Keeps (retry c results now)
unfolding retry
Keeps-retry c results now = record { at = λ p h. (on p.current).at p h }
  where
    on : (o : Option Decision) → Keeps (retry_from c results now o)
    on none = unfold retry_from in Keeps-planned c results now
    on (some d) = unfold retry_from in pick (has_mismatch (some d))
      where
        pick :
            (b : Bool)
            → Keeps
                (if b then pure (kept d) else do forget; r ← plan c results now; pure (planned r))
        pick true = Keeps-pure _
        pick false = Keeps-planned c results now
