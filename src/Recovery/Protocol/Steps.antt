-- ===== src/Recovery/Protocol/Steps.antt =====
-- Every method of the protocol keeps its decisions backed, over any sequence of calls.
use elera.Prelude.{
  ℕ, String, ◌≡◌, refl, Bool, true, false, Option, none, some, List, [], ◌∷◌, arith, nat_eq,
  string_eq, length,
}
use elera.Prelude.Result.{Result, ok, err, >>=-eq-ok}
use elera.Recovery.Evidence.{Evidence}
use elera.Recovery.Epoch as Ep
use elera.Recovery.Epoch.{
  Decision, EpochPhase, Details, no_details, transition_recovery_epoch, check_acknowledgements,
  same_text?, create_recovery_epoch, merge, enter, enter_authorized, permits, Host, Winner,
  EpochError, Code, get_or, member, name_only,
}
use elera.Recovery.Protocol.Base.{
  Protocol, Config, remember, persist, Failure, refused_event, bootstrap_authorized,
  bootstrap_started, bootstrap_complete,
}
use elera.Recovery.Protocol.Planning.{Results, Collection, plan, collect}
use elera.Recovery.Protocol.Handlers.{
  retry, authorize, authorize_existing, authorize_quorum, acknowledgements_by, block,
  begin_refreshed, begin_collected, begin_settled, begin_existing, begin_read, begin_bootstrap,
  complete_quorum, complete_existing, complete_read, complete, authorization, blocked_as,
  completion, refreshed,
}
use elera.Recovery.Protocol.Backing.{is_backed, is_backed?, IsBacked, check_acknowledgements-backs}
use elera.Recovery.Protocol.Keeps.{
  Keeps, Keeps-pure, Keeps-throw, Keeps-publish, Keeps-remember, Keeps-persist, Keeps-bind,
  Keeps-guard-then, Keeps-lift, Keeps-with_quorum, Keeps-read,
}
use elera.Recovery.Protocol.Planning.{code_or}
use elera.Recovery.Protocol.KeepsPlan.{Keeps-record, Keeps-plan, Keeps-retry}

enter_authorized-backed :
    (existing : Decision) (d : Details) (by : List String) (required : ℕ) (now : ℕ)
    (q : Option (List String)) {next : Decision}
    → existing.quorum ≡ q
    → d.acknowledgements ≡ some by
    → d.required_acknowledgements ≡ some required
    → enter_authorized existing d now (some by) q ≡ ok next
    → is_backed next ≡ true
unfolding enter_authorized
enter_authorized-backed existing d by required now none e a r h = cc
enter_authorized-backed existing d by required now (some quorum) {next} e a r h =
    let (u, checked, merged) =
      >>=-eq-ok
        (check_acknowledgements by quorum (get_or d.required_acknowledgements (length quorum))) _
        h in
    ground (arith, check_acknowledgements-backs by quorum required)

-- An authorized decision has the acknowledgements that were asked for.
authorized-backed :
    (existing : Decision) (by : List String) (required : ℕ) (force : Bool) (now : ℕ)
    {next : Decision}
    → transition_recovery_epoch existing Ep.authorized (authorization by required force) now
      ≡ ok next
    → is_backed next ≡ true
unfolding transition_recovery_epoch
authorized-backed existing by required force now {next} h =
    enter_authorized-backed existing (authorization by required force) by required now
      existing.quorum {next = next} refl refl refl (ground arith)

bootstrapping-backed :
    (existing : Decision) (now : ℕ) {next : Decision}
    → transition_recovery_epoch existing Ep.bootstrapping no_details now ≡ ok next
    → is_backed existing ≡ true
    → is_backed next ≡ true
unfolding transition_recovery_epoch permits
bootstrapping-backed existing now h k = ground arith

complete-backed :
    (existing : Decision) (w c : String) (ms : List String) (now : ℕ) {next : Decision}
    → transition_recovery_epoch existing Ep.complete (completion w c ms) now ≡ ok next
    → is_backed existing ≡ true
    → is_backed next ≡ true
unfolding transition_recovery_epoch permits
complete-backed existing w c ms now h k = ground arith

Keeps-authorize_quorum :
    (existing : Decision) (quorum acks : List String) (force : Bool) (sq : Option ℕ) (now : ℕ)
    → Keeps (authorize_quorum existing quorum acks force sq now)
unfolding authorize_quorum
Keeps-authorize_quorum existing quorum acks force sq now = Keeps-guard-then _ _ _ λ _.
    Keeps-lift _ _ λ next e.
      Keeps-record next existing.epoch bootstrap_authorized _
        (authorized-backed existing (acknowledgements_by force sq quorum acks)
          (get_or sq (length quorum)) force now {next = next} e)
        (Keeps-pure next)

Keeps-authorize :
    (epoch : String) (acks : List String) (force : Bool) (sq : Option ℕ) (now : ℕ)
    → Keeps (authorize epoch acks force sq now)
unfolding authorize
Keeps-authorize epoch acks force sq now = Keeps-read _ on
  where
    on :
        (o : Option Decision)
        → is_backed? o ≡ true
        → Keeps (authorize_existing o epoch acks force sq now)
    on none k = Keeps-throw _
    on (some existing) k = Keeps-guard-then _ _ _ λ _.
        Keeps-with_quorum existing.quorum _
          λ quorum _. Keeps-authorize_quorum existing quorum acks force sq now

Keeps-block :
    (existing : Decision) (code : Code) (items : List Evidence) (now : ℕ)
    → Keeps (block existing code items now)
unfolding block
Keeps-block existing code items now =
    let d = blocked_as existing code items now in
    Keeps-bind (remember d) _ (Keeps-remember d refl) λ _.
      Keeps-bind (persist d existing.epoch) _ (Keeps-persist d existing.epoch refl)
        λ _. Keeps-publish (refused_event (some code))

Keeps-begin_refreshed :
    (existing : Decision) (items : List Evidence) (now : ℕ) (same : Bool)
    → is_backed existing ≡ true
    → Keeps (begin_refreshed existing items now same)
unfolding begin_refreshed
Keeps-begin_refreshed existing items now true k = Keeps-lift _ _ λ next e.
    Keeps-record next existing.epoch bootstrap_started _
      (bootstrapping-backed existing now {next = next} e k) (Keeps-pure next)
Keeps-begin_refreshed existing items now false k =
    Keeps-bind _ _ (Keeps-block existing Ep.recovery_evidence_changed items now) λ _. Keeps-throw _

Keeps-begin_settled :
    (c : Config) (existing : Decision) (now : ℕ) (r : Result Failure Collection)
    → is_backed existing ≡ true
    → Keeps (begin_settled c existing now r)
unfolding begin_settled begin_collected
Keeps-begin_settled c existing now (ok got) k =
    Keeps-lift (refreshed c existing got.items now)
      (λ fresh.
        begin_refreshed existing got.items now
          (same_text? fresh.evidence_digest existing.evidence_digest))
      λ fresh e.
        Keeps-begin_refreshed existing got.items now
          (same_text? fresh.evidence_digest existing.evidence_digest) k
Keeps-begin_settled c existing now (err f) k =
    Keeps-bind _ _ (Keeps-block existing (code_or f) existing.evidence now) λ _. Keeps-throw _

Keeps-begin_existing :
    (c : Config) (existing : Decision) (winner : String) (results : Results) (now : ℕ)
    → is_backed existing ≡ true
    → Keeps (begin_existing c existing winner results now)
unfolding begin_existing
Keeps-begin_existing c existing winner results now k =
    Keeps-guard-then _ _ _ λ _. Keeps-begin_settled c existing now (collect c results now) k

Keeps-begin_bootstrap :
    (c : Config) (epoch winner : String) (results : Results) (now : ℕ)
    → Keeps (begin_bootstrap c epoch winner results now)
unfolding begin_bootstrap
Keeps-begin_bootstrap c epoch winner results now = Keeps-read _ on
  where
    on :
        (o : Option Decision)
        → is_backed? o ≡ true
        → Keeps (begin_read c o epoch winner results now)
    on none k = Keeps-throw _
    on (some existing) k =
        Keeps-guard-then _ _ _ λ _. Keeps-begin_existing c existing winner results now k

Keeps-complete_quorum :
    (existing : Decision) (quorum : List String) (winner cluster_id : String)
    (membership : List String) (now : ℕ)
    → is_backed existing ≡ true
    → Keeps (complete_quorum existing quorum winner cluster_id membership now)
unfolding complete_quorum
Keeps-complete_quorum existing quorum winner cluster_id membership now k =
    Keeps-guard-then _ _ _ λ _. Keeps-lift _ _ λ next e.
      Keeps-record next existing.epoch bootstrap_complete _
        (complete-backed existing winner cluster_id membership now {next = next} e k)
        (Keeps-pure next)

Keeps-complete_existing :
    (existing : Decision) (winner cluster_id : String) (membership : List String) (now : ℕ)
    → is_backed existing ≡ true
    → Keeps (complete_existing existing winner cluster_id membership now)
unfolding complete_existing
Keeps-complete_existing existing winner cluster_id membership now k = Keeps-guard-then _ _ _ λ _.
    Keeps-with_quorum existing.quorum _
      λ quorum _. Keeps-complete_quorum existing quorum winner cluster_id membership now k

Keeps-complete :
    (epoch winner cluster_id : String) (membership : List String) (now : ℕ)
    → Keeps (complete epoch winner cluster_id membership now)
unfolding complete
Keeps-complete epoch winner cluster_id membership now = Keeps-read _ on
  where
    on :
        (o : Option Decision)
        → is_backed? o ≡ true
        → Keeps (complete_read o epoch winner cluster_id membership now)
    on none k = Keeps-throw _
    on (some existing) k =
        Keeps-guard-then _ _ _
          λ _. Keeps-complete_existing existing winner cluster_id membership now k

-- The calls that reach the protocol, each with the evidence and the time that it meets.
pub data Call : Type 0 where
  plan_call retry_call : Results → ℕ → Call
  authorize_call : String → List String → Bool → Option ℕ → ℕ → Call
  begin_call : String → String → Results → ℕ → Call
  complete_call : String → String → String → List String → ℕ → Call

-- The variables after a call, which may have thrown.
unfoldable pub after_call : Config → Protocol → Call → Protocol
after_call c p (plan_call results now) = (plan c results now p).1
after_call c p (retry_call results now) = (retry c results now p).1
after_call c p (authorize_call e acks force sq now) = (authorize e acks force sq now p).1
after_call c p (begin_call e w results now) = (begin_bootstrap c e w results now p).1
after_call c p (complete_call e w i ms now) = (complete e w i ms now p).1

unfoldable pub run : Config → Protocol → List Call → Protocol
unfolding after_call
run c p [] = p
run c p (call ∷ calls) = run c (after_call c p call) calls

after_call-IsBacked :
    (c : Config) (p : Protocol) (call : Call) → IsBacked p → IsBacked (after_call c p call)
unfolding after_call
after_call-IsBacked c p (plan_call results now) h = (Keeps-plan c results now).at p h
after_call-IsBacked c p (retry_call results now) h = (Keeps-retry c results now).at p h
after_call-IsBacked c p (authorize_call e acks force sq now) h =
    (Keeps-authorize e acks force sq now).at p h
after_call-IsBacked c p (begin_call e w results now) h =
    (Keeps-begin_bootstrap c e w results now).at p h
after_call-IsBacked c p (complete_call e w i ms now) h = (Keeps-complete e w i ms now).at p h

-- From backed variables, whatever the calls, the evidence they meet and the errors they throw, the
-- decision in memory and the one stored are backed: past the phase of evidence and not blocked, they
-- carry acknowledgements of members of their quorum, at least as many as were required, and at least
-- one.
pub run-IsBacked :
    (c : Config) (p : Protocol) (calls : List Call) → IsBacked p → IsBacked (run c p calls)
unfolding run
run-IsBacked c p [] h = h
run-IsBacked c p (call ∷ calls) h =
    run-IsBacked c (after_call c p call) calls (after_call-IsBacked c p call h)
