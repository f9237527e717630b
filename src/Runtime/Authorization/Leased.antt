-- ===== src/Runtime/Authorization/Leased.antt =====
-- When an authorization leaves a node as the winner that bootstraps
-- (runtime/recovery-authorization.mjs).
use elera.Prelude.{
  String, ◌≡◌, refl, sym, ap, subst, ◌∙◌, inl, inr, Bool, true, false, ◌&&◌, Option, none, some,
  List, arith, nat_eq, string_eq, Bool-cases, all,
}
use elera.Prelude.Result.{Result, ok, err}
use elera.Recovery.State as St
use elera.Recovery.State.{Recovery, StateError, set}
use elera.Recovery.Startup.{Start, is_bootstrap}
use elera.Recovery.Epoch as Ep
use elera.Recovery.Epoch.{Decision, or_else}
use elera.Recovery.Protocol.Base.{Protocol, ProtocolError}
use elera.Recovery.Protocol.Handlers.{authorize, begin_bootstrap}
use elera.Recovery.Protocol.Authority.{begin_bootstrap-Began}
use elera.Runtime.Authorization.{
  Member, Supervisor, Setting, Authorized, AuthorizationError, Outcome, StateFile, refused, block,
  with_recovery, promoted, promote_safe_to_bootstrap, start_authorized, after_begin,
  after_authorize, authorize_leased, authorize_winner, authorize_supervisor_recovery,
  has_lease_quorum, is_local_winner, is_own_host, acknowledgements_of, details_of,
}

-- A decision under which this node bootstraps the cluster.
abbrev pub IsBootstrapping : Start → Type 0
IsBootstrapping d = (d.local_winner && is_bootstrap d.mode) ≡ true

-- The run ended with a node that bootstraps.
abbrev pub Bootstraps : Outcome → Authorized → Type 0
Bootstraps o a = (o.1 ≡ ok a) × IsBootstrapping a.decision

no_bootstrap : (b : Bool) → (b && false) ≡ true → ⊥
no_bootstrap b h = absurd (ground arith)

refused-not : (s : Supervisor) (d : Start) {a : Authorized} → Bootstraps (refused s d) a → ⊥
refused-not s d (e, b) =
    no_bootstrap d.local_winner (subst (λ x. IsBootstrapping x.decision) (sym (inj e)) b)
  where
    inj : {x y : Authorized} → Path (Result AuthorizationError Authorized) (ok x) (ok y) → x ≡ y
    inj e = cc

with_recovery-cases :
    {C : Type 0} (s : Supervisor) (r : Result StateError Recovery) (next : Supervisor → Outcome)
    {a : Authorized}
    → Bootstraps (with_recovery s r next) a
    → ((r' : Recovery)
        → r ≡ ok r'
        → Bootstraps (next (record s { recovery = r' })) a
        → with_recovery s r next ≡ next (record s { recovery = r' })
        → C)
    → C
unfolding with_recovery
with_recovery-cases s (err e) next (h, b) k = absurd (cc)
with_recovery-cases s (ok r) next h k = k r refl h refl

block-not :
    (t : String) (s : Supervisor) (d : Start) {a : Authorized} → Bootstraps (block t s d) a → ⊥
unfolding block
block-not t s d h =
    with_recovery-cases s _ (λ s'. refused s' d) h
      (λ r e h' _. refused-not (record s { recovery = r }) d h')

-- What a node that bootstraps leaves: its decision is the one given, and the protocol as it is.
promoted-keeps :
    (w : Setting) (s : Supervisor) (d : Start) (r : Result AuthorizationError StateFile)
    {a : Authorized}
    → (promoted w s d r).1 ≡ ok a
    → (a.decision ≡ d)
      × ((promoted w s d r).0.protocol ≡ s.protocol)
      × ((promoted w s d r).0.recovery ≡ s.recovery)
unfolding promoted
promoted-keeps w s d (err e) h = absurd (cc)
promoted-keeps w s d (ok f) h = (sym (ap (λ x. x.decision) (inj h)), refl, refl)
  where
    inj : {x y : Authorized} → Path (Result AuthorizationError Authorized) (ok x) (ok y) → x ≡ y
    inj e = cc

start_authorized-keeps :
    (w : Setting) (s : Supervisor) (d : Start) {a : Authorized}
    → Bootstraps (start_authorized w s d) a
    → (start_authorized w s d).0.protocol ≡ s.protocol
unfolding start_authorized
start_authorized-keeps w s d h =
    with_recovery-cases s (set s.recovery St.recovery_authorized (details_of w.reason d))
      (λ s'. promoted w s' d (promote_safe_to_bootstrap w.writable s'.state_file)) h
      (λ r e h' same.
        ap (λ o. o.0.protocol) same
        ∙ (promoted-keeps w (record s { recovery = r }) d
            (promote_safe_to_bootstrap w.writable s.state_file) h'.0).1)

-- What stands behind a node that bootstraps after an authorization.
pub record IsLeased (w : Setting) (s : Supervisor) (d : Start) (ms : List Member)
    (after : Supervisor) : Type 0 where
  pub epoch : String
  pub winner : String
  pub same_epoch : d.epoch ≡ some epoch
  pub same_winner : d.winner ≡ some winner
  pub local : is_local_winner d.winner ms ≡ true
  pub own_hosts : all is_own_host ms ≡ true
  pub leased : has_lease_quorum ms ≡ true
  pub authorized : Decision
  pub was_authorized :
      (authorize epoch (acknowledgements_of ms) false none w.now s.protocol).0 ≡ ok authorized
  pub begun : Decision
  pub entered : begun.phase ≡ Ep.bootstrapping
  pub stored : after.protocol.stored ≡ some begun

-- What the two calls of the protocol gave.
abbrev Begun : Setting → Supervisor → List Member → String → Supervisor → Type 0
Begun w s ms epoch after =
    (x : Decision) × ((authorize epoch (acknowledgements_of ms) false none w.now s.protocol).0
      ≡ ok x)
    × (y : Decision) × (y.phase ≡ Ep.bootstrapping)
    × (after.protocol.stored ≡ some y)

after_begin-cases :
    (w : Setting) (s : Supervisor) (d : Start) (r : Result ProtocolError Decision × Protocol)
    {a : Authorized}
    → Bootstraps (after_begin w s d r) a
    → (y : Decision) × (r.0 ≡ ok y) × ((after_begin w s d r).0.protocol ≡ r.1)
unfolding after_begin
after_begin-cases w s d (err e, p) h =
    absurd (block-not (w.message e) (record s { protocol = p }) d h)
after_begin-cases w s d (ok y, p) h =
    (y, refl, start_authorized-keeps w (record s { protocol = p }) d h)

after_authorize-cases :
    (w : Setting) (s : Supervisor) (d : Start) (epoch winner : String)
    (r : Result ProtocolError Decision × Protocol) {a : Authorized}
    → Bootstraps (after_authorize w s d epoch winner r) a
    → (x : Decision) × (r.0 ≡ ok x)
      × (y : Decision) × (y.phase ≡ Ep.bootstrapping)
      × ((after_authorize w s d epoch winner r).0.protocol.stored ≡ some y)
unfolding after_authorize
after_authorize-cases w s d epoch winner (err e, p) h =
    absurd (block-not (w.message e) (record s { protocol = p }) d h)
after_authorize-cases w s d epoch winner (ok x, p) h =
    let (y, e, kept) =
      after_begin-cases w s d (begin_bootstrap w.config epoch winner w.results w.now p) h in
    let (existing, _, began) = begin_bootstrap-Began w.config epoch winner w.results w.now p y e in
    (x, refl, y, began.entered, ap (λ q. q.stored) kept ∙ began.recorded)

authorize_leased-cases :
    (w : Setting) (s : Supervisor) (d : Start) (ms : List Member) (eo wo : Option String)
    {a : Authorized}
    → Bootstraps (authorize_leased w s d ms eo wo) a
    → (epoch winner : String) × (eo ≡ some epoch)
      × (wo ≡ some winner)
      × Begun w s ms epoch (authorize_leased w s d ms eo wo).0
unfolding authorize_leased
authorize_leased-cases w s d ms (some epoch) (some winner) h =
    let (x, e, y, p, st) =
      after_authorize-cases w s d epoch winner
        (authorize epoch (acknowledgements_of ms) false none w.now s.protocol) h in
    (epoch, winner, refl, refl, (x, e, y, p, st))
authorize_leased-cases w s d ms (some epoch) none h = absurd (block-not _ _ d h)
authorize_leased-cases w s d ms none wo h = absurd (block-not _ _ d h)

-- Where an authorization ends with a node that bootstraps, that node is the winner and the local
-- member; the URLs of all members name their own hosts; a majority of the members granted their
-- leases; the protocol authorized the epoch of the decision with those members' acknowledgements
-- and then began the bootstrap, which is what it has stored.
pub authorize-IsLeased :
    (w : Setting) (s : Supervisor) (d : Start) (ms : List Member) (a : Authorized)
    → Bootstraps (authorize_supervisor_recovery w s d ms) a
    → IsLeased w s d ms (authorize_supervisor_recovery w s d ms).0
unfolding authorize_supervisor_recovery authorize_winner
authorize-IsLeased w s d ms a h = elim (Bool-cases (d.local_winner && is_bootstrap d.mode)) [
  | inr f ↦ absurd (not_given f (rw f at h))
  | inl t ↦ elim (Bool-cases (is_local_winner d.winner ms)) [
    | inr f ↦ absurd (refused-not s d {a = a} (rw (t, f) at h))
    | inl l ↦ elim (Bool-cases (all is_own_host ms)) [
      | inr f ↦ absurd (cc ((rw (t, l, f) at h).0))
      | inl u ↦ elim (Bool-cases (has_lease_quorum ms)) [
        | inr f ↦ absurd (block-not _ s d {a = a} (rw (t, l, u, f) at h))
        | inl q ↦
            let (e, n, ee, en, (x, ex, y, ph, st)) =
              authorize_leased-cases w s d ms d.epoch d.winner {a = a} (rw (t, l, u, q) at h) in
            record {
              epoch = e;
              winner = n;
              same_epoch = ee;
              same_winner = en;
              local = l;
              own_hosts = u;
              leased = q;
              authorized = x;
              was_authorized = ex;
              begun = y;
              entered = ph;
              stored = rw (t, l, u, q) st;
            }
      ]
    ]
  ]
]
  where
    inj : {x y : Authorized} → Path (Result AuthorizationError Authorized) (ok x) (ok y) → x ≡ y
    inj e = cc

    not_given :
        (d.local_winner && is_bootstrap d.mode) ≡ false
        → Bootstraps (s, ok (record { decision = d; args = none })) a
        → ⊥
    not_given f (e, b) = off (subst (λ x. IsBootstrapping x.decision) (sym (inj e)) b) f
      where
        off : {x : Bool} → x ≡ true → x ≡ false → ⊥
        off t u = absurd (cc)
