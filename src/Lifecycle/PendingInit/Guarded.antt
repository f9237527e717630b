-- ===== src/Lifecycle/PendingInit/Guarded.antt =====
-- Which requests make a pending node act (lifecycle/pending-init/server.mjs,
-- lifecycle/pending-init/recovery-routes.mjs).
use elera.Prelude.{
  ◌≡◌, refl, ap, ◌∙◌, ◌⊎◌, inl, inr, Bool, true, false, not, ◌&&◌, ◌||◌, Option, none, some, [],
  ◌∷◌, arith, ◌==◌, nat_eq, string_eq, if◌then◌else◌,
}
use elera.Http.{is_text, is_get, is_post}
use elera.Lifecycle.PendingInit.{
  Server, Request, Body, Answer, Call, Operation, reply, perform, cold_evidence, reset, initialize,
  join, is_authorized, with_body, handle_pending_recovery_route, is_lifecycle, asks_join,
  operation_of, begin_operation, initialize_route, is_one_of, serve, or_serve, handle,
}
use elera.Lifecycle.PendingInit.Recovering.{
  split, no_call, allowed-perform, with_body-perform, IsRecovery, handle-IsRecovery-perform,
}

begin_operation-perform :
    (busy : Bool) (o : Option Operation) {c : Call}
    → begin_operation busy o ≡ perform c
    → (busy ≡ false) × (q : Operation) × (o ≡ some q) × (c ≡ initialize q)
begin_operation-perform busy none h = no_call 400 h
begin_operation-perform true (some q) h = no_call 409 h
begin_operation-perform false (some q) h = (refl, q, refl, inj h)
  where
    inj : {x y : Call} → Path Answer (perform x) (perform y) → y ≡ x
    inj e = cc

initialize_route-perform :
    (s : Server) (busy : Bool) (r : Request) (b : Body) {c : Call}
    → initialize_route s busy r b ≡ perform c
    → (b.confirm ≡ true)
      × (busy ≡ false)
      × (q : Operation) × (operation_of s r b ≡ some q)
      × (c ≡ initialize q)
      × ((s.recovery_required && is_lifecycle r && is_text b.action "bootstrap") ≡ false)
      × ((is_lifecycle r && not (is_text b.action "bootstrap" || is_text b.action "join")) ≡ false)
unfolding initialize_route
initialize_route-perform s busy r b =
    split (s.recovery_required && is_lifecycle r && is_text b.action "bootstrap") _ _
      (λ _ h. no_call 503 h)
      (λ f.
        split (not b.confirm) _ _ (λ _ h. no_call 409 h)
          (λ g.
            split (is_lifecycle r && not (is_text b.action "bootstrap" || is_text b.action "join"))
              _ _ (λ _ h. no_call 400 h)
              (λ k h.
                let (n, q, e, i) = begin_operation-perform busy (operation_of s r b) h in
                (confirmed b.confirm g, n, q, e, i, f, k))))
  where
    confirmed : (x : Bool) → not x ≡ false → x ≡ true
    confirmed x e = ground arith

-- What the server itself calls, outside the recovery routes.
abbrev pub Served : Server → Bool → Request → Call → Type 0
Served s busy r c =
    (c ≡ reset)
    ⊎ ((busy ≡ false)
        × (b : Body) × (r.body ≡ some b)
        × (b.confirm ≡ true)
        × (q : Operation) × (c ≡ initialize q)
        × (s.recovery_required ≡ true → q ≡ join))

-- In recovery, a request that gets as far as an initialization asks to join.
asks :
    (rr p a j l i bo jo : Bool)
    → (rr && p && (a || (i || false))) ≡ false
    → (p && (a || (j || (l || (i || false))))) ≡ true
    → (rr && l && bo) ≡ false
    → (l && not (bo || jo)) ≡ false
    → rr ≡ true
    → (j || (l && jo)) ≡ true
asks rr p a j l i bo jo h1 h2 h3 h4 h5 = ground arith

joins :
    (s : Server) (r : Request) (b : Body) {q : Operation}
    → asks_join r b ≡ true
    → operation_of s r b ≡ some q
    → q ≡ join
joins s r b t h = inj (rw t at h)
  where
    inj : {x y : Operation} → Path (Option Operation) (some x) (some y) → y ≡ x
    inj e = cc

serve-Served :
    (s : Server) (busy : Bool) (r : Request) {c : Call}
    → serve s busy r ≡ perform c
    → (is_authorized s r ≡ true) × Served s busy r c
unfolding serve
serve-Served s busy r {c} =
    split _ _ _ (λ t h. no_call 503 (allowed-perform s r (reply 503) h).1)
      (λ f.
        split _ _ _ (λ t h. starts f t (allowed-perform s r _ h))
          (λ g. split _ _ _ (λ t h. resets (allowed-perform s r _ h)) (λ _ h. no_call 503 h)))
  where
    inj : {x y : Call} → Path Answer (perform x) (perform y) → y ≡ x
    inj e = cc

    resets :
        (is_authorized s r ≡ true)
          × ((if s.data_reset then with_body r.body (λ b. perform reset) else reply 503)
              ≡ perform c)
        → (is_authorized s r ≡ true) × Served s busy r c
    resets (a, h) =
        split s.data_reset (with_body r.body (λ b. perform reset)) (reply 503)
          (λ _ h.
            let (b, _, e) = with_body-perform r.body (λ b. perform reset) h in (a, inl (inj e)))
          (λ _ h. no_call 503 h) h

    starts :
        (s.recovery_required
            && is_post r.method
            && is_one_of r.url ("/api/v1/cluster/bootstrap" ∷ "/api/v1/initialization/apply" ∷ []))
          ≡ false
        → (is_post r.method
            && is_one_of r.url (
                "/api/v1/cluster/bootstrap" ∷ "/api/v1/cluster/join"
                ∷ "/api/v1/cluster/lifecycle/apply" ∷ "/api/v1/initialization/apply" ∷ []))
          ≡ true
        → (is_authorized s r ≡ true) × (with_body r.body (initialize_route s busy r) ≡ perform c)
        → (is_authorized s r ≡ true) × Served s busy r c
    starts f t (a, h) =
        let (b, eb, hb) = with_body-perform r.body (initialize_route s busy r) h in
        let (cf, n, q, eq, ec, g1, g2) = initialize_route-perform s busy r b hb in
        (
          a,
          inr (
            n,
            b,
            eb,
            cf,
            q,
            ec,
            λ rr.
                joins s r b
                  (asks s.recovery_required (is_post r.method)
                    (r.url == "/api/v1/cluster/bootstrap") (r.url == "/api/v1/cluster/join")
                    (is_lifecycle r) (r.url == "/api/v1/initialization/apply")
                    (is_text b.action "bootstrap") (is_text b.action "join") f t g1 g2 rr)
                  eq,
          ),
        )

-- The server of a pending node calls anything only for a request with the root token. It starts an
-- initialization only for a confirmed request while no other is under way, and where a recovery is
-- required only to join; the recovery routes call nothing that initializes or resets, and let only
-- another configured member join.
pub handle-Guarded :
    (s : Server) (busy : Bool) (r : Request) (c : Call)
    → handle s busy r ≡ perform c
    → (is_authorized s r ≡ true)
      × ((c ≡ cold_evidence) ⊎ Served s busy r c ⊎ ((s.recovery_required ≡ true) × IsRecovery s c))
unfolding handle
handle-Guarded s busy r c h =
    split (r.url == "/healthz") (reply 200) _ (λ _ h. no_call 200 h)
      (λ _.
        split (r.url == "/readyz") (reply 503) _ (λ _ h. no_call 503 h)
          (λ _.
            split (is_get r.method && r.url == "/api/v1/cluster/cold-bootstrap/evidence") _
              (or_serve (handle_pending_recovery_route s r) (serve s busy r))
              (λ _ h. evidence_of (allowed-perform s r _ h))
              (λ _ h. on (handle_pending_recovery_route s r) refl h)))
      h
  where
    inj : {x y : Call} → Path Answer (perform x) (perform y) → y ≡ x
    inj e = cc

    Result : Type 0
    Result =
        (is_authorized s r ≡ true)
        × ((c ≡ cold_evidence)
            ⊎ Served s busy r c
            ⊎ ((s.recovery_required ≡ true) × IsRecovery s c))

    evidence_of :
        (is_authorized s r ≡ true)
          × ((if s.cold_evidence then perform cold_evidence else reply 503) ≡ perform c)
        → Result
    evidence_of (a, h) =
        split s.cold_evidence _ _ (λ _ k. (a, inl (inj k))) (λ _ k. no_call 503 k) h

    on :
        (o : Option Answer)
        → handle_pending_recovery_route s r ≡ o
        → or_serve o (serve s busy r) ≡ perform c
        → Result
    on none e h = let (a, k) = serve-Served s busy r h in (a, inr (inl k))
    on (some a) e h =
        let (t, q, k) = handle-IsRecovery-perform s r (e ∙ ap some h) in (t, inr (inr (q, k)))
