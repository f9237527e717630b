-- ===== src/Recovery/Candidate/Authority.antt =====
-- The authority of the chosen candidate: its position, its history and its name.
use elera.Prelude.{
  ℕ, ◌≤◌, ◌<◌, ◌≡◌, refl, sym, ap, ◌∙◌, ◌≢◌, inl, inr, Bool, true, false, Option, some, List, [],
  ◌∷◌, map, Memᴰ, arith, eq_iff, ltb, ◌==◌, nat_eq, string_eq, Bool-cases, length, filter, any,
  head?, length-filter, mem-filter, mem-filter_of, count_pos, dedupe,
}
use mathlib.Core.List.Memᴰ
use elera.Prelude.Lists.{mem-dedupe, mem_of_dedupe, mem-map, mem_of_map}
use elera.Prelude.Int.{ℤ, pos, ltb_ℤ, eqb_ℤ, ◌≤ℤ◌}
use elera.Prelude.Sort.{sort, mem-sort, sort_mem, head?_mem, head?-some_of_mem, head-sort-least}
use elera.Collation.{Collation}
use elera.Recovery.Evidence.{Evidence}
use elera.Recovery.Candidate.{
  History, Refusal, is_incomplete, refused, eligible, Grounds, seqno_of, highest_of, of_history,
  history, histories, ranks_before, ties_with, choose, select_ranked, select_candidate,
}

highest_of-ge : {e : Evidence} (es : List Evidence) → Memᴰ e es → seqno_of e ≤ℤ highest_of es
unfolding highest_of
highest_of-ge [] m = absurd (Memᴰ.not-nil m)
highest_of-ge (x ∷ []) m = rw (Memᴰ.eq_of_singleton m) (omega arith)
highest_of-ge {e} (x ∷ y ∷ es) (Memᴰ.head p) = rw p (ground arith)
highest_of-ge {e} (x ∷ y ∷ es) (Memᴰ.tail m) = ground (arith, highest_of-ge (y ∷ es) m)

ranks_before-highest :
    (c : Collation) (a b : History) → ranks_before c a b ≡ true → b.highest ≤ℤ a.highest
unfolding ranks_before
ranks_before-highest c a b h = ground arith

ranks_before-total :
    (c : Collation) (a b : History) → ranks_before c a b ≡ false → ranks_before c b a ≡ true
unfolding ranks_before
ranks_before-total c a b h = ground (arith, c.total a.uuid b.uuid)

ranks_before_trans :
    (c : Collation) (x y z : History)
    → ranks_before c x y ≡ true
    → ranks_before c y z ≡ true
    → ranks_before c x z ≡ true
unfolding ranks_before
ranks_before_trans c x y z h k = ground (arith, c.trans x.uuid y.uuid z.uuid)

highest_of-attained :
    (e : Evidence) (es : List Evidence)
    → (f : Evidence) × Memᴰ f (e ∷ es) × (eqb_ℤ (seqno_of f) (highest_of (e ∷ es)) ≡ true)
unfolding highest_of
highest_of-attained e [] = (e, Memᴰ.head refl, ground arith)
highest_of-attained e (x ∷ es) = elim (Bool-cases (ltb_ℤ (seqno_of e) (highest_of (x ∷ es)))) [
  | inl t ↦ let (f, m, q) = highest_of-attained x es in (f, Memᴰ.tail m, ground arith)
  | inr n ↦ (e, Memᴰ.head refl, ground arith)
]

attained_of_mem :
    {s : Evidence} (es : List Evidence) (top : ℤ)
    → Memᴰ s es
    → top ≡ highest_of es
    → (f : Evidence) × Memᴰ f es × (eqb_ℤ (seqno_of f) top ≡ true)
attained_of_mem [] top m e = absurd (Memᴰ.not-nil m)
attained_of_mem (x ∷ es) top m e = rw e (highest_of-attained x es)

-- Every state stands in a history, and every history holds a state.
mem-histories :
    {s : Evidence} (states : List Evidence)
    → Memᴰ s states
    → Memᴰ (history states s.uuid) (histories states)
unfolding histories
mem-histories {s} states m =
    mem-map (history states) (dedupe (map (λ s. s.uuid) states))
      (mem-dedupe (map (λ s. s.uuid) states) (mem-map (λ s. s.uuid) states m))

of_histories :
    {h : History} (states : List Evidence)
    → Memᴰ h (histories states)
    → (s : Evidence) × Memᴰ s states × (h ≡ history states s.uuid)
unfolding histories
of_histories {h} states m =
    let (u, mu, e) = mem_of_map (history states) (dedupe (map (λ s. s.uuid) states)) m in
    let (s, ms, q) =
      mem_of_map (λ s. s.uuid) states (mem_of_dedupe (map (λ s. s.uuid) states) mu) in
    (s, ms, rw (← q) e)

of_history_self :
    {s : Evidence} (states : List Evidence) → Memᴰ s states → Memᴰ s (of_history s.uuid states)
of_history_self {s} states m =
    mem-filter_of (λ t. t.uuid == s.uuid) states m ((eq_iff s.uuid s.uuid).1 refl)

-- What is chosen among winners is one of them, and of several none has a lesser name.
abbrev by_name : Collation → Evidence → Evidence → Bool
by_name c a b = c.leq a.node b.node

choose-mem : (c : Collation) (ws : List Evidence) {w : Evidence} → choose c ws ≡ some w → Memᴰ w ws
unfolding choose
choose-mem c [] h = mem-sort (by_name c) [] (head?_mem _ h)
choose-mem c (v ∷ []) h = Memᴰ.head (cc)
choose-mem c (v ∷ x ∷ ws) h = mem-sort (by_name c) (v ∷ x ∷ ws) (head?_mem _ h)

choose-some :
    (c : Collation) {v : Evidence} (ws : List Evidence)
    → Memᴰ v ws
    → (w : Evidence) × (choose c ws ≡ some w)
unfolding choose
choose-some c [] m = absurd (Memᴰ.not-nil m)
choose-some c (v ∷ []) m = (v, refl)
choose-some c (v ∷ x ∷ ws) m = head?-some_of_mem _ (sort_mem (by_name c) (v ∷ x ∷ ws) m)

name_total : (c : Collation) (a b : Evidence) → by_name c a b ≡ false → by_name c b a ≡ true
name_total c a b = c.total a.node b.node

name_trans :
    (c : Collation) (x y z : Evidence)
    → by_name c x y ≡ true
    → by_name c y z ≡ true
    → by_name c x z ≡ true
name_trans c x y z = c.trans x.node y.node z.node

choose-least :
    (c : Collation) (ws : List Evidence) {w v : Evidence}
    → choose c ws ≡ some w
    → Memᴰ v ws
    → c.leq w.node v.node ≡ true
unfolding choose
choose-least c [] h m = absurd (Memᴰ.not-nil m)
choose-least c (x ∷ []) {w} {v} h m = elim (Bool-cases (c.leq x.node x.node)) [
  | inl t ↦ cc (Memᴰ.eq_of_singleton m)
  | inr f ↦ cc (c.total x.node x.node f, Memᴰ.eq_of_singleton m)
]
choose-least c (x ∷ y ∷ ws) h m =
    head-sort-least (by_name c) (name_total c) (name_trans c) (x ∷ y ∷ ws) h m

-- What the ranked histories tell of the strongest.
module _ (c : Collation) (states : List Evidence) {strongest : History} {others : List History}
    (ranked : sort (ranks_before c) (histories states) ≡ strongest ∷ others) where
  strongest-first : {h : History} → Memᴰ h (histories states) → ranks_before c strongest h ≡ true
  strongest-first m =
      head-sort-least (ranks_before c) (ranks_before-total c) (ranks_before_trans c)
        (histories states) (ap head? ranked) m

  strongest-mem : Memᴰ strongest (histories states)
  strongest-mem = mem-sort (ranks_before c) (histories states) (rw ranked (Memᴰ.head refl))

  -- No state has a higher sequence number than the strongest history.
  highest-bound : {s : Evidence} → Memᴰ s states → seqno_of s ≤ℤ strongest.highest
  unfolding history
  highest-bound {s} m = omega (
    arith,
    highest_of-ge (of_history s.uuid states) (of_history_self states m),
    ranks_before-highest c strongest (history states s.uuid)
        (strongest-first (mem-histories states m)),
  )

  -- The winners have the highest sequence number and the uuid of the strongest history.
  abbrev winners : List Evidence
  winners = filter (λ s. eqb_ℤ (seqno_of s) strongest.highest) strongest.candidates

  winners-facts :
      {w : Evidence}
      → Memᴰ w winners
      → Memᴰ w states
        × (w.uuid ≡ strongest.uuid)
        × (eqb_ℤ (seqno_of w) strongest.highest ≡ true)
        × (strongest.candidates ≡ of_history w.uuid states)
  unfolding history
  winners-facts {w} m =
      let (s, ms, e) = of_histories states strongest-mem in
      let (mc, q) = mem-filter (λ t. eqb_ℤ (seqno_of t) strongest.highest) strongest.candidates m in
      let (mw, u) =
        mem-filter (λ t. t.uuid == s.uuid) states
          (rw (ap (λ (h : History). h.candidates) e) at mc) in
      let same = (eq_iff w.uuid s.uuid).0 u in
      (
        mw,
        same ∙ sym (ap (λ (h : History). h.uuid) e),
        q,
        ap (λ (h : History). h.candidates) e ∙ ap (λ u. of_history u states) (sym same),
      )

  some_winner : (w : Evidence) × Memᴰ w winners
  some_winner =
      let (s, ms, e) = of_histories states strongest-mem in
      let (f, m, q) =
        attained_of_mem {s = s} strongest.candidates strongest.highest
          (rw e (unfold history in of_history_self states ms))
          (rw e (unfold history highest_of in refl)) in
      (f, mem-filter_of (λ t. eqb_ℤ (seqno_of t) strongest.highest) strongest.candidates m q)

-- A history other than the strongest, at its position and with no tie, has fewer states.
below_strongest :
    (c : Collation) (top h : History) (others : List History)
    → ranks_before c top h ≡ true
    → ltb 1 (length (filter (ties_with top) (top ∷ others))) ≡ false
    → Memᴰ h others
    → top.highest ≤ℤ h.highest
    → length h.candidates < length top.candidates
unfolding ranks_before ties_with
below_strongest c top h others first tie m high = elim (Bool-cases (ties_with top h)) [
  | inl t ↦
      ground (arith, count_pos (ties_with top) others m t, length-filter (ties_with top) others)
  | inr f ↦ ground arith
]

among_others :
    {h top : History} {others : List History}
    → h.uuid ≢ top.uuid
    → Memᴰ h (top ∷ others)
    → Memᴰ h others
among_others n (Memᴰ.head e) = absurd (n (ap (λ (x : History). x.uuid) e))
among_others n (Memᴰ.tail m) = m

select_ranked-eligible :
    (c : Collation) (minimum : ℕ) (states : List Evidence) (strongest : History)
    (others : List History) {g : Grounds} {cand : Option Evidence} {cs dv : List Evidence}
    {hs : List History}
    → select_ranked c minimum states (strongest ∷ others) ≡ eligible g cand cs dv hs
    → (ltb 1 (length (filter (ties_with strongest) (strongest ∷ others))) ≡ false)
      × (ltb (length strongest.candidates) minimum ≡ false)
      × (ltb_ℤ strongest.highest (pos 0) ≡ false)
      × (choose c (filter (λ s. eqb_ℤ (seqno_of s) strongest.highest) strongest.candidates) ≡ cand)
unfolding select_ranked
select_ranked-eligible c minimum states strongest others h =
    (ground arith, ground arith, ground arith, ground arith)

refused_not_eligible :
    {r : Refusal} {ss : List Evidence} {xs : List History} {g : Grounds} {cand : Option Evidence}
    {cs dv : List Evidence} {hs : List History}
    → refused r ss xs ≡ eligible g cand cs dv hs
    → ⊥
refused_not_eligible h = cc

-- What an eligible selection rests on.
module _ (c : Collation) (minimum : ℕ) (states : List Evidence) {g : Grounds}
    {cand : Option Evidence} {cs dv : List Evidence} {hs : List History}
    (selected : select_candidate c minimum states ≡ eligible g cand cs dv hs) where
  abbrev Ranking : Type 0
  Ranking =
      (strongest : History) × (others : List History) × (sort (ranks_before c) (histories states)
        ≡ strongest ∷ others)
      × (select_ranked c minimum states (strongest ∷ others) ≡ eligible g cand cs dv hs)

  split_ranked :
      (l : List History)
      → sort (ranks_before c) (histories states) ≡ l
      → select_ranked c minimum states l ≡ eligible g cand cs dv hs
      → Ranking
  unfolding select_ranked
  split_ranked [] e h = absurd (ground arith)
  split_ranked (x ∷ l) e h = (x, l, e, h)

  unranked :
      (ss : List Evidence)
      → select_candidate c minimum ss ≡ eligible g cand cs dv hs
      → select_ranked c minimum ss (sort (ranks_before c) (histories ss)) ≡ eligible g cand cs dv hs
  unfolding select_candidate
  unranked [] h = absurd (ground arith)
  unranked (s ∷ ss) h = elim (Bool-cases (any is_incomplete (s ∷ ss))) [
    | inl t ↦ absurd (refused_not_eligible (rw t at h))
    | inr f ↦ rw f at h
  ]

  ranking : Ranking
  ranking = split_ranked _ refl (unranked states selected)

  -- An eligible selection always names a candidate. It is one of the states, its position is no
  -- unknown one, and at least `minimum` states share its history.
  pub select_candidate-some :
      (w : Evidence) × (cand ≡ some w)
      × Memᴰ w states
      × (pos 0 ≤ℤ seqno_of w)
      × (minimum ≤ length (of_history w.uuid states))
  select_candidate-some =
      let (top, others, e, h) = ranking in
      let (tie, enough, recoverable, chosen) =
        select_ranked-eligible c minimum states top others h in
      let (v, mv) = some_winner c states e in
      let (w, q) = choose-some c (winners c states e) mv in
      let (mw, u, at_top, hist) = winners-facts c states e (choose-mem c (winners c states e) q) in
      (w, sym chosen ∙ q, mw, ground arith, rw (← hist) (ground arith))

module _ (c : Collation) (minimum : ℕ) (states : List Evidence) {g : Grounds} {w : Evidence}
    {cs dv : List Evidence} {hs : List History}
    (selected : select_candidate c minimum states ≡ eligible g (some w) cs dv hs) where
  -- Where a candidate is selected, its sequence number is the highest of all the states.
  pub candidate-highest : (s : Evidence) → Memᴰ s states → seqno_of s ≤ℤ seqno_of w
  candidate-highest s m =
      let (top, others, e, h) = ranking c minimum states selected in
      let (tie, enough, recoverable, chosen) =
        select_ranked-eligible c minimum states top others h in
      let (mw, u, at_top, hist) =
        winners-facts c states e (choose-mem c (winners c states e) chosen) in
      ground (arith, highest-bound c states e {s = s} m)

  -- Where a candidate is selected, it has the first name of the states with its history and its
  -- sequence number.
  pub candidate-least :
      (s : Evidence)
      → Memᴰ s states
      → s.uuid ≡ w.uuid
      → seqno_of s ≡ seqno_of w
      → c.leq w.node s.node ≡ true
  candidate-least s m same level =
      let (top, others, e, h) = ranking c minimum states selected in
      let (tie, enough, recoverable, chosen) =
        select_ranked-eligible c minimum states top others h in
      let (mw, u, at_top, hist) =
        winners-facts c states e (choose-mem c (winners c states e) chosen) in
      choose-least c (winners c states e) {w = w} {v = s} chosen (
        mem-filter_of (λ t. eqb_ℤ (seqno_of t) top.highest) top.candidates
          (rw (hist ∙ ap (λ u. of_history u states) (sym same)) (of_history_self states m))
          (rw level at_top))

  -- Where a candidate is selected, another history with a state at the candidate's sequence number
  -- has fewer states than the candidate's.
  pub candidate-unrivalled :
      (s : Evidence)
      → Memᴰ s states
      → s.uuid ≢ w.uuid
      → seqno_of s ≡ seqno_of w
      → length (of_history s.uuid states) < length (of_history w.uuid states)
  unfolding history
  candidate-unrivalled s m other level =
      let (top, others, e, h) = ranking c minimum states selected in
      let (tie, enough, recoverable, chosen) =
        select_ranked-eligible c minimum states top others h in
      let (mw, u, at_top, hist) =
        winners-facts c states e (choose-mem c (winners c states e) chosen) in
      let ms = mem-histories states m in
      rw (← hist) (
        below_strongest c top (history states s.uuid) others (strongest-first c states e ms) tie
          (among_others (λ q. other (q ∙ sym u))
            (rw e at (sort_mem (ranks_before c) (histories states) ms)))
          (ground (arith, highest_of-ge (of_history s.uuid states) (of_history_self states m))))
