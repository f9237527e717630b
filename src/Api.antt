-- ===== src/Api.antt =====
-- The control API: who asks, and what a route makes of a request (control-api.mjs, api/routes/*.mjs).
pub mod Reconcile
pub mod Artifacts
pub mod Initialization
pub mod ColdRecovery
pub mod Managed
pub mod Routing
pub mod Credentials
pub mod Control
use elera.Prelude.{
  ℕ, zero, suc, ◌+◌, ◌-◌, ◌*◌, ◌/◌, ◌%◌, ◌^◌, ◌≤◌, ◌<◌, min, max, String, ◌≡◌, refl, sym, ap, ap₂,
  subst, ◌∙◌, ◌≢◌, ◌↔◌, ◌⊎◌, inl, inr, Bool, true, false, not, ◌&&◌, ◌||◌, Option, none, some, List,
  [], ◌∷◌, ◌++◌, map, Memᴰ, arith, eq_iff, ltb, leb, nat_eqb, Eq, ◌==◌, nat_eq, string_eq,
  if◌then◌else◌, ltb→lt, lt→ltb, leb→le, Bool-cases, Option-cases, &&-left, &&-right, is_some,
  length, filter, any, all, find, count, head?, get_last?, length-append, length-filter,
  count-le-length, mem-filter, mem-filter_of, any_of_mem, mem_of_any, all_mem, any-false_mem,
  find-some, find-none, count-add-le, mem_of_count, count_le_of, count_pos, includes, dedupe,
  dedupe_onto, nat_eqb_iff,
}

-- The authenticated client: the root token, or a token with its scopes and its application.
pub record Auth : Type 0 where
  pub root : Bool
  pub scopes : List String
  pub application : Option String
  pub identity : Option String

-- What a route does: it leaves the request to the next one, it answers (or throws) at once with a
-- status, or it calls a service and answers by what that returns: the first status where the
-- result says so (`verified`, `dryRun`), else the second.
pub data Handled (C : Type 0) : Type 0 where
  passed : Handled C
  replied : ℕ → Handled C
  called : C → ℕ → ℕ → Handled C

-- `auth.root || auth.scopes.includes(scope)`
unfoldable pub has_scope : Auth → String → Bool
has_scope a scope = a.root || includes scope a.scopes

-- The same, with the scope `*` too.
unfoldable pub has_scope_or_all : Auth → String → Bool
has_scope_or_all a scope = a.root || includes "*" a.scopes || includes scope a.scopes

-- `if (!allowed) return false;`
abbrev pub when_allowed : {C : Type 0} → Bool → Handled C → Handled C
when_allowed b h = if b then h else passed

-- `if (body.confirm !== true) throw …`
abbrev pub when_confirmed : {C : Type 0} → Bool → Handled C → Handled C
when_confirmed b h = if b then h else replied 409

-- A call that answers with one status.
abbrev pub answers : {C : Type 0} → C → ℕ → Handled C
answers c n = called c n n
