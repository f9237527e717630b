-- ===== src/Lifecycle/PendingInit/Sql.antt =====
-- The quoting of texts in the SQL of an initialization (lifecycle/pending-init/sql.mjs), over the
-- code points of a text.
pub mod Read
use elera.Prelude.{
  ℕ, zero, suc, ◌+◌, ◌-◌, ◌*◌, ◌/◌, ◌%◌, ◌^◌, ◌≤◌, ◌<◌, min, max, String, ◌≡◌, refl, sym, ap, ap₂,
  subst, ◌∙◌, ◌≢◌, ◌↔◌, ◌⊎◌, inl, inr, Bool, true, false, not, ◌&&◌, ◌||◌, Option, none, some, List,
  [], ◌∷◌, ◌++◌, map, Memᴰ, arith, eq_iff, ltb, leb, nat_eqb, Eq, ◌==◌, nat_eq, string_eq,
  if◌then◌else◌, ltb→lt, lt→ltb, leb→le, Bool-cases, Option-cases, &&-left, &&-right, is_some,
  length, filter, any, all, find, count, head?, get_last?, length-append, length-filter,
  count-le-length, mem-filter, mem-filter_of, any_of_mem, mem_of_any, all_mem, any-false_mem,
  find-some, find-none, count-add-le, mem_of_count, count_le_of, count_pos, includes, dedupe,
  dedupe_onto, nat_eqb_iff,
}

-- `text.replaceAll(q, q + q)`
unfoldable pub double : ℕ → List ℕ → List ℕ
double q [] = []
double q (c ∷ cs) = let rest = double q cs in if nat_eqb c q then c ∷ c ∷ rest else c ∷ rest

-- `sqlLiteral`
unfoldable pub sql_literal : List ℕ → List ℕ
unfolding double
sql_literal cs = b'\'' ∷ (double b'\'' (double b'\\' cs) ++ b'\'' ∷ [])

-- `sqlIdentifier`
unfoldable pub sql_identifier : List ℕ → List ℕ
unfolding double
sql_identifier cs = b'`' ∷ (double b'`' cs ++ b'`' ∷ [])
