-- ===== src/Fqdn.antt =====
-- The tests of a fully qualified name. The repository repeats `isFqdn` in three forms:
-- `fqdn` (cluster/observation-store.mjs and others), `fqdn_any_length` (cluster/cold-bootstrap/
-- coordinator.mjs and others) and `fqdn_loose` (cluster/lifecycle-plan.mjs and others).
pub mod Forms
use elera.Prelude.{
  ℕ, zero, suc, ◌+◌, ◌-◌, ◌*◌, ◌/◌, ◌%◌, ◌^◌, ◌≤◌, ◌<◌, min, max, String, ◌≡◌, refl, sym, ap, ap₂,
  subst, ◌∙◌, ◌≢◌, ◌↔◌, ◌⊎◌, inl, inr, Bool, true, false, not, ◌&&◌, ◌||◌, Option, none, some, List,
  [], ◌∷◌, ◌++◌, map, Memᴰ, arith, eq_iff, ltb, leb, nat_eqb, Eq, ◌==◌, nat_eq, string_eq,
  if◌then◌else◌, ltb→lt, lt→ltb, leb→le, Bool-cases, Option-cases, &&-left, &&-right, is_some,
  length, filter, any, all, find, count, head?, get_last?, length-append, length-filter,
  count-le-length, mem-filter, mem-filter_of, any_of_mem, mem_of_any, all_mem, any-false_mem,
  find-some, find-none, count-add-le, mem_of_count, count_le_of, count_pos, includes, dedupe,
  dedupe_onto, nat_eqb_iff,
}
use elera.Prelude.Text.{codes, split_on}

-- [A-Za-z0-9]
unfoldable pub is_alnum : ℕ → Bool
is_alnum c = (leb b'0' c && leb c b'9') || (leb b'A' c && leb c b'Z') || (leb b'a' c && leb c b'z')

-- [A-Za-z0-9-]
unfoldable pub is_ldh : ℕ → Bool
unfolding is_alnum
is_ldh c = is_alnum c || nat_eqb c b'-'

abbrev pub test_end : Option ℕ → Bool
test_end none = false
test_end (some c) = is_alnum c

-- A label of any length: first and last character alphanumeric, the others also hyphens.
unfoldable pub is_loose_label : List ℕ → Bool
unfolding is_ldh is_alnum
is_loose_label l = test_end (head? l) && test_end (get_last? l) && all is_ldh l

-- /^[A-Za-z0-9](?:[A-Za-z0-9-]{0,61}[A-Za-z0-9])?$/: at most 63 characters.
unfoldable pub is_label : List ℕ → Bool
unfolding is_loose_label
is_label l = is_loose_label l && leb (length l) 63

abbrev pub labels : String → List (List ℕ)
labels s = split_on b'.' (codes s)

abbrev pub has_dot : String → Bool
has_dot s = any (λ c. nat_eqb c b'.') (codes s)

abbrev pub last_is : ℕ → Option ℕ → Bool
last_is c none = false
last_is c (some d) = nat_eqb d c

-- `value.endsWith('.')`
abbrev pub ends_with_dot : String → Bool
ends_with_dot s = last_is b'.' (get_last? (codes s))

-- With no bound on the whole name.
unfoldable pub fqdn_any_length : String → Bool
unfolding is_label codes split_on
fqdn_any_length s = has_dot s && all is_label (labels s)

-- At most 253 characters, labels of at most 63.
unfoldable pub fqdn : String → Bool
unfolding is_label codes split_on
fqdn s = leb (length (codes s)) 253 && has_dot s && all is_label (labels s)

-- At most 253 characters, labels of any length, at least two of them.
unfoldable pub fqdn_loose : String → Bool
unfolding is_loose_label codes split_on
fqdn_loose s =
    leb (length (codes s)) 253
    && has_dot s
    && not (ends_with_dot s)
    && leb 2 (length (labels s))
    && all is_loose_label (labels s)

-- `isIP` of node:net at a name that passed `fqdn`: four decimal numbers up to 255, written with no
-- leading zero. (An IPv6 address has a colon, which no such name has.)
unfoldable pub is_digit : ℕ → Bool
is_digit c = leb b'0' c && leb c b'9'

unfoldable pub octet_value : ℕ → List ℕ → ℕ
octet_value n [] = n
octet_value n (c ∷ cs) = octet_value (n * 10 + (c - b'0')) cs

abbrev leads_zero : List ℕ → Bool
leads_zero (c ∷ d ∷ cs) = nat_eqb c b'0'
leads_zero _ = false

unfoldable pub is_octet : List ℕ → Bool
unfolding is_digit octet_value
is_octet l =
    leb 1 (length l)
    && leb (length l) 3
    && all is_digit l
    && not (leads_zero l)
    && leb (octet_value 0 l) 255

unfoldable pub is_ipv4 : String → Bool
unfolding is_octet codes split_on
is_ipv4 s = nat_eqb (length (labels s)) 4 && all is_octet (labels s)
