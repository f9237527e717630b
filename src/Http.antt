-- ===== src/Http.antt =====
-- Requests and replies of the HTTP handlers, as far as the handlers read and write them.
use elera.Prelude.{
  ℕ, String, Bool, true, false, ◌&&◌, ◌||◌, Option, none, some, List, [], ◌∷◌, nat_eqb, ◌==◌,
  nat_eq, string_eq,
}
use elera.Prelude.Text.{codes}

pub data Method : Type 0 where
  get post put delete other : Method

unfoldable pub is_prefix : List ℕ → List ℕ → Bool
is_prefix [] cs = true
is_prefix (p ∷ ps) [] = false
is_prefix (p ∷ ps) (c ∷ cs) = nat_eqb p c && is_prefix ps cs

-- `path.startsWith(prefix)`
unfoldable pub starts_with : String → String → Bool
unfolding is_prefix codes
starts_with path prefix = is_prefix (codes prefix) (codes path)

abbrev pub same_codes : List ℕ → List ℕ → Bool
same_codes [] [] = true
same_codes (a ∷ as') (b ∷ bs) = nat_eqb a b && same_codes as' bs
same_codes _ _ = false

unfoldable pub is_suffix : List ℕ → List ℕ → Bool
is_suffix suffix [] = same_codes suffix []
is_suffix suffix (c ∷ cs) = same_codes suffix (c ∷ cs) || is_suffix suffix cs

-- `path.endsWith(suffix)`
unfoldable pub ends_with : String → String → Bool
unfolding is_suffix codes
ends_with path suffix = is_suffix (codes suffix) (codes path)

abbrev pub is_get : Method → Bool
is_get get = true
is_get _ = false

abbrev pub is_post : Method → Bool
is_post post = true
is_post _ = false

abbrev pub is_put : Method → Bool
is_put put = true
is_put _ = false

abbrev pub is_delete : Method → Bool
is_delete delete = true
is_delete _ = false

-- `value === text`
abbrev pub is_text : Option String → String → Bool
is_text none t = false
is_text (some s) t = s == t
