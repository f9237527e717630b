-- ===== src/Recovery/Evidence/Validity.antt =====
-- What evidence passes the validation.
use elera.Prelude.{ℕ, String, ◌≡◌, false, List, [], ◌∷◌, ◌++◌, arith, nat_eq, string_eq}
use elera.Prelude.Result.{ok}
use elera.Recovery.Evidence.{Evidence, is_malformed, is_stale, check_items}

-- Each item is well formed, fresh, and of a node that no earlier item names.
unfoldable pub IsValid : ℕ → ℕ → List String → List Evidence → Type 0
IsValid now max_age seen [] = Unit
IsValid now max_age seen (item ∷ items) =
    (is_malformed seen item ≡ false)
    × (is_stale now max_age item.observed_at ≡ false)
    × IsValid now max_age (seen ++ item.node ∷ []) items

pub check_items_ok :
    (now max_age : ℕ) (seen : List String) (items : List Evidence)
    → check_items now max_age seen items ≡ ok tt
    → IsValid now max_age seen items
unfolding check_items IsValid
check_items_ok now max_age seen [] h = tt
check_items_ok now max_age seen (item ∷ items) h =
    (ground arith, ground arith, check_items_ok now max_age _ items (ground arith))
