-- ===== src/Prelude/Text.antt =====
-- Texts as lists of code points, where the source walks or orders them.
use Prim.Native.Char.{code}
use Prim.Native.Nat.{ℕ, zero, suc, ◌+◌, ◌/◌, ◌%◌}
use Prim.Native.String.{String}
use mathlib.Core.Bool.{Bool, true, false}
use mathlib.Core.List.{List, [], ◌∷◌}
use elera.Prelude.Tests.{ltb, nat_eqb, if◌then◌else◌}

-- The code points of a text. The names of the program are ASCII, where these are the UTF-16 units.
unfoldable pub codes : String → List ℕ
codes String.[] = []
codes (String.◌∷◌ c s) = code c ∷ codes s

-- `a < b` on texts: the first unit that differs decides, a prefix comes first.
unfoldable pub codes_lt : List ℕ → List ℕ → Bool
codes_lt [] [] = false
codes_lt [] (b ∷ bs) = true
codes_lt (a ∷ xs) [] = false
codes_lt (a ∷ xs) (b ∷ bs) =
    let rest = codes_lt xs bs in if ltb a b then true else if ltb b a then false else rest

-- `a < b` on two texts.
unfoldable pub text_lt : String → String → Bool
unfolding codes codes_lt
text_lt a b = codes_lt (codes a) (codes b)

-- A separator starts a new piece, any other character goes to the piece that follows it.
abbrev pub open_piece : Bool → ℕ → List (List ℕ) → List (List ℕ)
open_piece true c pieces = [] ∷ pieces
open_piece false c [] = (c ∷ []) ∷ []
open_piece false c (p ∷ ps) = (c ∷ p) ∷ ps

-- `text.split(sep)` at one character; a text with no separator is one piece.
unfoldable pub split_on : ℕ → List ℕ → List (List ℕ)
split_on sep [] = [] ∷ []
split_on sep (c ∷ cs) = open_piece (nat_eqb c sep) c (split_on sep cs)

-- `String(n)` of a non-negative integer.
unfoldable pub decimal_onto : ℕ → ℕ → List ℕ → List ℕ
decimal_onto zero n out = out
decimal_onto (suc fuel) n out =
    let more = decimal_onto fuel (n / 10) ((b'0' + n % 10) ∷ out) in
    if ltb n 10 then (b'0' + n) ∷ out else more

unfoldable pub decimal : ℕ → List ℕ
unfolding decimal_onto
decimal n = decimal_onto (suc n) n []

-- Concatenation of two texts, as in a template literal.
unfoldable pub append : String → String → String
append String.[] t = t
append (String.◌∷◌ c s) t = String.◌∷◌ c (append s t)
