-- ===== src/Python/Decimal.antt =====
-- `str(n)` of a natural number.
use mathlib.Core.List.{reverse}
use dagr_mcp.Prelude.{ℕ, zero, suc, ◌+◌, String, List, [], ◌∷◌, ◌==◌, if◌then◌else◌}
use dagr_mcp.Python.Base64.{nth_char}

-- The digits, the last one first.
abbrev pub increment : List ℕ → List ℕ
increment [] = 1 ∷ []
increment (d ∷ ds) = let carried = increment ds in if d == 9 then 0 ∷ carried else (d + 1) ∷ ds

abbrev pub digits : ℕ → List ℕ
digits zero = 0 ∷ []
digits (suc n) = increment (digits n)

abbrev pub digit_text : List ℕ → String
digit_text [] = ""
digit_text (d ∷ ds) = String.◌∷◌ (nth_char "0123456789" d) (digit_text ds)

unfoldable pub decimal : ℕ → String
decimal n = digit_text (reverse (digits n))
