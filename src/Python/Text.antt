-- ===== src/Python/Text.antt =====
-- Python's `str`: code points, white space, `strip`, `lower`, comparison and membership.
use Prim.Native.Char.{code}
use dagr_mcp.Prelude.{
  ℕ, ◌+◌, String, ◌≡◌, refl, Bool, true, false, ◌&&◌, ◌||◌, List, [], ◌∷◌, leb, ltb, ◌==◌,
  if◌then◌else◌,
}
use mathlib.Core.List.{reverse}

abbrev pub codes : String → List ℕ
codes String.[] = []
codes (String.◌∷◌ c s) = code c ∷ codes s

-- `str.isspace` of one character.
abbrev pub is_space : ℕ → Bool
is_space c =
    (leb 9 c && leb c 13)
    || (leb 28 c && leb c 32)
    || c == 133
    || c == 160
    || c == 5760
    || (leb 8192 c && leb c 8202)
    || c == 8232
    || c == 8233
    || c == 8239
    || c == 8287
    || c == 12288

abbrev pub all_space : List ℕ → Bool
all_space [] = true
all_space (c ∷ s) = is_space c && all_space s

-- `not value.strip()`
unfoldable pub is_blank : String → Bool
is_blank s = all_space (codes s)

-- `":" in value`
abbrev pub has_code : ℕ → List ℕ → Bool
has_code c [] = false
has_code c (d ∷ s) = c == d || has_code c s

abbrev pub skip_space : List ℕ → List ℕ
skip_space [] = []
skip_space (c ∷ s) = let rest = skip_space s in if is_space c then rest else c ∷ s

unfoldable pub strip : List ℕ → List ℕ
strip s = reverse (skip_space (reverse (skip_space s)))

-- `str.lower` on the ASCII letters; it leaves every other character alone.
abbrev pub lower_ascii : ℕ → ℕ
lower_ascii c = if leb b'A' c && leb c b'Z' then c + 32 else c

abbrev pub eq_codes : List ℕ → List ℕ → Bool
eq_codes [] [] = true
eq_codes (c ∷ s) (d ∷ t) = c == d && eq_codes s t
eq_codes _ _ = false

-- `s <= t` on texts: by code points.
abbrev pub leb_codes : List ℕ → List ℕ → Bool
leb_codes [] t = true
leb_codes (c ∷ s) [] = false
leb_codes (c ∷ s) (d ∷ t) = ltb c d || (c == d && leb_codes s t)

blank_example : (is_blank " \t " ≡ true) × (is_blank " a" ≡ false)
unfolding is_blank
blank_example = (refl, refl)

strip_example : eq_codes (strip (codes " Ab ")) (codes "Ab") ≡ true
unfolding strip
strip_example = refl
