-- ===== src/Python/Base64.antt =====
-- `base64.urlsafe_b64encode` without its padding, and `base64.urlsafe_b64decode`, as CPython's
-- `binascii.a2b_base64` reads a text that is not checked strictly.
pub mod Inverse
use Prim.Native.Char.{Char, code}
use dagr_mcp.Prelude.{
  ℕ, zero, suc, ◌+◌, ◌-◌, ◌*◌, ◌/◌, ◌<◌, String, ◌≡◌, refl, Bool, true, false, ◌&&◌, ◌||◌, Option,
  none, some, List, [], ◌∷◌, ◌++◌, arith, leb, ltb, ◌==◌, if◌then◌else◌, Bool-cases, inl, inr, sym,
  ap, ◌∙◌,
}
use Prim.Native.Nat.{◌%◌}
use dagr_mcp.Python.Text.{codes}

abbrev pub nth_char : String → ℕ → Char
nth_char String.[] n = "="
nth_char (String.◌∷◌ c s) zero = c
nth_char (String.◌∷◌ c s) (suc n) = nth_char s n

-- The character of a digit below 64.
abbrev pub symbol : ℕ → Char
symbol n = nth_char "ABCDEFGHIJKLMNOPQRSTUVWXYZabcdefghijklmnopqrstuvwxyz0123456789-_" n

-- `b64url_encode`
unfoldable pub b64url_encode : List ℕ → String
b64url_encode [] = ""
b64url_encode (a ∷ []) = String.◌∷◌ (symbol (a / 4)) (String.◌∷◌ (symbol (a % 4 * 16)) "")
b64url_encode (a ∷ b ∷ []) =
    String.◌∷◌ (symbol (a / 4))
      (String.◌∷◌ (symbol (a % 4 * 16 + b / 16)) (String.◌∷◌ (symbol (b % 16 * 4)) ""))
b64url_encode (a ∷ b ∷ c ∷ rest) = String.◌∷◌ (symbol (a / 4)) (
    String.◌∷◌ (symbol (a % 4 * 16 + b / 16)) (
      String.◌∷◌ (symbol (b % 16 * 4 + c / 64))
        (String.◌∷◌ (symbol (c % 64)) (b64url_encode rest))))

pub data Read : Type 0 where
  pad junk : Read
  digit : ℕ → Read

-- The URL-safe characters are translated to `+` and `/`, which are digits themselves.
abbrev pub read : ℕ → Read
read c =
    if leb 65 c && leb c 90
    then digit (c - 65)
    else if leb 97 c && leb c 122
    then digit (c - 71)
    else if leb 48 c && leb c 57
    then digit (c + 4)
    else if c == b'-' || c == b'+'
    then digit 62
    else if c == b'_' || c == b'/'
    then digit 63
    else if c == b'='
    then pad
    else junk

-- How far a group of four characters is read, with the bits left over. `padded` is `two` after one
-- padding character.
pub data Quad : Type 0 where
  start : Quad
  one two padded three : ℕ → Quad

abbrev pub emit : ℕ → Option (List ℕ) → Option (List ℕ)
emit b none = none
emit b (some bytes) = some (b ∷ bytes)

unfoldable pub scan : Quad → List ℕ → Option (List ℕ)
scan start [] = some []
scan q [] = none
scan start (c ∷ s) = elim (read c) [ digit v ↦ scan (one v) s | _ ↦ scan start s ]
scan (one r) (c ∷ s) = elim (read c) [
  | digit v ↦ emit (r * 4 + v / 16) (scan (two (v % 16)) s)
  | _ ↦ scan (one r) s
]
scan (two r) (c ∷ s) = elim (read c) [
  | digit v ↦ emit (r * 16 + v / 4) (scan (three (v % 4)) s)
  | pad ↦ scan (padded r) s
  | junk ↦ scan (two r) s
]
scan (padded r) (c ∷ s) = elim (read c) [
  | digit v ↦ emit (r * 16 + v / 4) (scan (three (v % 4)) s)
  | pad ↦ some []
  | junk ↦ scan (padded r) s
]
scan (three r) (c ∷ s) = elim (read c) [
  | digit v ↦ emit (r * 64 + v) (scan start s)
  | pad ↦ some []
  | junk ↦ scan (three r) s
]

-- `"=" * (-len(value) % 4)`
abbrev pub padding : ℕ → List ℕ
padding n =
    if n % 4 == 0
    then []
    else if n % 4 == 1
    then b'=' ∷ b'=' ∷ b'=' ∷ []
    else if n % 4 == 2
    then b'=' ∷ b'=' ∷ []
    else b'=' ∷ []

abbrev pub count : List ℕ → ℕ
count [] = 0
count (c ∷ s) = suc (count s)

abbrev pub all_ascii : List ℕ → Bool
all_ascii [] = true
all_ascii (c ∷ s) = ltb c 128 && all_ascii s

-- What the standard library makes of `base64.urlsafe_b64decode(value + padding)`, none for an
-- exception. The program's own `_b64url_decode` is in Access/Signature.antt.
unfoldable pub urlsafe_b64decode : String → Option (List ℕ)
unfolding scan
urlsafe_b64decode value =
    let s = codes value in
    let bytes = scan start (s ++ padding (count s)) in if all_ascii s then bytes else none
