-- ===== src/Python/Base64/Inverse.antt =====
-- `b64url_encode` of srs_receipts.py and its inverse.
use Prim.Native.Char.{code}
use dagr_mcp.Prelude.{
  ℕ, zero, suc, ◌+◌, ◌*◌, ◌/◌, ◌<◌, ◌≡◌, refl, Bool, true, false, ◌&&◌, Option, some, List, [], ◌∷◌,
  ◌++◌, arith, ltb, ◌==◌, ap, ◌∙◌,
}
use Prim.Native.Nat.{◌%◌}
use dagr_mcp.Python.Text.{codes}
use dagr_mcp.Python.Base64.{
  symbol, b64url_encode, Read, pad, junk, digit, read, start, one, two, three, padded, emit, scan,
  padding, count, all_ascii, urlsafe_b64decode,
}

abbrev all_below : ℕ → (ℕ → Bool) → Bool
all_below zero p = true
all_below (suc n) p = p n && all_below n p

abbrev is_digit : Read → ℕ → Bool
is_digit (digit v) n = v == n
is_digit _ n = false

all_below_lem : (m n : ℕ) (p : ℕ → Bool) → n < m → all_below m p ≡ true → p n ≡ true
all_below_lem zero n p b h = absurd (omega arith)
all_below_lem (suc m) n p b h = ground (arith, all_below_lem m n p)

symbols_are_digits :
    all_below 64 (λ n. is_digit (read (code (symbol n))) n && ltb (code (symbol n)) 128) ≡ true
symbols_are_digits = refl

is_digit_lem : (r : Read) (n : ℕ) → is_digit r n ≡ true → r ≡ digit n
is_digit_lem r n h = ground arith

and_left : (b c : Bool) → (b && c) ≡ true → b ≡ true
and_left b c h = ground arith

and_right : (b c : Bool) → (b && c) ≡ true → c ≡ true
and_right b c h = ground arith

read-symbol : (n : ℕ) → n < 64 → read (code (symbol n)) ≡ digit n
read-symbol n b = is_digit_lem _ n (
    and_left _ _ (
      all_below_lem 64 n (λ n. is_digit (read (code (symbol n))) n && ltb (code (symbol n)) 128) b
        symbols_are_digits))

symbol_is_ascii : (n : ℕ) → n < 64 → ltb (code (symbol n)) 128 ≡ true
symbol_is_ascii n b = and_right _ _ (
    all_below_lem 64 n (λ n. is_digit (read (code (symbol n))) n && ltb (code (symbol n)) 128) b
      symbols_are_digits)

abbrev pub AreBytes : List ℕ → Type 0
AreBytes [] = Unit
AreBytes (b ∷ bytes) = (b < 256) × AreBytes bytes

encoded_is_ascii :
    (bytes : List ℕ) → AreBytes bytes → all_ascii (codes (b64url_encode bytes)) ≡ true
unfolding b64url_encode
encoded_is_ascii [] h = refl
encoded_is_ascii (a ∷ []) h =
    rw (symbol_is_ascii (a / 4) (omega arith), symbol_is_ascii (a % 4 * 16) (omega arith))
encoded_is_ascii (a ∷ b ∷ []) h = rw (
  symbol_is_ascii (a / 4) (omega arith),
  symbol_is_ascii (a % 4 * 16 + b / 16) (omega arith),
  symbol_is_ascii (b % 16 * 4) (omega arith),
)
encoded_is_ascii (a ∷ b ∷ c ∷ rest) h =
    rw
      (
        symbol_is_ascii (a / 4) (omega arith),
        symbol_is_ascii (a % 4 * 16 + b / 16) (omega arith),
        symbol_is_ascii (b % 16 * 4 + c / 64) (omega arith),
        symbol_is_ascii (c % 64) (omega arith),
      )
      (encoded_is_ascii rest h.1.1.1)

four_more : (n : ℕ) → padding (suc (suc (suc (suc n)))) ≡ padding n
four_more n = let e : suc (suc (suc (suc n))) % 4 ≡ n % 4 = omega arith in rw e

module _ (v : ℕ) (b : v < 64) (s : List ℕ) where
  scan-start : scan start (code (symbol v) ∷ s) ≡ scan (one v) s
  unfolding scan
  scan-start = ap (λ r. elim r [ digit v ↦ scan (one v) s | _ ↦ scan start s ]) (read-symbol v b)

  scan-one :
      (r : ℕ) → scan (one r) (code (symbol v) ∷ s) ≡ emit (r * 4 + v / 16) (scan (two (v % 16)) s)
  unfolding scan
  scan-one r =
      ap
        (λ x. elim x [
          | digit v ↦ emit (r * 4 + v / 16) (scan (two (v % 16)) s)
          | _ ↦ scan (one r) s
        ])
        (read-symbol v b)

  scan-two :
      (r : ℕ) → scan (two r) (code (symbol v) ∷ s) ≡ emit (r * 16 + v / 4) (scan (three (v % 4)) s)
  unfolding scan
  scan-two r =
      ap
        (λ x. elim x [
          | digit v ↦ emit (r * 16 + v / 4) (scan (three (v % 4)) s)
          | pad ↦ scan (padded r) s
          | junk ↦ scan (two r) s
        ])
        (read-symbol v b)

  scan-three : (r : ℕ) → scan (three r) (code (symbol v) ∷ s) ≡ emit (r * 64 + v) (scan start s)
  unfolding scan
  scan-three r =
      ap
        (λ x. elim x [
          | digit v ↦ emit (r * 64 + v) (scan start s)
          | pad ↦ some []
          | junk ↦ scan (three r) s
        ])
        (read-symbol v b)

empty_scan : scan start [] ≡ some []
unfolding scan
empty_scan = refl

two_pads : (r : ℕ) → scan (two r) (b'=' ∷ b'=' ∷ []) ≡ some []
unfolding scan
two_pads r = refl

one_pad : (r : ℕ) → scan (three r) (b'=' ∷ []) ≡ some []
unfolding scan
one_pad r = refl

emitted : (x y : ℕ) {o p : Option (List ℕ)} → x ≡ y → o ≡ p → emit x o ≡ emit y p
emitted x y h k = cc

scan-b64url_encode :
    (bytes : List ℕ)
    → AreBytes bytes
    → scan start (codes (b64url_encode bytes) ++ padding (count (codes (b64url_encode bytes))))
      ≡ some bytes
unfolding b64url_encode
scan-b64url_encode [] h = empty_scan
scan-b64url_encode (a ∷ []) h =
    scan-start (a / 4) (omega arith) _
    ∙ scan-one (a % 4 * 16) (omega arith) _ (a / 4)
    ∙ emitted _ a (omega arith) (two_pads _)
scan-b64url_encode (a ∷ b ∷ []) h =
    scan-start (a / 4) (omega arith) _
    ∙ scan-one (a % 4 * 16 + b / 16) (omega arith) _ (a / 4)
    ∙ emitted _ a (omega arith)
        (scan-two (b % 16 * 4) (omega arith) _ _ ∙ emitted _ b (omega arith) (one_pad _))
scan-b64url_encode (a ∷ b ∷ c ∷ rest) h =
    scan-start (a / 4) (omega arith) _
    ∙ scan-one (a % 4 * 16 + b / 16) (omega arith) _ (a / 4)
    ∙ emitted _ a (omega arith) (
        scan-two (b % 16 * 4 + c / 64) (omega arith) _ _
        ∙ emitted _ b (omega arith) (
            scan-three (c % 64) (omega arith) _ _
            ∙ emitted _ c (omega arith) (
                ap (λ p. scan start (codes (b64url_encode rest) ++ p))
                  (four_more (count (codes (b64url_encode rest))))
                ∙ scan-b64url_encode rest h.1.1.1)))

-- Decoding what is encoded gives the bytes back.
pub urlsafe_b64decode-b64url_encode :
    (bytes : List ℕ) → AreBytes bytes → urlsafe_b64decode (b64url_encode bytes) ≡ some bytes
unfolding urlsafe_b64decode
urlsafe_b64decode-b64url_encode bytes h = rw (encoded_is_ascii bytes h, scan-b64url_encode bytes h)
