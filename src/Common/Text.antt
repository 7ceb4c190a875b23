-- ===== src/Common/Text.antt =====
-- Go strings and byte slices, as lists of bytes, and the parts of Go's `strings`, `bytes` and
-- `fmt` packages that the program uses.
use Prim.Native.Char.{code}
use Prim.Native.Nat.{ℕ, zero, suc, ◌+◌, ◌-◌, ◌/◌, ◌%◌}
use Prim.Native.String.{String}
use mathlib.Core.Path.{◌≡◌, ◌∙◌, refl, sym, ap}
use mathlib.Core.Bool.{Bool, true, false, ◌&&◌, ◌||◌}
use mathlib.Core.List.{List, [], ◌∷◌, ◌++◌, reverse}
use native.Mathlib.Omega.{arith}
use gopherci.Common.Tests.{bytes_beq_iff, ◌==◌, nat_eq, bytes_eq, ltb, leb, if◌then◌else◌}
use gopherci.Common.Lists.{length, drop, take, take-append-drop}

abbrev pub Bytes : Type 0
Bytes = List ℕ

-- The UTF-8 bytes of a code point.
abbrev utf8 : ℕ → Bytes
utf8 c =
    if ltb c 0x80
    then c ∷ []
    else if ltb c 0x800
    then (0xc0 + c / 64) ∷ (0x80 + c % 64) ∷ []
    else if ltb c 0x10000
    then (0xe0 + c / 4096) ∷ (0x80 + c / 64 % 64) ∷ (0x80 + c % 64) ∷ []
    else (0xf0 + c / 262144) ∷ (0x80 + c / 4096 % 64) ∷ (0x80 + c / 64 % 64) ∷ (0x80 + c % 64) ∷ []

-- A string literal of the source.
unfoldable pub lit : String → Bytes
lit String.[] = []
lit (String.◌∷◌ c s) = utf8 (code c) ++ lit s

-- `%d` and `strconv.Itoa` on a number that is not negative; fuel n + 1 covers all digits of n.
itoa_from : ℕ → ℕ → Bytes → Bytes
itoa_from zero n acc = acc
itoa_from (suc f) n acc =
    let digits = (b'0' + n % 10) ∷ acc in
    let rest = itoa_from f (n / 10) digits in if n / 10 == 0 then digits else rest

unfoldable pub itoa : ℕ → Bytes
unfolding itoa_from
itoa n = itoa_from (suc n) n []

-- `strings.HasPrefix`
unfoldable pub has_prefix : Bytes → Bytes → Bool
has_prefix s [] = true
has_prefix [] (b ∷ p) = false
has_prefix (a ∷ s) (b ∷ p) = a == b && has_prefix s p

-- `strings.HasSuffix`: len(s) >= len(suffix) && s[len(s)-len(suffix):] == suffix
unfoldable pub has_suffix : Bytes → Bytes → Bool
has_suffix s suffix = leb (length suffix) (length s) && drop (length s - length suffix) s == suffix

-- `unicode.IsSpace` on the UTF-8 bytes of a rune: of one byte, of two (U+0085 and U+00A0), and of
-- three (U+1680, U+2000 to U+200A, U+2028, U+2029, U+202F, U+205F and U+3000).
unfoldable pub is_space : ℕ → Bool
is_space a = a == 32 || (leb 9 a && leb a 13)

is_space2 : ℕ → ℕ → Bool
is_space2 a b = a == 0xc2 && (b == 0x85 || b == 0xa0)

is_space3 : ℕ → ℕ → ℕ → Bool
is_space3 a b c =
    (a == 0xe1 && (b == 0x9a && c == 0x80))
    || ((a == 0xe2
          && ((b == 0x80 && ((leb 0x80 c && leb c 0x8a) || (c == 0xa8 || (c == 0xa9 || c == 0xaf))))
              || (b == 0x81 && c == 0x9f)))
        || (a == 0xe3 && (b == 0x80 && c == 0x80)))

-- How many of the first bytes are a rune of white space, by the tests for two and three bytes.
width_by : (ℕ → ℕ → Bool) → (ℕ → ℕ → ℕ → Bool) → Bytes → ℕ
width_by two three [] = 0
width_by two three (a ∷ []) = if is_space a then 1 else 0
width_by two three (a ∷ b ∷ []) = if is_space a then 1 else (if two a b then 2 else 0)
width_by two three (a ∷ b ∷ c ∷ s) =
    if is_space a then 1 else (if two a b then 2 else (if three a b c then 3 else 0))

abbrev space_width : Bytes → ℕ
space_width = width_by is_space2 is_space3

-- The same of a text read backwards.
abbrev last_space_width : Bytes → ℕ
last_space_width = width_by (λ a b. is_space2 b a) (λ a b c. is_space3 c b a)

-- The text without the white space that it starts with, and without the rest of a rune before it.
trim_by : (Bytes → ℕ) → (rest : ℕ) → Bytes → Bytes
trim_by width rest [] = []
trim_by width (suc rest) (c ∷ s) = trim_by width rest s
trim_by width zero (c ∷ s) = elim (width (c ∷ s)) [ zero ↦ c ∷ s | suc rest ↦ trim_by width rest s ]

-- `bytes.TrimRightFunc(s, unicode.IsSpace)`
unfoldable pub trim_right : Bytes → Bytes
unfolding trim_by width_by is_space is_space2 is_space3
trim_right s = reverse (trim_by last_space_width 0 (reverse s))

-- `bytes.TrimSpace`
unfoldable pub trim_space : Bytes → Bytes
unfolding trim_right
trim_space s = trim_right (trim_by space_width 0 s)

-- `strings.Fields`: the words between runs of white space; `word` is the one being read, and `rest`
-- counts the bytes to come of a rune of white space.
fields_from : (rest : ℕ) → Bytes → Bytes → List Bytes
fields_from rest word [] = if length word == 0 then [] else word ∷ []
fields_from (suc rest) word (c ∷ s) = fields_from rest word s
fields_from zero word (c ∷ s) = elim (space_width (c ∷ s)) [
  | zero ↦ fields_from 0 (word ++ (c ∷ [])) s
  | suc rest ↦ let words = fields_from rest [] s in if length word == 0 then words else word ∷ words
]

unfoldable pub fields : Bytes → List Bytes
unfolding fields_from width_by is_space is_space2 is_space3
fields s = fields_from 0 [] s

-- `strings.Join(words, sep)`
unfoldable pub join : Bytes → List Bytes → Bytes
join sep [] = []
join sep (w ∷ []) = w
join sep (w ∷ v ∷ ws) = w ++ sep ++ join sep (v ∷ ws)

pub has_prefix-append : (p s : Bytes) → has_prefix (p ++ s) p ≡ true
unfolding has_prefix
has_prefix-append [] s = refl
has_prefix-append (c ∷ p) s = ground (arith, has_prefix-append p s)

-- A prefix is exactly a first part.
pub has_prefix-split : (s p : Bytes) → has_prefix s p ≡ true → (rest : Bytes) × (s ≡ p ++ rest)
unfolding has_prefix
has_prefix-split s [] h = (s, refl)
has_prefix-split [] (b ∷ p) h = ground arith
has_prefix-split (a ∷ s) (b ∷ p) h =
    let (rest, e) = has_prefix-split s p (ground arith) in (rest, ground arith)

-- A suffix is exactly a last part.
pub has_suffix-split : (s p : Bytes) → has_suffix s p ≡ true → (rest : Bytes) × (s ≡ rest ++ p)
unfolding has_suffix
has_suffix-split s p h =
    let n = length s - length p in
    let e : drop n s ≡ p = (bytes_beq_iff (drop n s) p).0 (ground arith) in
    (take n s, sym (take-append-drop n s) ∙ ap (λ l. take n s ++ l) e)
