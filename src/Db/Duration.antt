-- ===== src/Db/Duration.antt =====
-- internal/db/db.go: `Duration`, a number of nanoseconds, as a column of type TIME. A negative
-- duration is never stored. Go's floats, and the text of an error of `time.Parse`, are parameters.
pub mod Reading
use gopherci.Common.{
  ℕ, zero, suc, ◌+◌, ◌-◌, ◌*◌, ◌^◌, Bool, true, false, not, ◌&&◌, List, [], ◌∷◌, Option, none, some,
  Bytes, Result, ok, err, Error, if◌then◌else◌, ◌==◌, nat_eq, ltb, leb,
}

-- `time.Second`
abbrev pub second : ℕ
second = 1000000000

-- float64, as far as `Value` uses it.
pub record Floats : Type 1 where
  pub Float : Type 0
  pub of_int : ℕ → Float
  pub divide : Float → Float → Float

-- `Value`: float64(d) / float64(time.Second)
unfoldable pub value : (f : Floats) → ℕ → f.Float
value f d = f.divide (f.of_int d) (f.of_int second)

abbrev pub is_digit : ℕ → Bool
is_digit c = leb b'0' c && leb c b'9'

infixl 5 ◌>>=◌
abbrev ◌>>=◌ : {A B : Type 0} → Option A → (A → Option B) → Option B
none >>= f = none
some a >>= f = f a

abbrev guard : Bool → Option (Unit {0})
guard true = some tt
guard false = none

-- `getnum` of package time: one or two digits, or exactly two if `fixed`, and the rest.
unfoldable pub get_num : (fixed : Bool) → Bytes → Option (ℕ × Bytes)
get_num fixed [] = none
get_num fixed (a ∷ []) = if is_digit a && not fixed then some (a - b'0', []) else none
get_num fixed (a ∷ b ∷ s) =
    if not (is_digit a)
    then none
    else if is_digit b
    then some ((a - b'0') * 10 + (b - b'0'), s)
    else if fixed
    then none
    else some (a - b'0', b ∷ s)

-- `skip` of a colon.
unfoldable pub skip_colon : Bytes → Option Bytes
skip_colon [] = none
skip_colon (c ∷ s) = if c == b':' then some s else none

-- The digits after the point, of which `left` more are read; what is missing counts as zeros.
unfoldable pub fraction_digits : (left acc : ℕ) → Bytes → ℕ × Bytes
fraction_digits zero acc s = (acc, s)
fraction_digits (suc left) acc [] = (acc * 10 ^ suc left, [])
fraction_digits (suc left) acc (c ∷ s) =
    let next = fraction_digits left (acc * 10 + (c - b'0')) s in
    if is_digit c then next else (acc * 10 ^ suc left, c ∷ s)

-- `.999999999`: a fraction of a second, in nanoseconds, or nothing if no point and digit follow.
unfoldable pub fraction : Bytes → ℕ × Bytes
unfolding fraction_digits
fraction (p ∷ c ∷ s) =
    if p == b'.' && is_digit c then fraction_digits 9 0 (c ∷ s) else (0, p ∷ c ∷ s)
fraction s = (0, s)

abbrev is_empty : Bytes → Bool
is_empty [] = true
is_empty (_ ∷ _) = false

-- `time.Parse("15:04:05.999999999", s)`, as the nanoseconds since midnight.
unfoldable pub parse_time : Bytes → Option ℕ
unfolding get_num skip_colon fraction
parse_time s = get_num false s >>= λ (hour, s₁). guard (ltb hour 24) >>= λ _.
    skip_colon s₁ >>= λ s₂. get_num true s₂ >>= λ (min, s₃). guard (ltb min 60) >>= λ _.
    skip_colon s₃ >>= λ s₄. get_num true s₄ >>= λ (sec, s₅). guard (ltb sec 60) >>= λ _.
    let (nanos, rest) = fraction s₅ in
    guard (is_empty rest) >>= λ _. some ((hour * 3600 + min * 60 + sec) * second + nanos)

abbrev scanned : Error → Option ℕ → Result ℕ
scanned e none = err e
scanned e (some d) = ok d

-- `Scan` on a variable that holds `d`; a column is NULL or the bytes of its text.
unfoldable pub scan_duration : (parse_error : Bytes → Error) → ℕ → Option Bytes → Result ℕ
scan_duration parse_error d none = ok d
scan_duration parse_error d (some s) = scanned (parse_error s) (parse_time s)
