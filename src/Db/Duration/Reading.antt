-- ===== src/Db/Duration/Reading.antt =====
-- internal/db/db.go: what `Duration.Scan` reads from the text of a TIME column.
use gopherci.Common.{
  ltb, Bool-cases, inl, inr, if◌then◌else◌, Bool, true, false, ℕ, ◌+◌, ◌*◌, ◌/◌, ◌%◌, ◌<◌, ◌≡◌,
  refl, [], ◌∷◌, ◌++◌, some, Bytes, ok, err, Error, arith,
}
use gopherci.Db.Duration.{scan_duration, parse_time, get_num, skip_colon, fraction, second}

abbrev pub two_digits : ℕ → Bytes
two_digits n = (48 + n / 10) ∷ (48 + n % 10) ∷ []

-- The text that the database gives for a column TIME(3): "hh:mm:ss.fff", from milliseconds.
abbrev pub time_text : (hours minutes seconds millis : ℕ) → Bytes
time_text hours minutes seconds millis =
    two_digits hours
    ++ (58
        ∷ (two_digits minutes
            ++ (58
                ∷ (two_digits seconds
                    ++ (46
                        ∷ (48 + millis / 100)
                        ∷ (48 + millis / 10 % 10)
                        ∷ (48 + millis % 10)
                        ∷ [])))))

get_num-two_digits :
    (fixed : Bool) (n : ℕ) (rest : Bytes)
    → n < 100
    → get_num fixed (two_digits n ++ rest) ≡ some (n, rest)
unfolding get_num
get_num-two_digits fixed n rest h = ground arith

fraction-millis :
    (m : ℕ)
    → m < 1000
    → fraction (46 ∷ (48 + m / 100) ∷ (48 + m / 10 % 10) ∷ (48 + m % 10) ∷ []) ≡ (m * 1000000, [])
unfolding fraction
fraction-millis m h = ground arith

below : (a b : ℕ) → a < b → ltb a b ≡ true
below a b h = ground arith

-- A duration that the database stores with milliseconds is read back exactly if it is shorter than
-- a day; from 24 hours on (up to 99, while the text has two digits for them) its reading is an
-- error, the one of `time.Parse`. What the variable held before is of no consequence.
pub scan_duration-time_text :
    (parse_error : Bytes → Error) (d hours minutes seconds millis : ℕ)
    → hours < 100
    → minutes < 60
    → seconds < 60
    → millis < 1000
    → let text = time_text hours minutes seconds millis in
      scan_duration parse_error d (some text) ≡ (
        if ltb hours 24
        then ok ((hours * 3600 + minutes * 60 + seconds) * second + millis * 1000000)
        else err (parse_error text))
unfolding scan_duration skip_colon parse_time
scan_duration-time_text e d h m s ms h_ok m_ok s_ok ms_ok =
    let frac : Bytes = 46 ∷ (48 + ms / 100) ∷ (48 + ms / 10 % 10) ∷ (48 + ms % 10) ∷ [] in
    let sec : Bytes = 58 ∷ (two_digits s ++ frac) in
    let min : Bytes = 58 ∷ (two_digits m ++ sec) in
    elim (Bool-cases (ltb h 24)) [
      | inl early ↦
          rw
            (
              get_num-two_digits false h min h_ok,
              early,
              get_num-two_digits true m sec (omega arith),
              below m 60 m_ok,
              get_num-two_digits true s frac (omega arith),
              below s 60 s_ok,
              fraction-millis ms ms_ok,
            )
            refl
      | inr late ↦ rw (get_num-two_digits false h min h_ok, late) refl
    ]
