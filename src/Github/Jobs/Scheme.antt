-- ===== src/Github/Jobs/Scheme.antt =====
-- internal/github/handlers.go: `stripScheme`.
use gopherci.Common.{ℕ, true, ◌≡◌, refl, [], ◌∷◌, ◌++◌, Bytes, bytes_beq, has_prefix}
use mathlib.Core.List.{append-nil, append_assoc}
use gopherci.Github.Jobs.{is_scheme_char, separator, strip_from, strip_scheme}

-- Characters of the class only.
abbrev pub IsScheme : Bytes → Type 0
IsScheme [] = Unit
IsScheme (c ∷ s) = (is_scheme_char c ≡ true) × IsScheme s

-- A run of the class is collected.
strip_from-append :
    (scheme run s : Bytes)
    → IsScheme scheme
    → strip_from 0 run (scheme ++ s) ≡ strip_from 0 (run ++ scheme) s
unfolding strip_from
strip_from-append [] run s scheme = rw (append-nil run) refl
strip_from-append (c ∷ cs) run s (first, scheme) =
    rw (first, strip_from-append cs (run ++ (c ∷ [])) s scheme, append_assoc run (c ∷ []) cs) refl

dropped :
    (c : ℕ) (scheme rest : Bytes)
    → strip_from 0 (c ∷ scheme) (separator ++ rest) ≡ strip_from 0 [] rest
unfolding strip_from is_scheme_char bytes_beq has_prefix
dropped c scheme rest = refl

-- Of a URL with a scheme that is not empty and has only characters of the class, the scheme and the
-- "://" are dropped, and the rest is treated alike.
pub strip_scheme-append :
    (c : ℕ) (scheme rest : Bytes)
    → IsScheme (c ∷ scheme)
    → strip_scheme ((c ∷ scheme) ++ (separator ++ rest)) ≡ strip_scheme rest
unfolding strip_scheme
strip_scheme-append c scheme rest valid =
    rw (strip_from-append (c ∷ scheme) [] (separator ++ rest) valid) (dropped c scheme rest)
