-- ===== src/Analyser/Suppress.antt =====
-- internal/analyser/reporter.go
use mathlib.Core.List.{append-nil}
use gopherci.Common.{
  ℕ, ◌-◌, ◌≤◌, ◌≡◌, ◌⊎◌, refl, List, [], ◌++◌, ltb, if◌then◌else◌, length, take, drop, arith,
  take-append-drop, length-take, length-drop, Bool-cases, inl, inr, sym,
}
use gopherci.Db.{Issue}

abbrev pub max_issue_comments : ℕ
max_issue_comments = 10

unfoldable pub suppress : List Issue → ℕ → ℕ × List Issue
suppress issues max =
    if ltb max (length issues) then (length issues - max, take max issues) else (0, issues)

-- The issues that are kept are a first part of the given ones, never more than the maximum; the
-- count is the number of issues left out, and some are left out only if the maximum is reached.
pub suppress_parts :
    (issues : List Issue) (max : ℕ)
    → (dropped : List Issue) × (issues ≡ (suppress issues max).1 ++ dropped)
      × ((suppress issues max).0 ≡ length dropped)
      × (length (suppress issues max).1 ≤ max)
      × ((dropped ≡ []) ⊎ (length (suppress issues max).1 ≡ max))
unfolding suppress
suppress_parts issues max = elim (Bool-cases (ltb max (length issues))) [
  | inl more ↦ rw more (
    drop max issues,
    sym (take-append-drop max issues),
    sym (length-drop max issues),
    omega (arith, length-take max issues),
    inr (ground (arith, length-take max issues)),
  )
  | inr few ↦ rw few ([], sym (append-nil issues), refl, ground arith, inl refl)
]
