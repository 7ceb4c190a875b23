-- ===== src/Common/Errors.antt =====
-- The texts of Go's errors: internal/github/handlers.go (ignoreEvent), internal/analyser/analyser.go
-- (NonZeroError) and the errors package's wrapping.
use Prim.Native.Nat.{suc}
use mathlib.Core.List.{List, ◌++◌}
use gopherci.Common.Text.{Bytes, lit, itoa, join}
use gopherci.Common.Effect.{
  ℤ, pos, negsuc, Error, message, wrap, non_zero, ignore_event, IgnoreReason, unknown_event,
  invalid_action, no_action, no_installation, no_go_files, private_repos, pr_inaccessible,
}

-- `%d` on a signed number.
unfoldable pub itoa_signed : ℤ → Bytes
itoa_signed (pos n) = itoa n
itoa_signed (negsuc n) = lit "-" ++ itoa (suc n)

-- `%v` on a slice of strings.
unfoldable pub show_args : List Bytes → Bytes
show_args args = lit "[" ++ (join (lit " ") args ++ lit "]")

-- `(*ignoreEvent).Error`
unfoldable pub ignore_text : IgnoreReason → Bytes → Bytes
ignore_text unknown_event extra = lit "unknown event"
ignore_text invalid_action extra = lit "invalid action: " ++ extra
ignore_text no_action extra = lit "no action"
ignore_text no_installation extra = lit "no enabled installation found"
ignore_text no_go_files extra = lit "no go files affected"
ignore_text private_repos extra = lit "private repositories are not yet supported"
ignore_text pr_inaccessible extra = lit "pull request is inaccessible: " ++ extra

-- `(*NonZeroError).Error`
unfoldable pub non_zero_text : List Bytes → ℤ → Bytes
non_zero_text args code = show_args args ++ (lit " returned exit code " ++ itoa_signed code)

-- `err.Error()`
unfoldable pub error_text : Error → Bytes
error_text (message m) = m
error_text (wrap e m) = m ++ (lit ": " ++ error_text e)
error_text (non_zero args code) = non_zero_text args code
error_text (ignore_event reason extra) = ignore_text reason extra
