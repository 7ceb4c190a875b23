-- ===== src/Tests/Web.antt =====
-- internal/web on a small diff.
use mathlib.Core.List.{Perm}
use gopherci.Common.{ℕ, ◌≡◌, refl, ◌+◌, true, not, List, [], ◌∷◌, Bytes, ok, All, select, bytes_beq}
use gopherci.Db.{Issue}
use gopherci.Web.Diff.{
  FileDiff, Line, change_add, change_remove, change_none, scan_hunk, done, is_empty, diff_issues,
  drop_cr, change_of,
}
use gopherci.Web.Diff.Shown.{scan_hunk-perm, shown, within, kept}
use gopherci.Web.Diff.Returned.{diff_issues-ShowsIssues, Returns, PatchShowsIssues}

abbrev path : Bytes
path = 97 ∷ []

abbrev issue : ℕ → Issue
issue n = record { id = 0; path = path; line = n; hunk_pos = 0; issue = [] }

-- The lines "-x", "+y" and " z".
abbrev raws : List Bytes
raws = (45 ∷ 120 ∷ []) ∷ (43 ∷ 121 ∷ []) ∷ (32 ∷ 122 ∷ []) ∷ []

abbrev lines : List Line
lines =
    record { line = 120 ∷ []; change_type = change_remove; line_no = 5; issues = [] }
    ∷ record { line = 121 ∷ []; change_type = change_add; line_no = 5; issues = issue 5 ∷ [] }
    ∷ record { line = 122 ∷ []; change_type = change_none; line_no = 6; issues = [] }
    ∷ []

abbrev issues : List Issue
issues = issue 5 ∷ issue 9 ∷ []

scanned : scan_hunk (λ s. s) path issues [] 5 raws ≡ done (true, lines)
unfolding scan_hunk change_of drop_cr bytes_beq select
scanned = refl

scan_hunk-perm_example :
    Perm (shown lines) (select (within path 5 (5 + kept lines)) issues)
    × (true ≡ not (is_empty (shown lines)))
scan_hunk-perm_example = scan_hunk-perm (λ s. s) path issues [] 5 raws true lines scanned

abbrev file : FileDiff
file = record {
  new_name = 98 ∷ 47 ∷ 97 ∷ [];
  hunks =
      record {
        orig_start_line = 5;
        orig_lines = 2;
        new_start_line = 5;
        new_lines = 2;
        body = 45 ∷ 120 ∷ 10 ∷ 43 ∷ 121 ∷ 10 ∷ 32 ∷ 122 ∷ [];
      }
      ∷ [];
}

diff_issues-ShowsIssues_example :
    Returns (All PatchShowsIssues) (diff_issues (λ _. ok (file ∷ [])) (λ s. s) (ok []) issues)
diff_issues-ShowsIssues_example =
    diff_issues-ShowsIssues (λ s. s) issues (λ _. ok (file ∷ [])) (ok [])
