-- ===== src/Tests/Db.antt =====
-- internal/db on small databases and texts.
use gopherci.Common.{
  ◌⊎◌, ◌<◌, bytes_beq, nat_eq, ℕ, ◌≡◌, refl, true, List, [], ◌∷◌, ◌++◌, Option, none, some, Bytes,
  lit, ok, err, message, length, lookup, arith, if◌then◌else◌, select, nat_beq, ◌≤◌, ◌+◌, ◌-◌, ◌/◌,
  trim_right,
}
use gopherci.Db.{Issue, AnalysisTool, Analysis, new_analysis, success, issues_of}
use gopherci.Db.Recording.{trim, output_row, stored_output, placeholder, is_git_diff}
use gopherci.Db.Recording.Trim.{trim_parts, output_row_bound, output_row_git_diff}
use gopherci.Db.Rows.{ToolIssueRow, group}
use gopherci.Db.Rows.Grouping.{lookup-group, gathered}
use gopherci.Db.Sql.{Sql, finish_analysis, start_analysis}
use gopherci.Db.Sql.Writes.{finish_analysis-Wrote, Reliable, Wrote, issue_rows, tool_rows}
use gopherci.Db.Sql.Failures.{
  finish_analysis-StopsAtFailure, start_analysis-StopsAtFailure, StopsAtFailure,
}

abbrev ten_bytes : Bytes
ten_bytes = 48 ∷ 49 ∷ 50 ∷ 51 ∷ 52 ∷ 53 ∷ 54 ∷ 55 ∷ 56 ∷ 57 ∷ []

trim_parts_example :
    (head : Bytes) × (middle : Bytes) × (tail : Bytes) × (ten_bytes ≡ head ++ (middle ++ tail))
    × (trim ten_bytes 4 ≡ head ++ (placeholder (length middle) ++ tail))
    × (length head ≡ 4 / 2)
    × (length tail ≡ 4 / 2)
trim_parts_example = trim_parts ten_bytes 4 (omega arith) refl

abbrev git_diff : List Bytes
git_diff = lit "git" ∷ lit "diff" ∷ []

output_row_bound_example :
    let text = stored_output git_diff ten_bytes in
    let stored = (output_row 1 git_diff 0 ten_bytes).output in
    ((length text ≤ 10240) × (stored ≡ text))
    ⊎ ((10240 < length text) × (length stored ≡ 10240 + length (placeholder (length text - 10240))))
output_row_bound_example = output_row_bound 1 git_diff 0 ten_bytes

git_diff_is : is_git_diff git_diff ≡ true
unfolding is_git_diff lit bytes_beq
git_diff_is = refl

same_length : length (trim_right (1 ∷ 2 ∷ [])) ≡ length (trim_right (3 ∷ 4 ∷ []))
unfolding trim_right
same_length = refl

output_row_git_diff_example :
    output_row 1 git_diff 0 (1 ∷ 2 ∷ []) ≡ output_row 1 git_diff 0 (3 ∷ 4 ∷ [])
output_row_git_diff_example =
    output_row_git_diff 1 git_diff 0 (1 ∷ 2 ∷ []) (3 ∷ 4 ∷ []) git_diff_is same_length

abbrev row_of : ℕ → Option ℕ → ToolIssueRow
row_of id line_id = record {
  tool_id = id;
  name = [];
  url = [];
  duration = 5;
  line_id = line_id;
  path = some (97 ∷ []);
  line = some 3;
  hunk_pos = some 4;
  issue = some (98 ∷ []);
}

abbrev rows : List ToolIssueRow
rows = row_of 1 (some 10) ∷ row_of 2 none ∷ row_of 1 (some 11) ∷ []

lookup-group_example :
    lookup 1 (group [] rows) ≡ gathered (select (λ row. nat_beq row.tool_id 1) rows)
lookup-group_example = lookup-group 1 rows

-- A database whose statements all succeed, with the map visited as it is.
abbrev sql : Sql
sql = record {
  exec = λ h s. ok (ok (length h));
  installation_row = λ h i. ok none;
  tool_rows = λ h. ok [];
  analysis_row = λ h i. ok none;
  tool_issue_rows = λ h i. ok [];
  output_rows = λ h i. ok [];
  range = λ h tools. tools;
}

abbrev issue : Issue
issue = record { id = 0; path = 97 ∷ []; line = 3; hunk_pos = 4; issue = 98 ∷ [] }

abbrev tool_run : AnalysisTool
tool_run = record { tool = none; tool_id = 0; duration = 2; issues = issue ∷ [] }

abbrev analysis : Analysis
analysis = record new_analysis { tools = (1, tool_run) ∷ (2, record tool_run { issues = [] }) ∷ [] }

sql-Reliable : Reliable sql
sql-Reliable h s = (length h, refl)

finish_analysis-Wrote_example :
    Wrote []
      (issue_rows (issues_of analysis.tools))
      (tool_rows analysis.tools)
      (finish_analysis sql 1 success (some analysis) [])
finish_analysis-Wrote_example = finish_analysis-Wrote sql sql-Reliable 1 success analysis []

-- A database whose second statement fails.
abbrev failing_sql : Sql
failing_sql = record sql {
  exec = λ h s. if nat_beq (length h) 1 then ok (err (message [])) else ok (ok 1);
}

finish_analysis-StopsAtFailure_example :
    StopsAtFailure failing_sql [] (finish_analysis failing_sql 1 success (some analysis) [])
finish_analysis-StopsAtFailure_example =
    finish_analysis-StopsAtFailure failing_sql 1 success (some analysis) []

start_analysis-StopsAtFailure_example :
    StopsAtFailure failing_sql [] (start_analysis failing_sql 1 2 [] [] 5 [])
start_analysis-StopsAtFailure_example = start_analysis-StopsAtFailure failing_sql 1 2 [] [] 5 []

-- A no-break space and a newline at the end of "a".
trimmed : trim_right (97 ∷ 0xc2 ∷ 0xa0 ∷ 10 ∷ []) ≡ 97 ∷ []
unfolding trim_right
trimmed = refl

-- An "é" is no white space.
kept : trim_right (0xc3 ∷ 0xa9 ∷ []) ≡ 0xc3 ∷ 0xa9 ∷ []
unfolding trim_right
kept = refl
