-- ===== src/Tests/Sql.antt =====
-- internal/db/sqldb.go and db.go: a small database that keeps what the statements write.
use mathlib.Core.List.Perm
use gopherci.Common.{
  ◌/◌, ℕ, suc, ◌+◌, ◌*◌, ltb, err, message, ◌≡◌, List, [], ◌∷◌, none, some, Bytes, Result, ok,
  nat_eq, arith, if◌then◌else◌,
}
use gopherci.Db.{Issue, AnalysisTool, Analysis, new_analysis}
use gopherci.Db.Duration.{scan_duration, second}
use gopherci.Db.Duration.Reading.{scan_duration-time_text, time_text}
use gopherci.Db.Sql.{Sql, Stmt, insert_issue}
use gopherci.Db.Sql.Cleanup.{
  cleanup, cleanup_lem, ticked, done, comes_done, deletions, ticks_before_done,
}
use gopherci.Db.Sql.Tables.{joined}

-- A number that no id in the history exceeds.
abbrev bound : List Stmt → ℕ
bound [] = 0
bound (insert_issue ta _ _ _ _ ∷ h) = suc (ta + bound h)
bound (_ ∷ h) = suc (bound h)

abbrev new_id : List Stmt → Stmt → Result (Result ℕ)
new_id h s = ok (ok (suc (bound h)))

abbrev names : ℕ → Bytes × Bytes
names k = (k ∷ [], [])

-- A duration rounded to milliseconds.
abbrev rounded : ℕ → ℕ
rounded d = (d + 500000) / 1000000 * 1000000

abbrev keeping : Sql
keeping = record {
  exec = new_id;
  installation_row = λ h id. ok none;
  tool_rows = λ h. ok [];
  analysis_row = λ h id. ok (some (record new_analysis { id = id }));
  tool_issue_rows = λ h id. ok (joined new_id rounded names id h);
  output_rows = λ h id. ok [];
  range = λ h tools. tools;
}

abbrev issue : ℕ → Issue
issue n = record { id = 0; path = 97 ∷ []; line = n; hunk_pos = 4; issue = 98 ∷ [] }

abbrev run : List Issue → AnalysisTool
run issues = record { tool = none; tool_id = 0; duration = 2600000; issues = issues }

abbrev finished : Analysis
finished = record new_analysis { tools = (1, run (issue 3 ∷ issue 5 ∷ [])) ∷ (2, run []) ∷ [] }

scan_duration-time_text_example : scan_duration message 0 (some (time_text 1 2 3 45)) ≡ (
    if ltb 1 24
    then ok ((1 * 3600 + 2 * 60 + 3) * second + 45 * 1000000)
    else err (message (time_text 1 2 3 45)))
scan_duration-time_text_example =
    scan_duration-time_text message 0 1 2 3 45 (omega arith) (omega arith) (omega arith)
      (omega arith)

cleanup_lem_example : cleanup keeping (ticked ∷ ticked ∷ done ∷ []) [] ≡ (
  ok (comes_done (ticked ∷ ticked ∷ done ∷ [])),
  deletions (ticks_before_done (ticked ∷ ticked ∷ done ∷ [])) [],
)
cleanup_lem_example =
    cleanup_lem keeping (ticked ∷ ticked ∷ done ∷ []) [] (λ h s text q. ground arith)
