-- ===== src/Db/Sql/Tables/Loaded.antt =====
-- internal/db/sqldb.go: what `GetAnalysis` gets back of what `FinishAnalysis` stored.
use mathlib.Core.List.{Perm}
use mathlib.Core.List.Perm
use gopherci.Common.{
  ℕ, ◌≤◌, ◌<◌, ◌+◌, ◌≡◌, Bool, List, [], ◌∷◌, Option, none, some, nat_beq, nat_eq, lookup,
}
use gopherci.Db.{AnalysisTool, Tools, Analysis, AnalysisStatus, status_text}
use gopherci.Db.Rows.{ToolIssueRow}
use gopherci.Db.Sql.{Sql, Stmt, update_finished}
use gopherci.Db.Sql.Writes.{issue_rows}
use gopherci.Db.Sql.Tables.{millisecond, day}
use gopherci.Db.Sql.Tables.Stored.{Block}

-- A map visited by `range`: each key once.
abbrev pub Distinct : Tools → Type 0
Distinct [] = Unit {0}
Distinct ((k, _) ∷ tools) = (lookup k tools ≡ none) × Distinct tools

-- An entry as it is loaded: the tool's duration to the millisecond, and its issues in some order;
-- ids aside, which the database gives.
abbrev pub IsLoaded : Option AnalysisTool → Option AnalysisTool → Type 0
IsLoaded none o = o ≡ none
IsLoaded (some t) o =
    (entry : AnalysisTool) × (o ≡ some entry)
    × (entry.duration ≤ t.duration + millisecond)
    × (t.duration ≤ entry.duration + millisecond)
    × Perm (issue_rows entry.issues) (issue_rows t.issues)

-- The first statement of `FinishAnalysis`.
abbrev pub update_of : ℕ → AnalysisStatus → Analysis → Stmt
update_of id status a =
    update_finished (status_text status) a.clone_duration a.deps_duration a.total_duration id

abbrev row_of : ℕ → ToolIssueRow → Bool
row_of j row = nat_beq row.tool_id j

-- The rows of a tool, among those that `FinishAnalysis` left.
abbrev IsStored : (ℕ → ℕ) → Option AnalysisTool → List ToolIssueRow → Type 0
IsStored column none rows = rows ≡ []
IsStored column (some t) rows =
    (t.duration < day) × (k : ℕ) × Block k (column t.duration) t.issues rows
