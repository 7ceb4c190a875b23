-- ===== src/Db/Sql/Tables.antt =====
-- internal/db/sqldb.go: the tables that the statements of `FinishAnalysis` fill, and the join that
-- `GetAnalysis` selects, as MySQL documents them and migrations/ declares the keys. `exec` gives
-- the results of the statements, `column` what a TIME(3) column gives back of a duration, and
-- `names` the rows of the table of tools.
pub mod Stored
pub mod Loaded
use mathlib.Core.List.{Perm}
use gopherci.Common.{
  ℕ, ◌≡◌, Bool, false, List, [], ◌∷◌, ◌++◌, Option, none, some, Bytes, Result, ok, if◌then◌else◌,
  nat_beq, All, ◌*◌, ◌+◌, ◌<◌, ◌≤◌,
}
use gopherci.Db.Rows.{ToolIssueRow}
use gopherci.Db.Sql.{Sql, Stmt, insert_tool, insert_issue}
use gopherci.Db.Sql.Writes.{IssueRow}

-- A row of analysis_tool.
pub record ToolRow : Type 0 where
  pub id : ℕ
  pub analysis_id : ℕ
  pub tool_id : ℕ
  pub duration : ℕ

-- The row that an INSERT adds, if it did not fail.
abbrev pub inserted : {A : Type 0} → (ℕ → A) → Result (Result ℕ) → List A
inserted row (ok (ok id)) = row id ∷ []
inserted row (ok _) = row 0 ∷ []
inserted row _ = []

abbrev pub flat : {A B : Type 0} → (A → List B) → List A → List B
flat f [] = []
flat f (x ∷ xs) = f x ++ flat f xs

-- A TIME column holds milliseconds and is scanned below 24 hours.
abbrev pub millisecond : ℕ
millisecond = 1000000

abbrev pub day : ℕ
day = 86400000 * millisecond

module _ (exec : List Stmt → Stmt → Result (Result ℕ)) (column : ℕ → ℕ) where
  abbrev pub tool_table : List Stmt → List ToolRow
  tool_table [] = []
  tool_table (insert_tool a t d ∷ h) =
      tool_table h
      ++ inserted (λ id. record { id = id; analysis_id = a; tool_id = t; duration = column d })
          (exec h (insert_tool a t d))
  tool_table (_ ∷ h) = tool_table h

-- The issues of a row of analysis_tool, with their ids.
module _ (exec : List Stmt → Stmt → Result (Result ℕ)) where
  abbrev pub issues_for : ℕ → List Stmt → List (ℕ × IssueRow)
  issues_for k [] = []
  issues_for k (insert_issue ta path line hunk_pos text ∷ h) =
      issues_for k h
      ++ (if nat_beq ta k
          then inserted (λ id. (id, (path, line, hunk_pos, text)))
              (exec h (insert_issue ta path line hunk_pos text))
          else [])
  issues_for k (_ ∷ h) = issues_for k h

module _ (names : ℕ → Bytes × Bytes) where
  abbrev pub joined_row : ToolRow → Option (ℕ × IssueRow) → ToolIssueRow
  joined_row r none = record {
    tool_id = r.tool_id;
    name = (names r.tool_id).0;
    url = (names r.tool_id).1;
    duration = r.duration;
    line_id = none;
    path = none;
    line = none;
    hunk_pos = none;
    issue = none;
  }
  joined_row r (some (id, (path, line, hunk_pos, text))) = record {
    tool_id = r.tool_id;
    name = (names r.tool_id).0;
    url = (names r.tool_id).1;
    duration = r.duration;
    line_id = some id;
    path = some path;
    line = some line;
    hunk_pos = some hunk_pos;
    issue = some text;
  }

  -- LEFT JOIN: a row without issues stands once, with NULLs.
  abbrev pub left_join : ToolRow → List (ℕ × IssueRow) → List ToolIssueRow
  left_join r [] = joined_row r none ∷ []
  left_join r (i ∷ is) = joined_row r (some i) ∷ flat (λ x. joined_row r (some x) ∷ []) is

module _ (exec : List Stmt → Stmt → Result (Result ℕ)) (column : ℕ → ℕ)
    (names : ℕ → Bytes × Bytes) where
  abbrev pub rows_for : ℕ → List Stmt → ToolRow → List ToolIssueRow
  rows_for id h r =
      if nat_beq r.analysis_id id then left_join names r (issues_for exec r.id h) else []

  abbrev pub joined : ℕ → List Stmt → List ToolIssueRow
  joined id h = flat (rows_for id h) (tool_table exec column h)

abbrev pub IsShort : ToolIssueRow → Type 0
IsShort row = row.duration < day

-- A database in which the id of a row is new (AUTO_INCREMENT: no row has it yet, and by the foreign
-- key no issue names it), a TIME(3) column gives back a duration below 24 hours to the millisecond,
-- and the SELECT gives the join in any order, if all its durations can be scanned. Statements may
-- fail.
pub record Relational (sql : Sql) (column : ℕ → ℕ) (names : ℕ → Bytes × Bytes) : Type 0 where
  pub fresh_row :
      (h : List Stmt) (a t d id : ℕ)
      → sql.exec h (insert_tool a t d) ≡ ok (ok id)
      → All (λ r. nat_beq id r.id ≡ false) (tool_table sql.exec column h)
  pub fresh_issues :
      (h : List Stmt) (a t d id : ℕ)
      → sql.exec h (insert_tool a t d) ≡ ok (ok id)
      → issues_for sql.exec id h ≡ []
  pub near : (d : ℕ) → d < day → (column d ≤ d + millisecond) × (d ≤ column d + millisecond)
  pub selects :
      (h : List Stmt) (id : ℕ)
      → All IsShort (joined sql.exec column names id h)
      → (rows : List ToolIssueRow) × (sql.tool_issue_rows h id ≡ ok rows)
        × Perm rows (joined sql.exec column names id h)
