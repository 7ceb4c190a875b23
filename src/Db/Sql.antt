-- ===== src/Db/Sql.antt =====
-- internal/db/sqldb.go: the DB interface over an SQL database. The database is a service, so its
-- answers are the parameter `Sql`; what is modelled is which statements a method sends, in which
-- order, and what it makes of the answers.
pub mod Cleanup
pub mod Writes
pub mod Failures
pub mod Tables
use gopherci.Common.{
  ℕ, ◌≡◌, Bool, true, false, not, List, [], ◌∷◌, Option, none, some, Bytes, Result, ok, err, Go,
  ask, pure, fail, try, ◌>>=◌, ◌>>◌, ◌==◌, bytes_eq, if◌then◌else◌, Error,
}
use gopherci.Db.{
  GhInstallation, Tool, Tools, Issue, AnalysisTool, Analysis, new_analysis, is_push, AnalysisStatus,
  status_text, Output,
}
use gopherci.Db.Recording.{OutputRow, output_row}
use gopherci.Db.Rows.{ToolIssueRow, group}

-- The statements, with their arguments in the order of the placeholders.
pub data Stmt : Type 0 where
  insert_installation : (installation_id account_id sender_id : ℕ) → Stmt
  delete_installation : (installation_id : ℕ) → Stmt
  select_installation : (installation_id : ℕ) → Stmt
  select_tools : Stmt
  insert_analysis : (gh_installation_id repository_id : ℕ) → Stmt
  update_commits : (commit_from commit_to : Bytes) → (id : ℕ) → Stmt
  update_commit_to : (commit_to : Bytes) → (id : ℕ) → Stmt
  update_request_number : (request_number id : ℕ) → Stmt
  update_status : (status : Bytes) → (id : ℕ) → Stmt
  update_finished : (status : Bytes) → (clone deps total id : ℕ) → Stmt
  insert_tool : (analysis_id tool_id duration : ℕ) → Stmt
  insert_issue : (analysis_tool_id : ℕ) → (path : Bytes) → (line hunk_pos : ℕ) → Bytes → Stmt
  select_analysis : (id : ℕ) → Stmt
  select_tool_issues : (id : ℕ) → Stmt
  select_outputs : (id : ℕ) → Stmt
  insert_output : OutputRow → Stmt
  delete_old_outputs : Stmt

-- A row of gh_installations; `enabled_at` may be NULL.
pub record InstallationRow : Type 0 where
  pub id : ℕ
  pub installation_id : ℕ
  pub account_id : ℕ
  pub sender_id : ℕ
  pub enabled_at : Option ℕ

-- The answers of the database, after the statements sent so far. `exec` gives a result, whose
-- `LastInsertId` may fail too. `range` is the order in which Go visits a map.
pub record Sql : Type 0 where
  pub exec : List Stmt → Stmt → Result (Result ℕ)
  pub installation_row : List Stmt → ℕ → Result (Option InstallationRow)
  pub tool_rows : List Stmt → Result (List Tool)
  pub analysis_row : List Stmt → ℕ → Result (Option Analysis)
  pub tool_issue_rows : List Stmt → ℕ → Result (List ToolIssueRow)
  pub output_rows : List Stmt → ℕ → Result (List Output)
  pub range : List Stmt → Tools → Tools

-- `ghi.enabledAt` stays the zero time if the column is NULL.
abbrev enabled_or_zero : Option ℕ → ℕ
enabled_or_zero none = 0
enabled_or_zero (some t) = t

abbrev installation_of : Option InstallationRow → Option GhInstallation
installation_of none = none
installation_of (some row) = some (record {
  id = row.id;
  installation_id = row.installation_id;
  account_id = row.account_id;
  sender_id = row.sender_id;
  enabled_at = enabled_or_zero row.enabled_at;
})

module _ (sql : Sql) where
  -- `db.sqlx.Exec`
  abbrev pub exec : Stmt → Go Stmt (Result ℕ)
  exec stmt = ask stmt (λ h. sql.exec h stmt)

  -- `_, err := db.sqlx.Exec(...)`
  abbrev pub exec_only : Stmt → Go Stmt (Unit {0})
  exec_only stmt = exec stmt >>= λ _. pure tt

  -- `db.sqlx.Exec` followed by `result.LastInsertId()`
  abbrev pub exec_id : Stmt → Go Stmt ℕ
  exec_id stmt = exec stmt >>= λ id h. (id, h)

  unfoldable pub add_gh_installation : ℕ → ℕ → ℕ → Go Stmt (Unit {0})
  add_gh_installation installation_id account_id sender_id =
      exec_only (insert_installation installation_id account_id sender_id)

  unfoldable pub remove_gh_installation : ℕ → Go Stmt (Unit {0})
  remove_gh_installation installation_id = exec_only (delete_installation installation_id)

  unfoldable pub get_gh_installation : ℕ → Go Stmt (Option GhInstallation)
  get_gh_installation installation_id = do
    row ← ask (select_installation installation_id) (λ h. sql.installation_row h installation_id)
    pure (installation_of row)

  unfoldable pub list_tools : Go Stmt (List Tool)
  list_tools = ask select_tools (λ h. sql.tool_rows h)

  -- The UPDATE that fits the kind of analysis.
  abbrev pub record_range : Analysis → Go Stmt (Unit {0})
  record_range a =
      if is_push a
      then (if not (a.commit_from == [])
          then exec_only (update_commits a.commit_from a.commit_to a.id)
          else exec_only (update_commit_to a.commit_to a.id))
      else exec_only (update_request_number a.request_number a.id)

  -- (If the last statement fails, Go returns the analysis beside the error; no caller reads it.)
  unfoldable pub start_analysis : ℕ → ℕ → Bytes → Bytes → ℕ → Go Stmt Analysis
  start_analysis gh_installation_id repository_id commit_from commit_to request_number = do
    id ← exec_id (insert_analysis gh_installation_id repository_id)
    let a : Analysis = record new_analysis {
      id = id;
      commit_from = commit_from;
      commit_to = commit_to;
      request_number = request_number;
    }
    record_range a
    pure a

  unfoldable pub insert_issues : ℕ → List Issue → Go Stmt (Unit {0})
  insert_issues tool_analysis_id [] = pure tt
  insert_issues tool_analysis_id (i ∷ issues) = do
    exec_only (insert_issue tool_analysis_id i.path i.line i.hunk_pos i.issue)
    insert_issues tool_analysis_id issues

  unfoldable pub insert_tools : ℕ → Tools → Go Stmt (Unit {0})
  insert_tools analysis_id [] = pure tt
  insert_tools analysis_id ((tool_id, tool) ∷ tools) = do
    tool_analysis_id ← exec_id (insert_tool analysis_id tool_id tool.duration)
    insert_issues tool_analysis_id tool.issues
    insert_tools analysis_id tools

  unfoldable pub finish_analysis : ℕ → AnalysisStatus → Option Analysis → Go Stmt (Unit {0})
  finish_analysis analysis_id status none =
      exec_only (update_status (status_text status) analysis_id)
  finish_analysis analysis_id status (some a) = do
    exec_only (
        update_finished (status_text status) a.clone_duration a.deps_duration a.total_duration
          analysis_id)
    λ h. insert_tools analysis_id (sql.range h a.tools) h

  -- The tools and issues of an analysis whose row was found.
  abbrev with_tools : ℕ → Option Analysis → Go Stmt (Option Analysis)
  with_tools analysis_id none = pure none
  with_tools analysis_id (some a) = do
    rows ← ask (select_tool_issues analysis_id) (λ h. sql.tool_issue_rows h analysis_id)
    pure (some (record a { tools = group [] rows }))

  unfoldable pub get_analysis : ℕ → Go Stmt (Option Analysis)
  get_analysis analysis_id = do
    row ← ask (select_analysis analysis_id) (λ h. sql.analysis_row h analysis_id)
    with_tools analysis_id row

  unfoldable pub analysis_outputs : ℕ → Go Stmt (List Output)
  analysis_outputs analysis_id =
      ask (select_outputs analysis_id) (λ h. sql.output_rows h analysis_id)

  unfoldable pub write_execution : ℕ → List Bytes → ℕ → Bytes → Go Stmt (Unit {0})
  write_execution analysis_id args d output =
      exec_only (insert_output (output_row analysis_id args d output))
