-- ===== src/Db/Sql/Writes.antt =====
-- internal/db/sqldb.go: which rows `FinishAnalysis` writes.
use mathlib.Core.List.{append_assoc, append-nil}
use mathlib.Core.Path.{subst}
use gopherci.Common.{
  ℕ, ◌≡◌, ◌∙◌, refl, ap, sym, List, [], ◌∷◌, ◌++◌, some, Bytes, Result, ok, Go, ◌>>=◌, ◌>>◌,
}
use gopherci.Db.{Issue, Tools, Analysis, AnalysisStatus, issues_of, status_text}
use gopherci.Db.Sql.{
  Sql, Stmt, insert_issue, insert_tool, exec_only, exec_id, insert_issues, insert_tools,
  finish_analysis, update_finished,
}

-- An issue as a statement writes it: path, line, hunk position and text.
abbrev pub IssueRow : Type 0
IssueRow = Bytes × ℕ × ℕ × Bytes

-- The issue rows that the statements of a history insert, oldest first.
abbrev pub inserted_issues : List Stmt → List IssueRow
inserted_issues [] = []
inserted_issues (insert_issue _ path line hunk_pos text ∷ h) =
    inserted_issues h ++ ((path, line, hunk_pos, text) ∷ [])
inserted_issues (_ ∷ h) = inserted_issues h

-- The tools, with their durations, that the statements of a history insert, oldest first.
abbrev pub inserted_tools : List Stmt → List (ℕ × ℕ)
inserted_tools [] = []
inserted_tools (insert_tool _ tool_id duration ∷ h) = inserted_tools h ++ ((tool_id, duration) ∷ [])
inserted_tools (_ ∷ h) = inserted_tools h

abbrev pub issue_rows : List Issue → List IssueRow
issue_rows [] = []
issue_rows (i ∷ issues) = (i.path, i.line, i.hunk_pos, i.issue) ∷ issue_rows issues

abbrev pub tool_rows : Tools → List (ℕ × ℕ)
tool_rows [] = []
tool_rows ((tool_id, t) ∷ tools) = (tool_id, t.duration) ∷ tool_rows tools

pub issue_rows-append :
    (xs ys : List Issue) → issue_rows (xs ++ ys) ≡ issue_rows xs ++ issue_rows ys
issue_rows-append [] ys = refl
issue_rows-append (x ∷ xs) ys =
    ap (λ l. (x.path, x.line, x.hunk_pos, x.issue) ∷ l) (issue_rows-append xs ys)

-- A database on which no statement fails.
abbrev pub Reliable : Sql → Type 0
Reliable sql = (h : List Stmt) (s : Stmt) → (id : ℕ) × (sql.exec h s ≡ ok (ok id))

-- What a successful write leaves behind: a history that holds these rows besides the old ones.
pub record Wrote (before : List Stmt) (issues : List IssueRow) (tools : List (ℕ × ℕ))
    (r : Result (Unit {0}) × List Stmt) : Type 0 where
  pub returned : r.0 ≡ ok tt
  pub all_issues : inserted_issues r.1 ≡ inserted_issues before ++ issues
  pub all_tools : inserted_tools r.1 ≡ inserted_tools before ++ tools

Wrote-pure : (h : List Stmt) → Wrote h [] [] (ok tt, h)
Wrote-pure h = record {
  returned = refl;
  all_issues = sym (append-nil (inserted_issues h));
  all_tools = sym (append-nil (inserted_tools h));
}

-- One write after another.
Wrote-cons :
    (h h' : List Stmt) (r : Result (Unit {0}) × List Stmt) (is js : List IssueRow)
    (ts us : List (ℕ × ℕ))
    → Wrote h is ts (ok tt, h')
    → Wrote h' js us r
    → Wrote h (is ++ js) (ts ++ us) r
Wrote-cons h h' r is js ts us first rest = record {
  returned = rest.returned;
  all_issues = cc (append_assoc (inserted_issues h) is js, first.all_issues, rest.all_issues);
  all_tools = cc (append_assoc (inserted_tools h) ts us, first.all_tools, rest.all_tools);
}

module _ (sql : Sql) (reliable : Reliable sql) where
  pub exec_only-eq :
      (s : Stmt) (k : Go Stmt (Unit {0})) (h : List Stmt) → (exec_only sql s >> k) h ≡ k (s ∷ h)
  exec_only-eq s k h = rw (reliable h s).1

  pub exec_id-eq :
      (s : Stmt) (k : ℕ → Go Stmt (Unit {0})) (h : List Stmt)
      → (exec_id sql s >>= k) h ≡ k (reliable h s).0 (s ∷ h)
  exec_id-eq s k h = rw (reliable h s).1

  insert_issues-Wrote :
      (ta : ℕ) (issues : List Issue) (h : List Stmt)
      → Wrote h (issue_rows issues) [] (insert_issues sql ta issues h)
  unfolding insert_issues
  insert_issues-Wrote ta [] h = Wrote-pure h
  insert_issues-Wrote ta (i ∷ issues) h =
      let s = insert_issue ta i.path i.line i.hunk_pos i.issue in
      subst (Wrote h _ []) (sym (exec_only-eq s (insert_issues sql ta issues) h)) (
        Wrote-cons h (s ∷ h) _ ((i.path, i.line, i.hunk_pos, i.issue) ∷ []) _ [] []
          (record { returned = refl; all_issues = refl; all_tools = sym (append-nil _) })
          (insert_issues-Wrote ta issues (s ∷ h)))

  after-Wrote :
      (m : Go Stmt (Unit {0})) (h : List Stmt) {is : List IssueRow} {ts : List (ℕ × ℕ)}
      (k : Go Stmt (Unit {0}))
      → Wrote h is ts (m h)
      → (m >> k) h ≡ k (m h).1
  after-Wrote m h k w = rw w.returned

  insert_tools-Wrote :
      (id : ℕ) (tools : Tools) (h : List Stmt)
      → Wrote h (issue_rows (issues_of tools)) (tool_rows tools) (insert_tools sql id tools h)
  unfolding insert_tools issues_of
  insert_tools-Wrote id [] h = Wrote-pure h
  insert_tools-Wrote id ((t, tool) ∷ tools) h =
      let s = insert_tool id t tool.duration in
      let ta = (reliable h s).0 in
      let first = insert_issues-Wrote ta tool.issues (s ∷ h) in
      let after = (insert_issues sql ta tool.issues (s ∷ h)).1 in
      let e =
        exec_id-eq s (λ a. insert_issues sql a tool.issues >> insert_tools sql id tools) h
        ∙ after-Wrote (insert_issues sql ta tool.issues) (s ∷ h) (insert_tools sql id tools)
            first in
      subst (Wrote h _ _) (sym e) (
        rw (issue_rows-append tool.issues (issues_of tools)) (
          Wrote-cons h after _ (issue_rows tool.issues) _ ((t, tool.duration) ∷ []) _
            (record {
              returned = refl;
              all_issues = first.all_issues;
              all_tools = first.all_tools ∙ append-nil _;
            })
            (insert_tools-Wrote id tools after)))

  -- On a database where no statement fails, storing a finished analysis succeeds, and the
  -- statements it sends insert every issue of every tool once, in order, and every tool once with
  -- its duration, in the order in which the map is visited; they insert nothing else there.
  pub finish_analysis-Wrote :
      (id : ℕ) (status : AnalysisStatus) (a : Analysis) (h : List Stmt)
      → let s =
          update_finished
            (status_text status)
            a.clone_duration
            a.deps_duration
            a.total_duration
            id in
        let tools = sql.range (s ∷ h) a.tools in
        Wrote h
          (issue_rows (issues_of tools))
          (tool_rows tools)
          (finish_analysis sql id status (some a) h)
  unfolding finish_analysis
  finish_analysis-Wrote id status a h =
      let s =
        update_finished (status_text status) a.clone_duration a.deps_duration a.total_duration id in
      let tools = sql.range (s ∷ h) a.tools in
      let w = insert_tools-Wrote id tools (s ∷ h) in
      subst (Wrote h _ _)
        (sym (exec_only-eq s (λ h'. insert_tools sql id (sql.range h' a.tools) h') h))
        (record { returned = w.returned; all_issues = w.all_issues; all_tools = w.all_tools })
