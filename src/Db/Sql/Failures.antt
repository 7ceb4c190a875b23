-- ===== src/Db/Sql/Failures.antt =====
-- internal/db/sqldb.go: the statements of a method, up to the first that fails.
use gopherci.Common.{
  ℕ, ◌≡◌, ◌⊎◌, inl, inr, refl, List, [], ◌∷◌, Option, none, some, Bytes, Result, ok, err, panic,
  Error, Go, and_then, pure, Bool-cases, bytes_beq,
}
use gopherci.Db.{Issue, Tools, Analysis, AnalysisStatus, is_push}
use gopherci.Db.Sql.{
  Sql, Stmt, insert_issue, insert_tool, insert_analysis, exec_only, exec_id, insert_issues,
  insert_tools, finish_analysis, start_analysis, record_range,
}

-- A statement that did what it is sent for: those whose new id is used have one.
abbrev pub Worked : Stmt → Result (Result ℕ) → Type 0
Worked (insert_tool _ _ _) r = (id : ℕ) × (r ≡ ok (ok id))
Worked (insert_analysis _ _) r = (id : ℕ) × (r ≡ ok (ok id))
Worked s r = (id : Result ℕ) × (r ≡ ok id)

-- A statement that failed, or whose `LastInsertId` failed.
abbrev pub FailedWith : Error → Result (Result ℕ) → Type 0
FailedWith e r = (r ≡ err e) ⊎ (r ≡ ok (err e))

abbrev pub PanickedWith : Bytes → Result (Result ℕ) → Type 0
PanickedWith m r = (r ≡ panic m) ⊎ (r ≡ ok (panic m))

-- Histories that continue another by statements that all worked.
pub data AllWorked (sql : Sql) (before : List Stmt) : List Stmt → Type 0 where
  none_sent : AllWorked sql before before
  one_more :
      (s : Stmt) (h : List Stmt)
      → Worked s (sql.exec h s)
      → AllWorked sql before h
      → AllWorked sql before (s ∷ h)

-- How a method ends: with a value, if all its statements worked; or with the error or the panic of
-- the last statement, before which all worked.
abbrev pub StopsAtFailure : {A : Type 0} → Sql → List Stmt → Result A × List Stmt → Type 0
StopsAtFailure sql before (ok _, h) = AllWorked sql before h
StopsAtFailure sql before (err e, h) =
    (s : Stmt) × (h' : List Stmt) × (h ≡ s ∷ h')
    × FailedWith e (sql.exec h' s)
    × AllWorked sql before h'
StopsAtFailure sql before (panic m, h) =
    (s : Stmt) × (h' : List Stmt) × (h ≡ s ∷ h')
    × PanickedWith m (sql.exec h' s)
    × AllWorked sql before h'

module _ (sql : Sql) (before : List Stmt) where
  >>=-StopsAtFailure :
      {A B : Type 0} (r : Result A × List Stmt) (k : A → Go Stmt B)
      → StopsAtFailure sql before r
      → ((a : A) (h : List Stmt) → AllWorked sql before h → StopsAtFailure sql before (k a h))
      → StopsAtFailure sql before (and_then r.0 k r.1)
  >>=-StopsAtFailure (ok a, h) k first rest = rest a h first
  >>=-StopsAtFailure (err e, h) k first rest = first
  >>=-StopsAtFailure (panic m, h) k first rest = first

  exec_only-StopsAtFailure :
      (s : Stmt) (h : List Stmt)
      → ((id : Result ℕ) → Worked s (ok id))
      → AllWorked sql before h
      → StopsAtFailure sql before (exec_only sql s h)
  exec_only-StopsAtFailure s h works all = answered (sql.exec h s) refl
    where
      answered :
          (r : Result (Result ℕ))
          → sql.exec h s ≡ r
          → StopsAtFailure sql before (and_then r (λ _. pure (tt {0})) (s ∷ h))
      answered (ok id) q = one_more s h (rw q (works id)) all
      answered (err e) q = (s, h, refl, inl q, all)
      answered (panic m) q = (s, h, refl, inl q, all)

  exec_id-StopsAtFailure :
      (s : Stmt) (h : List Stmt)
      → ((id : ℕ) → Worked s (ok (ok id)))
      → AllWorked sql before h
      → StopsAtFailure sql before (exec_id sql s h)
  exec_id-StopsAtFailure s h works all = answered (sql.exec h s) refl
    where
      answered :
          (r : Result (Result ℕ))
          → sql.exec h s ≡ r
          → StopsAtFailure sql before (and_then r (λ id h'. (id, h')) (s ∷ h))
      answered (ok (ok id)) q = one_more s h (rw q (works id)) all
      answered (ok (err e)) q = (s, h, refl, inr q, all)
      answered (ok (panic m)) q = (s, h, refl, inr q, all)
      answered (err e) q = (s, h, refl, inl q, all)
      answered (panic m) q = (s, h, refl, inl q, all)

  record_range-StopsAtFailure :
      (a : Analysis) (h : List Stmt)
      → AllWorked sql before h
      → StopsAtFailure sql before (record_range sql a h)
  record_range-StopsAtFailure a h all = elim (Bool-cases (is_push a)) [
    | inr pr ↦ rw pr (exec_only-StopsAtFailure _ h (λ id. (id, refl)) all)
    | inl push ↦ elim (Bool-cases (bytes_beq a.commit_from [])) [
      | inl first ↦ rw (push, first) (exec_only-StopsAtFailure _ h (λ id. (id, refl)) all)
      | inr more ↦ rw (push, more) (exec_only-StopsAtFailure _ h (λ id. (id, refl)) all)
    ]
  ]

  insert_issues-StopsAtFailure :
      (ta : ℕ) (issues : List Issue) (h : List Stmt)
      → AllWorked sql before h
      → StopsAtFailure sql before (insert_issues sql ta issues h)
  unfolding insert_issues
  insert_issues-StopsAtFailure ta [] h all = all
  insert_issues-StopsAtFailure ta (i ∷ issues) h all =
      let s = insert_issue ta i.path i.line i.hunk_pos i.issue in
      >>=-StopsAtFailure (exec_only sql s h) _ (exec_only-StopsAtFailure s h (λ id. (id, refl)) all)
        (λ _. insert_issues-StopsAtFailure ta issues)

  insert_tools-StopsAtFailure :
      (id : ℕ) (tools : Tools) (h : List Stmt)
      → AllWorked sql before h
      → StopsAtFailure sql before (insert_tools sql id tools h)
  unfolding insert_tools
  insert_tools-StopsAtFailure id [] h all = all
  insert_tools-StopsAtFailure id ((t, tool) ∷ tools) h all =
      let s = insert_tool id t tool.duration in
      >>=-StopsAtFailure (exec_id sql s h) _ (exec_id-StopsAtFailure s h (λ id. (id, refl)) all)
        λ ta h' all'.
          >>=-StopsAtFailure (insert_issues sql ta tool.issues h') _
            (insert_issues-StopsAtFailure ta tool.issues h' all')
            (λ _. insert_tools-StopsAtFailure id tools)

module _ (sql : Sql) where
  -- Whatever the database answers: if `FinishAnalysis` returns no error, all statements that it
  -- sent worked, and those for a tool gave an id; if it returns an error or panics, that is the
  -- failure of the last statement that it sent, and all before it worked. So nothing is sent after
  -- a failure, and no failure is passed over.
  pub finish_analysis-StopsAtFailure :
      (id : ℕ) (status : AnalysisStatus) (a : Option Analysis) (h : List Stmt)
      → StopsAtFailure sql h (finish_analysis sql id status a h)
  unfolding finish_analysis
  finish_analysis-StopsAtFailure id status none h =
      exec_only-StopsAtFailure sql h _ h (λ id. (id, refl)) none_sent
  finish_analysis-StopsAtFailure id status (some a) h =
      >>=-StopsAtFailure sql h (exec_only sql _ h) _
        (exec_only-StopsAtFailure sql h _ h (λ id. (id, refl)) none_sent)
        (λ _ h'. insert_tools-StopsAtFailure sql h id (sql.range h' a.tools) h')

  -- Whatever the database answers: if `StartAnalysis` returns no error, the statements that it sent
  -- worked, and the first gave an id; if it returns an error or panics, that is the failure of the
  -- last statement that it sent, and one before it worked. So nothing is sent after a failure, and
  -- no failure is passed over.
  pub start_analysis-StopsAtFailure :
      (install repo : ℕ) (from to : Bytes) (request : ℕ) (h : List Stmt)
      → StopsAtFailure sql h (start_analysis sql install repo from to request h)
  unfolding start_analysis
  start_analysis-StopsAtFailure install repo from to request h =
      >>=-StopsAtFailure sql h (exec_id sql _ h) _
        (exec_id-StopsAtFailure sql h _ h (λ id. (id, refl)) none_sent)
        λ id h' all.
          >>=-StopsAtFailure sql h _ _ (record_range-StopsAtFailure sql h _ h' all)
            (λ _ _ all'. all')
