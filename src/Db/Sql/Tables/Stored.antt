-- ===== src/Db/Sql/Tables/Stored.antt =====
-- internal/db/sqldb.go: what `FinishAnalysis` leaves in the joined tables, tool by tool.
use mathlib.Core.List.{append-nil, append_assoc}
use gopherci.Common.{
  ℕ, ◌≡◌, ◌≢◌, ◌∙◌, refl, ap, sym, true, false, List, [], ◌∷◌, ◌++◌, some, Bytes, Result, ok, err,
  panic, and_then, pure, Go, nat_beq, nat_beq_iff, All, arith, ◌<◌, ◌+◌,
}
use gopherci.Db.{Issue, AnalysisTool, Tools}
use gopherci.Db.Rows.{ToolIssueRow, row_issue}
use gopherci.Db.Rows.Grouping.{row_issues}
use gopherci.Db.Sql.{Sql, Stmt, insert_tool, insert_issue, insert_issues, insert_tools}
use gopherci.Db.Sql.Writes.{IssueRow, issue_rows}
use gopherci.Db.Sql.Tables.{
  ToolRow, inserted, flat, millisecond, day, tool_table, issues_for, joined_row, left_join,
  rows_for, joined, Relational,
}

-- The rows of one tool: at least one, all with its id and duration, and with its issues.
pub record Block (tool_id duration : ℕ) (issues : List Issue) (rows : List ToolIssueRow)
    : Type 0 where
  pub there : rows ≢ []
  pub same_tool : All (λ row. row.tool_id ≡ tool_id) rows
  pub same_duration : All (λ row. row.duration ≡ duration) rows
  pub all_issues : issue_rows (row_issues rows) ≡ issue_rows issues

-- Rows that are the blocks of some tools, one after another.
abbrev pub Blocks : (ℕ → ℕ) → Tools → List ToolIssueRow → Type 0
Blocks column [] rows = rows ≡ []
Blocks column ((j, t) ∷ tools) rows =
    (block : List ToolIssueRow) × (rest : List ToolIssueRow) × (rows ≡ block ++ rest)
    × Block j (column t.duration) t.issues block
    × Blocks column tools rest

flat-append :
    {A B : Type 0} (f : A → List B) (xs ys : List A) → flat f (xs ++ ys) ≡ flat f xs ++ flat f ys
flat-append f [] ys = refl
flat-append f (x ∷ xs) ys =
    rw (flat-append f xs ys, append_assoc (f x) (flat f xs) (flat f ys)) refl

contents : List (ℕ × IssueRow) → List IssueRow
contents [] = []
contents ((_, i) ∷ is) = i ∷ contents is

contents-append : (xs ys : List (ℕ × IssueRow)) → contents (xs ++ ys) ≡ contents xs ++ contents ys
unfolding contents
contents-append [] ys = refl
contents-append (x ∷ xs) ys = rw (contents-append xs ys) refl

module _ (names : ℕ → Bytes × Bytes) where
  -- The rows that a left join makes of issues, be there none before.
  joined_issues :
      (r : ToolRow) (is : List (ℕ × IssueRow))
      → issue_rows (row_issues (flat (λ x. joined_row names r (some x) ∷ []) is)) ≡ contents is
  unfolding row_issue contents
  joined_issues r [] = refl
  joined_issues r (x ∷ is) = rw (joined_issues r is) refl

  joined_tools :
      (r : ToolRow) (is : List (ℕ × IssueRow))
      → All (λ row. row.tool_id ≡ r.tool_id) (flat (λ x. joined_row names r (some x) ∷ []) is)
  joined_tools r [] = tt
  joined_tools r (x ∷ is) = (refl, joined_tools r is)

  joined_durations :
      (r : ToolRow) (is : List (ℕ × IssueRow))
      → All (λ row. row.duration ≡ r.duration) (flat (λ x. joined_row names r (some x) ∷ []) is)
  joined_durations r [] = tt
  joined_durations r (x ∷ is) = (refl, joined_durations r is)

  left_join-Block :
      (r : ToolRow) (is : List (ℕ × IssueRow)) (issues : List Issue)
      → contents is ≡ issue_rows issues
      → Block r.tool_id r.duration issues (left_join names r is)
  unfolding row_issue contents
  left_join-Block r [] issues q = record {
    there = λ e. ground arith;
    same_tool = (refl, tt);
    same_duration = (refl, tt);
    all_issues = q;
  }
  left_join-Block r (x ∷ is) issues q = record {
    there = λ e. ground arith;
    same_tool = (refl, joined_tools r is);
    same_duration = (refl, joined_durations r is);
    all_issues = rw (joined_issues r is) q;
  }

-- The history after the issues of a row of analysis_tool were inserted.
abbrev after_issues : ℕ → List Issue → List Stmt → List Stmt
after_issues k [] h = h
after_issues k (i ∷ is) h = after_issues k is (insert_issue k i.path i.line i.hunk_pos i.issue ∷ h)

nat_beq_refl : (n : ℕ) → nat_beq n n ≡ true
nat_beq_refl n = (nat_beq_iff n n).1 refl

-- The id of a row of analysis_tool.
abbrev pub id_of : Result (Result ℕ) → ℕ
id_of (ok (ok id)) = id
id_of _ = 0

inserted-contents :
    (row : IssueRow) (r : Result ℕ) → contents (inserted (λ id. (id, row)) (ok r)) ≡ row ∷ []
unfolding contents
inserted-contents row (ok id) = refl
inserted-contents row (err _) = refl
inserted-contents row (panic _) = refl

module _ (exec : List Stmt → Stmt → Result (Result ℕ)) where
  -- The statements for issues, none of which failed.
  abbrev pub IssuesStored : ℕ → List Issue → List Stmt → Type 0
  IssuesStored k [] h = Unit
  IssuesStored k (i ∷ is) h =
      let s = insert_issue k i.path i.line i.hunk_pos i.issue in
      ((r : Result ℕ) × (exec h s ≡ ok r)) × IssuesStored k is (s ∷ h)

  tool_table-after_issues :
      (column : ℕ → ℕ) (k : ℕ) (is : List Issue) (h : List Stmt)
      → tool_table exec column (after_issues k is h) ≡ tool_table exec column h
  tool_table-after_issues column k [] h = refl
  tool_table-after_issues column k (i ∷ is) h =
      tool_table-after_issues column k is (insert_issue k i.path i.line i.hunk_pos i.issue ∷ h)

  issues_for-after_issues_ne :
      (j k : ℕ) (is : List Issue) (h : List Stmt)
      → nat_beq k j ≡ false
      → issues_for exec j (after_issues k is h) ≡ issues_for exec j h
  issues_for-after_issues_ne j k [] h q = refl
  issues_for-after_issues_ne j k (i ∷ is) h q =
      issues_for-after_issues_ne j k is (insert_issue k i.path i.line i.hunk_pos i.issue ∷ h) q
      ∙ rw q (append-nil (issues_for exec j h))

  issues_for-after_issues :
      (k : ℕ) (is : List Issue) (h : List Stmt)
      → IssuesStored k is h
      → contents (issues_for exec k (after_issues k is h))
        ≡ contents (issues_for exec k h) ++ issue_rows is
  unfolding contents
  issues_for-after_issues k [] h stored = sym (append-nil _)
  issues_for-after_issues k (i ∷ is) h ((r, q), stored) =
      let s = insert_issue k i.path i.line i.hunk_pos i.issue in
      let row : IssueRow = (i.path, i.line, i.hunk_pos, i.issue) in
      let new = inserted (λ id. (id, row)) (ok r) in
      issues_for-after_issues k is (s ∷ h) stored
      ∙ rw (nat_beq_refl k, q)
          (ap (λ l. l ++ issue_rows is)
              (contents-append (issues_for exec k h) new
                ∙ ap (λ l. contents (issues_for exec k h) ++ l) (inserted-contents row r))
            ∙ append_assoc (contents (issues_for exec k h)) (row ∷ []) (issue_rows is))

  -- The history after the tools of an analysis were inserted.
  abbrev pub after_tools : ℕ → Tools → List Stmt → List Stmt
  after_tools id [] h = h
  after_tools id ((t, tool) ∷ tools) h =
      let s = insert_tool id t tool.duration in
      after_tools id tools (after_issues (id_of (exec h s)) tool.issues (s ∷ h))

  -- The statements for tools and their issues, none of which failed.
  abbrev pub ToolsStored : ℕ → Tools → List Stmt → Type 0
  ToolsStored id [] h = Unit
  ToolsStored id ((t, tool) ∷ tools) h =
      let s = insert_tool id t tool.duration in
      ((n : ℕ) × (exec h s ≡ ok (ok n)) × IssuesStored n tool.issues (s ∷ h))
      × ToolsStored id tools (after_issues (id_of (exec h s)) tool.issues (s ∷ h))

pub then_ok :
    (r : Result (Unit {0}) × List Stmt) (k : Go Stmt (Unit {0}))
    → (and_then r.0 (λ _. k) r.1).0 ≡ ok tt
    → (r.0 ≡ ok tt) × ((k r.1).0 ≡ ok tt)
then_ok (ok _, h) k q = (refl, q)
then_ok (err _, h) k q = ground arith
then_ok (panic _, h) k q = ground arith

pub exec_only-ok :
    (r : Result (Result ℕ)) (h : List Stmt)
    → (and_then {C = Stmt} r (λ _. pure (tt {0})) h).0 ≡ ok tt
    → and_then {C = Stmt} r (λ _. pure (tt {0})) h ≡ (ok (tt {0}), h)
exec_only-ok (ok _) h q = refl
exec_only-ok (err _) h q = ground arith
exec_only-ok (panic _) h q = ground arith

module _ (sql : Sql) where
  -- Without an error, these statements were sent, and all of them worked.
  abbrev IssuesDone : ℕ → List Issue → List Stmt → Type 0
  IssuesDone k is h =
      (insert_issues sql k is h).0 ≡ ok tt
      → (insert_issues sql k is h ≡ (ok tt, after_issues k is h)) × IssuesStored sql.exec k is h

  abbrev pub ToolsDone : ℕ → Tools → List Stmt → Type 0
  ToolsDone id tools h =
      (insert_tools sql id tools h).0 ≡ ok tt
      → (insert_tools sql id tools h ≡ (ok tt, after_tools sql.exec id tools h))
        × ToolsStored sql.exec id tools h

  one_issue :
      (k : ℕ) (i : Issue) (is : List Issue) (h : List Stmt) (r : Result (Result ℕ))
      → let s = insert_issue k i.path i.line i.hunk_pos i.issue in
        sql.exec h s ≡ r → IssuesDone k is (s ∷ h) → IssuesDone k (i ∷ is) h
  unfolding insert_issues
  one_issue k i is h (ok r) q rest success =
      let (e, stored) = rest (rw q at success) in (rw q e, ((r, q), stored))
  one_issue k i is h (err x) q rest success =
      let bad : err x ≡ ok (tt {0}) = rw q at success in ground arith
  one_issue k i is h (panic m) q rest success =
      let bad : panic m ≡ ok (tt {0}) = rw q at success in ground arith

  insert_issues-eq : (k : ℕ) (is : List Issue) (h : List Stmt) → IssuesDone k is h
  unfolding insert_issues
  insert_issues-eq k [] h success = (refl, tt)
  insert_issues-eq k (i ∷ is) h success =
      let s = insert_issue k i.path i.line i.hunk_pos i.issue in
      one_issue k i is h (sql.exec h s) refl (insert_issues-eq k is (s ∷ h)) success

  one_tool :
      (id t : ℕ) (tool : AnalysisTool) (tools : Tools) (h : List Stmt) (r : Result (Result ℕ))
      → sql.exec h (insert_tool id t tool.duration) ≡ r
      → ((d : List Stmt) → ToolsDone id tools d)
      → ToolsDone id ((t, tool) ∷ tools) h
  unfolding insert_tools
  one_tool id t tool tools h (ok (ok n)) q rest success =
      let s = insert_tool id t tool.duration in
      let first = insert_issues sql n tool.issues (s ∷ h) in
      let (one, others) = then_ok first (insert_tools sql id tools) (rw q at success) in
      let (e, stored) = insert_issues-eq n tool.issues (s ∷ h) one in
      let (e', all) = rest (after_issues n tool.issues (s ∷ h)) (rw e at others) in
      (rw (q, e) e', ((n, q, stored), rw q all))
  one_tool id t tool tools h (ok (err x)) q rest success =
      let bad : err x ≡ ok (tt {0}) = rw q at success in ground arith
  one_tool id t tool tools h (ok (panic m)) q rest success =
      let bad : panic m ≡ ok (tt {0}) = rw q at success in ground arith
  one_tool id t tool tools h (err x) q rest success =
      let bad : err x ≡ ok (tt {0}) = rw q at success in ground arith
  one_tool id t tool tools h (panic m) q rest success =
      let bad : panic m ≡ ok (tt {0}) = rw q at success in ground arith

  pub insert_tools-eq : (id : ℕ) (tools : Tools) (h : List Stmt) → ToolsDone id tools h
  unfolding insert_tools
  insert_tools-eq id [] h success = (refl, tt)
  insert_tools-eq id ((t, tool) ∷ tools) h success =
      one_tool id t tool tools h (sql.exec h (insert_tool id t tool.duration)) refl
        (insert_tools-eq id tools) success

module _ (sql : Sql) (column : ℕ → ℕ) (names : ℕ → Bytes × Bytes)
    (tables : Relational sql column names) where
  -- Rows whose ids are not the new one join as before.
  flat_rows-after_issues :
      (id k : ℕ) (is : List Issue) (h : List Stmt) (rows : List ToolRow)
      → All (λ r. nat_beq k r.id ≡ false) rows
      → flat (rows_for sql.exec column names id (after_issues k is h)) rows
        ≡ flat (rows_for sql.exec column names id h) rows
  flat_rows-after_issues id k is h [] old = refl
  flat_rows-after_issues id k is h (r ∷ rows) (new, old) =
      rw
        (
          issues_for-after_issues_ne sql.exec r.id k is h new,
          flat_rows-after_issues id k is h rows old,
        )
        refl

  -- Storing one tool adds its block to the join.
  joined-add_tool :
      (id t : ℕ) (tool : AnalysisTool) (h : List Stmt) (k : ℕ)
      → sql.exec h (insert_tool id t tool.duration) ≡ ok (ok k)
      → IssuesStored sql.exec k tool.issues (insert_tool id t tool.duration ∷ h)
      → (block : List ToolIssueRow) × (joined sql.exec column names id
            (after_issues k tool.issues (insert_tool id t tool.duration ∷ h))
          ≡ joined sql.exec column names id h ++ block)
        × Block t (column tool.duration) tool.issues block
  unfolding contents
  joined-add_tool id t tool h k q stored =
      let s = insert_tool id t tool.duration in
      let h' = after_issues k tool.issues (s ∷ h) in
      let r : ToolRow = record {
        id = k;
        analysis_id = id;
        tool_id = t;
        duration = column tool.duration;
      } in
      let rows = rows_for sql.exec column names id in
      let table : tool_table sql.exec column h' ≡ tool_table sql.exec column h ++ (r ∷ []) =
        tool_table-after_issues sql.exec column k tool.issues (s ∷ h) ∙ rw q refl in
      let own : contents (issues_for sql.exec k h') ≡ issue_rows tool.issues =
        issues_for-after_issues sql.exec k tool.issues (s ∷ h) stored
        ∙ ap (λ l. contents l ++ issue_rows tool.issues)
            (tables.fresh_issues h id t tool.duration k q) in
      (
        left_join names r (issues_for sql.exec k h'),
        ap (flat (rows h')) table
            ∙ flat-append (rows h') (tool_table sql.exec column h) (r ∷ [])
            ∙ rw
                (
                  flat_rows-after_issues id k tool.issues (s ∷ h) (tool_table sql.exec column h)
                      (tables.fresh_row h id t tool.duration k q),
                  nat_beq_refl id,
                  append-nil (left_join names r (issues_for sql.exec k h')),
                )
                refl,
        left_join-Block names r (issues_for sql.exec k h') tool.issues own,
      )

  -- Storing tools adds a block for each of them, in order.
  pub joined-after_tools :
      (id : ℕ) (tools : Tools) (h : List Stmt)
      → ToolsStored sql.exec id tools h
      → (rows : List ToolIssueRow) × (joined sql.exec column names id
            (after_tools sql.exec id tools h)
          ≡ joined sql.exec column names id h ++ rows)
        × Blocks column tools rows
  joined-after_tools id [] h stored = ([], sym (append-nil _), refl)
  joined-after_tools id ((t, tool) ∷ tools) h ((k, q, one), others) =
      let s = insert_tool id t tool.duration in
      let (block, p, is_block) = joined-add_tool id t tool h k q one in
      let h' = after_issues k tool.issues (s ∷ h) in
      let (rest, p', are_blocks) = joined-after_tools id tools h' (rw q at others) in
      (
        block ++ rest,
        rw q (
            p'
            ∙ ap (λ l. l ++ rest) p
            ∙ append_assoc (joined sql.exec column names id h) block rest),
        (block, rest, refl, is_block, are_blocks),
      )

-- Tools whose durations a TIME column can give back.
abbrev pub ShortTools : Tools → Type 0
ShortTools [] = Unit
ShortTools ((_, t) ∷ tools) = (t.duration + millisecond < day) × ShortTools tools
