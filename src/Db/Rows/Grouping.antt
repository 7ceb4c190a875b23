-- ===== src/Db/Rows/Grouping.antt =====
-- internal/db/sqldb.go: what `GetAnalysis` returns for a tool, described by the tool's own rows.
use mathlib.Core.List.{append-nil, append_assoc}
use gopherci.Common.{
  Bool-cases, inl, inr, ap, ℕ, ◌≡◌, ◌∙◌, refl, List, [], ◌∷◌, ◌++◌, Option, none, some, arith,
  nat_beq, lookup, nat_eq, lookup-insert, select, if◌then◌else◌,
}
use gopherci.Db.{Issue, AnalysisTool, Tools}
use gopherci.Db.Rows.{entry_or_new, ToolIssueRow, new_entry, row_issue, add_row, group}

-- The issues of some rows, in order.
abbrev pub row_issues : List ToolIssueRow → List Issue
row_issues [] = []
row_issues (row ∷ rows) = row_issue row ++ row_issues rows

-- What is expected of a tool, from its own rows alone.
unfoldable pub gathered : List ToolIssueRow → Option AnalysisTool
gathered [] = none
gathered (row ∷ rows) = some (record (new_entry row) { issues = row_issues (row ∷ rows) })

-- An entry to which rows of the same tool are added.
abbrev extended : Option AnalysisTool → List ToolIssueRow → Option AnalysisTool
extended none [] = none
extended none (row ∷ rows) = some (record (new_entry row) { issues = row_issues (row ∷ rows) })
extended (some entry) rows = some (record entry { issues = entry.issues ++ row_issues rows })

rows_of : ℕ → List ToolIssueRow → List ToolIssueRow
rows_of j rows = select (λ row. nat_beq row.tool_id j) rows

extended-nil : (o : Option AnalysisTool) → o ≡ extended o []
extended-nil none = refl
extended-nil (some entry) = ground (arith, append-nil entry.issues)

-- Adding a row to an entry and then the other rows, or all of them at once.
extended-cons :
    (o : Option AnalysisTool) (row : ToolIssueRow) (rows : List ToolIssueRow)
    → let entry = entry_or_new o row in
      extended (some (record entry { issues = entry.issues ++ row_issue row })) rows
      ≡ extended o (row ∷ rows)
unfolding new_entry
extended-cons none row rows = refl
extended-cons (some entry) row rows =
    ground (arith, append_assoc entry.issues (row_issue row) (row_issues rows))

lookup-add_row :
    (j : ℕ) (tools : Tools) (row : ToolIssueRow)
    → let entry = entry_or_new (lookup j tools) row in
      lookup j (add_row tools row) ≡ (
        if nat_beq row.tool_id j
        then some (record entry { issues = entry.issues ++ row_issue row })
        else lookup j tools)
unfolding add_row
lookup-add_row j tools row = elim (Bool-cases (nat_beq row.tool_id j)) [
  | inl same ↦
      let e : row.tool_id ≡ j = ground arith in
      rw (lookup-insert row.tool_id j _ tools, same, e) refl
  | inr other ↦ rw (lookup-insert row.tool_id j _ tools, other) refl
]

lookup-group_onto :
    (j : ℕ) (tools : Tools) (rows : List ToolIssueRow)
    → lookup j (group tools rows) ≡ extended (lookup j tools) (rows_of j rows)
unfolding group rows_of select
lookup-group_onto j tools [] = extended-nil (lookup j tools)
lookup-group_onto j tools (row ∷ rows) =
    lookup-group_onto j (add_row tools row) rows
    ∙ ap (λ o. extended o (rows_of j rows)) (lookup-add_row j tools row)
    ∙ elim (Bool-cases (nat_beq row.tool_id j)) [
      | inl same ↦ rw same (extended-cons (lookup j tools) row (rows_of j rows))
      | inr other ↦ rw other refl
    ]

extended-none : (rows : List ToolIssueRow) → extended none rows ≡ gathered rows
unfolding gathered
extended-none [] = refl
extended-none (row ∷ rows) = refl

-- For any rows, in any order: the analysis has an entry for exactly the tools that some row
-- names. An entry has the name, URL and duration of the tool's first row, and as its issues those
-- of all of the tool's rows that have one, in the order of the rows.
pub lookup-group :
    (j : ℕ) (rows : List ToolIssueRow)
    → lookup j (group [] rows) ≡ gathered (select (λ row. nat_beq row.tool_id j) rows)
unfolding rows_of lookup gathered
lookup-group j rows = lookup-group_onto j [] rows ∙ extended-none (rows_of j rows)
