-- ===== src/Db/Rows.antt =====
-- internal/db/sqldb.go: how `GetAnalysis` gathers the joined rows of tools and issues by tool.
pub mod Grouping
use gopherci.Common.{
  ℕ, List, [], ◌∷◌, ◌++◌, Option, none, some, Bytes, lookup, insert, nat_eq, Dict,
}
use gopherci.Db.{Tool, Issue, AnalysisTool, Tools}

-- A tool that ran, with one of its issues; the columns of the issue are NULL if it has none.
pub record ToolIssueRow : Type 0 where
  pub tool_id : ℕ
  pub name : Bytes
  pub url : Bytes
  pub duration : ℕ
  pub line_id : Option ℕ
  pub path : Option Bytes
  pub line : Option ℕ
  pub hunk_pos : Option ℕ
  pub issue : Option Bytes

-- The `Int64` of a `sql.NullInt64`, and the `String` of a `sql.NullString`.
abbrev pub int_or_zero : Option ℕ → ℕ
int_or_zero none = 0
int_or_zero (some n) = n

abbrev pub text_or_empty : Option Bytes → Bytes
text_or_empty none = []
text_or_empty (some s) = s

-- The entry of a tool that is met for the first time.
unfoldable pub new_entry : ToolIssueRow → AnalysisTool
new_entry row = record {
  tool = some (record {
    id = row.tool_id;
    name = row.name;
    url = row.url;
    path = [];
    args = [];
    regexp = [];
  });
  tool_id = row.tool_id;
  duration = row.duration;
  issues = [];
}

-- The issue of a row, if its `Issue.Valid`.
unfoldable pub row_issue : ToolIssueRow → List Issue
row_issue row = of_text row.issue
  where
    of_text : Option Bytes → List Issue
    of_text none = []
    of_text (some text) =
        record {
          id = int_or_zero row.line_id;
          path = text_or_empty row.path;
          line = int_or_zero row.line;
          hunk_pos = int_or_zero row.hunk_pos;
          issue = text;
        }
        ∷ []

abbrev pub entry_or_new : Option AnalysisTool → ToolIssueRow → AnalysisTool
entry_or_new none row = new_entry row
entry_or_new (some entry) row = entry

-- The body of the loop. Both of its writes are to the row's own key, so they are one here.
unfoldable pub add_row : Tools → ToolIssueRow → Tools
add_row tools row =
    let entry = entry_or_new (lookup row.tool_id tools) row in
    insert row.tool_id (record entry { issues = entry.issues ++ row_issue row }) tools

unfoldable pub group : Tools → List ToolIssueRow → Tools
unfolding add_row
group tools [] = tools
group tools (row ∷ rows) = group (add_row tools row) rows
