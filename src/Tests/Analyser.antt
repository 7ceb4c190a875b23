-- ===== src/Tests/Analyser.antt =====
-- internal/analyser on a small machine.
use gopherci.Common.{
  ◌⊎◌, fields, insert, ◌≡◌, ◌≤◌, refl, true, false, List, [], ◌∷◌, ◌++◌, none, some, Bytes, ok,
  message, non_zero, pos, length, map, select,
}
use gopherci.Db.{Tool, Issue, Analysis, new_analysis}
use gopherci.Analyser.{Library, RevIssue, push_cloner, fixed_ref}
use gopherci.Analyser.Machine.{Machine, executer_of}
use gopherci.Analyser.Run.{
  analyse, filter_issues, issue_of, run_tools, run_tool, check_output, generated_by,
}
use gopherci.Analyser.Honesty.{Keeps}
use gopherci.Analyser.Run.Honest.{analyse-Keeps}
use gopherci.Analyser.Run.Filter.{filter_issues_lem, run_tools-Covers, KnowsOrigin, Covers, asked}
use gopherci.Analyser.Suppress.{suppress, suppress_parts}
use gopherci.Analyser.Docker.{Engine, Docker, create, new_executer}
use gopherci.Analyser.Docker.Cleanup.{new_executer-MakesExecuter, MakesExecuter}

abbrev found : List RevIssue
found =
    record { file = 97 ∷ []; line_no = 1; hunk_pos = 2; message = 98 ∷ [] }
    ∷ record { file = []; line_no = 3; hunk_pos = 4; message = 99 ∷ [] }
    ∷ []

abbrev library : Library (List Bytes)
library = record {
  revgrep = λ patch regexp path out. ok found;
  unmarshal = λ yml config. ok config;
  quoted = λ s. s;
  elapsed = λ from to. 1;
}

-- A machine on which every command exits with status 1, which `isFileGenerated` does for a file
-- that is not generated.
abbrev machine : Machine
machine = record { run = λ h args. ([], some (non_zero args (pos 1))) }

-- A machine on which every command succeeds.
abbrev good_machine : Machine
good_machine = record { run = λ h args. ([], none) }

abbrev tool : Tool
tool = record { id = 3; name = []; url = []; path = []; args = []; regexp = [] }

analyse-Keeps_example : Keeps good_machine (
    analyse library
      (executer_of good_machine)
      (push_cloner [] [])
      (tool ∷ [])
      (fixed_ref [])
      []
      new_analysis
      [])
analyse-Keeps_example =
    analyse-Keeps good_machine library (push_cloner [] []) (tool ∷ []) (fixed_ref []) []
      new_analysis [] tt

machine-KnowsOrigin : KnowsOrigin library machine (λ _. false) []
machine-KnowsOrigin h i = (_, refl)

filter_issues_lem_example : filter_issues library (executer_of machine) tool [] found [] ≡ (
  ok (map (issue_of tool) (select (λ _. true) found)),
  asked library machine (λ _. false) [] found [],
)
filter_issues_lem_example =
    filter_issues_lem library machine (λ _. false) [] machine-KnowsOrigin tool found []

-- The result of one tool, all of whose issues are in generated files.
abbrev analysed : Analysis
analysed = record new_analysis {
  tools = (3, record { tool = none; tool_id = 0; duration = 1; issues = [] }) ∷ [];
}

ran :
    (run_tools library (executer_of good_machine) [] [] [] (tool ∷ []) new_analysis []).0
    ≡ ok analysed
unfolding run_tools run_tool fields check_output filter_issues generated_by insert new_analysis
ran = refl

run_tools-Covers_example : Covers (tool ∷ []) new_analysis.tools analysed.tools 3
run_tools-Covers_example =
    run_tools-Covers library (executer_of good_machine) [] [] [] (tool ∷ []) new_analysis []
      analysed 3 ran

abbrev issue : Issue
issue = record { id = 0; path = []; line = 0; hunk_pos = 0; issue = [] }

suppress_parts_example :
    (dropped : List Issue) × (issue ∷ issue ∷ issue ∷ []
      ≡ (suppress (issue ∷ issue ∷ issue ∷ []) 2).1 ++ dropped)
    × ((suppress (issue ∷ issue ∷ issue ∷ []) 2).0 ≡ length dropped)
    × (length (suppress (issue ∷ issue ∷ issue ∷ []) 2).1 ≤ 2)
    × ((dropped ≡ []) ⊎ (length (suppress (issue ∷ issue ∷ issue ∷ []) 2).1 ≡ 2))
suppress_parts_example = suppress_parts (issue ∷ issue ∷ issue ∷ []) 2

-- An engine that creates a container but cannot start it.
abbrev engine : Engine
engine = record {
  unix_nano = λ h. 0;
  join_path = λ parts. [];
  quoted = λ s. s;
  container_created = λ h. ok (7 ∷ []);
  container_started = λ h. some (message []);
  exec_created = λ h. ok [];
  exec_ran = λ h. ([], none);
  exec_inspected = λ h. ok (pos 0);
  container_stopped = λ h. none;
  container_removed = λ h. none;
}

abbrev docker : Docker
docker = record { image = []; mem_limit = 512 }

new_executer-MakesExecuter_example :
    MakesExecuter (create engine docker []) (new_executer engine docker [] [])
new_executer-MakesExecuter_example = new_executer-MakesExecuter engine docker [] []
