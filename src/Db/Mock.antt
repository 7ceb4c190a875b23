-- ===== src/Db/Mock.antt =====
-- internal/db/mockdb.go: the in-memory implementation of the DB interface. A method returns the
-- new state and its results.
pub mod Lookups
use gopherci.Common.{
  ℕ, ◌≡◌, refl, Bool, true, false, List, [], ◌∷◌, Option, none, some, Bytes, arith, ◌==◌, nat_eq,
  nat_beq_iff, if◌then◌else◌, Dict, lookup, insert, erase, lookup-insert, lookup-erase, Error,
}
use gopherci.Db.{GhInstallation, Tool, Analysis, new_analysis, AnalysisStatus, Output}

pub record MockDb : Type 0 where
  pub installations : Dict ℕ GhInstallation
  pub err : Option Error
  pub tools : List Tool

unfoldable pub new_mock_db : MockDb
new_mock_db = record { installations = []; err = none; tools = [] }

unfoldable pub force_error : MockDb → Option Error → MockDb
force_error db e = record db { err = e }

unfoldable pub add_gh_installation : MockDb → ℕ → ℕ → ℕ → MockDb × Option Error
add_gh_installation db installation_id account_id sender_id =
    let row : GhInstallation = record {
      id = 0;
      installation_id = installation_id;
      account_id = account_id;
      sender_id = sender_id;
      enabled_at = 0;
    } in
    (record db { installations = insert installation_id row db.installations }, db.err)

unfoldable pub remove_gh_installation : MockDb → ℕ → MockDb × Option Error
remove_gh_installation db installation_id =
    (record db { installations = erase installation_id db.installations }, db.err)

-- A missing key reads as the zero value.
abbrev found_or_zero : Option GhInstallation → GhInstallation
found_or_zero none = record {
  id = 0;
  installation_id = 0;
  account_id = 0;
  sender_id = 0;
  enabled_at = 0;
}
found_or_zero (some i) = i

-- `time.Unix(1, 0)`, in seconds from Go's zero time.
abbrev pub unix_one : ℕ
unix_one = 62135596801

unfoldable pub enable_gh_installation : MockDb → ℕ → MockDb × Option Error
enable_gh_installation db installation_id =
    let old = found_or_zero (lookup installation_id db.installations) in
    let row : GhInstallation = record old { enabled_at = unix_one } in
    (record db { installations = insert installation_id row db.installations }, db.err)

unfoldable pub get_gh_installation : MockDb → ℕ → Option GhInstallation × Option Error
get_gh_installation db installation_id = (lookup installation_id db.installations, db.err)

unfoldable pub list_tools : MockDb → List Tool × Option Error
list_tools db = (db.tools, none)

unfoldable pub start_analysis : MockDb → ℕ → ℕ → Bytes → Bytes → ℕ → Analysis × Option Error
unfolding new_analysis
start_analysis db gh_installation_id repository_id commit_from commit_to request_number = (
  record new_analysis {
    id = 99;
    commit_from = commit_from;
    commit_to = commit_to;
    request_number = request_number;
  },
  none,
)

unfoldable pub finish_analysis : MockDb → ℕ → AnalysisStatus → Option Analysis → Option Error
finish_analysis db analysis_id status analysis = none

unfoldable pub get_analysis : MockDb → ℕ → Option Analysis × Option Error
get_analysis db analysis_id = (none, none)

unfoldable pub analysis_outputs : MockDb → ℕ → List Output × Option Error
analysis_outputs db analysis_id = ([], none)
