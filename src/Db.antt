-- ===== src/Db.antt =====
-- internal/db/db.go: the rows and values that the DB interface exchanges, and their methods. Ids
-- and line numbers are the unsigned columns of migrations/, so they are natural numbers. The
-- creation time of an analysis is only shown on its page, and is left out.
pub mod Recording
pub mod Mock
pub mod Rows
pub mod Sql
pub mod Recorder
pub mod Duration
use gopherci.Common.{
  ℕ, ◌+◌, Bool, true, false, not, ◌&&◌, List, [], ◌∷◌, ◌++◌, Option, none, some, Bytes, lit, itoa,
  ltb, ◌==◌, nat_eq, bytes_eq, if◌then◌else◌, Dict, Result, ok, err, Error, message, ◌≡◌,
}

pub data AnalysisStatus : Type 0 where
  pending failure success error : AnalysisStatus

-- A column is NULL (`none`) or the bytes of its text.
unfoldable pub scan_status : Option Bytes → Result AnalysisStatus
scan_status none = ok pending
scan_status (some value) =
    if value == lit "Pending"
    then ok pending
    else if value == lit "Failure"
    then ok failure
    else if value == lit "Success"
    then ok success
    else if value == lit "Error"
    then ok error
    else err (message (lit "unknown analysis status"))

-- `string(status)`
unfoldable pub status_text : AnalysisStatus → Bytes
status_text pending = lit "Pending"
status_text failure = lit "Failure"
status_text success = lit "Success"
status_text error = lit "Error"

-- Times count seconds from Go's zero time.
pub record GhInstallation : Type 0 where
  pub id : ℕ
  pub installation_id : ℕ
  pub account_id : ℕ
  pub sender_id : ℕ
  pub enabled_at : ℕ

-- `IsEnabled`, at the time `now`.
unfoldable pub is_enabled : ℕ → GhInstallation → Bool
is_enabled now i = ltb i.enabled_at now && not (i.enabled_at == 0)

pub record Tool : Type 0 where
  pub id : ℕ
  pub name : Bytes
  pub url : Bytes
  pub path : Bytes
  pub args : Bytes
  pub regexp : Bytes

pub record Issue : Type 0 where
  pub id : ℕ
  pub path : Bytes
  pub line : ℕ
  pub hunk_pos : ℕ
  pub issue : Bytes

pub record AnalysisTool : Type 0 where
  pub tool : Option Tool
  pub tool_id : ℕ
  pub duration : ℕ
  pub issues : List Issue

abbrev pub Tools : Type 0
Tools = Dict ℕ AnalysisTool

pub record Analysis : Type 0 where
  pub id : ℕ
  pub installation_id : ℕ
  pub repository_id : ℕ
  pub commit_from : Bytes
  pub commit_to : Bytes
  pub request_number : ℕ
  pub status : AnalysisStatus
  pub clone_duration : ℕ
  pub deps_duration : ℕ
  pub total_duration : ℕ
  pub tools : Tools

-- `NewAnalysis`: the zero value with an empty map.
unfoldable pub new_analysis : Analysis
new_analysis = record {
  id = 0;
  installation_id = 0;
  repository_id = 0;
  commit_from = [];
  commit_to = [];
  request_number = 0;
  status = pending;
  clone_duration = 0;
  deps_duration = 0;
  total_duration = 0;
  tools = [];
}

-- `Issues`, over the map's entries in the order in which a `range` visits them.
unfoldable pub issues_of : Tools → List Issue
issues_of [] = []
issues_of ((_, t) ∷ rest) = t.issues ++ issues_of rest

unfoldable pub html_url : Analysis → Bytes → Bytes
html_url a prefix = prefix ++ lit "/analysis/" ++ itoa a.id

unfoldable pub is_push : Analysis → Bool
is_push a = a.request_number == 0

pub record Output : Type 0 where
  pub id : ℕ
  pub analysis_id : ℕ
  pub arguments : Bytes
  pub duration : ℕ
  pub output : Bytes
