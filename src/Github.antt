-- ===== src/Github.antt =====
-- internal/github: the events that it handles, the calls that it makes of the database, the
-- executers and the APIs, and the answers to them. Fields of a payload that the code dereferences
-- without a test are taken to be there, except the action of a pull request. Numbers of a payload
-- are natural numbers, and an absent `private` is false, as `GetPrivate` has it.
pub mod Installation
pub mod Reporters
pub mod Jobs
pub mod Webhook
pub mod Analyse
use gopherci.Common.{lit, ℕ, Bool, List, Option, Bytes, Result, Go, ask, ok, pure, Error, ◌>>=◌}
use gopherci.Db.{GhInstallation, Tool, Tools, Analysis, AnalysisStatus}
use gopherci.Analyser.{Library, Executer}

pub record Commit : Type 0 where
  pub added : List Bytes
  pub modified : List Bytes
  pub removed : List Bytes

pub record Repository : Type 0 where
  pub id : ℕ
  pub owner : Bytes
  pub name : Bytes
  pub clone_url : Bytes
  pub html_url : Bytes
  pub statuses_url : Bytes
  pub private : Bool

pub record PushEvent : Type 0 where
  pub installation_id : ℕ
  pub repo : Repository
  pub after : Bytes
  pub created : Option Bool
  pub commits : List Commit

pub record Branch : Type 0 where
  pub ref : Bytes
  pub sha : Bytes
  pub repo : Repository

pub record PullRequestEvent : Type 0 where
  pub installation_id : ℕ
  pub action : Option Bytes
  pub number : ℕ
  pub repo : Repository
  pub base : Branch
  pub head : Branch
  pub statuses_url : Bytes

pub record InstallationEvent : Type 0 where
  pub action : Bytes
  pub installation_id : ℕ
  pub account_id : ℕ
  pub sender_id : ℕ

pub data Event : Type 0 where
  installation_event : InstallationEvent → Event
  push_event : PushEvent → Event
  pull_request_event : PullRequestEvent → Event
  other_event : Event

pub data StatusState : Type 0 where
  status_pending status_success status_error status_failure : StatusState

-- A comment on a line of a pull request or commit, and an existing one.
pub record Comment : Type 0 where
  pub body : Bytes
  pub path : Bytes
  pub position : ℕ

pub record ExistingComment : Type 0 where
  pub body : Option Bytes
  pub path : Option Bytes
  pub position : Option ℕ

-- What is asked of the outside. Logging is left out.
pub data Call : Type 0 where
  get_gh_installation : (installation_id : ℕ) → Call
  add_gh_installation : (installation_id account_id sender_id : ℕ) → Call
  remove_gh_installation : (installation_id : ℕ) → Call
  list_tools : Call
  start_analysis : (gh_installation_id repository_id : ℕ) → (from to : Bytes) → (pr : ℕ) → Call
  finish_analysis : (analysis_id : ℕ) → AnalysisStatus → Option Analysis → Call
  write_execution : (analysis_id : ℕ) → List Bytes → (duration : ℕ) → Bytes → Call
  new_executer : (go_src_path : Bytes) → Call
  execute : List Bytes → Call
  stop_executer : Call
  queue_push : Event → Call
  list_files : (owner repo : Bytes) → (number page : ℕ) → Call
  get_pull_request : (owner repo : Bytes) → (number : ℕ) → Call
  list_comments : (owner repo : Bytes) → (number : ℕ) → Call
  create_comment : (owner repo : Bytes) → (number : ℕ) → (commit : Bytes) → Comment → Call
  create_review : (owner repo : Bytes) → (number : ℕ) → (commit : Bytes) → List Comment → Call
  create_commit_comment : (owner repo commit body : Bytes) → Call
  create_inline_comment : (owner repo commit : Bytes) → Comment → Call
  post_status : (url : Bytes) → StatusState → (target_url description context : Bytes) → Call
  get_diff_url : (url : Bytes) → Call
  http_get : (url : Bytes) → Call

abbrev pub History : Type 0
History = List Call

-- How a request for a pull request fails: the error, and the status of a response if there is one.
pub record PullFailure : Type 0 where
  pub error : Error
  pub response : Option (ℕ × Bytes)

-- The answers, after the calls made so far. `now` is the time, `range` the order in which Go
-- visits a map, and `transport` the error of setting up an installation's client.
pub record World : Type 0 where
  pub now : History → ℕ
  pub installation : History → ℕ → Result (Option GhInstallation)
  pub transport : ℕ → Option Error
  pub base_url_error : Option Error
  pub added : History → Option Error
  pub removed : History → Option Error
  pub tools : History → Result (List Tool)
  pub started : History → Result Analysis
  pub finished : History → AnalysisStatus → Option Error
  pub written : History → Option Error
  pub executer : History → Option Error
  pub executed : History → List Bytes → Bytes × Option Error
  pub files : History → ℕ → Result (List Bytes × ℕ)
  pub pull : History → Option PullFailure
  pub comments : History → Result (List ExistingComment)
  pub commented : History → Option Error
  pub request_error : (url : Bytes) → Option Error
  pub status_response : History → StatusState → Result ℕ
  pub diff_url : History → Bytes → Result Bytes
  pub page : History → Bytes → Result Bytes
  pub range : History → Tools → Tools
  pub library : Library Call

-- What `GitHub` is configured with.
pub record Config : Type 0 where
  pub base_url : Bytes
  pub gci_base_url : Bytes

-- `New`: the API's base URL is fixed; what else `GitHub` has is in the answers of the outside.
unfoldable pub new_github_config : (gci_base_url : Bytes) → Config
new_github_config gci_base_url = record {
  base_url = lit "https://api.github.com";
  gci_base_url = gci_base_url;
}
