-- ===== src/Tests/Github.antt =====
-- internal/github and a page of internal/web with a small configuration and world.
use gopherci.Common.{
  panic, ℕ, zero, suc, ◌≡◌, refl, false, not, List, [], ◌∷◌, ◌++◌, none, some, Bytes, lit, Result,
  ok, select, any, bytes_beq, ◌==◌, bytes_eq,
}
use gopherci.Db.{GhInstallation, new_analysis, Issue, issues_of, Analysis}
use gopherci.Analyser.{Library}
use gopherci.Github.{
  pull_request_event, World, Config, Call, Repository, PushEvent, Branch, PullRequestEvent,
  push_event, ExistingComment, list_comments,
}
use gopherci.Github.Reporters.Review.{report_pr_review-ReviewsOnce, ReviewsOnce}
use gopherci.Github.Reporters.{report_pr_review, dedupe_pr_issues, same_comment}
use gopherci.Github.Reporters.Dedupe.{dedupe_pr_issues_lem, after_listing}
use gopherci.Github.Jobs.{AnalyseConfig, push_config, is_scheme_char, separator, strip_scheme}
use gopherci.Github.Jobs.Scheme.{strip_scheme-append, IsScheme}
use gopherci.Github.Webhook.{
  webhook, callback, redirected, handle_push, handle_pull_request, pages_affect_go, finished,
  is_go_file,
}
use gopherci.Github.Webhook.Replies.{webhook-Grows, Grows}
use gopherci.Github.Installation.{diff, new_installation}
use gopherci.Web.Page.Shown.{Replies, analysis_handler-Replies}
use gopherci.Web.Page.{Source, analysis_handler}
use gopherci.Github.Webhook.Callback.{callback-StaysOnBase, callback-append, StaysOnBase}
use gopherci.Github.Webhook.Pages.{Pages, last, more, pages_affect_go_lem}
use gopherci.Github.Webhook.Queued.{
  handle_push-Ends, handle_pull_request-Ends, Ends, PushEligible, PullRequestQueued, jobs,
}
use gopherci.Github.Analyse.{prepare, analyse}
use gopherci.Github.Analyse.Balance.{analyse-Balanced, Balanced}
use gopherci.Github.Analyse.Recorded.{unrecorded-analyse, unrecorded}
use gopherci.Github.Analyse.Settled.{analyse-Outcome, Outcome}

abbrev pub config : Config
config = record { base_url = 98 ∷ []; gci_base_url = 103 ∷ [] }

abbrev installation : GhInstallation
installation = record { id = 1; installation_id = 2; account_id = 3; sender_id = 4; enabled_at = 5 }

abbrev comment : ExistingComment
comment = record { body = some (98 ∷ []); path = some (97 ∷ []); position = some 4 }

abbrev library : Library Call
library = record {
  revgrep = λ patch regexp path out. ok [];
  unmarshal = λ yml c. ok c;
  quoted = λ s. s;
  elapsed = λ from to. 1;
}

-- The second page of files has "x.go".
abbrev files : ℕ → Result (List Bytes × ℕ)
files zero = ok ((120 ∷ []) ∷ [], 2)
files (suc n) = ok ((120 ∷ 46 ∷ 103 ∷ 111 ∷ []) ∷ [], 0)

abbrev pub world : World
world = record {
  now = λ h. 10;
  installation = λ h i. ok (some installation);
  transport = λ i. none;
  base_url_error = none;
  added = λ h. none;
  removed = λ h. none;
  tools = λ h. ok [];
  started = λ h. ok new_analysis;
  finished = λ h s. none;
  written = λ h. none;
  executer = λ h. none;
  executed = λ h args. ([], none);
  files = λ h p. files p;
  pull = λ h. none;
  comments = λ h. ok (comment ∷ []);
  commented = λ h. none;
  request_error = λ url. none;
  status_response = λ h s. ok 201;
  diff_url = λ h url. ok url;
  page = λ h url. ok [];
  range = λ h tools. tools;
  library = library;
}

abbrev issue : Issue
issue = record { id = 0; path = 97 ∷ []; line = 1; hunk_pos = 4; issue = 98 ∷ [] }

dedupe_pr_issues_lem_example :
    dedupe_pr_issues world [] [] 7 (issue ∷ record issue { hunk_pos = 5 } ∷ []) [] ≡ (
      after_listing (ok (comment ∷ [])) (λ existing.
          select
            (λ i. not (any (same_comment i) existing))
            (issue ∷ record issue { hunk_pos = 5 } ∷ [])),
      list_comments [] [] 7 ∷ [],
    )
dedupe_pr_issues_lem_example =
    dedupe_pr_issues_lem world [] [] 7 (issue ∷ record issue { hunk_pos = 5 } ∷ []) []

abbrev repository : Repository
repository = record {
  id = 1;
  owner = [];
  name = [];
  clone_url = [];
  html_url = [];
  statuses_url = [];
  private = false;
}

abbrev push : PushEvent
push = record {
  installation_id = 2;
  repo = repository;
  after = [];
  created = none;
  commits = record { added = []; modified = (46 ∷ 103 ∷ 111 ∷ []) ∷ []; removed = [] } ∷ [];
}

handle_push-Ends_example :
    Ends
      (λ _ h'. PushEligible config world push [] × (jobs h' ≡ push_event push ∷ []))
      []
      (handle_push config world push [])
handle_push-Ends_example = handle_push-Ends config world push []

abbrev branch : Branch
branch = record { ref = []; sha = []; repo = repository }

abbrev pub pull_request : PullRequestEvent
pull_request = record {
  installation_id = 2;
  action = some (lit "opened");
  number = 7;
  repo = repository;
  base = branch;
  head = branch;
  statuses_url = [];
}

handle_pull_request-Ends_example :
    Ends
      (PullRequestQueued config world pull_request [])
      []
      (handle_pull_request config world 2 pull_request [])
handle_pull_request-Ends_example = handle_pull_request-Ends config world 2 pull_request []

pages : Pages world 2 0 ((120 ∷ []) ∷ (120 ∷ 46 ∷ 103 ∷ 111 ∷ []) ∷ [])
pages =
    more 1 0 1 ((120 ∷ []) ∷ []) ((120 ∷ 46 ∷ 103 ∷ 111 ∷ []) ∷ []) (λ h. refl)
      (last 0 2 ((120 ∷ 46 ∷ 103 ∷ 111 ∷ []) ∷ []) (λ h. refl))

pages_affect_go_lem_example :
    (pages_affect_go config world [] [] 7 2 0 []).0
    ≡ ok (finished (any is_go_file ((120 ∷ []) ∷ (120 ∷ 46 ∷ 103 ∷ 111 ∷ []) ∷ [])))
pages_affect_go_lem_example =
    pages_affect_go_lem config world [] [] 7 2 0 ((120 ∷ []) ∷ (120 ∷ 46 ∷ 103 ∷ 111 ∷ []) ∷ []) []
      pages

callback-StaysOnBase_example :
    StaysOnBase config (103 ∷ 47 ∷ []) (callback config (ok tt) (103 ∷ 47 ∷ []))
callback-StaysOnBase_example = callback-StaysOnBase config (ok tt) (103 ∷ 47 ∷ [])

given : (config.gci_base_url ++ (46 ∷ 101 ∷ 118 ∷ 105 ∷ 108 ∷ []) == []) ≡ false
unfolding bytes_beq
given = refl

-- The base URL "g", and a host "g.evil" that extends it.
callback-append_example :
    callback config (ok tt) (103 ∷ 46 ∷ 101 ∷ 118 ∷ 105 ∷ 108 ∷ [])
    ≡ redirected (103 ∷ 46 ∷ 101 ∷ 118 ∷ 105 ∷ 108 ∷ []) 303
callback-append_example = callback-append config (46 ∷ 101 ∷ 118 ∷ 105 ∷ 108 ∷ []) given

valid : IsScheme (104 ∷ [])
unfolding is_scheme_char
valid = (refl, tt)

-- The URL "h://x".
strip_scheme-append_example :
    strip_scheme ((104 ∷ []) ++ (separator ++ (120 ∷ []))) ≡ strip_scheme (120 ∷ [])
strip_scheme-append_example = strip_scheme-append 104 [] (120 ∷ []) valid

abbrev job : AnalyseConfig
job = push_config push

analyse-Balanced_example : Balanced config world [] (analyse config world job []).1
analyse-Balanced_example = analyse-Balanced config world job []

unrecorded-analyse_example : unrecorded world (analyse config world job []).1 ≡ unrecorded world []
unrecorded-analyse_example = unrecorded-analyse config world job []

analyse-Outcome_example : Outcome (prepare config world job []) (analyse config world job [])
analyse-Outcome_example = analyse-Outcome config world (λ h s. tt) job []

webhook-Grows_example :
    Grows
      (pull_request_event pull_request)
      []
      (webhook config world 2 (ok []) (λ _. ok (pull_request_event pull_request)) [])
webhook-Grows_example =
    webhook-Grows config world 2 [] (λ _. ok (pull_request_event pull_request))
      (pull_request_event pull_request) [] refl

-- The page of an analysis of a pull request with one issue, whose installation is disabled or gone.
abbrev analysis : Analysis
analysis = record new_analysis {
  installation_id = 2;
  request_number = 7;
  tools = (1, record { tool = none; tool_id = 1; duration = 0; issues = issue ∷ [] }) ∷ [];
}

abbrev gone_world : World
gone_world = record world { installation = λ h i. ok none }

abbrev source : Source
source = record {
  analysis = λ id. ok (some analysis);
  outputs = λ id. ok [];
  status_text = λ code. [];
  parse = λ s. ok [];
  quoted = λ s. s;
  range = λ tools. tools;
}

analysis_handler-Replies_example :
    Replies config world source 1 [] (analysis_handler config world source [] (ok 1) []).0
analysis_handler-Replies_example = analysis_handler-Replies config world source [] 1 []

analysis_handler_gone :
    (analysis_handler config gone_world source [] (ok 1) []).0
    ≡ panic (lit "nil pointer dereference")
unfolding analysis_handler new_installation diff issues_of
analysis_handler_gone = refl

report_pr_review-ReviewsOnce_example :
    ReviewsOnce [] [] 7 [] []
      (report_pr_review world [] [] 7 [] (issue ∷ record issue { hunk_pos = 5 } ∷ []) [])
report_pr_review-ReviewsOnce_example =
    report_pr_review-ReviewsOnce world [] [] 7 [] (issue ∷ record issue { hunk_pos = 5 } ∷ []) []
