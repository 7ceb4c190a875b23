-- ===== src/Github/Analyse.antt =====
-- internal/github/handlers.go: `GitHub.Analyse`, from the installation to the recorded result. The
-- time limit of its context is left out.
pub mod Settled
pub mod Background
pub mod Kept
pub mod Balance
pub mod Recorded
use gopherci.Common.{
  ℕ, List, [], ◌∷◌, ◌++◌, Option, none, some, Bytes, lit, itoa, Result, ok, err, panic, Go, ask,
  Error, pure, fail, check, try, wrapping, ◌>>=◌, ◌>>◌, message, wrap, if◌then◌else◌, not, ◌==◌,
  nat_eq, ltb,
}
use gopherci.Db.{Tool, Analysis, AnalysisStatus, success, error, Issue, Tools, issues_of, html_url}
use gopherci.Db.Recorder.{recorder}
use gopherci.Analyser.{Executer}
use gopherci.Github.{
  Config, World, Call, list_tools, start_analysis, finish_analysis, write_execution, new_executer,
  execute, stop_executer, status_pending, status_error,
}
use gopherci.Github.Installation.{Installation, new_installation}
use gopherci.Github.Jobs.{AnalyseConfig}
use gopherci.Github.Reporters.{
  set_status, report_status, report_pr_review, report_inline_commit, report_commit,
}
use gopherci.Analyser.Run

-- What is known once the analysis has begun.
pub record Session : Type 0 where
  pub tools : List Tool
  pub analysis : Analysis
  pub analysis_url : Bytes

-- A `defer`: `last` sees how the function ends. A panic of `last` replaces its result.
abbrev pub after : {A : Type 0} → Result A → Result (Unit {0}) → Result A
after r (panic m) = panic m
after r _ = r

abbrev pub deferred : {A : Type 0} → Go Call A → (Result A → Go Call (Unit {0})) → Go Call A
deferred m last h = let (r, h') = m h in let (s, h'') = last r h' in (after r s, h'')

module _ (config : Config) (world : World) where
  -- `if !install.IsEnabled()`
  abbrev pub require_installation : ℕ → Option Installation → Go Call Installation
  require_installation id none =
      fail (message (lit "could not find installation with ID " ++ itoa id))
  require_installation id (some i) = pure i

  -- Up to the pending status, which is before the first `defer` that looks at the result.
  unfoldable pub prepare : AnalyseConfig → Go Call Session
  prepare cfg = do
    found ←
        wrapping (lit "error getting installation")
          (new_installation config world cfg.installation_id)
    install ← require_installation cfg.installation_id found
    tools ← wrapping (lit "could not get tools") (ask list_tools (λ h. world.tools h))
    analysis ← wrapping (lit "error starting analysis") (
        ask (start_analysis install.id cfg.repository_id cfg.commit_from cfg.commit_to cfg.pr)
          (λ h. world.started h))
    let analysis_url = html_url analysis config.gci_base_url
    set_status world cfg.statuses_url cfg.statuses_context analysis_url status_pending
        (lit "In progress")
    pure (record { tools = tools; analysis = analysis; analysis_url = analysis_url })

  abbrev pub finish : ℕ → AnalysisStatus → Option Analysis → Go Call (Option Error)
  finish id status analysis =
      ask (finish_analysis id status analysis) (λ h. ok (world.finished h status))

  -- The deferred function; the errors of its two calls are only logged.
  abbrev pub clean_up : AnalyseConfig → Session → Result (Unit {0}) → Go Call (Unit {0})
  clean_up cfg s (ok _) = pure tt
  clean_up cfg s _ = do
    try (
        set_status world cfg.statuses_url cfg.statuses_context s.analysis_url status_error
          (lit "Internal error"))
    finish s.analysis.id error none
    pure tt

  -- The executer of `NewExecuter` in the database's recorder.
  unfoldable pub recorded_executer : ℕ → Executer Call
  unfolding recorder
  recorded_executer id =
      recorder world.library.elapsed
        (λ args duration out.
          ask (write_execution id args duration out) (λ h. ok (world.written h)))
        (record {
          execute = λ args. ask (execute args) (λ h. ok (world.executed h args));
          stop = ask stop_executer (λ h. ok tt);
        })

  -- The reporters of an analysis, in the order in which they run.
  unfoldable pub reporters : AnalyseConfig → Bytes → List (List Issue → Go Call (Unit {0}))
  reporters cfg url =
      report_status world cfg.statuses_url cfg.statuses_context url
      ∷ (if not (cfg.pr == 0)
          then report_pr_review world cfg.owner cfg.repo cfg.pr cfg.sha ∷ []
          else if cfg.commit_count == 1
          then report_inline_commit world cfg.owner cfg.repo cfg.sha ∷ []
          else if ltb 1 cfg.commit_count
          then report_commit world cfg.owner cfg.repo cfg.sha cfg.commit_count url ∷ []
          else [])

  -- The loop over the reporters; each is given `analysis.Issues()` anew.
  unfoldable pub report_all : List (List Issue → Go Call (Unit {0})) → Tools → Go Call (Unit {0})
  report_all [] tools = pure tt
  report_all (reporter ∷ rest) tools = do
    wrapping (lit "error reporting issues") (λ h. reporter (issues_of (world.range h tools)) h)
    report_all rest tools

  abbrev pub run_analyser : AnalyseConfig → Session → Go Call Analysis
  run_analyser cfg s = wrapping (lit "could not run analyser") (
      Run.analyse world.library (recorded_executer s.analysis.id) cfg.cloner s.tools cfg.ref_reader
        cfg.head_ref s.analysis)

  abbrev pub finish_failure : ℕ → Error → Error
  finish_failure id e = wrap e (lit "could not set analysis status for analysisID " ++ itoa id)

  abbrev pub record_success : Session → Analysis → Go Call (Unit {0})
  record_success s result = do
    failure ← finish s.analysis.id success (some result)
    check failure (finish_failure s.analysis.id) (pure tt)

  abbrev pub report : AnalyseConfig → Session → Analysis → Go Call (Unit {0})
  report cfg s result =
      report_all (reporters cfg s.analysis_url) result.tools >> record_success s result

  -- From the executer's creation to its deferred stop.
  unfoldable pub run_in_executer : AnalyseConfig → Session → Go Call (Unit {0})
  run_in_executer cfg s = run_analyser cfg s >>= report cfg s

  abbrev pub execute_analysis : AnalyseConfig → Session → Go Call (Unit {0})
  execute_analysis cfg s = do
    failure ← ask (new_executer cfg.go_src_path) (λ h. ok (world.executer h))
    check failure (λ e. wrap e (lit "analyser could create new executer"))
        (deferred (run_in_executer cfg s) (λ _. ask stop_executer (λ h. ok tt)))

  -- `Analyse`
  unfoldable pub analyse : AnalyseConfig → Go Call (Unit {0})
  unfolding prepare run_in_executer
  analyse cfg = prepare cfg >>= λ s. deferred (execute_analysis cfg s) (clean_up cfg s)
