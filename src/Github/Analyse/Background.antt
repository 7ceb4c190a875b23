-- ===== src/Github/Analyse/Background.antt =====
-- internal/github: the calls that `GitHub.Analyse` makes beside those of its executer.
use gopherci.Common.{
  inl, inr, panic, err, ok, ask, ℕ, ◌≡◌, refl, All, Bool-cases, ltb, ◌==◌, nat_eq, inl, inr, List,
  [], ◌∷◌, Option, none, some, Bytes, Result, ok, err, panic, Go, IsQuiet, quiet_rules, if-IsQuiet,
  pure,
}
use gopherci.Db.{Issue, Tools, issues_of, GhInstallation, is_enabled}
use gopherci.Analyser.Quiet.{analyse-IsQuiet}
use gopherci.Github.{
  Config, World, Call, History, new_executer, execute, write_execution, stop_executer, queue_push,
  StatusState, create_inline_comment,
}
use gopherci.Github.Jobs.{AnalyseConfig}
use gopherci.Github.Installation.{new_installation, from_row, Installation, with_client}
use gopherci.Github.Reporters.{
  set_status, report_status, report_pr_review, report_inline_commit, report_commit, post_each,
  dedupe_pr_issues,
}
use gopherci.Github.Analyse.{
  Session, prepare, run_in_executer, clean_up, run_analyser, report_all, reporters,
  recorded_executer, require_installation,
}

-- The calls that concern neither an executer nor the queue.
abbrev pub Background : Call → Type 0
Background (new_executer path) = ⊥
Background (execute args) = ⊥
Background (write_execution id args duration output) = ⊥
Background stop_executer = ⊥
Background (queue_push e) = ⊥
Background _ = Unit {0}

module _ {V : Type 0} (measure : History → V) (world : World)
    (keeps : (c : Call) → Background c → (h : History) → measure (c ∷ h) ≡ measure h) where
  abbrev Quiet : {A : Type 0} → Go Call A → Type 0
  Quiet m = IsQuiet measure m

  -- A call in the background.
  ask-Quiet :
      {A : Type 0} (c : Call) (answer : History → Result A) → Background c → Quiet (ask c answer)
  ask-Quiet c answer background h = keeps c background h

  set_status-Quiet :
      (url context target : Bytes) (s : StatusState) (description : Bytes)
      → Quiet (set_status world url context target s description)
  unfolding set_status
  set_status-Quiet url context target s description = search (quiet_rules, ask-Quiet)

  report_status-Quiet :
      (url context target : Bytes) (issues : List Issue)
      → Quiet (report_status world url context target issues)
  unfolding report_status
  report_status-Quiet url context target issues = set_status-Quiet url context target _ _

  report_pr_review-Quiet :
      (owner repo : Bytes) (number : ℕ) (commit : Bytes) (issues : List Issue)
      → Quiet (report_pr_review world owner repo number commit issues)
  unfolding report_pr_review dedupe_pr_issues
  report_pr_review-Quiet owner repo number commit issues = search (quiet_rules, ask-Quiet)

  post_each-Quiet :
      (kind owner repo commit : Bytes) (issues : List Issue)
      → Quiet (post_each world kind commit (create_inline_comment owner repo commit) issues)
  unfolding post_each
  post_each-Quiet kind owner repo commit [] = λ h. refl
  post_each-Quiet kind owner repo commit (i ∷ issues) =
      search (quiet_rules, ask-Quiet, post_each-Quiet kind owner repo commit issues)

  report_inline_commit-Quiet :
      (owner repo commit : Bytes) (issues : List Issue)
      → Quiet (report_inline_commit world owner repo commit issues)
  unfolding report_inline_commit
  report_inline_commit-Quiet owner repo commit issues = post_each-Quiet _ owner repo commit _

  report_commit-Quiet :
      (owner repo commit : Bytes) (commits : ℕ) (url : Bytes) (issues : List Issue)
      → Quiet (report_commit world owner repo commit commits url issues)
  unfolding report_commit
  report_commit-Quiet owner repo commit commits url issues = search (quiet_rules, ask-Quiet)

module _ {V : Type 0} (measure : History → V) (config : Config) (world : World)
    (keeps : (c : Call) → Background c → (h : History) → measure (c ∷ h) ≡ measure h)
    (execute-Quiet : (id : ℕ) (args : List Bytes)
      → IsQuiet measure ((recorded_executer config world id).execute args)) where
  run_analyser-Quiet :
      (cfg : AnalyseConfig) (s : Session)
      → Quiet measure world keeps (run_analyser config world cfg s)
  run_analyser-Quiet cfg s =
      analyse-IsQuiet measure world.library (recorded_executer config world s.analysis.id)
        (execute-Quiet s.analysis.id) cfg.cloner s.tools cfg.ref_reader cfg.head_ref s.analysis

  reporters-Quiet :
      (cfg : AnalyseConfig) (url : Bytes)
      → All
          (λ reporter. (issues : List Issue) → Quiet measure world keeps (reporter issues))
          (reporters config world cfg url)
  unfolding reporters
  reporters-Quiet cfg url = (
    report_status-Quiet measure world keeps cfg.statuses_url cfg.statuses_context url,
    elim (Bool-cases (cfg.pr == 0)) [
      | inr pull ↦
          rw pull (report_pr_review-Quiet measure world keeps cfg.owner cfg.repo cfg.pr cfg.sha, tt)
      | inl push ↦ rw push (elim (Bool-cases (cfg.commit_count == 1)) [
        | inl one ↦
            rw one (report_inline_commit-Quiet measure world keeps cfg.owner cfg.repo cfg.sha, tt)
        | inr other ↦ rw other (elim (Bool-cases (ltb 1 cfg.commit_count)) [
          | inl more ↦ rw more (
            report_commit-Quiet measure world keeps cfg.owner cfg.repo cfg.sha cfg.commit_count url,
            tt,
          )
          | inr no_more ↦ rw no_more tt
        ])
      ])
    ],
  )

  report_all-Quiet :
      (all : List (List Issue → Go Call (Unit {0}))) (tools : Tools)
      → All (λ reporter. (issues : List Issue) → Quiet measure world keeps (reporter issues)) all
      → Quiet measure world keeps (report_all config world all tools)
  unfolding report_all
  report_all-Quiet [] tools quiet = λ h. refl
  report_all-Quiet (reporter ∷ rest) tools (first, quiet) =
      let here : Quiet measure world keeps (λ h. reporter (issues_of (world.range h tools)) h) =
        λ h. first (issues_of (world.range h tools)) h in
      search (quiet_rules, here, report_all-Quiet rest tools quiet)

  pub run_in_executer-Quiet :
      (cfg : AnalyseConfig) (s : Session)
      → Quiet measure world keeps (run_in_executer config world cfg s)
  unfolding run_in_executer
  run_in_executer-Quiet cfg s = search (
    quiet_rules,
    ask-Quiet measure world keeps,
    run_analyser-Quiet,
    report_all-Quiet,
    reporters-Quiet,
  )

  from_row-Quiet :
      (row : Option GhInstallation) → Quiet measure world keeps (from_row config world row)
  from_row-Quiet none = λ h. refl
  from_row-Quiet (some i) = λ h.
      let client : Quiet measure world keeps (with_client config world i) = search quiet_rules in
      if-IsQuiet measure (is_enabled (world.now h) i) (with_client config world i) (pure none)
        client (λ h'. refl) h

  new_installation-Quiet : (id : ℕ) → Quiet measure world keeps (new_installation config world id)
  unfolding new_installation
  new_installation-Quiet id = search (quiet_rules, ask-Quiet measure world keeps, from_row-Quiet)

  require_installation-Quiet :
      (id : ℕ) (i : Option Installation)
      → Quiet measure world keeps (require_installation config world id i)
  require_installation-Quiet id none = λ h. refl
  require_installation-Quiet id (some i) = λ h. refl

  pub prepare-Quiet : (cfg : AnalyseConfig) → Quiet measure world keeps (prepare config world cfg)
  unfolding prepare
  prepare-Quiet cfg =
      search
        (
          quiet_rules,
          ask-Quiet measure world keeps,
          new_installation-Quiet,
          require_installation-Quiet,
          set_status-Quiet measure world keeps,
        )
        depth 12

  pub clean_up-Quiet :
      (cfg : AnalyseConfig) (s : Session) (r : Result (Unit {0}))
      → Quiet measure world keeps (clean_up config world cfg s r)
  clean_up-Quiet cfg s (ok _) = λ h. refl
  clean_up-Quiet cfg s (err _) =
      search (quiet_rules, ask-Quiet measure world keeps, set_status-Quiet measure world keeps)
  clean_up-Quiet cfg s (panic _) =
      search (quiet_rules, ask-Quiet measure world keeps, set_status-Quiet measure world keeps)
