-- ===== src/Web/Page.antt =====
-- internal/web/web.go and vcsviewer.go: the handler of an analysis' page. Templates are left out: a
-- reply has what its template is given.
pub mod Shown
use gopherci.Common.{
  to_result, Error, ℕ, List, [], ◌++◌, Option, none, some, Bytes, lit, Result, ok, err, panic, Go,
  pure, fail, message, if◌then◌else◌, not, ◌==◌, nat_eq, bytes_eq, ltb, length,
}
use gopherci.Db.{Analysis, Output, Issue, issues_of, Tools}
use gopherci.Github.{Config, World, Call}
use gopherci.Github.Installation.{Installation, new_installation, diff}
use gopherci.Web.Diff.{FileDiff, Patch, diff_issues}

pub data Page : Type 0 where
  error_page : (code : ℕ) → (desc : Bytes) → Page
  analysis_page : Analysis → List Patch → List Output → (total_issues : ℕ) → Page

-- What is read besides the world of GitHub: the database, whose handler asks twice, `StatusText`,
-- the parser of diffs, `%q`, and the order in which Go visits a map's entries.
pub record Source : Type 0 where
  pub analysis : ℕ → Result (Option Analysis)
  pub outputs : ℕ → Result (List Output)
  pub status_text : ℕ → Bytes
  pub parse : Bytes → Result (List FileDiff)
  pub quoted : Bytes → Bytes
  pub range : Tools → Tools

-- `NewWeb`, with the error of parsing the templates.
unfoldable pub new_web : (templates : Option Error) → Result (Unit {0})
new_web templates = to_result templates

module _ (config : Config) (world : World) (source : Source) where
  -- `errorHandler`
  unfoldable pub error_handler : ℕ → Bytes → Page
  error_handler code desc = error_page code (if desc == [] then source.status_text code else desc)

  -- `NotFoundHandler`
  unfoldable pub not_found_handler : (url : Bytes) → Page
  unfolding error_handler
  not_found_handler url = error_handler 404 (source.quoted url ++ lit " not found")

  -- `NewVCS`. A nil installation is given on as it is.
  unfoldable pub new_vcs : Analysis → Go Call (Option Installation)
  new_vcs a =
      if not (a.installation_id == 0)
      then new_installation config world a.installation_id
      else fail (message (lit "error determining VCS"))

  abbrev pub patches_page : Analysis → List Output → ℕ → Result (List Patch) → Result Page
  patches_page a outputs total (ok patches) = ok (analysis_page a patches outputs total)
  patches_page a outputs total (err e) = ok (error_handler 500 (lit "Could not read VCS"))
  patches_page a outputs total (panic m) = panic m

  -- From the diff: without one, the page has no patches.
  abbrev pub after_diff : Analysis → List Output → List Issue → Result (Option Bytes) → Result Page
  after_diff a outputs issues (err e) = ok (analysis_page a [] outputs (length issues))
  after_diff a outputs issues (ok none) = ok (analysis_page a [] outputs (length issues))
  after_diff a outputs issues (ok (some body)) =
      patches_page a outputs (length issues)
        (diff_issues source.parse source.quoted (ok body) issues)
  after_diff a outputs issues (panic m) = panic m

  abbrev pub show_diff : Analysis → List Output → Option Installation → Go Call Page
  show_diff a outputs vcs h =
      let issues = issues_of (source.range a.tools) in
      let (r, h') =
        diff config world vcs a.repository_id a.commit_from a.commit_to a.request_number h in
      if ltb 0 (length issues)
      then (after_diff a outputs issues r, h')
      else (ok (analysis_page a [] outputs 0), h)

  abbrev pub with_vcs : Analysis → List Output → Result (Option Installation) → Go Call Page
  with_vcs a outputs (ok vcs) = show_diff a outputs vcs
  with_vcs a outputs (err e) = pure (error_handler 500 (lit "Could not get VCS"))
  with_vcs a outputs (panic m) = λ h. (panic m, h)

  abbrev pub with_outputs : Analysis → Result (List Output) → Go Call Page
  with_outputs a (ok outputs) h = let (r, h') = new_vcs a h in with_vcs a outputs r h'
  with_outputs a (err e) h = pure (error_handler 500 (lit "Could not get analysis output")) h
  with_outputs a (panic m) h = (panic m, h)

  abbrev pub with_analysis : (url : Bytes) → Result (Option Analysis) → Go Call Page
  with_analysis url (ok (some a)) = with_outputs a (source.outputs a.id)
  with_analysis url (ok none) = pure (error_handler 404 (source.quoted url ++ lit " not found"))
  with_analysis url (err e) = pure (error_handler 500 (lit "Could not get analysis"))
  with_analysis url (panic m) = λ h. (panic m, h)

  -- `AnalysisHandler`, from the result of `ParseInt` on the URL's parameter.
  unfoldable pub analysis_handler : (url : Bytes) → (analysis_id : Result ℕ) → Go Call Page
  unfolding new_vcs
  analysis_handler url (ok id) = with_analysis url (source.analysis id)
  analysis_handler url (err e) = pure (error_handler 400 (lit "Invalid analysis ID"))
  analysis_handler url (panic m) = λ h. (panic m, h)
