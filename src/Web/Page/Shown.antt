-- ===== src/Web/Page/Shown.antt =====
-- internal/web/web.go: what the page of an analysis shows, and when it is an error.
use gopherci.Common.{
  lit, ℕ, ltb, length, ◌≡◌, ◌≢◌, refl, ◌⊎◌, inl, inr, Bool-cases, true, List, [], Option, none,
  some, Bytes, Result, ok, err, panic, ◌&&◌, ◌==◌, nat_eq, bytes_eq, arith, All,
}
use gopherci.Db.{Analysis, Output, Issue, issues_of}
use gopherci.Github.{Config, World, History}
use gopherci.Github.Installation.{Installation, new_installation, diff}
use gopherci.Web.Diff.{Patch}
use gopherci.Web.Diff.Returned.{PatchShowsIssues, Returns, diff_issues-ShowsIssues}
use gopherci.Web.Page.{
  Page, error_page, analysis_page, Source, new_vcs, analysis_handler, with_analysis, with_outputs,
  with_vcs, show_diff, after_diff, patches_page, error_handler,
}

module _ (config : Config) (world : World) (source : Source) where
  abbrev pub issues_in : Analysis → List Issue
  issues_in a = issues_of (source.range a.tools)

  -- What stands on the page of an analysis. Lines of the repository stand there only if its
  -- installation was found and enabled, and only with issues; otherwise there are none.
  abbrev pub ShowsAnalysis : ℕ → History → Analysis → List Patch → List Output → ℕ → Type 0
  ShowsAnalysis id h a patches outputs total =
      (source.analysis id ≡ ok (some a))
      × (source.outputs a.id ≡ ok outputs)
      × (a.installation_id ≢ 0)
      × (total ≡ length (issues_in a))
      × ((patches ≡ [])
          ⊎ ((i : Installation) × ((new_installation config world a.installation_id h).0
                ≡ ok (some i))
              × (issues_in a ≢ [])
              × All PatchShowsIssues patches))

  -- A reply is such a page; or it is not found, and there is no such analysis; or there is an
  -- internal error or a panic, and the analysis cannot be read or is found.
  abbrev pub Replies : ℕ → History → Result Page → Type 0
  Replies id h (ok (analysis_page a patches outputs total)) =
      ShowsAnalysis id h a patches outputs total
  Replies id h (ok (error_page code desc)) =
      ((code ≡ 404) × (source.analysis id ≡ ok none))
      ⊎ ((code ≡ 500) × (source.analysis id ≢ ok none))
  Replies id h (err e) = ⊥
  Replies id h (panic m) = source.analysis id ≢ ok none

module _ (config : Config) (world : World) (source : Source) (id : ℕ) (h : History) (a : Analysis)
    (found : source.analysis id ≡ ok (some a)) where
  abbrev Reply : Result Page → Type 0
  Reply = Replies config world source id h

  internal : (desc : Bytes) → Reply (ok (error_handler config world source 500 desc))
  unfolding error_handler
  internal desc = inr (refl, λ q. ground arith)

  crashed : (m : Bytes) → Reply (panic m)
  crashed m = λ q. ground arith

  module _ (outputs : List Output) (printed : source.outputs a.id ≡ ok outputs)
      (known : a.installation_id ≢ 0) where
    plain :
        (total : ℕ)
        → total ≡ length (issues_in config world source a)
        → Reply (ok (analysis_page a [] outputs total))
    plain total counted = (found, printed, known, counted, inl refl)

    patches_page-Replies :
        (i : Installation)
        → (new_installation config world a.installation_id h).0 ≡ ok (some i)
        → issues_in config world source a ≢ []
        → (d : Result (List Patch)) → Returns (All PatchShowsIssues) d
        → Reply (
            patches_page config world source a outputs (length (issues_in config world source a)) d)
    patches_page-Replies i enabled some_issue (ok patches) all =
        (found, printed, known, refl, inr (i, enabled, some_issue, all))
    patches_page-Replies i enabled some_issue (err e) all = internal _
    patches_page-Replies i enabled some_issue (panic m) all = crashed m

    after_diff-Replies :
        (i : Installation)
        → (new_installation config world a.installation_id h).0 ≡ ok (some i)
        → issues_in config world source a ≢ []
        → (r : Result (Option Bytes))
        → Reply (after_diff config world source a outputs (issues_in config world source a) r)
    after_diff-Replies i enabled some_issue (ok (some body)) =
        patches_page-Replies i enabled some_issue _ (
          diff_issues-ShowsIssues source.quoted (issues_in config world source a) source.parse
            (ok body))
    after_diff-Replies i enabled some_issue (ok none) = plain _ refl
    after_diff-Replies i enabled some_issue (err e) = plain _ refl
    after_diff-Replies i enabled some_issue (panic m) = crashed m

    -- The installation that was found, or none; then the diff is not there or is a panic.
    asked-Replies :
        (vcs : Option Installation)
        → (new_installation config world a.installation_id h).0 ≡ ok vcs
        → issues_in config world source a ≢ []
        → (h' : History)
        → Reply (
            after_diff config world source a outputs
              (issues_in config world source a)
              (diff config world vcs a.repository_id a.commit_from a.commit_to a.request_number
                h').0)
    unfolding diff
    asked-Replies (some i) enabled some_issue h' = after_diff-Replies i enabled some_issue _
    asked-Replies none gone some_issue h' =
        elim (Bool-cases (a.request_number == 0 && a.commit_from == [])) [
          | inl first ↦ rw first (plain _ refl)
          | inr other ↦ rw other (crashed (lit "nil pointer dereference"))
        ]

    some_issue :
        ltb 0 (length (issues_in config world source a)) ≡ true
        → issues_in config world source a ≢ []
    some_issue many q =
        let bad : ltb 0 (length {A = Issue} []) ≡ true = rw q at many in ground arith

    show_diff-Replies :
        (vcs : Option Installation)
        → (new_installation config world a.installation_id h).0 ≡ ok vcs
        → (h' : History) → Reply ((show_diff config world source a outputs vcs h').0)
    show_diff-Replies vcs e h' =
        elim (Bool-cases (ltb 0 (length (issues_in config world source a)))) [
          | inl many ↦ rw many (asked-Replies vcs e (some_issue many) h')
          | inr few ↦ rw few (plain 0 (ground arith))
        ]

  with_vcs-Replies :
      (outputs : List Output)
      → source.outputs a.id ≡ ok outputs
      → a.installation_id ≢ 0
      → (r : Result (Option Installation))
      → (new_installation config world a.installation_id h).0 ≡ r
      → (h' : History) → Reply ((with_vcs config world source a outputs r h').0)
  with_vcs-Replies outputs printed known (ok vcs) e h' =
      show_diff-Replies outputs printed known vcs e h'
  with_vcs-Replies outputs printed known (err x) e h' = internal _
  with_vcs-Replies outputs printed known (panic m) e h' = crashed m

  with_outputs-Replies :
      (r : Result (List Output))
      → source.outputs a.id ≡ r
      → Reply ((with_outputs config world source a r h).0)
  unfolding new_vcs
  with_outputs-Replies (ok outputs) q = elim (Bool-cases (a.installation_id == 0)) [
    | inl unknown ↦ rw unknown (internal _)
    | inr known ↦
        let set : a.installation_id ≢ 0 = λ e. ground arith in
        rw known (with_vcs-Replies outputs q set _ refl _)
  ]
  with_outputs-Replies (err e) q = internal _
  with_outputs-Replies (panic m) q = crashed m

module _ (config : Config) (world : World) (source : Source) where
  with_analysis-Replies :
      (url : Bytes) (id : ℕ) (h : History) (r : Result (Option Analysis))
      → source.analysis id ≡ r
      → Replies config world source id h ((with_analysis config world source url r h).0)
  unfolding error_handler
  with_analysis-Replies url id h (ok (some a)) q =
      with_outputs-Replies config world source id h a q (source.outputs a.id) refl
  with_analysis-Replies url id h (ok none) q = inl (refl, q)
  with_analysis-Replies url id h (err e) q = inr (refl, λ p. ground arith)
  with_analysis-Replies url id h (panic m) q = λ p. ground arith

  -- Whatever the database, GitHub and the parser of diffs answer: for a number, `AnalysisHandler`
  -- replies with the page of the analysis of this id with its outputs and the number of its issues,
  -- and lines of the repository stand there only if the installation was found and enabled, and only
  -- in hunks that show an issue; or with 404, exactly if there is no such analysis; or with 500, or
  -- it panics.
  pub analysis_handler-Replies :
      (url : Bytes) (id : ℕ) (h : History)
      → Replies config world source id h ((analysis_handler config world source url (ok id) h).0)
  unfolding analysis_handler
  analysis_handler-Replies url id h = with_analysis-Replies url id h (source.analysis id) refl
