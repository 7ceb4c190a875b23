-- ===== src/Github/Reporters.antt =====
-- internal/github/reporters.go: reporting issues through GitHub's API. A reporter is given its
-- fields as arguments; the client is the installation's.
pub mod Dedupe
pub mod Review
use gopherci.Common.{
  ℕ, zero, suc, Bool, false, ◌&&◌, ◌||◌, List, [], ◌∷◌, ◌++◌, map, Option, some, Bytes, lit, itoa,
  ok, Go, ask, pure, fail, check, wrapping, ◌>>=◌, ◌>>◌, Error, message, wrap, if◌then◌else◌, ◌==◌,
  nat_eq, bytes_eq, ltb, leb, length, take, drop, any,
}
use gopherci.Db.{Issue}
use gopherci.Analyser.Suppress.{suppress, max_issue_comments}
use gopherci.Github.{
  World, Call, Comment, ExistingComment, StatusState, status_pending, status_success, status_error,
  status_failure, list_comments, create_comment, create_review, create_commit_comment,
  create_inline_comment, post_status,
}

same_fields : Issue → Option Bytes → Option ℕ → Option Bytes → Bool
same_fields issue (some path) (some position) (some body) =
    issue.path == path && (issue.hunk_pos == position && issue.issue == body)
same_fields issue _ _ _ = false

-- An existing comment that says the same in the same place; one with a nil field is passed over.
unfoldable pub same_comment : Issue → ExistingComment → Bool
unfolding same_fields
same_comment issue ec = same_fields issue ec.path ec.position ec.body

-- `append(issues[:i], issues[i+1:]...)`
abbrev pub remove_at : {A : Type 0} → ℕ → List A → List A
remove_at i xs = take i xs ++ drop (suc i) xs

-- The test of the issue at an index, which the loop keeps in range.
abbrev pub test_at : {A : Type 0} → (A → Bool) → ℕ → List A → Bool
test_at p i [] = false
test_at p zero (x ∷ xs) = p x
test_at p (suc i) (x ∷ xs) = test_at p i xs

-- The loop over the indices, from the last one down; `n` of them are left.
unfoldable pub remove_duplicates : {A : Type 0} → (A → Bool) → ℕ → List A → List A
remove_duplicates p zero issues = issues
remove_duplicates p (suc i) issues =
    remove_duplicates p i (if test_at p i issues then remove_at i issues else issues)

-- `string(status)`
unfoldable pub state_text : StatusState → Bytes
state_text status_pending = lit "pending"
state_text status_success = lit "success"
state_text status_error = lit "error"
state_text status_failure = lit "failure"

-- `statusDesc`
unfoldable pub status_desc : List Issue → ℕ → Bytes
status_desc issues suppressed =
    let found = lit "Found " ++ (itoa (length issues) ++ lit " issues") in
    if length issues == 0
    then lit "Found no issues \\ʕ◔ϖ◔ʔ/"
    else if length issues == 1
    then lit "Found 1 issue"
    else if suppressed == 1
    then found ++ (lit " (" ++ (itoa suppressed ++ lit " comment suppressed)"))
    else if ltb 1 suppressed
    then found ++ (lit " (" ++ (itoa suppressed ++ lit " comments suppressed)"))
    else found

abbrev pub comment_of : Issue → Comment
comment_of issue = record { body = issue.issue; path = issue.path; position = issue.hunk_pos }

module _ (world : World) where
  -- One call that answers with an error or nothing.
  abbrev pub call : Call → Go Call (Option Error)
  call c = ask c (λ h. ok (world.commented h))

  unfoldable pub dedupe_pr_issues : (owner repo : Bytes) → ℕ → List Issue → Go Call (List Issue)
  unfolding remove_duplicates
  dedupe_pr_issues owner repo number issues = do
    ecomments ←
        wrapping (lit "could not list existing comments")
          (ask (list_comments owner repo number) (λ h. world.comments h))
    pure (remove_duplicates (λ i. any (same_comment i) ecomments) (length issues) issues)

  -- "could not post comment path: %q, position: %v, <kind>: %q, body: %q"
  unfoldable pub comment_failure : (kind commit : Bytes) → Issue → Bytes
  comment_failure kind commit i =
      let q = world.library.quoted in
      lit "could not post comment path: "
      ++ (q i.path
          ++ (lit ", position: "
              ++ (itoa i.hunk_pos
                  ++ (lit ", "
                      ++ (kind ++ (lit ": " ++ (q commit ++ (lit ", body: " ++ q i.issue))))))))

  -- The loop that posts a comment for each issue and returns on the first error.
  unfoldable pub post_each :
      (kind commit : Bytes) → (Comment → Call) → List Issue → Go Call (Unit {0})
  post_each kind commit create [] = pure tt
  post_each kind commit create (i ∷ issues) = do
    e ← call (create (comment_of i))
    check e (λ x. wrap x (comment_failure kind commit i)) (pure tt)
    post_each kind commit create issues

  -- `PRCommentReporter.Report`
  unfoldable pub report_pr_comments :
      (owner repo : Bytes) → ℕ → Bytes → List Issue → Go Call (Unit {0})
  unfolding dedupe_pr_issues
  report_pr_comments owner repo number commit issues = do
    filtered ← dedupe_pr_issues owner repo number issues
    post_each (lit "commitID") commit (create_comment owner repo number commit)
        (suppress filtered max_issue_comments).1

  -- The last part of `PRReviewReporter.Report`; `errors.Wrap` of nil is nil.
  abbrev pub post_review : (owner repo : Bytes) → ℕ → Bytes → List Issue → Go Call (Unit {0})
  post_review owner repo number commit issues =
      if length issues == 0
      then pure tt
      else (call (create_review owner repo number commit (map comment_of issues)) >>= λ e.
          check e (λ x. wrap x (lit "could not post review")) (pure tt))

  -- `PRReviewReporter.Report`
  unfoldable pub report_pr_review :
      (owner repo : Bytes) → ℕ → Bytes → List Issue → Go Call (Unit {0})
  unfolding dedupe_pr_issues
  report_pr_review owner repo number commit issues = do
    filtered ← dedupe_pr_issues owner repo number issues
    post_review owner repo number commit (suppress filtered max_issue_comments).1

  -- `InlineCommitCommentReporter.Report`
  unfoldable pub report_inline_commit :
      (owner repo commit : Bytes) → List Issue → Go Call (Unit {0})
  report_inline_commit owner repo commit issues =
      post_each (lit "commit") commit (create_inline_comment owner repo commit)
        (suppress issues max_issue_comments).1

  -- The message of `CommitCommentReporter.Report`.
  unfoldable pub commit_message : ℕ → ℕ → Bytes → Bytes
  commit_message found commits analysis_url =
      lit "GopherCI found **"
      ++ (itoa found
          ++ (lit "** issue"
              ++ ((if ltb 1 found then lit "s" else [])
                  ++ (lit " in the last **"
                      ++ (itoa commits ++ (lit "** commits, see: " ++ analysis_url))))))

  abbrev pub post_commit_comment : (owner repo commit body : Bytes) → Go Call (Unit {0})
  post_commit_comment owner repo commit body =
      call (create_commit_comment owner repo commit body) >>= λ e.
      check e
        (λ x. wrap x (
          lit "could not post comment commit: "
          ++ (world.library.quoted commit ++ (lit ", body: " ++ world.library.quoted body))))
        (pure tt)

  -- `CommitCommentReporter.Report`
  unfoldable pub report_commit :
      (owner repo commit : Bytes) → ℕ → Bytes → List Issue → Go Call (Unit {0})
  report_commit owner repo commit commits analysis_url issues =
      if length issues == 0
      then pure tt
      else post_commit_comment owner repo commit
          (commit_message (length issues) commits analysis_url)

  -- `SetStatus`
  unfoldable pub set_status :
      (url context target_url : Bytes) → StatusState → Bytes → Go Call (Unit {0})
  set_status url context target_url status description = do
    check (world.request_error url) (λ e. wrap e (lit "could not make status request")) (pure tt)
    code ←
        wrapping (lit "could not set status to " ++ (state_text status ++ (lit " for " ++ url))) (
          ask (post_status url status target_url description context)
            (λ h. world.status_response h status))
    if ltb code 200 || leb 300 code
        then fail (message (lit "received status code " ++ (itoa code ++ (lit " from " ++ url))))
        else pure tt

  -- `StatusAPIReporter.Report`
  unfoldable pub report_status : (url context target_url : Bytes) → List Issue → Go Call (Unit {0})
  report_status url context target_url issues =
      set_status url context target_url status_success
        (status_desc issues (suppress issues max_issue_comments).0)
