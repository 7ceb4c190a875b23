-- ===== src/Github/Reporters/Review.antt =====
-- internal/github/reporters.go: what `PRReviewReporter` posts.
use gopherci.Common.{
  ℕ, suc, ◌≤◌, ◌≡◌, refl, List, [], ◌∷◌, map, Option, none, some, Bytes, Result, ok, err, panic,
  and_then, Error, length, ◌⊎◌, inl, inr, nat_beq, arith, false, check, pure,
}
use gopherci.Db.{Issue}
use gopherci.Analyser.Suppress.{suppress, max_issue_comments, suppress_parts}
use gopherci.Github.{World, Call, Comment, History, list_comments, create_review}
use gopherci.Github.Reporters.{report_pr_review, post_review, comment_of}
use gopherci.Github.Reporters.Dedupe.{dedupe_pr_issues_lem}

-- The calls of a review: the existing comments are listed, and then there is at most one review,
-- with at least one comment and at most `MaxIssueComments`.
abbrev pub ReviewsOnce :
    (owner repo : Bytes) → ℕ → Bytes → History → Result (Unit {0}) × History → Type 0
ReviewsOnce owner repo number commit h r =
    let listed = list_comments owner repo number ∷ h in
    (r.1 ≡ listed)
    ⊎ ((comments : List Comment) × (r.1 ≡ create_review owner repo number commit comments ∷ listed)
        × (1 ≤ length comments)
        × (length comments ≤ max_issue_comments))

nat_beq-suc : (n : ℕ) → nat_beq (suc n) 0 ≡ false
nat_beq-suc n = ground arith

length-map : (xs : List Issue) → length (map comment_of xs) ≡ length xs
length-map [] = refl
length-map (x ∷ xs) = rw (length-map xs) refl

checked_calls :
    (failure : Option Error) (f : Error → Error) (h : History)
    → (check failure f (pure {C = Call} {A = Unit {0}} tt) h).1 ≡ h
checked_calls none f h = refl
checked_calls (some _) f h = refl

module _ (world : World) (owner repo : Bytes) (number : ℕ) (commit : Bytes) where
  post_review-ReviewsOnce :
      (issues : List Issue) (h : History)
      → length issues ≤ max_issue_comments
      → ReviewsOnce owner repo number commit h
          (post_review world owner repo number commit issues (list_comments owner repo number ∷ h))
  post_review-ReviewsOnce [] h few = inl refl
  post_review-ReviewsOnce (i ∷ issues) h few =
      let listed = list_comments owner repo number ∷ h in
      let comments = map comment_of (i ∷ issues) in
      let same : length (map comment_of issues) ≡ length issues = length-map issues in
      rw (nat_beq-suc (length issues))
        (inr (comments, checked_calls (world.commented listed) _ _, omega arith, omega arith))

  -- `PRReviewReporter.Report` lists the existing comments once, whatever issues it is given and
  -- whatever GitHub answers, and then posts at most one review, with at least one comment and at
  -- most ten; it makes no other call.
  pub report_pr_review-ReviewsOnce :
      (issues : List Issue) (h : History)
      → ReviewsOnce owner repo number commit h
          (report_pr_review world owner repo number commit issues h)
  unfolding report_pr_review
  report_pr_review-ReviewsOnce issues h =
      rw (dedupe_pr_issues_lem world owner repo number issues h) (listed _)
    where
      listed :
          (r : Result (List Issue))
          → ReviewsOnce owner repo number commit h (
              and_then r
                (λ filtered.
                  post_review world owner repo number commit
                    (suppress filtered max_issue_comments).1)
                (list_comments owner repo number ∷ h))
      listed (ok filtered) =
          post_review-ReviewsOnce (suppress filtered max_issue_comments).1 h
            (suppress_parts filtered max_issue_comments).3
      listed (err _) = inl refl
      listed (panic _) = inl refl
