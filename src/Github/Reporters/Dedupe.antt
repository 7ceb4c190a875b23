-- ===== src/Github/Reporters/Dedupe.antt =====
-- internal/github/reporters.go: the loop of `dedupePRIssues`, which removes from a slice by index
-- while it walks down the indices.
use mathlib.Core.List.{append-nil, append_assoc}
use mathlib.Core.Path.{subst}
use gopherci.Common.{
  ℕ, zero, suc, ◌≡◌, ◌∙◌, refl, sym, ap, Bool, not, List, [], ◌∷◌, ◌++◌, Bytes, Result, ok, err,
  panic, arith, length, take, drop, select, select-append, any, Bool-cases, inl, inr, if◌then◌else◌,
  wrap, lit,
}
use gopherci.Db.{Issue}
use gopherci.Github.{World, History, ExistingComment, list_comments}
use gopherci.Github.Reporters.{
  same_comment, remove_at, test_at, remove_duplicates, dedupe_pr_issues,
}

-- What is made of the listed comments, or of the error of listing them.
abbrev pub after_listing :
    Result (List ExistingComment) → (List ExistingComment → List Issue) → Result (List Issue)
after_listing (ok existing) f = ok (f existing)
after_listing (err e) f = err (wrap e (lit "could not list existing comments"))
after_listing (panic m) f = panic m

module _ {A : Type 0} where
  take-length : (xs ys : List A) → take (length xs) (xs ++ ys) ≡ xs
  take-length [] ys = refl
  take-length (x ∷ xs) ys = ap (λ l. x ∷ l) (take-length xs ys)

  drop-length : (xs : List A) (y : A) (ys : List A) → drop (suc (length xs)) (xs ++ (y ∷ ys)) ≡ ys
  drop-length [] y ys = refl
  drop-length (x ∷ xs) y ys = drop-length xs y ys

  test_at-length :
      (p : A → Bool) (xs : List A) (y : A) (ys : List A)
      → test_at p (length xs) (xs ++ (y ∷ ys)) ≡ p y
  test_at-length p [] y ys = refl
  test_at-length p (x ∷ xs) y ys = test_at-length p xs y ys

  remove_at-length :
      (xs : List A) (y : A) (ys : List A) → remove_at (length xs) (xs ++ (y ∷ ys)) ≡ xs ++ ys
  remove_at-length xs y ys = rw (take-length xs (y ∷ ys), drop-length xs y ys) refl

  -- A list that is not empty has a last element.
  snoc_cases :
      (n : ℕ) (xs : List A)
      → length xs ≡ suc n
      → (init : List A) × (last : A) × (xs ≡ init ++ (last ∷ [])) × (length init ≡ n)
  snoc_cases n [] e = absurd (omega arith)
  snoc_cases n (x ∷ []) e = ([], x, refl, omega arith)
  snoc_cases n (x ∷ y ∷ xs) e =
      let (init, last, split, l) = snoc_cases (length xs) (y ∷ xs) refl in
      (x ∷ init, last, ap (λ k. x ∷ k) split, omega arith)

  select_last :
      (q : A → Bool) (xs : List A) (y : A)
      → select q (xs ++ (y ∷ [])) ≡ (if q y then select q xs ++ (y ∷ []) else select q xs)
  unfolding select
  select_last q xs y = elim (Bool-cases (q y)) [
    | inl kept ↦ rw (select-append q xs (y ∷ []), kept) refl
    | inr out ↦ rw (select-append q xs (y ∷ []), out) (append-nil (select q xs))
  ]

  remove_duplicates-suc :
      (p : A → Bool) (n : ℕ) (xs : List A)
      → remove_duplicates p (suc n) xs
        ≡ remove_duplicates p n (if test_at p n xs then remove_at n xs else xs)
  unfolding remove_duplicates
  remove_duplicates-suc p n xs = refl

  remove_duplicates_step :
      (p : A → Bool) (init : List A) (last : A) (ys : List A)
      → ((zs : List A)
          → remove_duplicates p (length init) (init ++ zs) ≡ select (λ x. not (p x)) init ++ zs)
      → remove_duplicates p (suc (length init)) ((init ++ (last ∷ [])) ++ ys)
        ≡ select (λ x. not (p x)) (init ++ (last ∷ [])) ++ ys
  remove_duplicates_step p init last ys ih =
      rw
        (
          append_assoc init (last ∷ []) ys,
          remove_duplicates-suc,
          test_at-length p init last ys,
          remove_at-length init last ys,
        )
        (elim (Bool-cases (p last)) [
          | inl dup ↦ rw dup (
              ih ys
              ∙ ap (λ l. l ++ ys) (sym (select_last (λ x. not (p x)) init last ∙ rw dup refl)))
          | inr new ↦ rw new (
              ih (last ∷ ys)
              ∙ sym (append_assoc _ (last ∷ []) ys)
              ∙ ap (λ l. l ++ ys) (sym (select_last (λ x. not (p x)) init last ∙ rw new refl)))
        ])

  -- With the first `n` elements still to be looked at, the rest is kept as it is.
  remove_duplicates_onto :
      (p : A → Bool) (n : ℕ) (xs ys : List A)
      → length xs ≡ n
      → remove_duplicates p n (xs ++ ys) ≡ select (λ x. not (p x)) xs ++ ys
  unfolding remove_duplicates select
  remove_duplicates_onto p zero [] ys e = refl
  remove_duplicates_onto p zero (x ∷ xs) ys e = absurd (omega arith)
  remove_duplicates_onto p (suc n) xs ys e =
      let (init, last, split, l) = snoc_cases n xs e in
      subst (λ k. remove_duplicates p (suc n) (k ++ ys) ≡ select (λ x. not (p x)) k ++ ys)
        (sym split)
        (subst
          (λ k.
            remove_duplicates p (suc k) ((init ++ (last ∷ [])) ++ ys)
            ≡ select (λ x. not (p x)) (init ++ (last ∷ [])) ++ ys)
          l
          (remove_duplicates_step p init last ys
            (λ zs. rw l (remove_duplicates_onto p n init zs l))))

  -- The loop is a filter, and keeps the order.
  remove_duplicates_lem :
      (p : A → Bool) (xs : List A) → remove_duplicates p (length xs) xs ≡ select (λ x. not (p x)) xs
  remove_duplicates_lem p xs =
      ap (remove_duplicates p (length xs)) (sym (append-nil xs))
      ∙ remove_duplicates_onto p (length xs) xs [] refl
      ∙ append-nil _

-- Whatever comments there are: if they can be listed, `dedupePRIssues` returns exactly the issues
-- for which no existing comment has the same path, position and body, in their order, and calls
-- nothing else; if they cannot, it returns that error.
pub dedupe_pr_issues_lem :
    (world : World) (owner repo : Bytes) (number : ℕ) (issues : List Issue) (h : History)
    → dedupe_pr_issues world owner repo number issues h ≡ (
      after_listing
          (world.comments h)
          (λ existing. select (λ i. not (any (same_comment i) existing)) issues),
      list_comments owner repo number ∷ h,
    )
unfolding dedupe_pr_issues
dedupe_pr_issues_lem world owner repo number issues h = of_answer (world.comments h) refl
  where
    of_answer :
        (r : Result (List ExistingComment))
        → world.comments h ≡ r
        → dedupe_pr_issues world owner repo number issues h ≡ (
          after_listing r (λ existing. select (λ i. not (any (same_comment i) existing)) issues),
          list_comments owner repo number ∷ h,
        )
    of_answer (ok existing) e =
        rw e
          (ap (λ l. (ok l, list_comments owner repo number ∷ h)) (remove_duplicates_lem _ issues))
    of_answer (err x) e = rw e refl
    of_answer (panic m) e = rw e refl
