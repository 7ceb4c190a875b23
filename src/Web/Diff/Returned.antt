-- ===== src/Web/Diff/Returned.antt =====
-- internal/web/vcsviewer.go: which files and hunks `DiffIssues` returns.
use gopherci.Common.{
  lit, take, ℕ, ◌≡◌, ◌≢◌, ◌∙◌, refl, sym, Bool, true, false, not, List, [], ◌∷◌, Bytes, Result, ok,
  err, panic, arith, leb, length, drop, All, Bool-cases, inl, inr, if◌then◌else◌,
}
use gopherci.Db.{Issue}
use gopherci.Web.Diff.{
  FileHunk, FileDiff, Hunk, Line, Patch, is_empty, scan_hunk, scan_hunks, scan_files, hunk_range,
  ◌>>=◌, diff_issues, wrapped, max_diff, of_result, patches_of, Scan, done, failed, crashed,
  returned_nil,
}
use gopherci.Web.Diff.Shown.{shown, scan_hunk-perm}

abbrev pub ShowsIssues : Hunk → Type 0
ShowsIssues h = shown h.lines ≢ []

abbrev pub PatchShowsIssues : Patch → Type 0
PatchShowsIssues p = (p.hunks ≢ []) × All ShowsIssues p.hunks

-- What holds of the value, if there is one.
abbrev pub OnOk : {A : Type 0} → (A → Type 0) → Scan A → Type 0
OnOk P (done a) = P a
OnOk P (failed e) = Unit
OnOk P (crashed m) = Unit
OnOk P returned_nil = Unit

OnOk-intro : {A : Type 0} (P : A → Type 0) (r : Scan A) → ((a : A) → r ≡ done a → P a) → OnOk P r
OnOk-intro P (done a) holds = holds a refl
OnOk-intro P (failed e) holds = tt
OnOk-intro P (crashed m) holds = tt
OnOk-intro P returned_nil holds = tt

>>=-OnOk :
    {A B : Type 0} (P : A → Type 0) (Q : B → Type 0) (r : Scan A) (f : A → Scan B)
    → OnOk P r
    → ((a : A) → P a → OnOk Q (f a))
    → OnOk Q (r >>= f)
>>=-OnOk P Q (done a) f p rest = rest a p
>>=-OnOk P Q (failed e) f p rest = tt
>>=-OnOk P Q (crashed m) f p rest = tt
>>=-OnOk P Q returned_nil f p rest = tt

-- What holds of what Go returns, if there is no error.
abbrev pub Returns : {A : Type 0} → (A → Type 0) → Result A → Type 0
Returns P (ok a) = P a
Returns P (err e) = Unit
Returns P (panic m) = Unit

patches_of-Returns :
    (s : Scan (List Patch))
    → OnOk (All PatchShowsIssues) s
    → Returns (All PatchShowsIssues) (patches_of s)
patches_of-Returns (done patches) p = p
patches_of-Returns (failed e) p = tt
patches_of-Returns (crashed m) p = tt
patches_of-Returns returned_nil p = tt

ne_nil : {A : Type 0} (xs : List A) → not (is_empty xs) ≡ true → xs ≢ []
ne_nil [] e = absurd (cc e)
ne_nil (x ∷ xs) e = λ q. ground arith

abbrev FlagIsRight : Bool × List Line → Type 0
FlagIsRight p = p.0 ≡ true → shown p.1 ≢ []

add_hunk-ShowsIssues :
    (range : Bytes) (p : Bool × List Line) (hunks : List Hunk)
    → FlagIsRight p
    → All ShowsIssues hunks
    → All ShowsIssues (if p.0 then record { range = range; lines = p.1 } ∷ hunks else hunks)
add_hunk-ShowsIssues range (true, lines) hunks right all = (right refl, all)
add_hunk-ShowsIssues range (false, lines) hunks right all = all

add_patch-ShowsIssues :
    (path : Bytes) (hunks : List Hunk) (patches : List Patch)
    → All ShowsIssues hunks
    → All PatchShowsIssues patches
    → All PatchShowsIssues
        (if is_empty hunks then patches else record { path = path; hunks = hunks } ∷ patches)
add_patch-ShowsIssues path [] patches hs ps = ps
add_patch-ShowsIssues path (h ∷ hunks) patches hs ps = ((ne_nil (h ∷ hunks) refl, hs), ps)

module _ (quoted : Bytes → Bytes) (issues : List Issue) where
  scan_hunk-FlagIsRight :
      (path range : Bytes) (n : ℕ) (raws : List Bytes)
      → OnOk FlagIsRight (scan_hunk quoted path issues range n raws)
  scan_hunk-FlagIsRight path range n raws = OnOk-intro FlagIsRight _ λ (flag, lines) e marked.
      ne_nil (shown lines)
        (sym (scan_hunk-perm quoted path issues range n raws flag lines e).1 ∙ marked)

  scan_hunks-ShowsIssues :
      (path : Bytes) (hs : List FileHunk)
      → OnOk (All ShowsIssues) (scan_hunks quoted path issues hs)
  unfolding scan_hunks
  scan_hunks-ShowsIssues path [] = tt
  scan_hunks-ShowsIssues path (h ∷ hs) =
      >>=-OnOk FlagIsRight (All ShowsIssues) _ _ (scan_hunk-FlagIsRight path _ _ _) λ p right.
        >>=-OnOk (All ShowsIssues) (All ShowsIssues) _ _ (scan_hunks-ShowsIssues path hs)
          λ hunks all. add_hunk-ShowsIssues (hunk_range h) p hunks right all

  scan_files-ShowsIssues :
      (files : List FileDiff) → OnOk (All PatchShowsIssues) (scan_files quoted issues files)
  unfolding scan_files
  scan_files-ShowsIssues [] = tt
  scan_files-ShowsIssues (f ∷ files) = elim (Bool-cases (leb 2 (length f.new_name))) [
    | inl long ↦
        rw (long, OnOk)
          (>>=-OnOk (All ShowsIssues) (All PatchShowsIssues) _ _
            (scan_hunks-ShowsIssues (drop 2 f.new_name) f.hunks)
            λ hunks hs.
              >>=-OnOk (All PatchShowsIssues) (All PatchShowsIssues) _ _
                (scan_files-ShowsIssues files)
                λ patches ps. add_patch-ShowsIssues (drop 2 f.new_name) hunks patches hs ps)
    | inr short ↦ rw (short, OnOk) tt
  ]

  -- Whatever the diff and its parser: if `DiffIssues` returns patches, each of them has a hunk,
  -- and each of their hunks shows at least one issue on one of its lines.
  pub diff_issues-ShowsIssues :
      (parse : Bytes → Result (List FileDiff)) (reader : Result Bytes)
      → Returns (All PatchShowsIssues) (diff_issues parse quoted reader issues)
  unfolding diff_issues
  diff_issues-ShowsIssues parse reader =
      let content_read = of_result (wrapped reader (lit "could not read from diff reader")) in
      patches_of-Returns _ (
        >>=-OnOk (λ _. Unit) (All PatchShowsIssues) content_read _
          (OnOk-intro (λ _. Unit) content_read (λ _ _. tt))
          λ content _.
            let files_parsed =
              of_result (wrapped (parse (take max_diff content)) (lit "could not parse diff")) in
            >>=-OnOk (λ _. Unit) (All PatchShowsIssues) files_parsed _
              (OnOk-intro (λ _. Unit) files_parsed (λ _ _. tt))
              (λ files _. scan_files-ShowsIssues files))
