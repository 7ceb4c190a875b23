-- ===== src/Web/Diff.antt =====
-- internal/web/vcsviewer.go: `DiffIssues`, which puts issues on the lines of a diff. The parser of
-- diffs is third-party code, and reading the diff may fail, so both are parameters. A scanner of
-- Go's bufio splits a hunk into lines; it refuses a line of 64 KiB or more.

pub mod Shown
pub mod Returned
use gopherci.Common.{
  ℕ, zero, suc, ◌+◌, ◌≡◌, Bool, true, false, not, ◌&&◌, ◌||◌, List, [], ◌∷◌, ◌++◌, Option, none,
  some, Bytes, lit, itoa, Result, ok, err, panic, Error, message, wrap, if◌then◌else◌, ◌==◌, nat_eq,
  bytes_eq, leb, length, take, drop, select, any,
}
use gopherci.Db.{Issue}

-- What go-diff gives for a file and for a hunk.
pub record FileHunk : Type 0 where
  pub orig_start_line : ℕ
  pub orig_lines : ℕ
  pub new_start_line : ℕ
  pub new_lines : ℕ
  pub body : Bytes

pub record FileDiff : Type 0 where
  pub new_name : Bytes
  pub hunks : List FileHunk

pub data ChangeType : Type 0 where
  change_add change_remove change_none : ChangeType

pub record Line : Type 0 where
  pub line : Bytes
  pub change_type : ChangeType
  pub line_no : ℕ
  pub issues : List Issue

pub record Hunk : Type 0 where
  pub range : Bytes
  pub lines : List Line

pub record Patch : Type 0 where
  pub path : Bytes
  pub hunks : List Hunk

-- How the loops end. For a line that is too long, `DiffIssues` means to return an error, but it
-- wraps `err`, which is nil there, in place of `scanner.Err()`: it returns no patches and no error.
pub data Scan (A : Type 0) : Type 0 where
  done : A → Scan A
  failed : Error → Scan A
  crashed : Bytes → Scan A
  returned_nil : Scan A

infixl 5 ◌>>=◌
abbrev pub ◌>>=◌ : {A B : Type 0} → Scan A → (A → Scan B) → Scan B
done a >>= f = f a
failed e >>= f = failed e
crashed m >>= f = crashed m
returned_nil >>= f = returned_nil

abbrev newline : ℕ
newline = 10

abbrev pub max_token : ℕ
max_token = 65536

-- The text between newlines, and what follows the last one unless it is empty.
unfoldable pub split_lines : Bytes → Bytes → List Bytes
split_lines read [] = if length read == 0 then [] else read ∷ []
split_lines read (c ∷ s) =
    let next = split_lines [] s in
    let more = split_lines (read ++ (c ∷ [])) s in if c == newline then read ∷ next else more

-- `bufio.ScanLines` drops one carriage return before the newline.
unfoldable pub drop_cr : Bytes → Bytes
drop_cr [] = []
drop_cr (c ∷ []) = if c == 13 then [] else c ∷ []
drop_cr (c ∷ d ∷ s) = c ∷ drop_cr (d ∷ s)

-- The switch on the first byte of a line.
unfoldable pub change_of : ℕ → ChangeType
change_of c = if c == b'+' then change_add else if c == b'-' then change_remove else change_none

-- `diffLineNo--` on a removed line, followed by the loop's `diffLineNo++`.
abbrev pub next_line_no : ChangeType → ℕ → ℕ
next_line_no change_remove n = n
next_line_no _ n = n + 1

abbrev pub is_on : Bytes → ℕ → Issue → Bool
is_on path n i = i.path == path && i.line == n

-- The issues of a line; removed lines are ignored.
abbrev pub line_issues : Bytes → ℕ → List Issue → ChangeType → List Issue
line_issues path n issues change_remove = []
line_issues path n issues _ = select (is_on path n) issues

abbrev pub is_empty : {A : Type 0} → List A → Bool
is_empty [] = true
is_empty (x ∷ xs) = false

unfoldable pub hunk_range : FileHunk → Bytes
hunk_range h =
    lit "@@ -"
    ++ (itoa h.orig_start_line
        ++ (lit ","
            ++ (itoa h.orig_lines
                ++ (lit " +"
                    ++ (itoa h.new_start_line ++ (lit "," ++ (itoa h.new_lines ++ lit " @@")))))))

-- `quoted` is the `%q` of fmt.
module _ (quoted : Bytes → Bytes) (path : Bytes) (issues : List Issue) where
  unfoldable pub empty_line_error : Bytes → Error
  empty_line_error range = message (
      lit "file: "
      ++ (quoted path ++ (lit ", hunk: " ++ (quoted range ++ lit " body contains empty line"))))

  -- A line, before the lines that follow it.
  abbrev pub add_line : ℕ → ChangeType → Bytes → Bool × List Line → Scan (Bool × List Line)
  add_line n change text (more, lines) =
      let found = line_issues path n issues change in
      let line : Line = record { line = text; change_type = change; line_no = n; issues = found } in
      done (not (is_empty found) || more, line ∷ lines)

  -- The body of the loop for a line's text, given the rest of the loop by the number it starts at.
  abbrev pub scan_text :
      (range : Bytes) → ℕ → Bytes → (ℕ → Scan (Bool × List Line)) → Scan (Bool × List Line)
  scan_text range n [] rest = failed (empty_line_error range)
  scan_text range n (c ∷ text) rest =
      rest (next_line_no (change_of c) n) >>= add_line n (change_of c) text

  abbrev pub scan_token :
      (range : Bytes) → ℕ → Bytes → (ℕ → Scan (Bool × List Line)) → Scan (Bool × List Line)
  scan_token range n raw rest =
      if leb max_token (length raw) then returned_nil else scan_text range n (drop_cr raw) rest

  -- The loop over the scanner: the value of `hunkHasIssues` that it adds, and the lines.
  unfoldable pub scan_hunk : (range : Bytes) → ℕ → List Bytes → Scan (Bool × List Line)
  scan_hunk range n [] = done (false, [])
  scan_hunk range n (raw ∷ rest) = scan_token range n raw (λ m. scan_hunk range m rest)

  -- The loop over the hunks of a file, which keeps those with issues.
  unfoldable pub scan_hunks : List FileHunk → Scan (List Hunk)
  scan_hunks [] = done []
  scan_hunks (h ∷ rest) =
      scan_hunk (hunk_range h) h.new_start_line (split_lines [] h.body) >>= λ (has_issues, lines).
      scan_hunks rest >>= λ hunks.
      done (if has_issues then record { range = hunk_range h; lines = lines } ∷ hunks else hunks)

module _ (quoted : Bytes → Bytes) (issues : List Issue) where
  -- The loop over the files. A new name of less than two bytes is out of range for `[2:]`.
  unfoldable pub scan_files : List FileDiff → Scan (List Patch)
  scan_files [] = done []
  scan_files (f ∷ rest) =
      let path = drop 2 f.new_name in
      let file_patches : Scan (List Patch) = scan_hunks quoted path issues f.hunks >>= λ hunks.
      scan_files rest >>= λ patches.
      done (if is_empty hunks then patches else record { path = path; hunks = hunks } ∷ patches) in
      if leb 2 (length f.new_name) then file_patches else crashed (lit "slice bounds out of range")

-- `errors.Wrap` on an error.
abbrev pub wrapped : {A : Type 0} → Result A → Bytes → Result A
wrapped (ok a) m = ok a
wrapped (err e) m = err (wrap e m)
wrapped (panic p) m = panic p

-- At most this much of a diff is read.
abbrev pub max_diff : ℕ
max_diff = 1000000000

abbrev pub of_result : {A : Type 0} → Result A → Scan A
of_result (ok a) = done a
of_result (err e) = failed e
of_result (panic m) = crashed m

abbrev pub patches_of : Scan (List Patch) → Result (List Patch)
patches_of (done patches) = ok patches
patches_of (failed e) = err e
patches_of (crashed m) = panic m
patches_of returned_nil = ok []

unfoldable pub diff_issues :
    (parse : Bytes → Result (List FileDiff)) (quoted : Bytes → Bytes)
    → (reader : Result Bytes) → List Issue
    → Result (List Patch)
diff_issues parse quoted reader issues = patches_of (
    of_result (wrapped reader (lit "could not read from diff reader")) >>= λ content.
    of_result (wrapped (parse (take max_diff content)) (lit "could not parse diff"))
    >>= scan_files quoted issues)
