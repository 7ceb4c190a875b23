-- ===== src/Db/Recording.antt =====
-- internal/db/sqldb.go: what `WriteExecution` stores of a command's output.
pub mod Trim
use gopherci.Common.{
  ℕ, ◌-◌, ◌/◌, Bool, false, ◌&&◌, List, ◌∷◌, ◌++◌, Bytes, lit, itoa, leb, ◌==◌, bytes_eq,
  if◌then◌else◌, length, take, drop, trim_right, join,
}

abbrev pub max_analysis_output : ℕ
max_analysis_output = 10240

-- The text between the two parts that `trim` keeps.
unfoldable pub placeholder : ℕ → Bytes
placeholder n = lit "..." ++ (itoa n ++ lit " bytes suppressed...")

unfoldable pub trim : Bytes → ℕ → Bytes
unfolding placeholder
trim b max =
    if leb (length b) max
    then b
    else take (max / 2) b ++ (placeholder (length b - max) ++ drop (length b - max / 2) b)

-- `len(args) >= 2 && args[0] == "git" && args[1] == "diff"`
unfoldable pub is_git_diff : List Bytes → Bool
is_git_diff (a ∷ b ∷ rest) = a == lit "git" && b == lit "diff"
is_git_diff _ = false

-- The row that `WriteExecution` inserts.
pub record OutputRow : Type 0 where
  pub analysis_id : ℕ
  pub arguments : Bytes
  pub duration : ℕ
  pub output : Bytes

-- The output as it is stored, before `trim`. (Go's nil slice and the empty one are one list.)
unfoldable pub stored_output : List Bytes → Bytes → Bytes
unfolding is_git_diff
stored_output args output =
    let text = trim_right output in
    if is_git_diff args then itoa (length text) ++ lit " bytes suppressed" else text

unfoldable pub output_row : ℕ → List Bytes → ℕ → Bytes → OutputRow
output_row analysis_id args d output = record {
  analysis_id = analysis_id;
  arguments = join (lit " ") args;
  duration = d;
  output = trim (stored_output args output) max_analysis_output;
}
