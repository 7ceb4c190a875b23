-- ===== src/Web/Diff/Shown.antt =====
-- internal/web/vcsviewer.go: which issues the lines of a hunk show, described by line numbers only.
use mathlib.Core.List.{Perm, perm_middle}
use mathlib.Core.List.Perm
use gopherci.Common.{
  length, ℕ, ◌+◌, ◌≡◌, ◌∙◌, refl, Bool, true, false, not, ◌&&◌, ◌||◌, List, [], ◌∷◌, ◌++◌, Bytes,
  arith, leb, ltb, select, Bool-cases, inl, inr, ◌==◌, bytes_eq, nat_eq,
}
use gopherci.Db.{Issue}
use gopherci.Web.Diff.{
  max_token, scan_token, scan_text, add_line, drop_cr, change_of, Line, ChangeType, change_add,
  change_remove, change_none, next_line_no, line_issues, is_on, is_empty, scan_hunk, ◌>>=◌, Scan,
  done, failed, crashed, returned_nil,
}

-- All issues that the lines show, in order.
abbrev pub shown : List Line → List Issue
shown [] = []
shown (l ∷ lines) = l.issues ++ shown lines

-- The lines that are in the new version of the file.
abbrev pub kept : List Line → ℕ
kept [] = 0
kept (l ∷ lines) = next_line_no l.change_type (kept lines)

-- The issues of a file on lines from `n` on, up to but without line `m`.
abbrev pub within : Bytes → ℕ → ℕ → Issue → Bool
within path n m i = i.path == path && (leb n i.line && ltb i.line m)

module _ {A : Type 0} where
  -- Choosing by two tests that never both hold, one after the other or at once.
  select-disjoint-perm :
      (p q r : A → Bool) (xs : List A)
      → ((x : A) → r x ≡ (p x || q x))
      → ((x : A) → (p x && q x) ≡ false)
      → Perm (select p xs ++ select q xs) (select r xs)
  unfolding select
  select-disjoint-perm p q r [] either never = Perm.refl []
  select-disjoint-perm p q r (x ∷ xs) either never =
      let ih = select-disjoint-perm p q r xs either never in
      elim (Bool-cases (p x)) [
        | inl yes_p ↦
            let no_q : q x ≡ false = ground (arith, never x) in
            let yes_r : r x ≡ true = ground (arith, either x) in
            rw (yes_p, no_q, yes_r) (Perm.cons x ih)
        | inr no_p ↦ elim (Bool-cases (q x)) [
          | inl yes_q ↦
              let yes_r : r x ≡ true = ground (arith, either x) in
              rw (no_p, yes_q, yes_r)
                (Perm.trans (perm_middle (select p xs) (select q xs)) (Perm.cons x ih))
          | inr no_q ↦ let no_r : r x ≡ false = ground (arith, either x) in rw (no_p, no_q, no_r) ih
        ]
      ]

  select-none : (p : A → Bool) (xs : List A) → ((x : A) → p x ≡ false) → select p xs ≡ []
  unfolding select
  select-none p [] never = refl
  select-none p (x ∷ xs) never = rw (never x) (select-none p xs never)

  flag_or : (xs ys : List A) → (not (is_empty xs) || not (is_empty ys)) ≡ not (is_empty (xs ++ ys))
  flag_or [] ys = refl
  flag_or (x ∷ xs) ys = refl

-- What a successful scan of a line and the rest says.
record Scanned (quoted : Bytes → Bytes) (path : Bytes) (issues : List Issue) (range : Bytes) (n : ℕ)
    (rest : List Bytes) (flag : Bool) (lines : List Line) : Type 0 where
  change : ChangeType
  text : Bytes
  more : Bool
  later : List Line
  rest_scanned :
      scan_hunk quoted path issues range (next_line_no change n) rest ≡ done (more, later)
  flag_eq : flag ≡ (not (is_empty (line_issues path n issues change)) || more)
  lines_eq :
      lines
      ≡ record {
        line = text;
        change_type = change;
        line_no = n;
        issues = line_issues path n issues change;
      }
        ∷ later

module _ (quoted : Bytes → Bytes) (path : Bytes) (issues : List Issue) where
  scan_hunk-cons :
      (range : Bytes) (n : ℕ) (raw : Bytes) (rest : List Bytes) (flag : Bool) (lines : List Line)
      → scan_hunk quoted path issues range n (raw ∷ rest) ≡ done (flag, lines)
      → Scanned quoted path issues range n rest flag lines
  unfolding scan_hunk
  scan_hunk-cons range n raw rest flag lines e = elim (Bool-cases (leb max_token (length raw))) [
    | inl long ↦ absurd (cc (rw (long, scan_token) at e))
    | inr short ↦ of_text (drop_cr raw) (rw (short, scan_token) at e)
  ]
    where
      of_rest :
          (change : ChangeType) (text : Bytes) (r : Scan (Bool × List Line))
          → scan_hunk quoted path issues range (next_line_no change n) rest ≡ r
          → (r >>= add_line quoted path issues n change text) ≡ done (flag, lines)
          → Scanned quoted path issues range n rest flag lines
      of_rest change text (done (more, later)) scanned q = record {
        change = change;
        text = text;
        more = more;
        later = later;
        rest_scanned = scanned;
        flag_eq = ground arith;
        lines_eq = ground arith;
      }
      of_rest change text (failed x) scanned q = absurd (cc q)
      of_rest change text (crashed x) scanned q = absurd (cc q)
      of_rest change text returned_nil scanned q = absurd (cc q)

      of_text :
          (t : Bytes)
          → scan_text quoted path issues range n t (λ m. scan_hunk quoted path issues range m rest)
            ≡ done (flag, lines)
          → Scanned quoted path issues range n rest flag lines
      of_text [] q = absurd (cc q)
      of_text (c ∷ text) q = of_rest (change_of c) text _ refl q

  shown_step_kept :
      (n : ℕ) (later : List Line)
      → Perm (shown later) (select (within path (n + 1) (n + 1 + kept later)) issues)
      → Perm
          (select (is_on path n) issues ++ shown later)
          (select (within path n (n + (kept later + 1))) issues)
  shown_step_kept n later ih = Perm.trans (Perm.append_left (select (is_on path n) issues) ih) (
      select-disjoint-perm (is_on path n) (within path (n + 1) (n + 1 + kept later))
        (within path n (n + (kept later + 1))) issues (λ i. ground arith) (λ i. ground arith))

  shown_step :
      (n : ℕ) (change : ChangeType) (later : List Line)
      → Perm
          (shown later)
          (select (within path (next_line_no change n) (next_line_no change n + kept later)) issues)
      → Perm
          (line_issues path n issues change ++ shown later)
          (select (within path n (n + next_line_no change (kept later))) issues)
  shown_step n change_remove later ih = ih
  shown_step n change_add later ih = shown_step_kept n later ih
  shown_step n change_none later ih = shown_step_kept n later ih

  no_lines :
      (range : Bytes) (n : ℕ) {flag : Bool} {lines : List Line}
      → scan_hunk quoted path issues range n [] ≡ done (flag, lines)
      → lines ≡ []
  unfolding scan_hunk
  no_lines range n e = ground arith

  no_flag :
      (range : Bytes) (n : ℕ) {flag : Bool} {lines : List Line}
      → scan_hunk quoted path issues range n [] ≡ done (flag, lines)
      → flag ≡ false
  unfolding scan_hunk
  no_flag range n e = ground arith

  -- If a hunk is scanned without an error, its lines together show exactly the issues of the file
  -- on the lines that the hunk has in the new version, each issue as often as it is given; and
  -- the hunk is marked as one with issues exactly if there is such an issue.
  pub scan_hunk-perm :
      (range : Bytes) (n : ℕ) (raws : List Bytes) (flag : Bool) (lines : List Line)
      → scan_hunk quoted path issues range n raws ≡ done (flag, lines)
      → Perm (shown lines) (select (within path n (n + kept lines)) issues)
        × (flag ≡ not (is_empty (shown lines)))
  scan_hunk-perm range n [] flag lines e =
      let none_yet : lines ≡ [] = no_lines range n e in
      rw (none_yet, select-none (within path n (n + 0)) issues (λ i. ground arith))
        (Perm.refl [], no_flag range n e)
  scan_hunk-perm range n (raw ∷ rest) flag lines e =
      let s = scan_hunk-cons range n raw rest flag lines e in
      let (ih, flagged) =
        scan_hunk-perm range (next_line_no s.change n) rest s.more s.later s.rest_scanned in
      rw s.lines_eq (
        shown_step n s.change s.later ih,
        s.flag_eq ∙ rw flagged (flag_or (line_issues path n issues s.change) (shown s.later)),
      )
