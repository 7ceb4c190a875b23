-- ===== src/Db/Recording/Trim.antt =====
-- internal/db/sqldb.go: what `trim` keeps, and how much `WriteExecution` stores.
use gopherci.Common.{
  ◌%◌, ◌+◌, ◌<◌, ◌-◌, ap, ◌∙◌, sym, ℕ, ◌+◌, ◌-◌, ◌/◌, ◌≤◌, ◌<◌, ◌≡◌, sym, ap, ◌∙◌, true, List, [],
  ◌∷◌, ◌++◌, Bytes, leb, length, take, drop, take-append-drop, length-take, length-drop,
  length-append, arith, ◌⊎◌, Bool-cases, inl, inr, trim_right,
}
use native.Mathlib.Nat.{add-zero, add-suc}
use Prim.Native.Nat.{zero, suc}
use gopherci.Db.Recording.{trim, placeholder, is_git_diff, output_row, stored_output}

-- Text that is at most `max` bytes long is kept as it is.
trim_short : (b : Bytes) (max : ℕ) → length b ≤ max → trim b max ≡ b
unfolding trim
trim_short b max h = ground arith

trim_long :
    (b : Bytes) (max : ℕ)
    → max < length b
    → trim b max ≡ take (max / 2) b ++ (placeholder (length b - max) ++ drop (length b - max / 2) b)
unfolding trim
trim_long b max h = ground arith

drop-drop {ℓ} : {A : Type ℓ} (i j : ℕ) (xs : List A) → drop i (drop j xs) ≡ drop (i + j) xs
drop-drop i zero xs = rw add-zero
drop-drop zero (suc j) [] = rw (add-suc, drop)
drop-drop (suc i) (suc j) [] = rw (add-suc, drop)
drop-drop i (suc j) (x ∷ xs) = rw (add-suc, drop) (drop-drop i j xs)

-- For an even `max`, text of more than `max` bytes is cut into a first part, a middle and a last
-- part; what is kept is the first and the last, of max / 2 bytes each, and between them a
-- placeholder that gives the exact number of bytes of the middle.
pub trim_parts :
    (b : Bytes) (max : ℕ)
    → max < length b
    → max % 2 ≡ 0
    → (head : Bytes) × (middle : Bytes) × (tail : Bytes) × (b ≡ head ++ (middle ++ tail))
      × (trim b max ≡ head ++ (placeholder (length middle) ++ tail))
      × (length head ≡ max / 2)
      × (length tail ≡ max / 2)
trim_parts b max h even = (
  take half b,
  take (n - max) (drop half b),
  drop (n - half) b,
  let e = sym (take-append-drop (n - max) (drop half b)) in
      let tail_eq : drop (n - max) (drop half b) ≡ drop (n - half) b =
        drop-drop (n - max) half b ∙ ap (λ k. drop k b) (omega arith) in
      sym (take-append-drop half b) ∙ ap (λ l. take half b ++ l) (rw tail_eq at e),
  trim_long b max h
      ∙ ap (λ k. take half b ++ (placeholder k ++ drop (n - half) b))
          (omega (arith, length-take (n - max) (drop half b), length-drop half b)),
  omega (arith, length-take half b),
  omega (arith, length-drop (n - half) b),
)
  where
    half : ℕ
    half = max / 2

    n : ℕ
    n = length b

trim_long_length :
    (b : Bytes) (max : ℕ)
    → max < length b
    → max % 2 ≡ 0
    → length (trim b max) ≡ max + length (placeholder (length b - max))
trim_long_length b max long even =
    let half : ℕ = max / 2 in
    let kept = placeholder (length b - max) in
    rw (trim_long b max long) (
      omega (
        arith,
        length-append (take half b) (kept ++ drop (length b - half) b),
        length-append kept (drop (length b - half) b),
        length-take half b,
        length-drop (length b - half) b,
      ))

-- Of one execution, text of at most 10240 bytes is stored as it is; of a longer one, exactly 10240
-- bytes are stored, besides the placeholder that counts the others.
pub output_row_bound :
    (id : ℕ) (args : List Bytes) (d : ℕ) (output : Bytes)
    → let text = stored_output args output in
      let stored = (output_row id args d output).output in
      ((length text ≤ 10240) × (stored ≡ text))
      ⊎ ((10240 < length text)
          × (length stored ≡ 10240 + length (placeholder (length text - 10240))))
unfolding output_row
output_row_bound id args d output =
    let text = stored_output args output in
    elim (Bool-cases (leb (length text) 10240)) [
      | inl short ↦
          let le : length text ≤ 10240 = ground arith in inl (le, trim_short text 10240 le)
      | inr long ↦
          let lt : 10240 < length text = ground arith in
          inr (lt, trim_long_length text 10240 lt (omega arith))
    ]

-- Nothing of the output of a `git diff` is stored but the length of its text: executions whose
-- trimmed outputs are equally long are stored as equal rows.
pub output_row_git_diff :
    (id : ℕ) (args : List Bytes) (d : ℕ) (output output' : Bytes)
    → is_git_diff args ≡ true
    → length (trim_right output) ≡ length (trim_right output')
    → output_row id args d output ≡ output_row id args d output'
unfolding output_row stored_output
output_row_git_diff id args d output output' diff same = rw (diff, same)
