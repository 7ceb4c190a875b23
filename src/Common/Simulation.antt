-- ===== src/Common/Simulation.antt =====
-- Computations that do with one kind of calls what others do with another kind, given the history
-- of calls that each history of the others stands for.
use mathlib.Core.Path.{◌≡◌, ◌∙◌, refl, ap}
use mathlib.Core.List.{List}
use mathlib.Core.Option.{Option, none, some}
use gopherci.Common.Text.{Bytes}
use gopherci.Common.Effect.{
  Go, Result, ok, err, panic, and_then, ◌>>=◌, check, wrapping, map_error, wrap, Error,
}

module _ {C D : Type 0} (history : List D → List C) where
  -- The same result, and the history that the other's history stands for.
  abbrev pub Implements : {A : Type 0} → Go C A → Go D A → Type 0
  Implements m n = (d : List D) → m (history d) ≡ ((n d).0, history (n d).1)

  and_then-Implements :
      {A B : Type 0} (r : Result A) (k : A → Go C B) (l : A → Go D B)
      → ((a : A) → Implements (k a) (l a))
      → Implements (and_then r k) (and_then r l)
  and_then-Implements (ok a) k l rest d = rest a d
  and_then-Implements (err e) k l rest d = refl
  and_then-Implements (panic text) k l rest d = refl

  pub >>=-Implements :
      {A B : Type 0} (m : Go C A) (n : Go D A) (k : A → Go C B) (l : A → Go D B)
      → Implements m n
      → ((a : A) → Implements (k a) (l a))
      → Implements (m >>= k) (n >>= l)
  >>=-Implements m n k l first rest d =
      ap (λ p. and_then p.0 k p.1) (first d) ∙ and_then-Implements (n d).0 k l rest (n d).1

  pub check-Implements :
      {B : Type 0} (e : Option Error) (f : Error → Error) (k : Go C B) (l : Go D B)
      → Implements k l
      → Implements (check e f k) (check e f l)
  check-Implements none f k l rest d = rest d
  check-Implements (some e) f k l rest d = refl

  pub wrapping-Implements :
      {A : Type 0} (text : Bytes) (m : Go C A) (n : Go D A)
      → Implements m n
      → Implements (wrapping text m) (wrapping text n)
  wrapping-Implements text m n first d = ap (λ p. (map_error (λ e. wrap e text) p.0, p.1)) (first d)

  -- A result without a call.
  pub result-Implements : {A : Type 0} (r : Result A) → Implements (λ h. (r, h)) (λ d. (r, d))
  result-Implements r d = refl

pub ruleset simulation_rules =
    (>>=-Implements, check-Implements, wrapping-Implements, result-Implements)
