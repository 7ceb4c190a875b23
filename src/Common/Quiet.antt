-- ===== src/Common/Quiet.antt =====
-- Computations that keep some measure of the history of their calls.
use mathlib.Core.Path.{◌≡◌, ◌∙◌, refl}
use mathlib.Core.Bool.{Bool, true, false}
use mathlib.Core.List.{List}
use mathlib.Core.Option.{Option, none, some}
use gopherci.Common.Tests.{if◌then◌else◌}
use gopherci.Common.Text.{Bytes}
use gopherci.Common.Effect.{
  Go, Result, ok, err, panic, and_then, ◌>>=◌, check, wrapping, try, Error,
}

module _ {C V : Type 0} (measure : List C → V) where
  abbrev pub IsQuiet : {A : Type 0} → Go C A → Type 0
  IsQuiet m = (h : List C) → measure (m h).1 ≡ measure h

  and_then-IsQuiet :
      {A B : Type 0} (r : Result A) (k : A → Go C B)
      → ((a : A) → IsQuiet (k a))
      → IsQuiet (and_then r k)
  and_then-IsQuiet (ok a) k rest h = rest a h
  and_then-IsQuiet (err e) k rest h = refl
  and_then-IsQuiet (panic text) k rest h = refl

  -- One computation after another that is quiet at the history it starts from.
  pub >>=-quiet :
      {A B : Type 0} (m : Go C A) (k : A → Go C B) (h : List C)
      → measure (m h).1 ≡ measure h
      → ((a : A) → IsQuiet (k a))
      → measure ((m >>= k) h).1 ≡ measure h
  >>=-quiet m k h first rest = and_then-IsQuiet (m h).0 k rest (m h).1 ∙ first

  pub >>=-IsQuiet :
      {A B : Type 0} (m : Go C A) (k : A → Go C B)
      → IsQuiet m
      → ((a : A) → IsQuiet (k a))
      → IsQuiet (m >>= k)
  >>=-IsQuiet m k first rest h = >>=-quiet m k h (first h) rest

  pub check-IsQuiet :
      {B : Type 0} (e : Option Error) (f : Error → Error) (k : Go C B)
      → IsQuiet k
      → IsQuiet (check e f k)
  check-IsQuiet none f k rest h = rest h
  check-IsQuiet (some e) f k rest h = refl

  pub wrapping-IsQuiet :
      {A : Type 0} (text : Bytes) (m : Go C A) → IsQuiet m → IsQuiet (wrapping text m)
  wrapping-IsQuiet text m first = first

  pub try-IsQuiet : {A : Type 0} (m : Go C A) → IsQuiet m → IsQuiet (try m)
  try-IsQuiet m first = first

  pub if-IsQuiet :
      {A : Type 0} (b : Bool) (m n : Go C A) → IsQuiet m → IsQuiet n → IsQuiet (if b then m else n)
  if-IsQuiet true m n first second = first
  if-IsQuiet false m n first second = second

pub ruleset quiet_rules = (>>=-IsQuiet, check-IsQuiet, wrapping-IsQuiet, try-IsQuiet, if-IsQuiet)
