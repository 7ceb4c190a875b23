-- ===== src/Common/Effect.antt =====
-- Go's fallible, effectful functions. A computation extends a history of calls to the outside
-- world, newest first; it returns, returns an error, or panics.
use Prim.Native.Nat.{ℕ}
use mathlib.Core.List.{List, ◌∷◌}
use mathlib.Core.Option.{Option, none, some}
use gopherci.Common.Text.{Bytes}

pub data ℤ : Type 0 where
  pos : ℕ → ℤ
  negsuc : ℕ → ℤ

-- The reasons of `*ignoreEvent`, in the order of the source's `iota`.
pub data IgnoreReason : Type 0 where
  unknown_event invalid_action no_action no_installation no_go_files private_repos pr_inaccessible :
      IgnoreReason

-- The values of Go's `error` interface, by dynamic type. `wrap e m` is `errors.Wrap(e, m)` or
-- `errors.WithMessage(e, m)`; `about` is what else a message quotes.
pub data Error : Type 0 where
  message : Bytes → Error
  wrap : Error → Bytes → Error
  non_zero : List Bytes → ℤ → Error
  ignore_event : IgnoreReason → Bytes → Error

pub data Result (A : Type 0) : Type 0 where
  ok : A → Result A
  err : Error → Result A
  panic : Bytes → Result A

-- `Go C A` may make calls of type `C`.
abbrev pub Go : Type 0 → Type 0 → Type 0
Go C A = List C → Result A × List C

module _ {A : Type 0} where
  -- What `err` holds after a call.
  abbrev pub caught : Result A → Result (Option Error)
  caught (ok a) = ok none
  caught (err e) = ok (some e)
  caught (panic m) = panic m

  abbrev pub map_error : (Error → Error) → Result A → Result A
  map_error f (ok a) = ok a
  map_error f (err e) = err (f e)
  map_error f (panic m) = panic m

module _ {C A : Type 0} where
  abbrev pub pure : A → Go C A
  pure a h = (ok a, h)

  abbrev pub fail : Error → Go C A
  fail e h = (err e, h)

  -- One call to the outside: the answer depends on all calls before it.
  abbrev pub ask : C → (List C → Result A) → Go C A
  ask c answer h = (answer h, c ∷ h)

  -- `if err := m; err != nil { ... }`: the error as a value.
  abbrev pub try : Go C A → Go C (Option Error)
  try m h = let (r, h') = m h in (caught r, h')

  -- `return errors.Wrap(err, m)` on an error.
  abbrev pub wrapping : Bytes → Go C A → Go C A
  wrapping m k h = let (r, h') = k h in (map_error (λ e. wrap e m) r, h')

module _ {C A B : Type 0} where
  abbrev pub and_then : Result A → (A → Go C B) → Go C B
  and_then (ok a) f h = f a h
  and_then (err e) f h = (err e, h)
  and_then (panic m) f h = (panic m, h)

  infixl 5 ◌>>=◌
  abbrev pub ◌>>=◌ : Go C A → (A → Go C B) → Go C B
  ◌>>=◌ m f h = let (r, h') = m h in and_then r f h'

  infixl 5 ◌>>◌
  abbrev pub ◌>>◌ : Go C A → Go C B → Go C B
  m >> k = m >>= λ _. k

module _ {C B : Type 0} where
  -- `return errors...` when an error value is not nil.
  abbrev pub check : Option Error → (Error → Error) → Go C B → Go C B
  check none f k = k
  check (some e) f k = fail (f e)

-- `error` results with no value: `nil` is `ok tt`.
abbrev pub to_result : Option Error → Result (Unit {0})
to_result none = ok tt
to_result (some e) = err e
