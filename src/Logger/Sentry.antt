-- ===== src/Logger/Sentry.antt =====
-- internal/logger/logger.go: what becomes of a DSN that Sentry's client refuses.
use mathlib.Core.Bool.{false≢true}
use gopherci.Common.{
  ap, sym, ◌∙◌, arith, false, ◌≡◌, ◌≢◌, refl, inl, inr, ◌⊎◌, Bool-cases, List, [], ◌∷◌, Option,
  none, some, Bytes, Result, ok, panic, Error, bytes_beq, bytes_beq_iff, bytes_eq, ◌==◌,
}
use gopherci.Logger.{
  Logrus, Log, LoggerCall, Hook, new_hook, sentry_levels, new, enable_sentry, configured,
  call_method,
}

-- Go's convention for a result and an error: exactly one of them is nil.
abbrev pub OneIsNil : Option Hook × Option Error → Type 0
OneIsNil (none, some e) = Unit {0}
OneIsNil (some hook, none) = Unit {0}
OneIsNil _ = ⊥

-- A logger was made and the DSN is empty or was accepted; or it was refused, and then nothing
-- happened but a panic.
abbrev pub Created :
    (l : Logrus)
    → Bytes
    → List (LoggerCall l.Entry)
    → Result (Log l.Entry) × List (LoggerCall l.Entry)
    → Type 0
Created l dsn h (ok log, h') = (dsn ≡ []) ⊎ ((l.hook_result dsn).1 ≡ none)
Created l dsn h (panic text, h') =
    (dsn ≢ []) × ((l.hook_result dsn).1 ≢ none) × (h' ≡ new_hook dsn sentry_levels ∷ h)
Created l dsn h _ = ⊥

module _ (l : Logrus) where
  given-Created :
      (build env dsn : Bytes) (h : List (LoggerCall l.Entry)) (answer : Option Hook × Option Error)
      → bytes_beq dsn [] ≡ false
      → l.hook_result dsn ≡ answer
      → OneIsNil answer
      → Created l dsn h (new l build env dsn h)
  unfolding new enable_sentry configured call_method
  given-Created build env dsn h (none, some e) given q one =
      let not_blank : dsn ≢ [] = λ b. false≢true (sym given ∙ (bytes_beq_iff dsn []).1 b) in
      rw (given, q) (not_blank, (λ n. ground arith), refl)
  given-Created build env dsn h (some hook, none) given q one =
      rw (given, q) (inr (ap (λ a. a.1) q))
  given-Created build env dsn h (none, none) given q one = absurd one
  given-Created build env dsn h (some hook, some e) given q one = absurd one

  -- If the constructor of the hook gives a hook or an error but not both: `New` gives a logger if
  -- the DSN is empty or accepted; for a DSN that is refused it panics right after that constructor,
  -- so the line that is meant for this case is never logged.
  pub new-Created :
      (build env dsn : Bytes) (h : List (LoggerCall l.Entry))
      → OneIsNil (l.hook_result dsn)
      → Created l dsn h (new l build env dsn h)
  unfolding new
  new-Created build env dsn h one = elim (Bool-cases (dsn == [])) [
    | inl blank ↦ rw blank (inl ((bytes_beq_iff dsn []).0 blank))
    | inr given ↦ given-Created build env dsn h (l.hook_result dsn) given refl one
  ]
