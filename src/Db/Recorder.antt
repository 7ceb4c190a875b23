-- ===== src/Db/Recorder.antt =====
-- internal/db/sqldb.go: `SQLExecuteWriter`, an executer that stores what another one runs. Its
-- write, `WriteExecution`, is the parameter `write`.
use gopherci.Common.{
  ℕ, List, ◌++◌, Option, none, some, Bytes, lit, Go, pure, ◌>>=◌, Error, message, error_text,
}
use gopherci.Analyser.{Executer}

-- `%v` on an error that may be nil.
unfoldable pub show_error : Option Error → Bytes
show_error none = lit "<nil>"
show_error (some e) = error_text e

unfoldable pub write_failure : Error → Option Error → Error
unfolding show_error
write_failure werr eerr = message (
    lit "could not write execution results to db: "
    ++ (error_text werr ++ (lit ", execution error (may be nil): " ++ show_error eerr)))

-- The results of `Execute`, from those of the wrapped executer and of the write.
abbrev pub recorded : Bytes × Option Error → Option Error → Bytes × Option Error
recorded (out, eerr) none = (out, eerr)
recorded (out, eerr) (some werr) = (out, some (write_failure werr eerr))

unfoldable pub recorder :
    {C : Type 0}
    → (elapsed : List C → List C → ℕ) → (write : List Bytes → ℕ → Bytes → Go C (Option Error))
    → Executer C
    → Executer C
recorder {C} elapsed write executer = record {
  execute = λ args start.
      (do
        r ← executer.execute args
        werr ← (λ h. write args (elapsed start h) r.0 h)
        pure (recorded r werr))
        start;
  stop = executer.stop;
}
