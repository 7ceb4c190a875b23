-- ===== src/Db/Sql/Cleanup.antt =====
-- internal/db/sqldb.go: `NewSQLDB`, and `Cleanup`, a loop that waits for a ticker or for the end of
-- its context; what it receives, in order, is a list.
use gopherci.Common.{
  ℕ, zero, suc, ◌≡◌, ◌≢◌, ◌∙◌, refl, Bool, true, false, List, [], ◌∷◌, Option, Bytes, Result, ok,
  err, panic, Go, pure, try, ◌>>◌, Error, to_result,
}
use gopherci.Db.Sql.{Sql, Stmt, exec_only, delete_old_outputs}

-- `NewSQLDB`, with the result of its `Ping`; the database itself is the parameter of the methods.
unfoldable pub new_sqldb : (ping : Option Error) → Result (Unit {0})
new_sqldb ping = to_result ping

-- What `select` receives.
pub data Wake : Type 0 where
  ticked done : Wake

-- Whether it has returned, when all of `wakes` came; errors are logged only.
unfoldable pub cleanup : Sql → List Wake → Go Stmt Bool
cleanup sql [] = pure false
cleanup sql (done ∷ wakes) = pure true
cleanup sql (ticked ∷ wakes) = try (exec_only sql delete_old_outputs) >> cleanup sql wakes

-- How often the ticker comes before the end of the context, and whether the latter comes.
abbrev pub ticks_before_done : List Wake → ℕ
ticks_before_done [] = 0
ticks_before_done (done ∷ wakes) = 0
ticks_before_done (ticked ∷ wakes) = suc (ticks_before_done wakes)

abbrev pub comes_done : List Wake → Bool
comes_done [] = false
comes_done (done ∷ wakes) = true
comes_done (ticked ∷ wakes) = comes_done wakes

abbrev pub deletions : ℕ → List Stmt → List Stmt
deletions zero h = h
deletions (suc n) h = deletions n (delete_old_outputs ∷ h)

-- A database whose answers are results or errors.
abbrev pub NeverPanics : Sql → Type 0
NeverPanics sql = (h : List Stmt) (s : Stmt) (text : Bytes) → sql.exec h s ≢ panic text

-- On a database that never panics, whatever else it answers: the old outputs are deleted once for
-- each tick before the context ends, errors do not stop that, no other statement is sent, and the
-- loop returns exactly if the context ends.
pub cleanup_lem :
    (sql : Sql) (wakes : List Wake) (h : List Stmt)
    → NeverPanics sql
    → cleanup sql wakes h ≡ (ok (comes_done wakes), deletions (ticks_before_done wakes) h)
unfolding cleanup
cleanup_lem sql [] h never = refl
cleanup_lem sql (done ∷ wakes) h never = refl
cleanup_lem sql (ticked ∷ wakes) h never =
    after (sql.exec h delete_old_outputs) refl
    ∙ cleanup_lem sql wakes (delete_old_outputs ∷ h) never
  where
    after :
        (r : Result (Result ℕ))
        → sql.exec h delete_old_outputs ≡ r
        → cleanup sql (ticked ∷ wakes) h ≡ cleanup sql wakes (delete_old_outputs ∷ h)
    after (ok id) q = rw q refl
    after (err e) q = rw q refl
    after (panic text) q = absurd (never h delete_old_outputs text q)
