-- ===== src/Analyser/Docker/Connect.antt =====
-- internal/analyser/docker.go: `NewDocker`, which connects to the engine and looks for the image.
-- The connection is the client's, a parameter.
use gopherci.Common.{
  ℕ, List, ◌++◌, Option, Bytes, lit, ok, Go, ask, pure, check, ◌>>=◌, ◌>>◌, Error, wrap,
}
use gopherci.Analyser.Docker.{Docker}

pub data ConnectCall : Type 0 where
  new_client_from_env : ConnectCall
  server_info : ConnectCall
  inspect_image : (name : Bytes) → ConnectCall

-- The errors of the calls, after those made so far; `quoted` is `%q`.
pub record Connection : Type 0 where
  pub fails : List ConnectCall → ConnectCall → Option Error
  pub quoted : Bytes → Bytes

module _ (connection : Connection) where
  -- A call and its error.
  abbrev try_call : ConnectCall → Go ConnectCall (Option Error)
  try_call c = ask c (λ h. ok (connection.fails h c))

  unfoldable pub new_docker : (image : Bytes) → (mem_limit : ℕ) → Go ConnectCall Docker
  new_docker image mem_limit = do
    e ← try_call new_client_from_env
    check e (λ x. x) (pure (tt {0}))
    e' ← try_call server_info
    check e' (λ x. x) (pure (tt {0}))
    e₃ ← try_call (inspect_image image)
    check e₃ (λ x. wrap x (lit "could not inspect " ++ connection.quoted image)) (pure (tt {0}))
    pure (record { image = image; mem_limit = mem_limit })
