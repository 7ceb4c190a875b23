-- ===== src/Github/Installation.antt =====
-- internal/github/installation.go, with `newInstallationTransport` of github.go
use gopherci.Common.{
  panic, ◌&&◌, ℕ, not, [], ◌++◌, Option, none, some, Bytes, lit, itoa, Go, ask, pure, fail, check,
  wrapping, ◌>>=◌, ◌>>◌, message, if◌then◌else◌, ◌==◌, nat_eq, bytes_eq,
}
use gopherci.Db.{GhInstallation, is_enabled}
use gopherci.Github.{World, Config, Call, get_gh_installation, get_diff_url, http_get}

-- An installation that is there and enabled; the client is known by its base URL.
pub record Installation : Type 0 where
  pub id : ℕ
  pub base_url : Bytes

-- The transport of an installation's client, which signs the requests for it.
pub record Transport : Type 0 where
  pub installation_id : ℕ
  pub base_url : Bytes

module _ (config : Config) (world : World) where
  -- `newInstallationTransport`, from github.go
  abbrev pub new_installation_transport : ℕ → Go Call Transport
  new_installation_transport installation_id = do
    check (world.transport installation_id) (λ e. e) (pure tt)
    pure (record { installation_id = installation_id; base_url = config.base_url })

  -- The set-up of the client of an enabled installation.
  abbrev pub with_client : GhInstallation → Go Call (Option Installation)
  with_client i = do
    wrapping (lit "could not initialise transport for installation id " ++ itoa i.installation_id)
        (new_installation_transport i.installation_id)
    check world.base_url_error (λ e. e) (pure tt)
    pure (some (record { id = i.id; base_url = config.base_url }))

  abbrev pub from_row : Option GhInstallation → Go Call (Option Installation)
  from_row none h = pure none h
  from_row (some i) h = (if is_enabled (world.now h) i then with_client i else pure none) h

  -- `NewInstallation`; `IsEnabled` of its result is whether it is there.
  unfoldable pub new_installation : ℕ → Go Call (Option Installation)
  new_installation installation_id =
      ask (get_gh_installation installation_id) (λ h. world.installation h installation_id)
      >>= from_row

  -- The URL that `Diff` asks, if there is one to ask.
  unfoldable pub diff_api_url : Installation → ℕ → Bytes → Bytes → ℕ → Option Bytes
  diff_api_url i repository_id commit_from commit_to request_number =
      let repo = i.base_url ++ (lit "/repositories/" ++ itoa repository_id) in
      if not (request_number == 0)
      then some (repo ++ (lit "/pulls/" ++ itoa request_number))
      else if commit_from == []
      then none
      else some (repo ++ (lit "/compare/" ++ (commit_from ++ (lit "..." ++ commit_to))))

  abbrev fetch_page : (api_url diff_url : Bytes) → Go Call (Option Bytes)
  fetch_page api_url diff_url =
      if diff_url == []
      then fail (message (lit "no diff url in api: " ++ api_url))
      else (ask (http_get diff_url) (λ h. world.page h diff_url) >>= λ body. pure (some body))

  abbrev fetch_diff : Option Bytes → Go Call (Option Bytes)
  fetch_diff none = pure none
  fetch_diff (some api_url) = do
    diff_url ← ask (get_diff_url api_url) (λ h. world.diff_url h api_url)
    fetch_page api_url diff_url

  -- `Diff`. On a nil installation every case but that of the first commit reads its client.
  unfoldable pub diff : Option Installation → ℕ → Bytes → Bytes → ℕ → Go Call (Option Bytes)
  unfolding diff_api_url
  diff (some i) repository_id commit_from commit_to request_number =
      fetch_diff (diff_api_url i repository_id commit_from commit_to request_number)
  diff none repository_id commit_from commit_to request_number =
      if request_number == 0 && commit_from == []
      then pure none
      else (λ h. (panic (lit "nil pointer dereference"), h))
