-- ===== src/Github/Jobs.antt =====
-- internal/github/handlers.go: what is analysed for an event, `PushConfig` and
-- `PullRequestConfig`.
pub mod Scheme
use gopherci.Common.{
  ℕ, zero, suc, ◌-◌, Bool, true, false, not, ◌&&◌, ◌||◌, List, [], ◌∷◌, ◌++◌, Option, none, some,
  Bytes, lit, itoa, if◌then◌else◌, ◌==◌, nat_eq, bytes_eq, leb, length, has_prefix,
}
use gopherci.Analyser.{Cloner, pull_request_cloner, push_cloner, RefReader, merge_base, fixed_ref}
use gopherci.Github.{PushEvent, PullRequestEvent}

-- `strings.Replace(s, old, new, -1)` for an `old` that is not empty; `skip` bytes of a match are
-- still to be passed over.
replace_from : (old new : Bytes) → ℕ → Bytes → Bytes
replace_from old new skip [] = []
replace_from old new (suc skip) (c ∷ s) = replace_from old new skip s
replace_from old new zero (c ∷ s) =
    let matched = new ++ replace_from old new (length old - 1) s in
    let kept = c ∷ replace_from old new 0 s in if has_prefix (c ∷ s) old then matched else kept

unfoldable pub replace_all : (s old new : Bytes) → Bytes
unfolding replace_from
replace_all s old new = replace_from old new 0 s

-- The class [a-zA-Z0-9+.-].
unfoldable pub is_scheme_char : ℕ → Bool
is_scheme_char c =
    (leb b'a' c && leb c b'z')
    || ((leb b'A' c && leb c b'Z')
        || ((leb b'0' c && leb c b'9') || (c == b'+' || (c == b'.' || c == b'-'))))

-- The bytes of "://".
abbrev pub separator : Bytes
separator = 58 ∷ 47 ∷ 47 ∷ []

-- Every leftmost match of [a-zA-Z0-9+.-]+:// is dropped. `run` is the longest run of characters of
-- the class that ends here.
unfoldable pub strip_from : ℕ → (run : Bytes) → Bytes → Bytes
strip_from skip run [] = run
strip_from (suc skip) run (c ∷ s) = strip_from skip [] s
strip_from zero run (c ∷ s) =
    let longer = strip_from 0 (run ++ (c ∷ [])) s in
    let matched = strip_from 2 [] s in
    let kept = run ++ (c ∷ strip_from 0 [] s) in
    if is_scheme_char c
    then longer
    else if not (run == []) && has_prefix (c ∷ s) separator
    then matched
    else kept

unfoldable pub strip_scheme : Bytes → Bytes
strip_scheme url = strip_from 0 [] url

pub record AnalyseConfig : Type 0 where
  pub cloner : Cloner
  pub ref_reader : RefReader
  pub installation_id : ℕ
  pub repository_id : ℕ
  pub statuses_context : Bytes
  pub statuses_url : Bytes
  pub commit_from : Bytes
  pub commit_to : Bytes
  pub commit_count : ℕ
  pub pr : ℕ
  pub head_ref : Bytes
  pub go_src_path : Bytes
  pub owner : Bytes
  pub repo : Bytes
  pub sha : Bytes

-- `e.Created != nil && *e.Created`
abbrev pub is_created : Option Bool → Bool
is_created none = false
is_created (some b) = b

unfoldable pub push_config : PushEvent → AnalyseConfig
push_config e =
    let base = e.after ++ (lit "~" ++ itoa (length e.commits)) in
    record {
      cloner = push_cloner e.repo.clone_url e.after;
      ref_reader = fixed_ref base;
      installation_id = e.installation_id;
      repository_id = e.repo.id;
      statuses_context = lit "ci/gopherci/push";
      statuses_url = replace_all e.repo.statuses_url (lit "{sha}") e.after;
      commit_from = if is_created e.created then [] else base;
      commit_to = e.after;
      commit_count = length e.commits;
      pr = 0;
      head_ref = e.after;
      go_src_path = strip_scheme e.repo.html_url;
      owner = e.repo.owner;
      repo = e.repo.name;
      sha = e.after;
    }

unfoldable pub pull_request_config : PullRequestEvent → AnalyseConfig
pull_request_config e = record {
  cloner = pull_request_cloner e.head.repo.clone_url e.head.ref e.base.repo.clone_url e.base.ref;
  ref_reader = merge_base;
  installation_id = e.installation_id;
  repository_id = e.repo.id;
  statuses_context = lit "ci/gopherci/pr";
  statuses_url = e.statuses_url;
  commit_from = [];
  commit_to = [];
  commit_count = 0;
  pr = e.number;
  head_ref = e.head.ref;
  go_src_path = strip_scheme e.base.repo.html_url;
  owner = e.base.repo.owner;
  repo = e.base.repo.name;
  sha = e.head.sha;
}
