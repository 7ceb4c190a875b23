-- ===== src/Analyser/Honesty.antt =====
-- internal/analyser: which answers of the environment the commands before the tools pass over.
use gopherci.Common.{
  bytes_beq_refl, lit, ◌≡◌, refl, true, List, [], ◌∷◌, Option, none, some, Bytes, Result, ok, err,
  panic, Go, pure, check, map_error, and_then, Error, non_zero,
}
use gopherci.Db.{Tool}
use gopherci.Db.Recording.{is_git_diff}
use gopherci.Analyser.{
  diff_args, show_head_args, RepoConfig, Library, Executer, Cloner, pull_request_cloner,
  push_cloner, RefReader, merge_base, fixed_ref, run_plain, run_quoted, clone, base, read_config,
  after_cat, get_patch, or_show, install_apt_packages,
}
use gopherci.Analyser.Machine.{Machine, Commands, executer_of}

-- The answers that may stand in the history of a successful analysis: success, a non-zero exit
-- status, and any failure of `git diff`, for which there is a fallback.
abbrev pub Tolerated : List Bytes → Option Error → Type 0
Tolerated args none = Unit
Tolerated args (some (non_zero _ _)) = Unit
Tolerated args (some e) = is_git_diff args ≡ true

-- All commands of a history were answered so.
abbrev pub IsHonest : Machine → Commands → Type 0
IsHonest machine [] = Unit
IsHonest machine (args ∷ h) = Tolerated args (machine.run h args).1 × IsHonest machine h

-- A computation that returned no error left such a history.
abbrev pub Keeps : {A : Type 0} → Machine → Result A × Commands → Type 0
Keeps machine (ok a, h) = IsHonest machine h
Keeps machine (err e, h) = Unit
Keeps machine (panic m, h) = Unit

module _ (machine : Machine) where
  pub >>=-Keeps :
      {A B : Type 0} (r : Result A × Commands) (k : A → Go (List Bytes) B)
      → Keeps machine r
      → ((a : A) (h : Commands) → IsHonest machine h → Keeps machine (k a h))
      → Keeps machine (and_then r.0 k r.1)
  >>=-Keeps (ok a, h) k first rest = rest a h first
  >>=-Keeps (err e, h) k first rest = tt
  >>=-Keeps (panic m, h) k first rest = tt

  pub map_error-Keeps :
      {A : Type 0} (f : Error → Error) (r : Result A × Commands)
      → Keeps machine r
      → Keeps machine (map_error f r.0, r.1)
  map_error-Keeps f (ok a, h) keeps = keeps
  map_error-Keeps f (err e, h) keeps = tt
  map_error-Keeps f (panic m, h) keeps = tt

  -- A value of type Result that calls nothing.
  pub result-Keeps :
      {A : Type 0} (r : Result A) (h : Commands) → IsHonest machine h → Keeps machine (r, h)
  result-Keeps (ok a) h honest = honest
  result-Keeps (err e) h honest = tt
  result-Keeps (panic m) h honest = tt

  -- A command whose every error is returned.
  check-Keeps :
      {B : Type 0} (args : List Bytes) (h : Commands) (answer : Option Error) (f : Error → Error)
      (k : Go (List Bytes) B)
      → (Tolerated args answer → Keeps machine (k (args ∷ h)))
      → Keeps machine (check answer f k (args ∷ h))
  check-Keeps args h none f k rest = rest tt
  check-Keeps args h (some e) f k rest = tt

module _ (machine : Machine) (lib : Library (List Bytes)) where
  abbrev exec : Executer (List Bytes)
  exec = executer_of machine

  pub run_plain-Keeps :
      (args : List Bytes) (h : Commands)
      → IsHonest machine h
      → Keeps machine (run_plain lib exec args h)
  unfolding run_plain
  run_plain-Keeps args h honest =
      check-Keeps machine args h (machine.run h args).1 _ _ (λ t. (t, honest))

  run_quoted-Keeps :
      (args : List Bytes) (h : Commands)
      → IsHonest machine h
      → Keeps machine (run_quoted lib exec args h)
  unfolding run_quoted
  run_quoted-Keeps args h honest =
      check-Keeps machine args h (machine.run h args).1 _ _ (λ t. (t, honest))

  pub clone-Keeps :
      (cloner : Cloner) (h : Commands)
      → IsHonest machine h
      → Keeps machine (clone lib exec cloner h)
  unfolding clone
  clone-Keeps (pull_request_cloner _ _ _ _) h honest =
      >>=-Keeps machine _ _ (run_quoted-Keeps _ h honest)
        λ _ h' honest'. >>=-Keeps machine _ _ (run_quoted-Keeps _ h' honest') (λ _ _ last. last)
  clone-Keeps (push_cloner _ _) h honest =
      >>=-Keeps machine _ _ (run_quoted-Keeps _ h honest)
        λ _ h' honest'. >>=-Keeps machine _ _ (run_quoted-Keeps _ h' honest') (λ _ _ last. last)

  pub base-Keeps :
      (r : RefReader) (h : Commands) → IsHonest machine h → Keeps machine (base lib exec r h)
  unfolding base
  base-Keeps merge_base h honest =
      >>=-Keeps machine _ _ (run_quoted-Keeps _ h honest) (λ _ _ last. last)
  base-Keeps (fixed_ref _) h honest = honest

  after_cat-Keeps :
      (cfg : RepoConfig) (yml : Bytes) (e : Option Error) (args : List Bytes) (h : Commands)
      → (machine.run h args).1 ≡ e
      → IsHonest machine h
      → Keeps machine (after_cat lib exec cfg yml e (args ∷ h))
  after_cat-Keeps cfg yml (some (non_zero _ _)) args h q honest = rw q (tt, honest)
  after_cat-Keeps cfg yml none args h q honest =
      map_error-Keeps machine _ _ (result-Keeps machine _ _ (rw q (tt, honest)))
  after_cat-Keeps cfg yml (some _) args h q honest = tt

  pub read_config-Keeps :
      (tools : List Tool) (h : Commands)
      → IsHonest machine h
      → Keeps machine (read_config lib exec tools h)
  unfolding read_config
  read_config-Keeps tools h honest = after_cat-Keeps _ _ _ _ h refl honest

  pub install_apt_packages-Keeps :
      (packages : List Bytes) (h : Commands)
      → IsHonest machine h
      → Keeps machine (install_apt_packages lib exec packages h)
  unfolding install_apt_packages
  install_apt_packages-Keeps [] h honest = honest
  install_apt_packages-Keeps (p ∷ packages) h honest =
      check-Keeps machine _ h _ _ (pure tt) (λ t. (t, honest))

  diff_args-Tolerated :
      (base_ref head_ref : Bytes) (e : Option Error)
      → Tolerated (diff_args lib exec base_ref head_ref) e
  unfolding is_git_diff
  diff_args-Tolerated b r none = tt
  diff_args-Tolerated b r (some (non_zero _ _)) = tt
  diff_args-Tolerated b r (some _) = rw (bytes_beq_refl (lit "git"), bytes_beq_refl (lit "diff"))

  or_show-Keeps :
      (b r patch : Bytes) (e : Option Error) (h : Commands)
      → IsHonest machine h
      → Keeps machine (or_show lib exec b r patch e h)
  or_show-Keeps b r patch none h honest = honest
  or_show-Keeps b r patch (some e) h honest =
      let args = show_head_args lib exec r in
      check-Keeps machine args h _ _ (pure (machine.run h args).0) (λ t. (t, honest))

  pub get_patch-Keeps :
      (b r : Bytes) (h : Commands) → IsHonest machine h → Keeps machine (get_patch lib exec b r h)
  unfolding get_patch
  get_patch-Keeps b r h honest =
      or_show-Keeps b r _ _ (diff_args lib exec b r ∷ h) (diff_args-Tolerated b r _, honest)
