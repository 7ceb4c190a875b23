-- ===== src/Db/Mock/Lookups.antt =====
-- internal/db/mockdb.go: what a look-up finds after each change of the installations.
use gopherci.Common.{
  ℕ, ◌<◌, true, false, ◌≡◌, none, some, arith, nat_beq, nat_eq, if◌then◌else◌, lookup-insert,
  insert, lookup-erase,
}
use gopherci.Db.{GhInstallation, is_enabled}
use gopherci.Db.Mock.{
  MockDb, unix_one, add_gh_installation, remove_gh_installation, enable_gh_installation,
  get_gh_installation,
}

abbrev pub fresh_row : ℕ → ℕ → ℕ → GhInstallation
fresh_row i a s = record {
  id = 0;
  installation_id = i;
  account_id = a;
  sender_id = s;
  enabled_at = 0;
}

-- After an installation is added, a look-up of its id finds the new row and every other id finds
-- what it found before; the forced error is returned by both methods.
get-add :
    (db : MockDb) (i a s j : ℕ)
    → get_gh_installation (add_gh_installation db i a s).0 j
      ≡ ((if nat_beq i j then some (fresh_row i a s) else (get_gh_installation db j).0), db.err)
unfolding add_gh_installation get_gh_installation
get-add db i a s j = ground (arith, lookup-insert i j (fresh_row i a s) db.installations)

-- After an installation is removed, its id finds nothing and every other id what it found before.
get-remove :
    (db : MockDb) (i j : ℕ)
    → get_gh_installation (remove_gh_installation db i).0 j
      ≡ ((if nat_beq i j then none else (get_gh_installation db j).0), db.err)
unfolding remove_gh_installation get_gh_installation
get-remove db i j = ground (arith, lookup-erase i j db.installations)

-- An installation that is added and then enabled is found, with the ids that it was added with,
-- and is enabled at every time after one second past the Unix epoch; one that is only added is
-- enabled at no such time.
get-enable-add :
    (db : MockDb) (i a s now : ℕ)
    → unix_one < now
    → let row : GhInstallation = record (fresh_row i a s) { enabled_at = unix_one } in
      (get_gh_installation (enable_gh_installation (add_gh_installation db i a s).0 i).0 i
        ≡ (some row, db.err))
      × (is_enabled now row ≡ true)
      × (is_enabled now (fresh_row i a s) ≡ false)
unfolding add_gh_installation get_gh_installation enable_gh_installation is_enabled
get-enable-add db i a s now h = (
  ground (
    arith,
    lookup-insert i i (fresh_row i a s) db.installations,
    lookup-insert i i (record (fresh_row i a s) { enabled_at = unix_one })
        (insert i (fresh_row i a s) db.installations),
  ),
  ground arith,
  ground arith,
)
