-- ===== src/Mvcc/Latest.antt =====
-- The latest version of an ID, after one was added.
use magpie_db.Common.{◌≡◌, some, arith, if◌then◌else◌, GoString, ◌==◌, ℕ-Eq, GoString-Eq}
use magpie_db.Mvcc.{Version, Manager, get_latest_version, add_version}
use magpie_db.Mvcc.Visible.{chain_of-add_version}

module _ {M : Type 0} where
  pub get_latest_version-add_version :
      (id j : GoString) (v : Version M) (m : Manager M)
      → get_latest_version j (add_version id v m)
        ≡ (if id == j then some v else get_latest_version j m)
  unfolding get_latest_version
  get_latest_version-add_version id j v m = rw (chain_of-add_version id j v m) (ground arith)
