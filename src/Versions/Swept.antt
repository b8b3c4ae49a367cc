-- ===== src/Versions/Swept.antt =====
-- What garbage collection leaves of every chain.
use magpie_db.Common.{ℕ, ◌≡◌, none, List, GoString, ℕ-Eq, GoString-Eq, All, ok}
use magpie_db.Dict
use magpie_db.Dict.{Dict}
use magpie_db.Storage.{Storage}
use magpie_db.Mvcc.{Version}
use magpie_db.Wal.{WalLib}
use magpie_db.Versions.{index_chain}
use magpie_db.Versions.Store.{version_at, versions_at}
use magpie_db.Versions.Sweep.{gc_index}
use magpie_db.Versions.Kept.{survivors}

module _ {M : Type 0} (lib : WalLib M) where
  -- All pages of the index can be read, or are passed over.
  abbrev pub Readable : Storage → Dict GoString (List ℕ) → Type 0
  Readable s = All (λ e. (vs : List (Version M)) × (versions_at lib e.1 s ≡ ok vs))

  -- What the outer loop does.
  record Swept (oldest : ℕ) (index : Dict GoString (List ℕ)) (s : Storage) : Type 0 where
    remaining : Dict GoString (List ℕ)
    removed : ℕ
    after : Storage
    runs : gc_index lib oldest index s ≡ ok (remaining, removed, after)
    same : (r : ℕ) → version_at lib r after ≡ version_at lib r s
    absent : (id : GoString) → Dict.get id index ≡ none → Dict.get id remaining ≡ none
    back :
        (id : GoString) (vs : List (Version M))
        → versions_at lib (index_chain id index) s ≡ ok vs
        → versions_at lib (index_chain id remaining) after ≡ ok (survivors oldest 0 vs)
