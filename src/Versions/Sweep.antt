-- ===== src/Versions/Sweep.antt =====
-- Garbage collection and loading: the loops of storage_mvcc.go over the whole index.
use magpie_db.Common.{
  ℕ, zero, suc, ◌+◌, ◌-◌, Bool, not, ◌||◌, none, some, List, [], ◌∷◌, ◌++◌, leb, if◌then◌else◌,
  GoString, ◌==◌, ℕ-Eq, GoString-Eq, length, take, Result, ok, err, panic, ◌>>=◌,
}
use magpie_db.Dict
use magpie_db.Dict.{Dict}
use magpie_db.Bytes.{Bytes}
use magpie_db.Page.{vector_page, deserialize_header}
use magpie_db.Storage.{Storage, read_page, free_page, page_count}
use magpie_db.Mvcc.{Version}
use magpie_db.Wal.{WalLib}
use magpie_db.Versions.{VersionStore, index_chain, deserialize_version}
use magpie_db.Versions.Store.{version_at, sort_version_chain}

-- `shouldKeep`, for a version of a chain of which `kept` pages are kept so far.
unfoldable pub should_keep : {M : Type 0} → ℕ → ℕ → Version M → Bool
should_keep oldest kept v = leb oldest v.created_by_tx || v.deleted_by_tx == 0 || kept == 0

-- The entry of an ID in the map, which is deleted when no page is left.
abbrev pub left_over : GoString → List ℕ → Dict GoString (List ℕ) → Dict GoString (List ℕ)
left_over id [] index = index
left_over id (p ∷ ps) index = (id, p ∷ ps) ∷ index

module _ {M : Type 0} (lib : WalLib M) where
  -- What `LoadVersionChains` does with a page that is read.
  unfoldable pub load_page : ℕ → Bytes → Dict GoString (List ℕ) → Result (Dict GoString (List ℕ))
  load_page page_num page index = elim (deserialize_header (take 64 page)) [
    | panic ↦ panic
    | err e ↦ ok index
    | ok header ↦
        if not (header.kind == vector_page) || not (header.count == 1)
        then ok index
        else elim (deserialize_version lib page) [
          | panic ↦ panic
          | err e ↦ ok index
          | ok v ↦
              let page_nums = index_chain v.id index in
              ok (Dict.put v.id (page_nums ++ (page_num ∷ [])) index)
        ]
  ]

  -- The loop of `LoadVersionChains`, over `n` pages.
  unfoldable pub load_pages :
      ℕ → ℕ → Storage → Dict GoString (List ℕ) → Result (Dict GoString (List ℕ))
  load_pages zero page_num s index = ok index
  load_pages (suc n) page_num s index = do
    entered ← elim (read_page page_num s) [
      | panic ↦ panic
      | err e ↦ ok index
      | ok page ↦ load_page page_num page index
    ]
    load_pages n (page_num + 1) s entered

  -- The inner loop of `GCVersionsOlderThan`: the pages that stay in the chain, how many were removed,
  -- and the storage.
  unfoldable pub gc_pages : ℕ → List ℕ → ℕ → Storage → Result (List ℕ × ℕ × Storage)
  gc_pages oldest [] kept s = ok ([], 0, s)
  gc_pages oldest (page_num ∷ page_nums) kept s =
      let passed = gc_pages oldest page_nums kept s in
      let keeping = do
        rest ← gc_pages oldest page_nums (kept + 1) s
        ok (page_num ∷ rest.0, rest.1, rest.2)
      in let removing = do
        rest ← gc_pages oldest page_nums kept (free_page page_num s).1
        ok (rest.0, rest.1 + 1, rest.2)
        in version_at lib page_num s >>= λ version. elim version [
          | none ↦ passed
          | some v ↦ if should_keep oldest kept v then keeping else removing
        ]

  -- The outer loop, over the map.
  unfoldable pub gc_index :
      ℕ → Dict GoString (List ℕ) → Storage → Result (Dict GoString (List ℕ) × ℕ × Storage)
  gc_index oldest [] s = ok ([], 0, s)
  gc_index oldest ((id, page_nums) ∷ index) s = do
    one ← gc_pages oldest page_nums 0 s
    rest ← gc_index oldest index one.2
    ok (left_over id one.0 rest.0, one.1 + rest.1, rest.2)

  unfoldable pub gc_versions_older_than : ℕ → VersionStore → Result (ℕ × VersionStore)
  gc_versions_older_than oldest_active_tx ms = do
    all ← gc_index oldest_active_tx ms.version_index ms.storage
    ok (all.1, record { storage = all.2; version_index = all.0 })

-- `GetVersionCount` and `GetVectorCount`.
unfoldable pub count_pages : Dict GoString (List ℕ) → ℕ
count_pages [] = 0
count_pages ((id, page_nums) ∷ index) = length page_nums + count_pages index

unfoldable pub get_version_count : VersionStore → ℕ
get_version_count ms = count_pages ms.version_index

unfoldable pub keys_of : Dict GoString (List ℕ) → List GoString
keys_of [] = []
keys_of ((id, page_nums) ∷ index) = id ∷ keys_of index

unfoldable pub get_all_vector_ids : VersionStore → List GoString
get_all_vector_ids ms = keys_of ms.version_index

unfoldable pub get_vector_count : VersionStore → ℕ
get_vector_count ms = length ms.version_index

module _ (sort : List (ℕ × ℕ) → List (ℕ × ℕ)) where
  -- Every chain of the map, one after the other.
  unfoldable pub sort_all : Dict GoString (List ℕ) → VersionStore → Result VersionStore
  sort_all [] ms = ok ms
  sort_all ((id, page_nums) ∷ index) ms = do
    sorted ← sort_version_chain sort id ms
    sort_all index sorted

  unfoldable pub load_version_chains : {M : Type 0} → WalLib M → VersionStore → Result VersionStore
  load_version_chains lib ms = do
    index ← load_pages lib (page_count ms.storage - 1) 1 ms.storage []
    sort_all index (record ms { version_index = index })
