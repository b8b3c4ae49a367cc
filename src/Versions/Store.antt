-- ===== src/Versions/Store.antt =====
-- Storing versions and reading them back: `StoreVersion` and the `Get` methods of storage_mvcc.go.
use magpie_db.Common.{
  ℕ, Option, none, some, List, [], ◌∷◌, ltb, leb, if◌then◌else◌, GoString, ◌==◌, ℕ-Eq, GoString-Eq,
  length, Result, ok, err, panic, ◌>>=◌,
}
use magpie_db.Dict
use magpie_db.Dict.{Dict}
use magpie_db.Bytes.{Bytes}
use magpie_db.Page.{uint_at}
use magpie_db.Storage.{Storage, Calls, allocate_page, write_page, read_page}
use magpie_db.Mvcc.{Version}
use magpie_db.Wal.{WalLib}
use magpie_db.Versions.{VersionStore, index_chain, serialize_version, deserialize_version}

module _ {M : Type 0} (lib : WalLib M) where
  -- The version on a page, and nothing where the loops go on with the next page.
  unfoldable pub version_at : ℕ → Storage → Result (Option (Version M))
  version_at page_num s = elim (read_page page_num s) [
    | panic ↦ panic
    | err e ↦ ok none
    | ok page ↦ elim (deserialize_version lib page) [
      | panic ↦ panic
      | err e ↦ ok none
      | ok v ↦ ok (some v)
    ]
  ]

  -- The loop of `GetAllVersions`.
  unfoldable pub versions_at : List ℕ → Storage → Result (List (Version M))
  versions_at [] s = ok []
  versions_at (page_num ∷ page_nums) s = do
    version ← version_at page_num s
    versions ← versions_at page_nums s
    ok (elim version [ none ↦ versions | some v ↦ v ∷ versions ])

  unfoldable pub get_all_versions : GoString → VersionStore → Result (List (Version M))
  get_all_versions id ms = elim (Dict.get id ms.version_index) [
    | none ↦ ok []
    | some page_nums ↦ versions_at page_nums ms.storage
  ]

  -- The loop of `GetVersion`.
  unfoldable pub find_version : ℕ → List (Version M) → Option (Version M)
  find_version version_num [] = none
  find_version version_num (v ∷ versions) =
      if v.version == version_num then some v else find_version version_num versions

  unfoldable pub get_version : GoString → ℕ → VersionStore → Result (Option (Version M))
  get_version id version_num ms = do
    versions ← get_all_versions id ms
    ok (find_version version_num versions)

  unfoldable pub get_latest_version : GoString → VersionStore → Result (Option (Version M))
  get_latest_version id ms = do
    versions ← get_all_versions id ms
    ok (elim versions [ [] ↦ none | v ∷ rest ↦ some v ])

-- The loop of `sortVersionChain` that reads the version numbers.
unfoldable pub version_pages : List ℕ → Storage → Result (List (ℕ × ℕ))
version_pages [] s = ok []
version_pages (page_num ∷ page_nums) s = elim (read_page page_num s) [
  | panic ↦ panic
  | err e ↦ version_pages page_nums s
  | ok page ↦ do
    vps ← version_pages page_nums s
    ok (if ltb (length page) 72 then vps else (uint_at 64 8 page, page_num) ∷ vps)
]

abbrev pub pages_of : List (ℕ × ℕ) → List ℕ
pages_of [] = []
pages_of ((version, page_num) ∷ vps) = page_num ∷ pages_of vps

-- `sort.Slice` by falling version numbers is a parameter.
module _ (sort : List (ℕ × ℕ) → List (ℕ × ℕ)) where
  unfoldable pub sort_version_chain : GoString → VersionStore → Result VersionStore
  sort_version_chain id ms =
      let page_nums = index_chain id ms.version_index in
      if leb (length page_nums) 1 then ok ms else (do
        vps ← version_pages page_nums ms.storage
        ok (record ms { version_index = Dict.put id (pages_of (sort vps)) ms.version_index }))

  module _ {M : Type 0} (lib : WalLib M) (resize : ℕ → Bytes → Bytes) where
    -- The last steps of `StoreVersion`, with the page written.
    unfoldable pub enter_version : GoString → ℕ → VersionStore → Result (Unit {0}) × VersionStore
    enter_version id page_num ms =
        let page_nums = index_chain id ms.version_index in
        let entered : VersionStore = record ms {
          version_index = Dict.put id (page_num ∷ page_nums) ms.version_index;
        } in
        elim (sort_version_chain id entered) [
          | ok sorted ↦ (ok tt, sorted)
          | err e ↦ (err e, entered)
          | panic ↦ (panic, entered)
        ]

    unfoldable pub store_version :
        Calls → Version M → VersionStore → Result (Unit {0}) × VersionStore
    store_version os v ms =
        let (r, storage) = allocate_page resize os ms.storage in
        let allocated : VersionStore = record ms { storage = storage } in
        elim r [
          | err e ↦ (err e, allocated)
          | panic ↦ (panic, allocated)
          | ok page_num ↦ elim (serialize_version lib v) [
            | err e ↦ (err e, allocated)
            | panic ↦ (panic, allocated)
            | ok page ↦
                let (w, written) = write_page page_num page storage in
                elim w [
                  | err e ↦ (err e, allocated)
                  | panic ↦ (panic, allocated)
                  | ok _ ↦ enter_version v.id page_num (record ms { storage = written })
                ]
          ]
        ]
