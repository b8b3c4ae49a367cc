-- ===== src/Versions/Stored.antt =====
-- A version that `StoreVersion` stores, as the other operations see it.
use magpie_db.Common.{
  ℕ, ◌+◌, ◌^◌, ◌<◌, ◌≡◌, refl, ap, ◌∙◌, ◌≢◌, true, false, Option, none, some, List, [], ◌∷◌,
  GoString, ◌==◌, eq_refl, ℕ-Eq, GoString-Eq, Result, ok,
}
use magpie_db.Dict
use magpie_db.Dict.{Dict}
use magpie_db.Dict.Laws.{get-put}
use magpie_db.Bytes.{Bytes}
use magpie_db.Page.{page_size}
use magpie_db.Storage.{Storage, Calls, allocate_page, write_page, read_page, page_count}
use magpie_db.Storage.Pages.{IsValid, write-read_page}
use magpie_db.Storage.Allocation.{IsResize, allocate_page-Allocated}
use magpie_db.Mvcc.{Version}
use magpie_db.Wal.{WalLib}
use magpie_db.Versions.{VersionStore, index_chain, numbers, serialize_version, deserialize_version}
use magpie_db.Versions.Roundtrip.{Fits, Kept, deserialize-serialize_version}
use magpie_db.Versions.Store.{
  version_at, versions_at, get_all_versions, sort_version_chain, enter_version, store_version,
}

module _ {M : Type 0} (lib : WalLib M) (sort : List (ℕ × ℕ) → List (ℕ × ℕ))
    (resize : ℕ → Bytes → Bytes) where
  -- The page is the only one of its chain.
  abbrev with_first : GoString → ℕ → VersionStore → VersionStore
  with_first id p ms = record ms { version_index = Dict.put id (p ∷ []) ms.version_index }

  chain_there :
      (id : GoString) (p : ℕ) (ms : VersionStore)
      → Dict.get id (with_first id p ms).version_index ≡ some (p ∷ [])
  chain_there id p ms =
      let here : (id == id) ≡ true = eq_refl id in get-put id id (p ∷ []) ms.version_index ∙ rw here

  no_chain :
      (id : GoString) (ms : VersionStore)
      → Dict.get id ms.version_index ≡ none
      → index_chain id ms.version_index ≡ []
  unfolding index_chain
  no_chain id ms absent = rw (index_chain, absent)

  one_chain :
      (id : GoString) (p : ℕ) (ms : VersionStore)
      → index_chain id (with_first id p ms).version_index ≡ p ∷ []
  unfolding index_chain
  one_chain id p ms = rw (index_chain, chain_there id p ms)

  sort_one :
      (id : GoString) (ms : VersionStore) (p : ℕ)
      → index_chain id ms.version_index ≡ p ∷ []
      → sort_version_chain sort id ms ≡ ok ms
  unfolding sort_version_chain
  sort_one id ms p h = rw (sort_version_chain, h)

  enter_first :
      (id : GoString) (p : ℕ) (ms : VersionStore)
      → Dict.get id ms.version_index ≡ none
      → enter_version sort lib resize id p ms ≡ (ok tt, with_first id p ms)
  unfolding enter_version
  enter_first id p ms absent =
      rw (
        enter_version,
        no_chain id ms absent,
        sort_one id (with_first id p ms) p (one_chain id p ms),
      )

  store_steps :
      (os : Calls) (v : Version M) (ms : VersionStore) (p : ℕ) (s1 : Storage) (page : Bytes)
      → allocate_page resize os ms.storage ≡ (ok p, s1)
      → serialize_version lib v ≡ ok page
      → (write_page p page s1).0 ≡ ok tt
      → Dict.get v.id ms.version_index ≡ none
      → store_version sort lib resize os v ms
        ≡ (ok tt, with_first v.id p (record ms { storage = (write_page p page s1).1 }))
  unfolding store_version
  store_steps os v ms p s1 page a s w absent =
      let r : (allocate_page resize os ms.storage).0 ≡ ok p =
        ap (λ (x : Result ℕ × Storage). x.0) a in
      let st : (allocate_page resize os ms.storage).1 ≡ s1 =
        ap (λ (x : Result ℕ × Storage). x.1) a in
      rw (store_version, r, s, st, w, st)
        (enter_first v.id p (record ms { storage = (write_page p page s1).1 }) absent)

  read_first :
      (id : GoString) (p : ℕ) (ms : VersionStore) (page : Bytes) (v : Version M)
      → read_page p ms.storage ≡ ok page
      → deserialize_version lib page ≡ ok v
      → get_all_versions lib id (with_first id p ms) ≡ ok (v ∷ [])
  unfolding get_all_versions versions_at version_at
  read_first id p ms page v h k = rw (get_all_versions, chain_there id p ms, version_at, h, k)

  -- The first version of an ID that `StoreVersion` stores, when it gets a page and the version fits: it
  -- succeeds, the ID then has this version alone, as it is read back from its page, the chains of other
  -- IDs are as before, and so is every page but the new one. The storage is valid before and after,
  -- and its size stays below 2^63.
  pub get_all_versions-store_version :
      (os : Calls) (v : Version M) (m' : Option M) (meta : Bytes) (ms : VersionStore) (p : ℕ)
      (s1 : Storage)
      → ((bytes : Bytes) → lib.crc32 bytes < 2 ^ 32)
      → IsResize resize
      → IsValid ms.storage
      → ms.storage.size + page_size < 2 ^ 63
      → allocate_page resize os ms.storage ≡ (ok p, s1)
      → Fits v meta
      → Kept lib v.metadata m' meta
      → Dict.get v.id ms.version_index ≡ none
      → let (r, ms') = store_version sort lib resize os v ms in
        (r ≡ ok tt)
        × (get_all_versions lib v.id ms'
            ≡ ok (record v { vector = some (numbers v.vector); metadata = m' } ∷ []))
        × ((id : GoString)
            → (v.id == id) ≡ false
            → Dict.get id ms'.version_index ≡ Dict.get id ms.version_index)
        × ((q : ℕ)
            → q < page_count ms.storage
            → q ≢ p
            → read_page q ms'.storage ≡ read_page q ms.storage)
        × IsValid ms'.storage
  get_all_versions-store_version os v m' meta ms p s1 bounded laws valid room a f k absent =
      let (page, writes, full, reads) = deserialize-serialize_version lib v m' meta bounded f k in
      let allocated = allocate_page-Allocated resize laws os p ms.storage s1 valid room a in
      let (fine, valid', back, others) =
        write-read_page p page s1 allocated.valid allocated.inside full in
      let ms1 : VersionStore = record ms { storage = (write_page p page s1).1 } in
      rw (store_steps os v ms p s1 page a writes fine absent) (
        refl,
        read_first v.id p ms1 page _ back reads,
        λ id other. get-put v.id id (p ∷ []) ms.version_index ∙ rw other,
        λ q l ne. others q (allocated.kept q l).0 ne ∙ (allocated.kept q l).1,
        valid',
      )
