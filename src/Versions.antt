-- ===== src/Versions.antt =====
-- Versions of vectors on pages of their own: storage_mvcc.go.
pub mod Roundtrip
pub mod Store
pub mod Sweep
pub mod Kept
pub mod Swept
pub mod Stored
mod Tests
use magpie_db.Common.{
  ℕ, zero, suc, ◌+◌, ◌-◌, ◌*◌, ◌/◌, ◌%◌, ◌^◌, ◌≤◌, ◌<◌, ◌≡◌, refl, sym, ap, ◌∙◌, fun_ext, ◌≢◌, ◌↔◌,
  ◌⊎◌, inl, inr, Bool, true, false, not, ◌&&◌, ◌||◌, Option, none, some, List, [], ◌∷◌, ◌++◌, map,
  arith, ltb, leb, if◌then◌else◌, ltb→lt, lt→ltb, leb→le, le→leb, nat_eq, nat_eq_iff, Bool-cases,
  Option-cases, GoString, string_eq, string_eq_iff, Eq, ◌==◌, eq_refl, eq_false, ℕ-Eq, GoString-Eq,
  length, get_elem?, take, drop, replicate, All, length-append, length-take, length-drop,
  length-replicate, take-append_length, drop-append_length, take_all, take-append-drop, length-map,
  Error, Result, ok, err, panic, ◌>>=◌, ◌>>◌, reject, in_range, >>=-eq-ok, Result-cases, codes,
}
use magpie_db.Dict
use magpie_db.Dict.{Dict}
use magpie_db.Bytes.{Bytes, slice, put_uint, uint}
use magpie_db.Page.{
  page_size, vector_page, new_page_header, serialize_vector, deserialize_vector, seal_page,
  verify_page_checksum, deserialize_header, uint_at,
}
use magpie_db.Packing.{write_parts}
use magpie_db.Storage.{Storage, Calls, allocate_page, write_page, read_page, free_page, page_count}
use magpie_db.Mvcc.{Version}
use magpie_db.Wal.{WalLib}

-- `MVCCStorage`
pub record VersionStore : Type 0 where
  pub storage : Storage
  pub version_index : Dict GoString (List ℕ)

unfoldable pub new_version_store : Storage → VersionStore
new_version_store storage = record { storage = storage; version_index = [] }

-- The chain of an ID; a missing key gives a nil slice.
unfoldable pub index_chain : GoString → Dict GoString (List ℕ) → List ℕ
index_chain id index = elim (Dict.get id index) [ none ↦ [] | some chain ↦ chain ]

-- The numbers of a vector; a nil vector has none.
abbrev pub numbers : Option (List ℕ) → List ℕ
numbers none = []
numbers (some vector) = vector

-- `pageData[offset : offset+n]` of what is left from the offset on, and what is left behind it.
unfoldable pub piece : ℕ → Bytes → Result (Bytes × Bytes)
piece n rest = if leb n (length rest) then ok (take n rest, drop n rest) else err Error.truncated

module _ {M : Type 0} (lib : WalLib M) where
  -- The JSON of the metadata, for a page that is filled up to the offset.
  unfoldable pub fitting_metadata : ℕ → Option M → Result Bytes
  fitting_metadata offset none = ok []
  fitting_metadata offset (some m) = elim (lib.marshal m) [
    | none ↦ err Error.json_error
    | some bytes ↦ do
      reject (ltb (page_size - 20) (offset + 4 + length bytes)) Error.metadata_too_large
      ok bytes
  ]

  unfoldable pub serialize_version : Version M → Result Bytes
  serialize_version v =
      let vector_data = serialize_vector (numbers v.vector) in
      let after_id = 64 + 8 + 8 + 8 + 4 + length v.id in
      let after_vector = after_id + 4 + length vector_data in
      do
        reject (ltb 255 (length v.id)) Error.id_too_long
        reject (ltb (page_size - 100) after_vector) Error.vector_too_large
        meta ← fitting_metadata after_vector v.metadata
        page ←
            write_parts 64
              (put_uint 8 v.version
                ∷ put_uint 8 v.created_by_tx
                ∷ put_uint 8 v.deleted_by_tx
                ∷ put_uint 4 (length v.id)
                ∷ v.id
                ∷ put_uint 4 (length vector_data)
                ∷ vector_data
                ∷ put_uint 4 (length meta)
                ∷ meta
                ∷ [])
              (replicate page_size 0)
        ok (seal_page lib.crc32 (record (new_page_header vector_page) { count = 1 }) page)

  unfoldable pub version_metadata : Bytes → Result (Option M)
  version_metadata [] = ok none
  version_metadata (b ∷ bytes) = elim (lib.unmarshal (b ∷ bytes)) [
    | none ↦ err Error.json_error
    | some metadata ↦ ok metadata
  ]

  -- `deserializeVersionFromPage`, behind its checks of the page.
  unfoldable pub read_version : Bytes → Result (Version M)
  read_version rest = do
    version ← piece 8 rest
    created_by_tx ← piece 8 version.1
    deleted_by_tx ← piece 8 created_by_tx.1
    id_len ← piece 4 deleted_by_tx.1
    id ← piece (uint id_len.0) id_len.1
    vector_len ← piece 4 id.1
    vector ← piece (uint vector_len.0) vector_len.1
    meta_len ← piece 4 vector.1
    meta ← piece (uint meta_len.0) meta_len.1
    metadata ← version_metadata meta.0
    ok (record {
      id = id.0;
      vector = some (deserialize_vector vector.0);
      metadata = metadata;
      version = uint version.0;
      created_by_tx = uint created_by_tx.0;
      deleted_by_tx = uint deleted_by_tx.0;
    })

  unfoldable pub deserialize_version : Bytes → Result (Version M)
  deserialize_version page = do
    reject (not (length page == page_size)) Error.bad_page_size
    reject (not (verify_page_checksum lib.crc32 page)) Error.checksum_mismatch
    read_version (drop 64 page)
