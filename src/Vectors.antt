-- ===== src/Vectors.antt =====
-- Vectors and their metadata in the page file: `storeVector`, `loadVector` and their helpers in
-- magpie.go, and `validateOptions`. JSON and crc32 are those of the log's `WalLib`; `is_empty` says
-- whether a map has no entry.
pub mod Metadata
pub mod Single
mod Tests
use magpie_db.Common.{
  ℕ, zero, suc, ◌+◌, ◌-◌, ◌*◌, ◌/◌, ◌%◌, ◌^◌, ◌≤◌, ◌<◌, ◌≡◌, refl, sym, ap, ◌∙◌, fun_ext, ◌≢◌, ◌↔◌,
  ◌⊎◌, inl, inr, Bool, true, false, not, ◌&&◌, ◌||◌, Option, none, some, List, [], ◌∷◌, ◌++◌, map,
  arith, ltb, leb, if◌then◌else◌, ltb→lt, lt→ltb, leb→le, le→leb, nat_eq, nat_eq_iff, Bool-cases,
  Option-cases, GoString, string_eq, string_eq_iff, Eq, ◌==◌, eq_refl, eq_false, ℕ-Eq, GoString-Eq,
  length, get_elem?, take, drop, replicate, All, length-append, length-take, length-drop,
  length-replicate, take-append_length, drop-append_length, take_all, take-append-drop, length-map,
  Error, Result, ok, err, panic, ◌>>=◌, ◌>>◌, reject, in_range, >>=-eq-ok, Result-cases, codes,
}
use magpie_db.Dict
use magpie_db.Dict.{Dict}
use magpie_db.Bytes.{Bytes, copy_at, slice, put_uint}
use magpie_db.Page.{
  page_size, vector_page, metadata_page, PageHeader, new_page_header, deserialize_header,
  VectorEntry, pack_vector_entry, seal_page, verify_page_checksum, serialize_vector,
  deserialize_vector, pack_id_string, extract_id_string, uint_at,
}
use magpie_db.Storage.{Storage, Calls, read_page, write_page, allocate_page, read_vector_page}
use magpie_db.Wal.{WalLib}

-- What these functions use of `Nest`.
pub record VectorNest : Type 0 where
  pub storage : Storage
  pub vector_pages : Dict GoString ℕ

-- `Options`, as far as they are checked. A negative number is told apart by its sign.
pub record Options : Type 0 where
  pub dimensions_negative : Bool
  pub max_size_positive : Bool
  pub max_size : ℕ
  pub m : ℕ
  pub ef_construction : ℕ
  pub distance : GoString

-- A page as it is copied before it is changed, and zeros for one that cannot be read.
unfoldable pub page_to_change : Result Bytes → Result Bytes
page_to_change panic = panic
page_to_change (err e) = ok (replicate page_size 0)
page_to_change (ok page) = ok (copy_at 0 page (replicate page_size 0))

-- The header of the page, and a new one if it is not a vector page's.
unfoldable pub header_to_change : Bytes → PageHeader
header_to_change page = elim (deserialize_header page) [
  | ok header ↦ if header.kind == vector_page then header else new_page_header vector_page
  | err e ↦ new_page_header vector_page
  | panic ↦ new_page_header vector_page
]

abbrev pub entry_offset_of : PageHeader → ℕ
entry_offset_of header = 64 + header.count * 80

-- The page with one more entry and its data.
unfoldable pub with_vector : (Bytes → ℕ) → PageHeader → VectorEntry → Bytes → Bytes → Bytes
with_vector crc32 header entry bytes page =
    let entry_offset = entry_offset_of header in
    let data_offset = entry_offset + 80 in
    let placed : VectorEntry = record entry { offset = data_offset % 2 ^ 32 } in
    let filled = copy_at data_offset bytes (copy_at entry_offset (pack_vector_entry placed) page) in
    seal_page crc32 (record header { count = (header.count + 1) % 2 ^ 16 }) filled

unfoldable pub write_vector_to_page :
    (Bytes → ℕ) → ℕ → VectorEntry → Bytes → Storage → Result (Unit {0}) × Storage
write_vector_to_page crc32 page_num entry bytes s = elim (page_to_change (read_page page_num s)) [
  | err e ↦ (err e, s)
  | panic ↦ (panic, s)
  | ok page ↦
      let header = header_to_change page in
      if ltb page_size (entry_offset_of header + 80 + length bytes)
      then (err Error.vector_too_large, s)
      else write_page page_num (with_vector crc32 header entry bytes page) s
]

unfoldable pub read_vector_data : ℕ → ℕ → ℕ → Storage → Result Bytes
read_vector_data page_num offset size s = do
  page ← read_page page_num s
  reject (ltb page_size (offset + size)) Error.out_of_bounds
  ok (slice offset size page)

-- The bytes of a metadata page.
unfoldable pub metadata_page_bytes : (Bytes → ℕ) → Bytes → Bytes
metadata_page_bytes crc32 json =
    seal_page crc32 (record (new_page_header metadata_page) { count = 1 })
      (copy_at 68 json (copy_at 64 (put_uint 4 (length json % 2 ^ 32)) (replicate page_size 0)))

unfoldable pub store_metadata :
    (ℕ → Bytes → Bytes) → (Bytes → ℕ) → Calls → Bytes → Storage → Result ℕ × Storage
store_metadata resize crc32 os json s =
    let (r, s1) = allocate_page resize os s in
    elim r [
      | err e ↦ (err e, s1)
      | panic ↦ (panic, s1)
      | ok page_num ↦
          let (w, s2) = write_page page_num (metadata_page_bytes crc32 json) s1 in
          if ltb page_size (68 + length json)
          then (err Error.metadata_too_large, s1)
          else (w >>= λ _. ok page_num, s2)
    ]

-- The entry of an ID, the first one on the page.
unfoldable pub find_entry : GoString → List VectorEntry → Option VectorEntry
find_entry id [] = none
find_entry id (entry ∷ entries) =
    let rest = find_entry id entries in
    if extract_id_string entry.id == id then some entry else rest

module _ {M : Type 0} (lib : WalLib M) where
  unfoldable pub load_metadata_from_page : ℕ → Storage → Result (Option M)
  load_metadata_from_page page_num s = do
    page ← read_page page_num s
    reject (not (verify_page_checksum lib.crc32 page)) Error.checksum_mismatch
    header ← deserialize_header page
    reject (not (header.kind == metadata_page)) Error.wrong_page_type
    reject (ltb page_size (68 + uint_at 64 4 page)) Error.out_of_bounds
    elim (lib.unmarshal (slice 68 (uint_at 64 4 page) page)) [
      | none ↦ err Error.json_error
      | some metadata ↦ ok metadata
    ]

  -- The metadata of an entry; an error in it is ignored.
  unfoldable pub entry_metadata : ℕ → Storage → Result (Option M)
  entry_metadata page_num s =
      if page_num == 0 then ok none else elim (load_metadata_from_page page_num s) [
        | err e ↦ ok none
        | panic ↦ panic
        | ok metadata ↦ ok metadata
      ]

  -- `loadVector` from the entries of the page on.
  unfoldable pub load_entry : GoString → ℕ → Storage → List VectorEntry → Result (List ℕ × Option M)
  load_entry id page_num s entries = elim (find_entry id entries) [
    | none ↦ err Error.vector_not_found
    | some entry ↦ do
      bytes ← read_vector_data page_num entry.offset (entry.length * 4) s
      metadata ← entry_metadata entry.metadata s
      ok (deserialize_vector bytes, metadata)
  ]

  unfoldable pub load_vector : GoString → VectorNest → Result (List ℕ × Option M)
  load_vector id n = elim (Dict.get id n.vector_pages) [
    | none ↦ err Error.vector_not_found
    | some page_num ↦ do
      entries ← read_vector_page lib.crc32 page_num n.storage
      load_entry id page_num n.storage entries
  ]

  -- Step 2 of `storeVector`: the page of the metadata, and 0 without any.
  unfoldable pub store_optional :
      (M → Bool) → (ℕ → Bytes → Bytes) → Calls → Option M → Storage → Result ℕ × Storage
  store_optional is_empty resize os none s = (ok 0, s)
  store_optional is_empty resize os (some metadata) s =
      let stored : Result ℕ × Storage = elim (lib.marshal metadata) [
        | none ↦ (err Error.json_error, s)
        | some json ↦ store_metadata resize lib.crc32 os json s
      ] in
      if is_empty metadata then (ok 0, s) else stored

  abbrev pub new_entry : GoString → List ℕ → ℕ → VectorEntry
  new_entry id vector meta_page = record {
    id = pack_id_string id;
    offset = 0;
    length = length vector % 2 ^ 16;
    flags = 0;
    reserved = 0;
    metadata = meta_page;
  }

  -- Steps 4 to 7; `findOrAllocateVectorPage` always allocates.
  unfoldable pub store_data :
      (ℕ → Bytes → Bytes)
      → Calls
      → GoString
      → List ℕ
      → ℕ
      → VectorNest
      → Result (Unit {0}) × VectorNest
  store_data resize os id vector meta_page n =
      let (r, s1) = allocate_page resize os n.storage in
      elim r [
        | err e ↦ (err e, record n { storage = s1 })
        | panic ↦ (panic, record n { storage = s1 })
        | ok page_num ↦
            let (w, s2) =
              write_vector_to_page lib.crc32 page_num (new_entry id vector meta_page)
                (serialize_vector vector) s1 in
            elim w [
              | err e ↦ (err e, record n { storage = s2 })
              | panic ↦ (panic, record n { storage = s2 })
              | ok _ ↦ (
                ok tt,
                record { storage = s2; vector_pages = Dict.put id page_num n.vector_pages },
              )
            ]
      ]

  unfoldable pub store_vector :
      (M → Bool)
      → (ℕ → Bytes → Bytes)
      → Calls
      → Calls
      → GoString
      → List ℕ
      → Option M
      → VectorNest
      → Result (Unit {0}) × VectorNest
  store_vector is_empty resize os os' id vector metadata n =
      let (r, s1) = store_optional is_empty resize os metadata n.storage in
      elim r [
        | err e ↦ (err e, record n { storage = s1 })
        | panic ↦ (panic, record n { storage = s1 })
        | ok meta_page ↦ store_data resize os' id vector meta_page (record n { storage = s1 })
      ]

-- The default size.
unfoldable pub with_size : Options → Options
with_size opts =
    if opts.max_size_positive
    then opts
    else record opts { max_size_positive = true; max_size = 10000000000 }

-- `validateOptions`, with the default size that it sets.
unfoldable pub validate_options : Options → Result Options
validate_options opts = do
  reject opts.dimensions_negative Error.invalid_dimensions
  reject (ltb opts.m 4 || ltb 64 opts.m) Error.invalid_options
  reject (ltb opts.ef_construction 100 || ltb 1000 opts.ef_construction) Error.invalid_options
  reject
      (not (opts.distance == codes "cosine")
        && not (opts.distance == codes "euclidean")
        && not (opts.distance == codes "dot"))
      Error.invalid_metric
  ok (with_size opts)
