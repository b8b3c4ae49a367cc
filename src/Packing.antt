-- ===== src/Packing.antt =====
-- Pages that hold several vectors: page_packing.go.
pub mod Chunks
pub mod Layout
pub mod Unpack
pub mod Pages
mod Tests
use magpie_db.Common.{
  ℕ, zero, suc, ◌+◌, ◌-◌, ◌*◌, ◌/◌, ◌%◌, ◌^◌, ◌≤◌, ◌<◌, ◌≡◌, refl, sym, ap, ◌∙◌, fun_ext, ◌≢◌, ◌↔◌,
  ◌⊎◌, inl, inr, Bool, true, false, not, ◌&&◌, ◌||◌, Option, none, some, List, [], ◌∷◌, ◌++◌, map,
  arith, ltb, leb, if◌then◌else◌, ltb→lt, lt→ltb, leb→le, le→leb, nat_eq, nat_eq_iff, Bool-cases,
  Option-cases, GoString, string_eq, string_eq_iff, Eq, ◌==◌, eq_refl, eq_false, ℕ-Eq, GoString-Eq,
  length, get_elem?, take, drop, replicate, All, length-append, length-take, length-drop,
  length-replicate, take-append_length, drop-append_length, take_all, take-append-drop, length-map,
  Error, Result, ok, err, panic, ◌>>=◌, ◌>>◌, reject, in_range, >>=-eq-ok, Result-cases, codes,
}
use magpie_db.Bytes.{Bytes, copy_at, slice, put_uint, uint}
use magpie_db.Page.{
  page_size, vector_page, PageHeader, new_page_header, VectorEntry, pack_vector_entry,
  unpack_vector_entry, serialize_header, serialize_vector, deserialize_vector, extract_id_string,
  pack_id_string, calculate_page_checksum, verify_page_checksum, uint_at,
}

-- `VectorData`; a nil vector and an empty one are the same.
pub record VectorData (M : Type 0) : Type 0 where
  pub id : GoString
  pub vector : List ℕ
  pub metadata : Option M

pub record PackedVectorPage : Type 0 where
  pub header : PageHeader
  pub vector_count : ℕ
  pub entries : List VectorEntry
  pub vector_data : List (List ℕ)

unfoldable pub calculate_vectors_per_page : ℕ → ℕ
calculate_vectors_per_page dimensions =
    let header_size : ℕ = 64 in
    let count_size : ℕ = 2 in
    let entry_size : ℕ = 80 in
    let vector_size = dimensions * 4 in
    let available_space = page_size - header_size - count_size in
    let space_per_vector = entry_size + vector_size in
    let vectors_per_page = available_space / space_per_vector in
    if ltb vectors_per_page 1 then 1 else vectors_per_page

-- The loop of `createPackedPage` that places the vectors one behind the other.
unfoldable pub place_vectors : {M : Type 0} → ℕ → List (VectorData M) → List VectorEntry
place_vectors offset [] = []
place_vectors offset (v ∷ vectors) =
    record {
      id = pack_id_string v.id;
      offset = offset % 2 ^ 32;
      length = length v.vector % 2 ^ 16;
      flags = 0;
      reserved = 0;
      metadata = 0;
    }
    ∷ place_vectors (offset + length v.vector * 4) vectors

abbrev pub vectors_of : {M : Type 0} → List (VectorData M) → List (List ℕ)
vectors_of [] = []
vectors_of (v ∷ vectors) = v.vector ∷ vectors_of vectors

unfoldable pub create_packed_page : {M : Type 0} → List (VectorData M) → PackedVectorPage
create_packed_page vectors = record {
  header = record (new_page_header vector_page) { count = length vectors % 2 ^ 16 };
  vector_count = length vectors % 2 ^ 16;
  entries = place_vectors (64 + 2 + length vectors * 80) vectors;
  vector_data = vectors_of vectors;
}

-- The loop of `PackVectorsIntoPages`, for `n` more pages. The slice ends inside the list, or at its end.
unfoldable pub pack_pages : {M : Type 0} → ℕ → ℕ → ℕ → List (VectorData M) → List PackedVectorPage
pack_pages zero i vectors_per_page vectors = []
pack_pages (suc n) i vectors_per_page vectors =
    let first = i * vectors_per_page in
    let last = first + vectors_per_page in
    let last' = if ltb (length vectors) last then length vectors else last in
    create_packed_page (take (last' - first) (drop first vectors))
    ∷ pack_pages n (i + 1) vectors_per_page vectors

unfoldable pub pack_vectors_into_pages : {M : Type 0} → List (VectorData M) → List PackedVectorPage
pack_vectors_into_pages [] = []
pack_vectors_into_pages (v ∷ vectors) =
    let vectors_per_page = calculate_vectors_per_page (length v.vector) in
    let num_pages = (length (v ∷ vectors) + vectors_per_page - 1) / vectors_per_page in
    pack_pages num_pages 0 vectors_per_page (v ∷ vectors)

-- `copy(page[offset:], src)` for each of the given parts, one behind the other: both loops of
-- `SerializePackedPage`. The slice panics when it starts behind the page.
unfoldable pub write_parts : ℕ → List Bytes → Bytes → Result Bytes
write_parts offset [] page = ok page
write_parts offset (part ∷ parts) page =
    let rest = write_parts (offset + length part) parts (copy_at offset part page) in
    if leb offset (length page) then rest else panic

-- The first loop of `UnpackVectorsFromPage`.
unfoldable pub read_page_entries : ℕ → ℕ → Bytes → Result (List VectorEntry)
read_page_entries zero offset page = ok []
read_page_entries (suc n) offset page = do
  in_range (leb (offset + 80) (length page))
  entry ← unpack_vector_entry (slice offset 80 page)
  entries ← read_page_entries n (offset + 80) page
  ok (entry ∷ entries)

-- The second loop.
unfoldable pub read_page_vectors :
    {M : Type 0} → List VectorEntry → Bytes → Result (List (VectorData M))
read_page_vectors [] page = ok []
read_page_vectors (entry ∷ entries) page = do
  reject (ltb (length page) (entry.offset + entry.length * 4)) Error.out_of_bounds
  vectors ← read_page_vectors entries page
  ok (
      record {
        id = extract_id_string entry.id;
        vector = deserialize_vector (slice entry.offset (entry.length * 4) page);
        metadata = none;
      }
      ∷ vectors)

module _ (crc32 : Bytes → ℕ) where
  -- The last steps: the checksum is set in the page as well.
  unfoldable pub with_checksum : Bytes → PackedVectorPage → Bytes × PackedVectorPage
  with_checksum bytes page =
      let header : PageHeader = record page.header {
        checksum = calculate_page_checksum crc32 bytes;
      } in
      (copy_at 0 (serialize_header header) bytes, record page { header = header })

  unfoldable pub serialize_packed_page : PackedVectorPage → Result (Bytes × PackedVectorPage)
  serialize_packed_page page =
      let b0 = copy_at 0 (serialize_header page.header) (replicate page_size 0) in
      let b1 = copy_at 64 (put_uint 2 page.vector_count) b0 in
      do
        b2 ← write_parts 66 (map pack_vector_entry page.entries) b1
        b3 ← write_parts (66 + 80 * length page.entries) (map serialize_vector page.vector_data) b2
        ok (with_checksum b3 page)

  unfoldable pub unpack_vectors_from_page : {M : Type 0} → Bytes → Result (List (VectorData M))
  unpack_vectors_from_page page = do
    reject (ltb (length page) page_size) Error.bad_page_size
    reject (not (verify_page_checksum crc32 page)) Error.checksum_mismatch
    entries ← read_page_entries (uint_at 64 2 page) 66 page
    read_page_vectors entries page

-- The loop of `validatePackedPage` over the vectors.
unfoldable pub same_dimension : ℕ → List (List ℕ) → Result (Unit {0})
same_dimension expected [] = ok tt
same_dimension expected (v ∷ vectors) = do
  reject (not (length v == expected)) Error.dimension_mismatch
  same_dimension expected vectors

unfoldable pub validate_packed_page : PackedVectorPage → Result (Unit {0})
validate_packed_page page = do
  reject (page.vector_count == 0) Error.no_vectors
  reject (not (length page.entries == page.vector_count)) Error.entry_count
  reject (not (length page.vector_data == page.vector_count)) Error.data_count
  elim page.vector_data [ [] ↦ ok tt | v ∷ vectors ↦ same_dimension (length v) (v ∷ vectors) ]
