-- ===== src/Packing/Unpack.antt =====
-- A packed page gives back the vectors that it was made of.
use magpie_db.Common.{
  ℕ, suc, ◌+◌, ◌*◌, ◌%◌, ◌^◌, ◌≤◌, ◌<◌, ◌≡◌, refl, ap, ◌∙◌, true, false, none, List, [], ◌∷◌, map,
  arith, ltb, leb, ℕ-Eq, GoString-Eq, length, All, length-append, ok,
}
use magpie_db.Bytes.{Bytes, slice, put_uint, uint}
use magpie_db.Bytes.Endian.{uint-put_uint}
use magpie_db.Page.{
  page_size, VectorEntry, pack_vector_entry, serialize_vector, verify_page_checksum,
}
use magpie_db.Page.Entry
use magpie_db.Page.Entry.{
  NoZero, length-pack_vector_entry, unpack-pack_vector_entry, extract-pack_id_string,
  length-pack_id_string,
}
use magpie_db.Page.Vector.{AreFloats, length-serialize_vector, deserialize-serialize_vector}
use magpie_db.Page.Seal.{verify-seal_page}
use magpie_db.Packing.{
  VectorData, PackedVectorPage, place_vectors, vectors_of, create_packed_page,
  serialize_packed_page, read_page_entries, read_page_vectors, unpack_vectors_from_page,
}
use magpie_db.Packing.Layout.{
  sealed, length-sealed, serialize-sealed, sealed_parts, filled, length-filled,
}
use magpie_db.Packing.Chunks.{flat, slice_parts}

-- A vector whose ID and numbers can be stored.
pub record IsStorable {M : Type 0} (v : VectorData M) : Type 0 where
  pub nonempty : 0 < length v.id
  pub short : length v.id ≤ 64
  pub no_zero : NoZero v.id
  pub floats : AreFloats v.vector

-- The bytes that the vectors take.
abbrev pub data_size : {M : Type 0} → List (VectorData M) → ℕ
data_size [] = 0
data_size (v ∷ vectors) = 4 * length v.vector + data_size vectors

-- What a packed page keeps of a vector.
abbrev pub without_metadata : {M : Type 0} → List (VectorData M) → List (VectorData M)
without_metadata [] = []
without_metadata (v ∷ vectors) = record v { metadata = none } ∷ without_metadata vectors

length-vectors :
    {M : Type 0} (vs : List (VectorData M))
    → length (flat (map serialize_vector (vectors_of vs))) ≡ data_size vs
length-vectors [] = refl
length-vectors (v ∷ vs) = omega (
  arith,
  length-append {0} (serialize_vector v.vector) (flat (map serialize_vector (vectors_of vs))),
  length-vectors vs,
  length-serialize_vector v.vector,
)

length-entries : (es : List VectorEntry) → length (flat (map pack_vector_entry es)) ≡ 80 * length es
length-entries [] = refl
length-entries (e ∷ es) = omega (
  arith,
  length-append {0} (pack_vector_entry e) (flat (map pack_vector_entry es)),
  length-entries es,
  length-pack_vector_entry e,
)

length-place_vectors :
    {M : Type 0} (off : ℕ) (vs : List (VectorData M)) → length (place_vectors off vs) ≡ length vs
unfolding place_vectors
length-place_vectors off [] = refl
length-place_vectors off (v ∷ vs) = ap suc (length-place_vectors (off + length v.vector * 4) vs)

place_vectors-InRange :
    {M : Type 0} (off : ℕ) (vs : List (VectorData M)) → All Entry.InRange (place_vectors off vs)
unfolding place_vectors
place_vectors-InRange off [] = tt
place_vectors-InRange off (v ∷ vs) = (
  record {
    id = length-pack_id_string v.id;
    offset = omega arith;
    length = omega arith;
    flags = omega arith;
    reserved = omega arith;
    metadata = omega arith;
  },
  place_vectors-InRange (off + length v.vector * 4) vs,
)

-- Entries that stand in a page one behind the other are read.
read_page_entries-flat :
    (off : ℕ) (es : List VectorEntry) (page : Bytes)
    → All Entry.InRange es
    → off + 80 * length es ≤ length page
    → slice off (length (flat (map pack_vector_entry es))) page ≡ flat (map pack_vector_entry es)
    → read_page_entries (length es) off page ≡ ok es
unfolding read_page_entries
read_page_entries-flat off [] page r h same = refl
read_page_entries-flat off (e ∷ es) page r h same =
    let eighty = length-pack_vector_entry e in
    let fits : leb (off + 80) (length page) ≡ true = ground (arith, h) in
    let parts =
      slice_parts off (pack_vector_entry e) (flat (map pack_vector_entry es)) page
        (omega (arith, h, length-entries (e ∷ es))) same in
    let here : slice off 80 page ≡ pack_vector_entry e = rw eighty at parts.0 in
    let there = rw eighty at parts.1 in
    rw (
      fits,
      here,
      unpack-pack_vector_entry e r.0,
      read_page_entries-flat (off + 80) es page r.1 (omega (arith, h)) there,
    )

-- And vectors, whose entries say where they stand.
read_page_vectors-flat :
    {M : Type 0} (off : ℕ) (vs : List (VectorData M)) (page : Bytes)
    → All IsStorable vs
    → off + data_size vs ≤ length page
    → length page ≤ page_size
    → slice off (length (flat (map serialize_vector (vectors_of vs)))) page
      ≡ flat (map serialize_vector (vectors_of vs))
    → read_page_vectors (place_vectors off vs) page ≡ ok (without_metadata vs)
unfolding read_page_vectors place_vectors
read_page_vectors-flat off [] page s h k same = refl
read_page_vectors-flat off (v ∷ vs) page s h k same =
    let size : length (serialize_vector v.vector) ≡ length v.vector * 4 =
      omega (arith, length-serialize_vector v.vector) in
    let parts =
      slice_parts off (serialize_vector v.vector) (flat (map serialize_vector (vectors_of vs))) page
        (omega (arith, h, length-vectors (v ∷ vs))) same in
    let here : slice off (length v.vector * 4) page ≡ serialize_vector v.vector =
      rw size at parts.0 in
    let there = rw size at parts.1 in
    let o : off % 2 ^ 32 ≡ off = omega (arith, h, k) in
    let l : length v.vector % 2 ^ 16 ≡ length v.vector = omega (arith, h, k) in
    let fits : ltb (length page) (off + length v.vector * 4) ≡ false = ground (arith, h) in
    rw (
      o,
      l,
      fits,
      here,
      read_page_vectors-flat (off + length v.vector * 4) vs page s.1 (omega (arith, h)) k there,
      extract-pack_id_string v.id s.0.nonempty s.0.short s.0.no_zero,
      deserialize-serialize_vector v.vector s.0.floats,
    )

module _ (crc32 : Bytes → ℕ) (bounded : (bs : Bytes) → crc32 bs < 2 ^ 32) where
  unpack_parts :
      {M : Type 0} (vs : List (VectorData M)) (p : Bytes)
      → let es = place_vectors (66 + length vs * 80) vs in
        All IsStorable vs
        → 66 + 80 * length vs + data_size vs ≤ page_size
        → length p ≡ page_size
        → verify_page_checksum crc32 p ≡ true
        → slice 64 2 p ≡ put_uint 2 (length vs % 2 ^ 16)
        → slice 66 (length (flat (map pack_vector_entry es))) p ≡ flat (map pack_vector_entry es)
        → slice (66 + 80 * length es) (length (flat (map serialize_vector (vectors_of vs)))) p
          ≡ flat (map serialize_vector (vectors_of vs))
        → unpack_vectors_from_page crc32 p ≡ ok (without_metadata vs)
  unfolding unpack_vectors_from_page
  unpack_parts vs p storable fits full fine count entries vectors =
      let off : ℕ = 66 + length vs * 80 in
      let es = place_vectors off vs in
      let n : length es ≡ length vs = length-place_vectors off vs in
      let big : ltb (length p) page_size ≡ false = ground (arith, full) in
      let small : length vs % 2 ^ 16 ≡ length es = omega (arith, fits, n) in
      let number : uint (slice 64 2 p) ≡ length es =
        ap uint count ∙ uint-put_uint 2 (length vs % 2 ^ 16) (omega arith) ∙ small in
      let place : 66 + 80 * length es ≡ off = omega (arith, n) in
      let first =
        read_page_entries-flat 66 es p (place_vectors-InRange off vs) (omega (arith, n, full, fits))
          entries in
      let second =
        read_page_vectors-flat off vs p storable (omega (arith, full, fits)) (omega (arith, full))
          (rw place at vectors) in
      rw (big, fine, number, first, second)

  -- Vectors that fit into one page, with IDs of 1 to 64 bytes that hold no zero, are packed into a
  -- page without a panic, which is unpacked to the same vectors in their order, without metadata.
  pub unpack-serialize_packed_page :
      {M : Type 0} (vs : List (VectorData M))
      → All IsStorable vs
      → 66 + 80 * length vs + data_size vs ≤ page_size
      → (bytes : Bytes) × (page : PackedVectorPage) × (serialize_packed_page crc32
            (create_packed_page vs)
          ≡ ok (bytes, page))
        × (length bytes ≡ page_size)
        × (unpack_vectors_from_page crc32 bytes ≡ ok (without_metadata vs))
  unfolding unpack_vectors_from_page create_packed_page
  unpack-serialize_packed_page {M} vs storable fits =
      let page = create_packed_page vs in
      let off : ℕ = 66 + length vs * 80 in
      let es = place_vectors off vs in
      let n : length es ≡ length vs = length-place_vectors off vs in
      let size = length-entries es in
      let room : 66 + 80 * length es + length (flat (map serialize_vector (vectors_of vs)))
          ≤ page_size =
        omega (arith, n, fits, length-vectors vs) in
      let (count, entries, vectors) = sealed_parts crc32 page size room in
      (
        sealed crc32 page size room,
        _,
        serialize-sealed crc32 page size room,
        length-sealed crc32 page size room,
        unpack_parts vs (sealed crc32 page size room) storable fits
            (length-sealed crc32 page size room)
            (unfold sealed in
              verify-seal_page crc32 page.header (filled crc32 page size room)
                (length-filled crc32 page size room) bounded)
            count entries vectors,
      )
