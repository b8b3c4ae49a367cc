-- ===== src/Versions/Roundtrip.antt =====
-- The page of a version, as it is read back.
use magpie_db.Common.{
  ℕ, ◌+◌, ◌-◌, ◌*◌, ◌^◌, ◌≤◌, ◌<◌, ◌≡◌, refl, sym, ap, ◌∙◌, false, not, Option, none, some, List,
  [], ◌∷◌, ◌++◌, arith, ltb, ◌==◌, ℕ-Eq, GoString-Eq, length, take, drop, replicate, length-append,
  length-replicate, take-append_length, drop-append_length, take-append-drop, ok,
}
use mathlib.Core.List.{append_assoc}
use magpie_db.Bytes.{Bytes, copy_at, slice, put_uint}
use magpie_db.Bytes.Endian.{length-put_uint, uint-put_uint}
use magpie_db.Bytes.Copy.{length-copy_at, slice-copy_at}
use magpie_db.Page.{
  page_size, vector_page, PageHeader, new_page_header, serialize_vector, seal_page,
}
use magpie_db.Page.Vector.{AreFloats, length-serialize_vector, deserialize-serialize_vector}
use magpie_db.Page.Seal.{length-seal_page, slice-seal_page, verify-seal_page}
use magpie_db.Packing.{write_parts}
use magpie_db.Packing.Chunks.{flat, write_parts-flat}
use magpie_db.Mvcc.{Version}
use magpie_db.Wal.{WalLib}
use magpie_db.Versions.{
  numbers, piece, fitting_metadata, serialize_version, version_metadata, read_version,
  deserialize_version,
}

piece-append : (n : ℕ) (xs ys : Bytes) → length xs ≡ n → piece n (xs ++ ys) ≡ ok (xs, ys)
unfolding piece
piece-append n xs ys h =
    rw (take-append_length xs ys n h, drop-append_length xs ys n h)
      (ground (arith, length-append {0} xs ys, h))

-- What JSON makes of the metadata `m` when it has been written and read: `m'`. A nil map stays nil.
abbrev pub Kept : {M : Type 0} → WalLib M → Option M → Option M → Bytes → Type 0
Kept lib none m' bytes = (m' ≡ none) × (bytes ≡ [])
Kept lib (some m) m' bytes =
    (0 < length bytes) × (lib.marshal m ≡ some bytes) × (lib.unmarshal bytes ≡ some m')

-- The fields have the ranges of their Go types, and the version fits into a page.
pub record Fits {M : Type 0} (v : Version M) (meta : Bytes) : Type 0 where
  pub version : v.version < 2 ^ 64
  pub created : v.created_by_tx < 2 ^ 64
  pub deleted : v.deleted_by_tx < 2 ^ 64
  pub floats : AreFloats (numbers v.vector)
  pub id : length v.id ≤ 255
  pub vector : 96 + length v.id + 4 * length (numbers v.vector) ≤ page_size - 100
  pub metadata : 100 + length v.id + 4 * length (numbers v.vector) + length meta ≤ page_size - 20

-- The parts of a version, before the rest of the page.
abbrev parts : {M : Type 0} → Version M → Bytes → Bytes → Bytes
parts v meta rest =
    put_uint 8 v.version
    ++ (put_uint 8 v.created_by_tx
        ++ (put_uint 8 v.deleted_by_tx
            ++ (put_uint 4 (length v.id)
                ++ (v.id
                    ++ (put_uint 4 (length (serialize_vector (numbers v.vector)))
                        ++ (serialize_vector (numbers v.vector)
                            ++ (put_uint 4 (length meta) ++ (meta ++ rest))))))))

abbrev part_list : {M : Type 0} → Version M → Bytes → List Bytes
part_list v meta =
    put_uint 8 v.version
    ∷ put_uint 8 v.created_by_tx
    ∷ put_uint 8 v.deleted_by_tx
    ∷ put_uint 4 (length v.id)
    ∷ v.id
    ∷ put_uint 4 (length (serialize_vector (numbers v.vector)))
    ∷ serialize_vector (numbers v.vector)
    ∷ put_uint 4 (length meta)
    ∷ meta
    ∷ []

flat-parts :
    {M : Type 0} (v : Version M) (meta rest : Bytes)
    → flat (part_list v meta) ++ rest ≡ parts v meta rest
flat-parts v meta rest = simp append_assoc

length-parts :
    {M : Type 0} (v : Version M) (meta : Bytes)
    → length (flat (part_list v meta))
      ≡ 36 + length v.id + 4 * length (numbers v.vector) + length meta
length-parts v meta = omega (arith, length-append {0}, length-put_uint, length-serialize_vector)

module _ {M : Type 0} (lib : WalLib M) where
  version_metadata-Kept :
      (m m' : Option M) (bytes : Bytes) → Kept lib m m' bytes → version_metadata lib bytes ≡ ok m'
  unfolding version_metadata
  version_metadata-Kept none m' [] s = ap ok (sym s.0)
  version_metadata-Kept none m' (b ∷ bytes) s = absurd (ground (arith, s.1))
  version_metadata-Kept (some m) m' [] s = absurd (omega (arith, s.0))
  version_metadata-Kept (some m) m' (b ∷ bytes) s = rw (s.2, version_metadata)

  read_version-parts :
      (v : Version M) (m' : Option M) (meta rest : Bytes)
      → Fits v meta
      → Kept lib v.metadata m' meta
      → read_version lib (parts v meta rest)
        ≡ ok (record v { vector = some (numbers v.vector); metadata = m' })
  unfolding read_version
  read_version-parts v m' meta rest f s =
      let n = length-serialize_vector (numbers v.vector) in
      let size = length (serialize_vector (numbers v.vector)) in
      rw (
        piece-append 8 (put_uint 8 v.version) _ (length-put_uint 8 v.version),
        piece-append 8 (put_uint 8 v.created_by_tx) _ (length-put_uint 8 v.created_by_tx),
        piece-append 8 (put_uint 8 v.deleted_by_tx) _ (length-put_uint 8 v.deleted_by_tx),
        piece-append 4 (put_uint 4 (length v.id)) _ (length-put_uint 4 (length v.id)),
        uint-put_uint 4 (length v.id) (omega (arith, f.id)),
        piece-append (length v.id) v.id _ refl,
        piece-append 4 (put_uint 4 size) _ (length-put_uint 4 size),
        uint-put_uint 4 size (omega (arith, f.vector, n)),
        piece-append size (serialize_vector (numbers v.vector)) _ refl,
        piece-append 4 (put_uint 4 (length meta)) _ (length-put_uint 4 (length meta)),
        uint-put_uint 4 (length meta) (omega (arith, f.metadata)),
        piece-append (length meta) meta _ refl,
        version_metadata-Kept v.metadata m' meta s,
        uint-put_uint 8 v.version f.version,
        uint-put_uint 8 v.created_by_tx f.created,
        uint-put_uint 8 v.deleted_by_tx f.deleted,
        deserialize-serialize_vector (numbers v.vector) f.floats,
      )

  fitting_metadata-Kept :
      (off : ℕ) (m m' : Option M) (bytes : Bytes)
      → Kept lib m m' bytes
      → off + 4 + length bytes ≤ page_size - 20
      → fitting_metadata lib off m ≡ ok bytes
  unfolding fitting_metadata
  fitting_metadata-Kept off none m' bytes s h = ap ok (sym s.1)
  fitting_metadata-Kept off (some m) m' bytes s h =
      let room : ltb (page_size - 20) (off + 4 + length bytes) ≡ false = ground (arith, h) in
      rw (s.1, fitting_metadata, room)

  -- The page of a version before it is sealed.
  body : Version M → Bytes → Bytes
  body v meta = copy_at 64 (flat (part_list v meta)) (replicate page_size 0)

  length-body : (v : Version M) (meta : Bytes) → length (body v meta) ≡ page_size
  unfolding body
  length-body v meta =
      length-copy_at 64 (flat (part_list v meta)) (replicate page_size 0)
      ∙ length-replicate {A = ℕ} page_size 0

  slice-body :
      (v : Version M) (meta : Bytes)
      → Fits v meta
      → slice 64 (length (flat (part_list v meta))) (body v meta) ≡ flat (part_list v meta)
  unfolding body
  slice-body v meta f =
      slice-copy_at 64 (length (flat (part_list v meta))) (flat (part_list v meta))
        (replicate page_size 0) refl
        (omega (arith, length-parts v meta, f.metadata, length-replicate {A = ℕ} page_size 0))

  abbrev header : PageHeader
  header = record (new_page_header vector_page) { count = 1 }

  write-body :
      (v : Version M) (meta : Bytes)
      → Fits v meta
      → write_parts 64 (part_list v meta) (replicate page_size 0) ≡ ok (body v meta)
  unfolding body
  write-body v meta f =
      write_parts-flat 64 (part_list v meta) (replicate page_size 0)
        (omega (arith, length-parts v meta, f.metadata, length-replicate {A = ℕ} page_size 0))

  serialize_version-sealed :
      (v : Version M) (m' : Option M) (meta : Bytes)
      → Fits v meta
      → Kept lib v.metadata m' meta
      → serialize_version lib v ≡ ok (seal_page lib.crc32 header (body v meta))
  unfolding serialize_version
  serialize_version-sealed v m' meta f s =
      let n = length-serialize_vector (numbers v.vector) in
      let short : ltb 255 (length v.id) ≡ false = ground (arith, f.id) in
      let room : ltb (page_size - 100)
            (92 + length v.id + 4 + length (serialize_vector (numbers v.vector)))
          ≡ false =
        ground (arith, f.vector, n) in
      let fits =
        fitting_metadata-Kept (92 + length v.id + 4 + length (serialize_vector (numbers v.vector)))
          v.metadata m' meta s (omega (arith, f.metadata, n)) in
      rw (short, room, fits, write-body v meta f)

  drop-sealed :
      (v : Version M) (meta : Bytes)
      → Fits v meta
      → (rest : Bytes) × (drop 64 (seal_page lib.crc32 header (body v meta)) ≡ parts v meta rest)
  unfolding slice
  drop-sealed v meta f =
      let page = seal_page lib.crc32 header (body v meta) in
      let n = length (flat (part_list v meta)) in
      let same : take n (drop 64 page) ≡ flat (part_list v meta) =
        slice-seal_page lib.crc32 header (body v meta) (length-body v meta) 64 n (omega arith)
        ∙ slice-body v meta f in
      (
        drop n (drop 64 page),
        sym (take-append-drop n (drop 64 page))
            ∙ ap (λ (x : Bytes). x ++ drop n (drop 64 page)) same
            ∙ flat-parts v meta (drop n (drop 64 page)),
      )

  -- A version that fits into a page, with fields in the ranges of their Go types and metadata that
  -- JSON reads as it wrote it, up to the form `m'`, is written as a page, and read back from it with
  -- the metadata in that form, and a nil vector as an empty one.
  pub deserialize-serialize_version :
      (v : Version M) (m' : Option M) (meta : Bytes)
      → ((bytes : Bytes) → lib.crc32 bytes < 2 ^ 32)
      → Fits v meta
      → Kept lib v.metadata m' meta
      → (page : Bytes) × (serialize_version lib v ≡ ok page)
        × (length page ≡ page_size)
        × (deserialize_version lib page
            ≡ ok (record v { vector = some (numbers v.vector); metadata = m' }))
  unfolding deserialize_version
  deserialize-serialize_version v m' meta bounded f s =
      let page = seal_page lib.crc32 header (body v meta) in
      let full = length-seal_page lib.crc32 header (body v meta) (length-body v meta) in
      let fine = verify-seal_page lib.crc32 header (body v meta) (length-body v meta) bounded in
      let whole : not (length page == page_size) ≡ false = ground (arith, full) in
      let (rest, behind) = drop-sealed v meta f in
      (
        page,
        serialize_version-sealed v m' meta f s,
        full,
        rw (whole, fine, behind) (read_version-parts v m' meta rest f s),
      )
