-- ===== src/Page/DbHeader/Checks.antt =====
-- The database header: what is written is read back, and what is read has passed the checks.
use magpie_db.Common.{
  ℕ, ◌^◌, ◌≤◌, ◌<◌, ◌≡◌, refl, sym, ap, ◌∙◌, [], ◌∷◌, arith, ltb, GoString, string_eq_iff, ℕ-Eq,
  GoString-Eq, length, replicate, length-replicate, Error, ok, err, reject, >>=-eq-ok,
}
use mathlib.Core.Path.{subst}
use magpie_db.Bytes.{Bytes, copy_at, slice, put_uint, uint}
use magpie_db.Bytes.Endian.{uint-put_uint}
use magpie_db.Bytes.Copy.{slice-copy_at_before}
use magpie_db.Bytes.Fields.{Fields, write_all, length-write_all, slice-field}
use magpie_db.Page.{page_size}
use magpie_db.Page.DbHeader.{
  Header, magic_number, header_bytes, read_header, check_header, serialize_db_header,
  deserialize_db_header, new_db_header,
}

-- The fields have the ranges of their Go types.
pub record InRange (h : Header) : Type 0 where
  pub magic : length h.magic ≡ 8
  pub version : h.version < 2 ^ 32
  pub dimensions : h.dimensions < 2 ^ 32
  pub vector_count : h.vector_count < 2 ^ 64
  pub page_count : h.page_count < 2 ^ 64
  pub index_root_page : h.index_root_page < 2 ^ 64
  pub metadata_root : h.metadata_root < 2 ^ 64
  pub wal_offset : h.wal_offset < 2 ^ 64
  pub distance_metric : h.distance_metric < 2 ^ 8
  pub flags : h.flags < 2 ^ 8
  pub reserved : length h.reserved ≡ 4006

-- What the reader checks besides the checksum.
pub record IsUsable (h : Header) : Type 0 where
  pub magic : h.magic ≡ magic_number
  pub version : (0 < h.version) × (h.version ≤ 1000)
  pub dimensions : (0 < h.dimensions) × (h.dimensions ≤ 100000)
  pub page_count : 0 < h.page_count
  pub distance_metric : h.distance_metric ≤ 2
  pub index_root_page : h.index_root_page < h.page_count
  pub metadata_root : h.metadata_root < h.page_count

fields : Header → ℕ → Fields
fields h c =
    (0, h.magic)
    ∷ (8, put_uint 4 h.version)
    ∷ (12, put_uint 4 h.dimensions)
    ∷ (16, put_uint 8 h.vector_count)
    ∷ (24, put_uint 8 h.page_count)
    ∷ (32, put_uint 8 h.index_root_page)
    ∷ (40, put_uint 8 h.metadata_root)
    ∷ (48, put_uint 8 h.wal_offset)
    ∷ (56, h.distance_metric ∷ [])
    ∷ (57, h.flags ∷ [])
    ∷ (58, h.reserved)
    ∷ (4064, put_uint 8 c)
    ∷ []

module _ (h : Header) (c : ℕ) (r : InRange h) (buf : Bytes) (full : length buf ≡ page_size) where
  filled : Bytes
  filled = write_all (fields h c) buf

  filled_parts :
      (slice 0 8 filled ≡ h.magic)
      × (slice 8 4 filled ≡ put_uint 4 h.version)
      × (slice 12 4 filled ≡ put_uint 4 h.dimensions)
      × (slice 16 8 filled ≡ put_uint 8 h.vector_count)
      × (slice 24 8 filled ≡ put_uint 8 h.page_count)
      × (slice 32 8 filled ≡ put_uint 8 h.index_root_page)
      × (slice 40 8 filled ≡ put_uint 8 h.metadata_root)
      × (slice 48 8 filled ≡ put_uint 8 h.wal_offset)
      × (slice 56 1 filled ≡ h.distance_metric ∷ [])
      × (slice 57 1 filled ≡ h.flags ∷ [])
      × (slice 58 4006 filled ≡ h.reserved)
      × (slice 4064 8 filled ≡ put_uint 8 c)
  unfolding filled fields put_uint
  filled_parts =
      let fit : (n : ℕ) → n ≤ 4096 → n ≤ length buf = λ n k. omega arith in
      (
        slice-field (fields h c) 0 0 8 _ buf refl r.magic (fit 8 (omega arith)) (omega arith),
        slice-field (fields h c) 1 8 4 _ buf refl refl (fit 12 (omega arith)) (omega arith),
        slice-field (fields h c) 2 12 4 _ buf refl refl (fit 16 (omega arith)) (omega arith),
        slice-field (fields h c) 3 16 8 _ buf refl refl (fit 24 (omega arith)) (omega arith),
        slice-field (fields h c) 4 24 8 _ buf refl refl (fit 32 (omega arith)) (omega arith),
        slice-field (fields h c) 5 32 8 _ buf refl refl (fit 40 (omega arith)) (omega arith),
        slice-field (fields h c) 6 40 8 _ buf refl refl (fit 48 (omega arith)) (omega arith),
        slice-field (fields h c) 7 48 8 _ buf refl refl (fit 56 (omega arith)) (omega arith),
        slice-field (fields h c) 8 56 1 _ buf refl refl (fit 57 (omega arith)) (omega arith),
        slice-field (fields h c) 9 57 1 _ buf refl refl (fit 58 (omega arith)) (omega arith),
        slice-field (fields h c) 10 58 4006 _ buf refl r.reserved (fit 4064 (omega arith))
            (omega arith),
        slice-field (fields h c) 11 4064 8 _ buf refl refl (fit 4072 (omega arith)) tt,
      )

  read_header-filled : c < 2 ^ 64 → read_header filled ≡ record h { checksum = c }
  unfolding read_header uint
  read_header-filled k =
      let p = filled_parts in
      let n = uint-put_uint in
      λ i. record {
        magic = p.0 i;
        version = (ap uint p.1 ∙ n 4 h.version r.version) i;
        dimensions = (ap uint p.2 ∙ n 4 h.dimensions r.dimensions) i;
        vector_count = (ap uint p.3 ∙ n 8 h.vector_count r.vector_count) i;
        page_count = (ap uint p.4 ∙ n 8 h.page_count r.page_count) i;
        index_root_page = (ap uint p.5 ∙ n 8 h.index_root_page r.index_root_page) i;
        metadata_root = (ap uint p.6 ∙ n 8 h.metadata_root r.metadata_root) i;
        wal_offset = (ap uint p.7 ∙ n 8 h.wal_offset r.wal_offset) i;
        distance_metric = (ap uint p.8 ∙ one h.distance_metric) i;
        flags = (ap uint p.9 ∙ one h.flags) i;
        reserved = p.10 i;
        checksum = (ap uint p.11 ∙ n 8 c k) i;
      }
    where
      one : (b : ℕ) → uint (b ∷ []) ≡ b
      one b = omega arith

check_header-usable : (h : Header) (c : ℕ) → IsUsable h → h.checksum ≡ c → check_header c h ≡ ok h
unfolding check_header
check_header-usable h c u e =
    let magic = (string_eq_iff h.magic magic_number).1 u.magic in ground (arith, magic)

-- Reading passes only what is usable, whatever the bytes.
check_header_sound :
    (h h' : Header) (c : ℕ) → check_header c h ≡ ok h' → (h ≡ h') × IsUsable h × (h.checksum ≡ c)
unfolding check_header
check_header_sound h h' c e = (
  ground arith,
  record {
    magic = ground (arith, string_eq_iff h.magic magic_number);
    version = ground arith;
    dimensions = ground arith;
    page_count = ground arith;
    distance_metric = ground arith;
    index_root_page = ground arith;
    metadata_root = ground arith;
  },
  ground arith,
)

new_db_header-InRange : (metric : GoString) → InRange (new_db_header 0 metric)
unfolding new_db_header copy_at
new_db_header-InRange metric = record {
  magic = refl;
  version = omega arith;
  dimensions = omega arith;
  vector_count = omega arith;
  page_count = omega arith;
  index_root_page = omega arith;
  metadata_root = omega arith;
  wal_offset = omega arith;
  distance_metric = ground arith;
  flags = omega arith;
  reserved = length-replicate {A = ℕ} 4006 0;
}

refused :
    (c : ℕ) (metric : GoString)
    → check_header c (record (new_db_header 0 metric) { checksum = c })
      ≡ err Error.invalid_dimensions
unfolding check_header new_db_header copy_at
refused c metric = ground arith

abbrev blank : Bytes
blank = replicate page_size 0

blank_length : length blank ≡ page_size
blank_length = length-replicate {A = ℕ} page_size 0

module _ (crc64 : Bytes → ℕ) where
  deserialize_parts :
      (p : Bytes) (c : ℕ) (h : Header)
      → length p ≡ page_size
      → crc64 (slice 0 4064 p) ≡ c
      → read_header p ≡ h
      → deserialize_db_header crc64 p ≡ check_header c h
  unfolding deserialize_db_header
  deserialize_parts p c h l e r = rw (l, e) (ap (check_header c) r)

  module _ (bounded : (bs : Bytes) → crc64 bs < 2 ^ 64) where
    deserialize-serialize :
        (h : Header)
        → InRange h
        → deserialize_db_header crc64 (serialize_db_header crc64 h).1
          ≡ check_header (serialize_db_header crc64 h).0.checksum (serialize_db_header crc64 h).0
    unfolding serialize_db_header filled fields
    deserialize-serialize h r =
        let c = crc64 (slice 0 4064 (header_bytes h)) in
        deserialize_parts (filled h c r blank (blank_length)) c (record h { checksum = c })
          (length-write_all (fields h c) blank ∙ blank_length)
          (ap crc64
            (slice-copy_at_before 0 4064 4064 (put_uint 8 c) (header_bytes h) (omega arith)))
          (read_header-filled h c r blank (blank_length) (bounded _))

    -- A header with fields in the ranges of their Go types and with values that the reader
    -- accepts is read back from the page that it is written to, with the checksum that writing
    -- gave it.
    pub db_header_roundtrip :
        (h : Header)
        → InRange h
        → IsUsable h
        → deserialize_db_header crc64 (serialize_db_header crc64 h).1
          ≡ ok (serialize_db_header crc64 h).0
    db_header_roundtrip h r u =
        deserialize-serialize h r
        ∙ check_header-usable _ _
            (unfold serialize_db_header in
              record {
                magic = u.magic;
                version = u.version;
                dimensions = u.dimensions;
                page_count = u.page_count;
                distance_metric = u.distance_metric;
                index_root_page = u.index_root_page;
                metadata_root = u.metadata_root;
              })
            refl

    -- The first page of a new database whose dimensions are still to be detected (0, the
    -- default of `Options`) is refused when it is read back, for every distance metric.
    pub undetected_dimensions :
        (metric : GoString)
        → deserialize_db_header crc64 (serialize_db_header crc64 (new_db_header 0 metric)).1
          ≡ err Error.invalid_dimensions
    undetected_dimensions metric =
        deserialize-serialize (new_db_header 0 metric) (new_db_header-InRange metric)
        ∙ (unfold serialize_db_header in refused _ metric)

  -- Whatever the bytes: a header that is read passes every check, and its checksum is that of the
  -- bytes before it.
  pub deserialize_db_header-IsUsable :
      (p : Bytes) (h : Header)
      → deserialize_db_header crc64 p ≡ ok h
      → IsUsable h × (h.checksum ≡ crc64 (slice 0 4064 p)) × (page_size ≤ length p)
  unfolding deserialize_db_header
  deserialize_db_header-IsUsable p h e =
      let (_, long, checked) =
        >>=-eq-ok (reject (ltb (length p) page_size) Error.corrupted_data) _ e in
      let (same, usable, sum) = check_header_sound (read_header p) h _ checked in
      (subst IsUsable same usable, ap (λ (x : Header). x.checksum) (sym same) ∙ sum, ground arith)
