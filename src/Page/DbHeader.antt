-- ===== src/Page/DbHeader.antt =====
-- The database header in the first page: its bytes, and the checks that reading it makes.
pub mod Checks
use magpie_db.Common.{
  ℕ, zero, suc, ◌+◌, ◌-◌, ◌*◌, ◌/◌, ◌%◌, ◌^◌, ◌≤◌, ◌<◌, ◌≡◌, refl, sym, ap, ◌∙◌, fun_ext, ◌≢◌, ◌↔◌,
  ◌⊎◌, inl, inr, Bool, true, false, not, ◌&&◌, ◌||◌, Option, none, some, List, [], ◌∷◌, ◌++◌, map,
  arith, ltb, leb, if◌then◌else◌, ltb→lt, lt→ltb, leb→le, le→leb, nat_eq, nat_eq_iff, Bool-cases,
  Option-cases, GoString, string_eq, string_eq_iff, Eq, ◌==◌, eq_refl, eq_false, ℕ-Eq, GoString-Eq,
  length, get_elem?, take, drop, replicate, All, length-append, length-take, length-drop,
  length-replicate, take-append_length, drop-append_length, take_all, take-append-drop, length-map,
  Error, Result, ok, err, panic, ◌>>=◌, ◌>>◌, reject, in_range, >>=-eq-ok, codes,
}
use magpie_db.Bytes.{Bytes, copy_at, slice, put_uint, uint, AreBytes}
use magpie_db.Page.{page_size, set_byte, byte_at, uint_at}

pub record Header : Type 0 where
  pub magic : Bytes
  pub version : ℕ
  pub dimensions : ℕ
  pub vector_count : ℕ
  pub page_count : ℕ
  pub index_root_page : ℕ
  pub metadata_root : ℕ
  pub wal_offset : ℕ
  pub distance_metric : ℕ
  pub flags : ℕ
  pub reserved : Bytes
  pub checksum : ℕ

abbrev pub magic_number : GoString
magic_number = codes "MAGPIE01"

-- `metricToCode` and `codeToMetric`.
unfoldable pub metric_to_code : GoString → ℕ
metric_to_code metric =
    if metric == codes "cosine"
    then 0
    else if metric == codes "euclidean"
    then 1
    else if metric == codes "dot"
    then 2
    else 0

unfoldable pub code_to_metric : ℕ → GoString
code_to_metric c =
    if c == 0
    then codes "cosine"
    else if c == 1
    then codes "euclidean"
    else if c == 2
    then codes "dot"
    else codes "cosine"

unfoldable pub new_db_header : ℕ → GoString → Header
unfolding metric_to_code
new_db_header dimensions distance_metric = record {
  magic = copy_at 0 magic_number (replicate 8 0);
  version = 1;
  dimensions = dimensions;
  vector_count = 0;
  page_count = 1;
  index_root_page = 0;
  metadata_root = 0;
  wal_offset = 0;
  distance_metric = metric_to_code distance_metric;
  flags = 0;
  reserved = replicate 4006 0;
  checksum = 0;
}

-- `(*Header).Valid`
unfoldable pub header_is_valid : Header → Bool
header_is_valid h = h.magic == magic_number

-- The buffer before its checksum is written.
header_bytes : Header → Bytes
header_bytes h =
    let b0 = copy_at 0 h.magic (replicate page_size 0) in
    let b1 = copy_at 8 (put_uint 4 h.version) b0 in
    let b2 = copy_at 12 (put_uint 4 h.dimensions) b1 in
    let b3 = copy_at 16 (put_uint 8 h.vector_count) b2 in
    let b4 = copy_at 24 (put_uint 8 h.page_count) b3 in
    let b5 = copy_at 32 (put_uint 8 h.index_root_page) b4 in
    let b6 = copy_at 40 (put_uint 8 h.metadata_root) b5 in
    let b7 = copy_at 48 (put_uint 8 h.wal_offset) b6 in
    let b8 = set_byte 56 h.distance_metric b7 in
    let b9 = set_byte 57 h.flags b8 in copy_at 58 h.reserved b9

-- The fields that `DeserializeDBHeader` reads, before it checks them.
read_header : Bytes → Header
read_header buf = record {
  magic = slice 0 8 buf;
  version = uint_at 8 4 buf;
  dimensions = uint_at 12 4 buf;
  vector_count = uint_at 16 8 buf;
  page_count = uint_at 24 8 buf;
  index_root_page = uint_at 32 8 buf;
  metadata_root = uint_at 40 8 buf;
  wal_offset = uint_at 48 8 buf;
  distance_metric = byte_at 56 buf;
  flags = byte_at 57 buf;
  reserved = slice 58 4006 buf;
  checksum = uint_at 4064 8 buf;
}

-- The checks of `DeserializeDBHeader`, in order; `expected` is the checksum of the bytes.
check_header : ℕ → Header → Result Header
check_header expected h = do
  reject (not (h.magic == magic_number)) Error.invalid_magic
  reject (not (h.checksum == expected)) Error.checksum_mismatch
  reject (h.version == 0 || ltb 1000 h.version) Error.invalid_version
  reject (h.dimensions == 0 || ltb 100000 h.dimensions) Error.invalid_dimensions
  reject (h.page_count == 0) Error.invalid_page_count
  reject (ltb 2 h.distance_metric) Error.invalid_metric
  reject (ltb 0 h.index_root_page && leb h.page_count h.index_root_page) Error.invalid_index_root
  reject (ltb 0 h.metadata_root && leb h.page_count h.metadata_root) Error.invalid_metadata_root
  ok h

-- CRC64 of package hash/crc64 is a parameter.
module _ (crc64 : Bytes → ℕ) where
  -- The header with its new checksum, and the page.
  unfoldable pub serialize_db_header : Header → Header × Bytes
  unfolding header_bytes
  serialize_db_header h =
      let buf = header_bytes h in
      let checksum = crc64 (slice 0 4064 buf) in
      (record h { checksum = checksum }, copy_at 4064 (put_uint 8 checksum) buf)

  unfoldable pub deserialize_db_header : Bytes → Result Header
  unfolding read_header check_header
  deserialize_db_header buf = do
    reject (ltb (length buf) page_size) Error.corrupted_data
    check_header (crc64 (slice 0 4064 buf)) (read_header buf)
