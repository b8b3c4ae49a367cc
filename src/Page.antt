-- ===== src/Page.antt =====
-- Pages and their parts as bytes: page.go, with the page constants and structs of types.go.
pub mod Header
pub mod Seal
pub mod Entry
pub mod Vector
pub mod DbHeader
mod Tests
use magpie_db.Common.{
  ℕ, zero, suc, ◌+◌, ◌-◌, ◌*◌, ◌/◌, ◌%◌, ◌^◌, ◌≤◌, ◌<◌, ◌≡◌, refl, sym, ap, ◌∙◌, fun_ext, ◌≢◌, ◌↔◌,
  ◌⊎◌, inl, inr, Bool, true, false, not, ◌&&◌, ◌||◌, Option, none, some, List, [], ◌∷◌, ◌++◌, map,
  arith, ltb, leb, if◌then◌else◌, ltb→lt, lt→ltb, leb→le, le→leb, nat_eq, nat_eq_iff, Bool-cases,
  Option-cases, GoString, string_eq, string_eq_iff, Eq, ◌==◌, eq_refl, eq_false, ℕ-Eq, GoString-Eq,
  length, get_elem?, take, drop, replicate, All, length-append, length-take, length-drop,
  length-replicate, take-append_length, drop-append_length, take_all, take-append-drop, length-map,
  Error, Result, ok, err, panic, ◌>>=◌, ◌>>◌, reject, in_range, >>=-eq-ok,
}
use magpie_db.Bytes.{Bytes, copy_at, slice, put_uint, uint}

abbrev pub page_size : ℕ
page_size = 4096

-- Page types.
abbrev pub header_page : ℕ
header_page = 0

abbrev pub vector_page : ℕ
vector_page = 1

abbrev pub index_page : ℕ
index_page = 2

abbrev pub metadata_page : ℕ
metadata_page = 3

abbrev pub wal_page : ℕ
wal_page = 4

-- `PageHeader`; the field `Type` is `kind` here.
pub record PageHeader : Type 0 where
  pub kind : ℕ
  pub flags : ℕ
  pub count : ℕ
  pub next_page : ℕ
  pub checksum : ℕ
  pub reserved : Bytes

unfoldable pub new_page_header : ℕ → PageHeader
new_page_header page_type = record {
  kind = page_type;
  flags = 0;
  count = 0;
  next_page = 0;
  checksum = 0;
  reserved = replicate 44 0;
}

-- `buf[i] = b` and `buf[i]`, inside the buffer.
abbrev pub set_byte : ℕ → ℕ → Bytes → Bytes
set_byte i b buf = copy_at i (b ∷ []) buf

abbrev pub byte_at : ℕ → Bytes → ℕ
byte_at i buf = uint (slice i 1 buf)

abbrev pub uint_at : ℕ → ℕ → Bytes → ℕ
uint_at off n buf = uint (slice off n buf)

unfoldable pub serialize_header : PageHeader → Bytes
serialize_header h =
    let b0 = set_byte 0 h.kind (replicate 64 0) in
    let b1 = set_byte 1 h.flags b0 in
    let b2 = copy_at 2 (put_uint 2 h.count) b1 in
    let b3 = copy_at 4 (put_uint 8 h.next_page) b2 in copy_at 12 (put_uint 4 h.checksum) b3

unfoldable pub deserialize_header : Bytes → Result PageHeader
deserialize_header buf = do
  reject (ltb (length buf) 64) Error.corrupted_data
  ok (record {
    kind = byte_at 0 buf;
    flags = byte_at 1 buf;
    count = uint_at 2 2 buf;
    next_page = uint_at 4 8 buf;
    checksum = uint_at 12 4 buf;
    reserved = copy_at 0 (slice 16 48 buf) (replicate 44 0);
  })

-- `SerializeVector` and `DeserializeVector`; a float32 is its 32-bit pattern.
unfoldable pub serialize_vector : List ℕ → Bytes
serialize_vector [] = []
serialize_vector (v ∷ vector) = put_uint 4 v ++ serialize_vector vector

read_floats : ℕ → Bytes → List ℕ
read_floats zero buf = []
read_floats (suc n) buf = uint (slice 0 4 buf) ∷ read_floats n (drop 4 buf)

unfoldable pub deserialize_vector : Bytes → List ℕ
unfolding read_floats
deserialize_vector buf = read_floats (length buf / 4) buf

unfoldable pub vector_page_layout : ℕ → ℕ
vector_page_layout dimensions =
    let header_size : ℕ = 64 in
    let entry_size = 80 + dimensions * 4 in
    let available_space = page_size - header_size in available_space / entry_size

-- `VectorEntry`: an ID of 64 bytes and the place of the vector's data.
pub record VectorEntry : Type 0 where
  pub id : Bytes
  pub offset : ℕ
  pub length : ℕ
  pub flags : ℕ
  pub reserved : ℕ
  pub metadata : ℕ

unfoldable pub pack_vector_entry : VectorEntry → Bytes
pack_vector_entry entry =
    let b0 = copy_at 0 entry.id (replicate 80 0) in
    let b1 = copy_at 64 (put_uint 4 entry.offset) b0 in
    let b2 = copy_at 68 (put_uint 2 entry.length) b1 in
    let b3 = set_byte 70 entry.flags b2 in
    let b4 = set_byte 71 entry.reserved b3 in copy_at 72 (put_uint 8 entry.metadata) b4

unfoldable pub unpack_vector_entry : Bytes → Result VectorEntry
unpack_vector_entry buf = do
  reject (ltb (length buf) 80) Error.corrupted_data
  ok (record {
    id = slice 0 64 buf;
    offset = uint_at 64 4 buf;
    length = uint_at 68 2 buf;
    flags = byte_at 70 buf;
    reserved = byte_at 71 buf;
    metadata = uint_at 72 8 buf;
  })

-- The loop of `extractIDString`: the index of the first zero byte, and 0 if there is none.
find_zero : ℕ → Bytes → ℕ
find_zero i [] = 0
find_zero i (b ∷ bs) = let rest = find_zero (suc i) bs in if b == 0 then i else rest

unfoldable pub extract_id_string : Bytes → GoString
unfolding find_zero
extract_id_string id_array =
    let end = find_zero 0 id_array in if end == 0 then take 64 id_array else take end id_array

unfoldable pub pack_id_string : GoString → Bytes
pack_id_string id = copy_at 0 id (replicate 64 0)

-- The checksum of package hash/crc32 over bytes, a parameter: the hash of the two parts written
-- one after the other.
module _ (crc32 : Bytes → ℕ) where
  unfoldable pub calculate_page_checksum : Bytes → ℕ
  calculate_page_checksum page = crc32 (slice 0 12 page ++ slice 16 4080 page)

  unfoldable pub verify_page_checksum : Bytes → Bool
  unfolding calculate_page_checksum
  verify_page_checksum page =
      if length page == page_size then uint_at 12 4 page == calculate_page_checksum page else false

  -- The last steps of every function that fills a page: write the header, take the checksum of the
  -- page, and write the header with it.
  unfoldable pub seal_page : PageHeader → Bytes → Bytes
  unfolding calculate_page_checksum
  seal_page header page =
      let written = copy_at 0 (serialize_header header) page in
      let checksum = calculate_page_checksum written in
      copy_at 0 (serialize_header (record header { checksum = checksum })) written
