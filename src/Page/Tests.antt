-- ===== src/Page/Tests.antt =====
-- The theorems on pages at concrete headers, entries and vectors, with a toy checksum.
use magpie_db.Common.{
  ℕ, ◌%◌, ◌^◌, ◌≤◌, ◌<◌, ◌≡◌, refl, [], ◌∷◌, arith, GoString, ℕ-Eq, GoString-Eq, length, replicate,
  length-replicate, ok, codes,
}
use magpie_db.Bytes.{Bytes, slice, uint, copy_at}
use magpie_db.Page.{PageHeader, page_size, VectorEntry, extract_id_string, pack_id_string}
use magpie_db.Page.Header.{header_roundtrip}
use magpie_db.Page.Header
use magpie_db.Page.Entry
use magpie_db.Page.Entry.{unpack-pack_vector_entry, extract-pack_id_string, extract-pack_zero}
use magpie_db.Page.DbHeader.{new_db_header, serialize_db_header, deserialize_db_header}
use magpie_db.Page.DbHeader
use magpie_db.Page.DbHeader.Checks
use magpie_db.Page.DbHeader.Checks.{
  IsUsable, db_header_roundtrip, undetected_dimensions, deserialize_db_header-IsUsable,
}

abbrev checksum32 : Bytes → ℕ
checksum32 bs = uint bs % 2 ^ 32

checksum32-lt : (bs : Bytes) → checksum32 bs < 2 ^ 32
checksum32-lt bs = omega arith

abbrev checksum64 : Bytes → ℕ
checksum64 bs = uint bs % 2 ^ 64

checksum64-lt : (bs : Bytes) → checksum64 bs < 2 ^ 64
checksum64-lt bs = omega arith

abbrev header : PageHeader
header = record {
  kind = 1;
  flags = 0;
  count = 2;
  next_page = 7;
  checksum = 5;
  reserved = replicate 44 0;
}

header-InRange : Header.InRange header
header-InRange = record {
  kind = omega arith;
  flags = omega arith;
  count = omega arith;
  next_page = omega arith;
  checksum = omega arith;
}

abbrev page : Bytes
page = replicate page_size 9

page_length : length page ≡ page_size
page_length = length-replicate {A = ℕ} page_size 9

abbrev entry : VectorEntry
entry = record {
  id = replicate 64 97;
  offset = 144;
  length = 8;
  flags = 0;
  reserved = 0;
  metadata = 3;
}

entry-InRange : Entry.InRange entry
entry-InRange = record {
  id = refl;
  offset = omega arith;
  length = omega arith;
  flags = omega arith;
  reserved = omega arith;
  metadata = omega arith;
}

abbrev id : GoString
id = 97 ∷ 98 ∷ []

extract-pack_id_string_example : extract_id_string (pack_id_string id) ≡ id
extract-pack_id_string_example =
    extract-pack_id_string id (omega arith) (omega arith) (ground arith, (ground arith, tt))

abbrev db_header : DbHeader.Header
db_header = new_db_header 3 (codes "dot")

db_header-InRange : Checks.InRange db_header
unfolding new_db_header copy_at
db_header-InRange = record {
  magic = refl;
  version = omega arith;
  dimensions = omega arith;
  vector_count = omega arith;
  page_count = omega arith;
  index_root_page = omega arith;
  metadata_root = omega arith;
  wal_offset = omega arith;
  distance_metric = omega arith;
  flags = omega arith;
  reserved = length-replicate {A = ℕ} 4006 0;
}

db_header-IsUsable : IsUsable db_header
unfolding new_db_header copy_at
db_header-IsUsable = record {
  magic = refl;
  version = (omega arith, omega arith);
  dimensions = (omega arith, omega arith);
  page_count = omega arith;
  distance_metric = omega arith;
  index_root_page = omega arith;
  metadata_root = omega arith;
}

db_header_roundtrip_example :
    deserialize_db_header checksum64 (serialize_db_header checksum64 db_header).1
    ≡ ok (serialize_db_header checksum64 db_header).0
db_header_roundtrip_example =
    db_header_roundtrip checksum64 checksum64-lt db_header db_header-InRange db_header-IsUsable

abbrev db_page : Bytes
db_page = (serialize_db_header checksum64 db_header).1

deserialize_db_header-IsUsable_example :
    IsUsable (serialize_db_header checksum64 db_header).0
    × ((serialize_db_header checksum64 db_header).0.checksum ≡ checksum64 (slice 0 4064 db_page))
    × (page_size ≤ length db_page)
deserialize_db_header-IsUsable_example =
    deserialize_db_header-IsUsable checksum64 db_page (serialize_db_header checksum64 db_header).0
      (db_header_roundtrip checksum64 checksum64-lt db_header db_header-InRange db_header-IsUsable)
