-- ===== src/Page/Header.antt =====
-- The page header of 64 bytes: what is serialized is read back.
use magpie_db.Common.{◌^◌, ◌<◌, ◌≡◌, refl, arith, ℕ-Eq, GoString-Eq, length, replicate, ok}
use magpie_db.Bytes.{copy_at, slice, put_uint, uint}
use magpie_db.Page.{PageHeader, serialize_header, deserialize_header}

-- The fields have the ranges of their Go types.
pub record InRange (h : PageHeader) : Type 0 where
  pub kind : h.kind < 2 ^ 8
  pub flags : h.flags < 2 ^ 8
  pub count : h.count < 2 ^ 16
  pub next_page : h.next_page < 2 ^ 64
  pub checksum : h.checksum < 2 ^ 32

pub length-serialize_header : (h : PageHeader) → length (serialize_header h) ≡ 64
unfolding serialize_header copy_at put_uint
length-serialize_header h = refl

-- What `SerializeHeader` writes, `DeserializeHeader` reads back, for fields in the ranges of their
-- Go types, except for the reserved bytes, which are not written and are read as zeros.
pub header_roundtrip :
    (h : PageHeader)
    → InRange h
    → deserialize_header (serialize_header h) ≡ ok (record h { reserved = replicate 44 0 })
unfolding serialize_header deserialize_header copy_at put_uint slice uint
header_roundtrip h r = ground arith
