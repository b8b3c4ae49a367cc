-- ===== src/Page/Seal.antt =====
-- A sealed page: its checksum verifies, its header is read back, and the rest of the page is kept.
use magpie_db.Common.{
  ℕ, ◌+◌, ◌^◌, ◌≤◌, ◌<◌, ◌≡◌, refl, sym, ap, ◌∙◌, true, ◌++◌, arith, ℕ-Eq, GoString-Eq, length,
  replicate, ok,
}
use mathlib.Core.Path.{ap₂}
use magpie_db.Bytes.{Bytes, copy_at, slice, put_uint, uint}
use magpie_db.Bytes.Copy.{
  length-copy_at, slice-copy_at_after, slice-copy_at_inside, slice-append_slice,
}
use magpie_db.Page.{
  PageHeader, serialize_header, deserialize_header, page_size, calculate_page_checksum,
  verify_page_checksum, seal_page,
}
use magpie_db.Page.Header.{InRange, length-serialize_header, header_roundtrip}

-- The header's checksum field does not change the bytes that are checksummed.
slice-serialize_header :
    (h : PageHeader) (c : ℕ)
    → (slice 0 12 (serialize_header (record h { checksum = c })) ≡ slice 0 12 (serialize_header h))
      × (slice 16 48 (serialize_header (record h { checksum = c }))
          ≡ slice 16 48 (serialize_header h))
unfolding serialize_header copy_at put_uint slice
slice-serialize_header h c = (refl, refl)

uint-checksum :
    (h : PageHeader) → h.checksum < 2 ^ 32 → uint (slice 12 4 (serialize_header h)) ≡ h.checksum
unfolding serialize_header copy_at put_uint slice uint
uint-checksum h r = omega arith

module _ (crc32 : Bytes → ℕ) (header : PageHeader) (page : Bytes)
    (full : length page ≡ page_size) where
  pub length-seal_page : length (seal_page crc32 header page) ≡ page_size
  unfolding seal_page
  length-seal_page = rw (length-copy_at, length-copy_at) full

  behind_header :
      (h : PageHeader) (p : Bytes) (lo n : ℕ)
      → 64 ≤ lo
      → slice lo n (copy_at 0 (serialize_header h) p) ≡ slice lo n p
  behind_header h p lo n k =
      slice-copy_at_after lo n 0 (serialize_header h) p (omega (arith, length-serialize_header h))

  inside_header :
      (h : PageHeader) (p : Bytes) (lo n : ℕ)
      → length p ≡ page_size
      → lo + n ≤ 64
      → slice lo n (copy_at 0 (serialize_header h) p) ≡ slice lo n (serialize_header h)
  inside_header h p lo n e k =
      slice-copy_at_inside lo n (serialize_header h) p (omega (arith, length-serialize_header h))
        (omega (arith, length-serialize_header h))

  -- Behind the header the page is as it was.
  pub slice-seal_page :
      (lo n : ℕ) → 64 ≤ lo → slice lo n (seal_page crc32 header page) ≡ slice lo n page
  unfolding seal_page
  slice-seal_page lo n h = behind_header _ _ lo n h ∙ behind_header header page lo n h

  abbrev written : Bytes
  written = copy_at 0 (serialize_header header) page

  length-written : length written ≡ page_size
  length-written = rw length-copy_at full

  -- A header with another checksum gives a page with the same checksummed bytes.
  same_checksummed :
      (c : ℕ)
      → calculate_page_checksum crc32
          (copy_at 0 (serialize_header (record header { checksum = c })) written)
        ≡ calculate_page_checksum crc32 written
  unfolding calculate_page_checksum
  same_checksummed c =
      let h' : PageHeader = record header { checksum = c } in
      let same = slice-serialize_header header c in
      let e = length-written in
      ap₂ (λ a b. crc32 (a ++ b))
        (inside_header h' written 0 12 e (omega arith)
          ∙ same.0
          ∙ sym (inside_header header page 0 12 full (omega arith)))
        (slice-append_slice 16 48 4032 (copy_at 0 (serialize_header h') written)
          ∙ ap₂ ◌++◌
              (inside_header h' written 16 48 e (omega arith)
                ∙ same.1
                ∙ sym (inside_header header page 16 48 full (omega arith)))
              (behind_header h' written 64 4032 (omega arith))
          ∙ sym (slice-append_slice 16 48 4032 written))

  calculate-seal_page :
      calculate_page_checksum crc32 (seal_page crc32 header page)
      ≡ calculate_page_checksum crc32 written
  unfolding seal_page
  calculate-seal_page = same_checksummed (calculate_page_checksum crc32 written)

  header_of_page :
      (h : PageHeader)
      → deserialize_header (copy_at 0 (serialize_header h) written)
        ≡ deserialize_header (serialize_header h)
  unfolding deserialize_header
  header_of_page h =
      let e = length-written in
      ground (
        arith,
        length-copy_at 0 (serialize_header h) written,
        length-serialize_header h,
        length-written,
        inside_header h written 0 1 e (omega arith),
        inside_header h written 1 1 e (omega arith),
        inside_header h written 2 2 e (omega arith),
        inside_header h written 4 8 e (omega arith),
        inside_header h written 12 4 e (omega arith),
        inside_header h written 16 48 e (omega arith),
      )

  module _ (bounded : (bs : Bytes) → crc32 bs < 2 ^ 32) where
    sealed_checksum :
        uint (slice 12 4 (seal_page crc32 header page)) ≡ calculate_page_checksum crc32 written
    unfolding seal_page
    sealed_checksum =
        ap uint (inside_header _ written 12 4 length-written (omega arith))
        ∙ uint-checksum (record header { checksum = calculate_page_checksum crc32 written })
            (unfold calculate_page_checksum in bounded _)

    -- A page that is sealed with any header passes `VerifyPageChecksum`, for a checksum that fits 32
    -- bits.
    pub verify-seal_page : verify_page_checksum crc32 (seal_page crc32 header page) ≡ true
    unfolding verify_page_checksum
    verify-seal_page = ground (arith, length-seal_page, sealed_checksum, calculate-seal_page)

    -- The header that is read from a sealed page is the one that was given, for fields in the ranges
    -- of their Go types, with the page's checksum, and with zeros for its reserved bytes.
    pub deserialize_header-seal_page :
        InRange header
        → deserialize_header (seal_page crc32 header page)
          ≡ ok (record header {
            checksum = calculate_page_checksum crc32 (seal_page crc32 header page);
            reserved = replicate 44 0;
          })
    deserialize_header-seal_page r = rw calculate-seal_page (
        unfold seal_page in
        (header_of_page _
          ∙ header_roundtrip _ (record {
            kind = r.kind;
            flags = r.flags;
            count = r.count;
            next_page = r.next_page;
            checksum = unfold calculate_page_checksum in bounded _;
          })))
