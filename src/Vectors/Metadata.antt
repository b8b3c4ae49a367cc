-- ===== src/Vectors/Metadata.antt =====
-- Metadata that is stored is loaded again.
use magpie_db.Common.{
  ℕ, ◌+◌, ◌%◌, ◌^◌, ◌≤◌, ◌<◌, ◌≡◌, refl, ap, ◌∙◌, false, Option, some, arith, ltb, ℕ-Eq,
  GoString-Eq, length, replicate, length-replicate, Result, ok,
}
use magpie_db.Bytes.{Bytes, copy_at, slice, put_uint, uint}
use magpie_db.Bytes.Copy.{length-copy_at, slice-copy_at, slice-copy_at_before}
use magpie_db.Bytes.Endian.{length-put_uint, uint-put_uint}
use magpie_db.Page.{page_size, metadata_page, PageHeader, new_page_header, seal_page, uint_at}
use magpie_db.Page.Seal.{
  length-seal_page, slice-seal_page, verify-seal_page, deserialize_header-seal_page,
}
use magpie_db.Storage.{Storage, Calls, allocate_page, read_page, write_page}
use magpie_db.Storage.Pages.{IsValid, write-read_page}
use magpie_db.Storage.Allocation.{IsResize, allocate_page-Allocated}
use magpie_db.Wal.{WalLib}
use magpie_db.Vectors.{metadata_page_bytes, store_metadata, load_metadata_from_page}

module _ {M : Type 0} (lib : WalLib M) (bounded : (bytes : Bytes) → lib.crc32 bytes < 2 ^ 32) where
  abbrev blank : Bytes → Bytes
  blank json =
      copy_at 68 json (copy_at 64 (put_uint 4 (length json % 2 ^ 32)) (replicate page_size 0))

  abbrev sized : Bytes → Bytes
  sized json = copy_at 64 (put_uint 4 (length json % 2 ^ 32)) (replicate page_size 0)

  length-sized : (json : Bytes) → length (sized json) ≡ page_size
  length-sized json =
      length-copy_at 64 (put_uint 4 (length json % 2 ^ 32)) (replicate page_size 0)
      ∙ length-replicate {A = ℕ} page_size 0

  length-blank : (json : Bytes) → length (blank json) ≡ page_size
  length-blank json = length-copy_at 68 json (sized json) ∙ length-sized json

  size_back :
      (json : Bytes) → 68 + length json ≤ page_size → uint (slice 64 4 (blank json)) ≡ length json
  size_back json fit =
      let bytes = put_uint 4 (length json % 2 ^ 32) in
      ap uint (
        slice-copy_at_before 64 4 68 json (sized json) (omega arith)
        ∙ slice-copy_at 64 4 bytes (replicate page_size 0)
            (length-put_uint 4 (length json % 2 ^ 32))
            (omega (arith, length-replicate {A = ℕ} page_size 0)))
      ∙ uint-put_uint 4 (length json % 2 ^ 32) (omega arith)
      ∙ omega (arith, fit)

  json_back :
      (json : Bytes) → 68 + length json ≤ page_size → slice 68 (length json) (blank json) ≡ json
  json_back json fit =
      slice-copy_at 68 (length json) json (sized json) refl (omega (arith, length-sized json, fit))

  -- A metadata page that stands in the file is read.
  load-page :
      (p : ℕ) (json : Bytes) (m : Option M) (s : Storage)
      → 68 + length json ≤ page_size
      → lib.unmarshal json ≡ some m
      → read_page p s ≡ ok (metadata_page_bytes lib.crc32 json)
      → load_metadata_from_page lib p s ≡ ok m
  unfolding load_metadata_from_page metadata_page_bytes
  load-page p json m s fit means there =
      let header : PageHeader = record (new_page_header metadata_page) { count = 1 } in
      let full = length-blank json in
      let sealed = seal_page lib.crc32 header (blank json) in
      let verified = verify-seal_page lib.crc32 header (blank json) full bounded in
      let back = deserialize_header-seal_page lib.crc32 header (blank json) full bounded (record {
        kind = unfold new_page_header in omega arith;
        flags = unfold new_page_header in omega arith;
        count = omega arith;
        next_page = unfold new_page_header in omega arith;
        checksum = unfold new_page_header in omega arith;
      }) in
      let size : uint_at 64 4 sealed ≡ length json =
        ap uint (slice-seal_page lib.crc32 header (blank json) full 64 4 (omega arith))
        ∙ size_back json fit in
      let text : slice 68 (length json) sealed ≡ json =
        slice-seal_page lib.crc32 header (blank json) full 68 (length json) (omega arith)
        ∙ json_back json fit in
      let small : ltb page_size (68 + length json) ≡ false = ground (arith, fit) in
      rw (there, verified, back) (unfold new_page_header in rw (size, small, text, means) refl)

  -- The JSON of metadata that is stored in a page is loaded from it again, as what it unmarshals to:
  -- with a page that the allocation hands out, JSON of at most 4028 bytes, a storage that is valid and
  -- whose size stays below 2^63, and checksums that fit 32 bits. The storage stays valid.
  pub load-store_metadata :
      (resize : ℕ → Bytes → Bytes) (os : Calls) (json : Bytes) (m : Option M) (p : ℕ)
      (s s1 : Storage)
      → IsResize resize
      → IsValid s
      → s.size + page_size < 2 ^ 63
      → allocate_page resize os s ≡ (ok p, s1)
      → 68 + length json ≤ page_size
      → lib.unmarshal json ≡ some m
      → (s' : Storage) × (store_metadata resize lib.crc32 os json s ≡ (ok p, s'))
        × IsValid s'
        × (load_metadata_from_page lib p s' ≡ ok m)
  unfolding store_metadata
  load-store_metadata resize os json m p s s1 laws v room allocated fit means =
      let a = allocate_page-Allocated resize laws os p s s1 v room allocated in
      let page = metadata_page_bytes lib.crc32 json in
      let full : length page ≡ page_size =
        (unfold metadata_page_bytes in
          length-seal_page lib.crc32 _ (blank json) (length-blank json)) in
      let (done, v', back, others) = write-read_page p page s1 a.valid a.inside full in
      let small : ltb page_size (68 + length json) ≡ false = ground (arith, fit) in
      let got : (allocate_page resize os s).0 ≡ ok p =
        ap (λ (x : Result ℕ × Storage). x.0) allocated in
      let after : (allocate_page resize os s).1 ≡ s1 =
        ap (λ (x : Result ℕ × Storage). x.1) allocated in
      (
        (write_page p page s1).1,
        rw (store_metadata, got, after, small, done) refl,
        v',
        load-page p json m _ fit means back,
      )
