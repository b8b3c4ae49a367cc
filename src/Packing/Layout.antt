-- ===== src/Packing/Layout.antt =====
-- The bytes of a packed page: header, count, entries and vectors, one behind the other, sealed.
use magpie_db.Common.{
  ℕ, ◌+◌, ◌*◌, ◌≤◌, ◌≡◌, refl, sym, ap, ◌∙◌, ◌++◌, map, arith, ℕ-Eq, GoString-Eq, length, replicate,
  length-append, length-replicate, Result, ok, err, panic, ◌>>=◌,
}
use magpie_db.Bytes.{Bytes, copy_at, slice, put_uint}
use magpie_db.Bytes.Endian.{length-put_uint}
use magpie_db.Bytes.Copy.{length-copy_at, slice-copy_at}
use magpie_db.Page.{
  page_size, serialize_header, calculate_page_checksum, seal_page, pack_vector_entry,
  serialize_vector,
}
use magpie_db.Page.Header.{length-serialize_header}
use magpie_db.Page.Seal.{length-seal_page, slice-seal_page}
use magpie_db.Packing.{PackedVectorPage, write_parts, serialize_packed_page, with_checksum}
use magpie_db.Packing.Chunks.{flat, write_parts-flat, slice_parts, copy_at_same, copy_at-append}

>>=-assoc :
    {A B C : Type 0} (r : Result A) (f : A → Result B) (g : B → Result C)
    → ((r >>= f) >>= g) ≡ (r >>= λ a. f a >>= g)
>>=-assoc panic f g = refl
>>=-assoc (err e) f g = refl
>>=-assoc (ok a) f g = refl

four_parts :
    (n : ℕ) (a b c d z : Bytes)
    → length a ≡ 64
    → length b ≡ 2
    → length c ≡ n
    → copy_at (66 + n) d (copy_at 66 c (copy_at 64 b (copy_at 0 a z)))
      ≡ copy_at 0 (a ++ (b ++ (c ++ d))) z
four_parts n a b c d z ha hb hc =
    let p1 : 0 + length a ≡ 64 = omega (arith, ha) in
    let p2 : 64 + length b ≡ 66 = omega (arith, hb) in
    let p3 : 66 + length c ≡ 66 + n = omega (arith, hc) in
    let s1 = rw p1 at (copy_at-append 0 a (b ++ (c ++ d)) z) in
    let s2 = rw p2 at (copy_at-append 64 b (c ++ d) (copy_at 0 a z)) in
    let s3 = rw p3 at (copy_at-append 66 c d (copy_at 64 b (copy_at 0 a z))) in sym (s1 ∙ s2 ∙ s3)

four_slices :
    (n : ℕ) (a b c d p : Bytes)
    → length a ≡ 64
    → length b ≡ 2
    → length c ≡ n
    → length (a ++ (b ++ (c ++ d))) ≤ length p
    → slice 0 (length (a ++ (b ++ (c ++ d)))) p ≡ a ++ (b ++ (c ++ d))
    → (slice 0 (length a) p ≡ a)
      × (slice 64 2 p ≡ b)
      × (slice 66 (length c) p ≡ c)
      × (slice (66 + n) (length d) p ≡ d)
four_slices n a b c d p ha hb hc h same =
    let l1 = length-append {0} a (b ++ (c ++ d)) in
    let l2 = length-append {0} b (c ++ d) in
    let l3 = length-append {0} c d in
    let p1 : 0 + length a ≡ 64 = omega (arith, ha) in
    let p2 : 64 + length b ≡ 66 = omega (arith, hb) in
    let p3 : 66 + length c ≡ 66 + n = omega (arith, hc) in
    let s1 = slice_parts 0 a (b ++ (c ++ d)) p (omega (arith, h)) same in
    let s2 = slice_parts 64 b (c ++ d) p (omega (arith, h, l1, ha)) (rw p1 at s1.1) in
    let s3 = slice_parts 66 c d p (omega (arith, h, l1, l2, ha, hb)) (rw p2 at s2.1) in
    (s1.0, rw hb at s2.0, s3.0, rw p3 at s3.1)

module _ (crc32 : Bytes → ℕ) (page : PackedVectorPage)
    (size : length (flat (map pack_vector_entry page.entries)) ≡ 80 * length page.entries)
    (fits : 66 + 80 * length page.entries + length (flat (map serialize_vector page.vector_data))
      ≤ page_size) where
  header_bytes : Bytes
  header_bytes = serialize_header page.header

  count_bytes : Bytes
  count_bytes = put_uint 2 page.vector_count

  pub entry_bytes : Bytes
  entry_bytes = flat (map pack_vector_entry page.entries)

  pub vector_bytes : Bytes
  vector_bytes = flat (map serialize_vector page.vector_data)

  body : Bytes
  body = header_bytes ++ (count_bytes ++ (entry_bytes ++ vector_bytes))

  -- The page before its checksum is set.
  pub filled : Bytes
  filled = copy_at 0 body (replicate page_size 0)

  pub length-filled : length filled ≡ page_size
  unfolding filled
  length-filled =
      length-copy_at 0 body (replicate page_size 0) ∙ length-replicate {A = ℕ} page_size 0

  length-body :
      (length header_bytes ≡ 64)
      × (length count_bytes ≡ 2)
      × (length entry_bytes ≡ 80 * length page.entries)
      × (length body ≤ page_size)
  unfolding header_bytes count_bytes entry_bytes vector_bytes body
  length-body = (
    length-serialize_header page.header,
    length-put_uint 2 page.vector_count,
    size,
    omega (
      arith,
      length-append {0} header_bytes (count_bytes ++ (entry_bytes ++ vector_bytes)),
      length-append {0} count_bytes (entry_bytes ++ vector_bytes),
      length-append {0} entry_bytes vector_bytes,
      length-serialize_header page.header,
      length-put_uint 2 page.vector_count,
      size,
      fits,
    ),
  )

  slice-filled : slice 0 (length body) filled ≡ body
  unfolding filled
  slice-filled =
      slice-copy_at 0 (length body) body (replicate page_size 0) refl
        (omega (arith, length-body.3, length-replicate {A = ℕ} page_size 0))

  filled_steps :
      copy_at (66 + 80 * length page.entries) vector_bytes (
        copy_at 66 entry_bytes
          (copy_at 64 count_bytes (copy_at 0 header_bytes (replicate page_size 0))))
      ≡ filled
  unfolding filled body
  filled_steps =
      four_parts (80 * length page.entries) header_bytes count_bytes entry_bytes vector_bytes
        (replicate page_size 0) length-body.0 length-body.1 length-body.2

  slices-filled :
      (slice 0 (length header_bytes) filled ≡ header_bytes)
      × (slice 64 2 filled ≡ count_bytes)
      × (slice 66 (length entry_bytes) filled ≡ entry_bytes)
      × (slice (66 + 80 * length page.entries) (length vector_bytes) filled ≡ vector_bytes)
  unfolding body
  slices-filled =
      let h : length body ≤ length filled = omega (arith, length-filled, length-body.3) in
      four_slices (80 * length page.entries) header_bytes count_bytes entry_bytes vector_bytes
        filled length-body.0 length-body.1 length-body.2 h slice-filled

  same_header : copy_at 0 header_bytes filled ≡ filled
  same_header =
      copy_at_same header_bytes filled (omega (arith, length-body.0, length-filled)) slices-filled.0

  unfoldable pub sealed : Bytes
  sealed = seal_page crc32 page.header filled

  pub length-sealed : length sealed ≡ page_size
  unfolding sealed
  length-sealed = length-seal_page crc32 page.header filled length-filled

  -- The page with its header and its count.
  started : Bytes
  started = copy_at 64 count_bytes (copy_at 0 header_bytes (replicate page_size 0))

  length-started : length started ≡ page_size
  unfolding started
  length-started =
      length-copy_at 64 count_bytes (copy_at 0 header_bytes (replicate page_size 0))
      ∙ length-copy_at 0 header_bytes (replicate page_size 0)
      ∙ length-replicate {A = ℕ} page_size 0

  both_loops :
      (write_parts 66 (map pack_vector_entry page.entries) started >>= λ b.
      write_parts (66 + 80 * length page.entries) (map serialize_vector page.vector_data) b)
      ≡ ok filled
  unfolding entry_bytes vector_bytes
  both_loops =
      let size_now = length-copy_at 66 entry_bytes started in
      let first =
        write_parts-flat 66 (map pack_vector_entry page.entries) started
          (omega (arith, size, fits, length-started)) in
      let second =
        write_parts-flat (66 + 80 * length page.entries) (map serialize_vector page.vector_data)
          (copy_at 66 entry_bytes started) (omega (arith, size_now, fits, length-started)) in
      rw (first, second) (ap ok (unfold started in filled_steps))

  checksum_set :
      copy_at 0
        (serialize_header (record page.header { checksum = calculate_page_checksum crc32 filled }))
        filled
      ≡ sealed
  unfolding sealed seal_page
  checksum_set =
      let same : copy_at 0 (serialize_header page.header) filled ≡ filled =
        unfold header_bytes in same_header in
      rw same

  pub serialize-sealed :
      serialize_packed_page crc32 page
      ≡ ok (
        sealed,
        record page {
          header = record page.header { checksum = calculate_page_checksum crc32 filled };
        },
      )
  unfolding serialize_packed_page with_checksum started header_bytes count_bytes
  serialize-sealed =
      sym (>>=-assoc (write_parts 66 (map pack_vector_entry page.entries) _) _ _)
      ∙ ap (λ (r : Result Bytes). r >>= λ b. ok (with_checksum crc32 b page)) both_loops
      ∙ ap
          (λ (bytes : Bytes). ok (
            bytes,
            record page {
              header = record page.header { checksum = calculate_page_checksum crc32 filled };
            },
          ))
          checksum_set

  behind : (lo n : ℕ) → 64 ≤ lo → slice lo n sealed ≡ slice lo n filled
  unfolding sealed
  behind lo n h = slice-seal_page crc32 page.header filled length-filled lo n h

  -- The count, the entries and the vectors of the sealed page.
  pub sealed_parts :
      (slice 64 2 sealed ≡ put_uint 2 page.vector_count)
      × (slice 66 (length (flat (map pack_vector_entry page.entries))) sealed
          ≡ flat (map pack_vector_entry page.entries))
      × (slice
            (66 + 80 * length page.entries)
            (length (flat (map serialize_vector page.vector_data)))
            sealed
          ≡ flat (map serialize_vector page.vector_data))
  unfolding count_bytes entry_bytes vector_bytes
  sealed_parts = (
    behind 64 2 (omega arith) ∙ slices-filled.1,
    behind 66 _ (omega arith) ∙ slices-filled.2,
    behind _ _ (omega arith) ∙ slices-filled.3,
  )
