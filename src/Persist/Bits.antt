-- ===== src/Persist/Bits.antt =====
-- One index page, as it is read back, and the zeros at the end of the last one.
use magpie_db.Common.{
  ℕ, zero, suc, ◌+◌, ◌-◌, ◌^◌, ◌≤◌, ◌<◌, ◌≡◌, refl, sym, ap, ◌∙◌, [], ◌∷◌, ◌++◌, arith, ℕ-Eq,
  GoString-Eq, length, drop, replicate, length-drop, length-replicate, take_all, ok,
}
use magpie_db.Bytes.{Bytes, copy_at, slice}
use magpie_db.Bytes.Copy.{length-copy_at}
use magpie_db.Page.{page_size, index_page, PageHeader, new_page_header, seal_page}
use magpie_db.Page.Seal.{
  length-seal_page, slice-seal_page, verify-seal_page, deserialize_header-seal_page,
}
use magpie_db.Storage.{Storage, read_page}
use magpie_db.Persist.{data_per_page, index_page_bytes, read_index_page, trim_zeros}

drop-copy_at :
    (off : ℕ) (src buf : Bytes) → drop off (copy_at off src buf) ≡ copy_at 0 src (drop off buf)
unfolding copy_at
drop-copy_at zero src buf = refl
drop-copy_at (suc off) src [] = refl
drop-copy_at (suc off) src (b ∷ buf) = drop-copy_at off src buf

drop-replicate : (m n : ℕ) → drop {A = ℕ} m (replicate (m + n) 0) ≡ replicate n 0
drop-replicate zero n = let e : 0 + n ≡ n = omega arith in rw e refl
drop-replicate (suc m) n =
    let e : suc m + n ≡ suc (m + n) = omega arith in rw e (drop-replicate m n)

pub copy_over_zeros :
    (n : ℕ) (src : Bytes)
    → length src ≤ n
    → copy_at 0 src (replicate n 0) ≡ src ++ replicate (n - length src) 0
unfolding copy_at
copy_over_zeros zero [] h = refl
copy_over_zeros zero (b ∷ src) h = absurd (omega arith)
copy_over_zeros (suc n) [] h = let e : suc n - 0 ≡ suc n = omega arith in rw e refl
copy_over_zeros (suc n) (b ∷ src) h =
    let e : suc n - suc (length src) ≡ n - length src = omega arith in
    rw e (ap (◌∷◌ b) (copy_over_zeros n src (omega arith)))

-- The data of a page that is not full ends with zeros.
abbrev pub padded : Bytes → Bytes
padded chunk = chunk ++ replicate (data_per_page - length chunk) 0

module _ (crc32 : Bytes → ℕ) (bounded : (bytes : Bytes) → crc32 bytes < 2 ^ 32) where
  blank : (chunk : Bytes) → length (copy_at 64 chunk (replicate page_size 0)) ≡ page_size
  blank chunk =
      length-copy_at 64 chunk (replicate page_size 0) ∙ length-replicate {A = ℕ} page_size 0

  pub length-index_page_bytes :
      (next : ℕ) (chunk : Bytes) → length (index_page_bytes crc32 next chunk) ≡ page_size
  unfolding index_page_bytes
  length-index_page_bytes next chunk = length-seal_page crc32 _ _ (blank chunk)

  data_of_page :
      (next : ℕ) (chunk : Bytes)
      → length chunk ≤ data_per_page
      → drop 64 (index_page_bytes crc32 next chunk) ≡ padded chunk
  unfolding index_page_bytes slice
  data_of_page next chunk h =
      let page = copy_at 64 chunk (replicate page_size 0) in
      let header : PageHeader = record (new_page_header index_page) { next_page = next } in
      let sealed = seal_page crc32 header page in
      let long = length-seal_page crc32 header page (blank chunk) in
      sym (take_all data_per_page (drop 64 sealed) (omega (arith, length-drop 64 sealed, long)))
      ∙ slice-seal_page crc32 header page (blank chunk) 64 data_per_page (omega arith)
      ∙ take_all data_per_page (drop 64 page) (omega (arith, length-drop 64 page, blank chunk))
      ∙ drop-copy_at 64 chunk (replicate page_size 0)
      ∙ ap (copy_at 0 chunk) (drop-replicate 64 data_per_page)
      ∙ copy_over_zeros data_per_page chunk h

  -- A page of the chain that stands in the file is read back.
  pub read_index_page-written :
      (p next : ℕ) (chunk : Bytes) (s : Storage)
      → next < 2 ^ 64
      → length chunk ≤ data_per_page
      → read_page p s ≡ ok (index_page_bytes crc32 next chunk)
      → read_index_page crc32 p s ≡ ok (padded chunk, next)
  unfolding read_index_page
  read_index_page-written p next chunk s small h there =
      let header : PageHeader = record (new_page_header index_page) { next_page = next } in
      let page = copy_at 64 chunk (replicate page_size 0) in
      let back = deserialize_header-seal_page crc32 header page (blank chunk) bounded (record {
        kind = unfold new_page_header in omega arith;
        flags = unfold new_page_header in omega arith;
        count = unfold new_page_header in omega arith;
        next_page = small;
        checksum = unfold new_page_header in omega arith;
      }) in
      rw (there) (
        unfold index_page_bytes in
        rw (verify-seal_page crc32 header page (blank chunk) bounded, back)
          (rw (data_of_page next chunk h) (unfold new_page_header in refl)))

trim_nothing : (n : ℕ) → trim_zeros (replicate n 0) ≡ []
unfolding trim_zeros
trim_nothing zero = refl
trim_nothing (suc n) = rw (trim_zeros, trim_nothing n) refl

pub trim-zeros : (bytes : Bytes) (n : ℕ) → trim_zeros (bytes ++ replicate n 0) ≡ trim_zeros bytes
unfolding trim_zeros
trim-zeros [] n = trim_nothing n
trim-zeros (b ∷ bytes) n = rw (trim_zeros, trim-zeros bytes n) refl
