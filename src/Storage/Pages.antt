-- ===== src/Storage/Pages.antt =====
-- Reading and writing whole pages.
use magpie_db.Common.{
  ℕ, ◌+◌, ◌*◌, ◌/◌, ◌^◌, ◌≤◌, ◌<◌, ◌≡◌, refl, sym, ap, ◌∙◌, ◌≢◌, inl, inr, true, arith, ltb,
  Bool-cases, ℕ-Eq, GoString-Eq, length, All, ok,
}
use magpie_db.Bytes.{Bytes, copy_at, slice}
use magpie_db.Bytes.Copy.{length-copy_at, slice-copy_at, slice-copy_at_before, slice-copy_at_after}
use magpie_db.Page.{page_size}
use magpie_db.Storage.{Storage, Mapping, offset_of, end_of, read_page, write_page, page_count}

-- The mapping is there and as long as the size, which fits an int64, and no free page is outside.
pub record IsValid (s : Storage) : Type 0 where
  pub mapped : s.mapping ≡ Mapping.live
  pub opened : s.is_open ≡ true
  pub long : s.size ≤ length s.file
  pub fits : s.size < 2 ^ 63
  pub free : All (λ p. p < s.size / page_size) s.free_list

-- The bytes of a page inside the size.
abbrev pub content : ℕ → Storage → Bytes
content p s = slice (p * page_size) page_size s.file

in_bounds :
    (p size : ℕ)
    → size < 2 ^ 63
    → p < size / page_size
    → (offset_of p ≡ p * page_size)
      × (end_of p ≡ p * page_size + page_size)
      × (p * page_size + page_size ≤ size)
in_bounds p size h k = (omega arith, omega arith, omega arith)

pub read_page-ok :
    (p : ℕ) (s : Storage) → IsValid s → p < s.size / page_size → read_page p s ≡ ok (content p s)
unfolding read_page
read_page-ok p s v k =
    let (lo, hi, inside) = in_bounds p s.size v.fits k in
    rw (v.mapped, lo) (ground (arith, hi, inside))

pub write_page-ok :
    (p : ℕ) (bytes : Bytes) (s : Storage)
    → IsValid s
    → p < s.size / page_size
    → length bytes ≡ page_size
    → write_page p bytes s ≡ (ok tt, record s { file = copy_at (p * page_size) bytes s.file })
unfolding write_page
write_page-ok p bytes s v k full =
    let (lo, hi, inside) = in_bounds p s.size v.fits k in
    rw (v.mapped, lo, full) (ground (arith, hi, inside))

write-IsValid :
    (p : ℕ) (bytes : Bytes) (s : Storage)
    → IsValid s
    → IsValid (record s { file = copy_at (p * page_size) bytes s.file })
write-IsValid p bytes s v = record {
  mapped = v.mapped;
  opened = v.opened;
  long = omega (arith, length-copy_at (p * page_size) bytes s.file, v.long);
  fits = v.fits;
  free = v.free;
}

other_page :
    (p q : ℕ) (bytes file : Bytes)
    → length bytes ≡ page_size
    → q ≢ p
    → slice (q * page_size) page_size (copy_at (p * page_size) bytes file)
      ≡ slice (q * page_size) page_size file
other_page p q bytes file full ne = elim (Bool-cases (ltb q p)) [
  | inl below ↦
      let lt : q < p = ground arith in
      slice-copy_at_before (q * page_size) page_size (p * page_size) bytes file (omega (arith, lt))
  | inr above ↦
      let gt : p < q = ground arith in
      slice-copy_at_after (q * page_size) page_size (p * page_size) bytes file
        (omega (arith, gt, full))
]

-- On a valid storage, a page of the right length that is written inside the file is read back,
-- every other page is read as before, and the storage stays valid.
pub write-read_page :
    (p : ℕ) (bytes : Bytes) (s : Storage)
    → IsValid s
    → p < page_count s
    → length bytes ≡ page_size
    → let (r, s') = write_page p bytes s in
      (r ≡ ok tt)
      × IsValid s'
      × (read_page p s' ≡ ok bytes)
      × ((q : ℕ) → q < page_count s → q ≢ p → read_page q s' ≡ read_page q s)
unfolding page_count
write-read_page p bytes s v k full =
    let (lo, hi, inside) = in_bounds p s.size v.fits k in
    let v' = write-IsValid p bytes s v in
    rw (write_page-ok p bytes s v k full) (
      refl,
      v',
      read_page-ok p _ v' k
          ∙ ap ok
              (slice-copy_at (p * page_size) page_size bytes s.file full (omega (arith, v.long))),
      λ q l ne.
          read_page-ok q _ v' l
          ∙ ap ok (other_page p q bytes s.file full ne)
          ∙ sym (read_page-ok q s v l),
    )

-- The offset of a page wraps around: 2^52 pages further, the same page is read and written.
pub page_offset_wraps :
    (p : ℕ) (bytes : Bytes) (s : Storage)
    → (read_page (p + 2 ^ 52) s ≡ read_page p s)
      × (write_page (p + 2 ^ 52) bytes s ≡ write_page p bytes s)
unfolding read_page write_page
page_offset_wraps p bytes s =
    let same : offset_of (p + 2 ^ 52) ≡ offset_of p = omega arith in rw same (refl, refl)
