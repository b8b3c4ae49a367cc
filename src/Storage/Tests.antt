-- ===== src/Storage/Tests.antt =====
-- The theorems on the storage at a file of two pages, with a toy checksum.
use magpie_db.Common.{
  ℕ, zero, suc, ◌+◌, ◌%◌, ◌^◌, ◌≤◌, ◌<◌, ◌≡◌, refl, ap, ◌≢◌, true, List, [], ◌∷◌, arith, ℕ-Eq,
  GoString-Eq, length, replicate, length-replicate, Error, ok, err,
}
use magpie_db.Bytes.{Bytes, uint, slice}
use magpie_db.Page.{page_size, VectorEntry}
use magpie_db.Page.Entry
use magpie_db.Storage.{
  Storage, Calls, Mapping, new_storage, init, read_page, write_page, page_count, allocate_page,
  write_vector_page, read_vector_page,
}
use magpie_db.Storage.Pages.{IsValid, write-read_page}
use magpie_db.Storage.Allocation.{IsResize, Allocated, allocate_page-Allocated}
use magpie_db.Storage.Vectors.{write-read_vector_page}

abbrev pub storage : Storage
storage = record {
  file = replicate 8192 0;
  is_open = true;
  mapping = Mapping.live;
  size = 8192;
  free_list = [];
}

pub storage-IsValid : IsValid storage
storage-IsValid = record {
  mapped = refl;
  opened = refl;
  long = omega (arith, length-replicate {A = ℕ} 8192 0);
  fits = omega arith;
  free = tt;
}

abbrev page : Bytes
page = replicate page_size 5

pub second : 1 < page_count storage
unfolding page_count
second = omega arith

write-read_page_example :
    let (r, s') = write_page 1 page storage in
    (r ≡ ok tt)
    × IsValid s'
    × (read_page 1 s' ≡ ok page)
    × ((q : ℕ) → q < page_count storage → q ≢ 1 → read_page q s' ≡ read_page q storage)
write-read_page_example =
    write-read_page 1 page storage storage-IsValid second (length-replicate {A = ℕ} page_size 5)

-- Growing with zeros.
abbrev pub resize : ℕ → Bytes → Bytes
resize zero bytes = []
resize (suc n) [] = 0 ∷ resize n []
resize (suc n) (b ∷ bytes) = b ∷ resize n bytes

length-resize : (n : ℕ) (bytes : Bytes) → length (resize n bytes) ≡ n
length-resize zero bytes = refl
length-resize (suc n) [] = ap suc (length-resize n [])
length-resize (suc n) (b ∷ bytes) = ap suc (length-resize n bytes)

slice-resize :
    (n lo k : ℕ) (bytes : Bytes)
    → lo + k ≤ n
    → lo + k ≤ length bytes
    → slice lo k (resize n bytes) ≡ slice lo k bytes
unfolding slice
slice-resize zero zero zero bytes h l = refl
slice-resize zero zero (suc k) bytes h l = absurd (omega arith)
slice-resize zero (suc lo) k bytes h l = absurd (omega arith)
slice-resize (suc n) zero zero bytes h l = refl
slice-resize (suc n) zero (suc k) [] h l = absurd (omega arith)
slice-resize (suc n) zero (suc k) (b ∷ bytes) h l =
    ap (◌∷◌ b) (slice-resize n zero k bytes (omega arith) (omega arith))
slice-resize (suc n) (suc lo) k [] h l = absurd (omega arith)
slice-resize (suc n) (suc lo) k (b ∷ bytes) h l =
    slice-resize n lo k bytes (omega arith) (omega arith)

pub resize-IsResize : IsResize resize
resize-IsResize = record { length_is = length-resize; keeps = slice-resize }

abbrev pub calls : Calls
calls = record {
  stat = true;
  truncate = true;
  mmap = true;
  munmap = true;
  msync = true;
  sync_file = true;
  close_file = true;
}

abbrev pub grown : Storage
grown = (allocate_page resize calls storage).1

pub allocates : allocate_page resize calls storage ≡ (ok 2, grown)
unfolding allocate_page
allocates = refl

allocate_page-Allocated_example : Allocated storage 2 grown
allocate_page-Allocated_example =
    allocate_page-Allocated resize resize-IsResize calls 2 storage grown storage-IsValid
      (omega arith) allocates

abbrev pub checksum32 : Bytes → ℕ
checksum32 bytes = uint bytes % 2 ^ 32

pub checksum32-lt : (bytes : Bytes) → checksum32 bytes < 2 ^ 32
checksum32-lt bytes = omega arith

abbrev entry : VectorEntry
entry = record {
  id = replicate 64 97;
  offset = 144;
  length = 8;
  flags = 0;
  reserved = 0;
  metadata = 3;
}

entry-InRange : Entry.InRange entry
entry-InRange = record {
  id = refl;
  offset = omega arith;
  length = omega arith;
  flags = omega arith;
  reserved = omega arith;
  metadata = omega arith;
}

abbrev entries : List VectorEntry
entries = entry ∷ entry ∷ []

write-read_vector_page_example :
    let (r, s') = write_vector_page checksum32 1 entries storage in
    (length entries ≤ 50
      → (r ≡ ok tt)
        × (read_vector_page checksum32 1 s' ≡ ok entries)
        × ((q : ℕ) → q < page_count storage → q ≢ 1 → read_page q s' ≡ read_page q storage))
    × (50 < length entries → (r ≡ err Error.too_many_entries) × (s' ≡ storage))
write-read_vector_page_example =
    write-read_vector_page checksum32 checksum32-lt 1 entries storage storage-IsValid second
      (entry-InRange, (entry-InRange, tt))

abbrev opened : Storage
opened = (init resize calls page 8192 new_storage).1

opens : init resize calls page 8192 new_storage ≡ (ok tt, opened)
unfolding init
opens = refl
