-- ===== src/Storage.antt =====
-- The memory-mapped page file: storage.go, up to `persistIndex`. `file` is the content of the
-- mapped file, which a shared mapping shows and changes; a page that `ReadPage` returns is its
-- content at that moment. What a system call answers is an argument, and `resize` is the effect of
-- a successful `Truncate`.
pub mod Pages
pub mod Allocation
pub mod Growth
pub mod Vectors
pub mod Tests
use magpie_db.Common.{
  ℕ, zero, suc, ◌+◌, ◌-◌, ◌*◌, ◌/◌, ◌%◌, ◌^◌, ◌≤◌, ◌<◌, ◌≡◌, refl, sym, ap, ◌∙◌, fun_ext, ◌≢◌, ◌↔◌,
  ◌⊎◌, inl, inr, Bool, true, false, not, ◌&&◌, ◌||◌, Option, none, some, List, [], ◌∷◌, ◌++◌, map,
  arith, ltb, leb, if◌then◌else◌, ltb→lt, lt→ltb, leb→le, le→leb, nat_eq, nat_eq_iff, Bool-cases,
  Option-cases, GoString, string_eq, string_eq_iff, Eq, ◌==◌, eq_refl, eq_false, ℕ-Eq, GoString-Eq,
  length, get_elem?, take, drop, replicate, All, length-append, length-take, length-drop,
  length-replicate, take-append_length, drop-append_length, take_all, take-append-drop, length-map,
  Error, Result, ok, err, panic, ◌>>=◌, ◌>>◌, reject, in_range, >>=-eq-ok, Result-cases, codes,
}
use magpie_db.Bytes.{Bytes, copy_at, slice}
use magpie_db.Page.{
  page_size, vector_page, new_page_header, deserialize_header, VectorEntry, pack_vector_entry,
  unpack_vector_entry, seal_page, verify_page_checksum,
}

-- `s.mmap`: nil, a mapping, or one that has been unmapped and is still there.
pub data Mapping : Type 0 where
  no_mapping live stale : Mapping

abbrev pub is_live : Mapping → Bool
is_live live = true
is_live _ = false

abbrev pub is_nil : Mapping → Bool
is_nil no_mapping = true
is_nil _ = false

-- `free_list` is the slice with its last element first; `is_open` is `s.file != nil`.
pub record Storage : Type 0 where
  pub file : Bytes
  pub is_open : Bool
  pub mapping : Mapping
  pub size : ℕ
  pub free_list : List ℕ

-- Which system calls succeed.
pub record Calls : Type 0 where
  pub stat : Bool
  pub truncate : Bool
  pub mmap : Bool
  pub munmap : Bool
  pub msync : Bool
  pub sync_file : Bool
  pub close_file : Bool

unfoldable pub new_storage : Storage
new_storage = record { file = []; is_open = false; mapping = no_mapping; size = 0; free_list = [] }

-- `pageNum * PageSize` and `offset + PageSize` on uint64.
abbrev pub offset_of : ℕ → ℕ
offset_of page_num = (page_num * page_size) % 2 ^ 64

abbrev pub end_of : ℕ → ℕ
end_of page_num = (offset_of page_num + page_size) % 2 ^ 64

-- `s.mmap[offset : offset+PageSize]`, which panics if the bounds are not in order or there is no
-- mapping behind it.
can_slice : ℕ → Storage → Bool
can_slice page_num s = is_live s.mapping && leb (offset_of page_num) (end_of page_num)

unfoldable pub read_page : ℕ → Storage → Result Bytes
unfolding can_slice
read_page page_num s =
    if ltb s.size (end_of page_num)
    then err Error.out_of_bounds
    else if can_slice page_num s
    then ok (slice (offset_of page_num) page_size s.file)
    else panic

unfoldable pub write_page : ℕ → Bytes → Storage → Result (Unit {0}) × Storage
unfolding can_slice
write_page page_num bytes s =
    if not (length bytes == page_size)
    then (err Error.bad_page_size, s)
    else if ltb s.size (end_of page_num)
    then (err Error.out_of_bounds, s)
    else if can_slice page_num s
    then (ok tt, record s { file = copy_at (offset_of page_num) bytes s.file })
    else (panic, s)

-- `ReadPages`; no page numbers give a nil slice.
unfoldable pub read_pages : List ℕ → Storage → Result (List Bytes)
read_pages [] s = ok []
read_pages (page_num ∷ page_nums) s = do
  page ← read_page page_num s
  pages ← read_pages page_nums s
  ok (page ∷ pages)

unfoldable pub free_page : ℕ → Storage → Result (Unit {0}) × Storage
free_page page_num s =
    if leb (s.size / page_size) page_num
    then (err Error.invalid_page, s)
    else (ok tt, record s { free_list = page_num ∷ s.free_list })

unfoldable pub page_count : Storage → ℕ
page_count s = s.size / page_size

unfoldable pub sync : Calls → Storage → Result (Unit {0})
sync os s =
    if not (is_nil s.mapping) && not os.msync
    then err Error.io_error
    else if s.is_open && not os.sync_file
    then err Error.io_error
    else ok tt

-- The first error is returned; the mapping and the file are given up in any case.
unfoldable pub close : Calls → Storage → Result (Unit {0}) × Storage
close os s = (
  if (not (is_nil s.mapping) && not os.munmap) || (s.is_open && not os.close_file)
      then err Error.io_error
      else ok tt,
  record s { is_open = false; mapping = no_mapping },
)

module _ (resize : ℕ → Bytes → Bytes) where
  -- `Init`, with a file of the given content.
  unfoldable pub init : Calls → Bytes → ℕ → Storage → Result (Unit {0}) × Storage
  init os file size s =
      if ltb size page_size
      then (err Error.size_too_small, s)
      else if not os.stat
      then (err Error.io_error, s)
      else if ltb (length file) size && not os.truncate
      then (err Error.io_error, s)
      else if not os.mmap
      then (err Error.io_error, s)
      else (
        ok tt,
        record s {
          file = if ltb (length file) size then resize size file else file;
          is_open = true;
          mapping = live;
          size = size;
        },
      )

  -- The second part of `AllocatePage`: the file grows by a page and is mapped again.
  extend : Calls → Storage → Result ℕ × Storage
  extend os s =
      let page_num = s.size / page_size in
      let new_size = (s.size + page_size) % 2 ^ 64 in
      let grown : Storage = record s { file = resize new_size s.file } in
      if not (s.is_open && os.truncate)
      then (err Error.io_error, s)
      else if not os.munmap
      then (err Error.io_error, grown)
      else if not os.mmap
      then (err Error.io_error, record grown { mapping = stale })
      else (ok page_num, record grown { mapping = live; size = new_size })

  unfoldable pub allocate_page : Calls → Storage → Result ℕ × Storage
  unfolding extend
  allocate_page os s = elim s.free_list [
    | page_num ∷ rest ↦ (ok page_num, record s { free_list = rest })
    | [] ↦ extend os s
  ]

-- The loop of `writeVectorPage`.
pack_entries : ℕ → List VectorEntry → Bytes → Result Bytes
pack_entries offset [] page = ok page
pack_entries offset (entry ∷ entries) page =
    let rest = pack_entries (offset + 80) entries (copy_at offset (pack_vector_entry entry) page) in
    if ltb page_size (offset + 80) then err Error.too_many_entries else rest

-- The loop of `readVectorPage`.
unpack_entries : ℕ → ℕ → Bytes → Result (List VectorEntry)
unpack_entries zero offset page = ok []
unpack_entries (suc n) offset page = do
  entry ← unpack_vector_entry (drop offset page)
  entries ← unpack_entries n (offset + 80) page
  ok (entry ∷ entries)

module _ (crc32 : Bytes → ℕ) where
  unfoldable pub write_vector_page : ℕ → List VectorEntry → Storage → Result (Unit {0}) × Storage
  unfolding pack_entries
  write_vector_page page_num entries s = elim (pack_entries 64 entries (replicate page_size 0)) [
    | ok page ↦
        write_page page_num
          (seal_page crc32
            (record (new_page_header vector_page) { count = length entries % 2 ^ 16 }) page)
          s
    | err e ↦ (err e, s)
    | panic ↦ (panic, s)
  ]

  unfoldable pub read_vector_page : ℕ → Storage → Result (List VectorEntry)
  unfolding unpack_entries
  read_vector_page page_num s = do
    page ← read_page page_num s
    reject (not (verify_page_checksum crc32 page)) Error.checksum_mismatch
    header ← deserialize_header page
    reject (not (header.kind == vector_page)) Error.wrong_page_type
    unpack_entries header.count 64 page
