-- ===== src/Persist.antt =====
-- The index in the page file: `persistIndex` of storage.go, and `loadIndex` of recovery.go. The
-- system calls that the i-th `AllocatePage` from the end makes answer as `os i` says.
pub mod Bits
pub mod Chain
pub mod Load
mod Tests
use magpie_db.Common.{
  ℕ, zero, suc, ◌+◌, ◌-◌, ◌*◌, ◌/◌, ◌%◌, ◌^◌, ◌≤◌, ◌<◌, ◌≡◌, refl, sym, ap, ◌∙◌, fun_ext, ◌≢◌, ◌↔◌,
  ◌⊎◌, inl, inr, Bool, true, false, not, ◌&&◌, ◌||◌, Option, none, some, List, [], ◌∷◌, ◌++◌, map,
  arith, ltb, leb, if◌then◌else◌, ltb→lt, lt→ltb, leb→le, le→leb, nat_eq, nat_eq_iff, Bool-cases,
  Option-cases, GoString, string_eq, string_eq_iff, Eq, ◌==◌, eq_refl, eq_false, ℕ-Eq, GoString-Eq,
  length, get_elem?, take, drop, replicate, All, length-append, length-take, length-drop,
  length-replicate, take-append_length, drop-append_length, take_all, take-append-drop, length-map,
  Error, Result, ok, err, panic, ◌>>=◌, ◌>>◌, reject, in_range, >>=-eq-ok, Result-cases, codes,
}
use magpie_db.Bytes.{Bytes, copy_at}
use magpie_db.Page.{
  page_size, index_page, PageHeader, new_page_header, deserialize_header, seal_page,
  verify_page_checksum,
}
use magpie_db.Storage.{Storage, Calls, read_page, write_page, allocate_page}
use magpie_db.Index.{Index, new_index}
use magpie_db.Index.Codec.{serialize, deserialize}

-- `PageSize - 64`
abbrev pub data_per_page : ℕ
data_per_page = page_size - 64

-- The pages of the chain behind the root.
unfoldable pub allocate_pages :
    (ℕ → Bytes → Bytes) → (ℕ → Calls) → ℕ → Storage → Result (List ℕ) × Storage
allocate_pages resize os zero s = (ok [], s)
allocate_pages resize os (suc n) s =
    let (r, s') = allocate_page resize (os n) s in
    let (rs, s'') = allocate_pages resize os n s' in
    elim r [
      | err e ↦ (err e, s')
      | panic ↦ (panic, s')
      | ok page_num ↦ (rs >>= λ page_nums. ok (page_num ∷ page_nums), s'')
    ]

abbrev pub next_of : List ℕ → ℕ
next_of [] = 0
next_of (page_num ∷ page_nums) = page_num

-- One index page: a part of the data behind a header with a pointer to the next page.
unfoldable pub index_page_bytes : (Bytes → ℕ) → ℕ → Bytes → Bytes
index_page_bytes crc32 next chunk =
    seal_page crc32 (record (new_page_header index_page) { next_page = next })
      (copy_at 64 chunk (replicate page_size 0))

-- The loop that writes the pages. `bytes` is the data from this page's part on.
unfoldable pub write_chain : (Bytes → ℕ) → List ℕ → Bytes → Storage → Result (Unit {0}) × Storage
write_chain crc32 [] bytes s = (ok tt, s)
write_chain crc32 (page_num ∷ page_nums) bytes s =
    let (r, s') =
      write_page page_num (index_page_bytes crc32 (next_of page_nums) (take data_per_page bytes))
        s in
    let rest = write_chain crc32 page_nums (drop data_per_page bytes) s' in
    elim r [ err e ↦ (err e, s') | panic ↦ (panic, s') | ok _ ↦ rest ]

-- `persistIndex` from the data on; without a page, `pages[0]` panics.
unfoldable pub persist_bytes :
    (ℕ → Bytes → Bytes)
    → (Bytes → ℕ)
    → (ℕ → Calls)
    → Bytes
    → ℕ
    → Storage
    → Result (Unit {0}) × Storage
persist_bytes resize crc32 os bytes root s =
    elim ((length bytes + data_per_page - 1) / data_per_page) [
      | zero ↦ (panic, s)
      | suc n ↦
          let (r, s') = allocate_pages resize os n s in
          elim r [
            | err e ↦ (err e, s')
            | panic ↦ (panic, s')
            | ok page_nums ↦ write_chain crc32 (root ∷ page_nums) bytes s'
          ]
    ]

unfoldable pub persist_index :
    (ℕ → Bytes → Bytes)
    → (Bytes → ℕ)
    → (ℕ → Calls)
    → Index
    → ℕ
    → Storage
    → Result (Unit {0}) × Storage
persist_index resize crc32 os idx root s = persist_bytes resize crc32 os (serialize idx) root s

-- One round of the reading loop: the data of a page, and the next page.
unfoldable pub read_index_page : (Bytes → ℕ) → ℕ → Storage → Result (Bytes × ℕ)
read_index_page crc32 page_num s = do
  page ← read_page page_num s
  reject (not (verify_page_checksum crc32 page)) Error.checksum_mismatch
  header ← deserialize_header page
  reject (not (header.kind == index_page)) Error.wrong_page_type
  ok (drop 64 page, header.next_page)

-- The loop, for at most `fuel` rounds; `none` when it has not ended by then, as a cyclic chain never
-- does.
unfoldable pub read_chain : (Bytes → ℕ) → ℕ → ℕ → Storage → Option (Result Bytes)
read_chain crc32 zero page_num s = if page_num == 0 then some (ok []) else none
read_chain crc32 (suc fuel) page_num s =
    let more : Option (Result Bytes) = elim (read_index_page crc32 page_num s) [
      | err e ↦ some (err e)
      | panic ↦ some panic
      | ok (bytes, next) ↦ elim (read_chain crc32 fuel next s) [
        | none ↦ none
        | some rest ↦ some (rest >>= λ more. ok (bytes ++ more))
      ]
    ] in
    if page_num == 0 then some (ok []) else more

-- The data without the zeros at its end.
unfoldable pub trim_zeros : Bytes → Bytes
trim_zeros [] = []
trim_zeros (b ∷ bytes) = elim (trim_zeros bytes) [
  | [] ↦ if b == 0 then [] else b ∷ []
  | c ∷ rest ↦ b ∷ c ∷ rest
]

-- `loadIndex`; the parameters of the new index are overwritten.
unfoldable pub load_index : (Bytes → ℕ) → ℕ → ℕ → Storage → Option (Result Index)
load_index crc32 fuel root s = elim (read_chain crc32 fuel root s) [
  | none ↦ none
  | some r ↦ some (r >>= λ bytes. deserialize (trim_zeros bytes) (new_index 16 200))
]
