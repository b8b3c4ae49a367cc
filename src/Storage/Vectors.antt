-- ===== src/Storage/Vectors.antt =====
-- Vector pages: the entries that are written are read back, or do not fit.
use magpie_db.Common.{
  true, ◌==◌, ℕ, zero, suc, ◌+◌, ◌*◌, ◌%◌, ◌^◌, ◌≤◌, ◌<◌, ◌≡◌, refl, sym, ap, ◌∙◌, ◌≢◌, inl, inr,
  false, List, [], ◌∷◌, arith, ltb, Bool-cases, ℕ-Eq, GoString-Eq, length, take, drop, replicate,
  All, length-take, length-drop, length-replicate, take_all, Error, ok, err,
}
use magpie_db.Bytes.{Bytes, copy_at, slice}
use magpie_db.Bytes.Copy.{length-copy_at, slice-copy_at, slice-copy_at_before}
use magpie_db.Page.{
  page_size, vector_page, PageHeader, new_page_header, VectorEntry, pack_vector_entry,
  unpack_vector_entry, seal_page,
}
use magpie_db.Page.Header
use magpie_db.Page.Entry
use magpie_db.Page.Entry.{length-pack_vector_entry, unpack-pack_vector_entry}
use magpie_db.Page.Seal.{
  length-seal_page, slice-seal_page, verify-seal_page, deserialize_header-seal_page,
}
use magpie_db.Storage.{
  Storage, pack_entries, unpack_entries, read_page, write_vector_page, read_vector_page, page_count,
}
use magpie_db.Storage.Pages.{IsValid, write-read_page}

slice-take : (off n k : ℕ) (buf : Bytes) → off + n ≤ k → slice off n (take k buf) ≡ slice off n buf
unfolding slice
slice-take zero zero k buf h = refl
slice-take zero (suc n) zero buf h = absurd (omega arith)
slice-take zero (suc n) (suc k) [] h = refl
slice-take zero (suc n) (suc k) (b ∷ buf) h = ap (◌∷◌ b) (slice-take zero n k buf (omega arith))
slice-take (suc off) n zero buf h = absurd (omega arith)
slice-take (suc off) n (suc k) [] h = refl
slice-take (suc off) n (suc k) (b ∷ buf) h = slice-take off n k buf (omega arith)

-- An entry is read from the first 80 bytes.
unpack-take :
    (buf : Bytes) → 80 ≤ length buf → unpack_vector_entry buf ≡ unpack_vector_entry (take 80 buf)
unfolding unpack_vector_entry
unpack-take buf h =
    let long : ltb (length buf) 80 ≡ false = ground arith in
    let cut : length (take 80 buf) ≡ 80 = omega (arith, length-take 80 buf) in
    rw
      (
        long,
        cut,
        slice-take 0 64 80 buf (omega arith),
        slice-take 64 4 80 buf (omega arith),
        slice-take 68 2 80 buf (omega arith),
        slice-take 70 1 80 buf (omega arith),
        slice-take 71 1 80 buf (omega arith),
        slice-take 72 8 80 buf (omega arith),
      )
      refl

unpack-at :
    (offset : ℕ) (e : VectorEntry) (page : Bytes)
    → Entry.InRange e
    → offset + 80 ≤ length page
    → slice offset 80 page ≡ pack_vector_entry e
    → unpack_vector_entry (drop offset page) ≡ ok e
unfolding slice
unpack-at offset e page r h same =
    unpack-take (drop offset page) (omega (arith, length-drop offset page))
    ∙ ap unpack_vector_entry same
    ∙ unpack-pack_vector_entry e r

-- Entries packed one behind the other.
record Packed (offset : ℕ) (entries : List VectorEntry) (before page : Bytes) : Type 0 where
  full : length page ≡ length before
  kept : (lo n : ℕ) → lo + n ≤ offset → slice lo n page ≡ slice lo n before
  entries_back : unpack_entries (length entries) offset page ≡ ok entries

pack_entries-Packed :
    (offset : ℕ) (entries : List VectorEntry) (before : Bytes)
    → All Entry.InRange entries
    → length before ≡ page_size
    → offset + 80 * length entries ≤ page_size
    → (page : Bytes) × (pack_entries offset entries before ≡ ok page)
      × Packed offset entries before page
unfolding pack_entries unpack_entries
pack_entries-Packed offset [] before all full fit =
    (before, refl, record { full = refl; kept = λ lo n h. refl; entries_back = refl })
pack_entries-Packed offset (e ∷ entries) before all full fit =
    let written = copy_at offset (pack_vector_entry e) before in
    let same_length : length written ≡ length before =
      length-copy_at offset (pack_vector_entry e) before in
    let (page, packs, rest) =
      pack_entries-Packed (offset + 80) entries written all.1 (omega arith) (omega arith) in
    let here : slice offset 80 page ≡ pack_vector_entry e =
      rest.kept offset 80 (omega arith)
      ∙ slice-copy_at offset 80 (pack_vector_entry e) before (length-pack_vector_entry e)
          (omega arith) in
    let first = unpack-at offset e page all.0 (omega (arith, rest.full)) here in
    (
      page,
      ground (arith, packs),
      record {
        full = rest.full ∙ same_length;
        kept = λ lo n h.
            rest.kept lo n (omega arith)
            ∙ slice-copy_at_before lo n offset (pack_vector_entry e) before h;
        entries_back = rw (first, rest.entries_back);
      },
    )

pack_entries-too_many :
    (offset : ℕ) (entries : List VectorEntry) (page : Bytes)
    → offset ≤ page_size
    → page_size < offset + 80 * length entries
    → pack_entries offset entries page ≡ err Error.too_many_entries
unfolding pack_entries
pack_entries-too_many offset [] page h k = absurd (omega arith)
pack_entries-too_many offset (e ∷ entries) page h k =
    elim (Bool-cases (ltb page_size (offset + 80))) [
      | inl full ↦ rw full refl
      | inr fits ↦
          rw fits (pack_entries-too_many (offset + 80) entries _ (ground arith) (omega arith))
    ]

-- Pages of one length that agree from an offset on give the same entries.
drop-same :
    (offset : ℕ) (p q : Bytes)
    → length p ≡ length q
    → ((lo n : ℕ) → offset ≤ lo → slice lo n p ≡ slice lo n q)
    → (lo : ℕ) → offset ≤ lo
    → drop lo p ≡ drop lo q
unfolding slice
drop-same offset p q l same lo h =
    sym (take_all (length p) (drop lo p) (omega (arith, length-drop lo p)))
    ∙ same lo (length p) h
    ∙ take_all (length p) (drop lo q) (omega (arith, length-drop lo q))

unpack_entries-same :
    (n offset : ℕ) (p q : Bytes)
    → ((lo : ℕ) → offset ≤ lo → drop lo p ≡ drop lo q)
    → unpack_entries n offset p ≡ unpack_entries n offset q
unfolding unpack_entries
unpack_entries-same zero offset p q same = refl
unpack_entries-same (suc n) offset p q same = rw (
  same offset (omega arith),
  unpack_entries-same n (offset + 80) p q (λ lo h. same lo (omega arith)),
)

abbrev vector_header : List VectorEntry → PageHeader
vector_header entries = record (new_page_header vector_page) { count = length entries % 2 ^ 16 }

vector_header-InRange : (entries : List VectorEntry) → Header.InRange (vector_header entries)
unfolding new_page_header
vector_header-InRange entries = record {
  kind = omega arith;
  flags = omega arith;
  count = omega arith;
  next_page = omega arith;
  checksum = omega arith;
}

-- A sealed page whose bytes behind the header are `page`'s, once it has been read.
sealed_entries :
    (crc32 : Bytes → ℕ) (h : PageHeader) (page : Bytes) (n : ℕ)
    → length page ≡ page_size
    → unpack_entries n 64 (seal_page crc32 h page) ≡ unpack_entries n 64 page
sealed_entries crc32 h page n full = unpack_entries-same n 64 (seal_page crc32 h page) page (
    drop-same 64 (seal_page crc32 h page) page (length-seal_page crc32 h page full ∙ sym full)
      (slice-seal_page crc32 h page full))

module _ (crc32 : Bytes → ℕ) (bounded : (bs : Bytes) → crc32 bs < 2 ^ 32) where
  read_sealed :
      (p : ℕ) (s : Storage) (entries : List VectorEntry) (page : Bytes)
      → length page ≡ page_size
      → length entries < 2 ^ 16
      → unpack_entries (length entries) 64 page ≡ ok entries
      → read_page p s ≡ ok (seal_page crc32 (vector_header entries) page)
      → read_vector_page crc32 p s ≡ ok entries
  unfolding read_vector_page new_page_header
  read_sealed p s entries page full few back reads =
      let h = vector_header entries in
      let count : length entries % 2 ^ 16 ≡ length entries = omega arith in
      let header =
        deserialize_header-seal_page crc32 h page full bounded (vector_header-InRange entries) in
      rw (reads, verify-seal_page crc32 h page full bounded, header)
        (sealed_entries crc32 h page (length entries % 2 ^ 16) full
          ∙ ap (λ (n : ℕ). unpack_entries n 64 page) count
          ∙ back)

  -- On a valid storage, up to 50 entries that are written to a page inside the file are read back
  -- from it in order, and every other page is read as before; more entries are refused, and the
  -- storage is as it was. The fields of the entries are in the ranges of their Go types, and
  -- checksums fit their width.
  pub write-read_vector_page :
      (p : ℕ) (entries : List VectorEntry) (s : Storage)
      → IsValid s
      → p < page_count s
      → All Entry.InRange entries
      → let (r, s') = write_vector_page crc32 p entries s in
        (length entries ≤ 50
          → (r ≡ ok tt)
            × (read_vector_page crc32 p s' ≡ ok entries)
            × ((q : ℕ) → q < page_count s → q ≢ p → read_page q s' ≡ read_page q s))
        × (50 < length entries → (r ≡ err Error.too_many_entries) × (s' ≡ s))
  unfolding write_vector_page
  write-read_vector_page p entries s v k all = (
    λ few.
        let (page, packs, packed) =
          pack_entries-Packed 64 entries (replicate page_size 0) all
            (length-replicate {A = ℕ} page_size 0) (omega (arith, few)) in
        let full : length page ≡ page_size = packed.full ∙ length-replicate {A = ℕ} page_size 0 in
        let (fine, valid, back, others) =
          write-read_page p (seal_page crc32 (vector_header entries) page) s v k
            (length-seal_page crc32 (vector_header entries) page full) in
        rw (write_vector_page, packs)
          (
            fine,
            read_sealed p _ entries page full (omega (arith, few)) packed.entries_back back,
            others,
          ),
    λ many.
        rw
          (
            write_vector_page,
            pack_entries-too_many 64 entries (replicate page_size 0) (omega arith)
                (omega (arith, many)),
          )
          (refl, refl),
  )

module _ (crc32 : Bytes → ℕ) (bounded : (bytes : Bytes) → crc32 bytes < 2 ^ 32) where
  -- A page in the file that holds one entry.
  pub read_vector_page-single :
      (p : ℕ) (s : Storage) (header : PageHeader) (page : Bytes) (e : VectorEntry)
      → length page ≡ page_size
      → Header.InRange header
      → header.kind ≡ vector_page
      → header.count ≡ 1
      → Entry.InRange e
      → slice 64 80 page ≡ pack_vector_entry e
      → read_page p s ≡ ok (seal_page crc32 header page)
      → read_vector_page crc32 p s ≡ ok (e ∷ [])
  unfolding read_vector_page unpack_entries
  read_vector_page-single p s header page e full range kind one_entry fits here there =
      let verified = verify-seal_page crc32 header page full bounded in
      let back = deserialize_header-seal_page crc32 header page full bounded range in
      let entry =
        unpack-at 64 e (seal_page crc32 header page) fits
          (omega (arith, length-seal_page crc32 header page full))
          (slice-seal_page crc32 header page full 64 80 (omega arith) ∙ here) in
      let test : (header.kind == vector_page) ≡ true = ground (arith, kind) in
      let sealed = seal_page crc32 header page in
      let single : unpack_entries 1 64 sealed ≡ ok (e ∷ []) = rw entry refl in
      rw (there, verified, back, test)
        (ap (λ (n : ℕ). unpack_entries n 64 sealed) one_entry ∙ single)
