-- ===== src/Vectors/Single.antt =====
-- A vector that is written to a page of its own is loaded again.
use magpie_db.Common.{
  ℕ, ◌+◌, ◌-◌, ◌*◌, ◌/◌, ◌%◌, ◌^◌, ◌≤◌, ◌<◌, ◌≡◌, refl, ap, ◌∙◌, ◌≢◌, inl, inr, true, false, Option,
  some, List, [], ◌∷◌, arith, ltb, Bool-cases, GoString, ◌==◌, eq_refl, ℕ-Eq, GoString-Eq, length,
  ok,
}
use mathlib.Core.List.{append-nil}
use magpie_db.Dict
use magpie_db.Dict.{Dict}
use magpie_db.Bytes.{Bytes, copy_at, slice}
use magpie_db.Bytes.Copy.{length-copy_at, slice-copy_at, slice-copy_at_before, length-slice}
use magpie_db.Page.{
  page_size, vector_page, PageHeader, new_page_header, deserialize_header, VectorEntry,
  pack_vector_entry, seal_page, serialize_vector, pack_id_string, extract_id_string, uint_at,
}
use magpie_db.Page.Header
use magpie_db.Page.Entry
use magpie_db.Page.Entry.{
  NoZero, length-pack_vector_entry, length-pack_id_string, extract-pack_id_string,
}
use magpie_db.Page.Vector.{AreFloats, length-serialize_vector, deserialize-serialize_vector}
use magpie_db.Page.Seal.{length-seal_page, slice-seal_page}
use magpie_db.Storage.{Storage, read_page, write_page, page_count, read_vector_page}
use magpie_db.Storage.Pages.{IsValid, content, read_page-ok, write-read_page}
use magpie_db.Storage.Vectors.{read_vector_page-single}
use magpie_db.Wal.{WalLib}
use magpie_db.Persist.Bits.{copy_over_zeros}
use magpie_db.Vectors.{
  page_to_change, header_to_change, with_vector, write_vector_to_page, read_vector_data,
  load_metadata_from_page, entry_metadata, find_entry, load_vector, load_entry, new_entry,
}

-- What a page can hold under an ID that is read back.
pub record Storable (id : GoString) (vector : List ℕ) : Type 0 where
  pub some_id : 0 < length id
  pub short_id : length id ≤ 63
  pub no_zero : NoZero id
  pub floats : AreFloats vector
  pub fits : 144 + 4 * length vector ≤ page_size

module _ {M : Type 0} (lib : WalLib M) (bounded : (bytes : Bytes) → lib.crc32 bytes < 2 ^ 32) where
  abbrev first_header : PageHeader
  first_header = record (new_page_header vector_page) { count = 1 }

  abbrev placed : GoString → List ℕ → ℕ → VectorEntry
  placed id vector meta = record (new_entry lib id vector meta) { offset = 144 }

  abbrev filled : GoString → List ℕ → ℕ → Bytes → Bytes
  filled id vector meta page =
      copy_at 144 (serialize_vector vector)
        (copy_at 64 (pack_vector_entry (placed id vector meta)) page)

  with_vector-new :
      (id : GoString) (vector : List ℕ) (meta : ℕ) (page : Bytes)
      → with_vector lib.crc32
          (new_page_header vector_page)
          (new_entry lib id vector meta)
          (serialize_vector vector)
          page
        ≡ seal_page lib.crc32 first_header (filled id vector meta page)
  unfolding with_vector new_page_header
  with_vector-new id vector meta page = refl

  header_to_change-new :
      (page : Bytes)
      → length page ≡ page_size
      → uint_at 0 1 page ≢ vector_page
      → header_to_change page ≡ new_page_header vector_page
  unfolding header_to_change deserialize_header
  header_to_change-new page full other = ground (arith, full, other)

  page_to_change-full :
      (page : Bytes) → length page ≡ page_size → page_to_change (ok page) ≡ ok page
  unfolding page_to_change
  page_to_change-full page full =
      let none_left : page_size - length page ≡ 0 = omega (arith, full) in
      ap ok (copy_over_zeros page_size page (omega (arith, full)) ∙ rw none_left (append-nil page))

  -- The metadata of another page is as before.
  entry_metadata-same :
      (q : ℕ) (s s' : Storage)
      → (q ≢ 0 → read_page q s' ≡ read_page q s)
      → entry_metadata lib q s' ≡ entry_metadata lib q s
  unfolding entry_metadata load_metadata_from_page
  entry_metadata-same q s s' same = elim (Bool-cases (q == 0)) [
    | inl none_there ↦ rw none_there refl
    | inr there ↦ rw (there, same (λ e. ground (arith, e))) refl
  ]

  write-page_step :
      (p : ℕ) (id : GoString) (vector : List ℕ) (meta : ℕ) (page : Bytes) (s : Storage)
      → read_page p s ≡ ok page
      → page_to_change (ok page) ≡ ok page
      → header_to_change page ≡ new_page_header vector_page
      → ltb page_size (144 + length (serialize_vector vector)) ≡ false
      → (write_page p (seal_page lib.crc32 first_header (filled id vector meta page)) s).0 ≡ ok tt
      → write_vector_to_page lib.crc32 p (new_entry lib id vector meta) (serialize_vector vector) s
        ≡ (
          ok tt,
          (write_page p (seal_page lib.crc32 first_header (filled id vector meta page)) s).1,
        )
  unfolding write_vector_to_page new_page_header
  write-page_step p id vector meta page s there same header small done =
      rw
        (
          write_vector_to_page,
          there,
          same,
          header,
          small,
          with_vector-new id vector meta page,
          done,
        )
        refl

  first_header-InRange : Header.InRange first_header
  unfolding new_page_header
  first_header-InRange = record {
    kind = omega arith;
    flags = omega arith;
    count = omega arith;
    next_page = omega arith;
    checksum = omega arith;
  }

  placed-InRange :
      (id : GoString) (vector : List ℕ) (meta : ℕ)
      → meta < 2 ^ 64
      → Entry.InRange (placed id vector meta)
  placed-InRange id vector meta h = record {
    id = length-pack_id_string id;
    offset = omega arith;
    length = omega arith;
    flags = omega arith;
    reserved = omega arith;
    metadata = h;
  }

  pages_fit : {q : ℕ} (s : Storage) → IsValid s → q < page_count s → q < 2 ^ 64
  unfolding page_count
  pages_fit s v h = omega (arith, v.fits)

  entry_stands :
      (id : GoString) (vector : List ℕ) (meta : ℕ) (page : Bytes)
      → length page ≡ page_size
      → slice 64 80 (filled id vector meta page) ≡ pack_vector_entry (placed id vector meta)
  entry_stands id vector meta page full =
      slice-copy_at_before 64 80 144 (serialize_vector vector) _ (omega arith)
      ∙ slice-copy_at 64 80 (pack_vector_entry (placed id vector meta)) page
          (length-pack_vector_entry (placed id vector meta)) (omega (arith, full))

  data_stands :
      (p : ℕ) (id : GoString) (vector : List ℕ) (meta : ℕ) (page : Bytes) (s : Storage)
      → length page ≡ page_size
      → Storable id vector
      → read_page p s ≡ ok (seal_page lib.crc32 first_header (filled id vector meta page))
      → read_vector_data p 144 (length vector % 2 ^ 16 * 4) s ≡ ok (serialize_vector vector)
  unfolding read_vector_data
  data_stands p id vector meta page s full st there =
      let size = length-serialize_vector vector in
      let k = length vector % 2 ^ 16 * 4 in
      let four : length (serialize_vector vector) ≡ k = omega (arith, size, st.fits) in
      let before = copy_at 64 (pack_vector_entry (placed id vector meta)) page in
      let full' : length before ≡ page_size =
        length-copy_at 64 (pack_vector_entry (placed id vector meta)) page ∙ full in
      let small : ltb page_size (144 + k) ≡ false = ground (arith, st.fits, size, four) in
      let bytes : slice 144 k (seal_page lib.crc32 first_header (filled id vector meta page))
          ≡ serialize_vector vector =
        slice-seal_page lib.crc32 first_header (filled id vector meta page)
          (length-copy_at 144 (serialize_vector vector) before ∙ full') 144 k (omega arith)
        ∙ slice-copy_at 144 k (serialize_vector vector) before four
            (omega (arith, full', st.fits, size, four)) in
      rw (there, small) (ap ok bytes)

  found_there :
      (id : GoString) (vector : List ℕ) (meta : ℕ)
      → Storable id vector
      → find_entry id (placed id vector meta ∷ []) ≡ some (placed id vector meta)
  unfolding find_entry
  found_there id vector meta st =
      let own : (extract_id_string (pack_id_string id) == id) ≡ true =
        rw (extract-pack_id_string id st.some_id (omega (arith, st.short_id)) st.no_zero)
          (eq_refl id) in
      rw own refl

  load_step :
      (p : ℕ) (id : GoString) (vector : List ℕ) (meta : ℕ) (m : Option M) (s : Storage)
      (pages : Dict GoString ℕ)
      → Dict.get id pages ≡ some p
      → read_vector_page lib.crc32 p s ≡ ok (placed id vector meta ∷ [])
      → Storable id vector
      → read_vector_data p 144 (length vector % 2 ^ 16 * 4) s ≡ ok (serialize_vector vector)
      → entry_metadata lib meta s ≡ ok m
      → load_vector lib id (record { storage = s; vector_pages = pages }) ≡ ok (vector, m)
  unfolding load_vector load_entry
  load_step p id vector meta m s pages at_page entries st bytes metadata =
      let one : load_entry lib id p s (placed id vector meta ∷ []) ≡ ok (vector, m) =
        rw
          (
            load_entry,
            found_there id vector meta st,
            bytes,
            metadata,
            deserialize-serialize_vector vector st.floats,
          )
          refl in
      rw (load_vector, at_page, entries) one

  -- A vector that is written to a page of a valid storage that is not yet a vector page is loaded
  -- again, with the metadata of its entry, through any page map that has its ID at that page. The ID
  -- has 1 to 63 bytes, none of them zero; the vector is of 32-bit patterns and fits the page; the
  -- metadata page is none, or another page of the storage whose metadata can be read; checksums fit
  -- 32 bits. The storage stays valid.
  pub load-write_vector :
      (id : GoString) (vector : List ℕ) (meta p : ℕ) (m : Option M) (s : Storage)
      → IsValid s
      → p < page_count s
      → uint_at 0 1 (content p s) ≢ vector_page
      → Storable id vector
      → meta < page_count s
      → meta ≢ p
      → entry_metadata lib meta s ≡ ok m
      → (s' : Storage) × (write_vector_to_page lib.crc32 p
            (new_entry lib id vector meta)
            (serialize_vector vector)
            s
          ≡ (ok tt, s'))
        × IsValid s'
        × ((pages : Dict GoString ℕ)
            → Dict.get id pages ≡ some p
            → load_vector lib id (record { storage = s'; vector_pages = pages }) ≡ ok (vector, m))
  unfolding write_vector_to_page
  load-write_vector id vector meta p m s v inside other st known apart readable =
      let page = content p s in
      let room : p < s.size / page_size = unfold page_count in inside in
      let full : length page ≡ page_size =
        length-slice (p * page_size) page_size s.file
          (unfold page_count in omega (arith, inside, v.long)) in
      let there = read_page-ok p s v room in
      let size = length-serialize_vector vector in
      let fill = filled id vector meta page in
      let sealed = seal_page lib.crc32 first_header fill in
      let full' : length fill ≡ page_size =
        length-copy_at 144 (serialize_vector vector) _
        ∙ length-copy_at 64 (pack_vector_entry (placed id vector meta)) page
        ∙ full in
      let sealed_full = length-seal_page lib.crc32 first_header fill full' in
      let (done, v', back, others) = write-read_page p sealed s v inside sealed_full in
      let small : ltb page_size (144 + length (serialize_vector vector)) ≡ false =
        ground (arith, size, st.fits) in
      let header = header_to_change-new page full other in
      let same = page_to_change-full page full in
      (
        (write_page p sealed s).1,
        write-page_step p id vector meta page s there same header small done,
        v',
        λ pages at_page.
            load_step p id vector meta m _ pages at_page
              (read_vector_page-single lib.crc32 bounded p _ first_header fill
                (placed id vector meta) full' first_header-InRange (unfold new_page_header in refl)
                refl (placed-InRange id vector meta (pages_fit s v known))
                (entry_stands id vector meta page full) back)
              st (data_stands p id vector meta page _ full st back)
              (entry_metadata-same meta s _ (λ _. others meta known apart) ∙ readable),
      )
