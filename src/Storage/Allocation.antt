-- ===== src/Storage/Allocation.antt =====
-- The page allocator: new pages, freed pages, and pages freed twice.
use magpie_db.Common.{
  ℕ, ◌+◌, ◌*◌, ◌/◌, ◌%◌, ◌^◌, ◌≤◌, ◌<◌, ◌≡◌, refl, sym, ap, ◌∙◌, inl, inr, true, false, List, [],
  ◌∷◌, arith, ltb, leb, if◌then◌else◌, Bool-cases, ℕ-Eq, GoString-Eq, length, All, Result, ok,
}
use mathlib.Core.Path.{subst}
use magpie_db.Bytes.{Bytes, slice}
use magpie_db.Page.{page_size}
use magpie_db.Storage.{
  Storage, Calls, Mapping, new_storage, init, allocate_page, extend, free_page, page_count,
  read_page,
}
use magpie_db.Storage.Pages.{IsValid, read_page-ok}

-- What `Truncate` does to the content of a file: the new length, and the bytes before it kept.
pub record IsResize (resize : ℕ → Bytes → Bytes) : Type 0 where
  pub length_is : (n : ℕ) (file : Bytes) → length (resize n file) ≡ n
  pub keeps :
      (n lo k : ℕ) (file : Bytes)
      → lo + k ≤ n
      → lo + k ≤ length file
      → slice lo k (resize n file) ≡ slice lo k file

-- The page `p` was handed out, and every page that was there is still there with its bytes.
pub record Allocated (s : Storage) (p : ℕ) (s' : Storage) : Type 0 where
  pub valid : IsValid s'
  pub inside : p < page_count s'
  pub kept : (q : ℕ) → q < page_count s → (q < page_count s') × (read_page q s' ≡ read_page q s)
  pub fresh : s.free_list ≡ [] → p ≡ page_count s

module _ (resize : ℕ → Bytes → Bytes) (laws : IsResize resize) where
  extended : ℕ → Storage → Storage
  extended size s = record s { file = resize size s.file; mapping = Mapping.live; size = size }

  extend-ok :
      (os : Calls) (p : ℕ) (s s' : Storage)
      → extend resize os s ≡ (ok p, s')
      → (p ≡ s.size / page_size) × (s' ≡ extended ((s.size + page_size) % 2 ^ 64) s)
  unfolding extend extended
  extend-ok os p s s' h = ground arith

  extended-IsValid :
      (s : Storage)
      → IsValid s
      → s.size + page_size < 2 ^ 63
      → IsValid (extended (s.size + page_size) s)
  unfolding extended
  extended-IsValid s v room = record {
    mapped = refl;
    opened = v.opened;
    long = omega (arith, laws.length_is (s.size + page_size) s.file);
    fits = room;
    free = All-imp s.free_list v.free;
  }
    where
      All-imp :
          (ps : List ℕ)
          → All (λ p. p < s.size / page_size) ps
          → All (λ p. p < (s.size + page_size) / page_size) ps
      All-imp [] h = tt
      All-imp (p ∷ ps) h = (omega (arith, h.0), All-imp ps h.1)

  extended-Allocated :
      (s : Storage)
      → IsValid s
      → s.size + page_size < 2 ^ 63
      → Allocated s (s.size / page_size) (extended (s.size + page_size) s)
  unfolding page_count extended
  extended-Allocated s v room = record {
    valid = extended-IsValid s v room;
    inside = omega arith;
    kept = λ q k. (
      omega (arith, k),
      read_page-ok q _ (extended-IsValid s v room) (omega (arith, k))
          ∙ ap ok (
              laws.keeps (s.size + page_size) (q * page_size) page_size s.file (omega (arith, k))
                (omega (arith, k, v.long)))
          ∙ sym (read_page-ok q s v k),
    );
    fresh = λ e. refl;
  }

  reused-Allocated :
      (s : Storage) (p : ℕ) (rest : List ℕ)
      → IsValid s
      → s.free_list ≡ p ∷ rest
      → Allocated s p (record s { free_list = rest })
  unfolding page_count
  reused-Allocated s p rest v e =
      let free : All (λ q. q < s.size / page_size) (p ∷ rest) =
        subst (All (λ q. q < s.size / page_size)) e v.free in
      let valid : IsValid (record s { free_list = rest }) = record {
        mapped = v.mapped;
        opened = v.opened;
        long = v.long;
        fits = v.fits;
        free = free.1;
      } in
      record {
        valid = valid;
        inside = free.0;
        kept = λ q k. (k, read_page-ok q _ valid k ∙ sym (read_page-ok q s v k));
        fresh = λ none_free. absurd (ground arith);
      }

  -- When `AllocatePage` succeeds on a valid storage whose size stays below 2^63, whatever the
  -- system calls do: the storage is valid, the page is inside it, every page that was there is
  -- read as before, and with an empty free list the page is the one behind the last.
  pub allocate_page-Allocated :
      (os : Calls) (p : ℕ) (s s' : Storage)
      → IsValid s
      → s.size + page_size < 2 ^ 63
      → allocate_page resize os s ≡ (ok p, s')
      → Allocated s p s'
  unfolding allocate_page
  allocate_page-Allocated os p s s' v room h = go s.free_list refl h
    where
      go :
          (l : List ℕ)
          → s.free_list ≡ l
          → ◌≡◌ {A = Result ℕ × Storage}
              (elim l [
                | page_num ∷ rest ↦ (ok page_num, record s { free_list = rest })
                | [] ↦ extend resize os s
              ])
              (ok p, s')
          → Allocated s p s'
      go [] e k =
          let (page, storage) = extend-ok os p s s' k in
          let no_wrap : (s.size + page_size) % 2 ^ 64 ≡ s.size + page_size = omega arith in
          rw (page, storage, no_wrap) (extended-Allocated s v room)
      go (q ∷ rest) e k =
          let same : q ≡ p = ground arith in
          let storage : record s { free_list = rest } ≡ s' = ground arith in
          subst (Allocated s p) storage (reused-Allocated s p rest v (e ∙ ap (λ x. x ∷ rest) same))

  -- A page that is freed is the next to be handed out, and the storage is then as it was.
  pub allocate_page-free_page :
      (os : Calls) (p : ℕ) (s : Storage)
      → p < page_count s
      → let (r, freed) = free_page p s in (r ≡ ok tt) × (allocate_page resize os freed ≡ (ok p, s))
  unfolding free_page page_count allocate_page
  allocate_page-free_page os p s k = ground arith

  -- A page that is freed twice is handed out twice in a row.
  pub allocate_page_twice :
      (os : Calls) (p : ℕ) (s : Storage)
      → p < page_count s
      → let (r1, once) = free_page p s in
        let (r2, twice) = free_page p once in
        let (r3, s3) = allocate_page resize os twice in
        let (r4, s4) = allocate_page resize os s3 in
        (r1 ≡ ok tt) × (r2 ≡ ok tt) × (r3 ≡ ok p) × (r4 ≡ ok p)
  unfolding free_page page_count allocate_page
  allocate_page_twice os p s k =
      let inside : leb (s.size / page_size) p ≡ false = ground arith in
      rw (inside, inside) (refl, refl, refl, refl)

  prepared : Bytes → ℕ → Bytes
  prepared file size = if ltb (length file) size then resize size file else file

  init-ok :
      (os : Calls) (file : Bytes) (size : ℕ) (s s' : Storage)
      → init resize os file size s ≡ (ok tt, s')
      → (page_size ≤ size)
        × (s' ≡ record s {
          file = prepared file size;
          is_open = true;
          mapping = Mapping.live;
          size = size;
        })
  unfolding init prepared
  init-ok os file size s s' h = (ground arith, ground arith)

  prepared-keeps :
      (file : Bytes) (size lo k : ℕ)
      → lo + k ≤ size
      → lo + k ≤ length file
      → slice lo k (prepared file size) ≡ slice lo k file
  unfolding prepared
  prepared-keeps file size lo k h l = elim (Bool-cases (ltb (length file) size)) [
    | inl grows ↦ rw grows (laws.keeps size lo k file h l)
    | inr fits ↦ rw fits
  ]

  length-prepared : (file : Bytes) (size : ℕ) → size ≤ length (prepared file size)
  unfolding prepared
  length-prepared file size = elim (Bool-cases (ltb (length file) size)) [
    | inl grows ↦ rw grows (omega (arith, laws.length_is size file))
    | inr fits ↦ rw fits (ground arith)
  ]

  -- When `Init` succeeds on a new storage with a size below 2^63, the storage is valid, its pages
  -- are those of the size, and each page that the file held is read as it was in the file.
  pub init-IsValid :
      (os : Calls) (file : Bytes) (size : ℕ) (s' : Storage)
      → size < 2 ^ 63
      → init resize os file size new_storage ≡ (ok tt, s')
      → IsValid s'
        × (page_count s' ≡ size / page_size)
        × ((q : ℕ)
            → q < page_count s'
            → q * page_size + page_size ≤ length file
            → read_page q s' ≡ ok (slice (q * page_size) page_size file))
  unfolding page_count new_storage
  init-IsValid os file size s' fits h =
      let (_, e) = init-ok os file size new_storage s' h in
      let v : IsValid (record {
        file = prepared file size;
        is_open = true;
        mapping = Mapping.live;
        size = size;
        free_list = [];
      }) =
        record {
          mapped = refl;
          opened = refl;
          long = length-prepared file size;
          fits = fits;
          free = tt;
        } in
      rw e (
        v,
        refl,
        λ q k l.
            read_page-ok q _ v k
            ∙ ap ok (prepared-keeps file size (q * page_size) page_size (omega (arith, k)) l),
      )
