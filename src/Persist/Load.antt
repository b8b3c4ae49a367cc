-- ===== src/Persist/Load.antt =====
-- An index that is persisted is loaded again.
use magpie_db.Common.{
  ℕ, zero, suc, ◌+◌, ◌-◌, ◌*◌, ◌/◌, ◌^◌, ◌≤◌, ◌<◌, ◌≡◌, refl, sym, ap, ◌∙◌, ◌≢◌, inl, inr, some,
  List, [], ◌∷◌, ◌++◌, arith, leb, Bool-cases, ℕ-Eq, GoString-Eq, length, take, drop, replicate,
  All, length-take, length-drop, take_all, take-append-drop, Result, ok,
}
use mathlib.Core.List.{append-nil, append_assoc}
use magpie_db.Bytes.{Bytes, put_uint}
use magpie_db.Page.{page_size}
use magpie_db.Storage.{Storage, Calls, allocate_page, page_count}
use magpie_db.Storage.Pages.{IsValid}
use magpie_db.Storage.Allocation.{IsResize, allocate_page-Allocated}
use magpie_db.Storage.Growth.{Succeed, grown, allocate_page-grown}
use magpie_db.Index.{Index, new_index}
use magpie_db.Index.Codec.{serialize, deserialize, write_u32}
use magpie_db.Index.Codec.Roundtrip.{Fits, deserialize-serialize}
use magpie_db.Index.Graph.Invariant as Graph
use magpie_db.Persist.{
  data_per_page, allocate_pages, write_chain, persist_bytes, persist_index, read_chain, trim_zeros,
  load_index,
}
use magpie_db.Persist.Bits.{trim-zeros}
use magpie_db.Persist.Chain.{Apart, filled, write_chain-Written}

-- Pages that are just enough hold the data, with zeros behind it.
filled-zeros :
    (ps : List ℕ) (bytes : Bytes)
    → length bytes ≤ length ps * data_per_page
    → length ps * data_per_page < length bytes + data_per_page
    → (k : ℕ) × (filled ps bytes ≡ bytes ++ replicate k 0)
filled-zeros [] [] hi lo = (0, refl)
filled-zeros [] (b ∷ bytes) hi lo = absurd (omega arith)
filled-zeros (p ∷ ps) bytes hi lo = elim (Bool-cases (leb data_per_page (length bytes))) [
  | inl full ↦
      let size : data_per_page ≤ length bytes = ground arith in
      let left = length-drop data_per_page bytes in
      let (k, eq) =
        filled-zeros ps (drop data_per_page bytes) (omega (arith, left, hi))
          (omega (arith, left, lo)) in
      let taken : data_per_page - length (take data_per_page bytes) ≡ 0 =
        omega (arith, length-take data_per_page bytes, size) in
      (
        k,
        rw (taken, append-nil (take data_per_page bytes), eq)
            (sym
                (append_assoc (take data_per_page bytes) (drop data_per_page bytes) (replicate k 0))
              ∙ ap (λ (x : Bytes). x ++ replicate k 0) (take-append-drop data_per_page bytes)),
      )
  | inr short ↦
      let size : length bytes < data_per_page = ground arith in
      last ps (omega (arith, lo, size)) (take_all data_per_page bytes (omega (arith, size)))
]
  where
    last :
        (rest : List ℕ)
        → length rest ≡ 0
        → take data_per_page bytes ≡ bytes
        → (k : ℕ) × (filled (p ∷ rest) bytes ≡ bytes ++ replicate k 0)
    last [] none_left whole = (
      data_per_page - length bytes,
      rw whole (append-nil (bytes ++ replicate (data_per_page - length bytes) 0)),
    )
    last (q ∷ rest) none_left whole = absurd (omega arith)

serialize_nonempty : (idx : Index) → 0 < length (serialize idx)
unfolding serialize write_u32 put_uint
serialize_nonempty idx = omega arith

-- The numbers from `n` on.
upward : ℕ → ℕ → List ℕ
upward n zero = []
upward n (suc k) = n ∷ upward (n + 1) k

length-upward : (n k : ℕ) → length (upward n k) ≡ k
unfolding upward
length-upward n zero = refl
length-upward n (suc k) = ap suc (length-upward (n + 1) k)

upward-above : (p n k : ℕ) → p < n → All (λ q. q ≢ p) (upward n k)
unfolding upward
upward-above p n zero h = tt
upward-above p n (suc k) h =
    (λ e. absurd (omega (arith, e)), upward-above p (n + 1) k (omega arith))

upward-Apart : (count n k : ℕ) → 0 < n → n + k ≤ count → Apart count (upward n k)
unfolding upward
upward-Apart count n zero h l = tt
upward-Apart count n (suc k) h l = (
  h,
  omega arith,
  upward-above n (n + 1) k (omega arith),
  upward-Apart count (n + 1) k (omega arith) (omega arith),
)

module _ (resize : ℕ → Bytes → Bytes) (laws : IsResize resize) (os : ℕ → Calls)
    (succeeds : (i : ℕ) → Succeed (os i)) where
  step :
      (n p : ℕ) (ps : List ℕ) (s s1 s2 : Storage)
      → allocate_page resize (os n) s ≡ (ok p, s1)
      → allocate_pages resize os n s1 ≡ (ok ps, s2)
      → allocate_pages resize os (suc n) s ≡ (ok (p ∷ ps), s2)
  unfolding allocate_pages
  step n p ps s s1 s2 one rest =
      let page : (allocate_page resize (os n) s).0 ≡ ok p =
        ap (λ (x : Result ℕ × Storage). x.0) one in
      let after : (allocate_page resize (os n) s).1 ≡ s1 =
        ap (λ (x : Result ℕ × Storage). x.1) one in
      let pages : (allocate_pages resize os n s1).0 ≡ ok ps =
        ap (λ (x : Result (List ℕ) × Storage). x.0) rest in
      let last : (allocate_pages resize os n s1).1 ≡ s2 =
        ap (λ (x : Result (List ℕ) × Storage). x.1) rest in
      rw (allocate_pages, page, after, pages, last) refl

  allocate_pages-ok :
      (n : ℕ) (s : Storage)
      → IsValid s
      → s.free_list ≡ []
      → s.size + n * page_size < 2 ^ 63
      → (s' : Storage) × (allocate_pages resize os n s ≡ (ok (upward (page_count s) n), s'))
        × IsValid s'
        × (page_count s' ≡ page_count s + n)
  unfolding allocate_pages upward
  allocate_pages-ok zero s v none_free room = (s, refl, v, omega arith)
  allocate_pages-ok (suc n) s v none_free room =
      let one =
        allocate_page-grown resize (os n) (succeeds n) s v none_free (omega (arith, room)) in
      let a =
        allocate_page-Allocated resize laws (os n) (page_count s) s (grown resize s) v
          (omega (arith, room)) one in
      let more : page_count (grown resize s) ≡ page_count s + 1 =
        unfold grown page_count in omega arith in
      let (s', eq, v', count) =
        allocate_pages-ok n (grown resize s) a.valid (unfold grown in none_free)
          (unfold grown in omega (arith, room)) in
      (
        s',
        step n (page_count s) (upward (page_count s + 1) n) s (grown resize s) s' one
            (eq ∙ ap (λ (k : ℕ). (ok (upward k n), s')) more),
        v',
        omega (arith, count, more),
      )

  module _ (crc32 : Bytes → ℕ) (bounded : (bytes : Bytes) → crc32 bytes < 2 ^ 32) where
    -- A number of pages that `persistIndex` takes for the data.
    persist_bytes-Written :
        (bytes : Bytes) (root n : ℕ) (s : Storage)
        → (length bytes + data_per_page - 1) / data_per_page ≡ suc n
        → IsValid s
        → s.free_list ≡ []
        → s.size + n * page_size < 2 ^ 63
        → 0 < root
        → root < page_count s
        → (s' : Storage) × (persist_bytes resize crc32 os bytes root s ≡ (ok tt, s'))
          × IsValid s'
          × (read_chain crc32 (suc n) root s'
              ≡ some (ok (filled (root ∷ upward (page_count s) n) bytes)))
    unfolding persist_bytes
    persist_bytes-Written bytes root n s pages v none_free room some_root inside =
        let (s1, allocated, v1, count) = allocate_pages-ok n s v none_free room in
        let ps = upward (page_count s) n in
        let apart : Apart (page_count s1) (root ∷ ps) = (
          some_root,
          omega (arith, count, inside),
          upward-above root (page_count s) n inside,
          upward-Apart (page_count s1) (page_count s) n (omega (arith, inside))
              (omega (arith, count)),
        ) in
        let (s', written, w) = write_chain-Written crc32 bounded (root ∷ ps) bytes s1 v1 apart in
        (
          s',
          persist_step bytes root n ps s s1 s' pages allocated written,
          w.valid,
          ap (λ (k : ℕ). read_chain crc32 (suc k) root s') (sym (length-upward (page_count s) n))
              ∙ w.reads,
        )
      where
        persist_step :
            (bytes : Bytes) (root n : ℕ) (ps : List ℕ) (s s1 s' : Storage)
            → (length bytes + data_per_page - 1) / data_per_page ≡ suc n
            → allocate_pages resize os n s ≡ (ok ps, s1)
            → write_chain crc32 (root ∷ ps) bytes s1 ≡ (ok tt, s')
            → persist_bytes resize crc32 os bytes root s ≡ (ok tt, s')
        persist_step bytes root n ps s s1 s' pages allocated written =
            let got : (allocate_pages resize os n s).0 ≡ ok ps =
              ap (λ (x : Result (List ℕ) × Storage). x.0) allocated in
            let after : (allocate_pages resize os n s).1 ≡ s1 =
              ap (λ (x : Result (List ℕ) × Storage). x.1) allocated in
            rw (persist_bytes, pages, got, after) written

    load_read :
        (fuel root k : ℕ) (idx : Index) (s : Storage)
        → read_chain crc32 fuel root s ≡ some (ok (serialize idx ++ replicate k 0))
        → trim_zeros (serialize idx) ≡ serialize idx
        → deserialize (serialize idx) (new_index 16 200) ≡ ok idx
        → load_index crc32 fuel root s ≡ some (ok idx)
    unfolding load_index
    load_read fuel root k idx s reads nonzero back =
        rw (load_index, reads, trim-zeros (serialize idx) k, nonzero, back) refl

    -- An index that is persisted is loaded again as it was. The index holds what `Built-IsValid` says,
    -- its numbers and lengths fit a uint32, and its last byte is not 0; the storage is valid with no
    -- free page, the root is one of its pages but not page 0, and the size with the new pages, all but
    -- the first that the data needs, stays below 2^63; the system calls succeed, and checksums fit 32 bits. As many rounds of the reading
    -- loop as there are pages are enough.
    pub load_index-persist_index :
        (idx : Index) (root : ℕ) (s : Storage)
        → Graph.IsValid idx
        → Fits idx
        → trim_zeros (serialize idx) ≡ serialize idx
        → IsValid s
        → s.free_list ≡ []
        → s.size + ((length (serialize idx) + data_per_page - 1) / data_per_page - 1) * page_size
          < 2 ^ 63
        → 0 < root
        → root < page_count s
        → (s' : Storage) × (persist_index resize crc32 os idx root s ≡ (ok tt, s'))
          × IsValid s'
          × (load_index crc32 ((length (serialize idx) + data_per_page - 1) / data_per_page) root s'
              ≡ some (ok idx))
    unfolding persist_index load_index
    load_index-persist_index idx root s v f nonzero vs none_free room some_root inside =
        let bytes = serialize idx in
        let n = (length bytes + data_per_page - 1) / data_per_page - 1 in
        let long : 0 < length bytes = serialize_nonempty idx in
        let pages : (length bytes + data_per_page - 1) / data_per_page ≡ suc n =
          omega (arith, long) in
        let (s', done, v', reads) =
          persist_bytes-Written bytes root n s pages vs none_free room some_root inside in
        let size = length-upward (page_count s) n in
        let (k, eq) =
          filled-zeros (root ∷ upward (page_count s) n) bytes (omega (arith, size, long))
            (omega (arith, size, long)) in
        (
          s',
          done,
          v',
          ap (λ (i : ℕ). load_index crc32 i root s') pages
              ∙ load_read (suc n) root k idx s' (reads ∙ ap (λ (x : Bytes). some (ok x)) eq) nonzero
                  (deserialize-serialize idx 16 200 v f),
        )
