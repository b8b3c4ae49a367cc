-- ===== src/Persist/Chain.antt =====
-- A chain of pages that is written is read back.
use magpie_db.Common.{
  ℕ, suc, ◌^◌, ◌≤◌, ◌<◌, ◌≡◌, refl, sym, ◌∙◌, ◌≢◌, false, some, List, [], ◌∷◌, ◌++◌, arith, ◌==◌,
  ℕ-Eq, GoString-Eq, length, take, drop, All, length-take, ok,
}
use magpie_db.Bytes.{Bytes}
use magpie_db.Storage.{Storage, read_page, write_page, page_count}
use magpie_db.Storage.Pages.{IsValid, write-read_page}
use magpie_db.Persist.{data_per_page, next_of, index_page_bytes, write_chain, read_chain}
use magpie_db.Persist.Bits.{padded, length-index_page_bytes, read_index_page-written}

-- The pages of a chain: inside the file, not page 0, and none of them twice.
abbrev pub Apart : ℕ → List ℕ → Type 0
Apart count [] = Unit
Apart count (p ∷ ps) = (0 < p) × (p < count) × All (λ q. q ≢ p) ps × Apart count ps

-- The data as it stands in the pages, with zeros behind it.
abbrev pub filled : List ℕ → Bytes → Bytes
filled [] bytes = []
filled (p ∷ ps) bytes = padded (take data_per_page bytes) ++ filled ps (drop data_per_page bytes)

module _ (crc32 : Bytes → ℕ) (bounded : (bytes : Bytes) → crc32 bytes < 2 ^ 32) where
  -- After a chain has been written.
  pub record Written (ps : List ℕ) (bytes : Bytes) (s s' : Storage) : Type 0 where
    pub valid : IsValid s'
    pub count : page_count s' ≡ page_count s
    pub reads : read_chain crc32 (length ps) (next_of ps) s' ≡ some (ok (filled ps bytes))
    pub others : (q : ℕ) → q < page_count s → All (λ p. p ≢ q) ps → read_page q s' ≡ read_page q s

  next_fits : (count : ℕ) (ps : List ℕ) → count < 2 ^ 64 → Apart count ps → next_of ps < 2 ^ 64
  next_fits count [] h a = omega arith
  next_fits count (p ∷ ps) h a = omega (arith, a.1)

  pages_fit : (s : Storage) → IsValid s → page_count s < 2 ^ 64
  unfolding page_count
  pages_fit s v = omega (arith, v.fits)

  write-page_count :
      (p : ℕ) (page : Bytes) (s : Storage) → page_count (write_page p page s).1 ≡ page_count s
  unfolding write_page page_count
  write-page_count p page s = ground arith

  -- A page that stands before the rest of its chain.
  read_chain-step :
      (p next n : ℕ) (chunk rest : Bytes) (s : Storage)
      → 0 < p
      → next < 2 ^ 64
      → length chunk ≤ data_per_page
      → read_page p s ≡ ok (index_page_bytes crc32 next chunk)
      → read_chain crc32 n next s ≡ some (ok rest)
      → read_chain crc32 (suc n) p s ≡ some (ok (padded chunk ++ rest))
  unfolding read_chain
  read_chain-step p next n chunk rest s some_page small h there behind =
      let not_zero : (p == 0) ≡ false = ground arith in
      rw
        (
          read_chain,
          read_index_page-written crc32 bounded p next chunk s small h there,
          behind,
          not_zero,
        )
        refl

  pub write_chain-Written :
      (ps : List ℕ) (bytes : Bytes) (s : Storage)
      → IsValid s
      → Apart (page_count s) ps
      → (s' : Storage) × (write_chain crc32 ps bytes s ≡ (ok tt, s')) × Written ps bytes s s'
  unfolding write_chain
  write_chain-Written [] bytes s v a = (
    s,
    refl,
    record { valid = v; count = refl; reads = unfold read_chain in refl; others = λ q k _. refl },
  )
  write_chain-Written (p ∷ ps) bytes s v a =
      let chunk = take data_per_page bytes in
      let page = index_page_bytes crc32 (next_of ps) chunk in
      let s1 = (write_page p page s).1 in
      let (done, v1, back, same) =
        write-read_page p page s v a.1 (length-index_page_bytes crc32 bounded (next_of ps) chunk) in
      let count1 : page_count s1 ≡ page_count s = write-page_count p page s in
      let (s', eq, w) = write_chain-Written ps (drop data_per_page bytes) s1 v1 (rw count1 a.3) in
      (
        s',
        rw (write_chain, done) eq,
        record {
          valid = w.valid;
          count = w.count ∙ count1;
          reads =
              read_chain-step p (next_of ps) (length ps) chunk
                (filled ps (drop data_per_page bytes)) s' a.0
                (next_fits (page_count s) ps (pages_fit s v) a.3)
                (omega (arith, length-take data_per_page bytes))
                (w.others p (rw count1 a.1) a.2 ∙ back) w.reads;
          others = λ q k apart. w.others q (rw count1 k) apart.1 ∙ same q k (λ e. apart.0 (sym e));
        },
      )
