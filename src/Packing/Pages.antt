-- ===== src/Packing/Pages.antt =====
-- `PackVectorsIntoPages`: the pages hold all the vectors, in their order.
use magpie_db.Common.{
  ℕ, zero, suc, ◌+◌, ◌-◌, ◌*◌, ◌/◌, ◌%◌, ◌^◌, ◌≤◌, ◌<◌, ◌≡◌, refl, sym, ap, ◌∙◌, inl, inr, false,
  none, List, [], ◌∷◌, ◌++◌, arith, ltb, if◌then◌else◌, Bool-cases, ℕ-Eq, GoString-Eq, length, take,
  drop, All, length-take, length-drop, take_all, Result, ok, ◌>>=◌,
}
use native.Mathlib.Nat.{div-add-mod', mod-lt, mul-le-mul_right, zero-add, suc-add}
use magpie_db.Bytes.{Bytes}
use magpie_db.Page.{page_size}
use magpie_db.Packing.{
  VectorData, PackedVectorPage, calculate_vectors_per_page, pack_pages, pack_vectors_into_pages,
  serialize_packed_page, unpack_vectors_from_page,
}
use magpie_db.Packing.Unpack.{IsStorable, data_size, without_metadata, unpack-serialize_packed_page}

All-take :
    {M : Type 0} (n : ℕ) (vs : List (VectorData M)) (P : VectorData M → Type 0)
    → All P vs
    → All P (take n vs)
All-take zero vs P h = tt
All-take (suc n) [] P h = tt
All-take (suc n) (v ∷ vs) P h = (h.0, All-take n vs P h.1)

All-drop :
    {M : Type 0} (n : ℕ) (vs : List (VectorData M)) (P : VectorData M → Type 0)
    → All P vs
    → All P (drop n vs)
All-drop zero vs P h = h
All-drop (suc n) [] P h = tt
All-drop (suc n) (v ∷ vs) P h = All-drop n vs P h.1

without_metadata_split :
    {M : Type 0} (n : ℕ) (vs : List (VectorData M))
    → without_metadata (take n vs) ++ without_metadata (drop n vs) ≡ without_metadata vs
without_metadata_split zero vs = refl
without_metadata_split (suc n) [] = refl
without_metadata_split (suc n) (v ∷ vs) =
    ap (◌∷◌ (record v { metadata = none })) (without_metadata_split n vs)

drop_nil : {A : Type 0} (n : ℕ) → drop {A = A} n [] ≡ []
drop_nil zero = refl
drop_nil (suc n) = refl

drop_all : {A : Type 0} (n : ℕ) (xs : List A) → length xs ≤ n → drop n xs ≡ []
drop_all n [] h = drop_nil n
drop_all zero (x ∷ xs) h = absurd (omega (arith, h))
drop_all (suc n) (x ∷ xs) h = drop_all n xs (omega (arith, h))

drop-drop : {A : Type 0} (m n : ℕ) (xs : List A) → drop n (drop m xs) ≡ drop (m + n) xs
drop-drop zero n xs = simp zero-add
drop-drop (suc m) n [] = simp suc-add (drop_nil n)
drop-drop (suc m) n (x ∷ xs) = simp suc-add (drop-drop m n xs)

-- Every vector has `d` numbers.
abbrev pub Uniform : {M : Type 0} → ℕ → List (VectorData M) → Type 0
Uniform d = All (λ v. length v.vector ≡ d)

data_size-Uniform :
    {M : Type 0} (d : ℕ) (vs : List (VectorData M))
    → Uniform d vs
    → data_size vs ≡ length vs * (d * 4)
data_size-Uniform d [] h = omega arith
data_size-Uniform d (v ∷ vs) h = omega (arith, h.0, data_size-Uniform d vs h.1)

positive_quotient : (q s r n : ℕ) → q * s + r ≡ n → r < s → s ≤ n → 1 ≤ q
positive_quotient zero s r n e h k = absurd (omega (arith, e))
positive_quotient (suc q) s r n e h k = omega arith

quotient_fits : (n s : ℕ) → 0 < s → s ≤ n → (1 ≤ n / s) × (n / s * s ≤ n)
quotient_fits n s h k =
    let whole = div-add-mod' n s in
    (positive_quotient (n / s) s (n % s) n whole (mod-lt n h) k, omega (arith, whole))

rounded_up : (n k : ℕ) → 0 < k → (n ≤ (n + k - 1) / k * k) × ((n + k - 1) / k * k < n + k)
rounded_up n k h =
    let whole = div-add-mod' (n + k - 1) k in
    let rest = mod-lt (n + k - 1) h in (omega (arith, whole, rest), omega (arith, whole))

-- As many vectors as `CalculateVectorsPerPage` says fit into a page, when one does.
pub vectors_per_page_fits :
    (d : ℕ)
    → 146 + d * 4 ≤ page_size
    → (0 < calculate_vectors_per_page d)
      × (66 + calculate_vectors_per_page d * (80 + d * 4) ≤ page_size)
unfolding calculate_vectors_per_page
vectors_per_page_fits d h =
    let fits = quotient_fits 4030 (80 + d * 4) (omega arith) (omega arith) in
    let one : ltb (4030 / (80 + d * 4)) 1 ≡ false = ground (arith, fits.0) in
    rw one (fits.0, omega (arith, fits.1))

-- Every page as it is written, unpacked, one behind the other.
abbrev pub unpack_all :
    {M : Type 0} → (Bytes → ℕ) → List PackedVectorPage → Result (List (VectorData M))
unpack_all crc32 [] = ok []
unpack_all crc32 (page ∷ pages) = do
  written ← serialize_packed_page crc32 page
  vectors ← unpack_vectors_from_page crc32 written.0
  more ← unpack_all crc32 pages
  ok (vectors ++ more)

module _ (crc32 : Bytes → ℕ) (bounded : (bs : Bytes) → crc32 bs < 2 ^ 32) {M : Type 0} where
  chunk_fits :
      (d k : ℕ) (c : List (VectorData M))
      → 66 + k * (80 + d * 4) ≤ page_size
      → length c ≤ k
      → Uniform d c
      → 66 + 80 * length c + data_size c ≤ page_size
  chunk_fits d k c h few same =
      omega (arith, h, mul-le-mul_right (80 + d * 4) few, data_size-Uniform d c same)

  -- The vectors of the page `i`, as the source cuts them out.
  cut_chunk :
      (k first : ℕ) (vs : List (VectorData M))
      → take
          ((if ltb (length vs) (first + k) then length vs else first + k) - first)
          (drop first vs)
        ≡ take k (drop first vs)
  cut_chunk k first vs =
      let size = length-drop {0} first vs in
      elim (Bool-cases (ltb (length vs) (first + k))) [
        | inl short ↦ rw short (
            take_all (length vs - first) (drop first vs) (omega (arith, size))
            ∙ sym (take_all k (drop first vs) (ground (arith, size))))
        | inr long ↦ rw long (
            let e : first + k - first ≡ k = omega arith in ap (λ (n : ℕ). take n (drop first vs)) e)
      ]

  unpack_all-pack_pages :
      (d k n i : ℕ) (vs : List (VectorData M))
      → 66 + k * (80 + d * 4) ≤ page_size
      → All IsStorable vs
      → Uniform d vs
      → length vs ≤ (i + n) * k
      → unpack_all crc32 (pack_pages n i k vs) ≡ ok (without_metadata (drop (i * k) vs))
  unfolding pack_pages
  unpack_all-pack_pages d k zero i vs h s u many =
      let e : i + 0 ≡ i = omega arith in rw (drop_all (i * k) vs (rw e at many))
  unpack_all-pack_pages d k (suc n) i vs h s u many =
      let c = take k (drop (i * k) vs) in
      let cut = cut_chunk k (i * k) vs in
      let (bytes, page, writes, full, reads) =
        unpack-serialize_packed_page crc32 bounded c
          (All-take k (drop (i * k) vs) IsStorable (All-drop (i * k) vs IsStorable s))
          (chunk_fits d k c h (omega (arith, length-take {0} k (drop (i * k) vs)))
            (All-take k (drop (i * k) vs) _ (All-drop (i * k) vs _ u))) in
      let left : i + suc n ≡ i + 1 + n = omega arith in
      let next : (i + 1) * k ≡ i * k + k = omega arith in
      rw (cut, writes, reads, unpack_all-pack_pages d k n (i + 1) vs h s u (rw left at many))
        (ap ok (
          ap (λ x. without_metadata c ++ without_metadata x)
            (ap (λ (n : ℕ). drop n vs) next ∙ sym (drop-drop (i * k) k vs))
          ∙ without_metadata_split k (drop (i * k) vs)))

  length-pack_pages : (n i k : ℕ) (vs : List (VectorData M)) → length (pack_pages n i k vs) ≡ n
  unfolding pack_pages
  length-pack_pages zero i k vs = refl
  length-pack_pages (suc n) i k vs = ap suc (length-pack_pages n (i + 1) k vs)

  -- Vectors of one dimension, of which one fits into a page, with IDs of 1 to 64 bytes that hold no
  -- zero, are spread over as few pages of `CalculateVectorsPerPage` vectors as hold them, and the
  -- pages, written and unpacked one after the other, give back all the vectors in their order, without
  -- metadata.
  pub unpack-pack_vectors_into_pages :
      (d : ℕ) (vs : List (VectorData M))
      → 146 + d * 4 ≤ page_size
      → All IsStorable vs
      → Uniform d vs
      → let k = calculate_vectors_per_page d in
        let pages = pack_vectors_into_pages vs in
        (unpack_all crc32 pages ≡ ok (without_metadata vs))
        × (length vs ≤ length pages * k)
        × (length pages * k < length vs + k)
  unfolding pack_vectors_into_pages
  unpack-pack_vectors_into_pages d [] h s u =
      (refl, omega arith, (omega (arith, (vectors_per_page_fits d h).0)))
  unpack-pack_vectors_into_pages d (v ∷ vs) h s u =
      let k = calculate_vectors_per_page d in
      let fits = vectors_per_page_fits d h in
      let up = rounded_up (length (v ∷ vs)) k fits.0 in
      let n = (length (v ∷ vs) + k - 1) / k in
      let zero_add : 0 + n ≡ n = omega arith in
      let none_before : 0 * k ≡ 0 = omega arith in
      rw (u.0, length-pack_pages n 0 k (v ∷ vs))
        (
          unpack_all-pack_pages d k n 0 (v ∷ vs) fits.1 s u (rw zero_add up.0)
              ∙ ap (λ (m : ℕ). ok (without_metadata (drop m (v ∷ vs)))) none_before,
          up.0,
          up.1,
        )
