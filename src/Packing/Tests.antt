-- ===== src/Packing/Tests.antt =====
-- Two vectors in a packed page, with a sum as the checksum.
use magpie_db.Common.{
  ℕ, ◌+◌, ◌*◌, ◌%◌, ◌^◌, ◌≤◌, ◌<◌, ◌≡◌, refl, none, some, [], ◌∷◌, arith, ℕ-Eq, GoString-Eq, length,
  All, ok,
}
use magpie_db.Bytes.{Bytes}
use magpie_db.Packing.{VectorData, calculate_vectors_per_page, pack_vectors_into_pages}
use magpie_db.Packing.Unpack.{IsStorable, without_metadata}
use magpie_db.Packing.Pages.{Uniform, unpack_all, unpack-pack_vectors_into_pages}

sum : Bytes → ℕ
sum [] = 0
sum (b ∷ bs) = b + sum bs

abbrev crc32 : Bytes → ℕ
crc32 bs = sum bs % 2 ^ 32

crc32_bounded : (bs : Bytes) → crc32 bs < 2 ^ 32
crc32_bounded bs = omega arith

abbrev a : VectorData ℕ
a = record { id = 97 ∷ []; vector = 1 ∷ 2 ∷ []; metadata = some 5 }

abbrev b : VectorData ℕ
b = record { id = 98 ∷ 99 ∷ []; vector = 3 ∷ 4 ∷ []; metadata = none }

both-IsStorable : All IsStorable (a ∷ b ∷ [])
both-IsStorable = (
  record {
    nonempty = omega arith;
    short = omega arith;
    no_zero = (omega arith, tt);
    floats = (omega arith, (omega arith, tt));
  },
  (
    record {
      nonempty = omega arith;
      short = omega arith;
      no_zero = (omega arith, (omega arith, tt));
      floats = (omega arith, (omega arith, tt));
    },
    tt,
  ),
)

both-Uniform : Uniform 2 (a ∷ b ∷ [])
both-Uniform = (refl, (refl, tt))

-- The number of vectors of 128 dimensions in one page, and the least number there is.
per_page : calculate_vectors_per_page 128 ≡ 6
unfolding calculate_vectors_per_page
per_page = refl

at_least_one : calculate_vectors_per_page 2000 ≡ 1
unfolding calculate_vectors_per_page
at_least_one = refl

unpack-pack_vectors_into_pages_example :
    let k = calculate_vectors_per_page 2 in
    let pages = pack_vectors_into_pages (a ∷ b ∷ []) in
    (unpack_all crc32 pages ≡ ok (without_metadata (a ∷ b ∷ [])))
    × (2 ≤ length pages * k)
    × (length pages * k < 2 + k)
unpack-pack_vectors_into_pages_example =
    unpack-pack_vectors_into_pages crc32 crc32_bounded 2 (a ∷ b ∷ []) (omega arith) both-IsStorable
      both-Uniform
