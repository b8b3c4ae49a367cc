-- ===== src/Page/Vector.antt =====
-- Vectors as bytes: what is serialized is read back, four bytes a number.
use magpie_db.Common.{
  ℕ, ◌*◌, ◌/◌, ◌^◌, ◌<◌, ◌≡◌, refl, List, [], ◌∷◌, ◌++◌, arith, ℕ-Eq, GoString-Eq, length, All,
  length-append,
}
use mathlib.Core.List.{append-nil}
use mathlib.Core.Path.{ap₂}
use magpie_db.Bytes.{Bytes, slice, put_uint}
use magpie_db.Bytes.Endian.{length-put_uint, uint-put_uint}
use magpie_db.Page.{serialize_vector, deserialize_vector, read_floats}

-- Each number is a 32-bit pattern.
abbrev pub AreFloats : List ℕ → Type 0
AreFloats = All (λ v. v < 2 ^ 32)

pub length-serialize_vector :
    (vector : List ℕ) → length (serialize_vector vector) ≡ 4 * length vector
unfolding serialize_vector
length-serialize_vector [] = refl
length-serialize_vector (v ∷ vector) = omega (
  arith,
  length-append {0} (put_uint 4 v) (serialize_vector vector),
  length-put_uint 4 v,
  length-serialize_vector vector,
)

read_floats-serialize :
    (vector : List ℕ) (rest : Bytes)
    → AreFloats vector
    → read_floats (length vector) (serialize_vector vector ++ rest) ≡ vector
unfolding serialize_vector read_floats put_uint slice
read_floats-serialize [] rest h = refl
read_floats-serialize (v ∷ vector) rest h =
    ap₂ ◌∷◌ (unfold put_uint in uint-put_uint 4 v h.0) (read_floats-serialize vector rest h.1)

-- `DeserializeVector` gives back the vector of 32-bit patterns that `SerializeVector` wrote.
pub deserialize-serialize_vector :
    (vector : List ℕ) → AreFloats vector → deserialize_vector (serialize_vector vector) ≡ vector
unfolding deserialize_vector
deserialize-serialize_vector vector h =
    let count : length (serialize_vector vector) / 4 ≡ length vector =
      omega (arith, length-serialize_vector vector) in
    let whole : serialize_vector vector ++ [] ≡ serialize_vector vector = append-nil _ in
    rw count (rw whole at (read_floats-serialize vector [] h))
