-- ===== src/Wal/Cut.antt =====
-- One frame as the reading loops take it apart, whole or cut off.
use magpie_db.Common.{
  ℕ, zero, suc, ◌+◌, ◌-◌, ◌≤◌, ◌<◌, ◌≡◌, refl, ap, ◌∙◌, true, false, ◌||◌, [], ◌∷◌, ◌++◌, arith,
  ltb, ◌==◌, ℕ-Eq, GoString-Eq, length, take, drop, length-append, length-take, take-append_length,
  drop-append_length,
}
use magpie_db.Bytes.{Bytes, put_uint, uint}
use magpie_db.Bytes.Endian.{length-put_uint, uint-put_uint}
use magpie_db.Wal.{max_entry, is_empty, frame_bytes}

pub take-append_ge :
    (k : ℕ) (xs ys : Bytes) → length xs ≤ k → take k (xs ++ ys) ≡ xs ++ take (k - length xs) ys
take-append_ge k [] ys h = let e : k - 0 ≡ k = omega arith in rw e
take-append_ge zero (x ∷ xs) ys h = absurd (omega arith)
take-append_ge (suc k) (x ∷ xs) ys h =
    let e : suc k - suc (length xs) ≡ k - length xs = omega arith in
    rw e (ap (◌∷◌ x) (take-append_ge k xs ys (omega arith)))

pub nonempty_test : (xs : Bytes) → 0 < length xs → is_empty xs ≡ false
nonempty_test [] h = absurd (omega arith)
nonempty_test (x ∷ xs) h = refl

pub is_empty_eq : (xs : Bytes) → is_empty xs ≡ (length xs == 0)
is_empty_eq [] = refl
is_empty_eq (x ∷ xs) = ground arith

-- A length prefix and `part` behind it, as the loops take them apart.
pub record Head (size : ℕ) (part : Bytes) : Type 0 where
  pub long : ltb (length (put_uint 4 size ++ part)) 4 ≡ false
  pub prefix : uint (take 4 (put_uint 4 size ++ part)) ≡ size
  pub behind : drop 4 (put_uint 4 size ++ part) ≡ part
  pub bounds : (size == 0 || ltb max_entry size) ≡ false

pub Head-size : (size : ℕ) (part : Bytes) → 25 ≤ size → size ≤ max_entry → Head size part
Head-size size part h k =
    let four = length-put_uint 4 size in
    record {
      long = ground (arith, length-append {0} (put_uint 4 size) part, four);
      prefix =
          ap uint (take-append_length (put_uint 4 size) part 4 four)
          ∙ uint-put_uint 4 size (omega arith);
      behind = drop-append_length (put_uint 4 size) part 4 four;
      bounds = ground arith;
    }

pub length-frame : (b rest : Bytes) → length (frame_bytes b ++ rest) ≡ 4 + length b + length rest
unfolding frame_bytes
length-frame b rest = omega (arith, length-append {0}, length-put_uint)

-- A frame cut off after `k` bytes: in its length prefix, or behind it.
pub cut_early : (k : ℕ) (bytes : Bytes) → k < 4 → ltb (length (take k (frame_bytes bytes))) 4 ≡ true
unfolding frame_bytes
cut_early k bytes h = ground (
  arith,
  length-take k (put_uint 4 (length bytes) ++ bytes),
  length-append {0} (put_uint 4 (length bytes)) bytes,
  length-put_uint 4 (length bytes),
)

pub cut_late :
    (k : ℕ) (bytes : Bytes)
    → 4 ≤ k
    → take k (frame_bytes bytes) ≡ put_uint 4 (length bytes) ++ take (k - 4) bytes
unfolding frame_bytes
cut_late k bytes h =
    let four = length-put_uint 4 (length bytes) in
    take-append_ge k (put_uint 4 (length bytes)) bytes (omega (arith, four))
    ∙ ap (λ (n : ℕ). put_uint 4 (length bytes) ++ take (k - n) bytes) four
