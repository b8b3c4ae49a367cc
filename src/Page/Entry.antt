-- ===== src/Page/Entry.antt =====
-- Vector entries and IDs: what is packed is read back.
use magpie_db.Common.{
  ℕ, zero, suc, ◌+◌, ◌-◌, ◌^◌, ◌≤◌, ◌<◌, ◌≡◌, refl, ap, ◌∙◌, ◌≢◌, inl, inr, false, [], ◌∷◌, ◌++◌,
  arith, ltb, Bool-cases, GoString, ◌==◌, ℕ-Eq, GoString-Eq, length, replicate, All,
  take-append_length, take_all, ok,
}
use mathlib.Core.List.{append-nil, append_assoc}
use native.Mathlib.Nat.{sub-zero, suc-sub-suc, zero-add}
use magpie_db.Bytes.{Bytes, copy_at, put_uint, uint}
use magpie_db.Bytes.Copy.{length-copy_at}
use magpie_db.Bytes.Fields.{Fields, slice-field}
use magpie_db.Page.{
  VectorEntry, pack_vector_entry, unpack_vector_entry, find_zero, extract_id_string, pack_id_string,
}

-- The fields have the ranges of their Go types.
pub record InRange (e : VectorEntry) : Type 0 where
  pub id : length e.id ≡ 64
  pub offset : e.offset < 2 ^ 32
  pub length : e.length < 2 ^ 16
  pub flags : e.flags < 2 ^ 8
  pub reserved : e.reserved < 2 ^ 8
  pub metadata : e.metadata < 2 ^ 64

fields : VectorEntry → Fields
fields e =
    (0, e.id)
    ∷ (64, put_uint 4 e.offset)
    ∷ (68, put_uint 2 e.length)
    ∷ (70, e.flags ∷ [])
    ∷ (71, e.reserved ∷ [])
    ∷ (72, put_uint 8 e.metadata)
    ∷ []

pub length-pack_vector_entry : (e : VectorEntry) → length (pack_vector_entry e) ≡ 80
unfolding pack_vector_entry
length-pack_vector_entry e = simp length-copy_at

-- What `packVectorEntry` writes, `unpackVectorEntry` reads back, for fields in the ranges of their
-- Go types.
pub unpack-pack_vector_entry :
    (e : VectorEntry) → InRange e → unpack_vector_entry (pack_vector_entry e) ≡ ok e
unfolding pack_vector_entry unpack_vector_entry put_uint uint fields
unpack-pack_vector_entry e r =
    let z : Bytes = replicate 80 0 in
    ground (
      arith,
      length-pack_vector_entry e,
      slice-field (fields e) 0 0 64 e.id z refl r.id (omega arith) (omega arith),
      slice-field (fields e) 1 64 4 (put_uint 4 e.offset) z refl refl (omega arith) (omega arith),
      slice-field (fields e) 2 68 2 (put_uint 2 e.length) z refl refl (omega arith) (omega arith),
      slice-field (fields e) 3 70 1 (e.flags ∷ []) z refl refl (omega arith) (omega arith),
      slice-field (fields e) 4 71 1 (e.reserved ∷ []) z refl refl (omega arith) (omega arith),
      slice-field (fields e) 5 72 8 (put_uint 8 e.metadata) z refl refl (omega arith) (omega arith),
    )

-- No byte of the string is zero.
abbrev pub NoZero : GoString → Type 0
NoZero = All (λ b. b ≢ 0)

find_zero-at :
    (i : ℕ) (id rest : Bytes) → NoZero id → find_zero i (id ++ (0 ∷ rest)) ≡ i + length id
unfolding find_zero
find_zero-at i [] rest h = omega arith
find_zero-at i (b ∷ id) rest h = ground (arith, find_zero-at (suc i) id rest h.1)

find_zero-none : (i : ℕ) (id : Bytes) → NoZero id → find_zero i id ≡ 0
unfolding find_zero
find_zero-none i [] h = refl
find_zero-none i (b ∷ id) h = ground (arith, find_zero-none (suc i) id h.1)

nonzero_test : (n : ℕ) → 0 < n → (n == 0) ≡ false
nonzero_test n h = ground arith

extract-append :
    (id rest : Bytes) → NoZero id → 0 < length id → extract_id_string (id ++ (0 ∷ rest)) ≡ id
unfolding extract_id_string
extract-append id rest h p =
    rw (find_zero-at 0 id rest h, zero-add, nonzero_test (length id) p)
      (take-append_length id (0 ∷ rest) (length id) refl)

extract_full : (id : Bytes) → NoZero id → length id ≡ 64 → extract_id_string id ≡ id
unfolding extract_id_string
extract_full id h l = ground (arith, find_zero-none 0 id h, take_all 64 id (omega arith))

pack-append :
    (src : Bytes) (n : ℕ)
    → length src ≤ n
    → copy_at 0 src (replicate n 0) ≡ src ++ replicate (n - length src) 0
unfolding copy_at
pack-append [] zero h = refl
pack-append [] (suc n) h = simp sub-zero
pack-append (b ∷ src) zero h = absurd (omega arith)
pack-append (b ∷ src) (suc n) h = simp suc-sub-suc (ap (◌∷◌ b) (pack-append src n (omega arith)))

pub length-pack_id_string : (id : GoString) → length (pack_id_string id) ≡ 64
unfolding pack_id_string
length-pack_id_string id = length-copy_at 0 id (replicate 64 0)

pack_short :
    (id : GoString) (k : ℕ) → 64 - length id ≡ suc k → pack_id_string id ≡ id ++ (0 ∷ replicate k 0)
unfolding pack_id_string
pack_short id k e = pack-append id 64 (omega arith) ∙ ap (λ (n : ℕ). id ++ replicate n 0) e

-- A vector ID of 1 to 64 bytes, none of them zero, is read back from the entry that holds it.
pub extract-pack_id_string :
    (id : GoString)
    → 0 < length id
    → length id ≤ 64
    → NoZero id
    → extract_id_string (pack_id_string id) ≡ id
extract-pack_id_string id p q h = elim (Bool-cases (ltb (length id) 64)) [
  | inl short ↦ rw (pack_short id (63 - length id) (ground arith)) (extract-append id _ h p)
  | inr full ↦
      let e : length id ≡ 64 = ground arith in
      let none_left : 64 - length id ≡ 0 = omega arith in
      let same : pack_id_string id ≡ id ++ [] =
        (unfold pack_id_string in
          pack-append id 64 q ∙ ap (λ (n : ℕ). id ++ replicate n 0) none_left) in
      rw (same, append-nil) (extract_full id h e)
]

-- An ID that holds a zero byte behind at least one other is cut off there: the entry that is
-- written for it is read back under another ID.
pub extract-pack_zero :
    (a b : GoString)
    → 0 < length a
    → NoZero a
    → length (a ++ (0 ∷ b)) < 64
    → extract_id_string (pack_id_string (a ++ (0 ∷ b))) ≡ a
extract-pack_zero a b p h l =
    rw (pack_short (a ++ (0 ∷ b)) (63 - length (a ++ (0 ∷ b))) (omega arith), append_assoc)
      (extract-append a _ h p)
